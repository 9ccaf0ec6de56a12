-- ===== src/Dao/Members.antt =====
-- The members of a cw4 group after `processCw4GroupEvent`, and the weights of the voting modules
-- over it.
use ixo_blocksync.Base.{
  ◌≡◌, ◌⊎◌, refl, ◌∙◌, ap, ℕ, ◌+◌, Bool, true, false, String, Option, none, some, List, [], ◌∷◌,
  ◌||◌, ◌==◌, arith, string_eq, pair_eq, Bool-cases, inl, inr, All, if◌then◌else◌,
}
use ixo_blocksync.Base.Int.{pos}
use ixo_blocksync.Base.Table.{
  Table, lookup, upsert, delete_keys, update_where, lookup-upsert, lookup-delete_keys,
}
use ixo_blocksync.Numbers.{Number, integer, Arithmetic}
use ixo_blocksync.Pg.{ok, running, query, statement, pure, ◌>>=◌, ◌>>◌}
use ixo_blocksync.Attributes.{get_wasm_attr}
use ixo_blocksync.Dao.{DaoVotingModule, DaoDb, has_row, is_value, write, write_if}
use ixo_blocksync.Dao.StakerSql.{
  Member, is_among, are_insertable, insert_members, delete_dao_cw4_members, insert_dao_cw4_members,
  batch_update_dao_cw4_members, sum_weight,
}
use ixo_blocksync.Dao.VotingSql.{update_dao_all_voting_modules_total_weight_for_group_contract}
use ixo_blocksync.Dao.Archive.{Archive, DaoEvent, ask}
use ixo_blocksync.Dao.StakeEvents.{process_cw4_group_event, refresh_members, total_weight}

abbrev Members : Type 0
Members = Table (String × String) ℕ

-- None of the members has a row.
abbrev AllAbsent : String → List Member → Members → Type 0
AllAbsent g ms t = All (λ m. lookup (g, m.0) t ≡ none) ms

upsert-AllAbsent :
    (g addr : String) (weight : ℕ) (ms : List Member) (t : Members)
    → is_among addr ms ≡ false
    → AllAbsent g ms t
    → AllAbsent g ms (upsert (g, addr) weight (λ old. weight) t)
upsert-AllAbsent g addr weight [] t h a = tt
upsert-AllAbsent g addr weight ((b, w) ∷ ms) t h (a, absent) = (
  ground (
    arith,
    string_eq.beq_iff b addr,
    string_eq.beq_iff addr b,
    h,
    a,
    lookup-upsert (g, addr) (g, b) weight (λ old. weight) t,
  ),
  upsert-AllAbsent g addr weight ms t (among_rest (b == addr) (is_among addr ms) h) absent,
)
  where
    among_rest : (x y : Bool) → (x || y) ≡ false → y ≡ false
    among_rest x y e = ground (arith, e)

sum_weight-upsert :
    (g addr : String) (weight : ℕ) (t : Members)
    → lookup (g, addr) t ≡ none
    → sum_weight g (upsert (g, addr) weight (λ old. weight) t) ≡ weight + sum_weight g t
unfolding sum_weight upsert lookup
sum_weight-upsert g addr weight [] h = ground (arith, string_eq.beq_iff g g)
sum_weight-upsert g addr weight ((k, w) ∷ t) h =
    ground (
      arith,
      string_eq.beq_iff k.0 g,
      string_eq.beq_iff k.1 addr,
      sum_weight-upsert g addr weight t,
    )

sum_weight-insert_members :
    (g : String) (ms : List Member) (t : Members)
    → are_insertable ms ≡ true
    → AllAbsent g ms t
    → sum_weight g (insert_members g ms t) ≡ total_weight ms + sum_weight g t
unfolding total_weight
sum_weight-insert_members g [] t h a = omega arith
sum_weight-insert_members g ((addr, weight) ∷ ms) t h (a, absent) =
    let fresh : is_among addr ms ≡ false = ground (arith, h) in
    let rest : are_insertable ms ≡ true = ground (arith, h) in
    let ih =
      sum_weight-insert_members g ms (upsert (g, addr) weight (λ old. weight) t) rest
        (upsert-AllAbsent g addr weight ms t fresh absent) in
    omega (arith, ih, sum_weight-upsert g addr weight t a)

sum_weight-delete_keys :
    (g : String) (t : Members) → sum_weight g (delete_keys (λ k. k.0 == g) t) ≡ 0
unfolding sum_weight delete_keys
sum_weight-delete_keys g [] = refl
sum_weight-delete_keys g ((k, w) ∷ t) =
    ground (arith, string_eq.beq_iff k.0 g, sum_weight-delete_keys g t)

delete_keys-AllAbsent :
    (g : String) (ms : List Member) (t : Members) → AllAbsent g ms (delete_keys (λ k. k.0 == g) t)
delete_keys-AllAbsent g [] t = tt
delete_keys-AllAbsent g ((b, w) ∷ ms) t = (
  ground (arith, string_eq.beq_iff g g, lookup-delete_keys (λ k. k.0 == g) (g, b) t),
  delete_keys-AllAbsent g ms t,
)

-- the weight of an address in a list of members
abbrev pub weight_in : List Member → String → Option ℕ
weight_in [] b = none
weight_in ((addr, weight) ∷ ms) b = if addr == b then some weight else weight_in ms b

abbrev or_else : Option ℕ → Option ℕ → Option ℕ
or_else none old = old
or_else (some w) old = some w

weight_in-is_among : (b : String) (ms : List Member) → is_among b ms ≡ false → weight_in ms b ≡ none
weight_in-is_among b [] h = refl
weight_in-is_among b ((addr, w) ∷ ms) h =
    ground (arith, string_eq.beq_iff addr b, h, weight_in-is_among b ms)

lookup-insert_members :
    (g d b : String) (ms : List Member) (t : Members)
    → are_insertable ms ≡ true
    → lookup (d, b) (insert_members g ms t)
      ≡ (if g == d then or_else (weight_in ms b) (lookup (d, b) t) else lookup (d, b) t)
lookup-insert_members g d b [] t h = ground (arith, string_eq.beq_iff g d)
lookup-insert_members g d b ((addr, weight) ∷ ms) t h =
    let fresh : is_among addr ms ≡ false = ground (arith, h) in
    let rest : are_insertable ms ≡ true = ground (arith, h) in
    ground (
      arith,
      string_eq.beq_iff g d,
      string_eq.beq_iff addr b,
      lookup-insert_members g d b ms (upsert (g, addr) weight (λ old. weight) t) rest,
      lookup-upsert (g, addr) (d, b) weight (λ old. weight) t,
      weight_in-is_among b ms,
      fresh,
    )

-- What a refresh of the members leaves.
abbrev refreshed : String → List Member → Members → Members
refreshed g ms t = insert_members g ms (delete_keys (λ k. k.0 == g) t)

sum_weight-refreshed :
    (g : String) (ms : List Member) (t : Members)
    → are_insertable ms ≡ true
    → sum_weight g (refreshed g ms t) ≡ total_weight ms
sum_weight-refreshed g ms t h =
    let inserted =
      sum_weight-insert_members g ms (delete_keys (λ k. k.0 == g) t) h
        (delete_keys-AllAbsent g ms t) in
    omega (arith, inserted, sum_weight-delete_keys g t)

or_else-none : (o : Option ℕ) → or_else o none ≡ o
or_else-none none = refl
or_else-none (some w) = refl

lookup-refreshed :
    (g d b : String) (ms : List Member) (t : Members)
    → are_insertable ms ≡ true
    → lookup (d, b) (refreshed g ms t) ≡ (if g == d then weight_in ms b else lookup (d, b) t)
lookup-refreshed g d b ms t h = ground (
  arith,
  string_eq.beq_iff g d,
  string_eq.beq_iff d g,
  lookup-insert_members g d b ms (delete_keys (λ k. k.0 == g) t) h,
  lookup-delete_keys (λ k. k.0 == g) (d, b) t,
  or_else-none (weight_in ms b),
)

-- Every voting module over the group has this weight.
abbrev pub AllWeighGroup : String → Number → Table String DaoVotingModule → Type 0
AllWeighGroup g n t =
    All (λ r. (is_value r.1.group_contract_address g ≡ false) ⊎ (r.1.total_weight ≡ some n)) t

abbrev group_weighed : String → Number → Table String DaoVotingModule → Table String DaoVotingModule
group_weighed g n t =
    update_where (λ row. is_value row.group_contract_address g)
      (λ row. record row { total_weight = some n }) t

group_weighed-AllWeighGroup :
    (g : String) (n : Number) (t : Table String DaoVotingModule)
    → AllWeighGroup g n (group_weighed g n t)
unfolding update_where
group_weighed-AllWeighGroup g n [] = tt
group_weighed-AllWeighGroup g n ((k, row) ∷ t) =
    elim (Bool-cases (is_value row.group_contract_address g)) [
      | inl e ↦ (inr (rw e), group_weighed-AllWeighGroup g n t)
      | inr e ↦ (inl (rw e e), group_weighed-AllWeighGroup g n t)
    ]

group_case :
    (js : Arithmetic) (archive : Archive) (ev : DaoEvent) (g : String) (ms : List Member)
    → ev.action ≡ "update_members"
    → get_wasm_attr ev.attributes "_contract_address" ≡ g
    → archive.cw4_members ev.block_height g ≡ ok ms
    → process_cw4_group_event js archive ev ≡ (
        refresh_members g ms
        >> update_dao_all_voting_modules_total_weight_for_group_contract g
            (integer (pos (total_weight ms))))
unfolding process_cw4_group_event ask pure ◌>>=◌
group_case js archive ev g ms e h answer = simp (e, h, answer)

-- After `update_members` with an answer of at least one member, each with an INTEGER weight and
-- none twice, the rows of the group are the answered members and those of other groups stay; the
-- weights of the rows sum up to the total of the answer, and so weighs every voting module over the
-- group.
pub process_cw4_group_event-members :
    (js : Arithmetic) (archive : Archive) (ev : DaoEvent) (db : DaoDb) (g : String) (m : Member)
    (ms : List Member)
    → ev.action ≡ "update_members"
    → get_wasm_attr ev.attributes "_contract_address" ≡ g
    → archive.cw4_members ev.block_height g ≡ ok (m ∷ ms)
    → are_insertable (m ∷ ms) ≡ true
    → has_row g db.cw4_group_contracts ≡ true
    → (db' : DaoDb) × (process_cw4_group_event js archive ev (running db) ≡ (ok tt, running db'))
      × ((d b : String)
          → lookup (d, b) db'.cw4_members
            ≡ (if g == d then weight_in (m ∷ ms) b else lookup (d, b) db.cw4_members))
      × (sum_weight g db'.cw4_members ≡ total_weight (m ∷ ms))
      × AllWeighGroup g (integer (pos (total_weight (m ∷ ms)))) db'.voting_modules
unfolding refresh_members batch_update_dao_cw4_members delete_dao_cw4_members insert_dao_cw4_members
    update_dao_all_voting_modules_total_weight_for_group_contract write write_if query statement
    ◌>>=◌
process_cw4_group_event-members js archive ev db g m ms e h answer insertable registered =
    let wiped = delete_keys (λ k. k.0 == g) db.cw4_members in
    let total = total_weight (m ∷ ms) in
    (
      record db {
        cw4_members = insert_members g (m ∷ ms) wiped;
        voting_modules = group_weighed g (integer (pos total)) db.voting_modules;
      },
      ap (λ a. a (running db)) (group_case js archive ev g (m ∷ ms) e h answer)
          ∙ rw (insertable, registered),
      λ d b. lookup-refreshed g d b (m ∷ ms) db.cw4_members insertable,
      sum_weight-refreshed g (m ∷ ms) db.cw4_members insertable,
      group_weighed-AllWeighGroup g (integer (pos total)) db.voting_modules,
    )

-- Where the answer of `update_members` has no members, the rows of the group stay as they were, and
-- every voting module over the group weighs 0.
process_cw4_group_event-empty :
    (js : Arithmetic) (archive : Archive) (ev : DaoEvent) (db : DaoDb) (g : String)
    → ev.action ≡ "update_members"
    → get_wasm_attr ev.attributes "_contract_address" ≡ g
    → archive.cw4_members ev.block_height g ≡ ok []
    → (db' : DaoDb) × (process_cw4_group_event js archive ev (running db) ≡ (ok tt, running db'))
      × (db'.cw4_members ≡ db.cw4_members)
      × AllWeighGroup g (integer (pos 0)) db'.voting_modules
unfolding refresh_members total_weight update_dao_all_voting_modules_total_weight_for_group_contract
    write query pure ◌>>=◌
process_cw4_group_event-empty js archive ev db g e h answer = (
  record db { voting_modules = group_weighed g (integer (pos 0)) db.voting_modules },
  ap (λ a. a (running db)) (group_case js archive ev g [] e h answer),
  refl,
  group_weighed-AllWeighGroup g (integer (pos 0)) db.voting_modules,
)
