-- ===== src/Dao/Cw20Stake.antt =====
-- The stakes and unstakes of `processCw20StakeEvent`: its voting modules weigh what is staked.
use ixo_blocksync.Base.{
  ◌≡◌, ◌≢◌, refl, sym, ◌∙◌, ap, true, String, Option, none, some, List, arith, string_eq, pair_eq,
  Bool-cases, inl, inr, if◌then◌else◌,
}
use ixo_blocksync.Base.Int.{ℤ, pos, ◌+ℤ◌, neg, is_zero}
use ixo_blocksync.Base.Table.{Table, lookup, upsert, delete}
use ixo_blocksync.Numbers.{
  Number, nan, integer, Arithmetic, IsExact, IsSafe, parse_numeric, parse_attr,
}
use ixo_blocksync.Pg.{ok, running, query, statement, pure, ◌>>=◌, ◌>>◌}
use ixo_blocksync.Attributes.{get_wasm_attr, get_wasm_attr?}
use ixo_blocksync.Dao.{cw20, StakingClaim, DaoDb, has_row, write, write_if, select}
use ixo_blocksync.Dao.StakerSql.{
  sum_staked, upsert_dao_cw20_staker, get_dao_cw20_staker_staked_amount,
  get_dao_cw20_stakers_sum_staked_for_contract, delete_dao_cw20_staker,
}
use ixo_blocksync.Dao.VotingSql.{update_dao_all_voting_modules_total_weight_for_cw20_contract}
use ixo_blocksync.Dao.ClaimSql.{insert_dao_staking_claim}
use ixo_blocksync.Dao.Archive.{Archive, QueuedClaim, DaoEvent, ask}
use ixo_blocksync.Dao.StakeEvents.{
  stake_cw20, unstake_cw20, process_cw20_stake_event, set_cw20_staker, queue_claim, insert_newest,
  newest, is_queueing,
}
use ixo_blocksync.Dao.Sums.{or_zero, sum_staked-upsert_other, sum_staked-delete_other}
use ixo_blocksync.Dao.Weights.{
  IsSettled, restaked, restaked-IsSettled, sum_staked-upsert_by, sum_staked-delete_by,
}

-- the cases of the switch that move an amount
stake_case :
    (js : Arithmetic) (archive : Archive) (ev : DaoEvent) (c : String)
    → ev.action ≡ "stake"
    → get_wasm_attr ev.attributes "_contract_address" ≡ c
    → process_cw20_stake_event js archive ev ≡ stake_cw20 js archive ev c
unfolding process_cw20_stake_event
stake_case js archive ev c e h = simp (e, h)

unstake_case :
    (js : Arithmetic) (archive : Archive) (ev : DaoEvent) (c f : String)
    → ev.action ≡ "unstake"
    → get_wasm_attr ev.attributes "_contract_address" ≡ c
    → get_wasm_attr? ev.attributes "from" ≡ some f
    → process_cw20_stake_event js archive ev
      ≡ (unstake_cw20 js archive ev c >> queue_claim js archive cw20 ev c (some f))
unfolding process_cw20_stake_event
unstake_case js archive ev c f e h hf = simp (e, h, hf)

-- The event moves `n` of the staker `f` at the contract `c`, whose row of the registry is there;
-- `s` is staked in all and `o` by `f`, and JavaScript holds the three exactly.
pub record IsMove (js : Arithmetic) (ev : DaoEvent) (db : DaoDb) (c f : String) (n s o : ℤ)
    : Type 0 where
  pub contract : get_wasm_attr ev.attributes "_contract_address" ≡ c
  pub staker : get_wasm_attr? ev.attributes "from" ≡ some f
  pub amount : parse_attr js (get_wasm_attr? ev.attributes "amount") ≡ integer n
  pub registered : has_row c db.cw20_staking_contracts ≡ true
  pub sum : sum_staked c db.cw20_stakers ≡ integer s
  pub old : or_zero (lookup (c, f) db.cw20_stakers) ≡ integer o
  pub amount_safe : IsSafe n
  pub sum_safe : IsSafe s
  pub old_safe : IsSafe o

amount_of : Number → ℤ
amount_of nan = pos 0
amount_of (integer z) = z

pub parse_numeric-or_zero :
    (js : Arithmetic) (r : Option Number) (o : ℤ)
    → IsExact js
    → or_zero r ≡ integer o
    → IsSafe o
    → parse_numeric js r ≡ integer o
unfolding amount_of
parse_numeric-or_zero js none o exact h safe = rw (exact.nearest_safe (pos 0) zero_safe) h
  where
    zero_safe : IsSafe (pos 0)
    zero_safe = omega arith
parse_numeric-or_zero js (some nan) o exact h safe = cc h
parse_numeric-or_zero js (some (integer z)) o exact h safe =
    rw (ap amount_of h, exact.nearest_safe o safe)

module _ (js : Arithmetic) (archive : Archive) (ev : DaoEvent) (c f : String) where
  -- The claims of an unstake go into their table, and into no other.
  queue_claim_run :
      (claims : List QueuedClaim) (db : DaoDb)
      → archive.staking_claims ev.block_height c (some f) ≡ ok claims
      → (stored : List StakingClaim) × (queue_claim js archive cw20 ev c (some f) (running db)
          ≡ (ok tt, running (record db { claims = stored })))
  unfolding queue_claim ask insert_newest insert_dao_staking_claim write query pure ◌>>=◌
  queue_claim_run claims db e =
      elim (Bool-cases (is_queueing (get_wasm_attr? ev.attributes "claim_duration"))) [
        | inl q ↦ rw (q, e) (inserted (newest claims))
        | inr q ↦ (db.claims, rw q)
      ]
    where
      inserted :
          (c' : Option QueuedClaim)
          → (stored : List StakingClaim) × (insert_newest js archive cw20 c
                (some f)
                ev.block_height
                c'
                (running db)
              ≡ (ok tt, running (record db { claims = stored })))
      inserted none = (db.claims, refl)
      inserted (some q) = (_, refl)

module _ (js : Arithmetic) (archive : Archive) (ev : DaoEvent) (db : DaoDb) (c d f : String)
    (n s o : ℤ) (exact : IsExact js) (h : IsMove js ev db c f n s o) where
  abbrev stakers_with : ℤ → Table (String × String) Number
  stakers_with z = upsert (c, f) (integer z) (λ old. integer z) db.cw20_stakers

  stake_cw20_run :
      IsSafe (s +ℤ n)
      → IsSafe (o +ℤ n)
      → stake_cw20 js archive ev c (running db)
        ≡ (ok tt, running (restaked c (stakers_with (o +ℤ n)) (integer (s +ℤ n)) db))
  unfolding stake_cw20 get_dao_cw20_staker_staked_amount
      get_dao_cw20_stakers_sum_staked_for_contract upsert_dao_cw20_staker
      update_dao_all_voting_modules_total_weight_for_cw20_contract write write_if select query
      statement ◌>>=◌
  stake_cw20_run safe_s safe_o = rw (
    h.staker,
    h.amount,
    h.registered,
    parse_numeric-or_zero js (lookup (c, f) db.cw20_stakers) o exact h.old h.old_safe,
    h.sum,
    exact.nearest_safe s h.sum_safe,
    exact.plus_safe s n h.sum_safe h.amount_safe safe_s,
    exact.plus_safe o n h.old_safe h.amount_safe safe_o,
  )

  abbrev stakers_left : Table (String × String) Number
  stakers_left =
      if is_zero (o +ℤ neg n) then delete (c, f) db.cw20_stakers else stakers_with (o +ℤ neg n)

  unstake_cw20_run :
      IsSafe (s +ℤ neg n)
      → IsSafe (o +ℤ neg n)
      → unstake_cw20 js archive ev c (running db)
        ≡ (ok tt, running (restaked c stakers_left (integer (s +ℤ neg n)) db))
  unfolding unstake_cw20 set_cw20_staker get_dao_cw20_staker_staked_amount
      get_dao_cw20_stakers_sum_staked_for_contract upsert_dao_cw20_staker delete_dao_cw20_staker
      update_dao_all_voting_modules_total_weight_for_cw20_contract write write_if select query
      statement ◌>>=◌
  unstake_cw20_run safe_s safe_o =
      rw
        (
          h.staker,
          h.amount,
          parse_numeric-or_zero js (lookup (c, f) db.cw20_stakers) o exact h.old h.old_safe,
          h.sum,
          exact.nearest_safe s h.sum_safe,
          exact.minus_safe s n h.sum_safe h.amount_safe safe_s,
          exact.minus_safe o n h.old_safe h.amount_safe safe_o,
        )
        (elim (Bool-cases (is_zero (o +ℤ neg n))) [ inl e ↦ rw e | inr e ↦ rw (e, h.registered) ])

  stakers_left-sum : sum_staked c stakers_left ≡ integer (s +ℤ neg n)
  stakers_left-sum = elim (Bool-cases (is_zero (o +ℤ neg n))) [
    | inl e ↦ rw e (sum_staked-delete_by c f s o (neg n) db.cw20_stakers h.sum h.old e)
    | inr e ↦ rw e (sum_staked-upsert_by c f s o (neg n) db.cw20_stakers h.sum h.old)
  ]

  stakers_left-sum_other : c ≢ d → sum_staked d stakers_left ≡ sum_staked d db.cw20_stakers
  stakers_left-sum_other ne = elim (Bool-cases (is_zero (o +ℤ neg n))) [
    | inl e ↦ rw e (sum_staked-delete_other c d f db.cw20_stakers ne)
    | inr e ↦ rw e (sum_staked-upsert_other c d f _ db.cw20_stakers ne)
  ]

  -- A stake succeeds where JavaScript holds the new amounts exactly: the sum of the contract grows
  -- by the amount, every voting module over the contract weighs the sum, and the modules over any
  -- other contract that weighed its sum still do.
  pub process_cw20_stake_event-stake :
      ev.action ≡ "stake"
      → IsSafe (s +ℤ n)
      → IsSafe (o +ℤ n)
      → IsSettled d db
      → (db' : DaoDb) × (process_cw20_stake_event js archive ev (running db) ≡ (ok tt, running db'))
        × (sum_staked c db'.cw20_stakers ≡ integer (s +ℤ n))
        × IsSettled c db'
        × IsSettled d db'
  process_cw20_stake_event-stake is_stake safe_s safe_o settled =
      let sum = sum_staked-upsert_by c f s o n db.cw20_stakers h.sum h.old in
      let (own, kept) =
        restaked-IsSettled c d (stakers_with (o +ℤ n)) (integer (s +ℤ n)) db (sym sum)
          (sum_staked-upsert_other c d f _ db.cw20_stakers) settled in
      (
        restaked c (stakers_with (o +ℤ n)) (integer (s +ℤ n)) db,
        ap (λ m. m (running db)) (stake_case js archive ev c is_stake h.contract)
            ∙ stake_cw20_run safe_s safe_o,
        sum,
        own,
        kept,
      )

  -- An unstake succeeds where JavaScript holds the new amounts exactly and the query of the queued
  -- claims answers: the sum of the contract shrinks by the amount, every voting module over the
  -- contract weighs the sum, and the modules over any other contract that weighed its sum still do.
  pub process_cw20_stake_event-unstake :
      (claims : List QueuedClaim)
      → ev.action ≡ "unstake"
      → archive.staking_claims ev.block_height c (some f) ≡ ok claims
      → IsSafe (s +ℤ neg n)
      → IsSafe (o +ℤ neg n)
      → IsSettled d db
      → (db' : DaoDb) × (process_cw20_stake_event js archive ev (running db) ≡ (ok tt, running db'))
        × (sum_staked c db'.cw20_stakers ≡ integer (s +ℤ neg n))
        × IsSettled c db'
        × IsSettled d db'
  unfolding ◌>>=◌
  process_cw20_stake_event-unstake claims is_unstake answer safe_s safe_o settled =
      let left = restaked c stakers_left (integer (s +ℤ neg n)) db in
      let (stored, queued) = queue_claim_run js archive ev c f claims left answer in
      let (own, kept) =
        restaked-IsSettled c d stakers_left (integer (s +ℤ neg n)) db (sym stakers_left-sum)
          stakers_left-sum_other settled in
      (
        record left { claims = stored },
        ap (λ m. m (running db)) (unstake_case js archive ev c f is_unstake h.contract h.staker)
            ∙ rw (unstake_cw20_run safe_s safe_o) queued,
        stakers_left-sum,
        own,
        kept,
      )
