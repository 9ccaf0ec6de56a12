-- ===== src/DaoSnapshot/Stakers.antt =====
-- The stakers of a contract after their snapshot, and the weights of the voting modules over it
-- (sync/daodao_snapshot.ts).
use ixo_blocksync.Base.{
  ◌≡◌, refl, sym, ap, ◌∙◌, ℕ, ◌+◌, ◌<◌, true, false, String, Option, some, none, List, [], ◌∷◌,
  arith, pair_eq, string_eq, All, subst, Bool-cases, inl, inr, eq_of_beq, ◌==◌, if◌then◌else◌,
}
use ixo_blocksync.Base.Int.{ℤ, pos, ◌+ℤ◌, int_laws}
use ixo_blocksync.Base.Table.{Table, lookup, upsert, lookup-upsert, upserted_same}
use ixo_blocksync.Numbers.{Number, nan, integer, Arithmetic, IsExact, add_numeric, js_plus}
use ixo_blocksync.Pg.{ok, running, pure, query, statement, ◌>>=◌}
use ixo_blocksync.Dao.{DaoDb, has_row, write, write_if}
use ixo_blocksync.Dao.StakerSql.{sum_staked, upsert_dao_cw20_staker}
use ixo_blocksync.Dao.VotingSql.{update_dao_all_voting_modules_total_weight_for_cw20_contract}
use ixo_blocksync.Dao.Archive.{ask}
use ixo_blocksync.Dao.Sums.{sum_staked-upsert}
use ixo_blocksync.Dao.Weights.{IsSettled, weighed, weighed-AllWeigh}
use ixo_blocksync.ArchiveApi.Listing.{HasDistinctKeys}
use ixo_blocksync.DaoSnapshot.Steps.{Queries, Context, balance_number, staked_total, write_stakers}
use ixo_blocksync.DaoSnapshot.Passes.{write_cw20_stakers, snapshot_cw20_stakers}

abbrev Stakers : Type 0
Stakers = Table (String × String) Number

abbrev Listed : Type 0
Listed = List (String × ℕ)

-- the sum of the balances
abbrev pub total_of : Listed → ℕ
total_of [] = 0
total_of ((a, balance) ∷ ss) = balance + total_of ss

abbrev pub AreNew : String → Listed → Stakers → Type 0
AreNew c ss t = All (λ s. lookup (c, s.0) t ≡ none) ss

abbrev HasDistinct : Listed → Type 0
HasDistinct = HasDistinctKeys (λ s. s.0)

abbrev with_staker : String → String → ℕ → Stakers → Stakers
with_staker c a balance t = upsert (c, a) (integer (pos balance)) (λ old. integer (pos balance)) t

abbrev stakers_after : String → Listed → Stakers → Stakers
stakers_after c [] t = t
stakers_after c ((a, balance) ∷ ss) t = stakers_after c ss (with_staker c a balance t)

write_stakers_run :
    (c : String) (ss : Listed) (db : DaoDb)
    → has_row c db.cw20_staking_contracts ≡ true
    → write_stakers upsert_dao_cw20_staker c ss (running db)
      ≡ (ok tt, running (record db { cw20_stakers = stakers_after c ss db.cw20_stakers }))
unfolding write_stakers upsert_dao_cw20_staker write_if statement pure ◌>>=◌
write_stakers_run c [] db there = refl
write_stakers_run c ((a, balance) ∷ ss) db there = rw there (
    write_stakers_run c ss (record db { cw20_stakers = with_staker c a balance db.cw20_stakers })
      there)

add_zero : (a : ℤ) → a ≡ a +ℤ pos 0
add_zero a = omega int_laws

without_zero : (x : Number) (y : ℤ) → add_numeric x (integer (pos 0)) ≡ integer y → x ≡ integer y
without_zero nan y h = cc h
without_zero (integer a) y h = ap integer (add_zero a) ∙ h

sum_with_staker :
    (c a : String) (balance n : ℕ) (t : Stakers)
    → lookup (c, a) t ≡ none
    → sum_staked c t ≡ integer (pos n)
    → sum_staked c (with_staker c a balance t) ≡ integer (pos (n + balance))
sum_with_staker c a balance n t absent sum = without_zero _ (pos (n + balance)) (
    rw (absent, sum) at (sum_staked-upsert c a (integer (pos balance)) t)
    ∙ ap integer (pos_add n balance))
  where
    pos_add : (a b : ℕ) → pos a +ℤ pos b ≡ pos (a + b)
    pos_add a b = omega int_laws

with_staker-AreNew :
    (c a : String) (balance : ℕ) (ss : Listed) (t : Stakers)
    → All (λ s. (a == s.0) ≡ false) ss
    → AreNew c ss t
    → AreNew c ss (with_staker c a balance t)
with_staker-AreNew c a balance [] t apart new = tt
with_staker-AreNew c a balance ((b, n) ∷ ss) t (other, apart) (absent, new) = (
  ground (
    arith,
    string_eq.beq_iff a b,
    other,
    absent,
    lookup-upsert (c, a) (c, b) (integer (pos balance)) (λ old. integer (pos balance)) t,
  ),
  with_staker-AreNew c a balance ss t apart new,
)

sum_stakers_after :
    (c : String) (ss : Listed) (n : ℕ) (t : Stakers)
    → HasDistinct ss
    → AreNew c ss t
    → sum_staked c t ≡ integer (pos n)
    → sum_staked c (stakers_after c ss t) ≡ integer (pos (n + total_of ss))
sum_stakers_after c [] n t distinct new sum = sum ∙ ap (λ m. integer (pos m)) (omega arith)
sum_stakers_after c ((a, balance) ∷ ss) n t (apart, distinct) (absent, new) sum =
    sum_stakers_after c ss (n + balance) (with_staker c a balance t) distinct
      (with_staker-AreNew c a balance ss t apart new) (sum_with_staker c a balance n t absent sum)
    ∙ ap (λ m. integer (pos m)) (omega arith)

-- What the table holds under a key: the balance that the contract lists for it, or what it held.
abbrev pub listed_or : String → Listed → String × String → Option Number → Option Number
listed_or c [] k old = old
listed_or c ((a, balance) ∷ ss) k old =
    if (c, a) == k then some (integer (pos balance)) else listed_or c ss k old

listed_or_apart :
    (c a : String) (ss : Listed) (k : String × String) (old : Option Number)
    → ◌≡◌ {A = String × String} (c, a) k
    → All (λ s. (a == s.0) ≡ false) ss
    → listed_or c ss k old ≡ old
listed_or_apart c a [] k old same apart = refl
listed_or_apart c a ((b, n) ∷ ss) k old same (other, apart) =
    let key : String × String = (c, b) in
    let differs : (key == k) ≡ false =
      subst (λ (j : String × String). (key == j) ≡ false) same
        (ground (arith, other, string_eq.beq_iff a b, string_eq.beq_iff b a)) in
    rw differs (listed_or_apart c a ss k old same apart)

lookup-stakers_after :
    (c : String) (ss : Listed) (t : Stakers) (k : String × String)
    → HasDistinct ss
    → lookup k (stakers_after c ss t) ≡ listed_or c ss k (lookup k t)
lookup-stakers_after c [] t k distinct = refl
lookup-stakers_after c ((a, balance) ∷ ss) t k (apart, distinct) =
    let key : String × String = (c, a) in
    lookup-stakers_after c ss (with_staker c a balance t) k distinct
    ∙ ap (listed_or c ss k)
        (lookup-upsert key k (integer (pos balance)) (λ old. integer (pos balance)) t)
    ∙ elim (Bool-cases (key == k)) [
      | inl e ↦
          rw (e, upserted_same (integer (pos balance)) (lookup key t))
            (listed_or_apart c a ss k (some (integer (pos balance))) (eq_of_beq key k e) apart)
      | inr e ↦ rw e refl
    ]

staked_total_exact :
    (js : Arithmetic) (ss : Listed) (n : ℕ)
    → IsExact js
    → n + total_of ss < 9007199254740992
    → staked_total js ss (integer (pos n)) ≡ integer (pos (n + total_of ss))
unfolding staked_total
staked_total_exact js [] n exact safe = ap (λ m. integer (pos m)) (omega arith)
staked_total_exact js ((a, balance) ∷ ss) n exact safe =
    ap (staked_total js ss) step
    ∙ staked_total_exact js ss (n + balance) exact (omega (arith, safe))
    ∙ ap (λ m. integer (pos m)) (omega arith)
  where
    near : js.nearest (pos balance) ≡ pos balance
    near = exact.nearest_safe (pos balance) (omega (arith, safe))

    pos_add : (a b : ℕ) → pos a +ℤ pos b ≡ pos (a + b)
    pos_add a b = omega int_laws

    step : js_plus js (integer (pos n)) (balance_number js balance) ≡ integer (pos (n + balance))
    step = rw near (
        ap integer (
          exact.plus_safe (pos n) (pos balance) (omega (arith, safe)) (omega (arith, safe))
            (rw (pos_add n balance) (omega (arith, safe)))
          ∙ pos_add n balance))

-- The snapshot of the stakers of a registered contract, of which the database has none, where the
-- sum of the balances is a safe integer: it stores under each staker the balance that the contract
-- lists, and leaves every other row of a staker as it was; afterwards every voting module over the
-- contract weighs what is staked in it, which is the sum of the balances.
pub snapshot_cw20_stakers-IsSettled :
    (js : Arithmetic) (q : Queries) (ctx : Context) (c : String) (s : String × ℕ) (ss : Listed)
    (db : DaoDb)
    → IsExact js
    → q.list_stakers ctx.height c ≡ ok (s ∷ ss)
    → has_row c db.cw20_staking_contracts ≡ true
    → HasDistinctKeys (λ (x : String × ℕ). x.0) (s ∷ ss)
    → AreNew c (s ∷ ss) db.cw20_stakers
    → sum_staked c db.cw20_stakers ≡ integer (pos 0)
    → total_of (s ∷ ss) < 9007199254740992
    → (db' : DaoDb) × (snapshot_cw20_stakers js q ctx c (running db) ≡ (ok tt, running db'))
      × ((k : String × String)
          → lookup k db'.cw20_stakers ≡ listed_or c (s ∷ ss) k (lookup k db.cw20_stakers))
      × IsSettled c db'
      × (sum_staked c db'.cw20_stakers ≡ integer (pos (total_of (s ∷ ss))))
unfolding snapshot_cw20_stakers write_cw20_stakers ask pure ◌>>=◌ write query
    update_dao_all_voting_modules_total_weight_for_cw20_contract
snapshot_cw20_stakers-IsSettled js q ctx c s ss db exact answer there distinct new nothing safe = (
  record stored { voting_modules = weighed c total db.voting_modules },
  rw (answer, write_stakers_run c (s ∷ ss) db there) refl,
  λ k. lookup-stakers_after c (s ∷ ss) db.cw20_stakers k distinct,
  rw weight (weighed-AllWeigh c total db.voting_modules),
  sum,
)
  where
    stored : DaoDb
    stored = record db { cw20_stakers = stakers_after c (s ∷ ss) db.cw20_stakers }

    total : Number
    total = staked_total js (s ∷ ss) (integer (pos 0))

    sum : sum_staked c stored.cw20_stakers ≡ integer (pos (total_of (s ∷ ss)))
    sum =
        sum_stakers_after c (s ∷ ss) 0 db.cw20_stakers distinct new nothing
        ∙ ap (λ m. integer (pos m)) (omega arith)

    weight : sum_staked c stored.cw20_stakers ≡ total
    weight =
        sum
        ∙ sym (
            staked_total_exact js (s ∷ ss) 0 exact (omega (arith, safe))
            ∙ ap (λ m. integer (pos m)) (omega arith))
