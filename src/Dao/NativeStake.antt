-- ===== src/Dao/NativeStake.antt =====
-- The stakes and unstakes of native tokens (`processDaoVotingEvent`): the weight of a voting module,
-- which the events add to and take from, stays the sum of what is staked in it.
use ixo_blocksync.Base.{
  ◌≡◌, sym, ◌∙◌, ap, true, String, some, string_eq, pair_eq, Bool-cases, inl, inr, if◌then◌else◌,
}
use ixo_blocksync.Base.Int.{ℤ, ◌+ℤ◌, neg, is_zero}
use ixo_blocksync.Base.Table.{Table, lookup, upsert, update, delete, lookup-update_self}
use ixo_blocksync.Numbers.{Number, integer, Arithmetic, IsExact, IsSafe, parse_numeric, parse_attr}
use ixo_blocksync.Pg.{ok, running, query, statement, ◌>>=◌}
use ixo_blocksync.Attributes.{get_wasm_attr?}
use ixo_blocksync.Dao.{DaoVotingModule, DaoDb, has_row, write, write_if, select}
use ixo_blocksync.Dao.StakerSql.{
  sum_staked, upsert_dao_native_staker, get_dao_native_staker_staked_amount,
  delete_dao_native_staker,
}
use ixo_blocksync.Dao.VotingSql.{
  weight_of, update_voting_module, update_dao_voting_module_total_weight,
  get_dao_voting_module_total_weight,
}
use ixo_blocksync.Dao.Archive.{Archive, DaoEvent}
use ixo_blocksync.Dao.VotingEvents.{stake_native, unstake_native, set_native_staker}
use ixo_blocksync.Dao.Sums.{or_zero}
use ixo_blocksync.Dao.Weights.{sum_staked-upsert_by, sum_staked-delete_by}
use ixo_blocksync.Dao.Cw20Stake.{parse_numeric-or_zero}

-- The event moves `n` of the staker `f` in the voting module `c`, whose row is `row`; `s` is staked in
-- all and `o` by `f`, JavaScript holds the three exactly, and the module weighs what is staked.
pub record IsNativeMove (js : Arithmetic) (ev : DaoEvent) (db : DaoDb) (c f : String) (n s o : ℤ)
    (row : DaoVotingModule) : Type 0 where
  pub staker : get_wasm_attr? ev.attributes "from" ≡ some f
  pub amount : parse_attr js (get_wasm_attr? ev.attributes "amount") ≡ integer n
  pub stored : lookup c db.voting_modules ≡ some row
  pub settled : row.total_weight ≡ some (integer s)
  pub sum : sum_staked c db.native_stakers ≡ integer s
  pub old : or_zero (lookup (c, f) db.native_stakers) ≡ integer o
  pub amount_safe : IsSafe n
  pub sum_safe : IsSafe s
  pub old_safe : IsSafe o

module _ (js : Arithmetic) (archive : Archive) (ev : DaoEvent) (db : DaoDb) (c f : String)
    (n s o : ℤ) (row : DaoVotingModule) (exact : IsExact js)
    (h : IsNativeMove js ev db c f n s o row) where
  abbrev natives_with : ℤ → Table (String × String) Number
  natives_with z = upsert (c, f) (integer z) (λ old. integer z) db.native_stakers

  abbrev weighing : Table (String × String) Number → ℤ → DaoDb
  weighing stakers z = record db {
    native_stakers = stakers;
    voting_modules =
        update c (λ row. record row { total_weight = some (integer z) }) db.voting_modules;
  }

  weight_read : parse_numeric js (weight_of (lookup c db.voting_modules)) ≡ integer s
  weight_read = rw (h.stored, h.settled, exact.nearest_safe s h.sum_safe)

  there : has_row c db.voting_modules ≡ true
  there = rw h.stored

  -- A stake succeeds where JavaScript holds the new amounts exactly, and the module, which weighed
  -- what was staked in it, weighs what is then: the amount more.
  stake_native-settled :
      IsSafe (s +ℤ n)
      → IsSafe (o +ℤ n)
      → (db' : DaoDb) × (stake_native js archive ev c (running db) ≡ (ok tt, running db'))
        × (sum_staked c db'.native_stakers ≡ integer (s +ℤ n))
        × (lookup c db'.voting_modules
            ≡ some (record row { total_weight = some (sum_staked c db'.native_stakers) }))
  unfolding stake_native get_dao_native_staker_staked_amount upsert_dao_native_staker
      get_dao_voting_module_total_weight update_dao_voting_module_total_weight update_voting_module
      write write_if select query statement ◌>>=◌
  stake_native-settled safe_s safe_o =
      let sum = sum_staked-upsert_by c f s o n db.native_stakers h.sum h.old in
      (
        weighing (natives_with (o +ℤ n)) (s +ℤ n),
        rw
            (
              h.staker,
              h.amount,
              parse_numeric-or_zero js (lookup (c, f) db.native_stakers) o exact h.old h.old_safe,
              exact.plus_safe o n h.old_safe h.amount_safe safe_o,
            )
            (rw there (rw weight_read (rw (exact.plus_safe s n h.sum_safe h.amount_safe safe_s)))),
        sum,
        lookup-update_self c _ db.voting_modules row h.stored
            ∙ ap (λ w. some (record row { total_weight = some w })) (sym sum),
      )

  abbrev natives_left : Table (String × String) Number
  natives_left =
      if is_zero (o +ℤ neg n) then delete (c, f) db.native_stakers else natives_with (o +ℤ neg n)

  natives_left-sum : sum_staked c natives_left ≡ integer (s +ℤ neg n)
  natives_left-sum = elim (Bool-cases (is_zero (o +ℤ neg n))) [
    | inl e ↦ rw e (sum_staked-delete_by c f s o (neg n) db.native_stakers h.sum h.old e)
    | inr e ↦ rw e (sum_staked-upsert_by c f s o (neg n) db.native_stakers h.sum h.old)
  ]

  -- An unstake succeeds where JavaScript holds the new amounts exactly, and the module, which
  -- weighed what was staked in it, weighs what is then: the amount less. A staker whose amount has
  -- come to nothing has no row.
  unstake_native-settled :
      IsSafe (s +ℤ neg n)
      → IsSafe (o +ℤ neg n)
      → (db' : DaoDb) × (unstake_native js archive ev c (running db) ≡ (ok tt, running db'))
        × (sum_staked c db'.native_stakers ≡ integer (s +ℤ neg n))
        × (lookup c db'.voting_modules
            ≡ some (record row { total_weight = some (sum_staked c db'.native_stakers) }))
  unfolding unstake_native set_native_staker get_dao_native_staker_staked_amount
      upsert_dao_native_staker delete_dao_native_staker get_dao_voting_module_total_weight
      update_dao_voting_module_total_weight update_voting_module write write_if select query
      statement ◌>>=◌
  unstake_native-settled safe_s safe_o =
      let minus = exact.minus_safe s n h.sum_safe h.amount_safe safe_s in
      (
        weighing natives_left (s +ℤ neg n),
        rw
            (
              h.staker,
              h.amount,
              parse_numeric-or_zero js (lookup (c, f) db.native_stakers) o exact h.old h.old_safe,
              exact.minus_safe o n h.old_safe h.amount_safe safe_o,
            )
            (elim (Bool-cases (is_zero (o +ℤ neg n))) [
              | inl e ↦ rw e (rw weight_read (rw minus))
              | inr e ↦ rw e (rw there (rw weight_read (rw minus)))
            ]),
        natives_left-sum,
        lookup-update_self c _ db.voting_modules row h.stored
            ∙ ap (λ w. some (record row { total_weight = some w })) (sym natives_left-sum),
      )
