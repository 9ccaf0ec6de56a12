-- ===== src/Dao/StakerSql.antt =====
-- postgres/dao.ts: the members of a cw4 group and the stakers of cw20 tokens, native tokens and
-- NFTs, with the sums and counts over them. A null staker is refused by an insert, and found by no
-- comparison.
use ixo_blocksync.Base.{
  ℕ, ◌+◌, Bool, true, false, String, Option, none, some, List, [], ◌∷◌, ◌&&◌, ◌||◌, not, ◌==◌,
  string_eq, pair_eq, ltb, if◌then◌else◌,
}
use ixo_blocksync.Base.Int.{pos}
use ixo_blocksync.Base.Table.{Table, lookup, upsert, delete, delete_keys}
use ixo_blocksync.Numbers.{Number, integer, Arithmetic, parse_numeric, add_numeric}
use ixo_blocksync.Pg.{Exec, Action, pure, ◌>>=◌, ◌>>◌}
use ixo_blocksync.Dao.{DaoDb, write, write_if, select, has_row}

abbrev pub Member : Type 0
Member = String × ℕ

-- the rows of one INSERT: each weight an INTEGER, and no key twice (a row that ON CONFLICT would
-- change a second time is refused)
abbrev pub is_among : String → List Member → Bool
is_among addr [] = false
is_among addr ((m, _) ∷ ms) = m == addr || is_among addr ms

abbrev pub are_insertable : List Member → Bool
are_insertable [] = true
are_insertable ((addr, weight) ∷ ms) =
    ltb weight 2147483648 && (not (is_among addr ms) && are_insertable ms)

abbrev pub insert_members :
    String → List Member → Table (String × String) ℕ → Table (String × String) ℕ
insert_members group [] t = t
insert_members group ((addr, weight) ∷ ms) t =
    insert_members group ms (upsert (group, addr) weight (λ old. weight) t)

-- the DELETE of `batchUpdateDaoCw4Members`
unfoldable pub delete_dao_cw4_members : String → Action DaoDb
unfolding write
delete_dao_cw4_members group =
    write (λ db. record db { cw4_members = delete_keys (λ k. k.0 == group) db.cw4_members })

-- its INSERT, where there are members
unfoldable pub insert_dao_cw4_members : String → List Member → Action DaoDb
unfolding write_if pure
insert_dao_cw4_members group [] = pure tt
insert_dao_cw4_members group (m ∷ ms) =
    write_if (λ db. are_insertable (m ∷ ms) && has_row group db.cw4_group_contracts)
      (λ db. record db { cw4_members = insert_members group (m ∷ ms) db.cw4_members })

unfoldable pub batch_update_dao_cw4_members : String → List Member → Action DaoDb
unfolding delete_dao_cw4_members insert_dao_cw4_members ◌>>=◌
batch_update_dao_cw4_members group members =
    delete_dao_cw4_members group >> insert_dao_cw4_members group members

-- SUM(weight) of a group
unfoldable pub sum_weight : String → Table (String × String) ℕ → ℕ
sum_weight group [] = 0
sum_weight group ((k, weight) ∷ t) =
    let rest = sum_weight group t in if k.0 == group then weight + rest else rest

unfoldable pub get_dao_cw4_sum_weight_for_group_contract : Arithmetic → String → Exec DaoDb Number
unfolding select sum_weight
get_dao_cw4_sum_weight_for_group_contract js group =
    select (λ db. parse_numeric js (some (integer (pos (sum_weight group db.cw4_members)))))

-- SUM(staked_amount) of a contract
unfoldable pub sum_staked : String → Table (String × String) Number → Number
sum_staked contract [] = integer (pos 0)
sum_staked contract ((k, amount) ∷ t) =
    let rest = sum_staked contract t in if k.0 == contract then add_numeric amount rest else rest

-- the three statements on a table of stakers
abbrev pub staked : String → Option String → Table (String × String) Number → Option Number
staked contract none t = none
staked contract (some staker) t = lookup (contract, staker) t

abbrev pub unstaked :
    String → Option String → Table (String × String) Number → Table (String × String) Number
unstaked contract none t = t
unstaked contract (some staker) t = delete (contract, staker) t

unfoldable pub upsert_dao_cw20_staker : String → Option String → Number → Action DaoDb
unfolding write_if
upsert_dao_cw20_staker contract none amount = write_if (λ db. false) (λ db. db)
upsert_dao_cw20_staker contract (some staker) amount =
    write_if (λ db. has_row contract db.cw20_staking_contracts)
      (λ db. record db {
        cw20_stakers = upsert (contract, staker) amount (λ old. amount) db.cw20_stakers;
      })

unfoldable pub delete_dao_cw20_staker : String → Option String → Action DaoDb
unfolding write
delete_dao_cw20_staker contract staker =
    write (λ db. record db { cw20_stakers = unstaked contract staker db.cw20_stakers })

-- with the `parseInt` that its callers apply
unfoldable pub get_dao_cw20_staker_staked_amount :
    Arithmetic → String → Option String → Exec DaoDb Number
unfolding select
get_dao_cw20_staker_staked_amount js contract staker =
    select (λ db. parse_numeric js (staked contract staker db.cw20_stakers))

unfoldable pub get_dao_cw20_stakers_sum_staked_for_contract :
    Arithmetic → String → Exec DaoDb Number
unfolding select sum_staked
get_dao_cw20_stakers_sum_staked_for_contract js contract =
    select (λ db. parse_numeric js (some (sum_staked contract db.cw20_stakers)))

unfoldable pub upsert_dao_native_staker : String → Option String → Number → Action DaoDb
unfolding write_if
upsert_dao_native_staker module_address none amount = write_if (λ db. false) (λ db. db)
upsert_dao_native_staker module_address (some staker) amount =
    write_if (λ db. has_row module_address db.voting_modules)
      (λ db. record db {
        native_stakers = upsert (module_address, staker) amount (λ old. amount) db.native_stakers;
      })

unfoldable pub delete_dao_native_staker : String → Option String → Action DaoDb
unfolding write
delete_dao_native_staker module_address staker =
    write (λ db. record db { native_stakers = unstaked module_address staker db.native_stakers })

-- with the `parseInt` that its callers apply
unfoldable pub get_dao_native_staker_staked_amount :
    Arithmetic → String → Option String → Exec DaoDb Number
unfolding select
get_dao_native_staker_staked_amount js module_address staker =
    select (λ db. parse_numeric js (staked module_address staker db.native_stakers))

abbrev pub insert_nfts :
    String
    → String
    → List String
    → Table (String × (String × String)) (Unit {0})
    → Table (String × (String × String)) (Unit {0})
insert_nfts module_address staker [] t = t
insert_nfts module_address staker (id ∷ ids) t =
    insert_nfts module_address staker ids (upsert (module_address, (staker, id)) tt (λ old. old) t)

-- the DELETE of `batchInsertDaoCw721Stakers`
unfoldable pub delete_dao_cw721_stakers : String → Option String → Action DaoDb
unfolding write
delete_dao_cw721_stakers module_address none = write (λ db. db)
delete_dao_cw721_stakers module_address (some staker) = write (λ db. record db {
  cw721_stakers = delete_keys (λ k. k.0 == module_address && k.1.0 == staker) db.cw721_stakers;
})

-- its INSERT, where there are tokens
unfoldable pub insert_dao_cw721_stakers : String → Option String → List String → Action DaoDb
unfolding write_if pure
insert_dao_cw721_stakers module_address staker [] = pure tt
insert_dao_cw721_stakers module_address none (id ∷ ids) = write_if (λ db. false) (λ db. db)
insert_dao_cw721_stakers module_address (some staker) (id ∷ ids) =
    write_if (λ db. has_row module_address db.voting_modules)
      (λ db. record db {
        cw721_stakers = insert_nfts module_address staker (id ∷ ids) db.cw721_stakers;
      })

unfoldable pub batch_insert_dao_cw721_stakers :
    String → Option String → List String → Bool → Action DaoDb
unfolding delete_dao_cw721_stakers insert_dao_cw721_stakers pure ◌>>=◌
batch_insert_dao_cw721_stakers module_address staker ids delete_first =
    (if delete_first then delete_dao_cw721_stakers module_address staker else pure tt)
    >> insert_dao_cw721_stakers module_address staker ids

unfoldable pub stake_count : String → Table (String × (String × String)) (Unit {0}) → ℕ
stake_count module_address [] = 0
stake_count module_address ((k, _) ∷ t) =
    let rest = stake_count module_address t in if k.0 == module_address then 1 + rest else rest

-- the count comes back as the text of a BIGINT, and is written again as it is
unfoldable pub get_dao_cw721_stake_count : String → Exec DaoDb Number
unfolding select stake_count
get_dao_cw721_stake_count module_address =
    select (λ db. integer (pos (stake_count module_address db.cw721_stakers)))
