-- ===== src/Dao/ClaimSql.antt =====
-- postgres/dao.ts: the staking claims.
use ixo_blocksync.Base.{
  ℕ, Bool, true, false, String, Option, none, some, List, [], ◌∷◌, ◌++◌, ◌&&◌, not, ◌==◌, string_eq,
  leb, if◌then◌else◌,
}
use ixo_blocksync.Pg.{Action}
use ixo_blocksync.Dao.{
  ClaimKind, cw20, native, cw721, StakingClaim, DaoDb, write, write_if, is_some,
}

abbrev pub is_kind : ClaimKind → ClaimKind → Bool
is_kind cw20 cw20 = true
is_kind native native = true
is_kind cw721 cw721 = true
is_kind _ _ = false

-- a claim as `insertDaoStakingClaim` stores it
abbrev pub queued :
    ClaimKind → String → String → Option String → Option String → Option ℕ → ℕ → StakingClaim
queued kind contract staker amount token_id release_at height = record {
  kind = kind;
  staking_contract = contract;
  staker_address = staker;
  amount = amount;
  token_id = token_id;
  release_at = release_at;
  unstaked_at_height = height;
  claimed_at = none;
  claimed_at_height = none;
}

unfoldable pub insert_dao_staking_claim :
    ClaimKind → String → Option String → Option String → Option String → Option ℕ → ℕ → Action DaoDb
unfolding write write_if
insert_dao_staking_claim kind contract none amount token_id release_at height =
    write_if (λ db. false) (λ db. db)
insert_dao_staking_claim kind contract (some staker) amount token_id release_at height =
    write (λ db. record db {
      claims = db.claims ++ queued kind contract staker amount token_id release_at height ∷ [];
    })

-- `release_at IS NULL OR release_at <= now`
abbrev pub is_released : Option ℕ → ℕ → Bool
is_released none now = true
is_released (some release_at) now = leb release_at now

-- the WHERE of `markDaoStakingClaimsClaimed`
unfoldable pub is_claimable : ClaimKind → String → String → ℕ → StakingClaim → Bool
is_claimable kind contract staker now c =
    is_kind c.kind kind
    && (c.staking_contract == contract
        && (c.staker_address == staker
            && (not (is_some c.claimed_at) && is_released c.release_at now)))

unfoldable pub mark_claims :
    ClaimKind → String → String → ℕ → ℕ → List StakingClaim → List StakingClaim
unfolding is_claimable
mark_claims kind contract staker now height [] = []
mark_claims kind contract staker now height (c ∷ cs) =
    (if is_claimable kind contract staker now c
      then record c { claimed_at = some now; claimed_at_height = some height }
      else c)
    ∷ mark_claims kind contract staker now height cs

unfoldable pub mark_dao_staking_claims_claimed : ClaimKind → String → String → ℕ → ℕ → Action DaoDb
unfolding write mark_claims
mark_dao_staking_claims_claimed kind contract staker now height =
    write (λ db. record db { claims = mark_claims kind contract staker now height db.claims })
