-- ===== src/Dao/ClaimMarks.antt =====
-- The claims that `markDaoStakingClaimsClaimed` marks, in the runs of the events that queue and
-- drain them.
use ixo_blocksync.Base.{
  ◌≡◌, refl, ◌∙◌, ap, ℕ, Bool, true, false, String, Option, none, some, List, [], ◌∷◌, ◌&&◌, not,
  arith, string_eq, Bool-cases, inl, inr, ◌⊎◌, eq_of_beq,
}
use ixo_blocksync.Numbers.{Arithmetic}
use ixo_blocksync.Pg.{ok, running, query}
use ixo_blocksync.Attributes.{get_wasm_attr, get_wasm_attr?}
use ixo_blocksync.Dao.{ClaimKind, cw20, native, cw721, StakingClaim, DaoDb, is_some, write}
use ixo_blocksync.Dao.Archive.{Archive, DaoEvent, when_some}
use ixo_blocksync.Dao.StakeEvents.{process_cw20_stake_event}
use ixo_blocksync.Dao.ClaimSql.{
  is_kind, is_released, is_claimable, mark_claims, mark_dao_staking_claims_claimed,
}

-- The claim is of this kind, contract and staker, waits to be claimed, and is released by then.
abbrev pub IsDue : ClaimKind → String → String → ℕ → StakingClaim → Type 0
IsDue kind contract staker now c =
    (c.kind ≡ kind)
    × (c.staking_contract ≡ contract)
    × (c.staker_address ≡ staker)
    × (c.claimed_at ≡ none)
    × (is_released c.release_at now ≡ true)

-- A claim before and after the event: it was due and now has the two stamps, or it did not match
-- and is as it was.
abbrev pub IsMarked : ClaimKind → String → String → ℕ → ℕ → StakingClaim → StakingClaim → Type 0
IsMarked kind contract staker now height c c' =
    ((c' ≡ record c { claimed_at = some now; claimed_at_height = some height })
      × IsDue kind contract staker now c)
    ⊎ ((c' ≡ c) × (is_claimable kind contract staker now c ≡ false))

abbrev pub AllMarked :
    ClaimKind → String → String → ℕ → ℕ → List StakingClaim → List StakingClaim → Type 0
AllMarked kind contract staker now height [] [] = Unit
AllMarked kind contract staker now height (c ∷ cs) (c' ∷ cs') =
    IsMarked kind contract staker now height c c' × AllMarked kind contract staker now height cs cs'
AllMarked kind contract staker now height _ _ = ⊥

kind_of : (a b : ClaimKind) → is_kind a b ≡ true → a ≡ b
kind_of cw20 cw20 h = refl
kind_of native native h = refl
kind_of cw721 cw721 h = refl
kind_of cw20 native h = cc h
kind_of cw20 cw721 h = cc h
kind_of native cw20 h = cc h
kind_of native cw721 h = cc h
kind_of cw721 cw20 h = cc h
kind_of cw721 native h = cc h

none_of : {A : Type 0} → (o : Option A) → not (is_some o) ≡ true → o ≡ none
none_of none h = refl
none_of (some a) h = cc h

conjuncts :
    (a b c d e : Bool)
    → (a && (b && (c && (d && e)))) ≡ true
    → (a ≡ true) × (b ≡ true) × (c ≡ true) × (d ≡ true) × (e ≡ true)
conjuncts a b c d e h = ground (arith, h)

claimable_conditions :
    (kind : ClaimKind) (contract staker : String) (now : ℕ) (c : StakingClaim)
    → is_claimable kind contract staker now c ≡ true
    → IsDue kind contract staker now c
unfolding is_claimable
claimable_conditions kind contract staker now c h =
    let (k, at, of_staker, waits, released) = conjuncts _ _ _ _ _ h in
    (
      kind_of c.kind kind k,
      eq_of_beq c.staking_contract contract at,
      eq_of_beq c.staker_address staker of_staker,
      none_of c.claimed_at waits,
      released,
    )

mark_claims-AllMarked :
    (kind : ClaimKind) (contract staker : String) (now height : ℕ) (cs : List StakingClaim)
    → AllMarked kind contract staker now height cs (mark_claims kind contract staker now height cs)
unfolding mark_claims
mark_claims-AllMarked kind contract staker now height [] = tt
mark_claims-AllMarked kind contract staker now height (c ∷ cs) =
    let rest = mark_claims-AllMarked kind contract staker now height cs in
    elim (Bool-cases (is_claimable kind contract staker now c)) [
      | inl e ↦ (inl (rw e (refl, claimable_conditions kind contract staker now c e)), rest)
      | inr e ↦ (inr (rw e (refl, refl)), rest)
    ]

marked_once :
    (kind : ClaimKind) (contract staker : String) (now height : ℕ) (c : StakingClaim)
    → is_claimable kind contract staker now
        (record c { claimed_at = some now; claimed_at_height = some height })
      ≡ false
unfolding is_claimable
marked_once kind contract staker now height c = ground arith

mark_claims_again :
    (kind : ClaimKind) (contract staker : String) (now height later : ℕ) (cs : List StakingClaim)
    → mark_claims kind contract staker now later (mark_claims kind contract staker now height cs)
      ≡ mark_claims kind contract staker now height cs
unfolding mark_claims
mark_claims_again kind contract staker now height later [] = refl
mark_claims_again kind contract staker now height later (c ∷ cs) =
    let rest = mark_claims_again kind contract staker now height later cs in
    elim (Bool-cases (is_claimable kind contract staker now c)) [
      | inl e ↦ rw (e, marked_once kind contract staker now height c, rest)
      | inr e ↦ rw (e, e, rest)
    ]

claim_case :
    (js : Arithmetic) (archive : Archive) (ev : DaoEvent) (contract staker : String)
    → ev.action ≡ "claim"
    → get_wasm_attr ev.attributes "_contract_address" ≡ contract
    → get_wasm_attr? ev.attributes "from" ≡ some staker
    → process_cw20_stake_event js archive ev
      ≡ mark_dao_staking_claims_claimed cw20 contract staker ev.timestamp ev.block_height
unfolding process_cw20_stake_event when_some
claim_case js archive ev contract staker e h from = simp (e, h, from)

-- A claim at a cw20 staking contract succeeds and changes nothing but the claims: it stamps those
-- of the contract and the staker that were not claimed yet and whose release has come, in their
-- places; and the same claim right after it changes nothing.
pub process_cw20_stake_event-claim :
    (js : Arithmetic) (archive : Archive) (ev : DaoEvent) (db : DaoDb) (contract staker : String)
    → ev.action ≡ "claim"
    → get_wasm_attr ev.attributes "_contract_address" ≡ contract
    → get_wasm_attr? ev.attributes "from" ≡ some staker
    → (cs : List StakingClaim) × (process_cw20_stake_event js archive ev (running db)
        ≡ (ok tt, running (record db { claims = cs })))
      × AllMarked cw20 contract staker ev.timestamp ev.block_height db.claims cs
      × (process_cw20_stake_event js archive ev (running (record db { claims = cs }))
          ≡ (ok tt, running (record db { claims = cs })))
unfolding mark_dao_staking_claims_claimed write query
process_cw20_stake_event-claim js archive ev db contract staker e h from =
    let case = claim_case js archive ev contract staker e h from in
    let marked = mark_claims cw20 contract staker ev.timestamp ev.block_height db.claims in
    (
      marked,
      ap (λ m. m (running db)) case,
      mark_claims-AllMarked cw20 contract staker ev.timestamp ev.block_height db.claims,
      ap (λ m. m (running (record db { claims = marked }))) case
          ∙ ap (λ cs. (ok tt, running (record db { claims = cs })))
              (mark_claims_again cw20 contract staker ev.timestamp ev.block_height ev.block_height
                db.claims),
    )
