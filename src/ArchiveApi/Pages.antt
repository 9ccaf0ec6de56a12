-- ===== src/ArchiveApi/Pages.antt =====
-- util/archive-queries.ts: the queries that ask for one page after another, on fuel; `none` where the
-- fuel runs out, as in a loop that goes on.
use ixo_blocksync.Base.{
  ℕ, zero, suc, Bool, true, false, String, Option, none, some, List, [], ◌∷◌, ◌++◌, ◌==◌, ◌||◌,
  string_eq, ltb, length, if◌then◌else◌,
}
use ixo_blocksync.Pg.{Result, ok, err}

-- `batch[batch.length - 1]` of a batch that begins with `x`
abbrev pub last_of {ℓ} : {A : Type ℓ} → A → List A → A
last_of x [] = x
last_of x (y ∷ ys) = last_of y ys

-- One round of the first loop below: `next` goes on after a batch.
abbrev pub listed :
    {A : Type 0}
    → ℕ
    → List A
    → (A → List A → Option (Result (List A)))
    → Result (List A)
    → Option (Result (List A))
listed limit out next (err e) = some (err e)
listed limit out next (ok []) = some (ok out)
listed limit out next (ok (x ∷ xs)) =
    if ltb (length (x ∷ xs)) limit then some (ok (out ++ x ∷ xs)) else next x xs

module _ {A K : Type 0} (page : Option K → Result (List A)) (key : A → K) (limit : ℕ) where
  -- The loop of `list_members`, `list_stakers`, `list_proposals` and `staked_nfts`: it goes on after
  -- the last of a full page.
  unfoldable pub list_after : ℕ → Option K → List A → Option (Result (List A))
  list_after zero start_after out = none
  list_after (suc fuel) start_after out =
      listed limit out (λ x xs. list_after fuel (some (key (last_of x xs))) (out ++ x ∷ xs))
        (page start_after)

abbrev pub is_empty {ℓ} : {A : Type ℓ} → List A → Bool
is_empty [] = true
is_empty (x ∷ xs) = false

-- One round of the second loop: it ends without a next key, by an empty one, or by an empty batch.
abbrev pub followed :
    {A : Type 0}
    → List A
    → (String → List A → Option (Result (List A)))
    → Result (List A × Option String)
    → Option (Result (List A))
followed out next (err e) = some (err e)
followed out next (ok (batch, none)) = some (ok (out ++ batch))
followed out next (ok (batch, some key)) =
    if key == "" || is_empty batch then some (ok (out ++ batch)) else next key (out ++ batch)

-- The loop over `pagination.next_key`.
module _ {A : Type 0} (page : Option String → Result (List A × Option String)) where
  unfoldable pub follow_keys : ℕ → Option String → List A → Option (Result (List A))
  follow_keys zero next_key out = none
  follow_keys (suc fuel) next_key out =
      followed out (λ key out'. follow_keys fuel (some key) out') (page next_key)

-- the four lists of a contract, each with the limit that it asks for
module _ {A : Type 0} (page : Option String → Result (List (String × A))) where
  unfoldable pub cw4_group_members_query : ℕ → Option (Result (List (String × A)))
  unfolding list_after
  cw4_group_members_query fuel = list_after page (λ m. m.0) 100 fuel none []

  unfoldable pub staking_list_stakers_query : ℕ → Option (Result (List (String × A)))
  unfolding list_after
  staking_list_stakers_query fuel = list_after page (λ s. s.0) 100 fuel none []

unfoldable pub proposal_module_list_proposals_query :
    {A : Type 0} → (Option ℕ → Result (List (ℕ × A))) → ℕ → Option (Result (List (ℕ × A)))
unfolding list_after
proposal_module_list_proposals_query page fuel = list_after page (λ p. p.0) 30 fuel none []

unfoldable pub cw721_stake_staked_nfts_query :
    (Option String → Result (List String)) → ℕ → Option (Result (List String))
unfolding list_after
cw721_stake_staked_nfts_query page fuel = list_after page (λ id. id) 100 fuel none []

-- the two lists of a module of the chain
module _ {A : Type 0} (page : Option String → Result (List A × Option String)) where
  unfoldable pub liquid_stake_pools_query : ℕ → Option (Result (List A))
  unfolding follow_keys
  liquid_stake_pools_query fuel = follow_keys page fuel none []

  unfoldable pub claims_dispute_list_query : ℕ → Option (Result (List A))
  unfolding follow_keys
  claims_dispute_list_query fuel = follow_keys page fuel none []
