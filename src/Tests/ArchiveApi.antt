-- ===== src/Tests/ArchiveApi.antt =====
-- The client of the archive node and the lists that are read from it, at concrete data.
use ixo_blocksync.Base.{
  ◌≡◌, refl, ℕ, Bool, true, false, String, Option, none, some, List, [], ◌∷◌, ◌==◌, take, string_eq,
  pair_eq, nat_eq, arith, inl, inr, zero, suc, ap, sym, eq_of_beq, Bool-cases, if◌then◌else◌,
}
use ixo_blocksync.Base.Table.{lookup, OfSome}
use ixo_blocksync.Pg.{Result, ok, err, thrown}
use ixo_blocksync.ArchiveApi.{Attempt, answered, refused, other_body, ApiCache, query_archive_api}
use ixo_blocksync.ArchiveApi.Pages.{list_after}
use ixo_blocksync.ArchiveApi.Grants.{SnapCaches, authz_grants_query}
use ixo_blocksync.ArchiveApi.Coherence.{
  IsCoherent as IsCacheCoherent, AnswersAt, IsTruthful, query_archive_api-IsCoherent,
}
use ixo_blocksync.ArchiveApi.Listing.{after, Serves, list_after_complete}
use ixo_blocksync.ArchiveApi.Snapped.{
  IsCoherent as IsSnapCoherent, IsOf, IsAt, authz_grants_query-IsOf,
}

-- At each height the node answers each path with that height.
abbrev IsHeld : ℕ → String → ℕ → Type 0
IsHeld height path d = d ≡ height

-- a gateway that is down once, and the data of the height 8
abbrev attempts : ℕ → Attempt ℕ
attempts zero = refused 502 other_body
attempts (suc n) = answered 8

attempts-IsTruthful : (i : ℕ) → IsTruthful IsHeld 8 "members" (attempts i)
attempts-IsTruthful zero = tt
attempts-IsTruthful (suc n) = refl

abbrev old_cache : ApiCache ℕ
old_cache = record { cache = ("members", 7) ∷ []; current_height = 7 }

old_cache-IsCoherent : IsCacheCoherent IsHeld old_cache
unfolding lookup
old_cache-IsCoherent path = held ("members" == path)
  where
    held : (b : Bool) → OfSome (IsHeld 7 path) (if b then some 7 else none)
    held true = refl
    held false = tt

query_archive_api-IsCoherent_example :
    AnswersAt IsHeld 8 "members"
      (query_archive_api (λ t. false) "members" 8 false attempts old_cache).0
    × IsCacheCoherent IsHeld (query_archive_api (λ t. false) "members" 8 false attempts old_cache).1
query_archive_api-IsCoherent_example =
    query_archive_api-IsCoherent IsHeld (λ t. false) "members" 8 false attempts old_cache
      (inr (omega arith)) attempts-IsTruthful old_cache-IsCoherent

abbrev ids : List String
ids = "a" ∷ "b" ∷ "c" ∷ []

-- a contract that answers with at most two of the ids
abbrev page : Option String → Result (List String)
page start = ok (take 2 (after (λ id. id) start ids))

page-Serves : Serves (λ id. id) 2 ids page
page-Serves start = refl

list_after_complete_example : list_after page (λ id. id) 2 4 none [] ≡ some (ok ids)
list_after_complete_example =
    list_after_complete (λ id. id) page 2 4 ids (omega arith) page-Serves
      ((refl, (refl, tt)), ((refl, tt), (tt, tt))) (omega arith)

-- the node has pruned all before the height 1000
abbrev node : ℕ → String → String → Result (List ℕ)
node height granter grantee = if height == 1000 then ok (1000 ∷ []) else err (thrown "pruned")

abbrev HasGrants : ℕ → String → String → List ℕ → Type 0
HasGrants height granter grantee grants = grants ≡ height ∷ []

node-IsAt : (h : ℕ) (g₁ g₂ : String) → IsAt HasGrants h g₁ g₂ (node h g₁ g₂)
node-IsAt h g₁ g₂ = elim (Bool-cases (h == 1000)) [
  | inl e ↦ rw e (ap (λ n. n ∷ []) (sym (eq_of_beq h 1000 e)))
  | inr e ↦ rw e tt
]

abbrev no_caches : SnapCaches ℕ
no_caches = record { pruned_heights = []; snap_cache_height = 0; snap_cache = [] }

authz_grants_query-IsOf_example :
    IsOf HasGrants 950 "ann" "ben" (authz_grants_query node (λ e. true) 950 "ann" "ben" no_caches).0
    × IsSnapCoherent HasGrants (authz_grants_query node (λ e. true) 950 "ann" "ben" no_caches).1
unfolding lookup
authz_grants_query-IsOf_example =
    authz_grants_query-IsOf HasGrants node (λ e. true) 950 "ann" "ben" no_caches node-IsAt
      (λ key. tt)
