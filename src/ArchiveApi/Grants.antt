-- ===== src/ArchiveApi/Grants.antt =====
-- util/archive-queries.ts: `authzGrantsQuery`, which asks for grants at a height, or, where the archive
-- node has pruned the state there, at the next snapped height. The three module variables are a
-- record, and the key `granter:grantee` is a pair, since no address holds a colon.
use ixo_blocksync.Base.{
  ℕ, ◌+◌, ◌*◌, ◌/◌, Bool, false, String, Option, none, some, List, [], ◌∷◌, ◌==◌, ◌||◌, not, nat_eq,
  string_eq, pair_eq, if◌then◌else◌,
}
use ixo_blocksync.Base.Table.{Table, lookup, upsert}
use ixo_blocksync.Pg.{Error, Result, ok, err}
use ixo_blocksync.ArchiveApi.Pages.{follow_keys}

pub record SnapCaches (G : Type 0) : Type 0 where
  pub pruned_heights : List ℕ
  pub snap_cache_height : ℕ
  pub snap_cache : Table (String × String) (List G)

abbrev pub is_listed : ℕ → List ℕ → Bool
is_listed n [] = false
is_listed n (m ∷ ms) = m == n || is_listed n ms

-- `Math.ceil(height / SNAP_INTERVAL) * SNAP_INTERVAL`
unfoldable pub snapped : ℕ → ℕ
snapped height = (height + 99) / 100 * 100

module _ {G : Type 0} where
  -- A page of grants; the error "authorization not found" ends the list as an empty page would.
  abbrev pub not_found_ends :
      (Error → Bool) → Result (List G × Option String) → Result (List G × Option String)
  not_found_ends is_not_found (ok r) = ok r
  not_found_ends is_not_found (err e) = if is_not_found e then ok ([], none) else err e

  -- the loop of `authzGrantsAt`
  unfoldable pub list_grants :
      (Error → Bool)
      → (Option String → Result (List G × Option String))
      → ℕ
      → Option (Result (List G))
  unfolding follow_keys
  list_grants is_not_found page fuel =
      follow_keys (λ key. not_found_ends is_not_found (page key)) fuel none []

  -- a new snapped height empties the cache
  unfoldable pub at_snap_height : ℕ → SnapCaches G → SnapCaches G
  at_snap_height height c =
      if height == c.snap_cache_height
      then c
      else record c { snap_cache = []; snap_cache_height = height }

  abbrev pub keep_grants :
      String × String → Result (List G) → SnapCaches G → Result (List G) × SnapCaches G
  keep_grants key (err e) c = (err e, c)
  keep_grants key (ok grants) c =
      (ok grants, record c { snap_cache = upsert key grants (λ old. grants) c.snap_cache })

  abbrev pub snap_cached :
      Option (List G)
      → Result (List G) × SnapCaches G
      → SnapCaches G
      → Result (List G) × SnapCaches G
  snap_cached none fresh c = fresh
  snap_cached (some grants) fresh c = (ok grants, c)

  -- `ask` is the list of the loop at a height, for a granter and a grantee.
  module _ (ask : ℕ → String → String → Result (List G)) (is_pruned : Error → Bool) where
    -- `authzGrantsAt` for a snapped height
    unfoldable pub authz_grants_at_snap :
        ℕ → String → String → SnapCaches G → Result (List G) × SnapCaches G
    unfolding at_snap_height
    authz_grants_at_snap height granter grantee c =
        let c' = at_snap_height height c in
        snap_cached (lookup (granter, grantee) c'.snap_cache)
          (keep_grants (granter, grantee) (ask height granter grantee) c') c'

    -- the `catch` around the query at the height itself
    abbrev pub retried :
        ℕ
        → Result (List G) × SnapCaches G
        → Result (List G)
        → SnapCaches G
        → Result (List G) × SnapCaches G
    retried height again (ok grants) c = (ok grants, c)
    retried height again (err e) c =
        if snapped height == height || not (is_pruned e) then (err e, c) else again

    -- `authzGrantsQuery`
    unfoldable pub authz_grants_query :
        ℕ → String → String → SnapCaches G → Result (List G) × SnapCaches G
    unfolding authz_grants_at_snap snapped
    authz_grants_query height granter grantee c =
        if is_listed height c.pruned_heights
        then authz_grants_at_snap (snapped height) granter grantee c
        else retried height
            (authz_grants_at_snap (snapped height) granter grantee
              (record c { pruned_heights = height ∷ c.pruned_heights }))
            (ask height granter grantee) c
