-- ===== src/ArchiveApi/Snapped.antt =====
-- The height of which `authzGrantsQuery` gives the grants.
use ixo_blocksync.Base.{
  ◌≡◌, refl, sym, subst, ℕ, ◌+◌, ◌≤◌, ◌<◌, Bool, String, Option, none, some, List, ◌∷◌, ◌==◌, ◌||◌,
  not, arith, nat_eq, string_eq, pair_eq, Bool-cases, inl, inr, eq_of_beq,
}
use ixo_blocksync.Base.Table.{
  lookup, lookup-upsert, upserted_same, OfSome, OfSome-elim, OfSome-intro,
}
use ixo_blocksync.Pg.{Error, Result, ok, err}
use ixo_blocksync.ArchiveApi.Grants.{
  SnapCaches, is_listed, snapped, at_snap_height, keep_grants, snap_cached, authz_grants_at_snap,
  retried, authz_grants_query,
}

snapped_bounds : (h : ℕ) → (h ≤ snapped h) × (snapped h < h + 100)
unfolding snapped
snapped_bounds h = omega arith

-- `Holds height granter grantee grants`: those are the grants of the chain at that height.
module _ {G : Type 0} (Holds : ℕ → String → String → List G → Type 0) where
  -- Every entry of the snap cache is of the cache's height.
  abbrev pub IsCoherent : SnapCaches G → Type 0
  IsCoherent c =
      (key : String × String)
      → OfSome (Holds c.snap_cache_height key.0 key.1) (lookup key c.snap_cache)

  -- The result is an error, or the grants of the chain at a height in the interval.
  abbrev pub IsOf : ℕ → String → String → Result (List G) → Type 0
  IsOf height granter grantee (err e) = Unit
  IsOf height granter grantee (ok grants) =
      (h : ℕ) × (height ≤ h) × (h < height + 100) × Holds h granter grantee grants

  -- the grants of exactly this height, or an error
  abbrev pub IsAt : ℕ → String → String → Result (List G) → Type 0
  IsAt h granter grantee (err e) = Unit
  IsAt h granter grantee (ok grants) = Holds h granter grantee grants

  IsOf-IsAt :
      (height h : ℕ) (granter grantee : String) (r : Result (List G))
      → height ≤ h
      → h < height + 100
      → IsAt h granter grantee r
      → IsOf height granter grantee r
  IsOf-IsAt height h granter grantee (err e) low high at = tt
  IsOf-IsAt height h granter grantee (ok grants) low high at = (h, low, high, at)

  at_snap_height-IsCoherent :
      (h : ℕ) (c : SnapCaches G) → IsCoherent c → IsCoherent (at_snap_height h c)
  unfolding at_snap_height lookup
  at_snap_height-IsCoherent h c coherent = elim (Bool-cases (h == c.snap_cache_height)) [
    | inl e ↦ rw e coherent
    | inr e ↦ rw e (λ key. tt)
  ]

  at_snap_height_lem : (h : ℕ) (c : SnapCaches G) → (at_snap_height h c).snap_cache_height ≡ h
  unfolding at_snap_height
  at_snap_height_lem h c = ground arith

  module _ (ask : ℕ → String → String → Result (List G)) (is_pruned : Error → Bool)
      (truthful : (h : ℕ) (granter grantee : String)
        → IsAt h granter grantee (ask h granter grantee)) where
    keep_grants-IsCoherent :
        (granter grantee : String) (r : Result (List G)) (c : SnapCaches G)
        → IsAt c.snap_cache_height granter grantee r
        → IsCoherent c
        → IsAt c.snap_cache_height granter grantee (keep_grants (granter, grantee) r c).0
          × IsCoherent (keep_grants (granter, grantee) r c).1
    keep_grants-IsCoherent granter grantee (err e) c at coherent = (tt, coherent)
    keep_grants-IsCoherent granter grantee (ok grants) c at coherent = (
      at,
      λ key. OfSome-intro (Holds c.snap_cache_height key.0 key.1) _ (λ gs found.
          elim (Bool-cases ((granter, grantee) == key)) [
            | inl e ↦
                let same : grants ≡ gs = ground (
                  arith,
                  found,
                  e,
                  lookup-upsert (granter, grantee) key grants (λ old. grants) c.snap_cache,
                  upserted_same grants (lookup (granter, grantee) c.snap_cache),
                ) in
                subst (λ x. Holds c.snap_cache_height key.0 key.1 x) same
                  (subst (λ (k : String × String). Holds c.snap_cache_height k.0 k.1 grants)
                    (eq_of_beq (granter, grantee) key e) at)
            | inr e ↦
                OfSome-elim (Holds c.snap_cache_height key.0 key.1) (lookup key c.snap_cache) gs
                  (ground (
                    arith,
                    found,
                    e,
                    lookup-upsert (granter, grantee) key grants (λ old. grants) c.snap_cache,
                  ))
                  (coherent key)
          ]),
    )

    authz_grants_at_snap-IsAt :
        (h : ℕ) (granter grantee : String) (c : SnapCaches G)
        → IsCoherent c
        → IsAt h granter grantee (authz_grants_at_snap ask is_pruned h granter grantee c).0
          × IsCoherent (authz_grants_at_snap ask is_pruned h granter grantee c).1
    unfolding authz_grants_at_snap
    authz_grants_at_snap-IsAt h granter grantee c coherent =
        split (lookup (granter, grantee) c'.snap_cache) refl
      where
        c' : SnapCaches G
        c' = at_snap_height h c

        kept : IsCoherent c'
        kept = at_snap_height-IsCoherent h c coherent

        at_h : c'.snap_cache_height ≡ h
        at_h = at_snap_height_lem h c

        split :
            (found : Option (List G))
            → lookup (granter, grantee) c'.snap_cache ≡ found
            → IsAt h granter grantee
                (snap_cached found (keep_grants (granter, grantee) (ask h granter grantee) c') c').0
              × IsCoherent
                  (snap_cached found
                    (keep_grants (granter, grantee) (ask h granter grantee) c')
                    c').1
        split (some grants) e = (
          subst (λ n. Holds n granter grantee grants) at_h
              (OfSome-elim (Holds c'.snap_cache_height granter grantee)
                (lookup (granter, grantee) c'.snap_cache) grants e (kept (granter, grantee))),
          kept,
        )
        split none e =
            let (right, coherent') =
              keep_grants-IsCoherent granter grantee (ask h granter grantee) c'
                (subst (λ n. IsAt n granter grantee (ask h granter grantee)) (sym at_h)
                  (truthful h granter grantee))
                kept in
            (
              subst
                  (λ n.
                    IsAt n granter grantee
                      (keep_grants (granter, grantee) (ask h granter grantee) c').0)
                  at_h right,
              coherent',
            )

  -- Whatever heights are known as pruned, a query for grants at a height throws, or it gives the
  -- grants of the chain at a height that is not earlier and less than a hundred blocks later, and
  -- the snap cache stays one of grants at its height, where the node itself answers with the grants
  -- of the height that it is asked for.
  pub authz_grants_query-IsOf :
      (ask : ℕ → String → String → Result (List G)) (is_pruned : Error → Bool) (height : ℕ)
      (granter grantee : String) (c : SnapCaches G)
      → ((h : ℕ) (g₁ g₂ : String) → IsAt h g₁ g₂ (ask h g₁ g₂))
      → IsCoherent c
      → IsOf height granter grantee (authz_grants_query ask is_pruned height granter grantee c).0
        × IsCoherent (authz_grants_query ask is_pruned height granter grantee c).1
  unfolding authz_grants_query
  authz_grants_query-IsOf ask is_pruned height granter grantee c truthful coherent =
      elim (Bool-cases (is_listed height c.pruned_heights)) [
        | inl e ↦ rw e (snap c coherent)
        | inr e ↦ rw e (split (ask height granter grantee) refl)
      ]
    where
      snap :
          (c : SnapCaches G)
          → IsCoherent c
          → IsOf height granter grantee
              (authz_grants_at_snap ask is_pruned (snapped height) granter grantee c).0
            × IsCoherent (authz_grants_at_snap ask is_pruned (snapped height) granter grantee c).1
      snap c coherent =
          let (right, kept) =
            authz_grants_at_snap-IsAt ask is_pruned truthful (snapped height) granter grantee c
              coherent in
          let (low, high) = snapped_bounds height in
          (IsOf-IsAt height (snapped height) granter grantee _ low high right, kept)

      again : Result (List G) × SnapCaches G
      again =
          authz_grants_at_snap ask is_pruned (snapped height) granter grantee
            (record c { pruned_heights = height ∷ c.pruned_heights })

      split :
          (r : Result (List G))
          → ask height granter grantee ≡ r
          → IsOf height granter grantee (retried ask is_pruned height again r c).0
            × IsCoherent (retried ask is_pruned height again r c).1
      split (ok grants) e = (
        (
          height,
          omega arith,
          omega arith,
          subst (IsAt height granter grantee) e (truthful height granter grantee),
        ),
        coherent,
      )
      split (err x) e = elim (Bool-cases (snapped height == height || not (is_pruned x))) [
        | inl h ↦ rw h (tt, coherent)
        | inr h ↦ rw h (snap (record c { pruned_heights = height ∷ c.pruned_heights }) coherent)
      ]
