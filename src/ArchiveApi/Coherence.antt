-- ===== src/ArchiveApi/Coherence.antt =====
-- The cache of the archive node's answers (util/archive-api.ts), over what the node holds.
use ixo_blocksync.Base.{
  ◌≡◌, refl, ◌⊎◌, inl, inr, ℕ, ◌≤◌, Bool, true, false, String, Option, none, some, List, [], ◌∷◌,
  arith, leb, string_eq, Bool-cases, ◌==◌, subst, sym, eq_of_beq,
}
use ixo_blocksync.Base.Table.{
  lookup, upsert, lookup-upsert, upserted_same, OfSome, OfSome-elim, OfSome-intro,
}
use ixo_blocksync.ArchiveApi.{
  Attempt, answered, Outcome, answer, non_retriable, exhausted, ApiCache, cleanup_old_heights,
  remember, is_retriable, ended_by, attempt_from, retry_backoffs_ms, query_archive_api, cached_or,
  refused, failed,
}

-- `Holds height path d`: at this height the node answers the path with `d`.
module _ {D : Type 0} (Holds : ℕ → String → D → Type 0) where
  -- Every entry of the cache is what the node holds at the cache's height.
  abbrev pub IsCoherent : ApiCache D → Type 0
  IsCoherent c = (path : String) → OfSome (Holds c.current_height path) (lookup path c.cache)

  abbrev pub AnswersAt : ℕ → String → Outcome D → Type 0
  AnswersAt height path (answer d) = Holds height path d
  AnswersAt height path (non_retriable a) = Unit
  AnswersAt height path (exhausted a) = Unit

  -- The data of the attempt, if it has any, is what the node holds.
  abbrev pub IsTruthful : ℕ → String → Attempt D → Type 0
  IsTruthful height path (answered d) = Holds height path d
  IsTruthful height path (refused status body) = Unit
  IsTruthful height path failed = Unit

  module _ (is_future : String → Bool) where
    ended_by-AnswersAt :
        (height : ℕ) (path : String) (a : Attempt D)
        → IsTruthful height path a
        → AnswersAt height path (ended_by is_future a)
    ended_by-AnswersAt height path (answered d) h = h
    ended_by-AnswersAt height path (refused status body) h = tt
    ended_by-AnswersAt height path failed h = tt

    attempt_from-AnswersAt :
        (height : ℕ) (path : String) (delays : List ℕ) (n : ℕ) (attempts : ℕ → Attempt D)
        → ((i : ℕ) → IsTruthful height path (attempts i))
        → AnswersAt height path (attempt_from is_future delays n attempts)
    unfolding attempt_from
    attempt_from-AnswersAt height path [] n attempts h =
        elim (Bool-cases (is_retriable is_future (attempts n))) [
          | inl e ↦ rw e tt
          | inr e ↦ rw e (ended_by-AnswersAt height path (attempts n) (h n))
        ]
    attempt_from-AnswersAt height path (x ∷ xs) n attempts h =
        elim (Bool-cases (is_retriable is_future (attempts n))) [
          | inl e ↦ rw e (attempt_from-AnswersAt height path xs _ attempts h)
          | inr e ↦ rw e (ended_by-AnswersAt height path (attempts n) (h n))
        ]

  remember-IsCoherent :
      (bypass : Bool) (path : String) (o : Outcome D) (c : ApiCache D)
      → AnswersAt c.current_height path o
      → IsCoherent c
      → IsCoherent (remember bypass path o c)
  remember-IsCoherent true path o c h coherent = coherent
  remember-IsCoherent false path (answer d) c h coherent = λ p.
      OfSome-intro (Holds c.current_height p) (lookup p (upsert path d (λ old. d) c.cache))
        (λ d' found. elim (Bool-cases (path == p)) [
          | inl e ↦
              let same : d ≡ d' = ground (
                arith,
                found,
                e,
                lookup-upsert path p d (λ old. d) c.cache,
                upserted_same d (lookup path c.cache),
              ) in
              subst (λ x. Holds c.current_height p x) same
                (subst (λ x. Holds c.current_height x d) (eq_of_beq path p e) h)
          | inr e ↦
              OfSome-elim (Holds c.current_height p) (lookup p c.cache) d'
                (ground (arith, lookup-upsert path p d (λ old. d) c.cache, e, found)) (coherent p)
        ])
  remember-IsCoherent false path (non_retriable a) c h coherent = coherent
  remember-IsCoherent false path (exhausted a) c h coherent = coherent

  cleanup-IsCoherent :
      (height : ℕ) (c : ApiCache D) → IsCoherent c → IsCoherent (cleanup_old_heights height c)
  unfolding cleanup_old_heights lookup
  cleanup-IsCoherent height c coherent = elim (Bool-cases (leb height c.current_height)) [
    | inl e ↦ rw e coherent
    | inr e ↦ rw e (λ p. tt)
  ]

  cleanup-height :
      (height : ℕ) (c : ApiCache D)
      → c.current_height ≤ height
      → (cleanup_old_heights height c).current_height ≡ height
  unfolding cleanup_old_heights
  cleanup-height height c h = ground arith

  -- A call at a height that is not below those of the calls before it, or that bypasses the cache,
  -- ends by an error or with what the node holds at that very height, from the cache or not, and the
  -- cache stays one of answers at its height, where the data that the node sends is what it holds.
  pub query_archive_api-IsCoherent :
      (is_future : String → Bool) (path : String) (height : ℕ) (bypass : Bool)
      (attempts : ℕ → Attempt D) (c : ApiCache D)
      → (bypass ≡ true) ⊎ (c.current_height ≤ height)
      → ((i : ℕ) → IsTruthful height path (attempts i))
      → IsCoherent c
      → AnswersAt height path (query_archive_api is_future path height bypass attempts c).0
        × IsCoherent (query_archive_api is_future path height bypass attempts c).1
  unfolding query_archive_api
  query_archive_api-IsCoherent is_future path height true attempts c later h coherent =
      (attempt_from-AnswersAt is_future height path retry_backoffs_ms 0 attempts h, coherent)
  query_archive_api-IsCoherent is_future path height false attempts c (inl e) h coherent = cc e
  query_archive_api-IsCoherent is_future path height false attempts c (inr later) h coherent =
      split (lookup path c'.cache) refl
    where
      c' : ApiCache D
      c' = cleanup_old_heights height c

      o : Outcome D
      o = attempt_from is_future retry_backoffs_ms 0 attempts

      at_height : c'.current_height ≡ height
      at_height = cleanup-height height c later

      kept : IsCoherent c'
      kept = cleanup-IsCoherent height c coherent

      right : AnswersAt height path o
      right = attempt_from-AnswersAt is_future height path retry_backoffs_ms 0 attempts h

      split :
          (found : Option D)
          → lookup path c'.cache ≡ found
          → AnswersAt height path (cached_or found (o, remember false path o c') c').0
            × IsCoherent (cached_or found (o, remember false path o c') c').1
      split none e = (
        right,
        remember-IsCoherent false path o c' (subst (λ n. AnswersAt n path o) (sym at_height) right)
            kept,
      )
      split (some d) e = (
        subst (λ n. Holds n path d) at_height
            (OfSome-elim (Holds c'.current_height path) (lookup path c'.cache) d e (kept path)),
        kept,
      )
