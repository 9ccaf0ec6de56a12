-- ===== src/ArchiveApi/Retries.antt =====
-- The attempts of a call of the archive node: which of them it ends by.
use ixo_blocksync.Base.{
  ◌≡◌, refl, ℕ, zero, suc, ◌+◌, ◌<◌, Bool, true, false, String, List, [], ◌∷◌, arith, nat_eq,
  length,
}
use ixo_blocksync.ArchiveApi.{
  Attempt, exhausted, is_retriable, ended_by, attempt_from, retry_backoffs_ms,
}

module _ {D : Type 0} (is_future : String → Bool) where
  attempt_from-ends :
      (delays : List ℕ) (n k : ℕ) (attempts : ℕ → Attempt D)
      → k < suc (length delays)
      → ((j : ℕ) → j < k → is_retriable is_future (attempts (n + j)) ≡ true)
      → is_retriable is_future (attempts (n + k)) ≡ false
      → attempt_from is_future delays n attempts ≡ ended_by is_future (attempts (n + k))
  unfolding attempt_from
  attempt_from-ends [] n zero attempts bound before here =
      let e : n + 0 ≡ n = omega arith in rw (rw e at here) (rw e refl)
  attempt_from-ends [] n (suc k) attempts bound before here = absurd (omega (arith, bound))
  attempt_from-ends (d ∷ ds) n zero attempts bound before here =
      let e : n + 0 ≡ n = omega arith in rw (rw e at here) (rw e refl)
  attempt_from-ends (d ∷ ds) n (suc k) attempts bound before here =
      let e : n + suc k ≡ suc n + k = omega arith in
      let first : n + 0 ≡ n = omega arith in
      rw (rw first at (before 0 (omega arith))) (
        rw e (
          attempt_from-ends ds (suc n) k attempts (omega (arith, bound)) (λ j below. later j below)
            (rw e at here)))
    where
      later : (j : ℕ) → j < k → is_retriable is_future (attempts (suc n + j)) ≡ true
      later j below =
          let e : suc n + j ≡ n + suc j = omega arith in
          rw e (before (suc j) (omega (arith, below)))

  attempt_from-exhausted :
      (delays : List ℕ) (n : ℕ) (attempts : ℕ → Attempt D)
      → ((j : ℕ) → j < suc (length delays) → is_retriable is_future (attempts (n + j)) ≡ true)
      → attempt_from is_future delays n attempts ≡ exhausted (attempts (n + length delays))
  unfolding attempt_from
  attempt_from-exhausted [] n attempts all =
      let e : n + 0 ≡ n = omega arith in rw (rw e at (all 0 (omega arith))) (rw e refl)
  attempt_from-exhausted (d ∷ ds) n attempts all =
      let e : n + suc (length ds) ≡ suc n + length ds = omega arith in
      let first : n + 0 ≡ n = omega arith in
      rw (rw first at (all 0 (omega arith)))
        (rw e (attempt_from-exhausted ds (suc n) attempts later))
    where
      later : (j : ℕ) → j < suc (length ds) → is_retriable is_future (attempts (suc n + j)) ≡ true
      later j below =
          let e : suc n + j ≡ n + suc j = omega arith in rw e (all (suc j) (omega (arith, below)))

-- A call ends by the first of its four attempts that cannot be retried: with its data, or with the
-- error about it.
attempt_from-first :
    {D : Type 0} (is_future : String → Bool) (attempts : ℕ → Attempt D) (k : ℕ)
    → k < 4
    → ((j : ℕ) → j < k → is_retriable is_future (attempts j) ≡ true)
    → is_retriable is_future (attempts k) ≡ false
    → attempt_from is_future retry_backoffs_ms 0 attempts ≡ ended_by is_future (attempts k)
attempt_from-first is_future attempts k bound before here =
    let e : 0 + k ≡ k = omega arith in
    rw e at (
      attempt_from-ends is_future retry_backoffs_ms 0 k attempts bound
        (λ j below. let e' : 0 + j ≡ j = omega arith in rw e' (before j below)) (rw e here))

-- Where all four attempts can be retried, the call ends with the error about the fourth.
attempt_from-all_retriable :
    {D : Type 0} (is_future : String → Bool) (attempts : ℕ → Attempt D)
    → ((j : ℕ) → j < 4 → is_retriable is_future (attempts j) ≡ true)
    → attempt_from is_future retry_backoffs_ms 0 attempts ≡ exhausted (attempts 3)
attempt_from-all_retriable is_future attempts all =
    attempt_from-exhausted is_future retry_backoffs_ms 0 attempts
      (λ j below. let e' : 0 + j ≡ j = omega arith in rw e' (all j below))
