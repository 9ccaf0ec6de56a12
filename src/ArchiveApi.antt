-- ===== src/ArchiveApi.antt =====
-- util/archive-api.ts: `queryArchiveApi`, its retries and its cache. What `fetch` brings is not part of
-- the repository: each attempt of a call comes with its outcome.
pub mod Retries
pub mod Coherence
pub mod Pages
pub mod Listing
pub mod Keys
pub mod Grants
pub mod Snapped
use ixo_blocksync.Base.{
  ℕ, suc, Bool, true, false, String, Option, none, some, List, [], ◌∷◌, ◌==◌, ◌||◌, string_eq,
  nat_eq, leb, if◌then◌else◌,
}
use ixo_blocksync.Base.Table.{Table, lookup, upsert}

-- The body of a refusal: the envelope of a gRPC error with its message, or anything else.
pub data Body : Type 0 where
  envelope : String → Body
  other_body : Body

-- `response.ok` with the data, another response, or a `fetch` or a reading that throws.
pub data Attempt (D : Type 0) : Type 0 where
  answered : D → Attempt D
  refused : ℕ → Body → Attempt D
  failed : Attempt D

-- How a call ends: with the data, or with one of the two errors, about the last attempt.
pub data Outcome (D : Type 0) : Type 0 where
  answer : D → Outcome D
  non_retriable : Attempt D → Outcome D
  exhausted : Attempt D → Outcome D

unfoldable pub is_retriable_status : ℕ → Bool
is_retriable_status status =
    if status == 429 then true else status == 502 || (status == 503 || status == 504)

pub record ApiCache (D : Type 0) : Type 0 where
  pub cache : Table String D
  pub current_height : ℕ

-- RETRY_BACKOFFS_MS
abbrev pub retry_backoffs_ms : List ℕ
retry_backoffs_ms = 1100 ∷ 2100 ∷ 3100 ∷ []

module _ {D : Type 0} where
  -- `cleanupOldHeights`
  unfoldable pub cleanup_old_heights : ℕ → ApiCache D → ApiCache D
  cleanup_old_heights new_height c =
      if leb new_height c.current_height
      then c
      else record { cache = []; current_height = new_height }

  -- `archiveApiCache.set` unless the cache is bypassed
  abbrev pub remember : Bool → String → Outcome D → ApiCache D → ApiCache D
  remember true path o c = c
  remember false path (answer d) c = record c { cache = upsert path d (λ old. d) c.cache }
  remember false path (non_retriable a) c = c
  remember false path (exhausted a) c = c

  abbrev pub cached_or : Option D → Outcome D × ApiCache D → ApiCache D → Outcome D × ApiCache D
  cached_or none fresh c = fresh
  cached_or (some d) fresh c = (answer d, c)

-- `isRetriable500Body`; `is_future` is the test by RETRIABLE_ENVELOPE_RE
unfoldable pub is_retriable_500_body : (String → Bool) → Body → Bool
is_retriable_500_body is_future (envelope message) = is_future message
is_retriable_500_body is_future other_body = true

module _ {D : Type 0} (is_future : String → Bool) where
  -- whether the loop goes on after the attempt
  unfoldable pub is_retriable : Attempt D → Bool
  unfolding is_retriable_status is_retriable_500_body
  is_retriable (answered d) = false
  is_retriable (refused status body) =
      if status == 500 then is_retriable_500_body is_future body else is_retriable_status status
  is_retriable failed = true

  -- the end by an attempt that is not retriable
  abbrev pub ended_by : Attempt D → Outcome D
  ended_by (answered d) = answer d
  ended_by (refused status body) = non_retriable (refused status body)
  ended_by failed = exhausted failed

  -- the loop over the attempts, with the waits that are left
  unfoldable pub attempt_from : List ℕ → ℕ → (ℕ → Attempt D) → Outcome D
  unfolding is_retriable
  attempt_from [] n attempts =
      if is_retriable (attempts n) then exhausted (attempts n) else ended_by (attempts n)
  attempt_from (delay ∷ delays) n attempts =
      let rest = attempt_from delays (suc n) attempts in
      if is_retriable (attempts n) then rest else ended_by (attempts n)

  abbrev pub fetched : String → Bool → (ℕ → Attempt D) → ApiCache D → Outcome D × ApiCache D
  unfolding attempt_from
  fetched path bypass attempts c =
      let o = attempt_from retry_backoffs_ms 0 attempts in (o, remember bypass path o c)

  -- `queryArchiveApi` of a path at a height
  unfoldable pub query_archive_api :
      String → ℕ → Bool → (ℕ → Attempt D) → ApiCache D → Outcome D × ApiCache D
  unfolding cleanup_old_heights attempt_from
  query_archive_api path height true attempts c = fetched path true attempts c
  query_archive_api path height false attempts c =
      let c' = cleanup_old_heights height c in
      cached_or (lookup path c'.cache) (fetched path false attempts c') c'
