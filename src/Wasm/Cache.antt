-- ===== src/Wasm/Cache.antt =====
-- The cache of token classes (util/local-cache.ts) beside the committed table.
use ixo_blocksync.Base.{
  ◌≡◌, sym, ◌∙◌, ap, String, none, some, arith, string_eq, ◌==◌, ◌⊎◌, inl, inr, Bool-cases,
  Option-cases,
}
use ixo_blocksync.Base.Table.{Table, lookup, upsert, lookup-upsert}
use ixo_blocksync.Pg.{ok, running}
use ixo_blocksync.Wasm.{WasmDb, get_cached_token_class}

-- Every address that the cache holds, it holds with the committed class.
abbrev pub IsCoherent : Table String String → Table String String → Type 0
IsCoherent cache classes =
    (k : String) → (lookup k cache ≡ none) ⊎ (lookup k cache ≡ lookup k classes)

abbrev cached : String → String → Table String String → Table String String
cached address found cache = upsert address found (λ old. found) cache

cached-IsCoherent :
    (classes cache : Table String String) (address found : String)
    → lookup address cache ≡ none
    → lookup address classes ≡ some found
    → IsCoherent cache classes
    → IsCoherent (cached address found cache) classes
cached-IsCoherent classes cache address found miss there coherent k =
    elim (Bool-cases (address == k)) [
      | inl e ↦ inr (
          ground (
            arith,
            string_eq.beq_iff address k,
            lookup-upsert address k found (λ old. found) cache,
            miss,
            there,
            e,
          ))
      | inr e ↦ kept (lookup-upsert address k found (λ old. found) cache ∙ rw e) (coherent k)
    ]
  where
    kept :
        lookup k (cached address found cache) ≡ lookup k cache
        → (lookup k cache ≡ none) ⊎ (lookup k cache ≡ lookup k classes)
        → (lookup k (cached address found cache) ≡ none)
          ⊎ (lookup k (cached address found cache) ≡ lookup k classes)
    kept same (inl absent) = inl (same ∙ absent)
    kept same (inr agrees) = inr (same ∙ agrees)

module _ {P : Type 0} where
  -- The lookup by way of a coherent cache gives what the committed table has, leaves the cache
  -- coherent, and changes nothing else.
  pub get_cached_token_class-IsCoherent :
      (classes : Table String String) (address : String) (s : WasmDb P)
      → IsCoherent s.token_class_cache classes
      → (cache : Table String String) × (get_cached_token_class classes address (running s)
          ≡ (ok (lookup address classes), running (record s { token_class_cache = cache })))
        × IsCoherent cache classes
  unfolding get_cached_token_class lookup
  get_cached_token_class-IsCoherent classes address s coherent =
      elim (Option-cases (lookup address s.token_class_cache)) [
        | inl miss ↦ elim (Option-cases (lookup address classes)) [
          | inl unknown ↦ (s.token_class_cache, rw (miss, unknown), coherent)
          | inr (found, there) ↦ (
            cached address found s.token_class_cache,
            rw (miss, there),
            cached-IsCoherent classes s.token_class_cache address found miss there coherent,
          )
        ]
        | inr (hit, there) ↦ (
          s.token_class_cache,
          rw there (ap (λ o. (ok o, running s)) (hit_agrees hit there (coherent address))),
          coherent,
        )
      ]
    where
      hit_agrees :
          (hit : String)
          → lookup address s.token_class_cache ≡ some hit
          → (lookup address s.token_class_cache ≡ none)
            ⊎ (lookup address s.token_class_cache ≡ lookup address classes)
          → some hit ≡ lookup address classes
      hit_agrees hit there (inl absent) = cc (sym there ∙ absent)
      hit_agrees hit there (inr agrees) = sym there ∙ agrees
