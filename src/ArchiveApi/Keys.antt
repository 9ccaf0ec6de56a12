-- ===== src/ArchiveApi/Keys.antt =====
-- The lists of the modules of the chain, followed from key to key.
use ixo_blocksync.Base.{
  ◌≡◌, refl, ◌∙◌, ℕ, zero, suc, ◌<◌, ◌||◌, false, String, Option, none, some, List, [], ◌∷◌, ◌++◌,
  ◌==◌, string_eq, arith, length,
}
use mathlib.Core.List.{append-nil, append_assoc}
use ixo_blocksync.Pg.{Result, ok}
use ixo_blocksync.ArchiveApi.Pages.{is_empty, follow_keys}

module _ {A : Type 0} (page : Option String → Result (List A × Option String)) where
  -- From this key on the node serves these batches: each but the last, which may be empty, has an
  -- entry and a key of the next that is not empty.
  pub data Chain : Option String → List (List A) → Type 0 where
    last_batch :
        {key : Option String} {batch : List A}
        → page key ≡ ok (batch, none)
        → Chain key (batch ∷ [])
    more_batches :
        {key : Option String} {batch : List A} {next : String} {rest : List (List A)}
        → page key ≡ ok (batch, some next)
        → (next == "" || is_empty batch) ≡ false
        → Chain (some next) rest
        → Chain key (batch ∷ rest)

  abbrev pub concat : List (List A) → List A
  concat [] = []
  concat (b ∷ bs) = b ++ concat bs

  -- The loop collects all the batches in their order, with fuel for each of them.
  follow_keys-Chain :
      (fuel : ℕ) (key : Option String) (batches : List (List A)) (out : List A)
      → Chain key batches
      → length batches < suc fuel
      → follow_keys page fuel key out ≡ some (ok (out ++ concat batches))
  unfolding follow_keys
  follow_keys-Chain zero key [] out c enough = elim c [ ]
  follow_keys-Chain zero key (b ∷ bs) out (last_batch e) enough = absurd (omega (arith, enough))
  follow_keys-Chain zero key (b ∷ bs) out (more_batches e h c) enough =
      absurd (omega (arith, enough))
  follow_keys-Chain (suc fuel) key [] out c enough = elim c [ ]
  follow_keys-Chain (suc fuel) key (b ∷ []) out (last_batch e) enough = rw (e, append-nil b) refl
  follow_keys-Chain (suc fuel) key (b ∷ bs) out (more_batches {next = next} e h c) enough =
      rw (e, h)
        (follow_keys-Chain fuel (some next) bs (out ++ b) c (omega (arith, enough))
          ∙ rw (append_assoc out b (concat bs)) refl)
