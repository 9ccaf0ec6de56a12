-- ===== src/Attributes/Chunks.antt =====
-- `chunkArray` of util/helpers.ts.
use mathlib.Core.List.{flatten}
use native.Mathlib.Nat.{div-add-mod, mod-lt, mul-zero}
use ixo_blocksync.Base.{
  ◌≡◌, refl, sym, ◌∙◌, ap, ℕ, zero, suc, ◌+◌, ◌-◌, ◌*◌, ◌/◌, ◌<◌, ◌≤◌, List, [], ◌∷◌, ◌++◌, arith,
  All, length, take, drop,
}
use ixo_blocksync.Attributes.{chunks_from, chunk_array}

suc-add : (n m : ℕ) → suc (n + m) ≡ suc n + m
suc-add n m = omega arith

-- The number of chunks covers the array.
ceil-covers : (n size : ℕ) → 0 < size → n ≤ size * (0 + (n + size - 1) / size)
ceil-covers n size h = omega (arith, div-add-mod (n + size - 1) size, mod-lt (n + size - 1) h)

module _ {ℓ} {A : Type ℓ} where
  take-append-drop : (n : ℕ) (xs : List A) → take n xs ++ drop n xs ≡ xs
  take-append-drop zero xs = refl
  take-append-drop (suc n) [] = refl
  take-append-drop (suc n) (x ∷ xs) = ap (λ l. x ∷ l) (take-append-drop n xs)

  drop-nil : (n : ℕ) → drop {A = A} n [] ≡ []
  drop-nil zero = refl
  drop-nil (suc n) = refl

  drop-drop : (n m : ℕ) (xs : List A) → drop m (drop n xs) ≡ drop (n + m) xs
  drop-drop zero m xs = ap (λ k. drop k xs) (omega arith)
  drop-drop (suc n) m [] = drop-nil m ∙ sym (drop-nil (suc n + m))
  drop-drop (suc n) m (x ∷ xs) = drop-drop n m xs ∙ ap (λ k. drop k (x ∷ xs)) (suc-add n m)

  drop_all : (n : ℕ) (xs : List A) → length xs ≤ n → drop n xs ≡ []
  drop_all zero [] h = refl
  drop_all zero (x ∷ xs) h = absurd (omega arith)
  drop_all (suc n) [] h = refl
  drop_all (suc n) (x ∷ xs) h = drop_all n xs (omega arith)

  length-take-le : (n : ℕ) (xs : List A) → length (take n xs) ≤ n
  length-take-le zero xs = omega arith
  length-take-le (suc n) [] = omega arith
  length-take-le (suc n) (x ∷ xs) = omega (arith, length-take-le n xs)

  length-drop : (n : ℕ) (xs : List A) → length (drop n xs) ≡ length xs - n
  length-drop zero xs = omega arith
  length-drop (suc n) [] = omega arith
  length-drop (suc n) (x ∷ xs) = omega (arith, length-drop n xs)

  flatten-chunks_from :
      (n i size : ℕ) (arr : List A)
      → length arr ≤ size * (i + n)
      → flatten (chunks_from n i size arr) ≡ drop (size * i) arr
  unfolding chunks_from flatten
  flatten-chunks_from zero i size arr h = sym (drop_all (size * i) arr (omega arith))
  flatten-chunks_from (suc n) i size arr h =
      ap (λ l. take size (drop (size * i) arr) ++ l)
        (flatten-chunks_from n (i + 1) size arr (omega arith)
          ∙ ap (λ k. drop k arr) (omega arith)
          ∙ sym (drop-drop (size * i) size arr))
      ∙ take-append-drop size (drop (size * i) arr)

  chunks_from-le :
      (n i size : ℕ) (arr : List A) → All (λ c. length c ≤ size) (chunks_from n i size arr)
  unfolding chunks_from
  chunks_from-le zero i size arr = tt
  chunks_from-le (suc n) i size arr = (length-take-le size _, chunks_from-le n (i + 1) size arr)

-- For a positive size, the chunks one after the other are the array, and none is longer than the size.
pub flatten-chunk_array {ℓ} :
    {A : Type ℓ} (arr : List A) (size : ℕ)
    → 0 < size
    → (flatten (chunk_array arr size) ≡ arr) × All (λ c. length c ≤ size) (chunk_array arr size)
unfolding chunk_array
flatten-chunk_array arr size h = (
  flatten-chunks_from _ 0 size arr (ceil-covers (length arr) size h)
      ∙ ap (λ k. drop k arr) (mul-zero size),
  chunks_from-le _ 0 size arr,
)
