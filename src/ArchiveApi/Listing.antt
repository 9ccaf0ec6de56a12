-- ===== src/ArchiveApi/Listing.antt =====
-- The listing of a contract page by page, against the list that the contract holds.
use ixo_blocksync.Base.{
  ◌≡◌, refl, ◌∙◌, ap, sym, ℕ, zero, suc, ◌<◌, ◌≤◌, true, false, Option, none, some, List, [], ◌∷◌,
  ◌++◌, ◌==◌, Eq, arith, ltb, length, take, drop, if◌then◌else◌, Bool-cases, inl, inr, All,
  beq_refl, subst, ltb→lt,
}
use mathlib.Core.List.{append-nil, append_assoc}
use ixo_blocksync.Pg.{Result, ok}
use ixo_blocksync.ArchiveApi.Pages.{last_of, listed, list_after}

module _ {ℓ κ} {A : Type ℓ} (P : A → Type κ) where
  All-last_of : (x : A) (xs : List A) → P x → All P xs → P (last_of x xs)
  All-last_of x [] p h = p
  All-last_of x (y ∷ ys) p (q, h) = All-last_of y ys q h

  All-prefix : (xs ys : List A) → All P (xs ++ ys) → All P xs
  All-prefix [] ys h = tt
  All-prefix (x ∷ xs) ys (p, h) = (p, All-prefix xs ys h)

  All-suffix : (xs ys : List A) → All P (xs ++ ys) → All P ys
  All-suffix [] ys h = h
  All-suffix (x ∷ xs) ys (p, h) = All-suffix xs ys h

module _ {ℓ} {A : Type ℓ} where
  take-drop : (n : ℕ) (xs : List A) → take n xs ++ drop n xs ≡ xs
  take-drop zero xs = refl
  take-drop (suc n) [] = refl
  take-drop (suc n) (x ∷ xs) = ap (λ ys. x ∷ ys) (take-drop n xs)

  drop_short : (n : ℕ) (xs : List A) → length (take n xs) < n → drop n xs ≡ []
  drop_short zero xs h = absurd (omega (arith, h))
  drop_short (suc n) [] h = refl
  drop_short (suc n) (x ∷ xs) h = drop_short n xs (omega (arith, h))

  length-drop-le : (n : ℕ) (xs : List A) → length (drop n xs) ≤ length xs
  length-drop-le zero xs = omega arith
  length-drop-le (suc n) [] = omega arith
  length-drop-le (suc n) (x ∷ xs) = omega (arith, length-drop-le n xs)

  length-take-le : (n : ℕ) (xs : List A) → length (take n xs) ≤ n
  length-take-le zero xs = omega arith
  length-take-le (suc n) [] = omega arith
  length-take-le (suc n) (x ∷ xs) = omega (arith, length-take-le n xs)

lt→ltb : (a b : ℕ) → a < b → ltb a b ≡ true
lt→ltb a b h = ground arith

module _ {A K : Type 0} ⦃e : Eq K⦄ (key : A → K) where
  -- What stands after the entry with this key; the whole list where no key is given.
  abbrev pub after_key : K → List A → List A
  after_key k [] = []
  after_key k (x ∷ xs) = if key x == k then xs else after_key k xs

  abbrev pub after : Option K → List A → List A
  after none xs = xs
  after (some k) xs = after_key k xs

  -- No entry has the key of a later one.
  abbrev pub HasDistinctKeys : List A → Type 0
  HasDistinctKeys [] = Unit
  HasDistinctKeys (x ∷ xs) = All (λ y. (key x == key y) ≡ false) xs × HasDistinctKeys xs

  -- After the last entry of a part of the list comes what follows the part.
  after_key-last_of :
      (x : A) (xs ys : List A)
      → HasDistinctKeys (x ∷ xs ++ ys)
      → after_key (key (last_of x xs)) (x ∷ xs ++ ys) ≡ ys
  after_key-last_of x [] ys h = rw (beq_refl (key x)) refl
  after_key-last_of x (y ∷ xs) ys (apart, h) =
      let differs : (key x == key (last_of y xs)) ≡ false =
        All-last_of (λ z. (key x == key z) ≡ false) y xs (apart.0)
          (All-prefix (λ z. (key x == key z) ≡ false) xs ys (apart.1)) in
      rw differs (after_key-last_of y xs ys h)

  after_key-part :
      (before : List A) (x : A) (xs ys : List A)
      → HasDistinctKeys (before ++ (x ∷ xs ++ ys))
      → after_key (key (last_of x xs)) (before ++ (x ∷ xs ++ ys)) ≡ ys
  after_key-part [] x xs ys h = after_key-last_of x xs ys h
  after_key-part (b ∷ before) x xs ys (apart, h) =
      let rest : All (λ z. (key b == key z) ≡ false) (x ∷ xs ++ ys) =
        All-suffix (λ z. (key b == key z) ≡ false) before (x ∷ xs ++ ys) apart in
      let differs : (key b == key (last_of x xs)) ≡ false =
        All-last_of (λ z. (key b == key z) ≡ false) x xs (rest.0)
          (All-prefix (λ z. (key b == key z) ≡ false) xs ys (rest.1)) in
      rw differs (after_key-part before x xs ys h)

  -- The contract holds the list and answers with at most `size` entries after the key.
  abbrev pub Serves : ℕ → List A → (Option K → Result (List A)) → Type 0
  Serves size xs page = (start : Option K) → page start ≡ ok (take size (after start xs))

  list_after_all :
      (page : Option K → Result (List A)) (n fuel : ℕ) (start : Option K) (out rest : List A)
      → Serves (suc n) (out ++ rest) page
      → HasDistinctKeys (out ++ rest)
      → after start (out ++ rest) ≡ rest
      → length rest < fuel
      → list_after page key (suc n) fuel start out ≡ some (ok (out ++ rest))
  unfolding list_after
  list_after_all page n zero start out rest serves distinct here enough =
      absurd (omega (arith, enough))
  list_after_all page n (suc fuel) start out [] serves distinct here enough =
      rw (serves start, here) (ap (λ zs. some (ok zs)) (sym (append-nil out)))
  list_after_all page n (suc fuel) start out (x ∷ xs) serves distinct here enough =
      rw (serves start, here)
        (elim (Bool-cases (ltb (suc (length (take n xs))) (suc n))) [
          | inl short ↦ rw short (ap (λ zs. some (ok (out ++ x ∷ zs))) (whole short))
          | inr full ↦ rw full (
              list_after_all page n fuel (some (key (last_of x (take n xs)))) (out ++ x ∷ take n xs)
                (drop n xs) (subst (λ zs. Serves (suc n) zs page) joined serves)
                (subst HasDistinctKeys joined distinct) next
                (omega (arith, enough, length-drop-le n xs))
              ∙ ap (λ zs. some (ok zs)) (sym joined))
        ])
    where
      whole : ltb (suc (length (take n xs))) (suc n) ≡ true → take n xs ≡ xs
      whole short =
          let none_left : drop n xs ≡ [] =
            drop_short n xs (omega (arith, ltb→lt (suc (length (take n xs))) (suc n) short)) in
          sym (append-nil (take n xs)) ∙ ap (λ zs. take n xs ++ zs) (sym none_left) ∙ take-drop n xs

      joined : out ++ x ∷ xs ≡ (out ++ x ∷ take n xs) ++ drop n xs
      joined =
          ap (λ zs. out ++ x ∷ zs) (sym (take-drop n xs))
          ∙ sym (append_assoc out (x ∷ take n xs) (drop n xs))

      next :
          after_key (key (last_of x (take n xs))) ((out ++ x ∷ take n xs) ++ drop n xs) ≡ drop n xs
      next =
          ap (after_key (key (last_of x (take n xs))))
            (append_assoc out (x ∷ take n xs) (drop n xs))
          ∙ after_key-part out x (take n xs) (drop n xs)
              (subst HasDistinctKeys (ap (λ zs. out ++ x ∷ zs) (sym (take-drop n xs))) distinct)

  -- A contract that serves pages of the size that the loop asks for is listed whole and in its order:
  -- the loop ends, with fuel for one round more than there are entries.
  pub list_after_complete :
      (page : Option K → Result (List A)) (limit fuel : ℕ) (xs : List A)
      → 0 < limit
      → Serves limit xs page
      → HasDistinctKeys xs
      → length xs < fuel
      → list_after page key limit fuel none [] ≡ some (ok xs)
  list_after_complete page zero fuel xs positive serves distinct enough =
      absurd (omega (arith, positive))
  list_after_complete page (suc n) fuel xs positive serves distinct enough =
      list_after_all page n fuel none [] xs serves distinct refl enough

  -- Of a contract that serves fewer entries at once than the loop asks for, only the first page is
  -- listed: the loop takes it for the last.
  list_after_capped :
      (page : Option K → Result (List A)) (size limit fuel : ℕ) (xs : List A)
      → size < limit
      → 0 < fuel
      → Serves size xs page
      → list_after page key limit fuel none [] ≡ some (ok (take size xs))
  unfolding list_after
  list_after_capped page size limit zero xs smaller some_fuel serves =
      absurd (omega (arith, some_fuel))
  list_after_capped page size limit (suc fuel) xs smaller some_fuel serves =
      rw (serves none) (capped (take size xs) (omega (arith, length-take-le size xs, smaller)))
    where
      next : A → List A → Option (Result (List A))
      next x zs = list_after page key limit fuel (some (key (last_of x zs))) (x ∷ zs)

      capped : (ys : List A) → length ys < limit → listed limit [] next (ok ys) ≡ some (ok ys)
      capped [] short = refl
      capped (y ∷ ys) short = rw (lt→ltb (suc (length ys)) limit short) refl
