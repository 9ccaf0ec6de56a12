-- ===== src/Token/Volume.antt =====
-- How large a balance can be: no sum over the ledger (Token.Spec) is larger than the sum of the sizes
-- of the amounts that go into it, so that it fits its BIGINT column where that sum does.
use ixo_blocksync.Base.{
  ◌≡◌, refl, sym, subst, ℕ, ◌+◌, ◌≤◌, ◌<◌, Bool, true, false, String, List, [], ◌∷◌, ◌++◌, ◌&&◌,
  ◌==◌, not, arith, nat_eq, string_eq, if◌then◌else◌, Bool-cases, inl, inr,
}
use ixo_blocksync.Base.Int.{ℤ, pos, negsuc, ◌+ℤ◌, neg, pos_part, neg_part}
use ixo_blocksync.Token.{TokenTransaction, Balance, add, is_in_range}
use ixo_blocksync.Token.Balances.{credit_delta, debit_delta}
use ixo_blocksync.Token.Spec.{credit, debit, holdings}

-- the absolute value
abbrev pub size : ℤ → ℕ
size z = pos_part z + neg_part z

-- The sum of the sizes of the amounts of a token's transactions.
unfoldable pub volume : String → List TokenTransaction → ℕ
volume k [] = 0
volume k (t ∷ ts) = let rest = volume k ts in if t.token_id == k then size t.amount + rest else rest

abbrev pub IsBounded : ℕ → Balance → Type 0
IsBounded n b = (size b.amount ≤ n) × (size b.minted ≤ n) × (size b.retired ≤ n)

size-+ℤ : (a b : ℤ) → size (a +ℤ b) ≤ size a + size b
unfolding ◌+ℤ◌
size-+ℤ a b = ground arith

size-neg : (a : ℤ) → size (neg a) ≡ size a
unfolding neg
size-neg (pos n) = ground arith
size-neg (negsuc n) = ground arith

neg-cancels : (a : ℤ) → size (a +ℤ neg a) ≡ 0
unfolding ◌+ℤ◌ neg
neg-cancels (pos n) = ground arith
neg-cancels (negsuc n) = ground arith

pub add-IsBounded :
    (m n : ℕ) (a b : Balance) → IsBounded m a → IsBounded n b → IsBounded (m + n) (add a b)
unfolding add
add-IsBounded m n a b (x₁, x₂, x₃) (y₁, y₂, y₃) = (
  omega (arith, x₁, y₁, size-+ℤ a.amount b.amount),
  omega (arith, x₂, y₂, size-+ℤ a.minted b.minted),
  omega (arith, x₃, y₃, size-+ℤ a.retired b.retired),
)

pub in_range_of_bounded :
    (n : ℕ) (b : Balance) → n < 9223372036854775808 → IsBounded n b → is_in_range b ≡ true
in_range_of_bounded n b small (x, y, z) = ground (arith, small, x, y, z)

zero-size : (a : ℤ) → size (a +ℤ pos 0) ≡ size a
unfolding ◌+ℤ◌
zero-size a = ground arith

size-zero : (a : ℤ) → size (pos 0 +ℤ a) ≡ size a
unfolding ◌+ℤ◌
size-zero a = ground arith

-- The two deltas of one transaction, to the same address or not.
step-IsBounded :
    (a k : String) (t : TokenTransaction)
    → IsBounded (if t.token_id == k then size t.amount else 0) (add (credit a k t) (debit a k t))
unfolding add credit debit
step-IsBounded a k t = elim (Bool-cases (t.to == a && t.token_id == k && not (t.to == ""))) [
  | inl c ↦ elim (Bool-cases (t.sender == a && t.token_id == k && not (t.sender == ""))) [
    | inl d ↦
        let here : (t.token_id == k) ≡ true = ground (arith, c) in
        let named : (t.to == "") ≡ false = ground (arith, c) in
        let sent : (t.sender == "") ≡ false = ground (arith, d) in
        rw (c, d, here, named, sent)
          (
            omega (arith, neg-cancels t.amount),
            omega (arith, zero-size (pos 0)),
            omega (arith, zero-size (pos 0)),
          )
    | inr d ↦
        let here : (t.token_id == k) ≡ true = ground (arith, c) in
        rw (c, d, here)
          (
            omega (arith, zero-size t.amount),
            minted (t.sender == ""),
            omega (arith, zero-size (pos 0)),
          )
  ]
  | inr c ↦ elim (Bool-cases (t.sender == a && t.token_id == k && not (t.sender == ""))) [
    | inl d ↦
        let here : (t.token_id == k) ≡ true = ground (arith, d) in
        rw (c, d, here)
          (
            omega (arith, size-zero (neg t.amount), size-neg t.amount),
            omega (arith, zero-size (pos 0)),
            retired (t.to == ""),
          )
    | inr d ↦
        rw (c, d)
          (
            omega (arith, zero-size (pos 0)),
            omega (arith, zero-size (pos 0)),
            omega (arith, zero-size (pos 0)),
          )
  ]
]
  where
    minted : (b : Bool) → size ((if b then t.amount else pos 0) +ℤ pos 0) ≤ size t.amount
    minted true = omega (arith, zero-size t.amount)
    minted false = omega (arith, zero-size (pos 0))

    retired : (b : Bool) → size (pos 0 +ℤ (if b then t.amount else pos 0)) ≤ size t.amount
    retired true = omega (arith, size-zero t.amount)
    retired false = omega (arith, zero-size (pos 0))

volume_nil : (k : String) → volume k [] ≡ 0
unfolding volume
volume_nil k = refl

volume-cons :
    (k : String) (t : TokenTransaction) (ts : List TokenTransaction)
    → volume k (t ∷ ts) ≡ (if t.token_id == k then size t.amount else 0) + volume k ts
unfolding volume
volume-cons k t ts = ground arith

pub holdings-IsBounded :
    (a k : String) (ts : List TokenTransaction) → IsBounded (volume k ts) (holdings a k ts)
unfolding holdings volume
holdings-IsBounded a k [] = (omega arith, omega arith, omega arith)
holdings-IsBounded a k (t ∷ ts) =
    subst (λ n. IsBounded n (holdings a k (t ∷ ts))) (sym (volume-cons k t ts))
      (add-IsBounded (if t.token_id == k then size t.amount else 0) (volume k ts)
        (add (credit a k t) (debit a k t)) (holdings a k ts) (step-IsBounded a k t)
        (holdings-IsBounded a k ts))

pub volume-append :
    (k : String) (xs ys : List TokenTransaction) → volume k (xs ++ ys) ≡ volume k xs + volume k ys
unfolding volume
volume-append k [] ys = omega arith
volume-append k (t ∷ xs) ys = ground (arith, volume-append k xs ys)

-- What the newest transaction adds is at most what a longer ledger holds.
pub volume-prefix :
    (k : String) (xs : List TokenTransaction) (t : TokenTransaction) (ts : List TokenTransaction)
    → (t.token_id == k) ≡ true
    → volume k xs + size t.amount ≤ volume k (xs ++ t ∷ ts)
volume-prefix k xs t ts here =
    omega (arith, volume-append k xs (t ∷ ts), rw here at (volume-cons k t ts))

pub volume-one :
    (k : String) (xs : List TokenTransaction) (t : TokenTransaction)
    → (t.token_id == k) ≡ true
    → volume k (xs ++ t ∷ []) ≡ volume k xs + size t.amount
volume-one k xs t here =
    omega (arith, volume-append k xs (t ∷ []), rw here at (volume-cons k t []), volume_nil k)

pub credit_delta-IsBounded : (t : TokenTransaction) → IsBounded (size t.amount) (credit_delta t)
credit_delta-IsBounded t = (omega arith, chosen (t.sender == ""), omega arith)
  where
    chosen : (b : Bool) → size (if b then t.amount else pos 0) ≤ size t.amount
    chosen true = omega arith
    chosen false = omega arith

pub debit_delta-IsBounded : (t : TokenTransaction) → IsBounded (size t.amount) (debit_delta t)
debit_delta-IsBounded t = (omega (arith, size-neg t.amount), omega arith, chosen (t.to == ""))
  where
    chosen : (b : Bool) → size (if b then t.amount else pos 0) ≤ size t.amount
    chosen true = omega arith
    chosen false = omega arith
