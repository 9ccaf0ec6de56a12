-- ===== src/Token/Sums.antt =====
-- Sums of balances, and the sums over a ledger that grows at its end (the rebuild of Token.Spec).
use ixo_blocksync.Base.{
  ◌≡◌, sym, ◌∙◌, ap, true, String, Option, none, some, List, [], ◌∷◌, ◌++◌, arith, string_eq,
  Bool-cases, inl, inr,
}
use ixo_blocksync.Base.Int.{ℤ, pos, ◌+ℤ◌, is_zero, int_laws}
use ixo_blocksync.Token.{TokenTransaction, Balance, add, is_trivial}
use ixo_blocksync.Token.Spec.{nothing, credit, debit, holdings, having}

zero_of_is_zero : (a : ℤ) → is_zero a ≡ true → a ≡ pos 0
zero_of_is_zero a h = ground arith

+ℤ-zero : (a : ℤ) → a +ℤ pos 0 ≡ a
+ℤ-zero a = omega int_laws

zero-+ℤ : (a : ℤ) → pos 0 +ℤ a ≡ a
zero-+ℤ a = omega int_laws

+ℤ_assoc : (a b c : ℤ) → a +ℤ b +ℤ c ≡ a +ℤ (b +ℤ c)
+ℤ_assoc a b c = omega int_laws

pub add-nothing : (b : Balance) → add b nothing ≡ b
unfolding add
add-nothing b = simp +ℤ-zero

pub nothing-add : (b : Balance) → add nothing b ≡ b
unfolding add
nothing-add b = simp zero-+ℤ

pub add_assoc : (a b c : Balance) → add (add a b) c ≡ add a (add b c)
unfolding add
add_assoc a b c = simp +ℤ_assoc

pub nothing_of_is_trivial : (b : Balance) → is_trivial b ≡ true → b ≡ nothing
nothing_of_is_trivial b h =
    ground (arith, zero_of_is_zero b.amount, zero_of_is_zero b.minted, zero_of_is_zero b.retired)

-- A missing row stands for a balance of zero.
abbrev pub held : Option Balance → Balance
held none = nothing
held (some b) = b

pub held-having : (b : Balance) → held (having b) ≡ b
unfolding having
held-having b = elim (Bool-cases (is_trivial b)) [
  | inl e ↦ rw e (rw (nothing_of_is_trivial b e))
  | inr e ↦ rw e
]

pub holdings-append :
    (a k : String) (t : TokenTransaction) (ts : List TokenTransaction)
    → holdings a k (ts ++ t ∷ []) ≡ add (add (holdings a k ts) (credit a k t)) (debit a k t)
unfolding holdings
holdings-append a k t [] =
    add-nothing _ ∙ ap (λ b. add b (debit a k t)) (sym (nothing-add (credit a k t)))
holdings-append a k t (u ∷ ts) = rw (holdings-append a k t ts) (simp add_assoc)
