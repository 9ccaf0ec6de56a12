-- ===== src/Attributes/Sequential.antt =====
-- The sequential grouping of `splitAttributesByKeyValue` (util/helpers.ts).
use mathlib.Core.List.{flatten, append_assoc, append-nil}
use ixo_blocksync.Base.{
  ◌≡◌, refl, sym, ◌∙◌, ap, true, false, some, List, [], ◌∷◌, ◌++◌, arith, All, All-append,
  Bool-cases, inl, inr,
}
use ixo_blocksync.Sync.Interface.{Attribute}
use ixo_blocksync.Attributes.{is_action, flush, split_sequential, split_attributes_by_key_value}

-- The attributes of one message: an action, and then no other action.
abbrev pub IsMessage : List Attribute → Type 0
IsMessage [] = ⊥
IsMessage (a ∷ group) = (is_action a ≡ true) × All (λ b. is_action b ≡ false) group

flatten-append : (xs ys : List (List Attribute)) → flatten (xs ++ ys) ≡ flatten xs ++ flatten ys
unfolding flatten
flatten-append [] ys = refl
flatten-append (x ∷ xs) ys = ap (λ l. x ++ l) (flatten-append xs ys) ∙ sym (append_assoc x _ _)

flatten-flush :
    (result : List (List Attribute)) (current : List Attribute)
    → flatten (flush result current) ≡ flatten result ++ current
unfolding flatten
flatten-flush result [] = sym (append-nil _)
flatten-flush result (a ∷ current) = flatten-append result ((a ∷ current) ∷ []) ∙ simp append-nil

flatten-split_sequential :
    (result : List (List Attribute)) (current rest : List Attribute)
    → flatten (split_sequential result current rest) ≡ flatten result ++ (current ++ rest)
unfolding split_sequential
flatten-split_sequential result current [] = simp (flatten-flush, append-nil)
flatten-split_sequential result current (a ∷ rest) = elim (Bool-cases (is_action a)) [
  | inl e ↦ rw e (
      simp (
        flatten-split_sequential (flush result current) (a ∷ []) rest,
        flatten-flush,
        append_assoc,
      ))
  | inr e ↦ rw e (simp (flatten-split_sequential result (current ++ a ∷ []) rest, append_assoc))
]

-- A group under construction: empty before the first attribute.
abbrev IsBegun : List Attribute → Type 0
IsBegun [] = Unit
IsBegun (a ∷ group) = IsMessage (a ∷ group)

flush-IsMessage :
    (result : List (List Attribute)) (current : List Attribute)
    → All IsMessage result
    → IsBegun current
    → All IsMessage (flush result current)
flush-IsMessage result [] h k = h
flush-IsMessage result (a ∷ current) h k =
    All-append IsMessage result ((a ∷ current) ∷ []) h (k, tt)

extend-IsBegun :
    (c : Attribute) (current : List Attribute) (a : Attribute)
    → IsMessage (c ∷ current)
    → is_action a ≡ false
    → IsMessage (c ∷ current ++ a ∷ [])
extend-IsBegun c current a (k, ks) e =
    (k, All-append (λ b. is_action b ≡ false) current (a ∷ []) ks (e, tt))

split_sequential-IsMessage :
    (result : List (List Attribute)) (c : Attribute) (current rest : List Attribute)
    → All IsMessage result
    → IsMessage (c ∷ current)
    → All IsMessage (split_sequential result (c ∷ current) rest)
unfolding split_sequential
split_sequential-IsMessage result c current [] h k = flush-IsMessage result (c ∷ current) h k
split_sequential-IsMessage result c current (a ∷ rest) h k = elim (Bool-cases (is_action a)) [
  | inl e ↦
      rw (e, All)
        (split_sequential-IsMessage (flush result (c ∷ current)) a [] rest
          (flush-IsMessage result (c ∷ current) h k) (e, tt))
  | inr e ↦
      rw (e, All)
        (split_sequential-IsMessage result c (current ++ a ∷ []) rest h
          (extend-IsBegun c current a k e))
]

-- Attributes that come one message after the other, an action first and not two actions, are split
-- into the messages: each group begins with an action and has no other, and one after the other
-- the groups are all the attributes after the dropped one, in their order.
pub split_attributes_by_key_value_sequential :
    (dropped first second : Attribute) (rest : List Attribute)
    → is_action first ≡ true
    → is_action second ≡ false
    → (groups : List (List Attribute)) × (split_attributes_by_key_value
          (dropped ∷ first ∷ second ∷ rest)
        ≡ some groups)
      × (flatten groups ≡ first ∷ second ∷ rest)
      × All IsMessage groups
unfolding split_attributes_by_key_value split_sequential flatten
split_attributes_by_key_value_sequential dropped first second rest e f = (
  split_sequential [] [] (first ∷ second ∷ rest),
  ground arith,
  flatten-split_sequential [] [] (first ∷ second ∷ rest),
  rw (e, f, All) (split_sequential-IsMessage [] first (second ∷ []) rest tt (e, (f, tt))),
)
