-- ===== src/Attributes/Alphabetical.antt =====
-- The alphabetical grouping of `splitAttributesByKeyValue` (util/helpers.ts): the attributes of
-- all messages sorted by key, so that each key has as many as there are messages.
use mathlib.Core.List.{flatten, append_assoc, append-nil}
use mathlib.Core.Path.{ap₂}
use native.Mathlib.Nat.{mul-add-mod_self_right, mod-eq_of_lt}
use ixo_blocksync.Base.{
  ◌≡◌, refl, sym, ◌∙◌, ap, ℕ, zero, suc, ◌+◌, ◌*◌, ◌%◌, ◌<◌, true, false, some, List, [], ◌∷◌, ◌++◌,
  arith, All, length, length-append, keep_if, replicate,
}
use ixo_blocksync.Sync.Interface.{Attribute}
use ixo_blocksync.Attributes.{
  is_action, push_at, distribute, split_alphabetical, split_attributes_by_key_value,
}

index_in_column : (base i count : ℕ) → i < count → (base * count + i) % count ≡ i
index_in_column base i count h = mul-add-mod_self_right base count i ∙ mod-eq_of_lt h

add_nothing : (base count : ℕ) → base * count ≡ base * count + 0
add_nothing base count = omega arith

next_base : (base count : ℕ) → base * count + count ≡ (base + 1) * count
next_base base count = omega arith

module _ {ℓ} {A : Type ℓ} where
  -- Each group gets its entry of the column at its end.
  abbrev pub append_column : List (List A) → List A → List (List A)
  append_column [] column = []
  append_column (group ∷ groups) [] = group ∷ groups
  append_column (group ∷ groups) (x ∷ column) = (group ++ x ∷ []) ∷ append_column groups column

  -- The messages that a list of columns is made of: the g-th message has the g-th entry of each
  -- column, in the order of the columns.
  abbrev pub messages : List (List A) → List (List A) → List (List A)
  messages groups [] = groups
  messages groups (column ∷ columns) = messages (append_column groups column) columns

  length-append_column :
      (groups : List (List A)) (column : List A)
      → length (append_column groups column) ≡ length groups
  length-append_column [] column = refl
  length-append_column (g ∷ groups) [] = refl
  length-append_column (g ∷ groups) (x ∷ column) = ap suc (length-append_column groups column)

  push_at-append :
      (done : List (List A)) (x : A) (g : List A) (groups : List (List A))
      → push_at (length done) x (done ++ g ∷ groups) ≡ done ++ (g ++ x ∷ []) ∷ groups
  unfolding push_at
  push_at-append [] x g groups = refl
  push_at-append (d ∷ done) x g groups = ap (λ l. d ∷ l) (push_at-append done x g groups)

  -- One column, from the middle: `done` have their entry already.
  distribute_column :
      (base : ℕ) (done groups : List (List A)) (column rest : List A) (count : ℕ)
      → length done + length groups ≡ count
      → length column ≡ length groups
      → distribute count (base * count + length done) (done ++ groups) (column ++ rest)
        ≡ distribute count (base * count + count) (done ++ append_column groups column) rest
  unfolding distribute
  distribute_column base done [] [] rest count n same =
      ap (λ i. distribute count i (done ++ []) rest) (omega arith)
  distribute_column base done [] (x ∷ column) rest count n same = absurd (omega arith)
  distribute_column base done (g ∷ groups) [] rest count n same = absurd (omega arith)
  distribute_column base done (g ∷ groups) (x ∷ column) rest count n same =
      let done' = done ++ (g ++ x ∷ []) ∷ [] in
      let grown = length-append done ((g ++ x ∷ []) ∷ []) in
      ap₂ (λ i result. distribute count i result (column ++ rest)) (omega (arith, grown))
        (ap (λ i. push_at i x (done ++ g ∷ groups))
            (index_in_column base (length done) count (omega arith))
          ∙ push_at-append done x g groups
          ∙ sym (append_assoc done _ _))
      ∙ distribute_column base done' groups column rest count (omega (arith, grown)) (omega arith)
      ∙ ap (λ result. distribute count (base * count + count) result rest) (append_assoc done _ _)

  distribute-flatten :
      (base : ℕ) (groups columns : List (List A)) (count : ℕ)
      → length groups ≡ count
      → All (λ column. length column ≡ count) columns
      → distribute count (base * count) groups (flatten columns) ≡ messages groups columns
  unfolding distribute flatten
  distribute-flatten base groups [] count n h = refl
  distribute-flatten base groups (column ∷ columns) count n (same, h) =
      ap (λ i. distribute count i groups (column ++ flatten columns)) (add_nothing base count)
      ∙ distribute_column base [] groups column (flatten columns) count (omega (arith, n))
          (same ∙ sym n)
      ∙ ap (λ i. distribute count i (append_column groups column) (flatten columns))
          (next_base base count)
      ∙ distribute-flatten (base + 1) (append_column groups column) columns count
          (length-append_column groups column ∙ n) h

  length-replicate : (n : ℕ) (a : A) → length (replicate n a) ≡ n
  length-replicate zero a = refl
  length-replicate (suc n) a = ap suc (length-replicate n a)

-- Actions, and columns that hold none: the number of actions is the length of the first column.
keep_if-All :
    (actions rest : List Attribute)
    → All (λ a. is_action a ≡ true) actions
    → keep_if is_action (actions ++ rest) ≡ actions ++ keep_if is_action rest
keep_if-All [] rest h = refl
keep_if-All (a ∷ actions) rest (e, h) =
    rw (e, keep_if) (ap (λ l. a ∷ l) (keep_if-All actions rest h))

keep_if_none :
    (column rest : List Attribute)
    → All (λ a. is_action a ≡ false) column
    → keep_if is_action (column ++ rest) ≡ keep_if is_action rest
keep_if_none [] rest h = refl
keep_if_none (a ∷ column) rest (e, h) = rw (e, keep_if) (keep_if_none column rest h)

keep_if_columns :
    (columns : List (List Attribute))
    → All (All (λ a. is_action a ≡ false)) columns
    → keep_if is_action (flatten columns) ≡ []
unfolding flatten
keep_if_columns [] h = refl
keep_if_columns (column ∷ columns) (k, h) =
    keep_if_none column (flatten columns) k ∙ keep_if_columns columns h

split_alphabetical_of_count :
    (array : List Attribute) (n : ℕ)
    → length (keep_if is_action array) ≡ suc n
    → split_alphabetical array ≡ some (distribute (suc n) 0 (replicate (suc n) []) array)
unfolding split_alphabetical
split_alphabetical_of_count array n e = rw e (ground arith)

split_two_actions :
    (dropped a b : Attribute) (rest : List Attribute)
    → is_action b ≡ true
    → split_attributes_by_key_value (dropped ∷ a ∷ b ∷ rest) ≡ split_alphabetical (a ∷ b ∷ rest)
unfolding split_attributes_by_key_value
split_two_actions dropped a b rest e = ground arith

-- Attributes that are sorted by key, a column of two or more actions before columns of the other
-- keys, every column with one attribute for each message in the order of the messages, are split
-- into the messages: the g-th group has the g-th attribute of every column.
pub split_attributes_by_key_value_alphabetical :
    (dropped a b : Attribute) (actions : List Attribute) (columns : List (List Attribute))
    → All (λ c. is_action c ≡ true) (a ∷ b ∷ actions)
    → All (All (λ c. is_action c ≡ false)) columns
    → All (λ column. length column ≡ length (a ∷ b ∷ actions)) columns
    → split_attributes_by_key_value (dropped ∷ flatten ((a ∷ b ∷ actions) ∷ columns))
      ≡ some (messages (replicate (length (a ∷ b ∷ actions)) []) ((a ∷ b ∷ actions) ∷ columns))
unfolding flatten
split_attributes_by_key_value_alphabetical dropped a b actions columns (ea, (eb, h)) k same =
    let all = a ∷ b ∷ actions in
    let kept : keep_if is_action (all ++ flatten columns) ≡ all =
      keep_if-All all (flatten columns) (ea, (eb, h))
      ∙ ap (λ l. all ++ l) (keep_if_columns columns k)
      ∙ append-nil all in
    split_two_actions dropped a b (actions ++ flatten columns) eb
    ∙ split_alphabetical_of_count (all ++ flatten columns) (suc (length actions)) (ap length kept)
    ∙ ap some (
        ap (λ i. distribute (length all) i (replicate (length all) []) (flatten (all ∷ columns)))
          (omega arith)
        ∙ distribute-flatten 0 (replicate (length all) []) (all ∷ columns) (length all)
            (length-replicate (length all) []) (refl, same))
