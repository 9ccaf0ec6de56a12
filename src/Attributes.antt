-- ===== src/Attributes.antt =====
-- util/helpers.ts: reading the attributes of an event, splitting those of a cosmwasm event into its
-- messages, and `chunkArray`.
pub mod Sequential
pub mod Alphabetical
pub mod Chunks
use ixo_blocksync.Base.{
  ℕ, zero, suc, ◌+◌, ◌-◌, ◌*◌, ◌/◌, ◌%◌, Bool, true, false, String, Option, none, some, List, [],
  ◌∷◌, ◌++◌, ◌&&◌, not, ◌==◌, nat_eq, string_eq, find, keep_if, length, take, drop, replicate,
  if◌then◌else◌,
}
use ixo_blocksync.Sync.Interface.{Attribute}

-- `value || …`: JavaScript's falsy empty string
abbrev pub non_empty : String → Option String
non_empty v = if v == "" then none else some v

-- `getWasmAttr(attributes, key, true)`: null for a missing or an empty value
unfoldable pub get_wasm_attr? : List Attribute → String → Option String
get_wasm_attr? attributes key = elim (find (λ attr. attr.key == key) attributes) [
  | none ↦ none
  | some attr ↦ non_empty attr.value
]

-- `getWasmAttr(attributes, key)`
unfoldable pub get_wasm_attr : List Attribute → String → String
unfolding get_wasm_attr?
get_wasm_attr attributes key = elim (get_wasm_attr? attributes key) [ none ↦ "" | some v ↦ v ]

abbrev pub is_action : Attribute → Bool
is_action attr = attr.key == "action"

-- `if (currentGroup.length > 0) result.push(currentGroup)`
abbrev pub flush : List (List Attribute) → List Attribute → List (List Attribute)
flush result [] = result
flush result (a ∷ current) = result ++ (a ∷ current) ∷ []

-- the loop of the sequential branch
unfoldable pub split_sequential :
    List (List Attribute) → List Attribute → List Attribute → List (List Attribute)
split_sequential result current [] = flush result current
split_sequential result current (attr ∷ rest) =
    let new_group = split_sequential (flush result current) (attr ∷ []) rest in
    let longer = split_sequential result (current ++ attr ∷ []) rest in
    if is_action attr then new_group else longer

-- `result[index].push(value)`, at an index within the array
unfoldable pub push_at {ℓ} : {A : Type ℓ} → ℕ → A → List (List A) → List (List A)
push_at i value [] = []
push_at zero value (group ∷ result) = (group ++ value ∷ []) ∷ result
push_at (suc i) value (group ∷ result) = group ∷ push_at i value result

-- the loop of the alphabetical branch, from index `i`
unfoldable pub distribute {ℓ} : {A : Type ℓ} → ℕ → ℕ → List (List A) → List A → List (List A)
unfolding push_at
distribute count i result [] = result
distribute count i result (value ∷ rest) =
    distribute count (i + 1) (push_at (i % count) value result) rest

-- The alphabetical branch: `none` where there is no action among the attributes, and
-- `result[NaN].push` throws a TypeError.
unfoldable pub split_alphabetical : List Attribute → Option (List (List Attribute))
unfolding distribute
split_alphabetical array =
    let count = length (keep_if is_action array) in
    if count == 0 then none else some (distribute count 0 (replicate count []) array)

-- After the splice: `none` where `array[0].key` or `array[1].key` throws a TypeError, and also for
-- a single attribute that is no action, which throws in the alphabetical branch.
unfoldable pub split_rest : List Attribute → Option (List (List Attribute))
unfolding split_sequential split_alphabetical
split_rest [] = none
split_rest (first ∷ []) = none
split_rest (first ∷ second ∷ rest) =
    let array = first ∷ second ∷ rest in
    if is_action first && not (is_action second)
    then some (split_sequential [] [] array)
    else split_alphabetical array

-- `splitAttributesByKeyValue`: the first attribute is dropped unread
unfoldable pub split_attributes_by_key_value : List Attribute → Option (List (List Attribute))
unfolding split_rest
split_attributes_by_key_value [] = none
split_attributes_by_key_value (_ ∷ array) = split_rest array

-- `Math.ceil(arr.length / size)` chunks, the i-th from `size * i` to `size + size * i`
unfoldable pub chunks_from {ℓ} : {A : Type ℓ} → ℕ → ℕ → ℕ → List A → List (List A)
chunks_from zero i size arr = []
chunks_from (suc n) i size arr = take size (drop (size * i) arr) ∷ chunks_from n (i + 1) size arr

-- `chunkArray`, for a positive size
unfoldable pub chunk_array {ℓ} : {A : Type ℓ} → List A → ℕ → List (List A)
unfolding chunks_from
chunk_array arr size = chunks_from ((length arr + size - 1) / size) 0 size arr
