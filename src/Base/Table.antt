-- ===== src/Base/Table.antt =====
-- A database table with a primary key: the key columns beside the other columns of each row.
-- The statements are those that the program's SQL uses.
use mathlib.Core.Path.{◌≡◌, refl, subst}
use mathlib.Core.Bool.{false, Bool}
use mathlib.Core.Option.{Option, none, some}
use mathlib.Core.List.{List, [], ◌∷◌}
use native.Mathlib.Omega.{arith}
use ixo_blocksync.Base.Tests.{if◌then◌else◌}
use ixo_blocksync.Base.Equality.{Eq, ◌==◌}

abbrev pub Table {ℓ κ} : Type ℓ → Type κ → Type (ℓ ⊔ κ)
Table K V = List (K × V)

-- A change of the stored columns that a statement makes where the row is there.
abbrev pub change {ℓ} : {V : Type ℓ} → (V → V) → Option V → Option V
change f none = none
change f (some v) = some (f v)

-- What ON CONFLICT DO UPDATE leaves at its key.
abbrev pub upserted {ℓ} : {V : Type ℓ} → V → (V → V) → Option V → V
upserted v merge none = v
upserted v merge (some old) = merge old

pub upserted_same {ℓ} : {V : Type ℓ} (v : V) (o : Option V) → upserted v (λ old. v) o ≡ v
upserted_same v none = refl
upserted_same v (some old) = refl

-- The predicate holds of the value, where there is one.
abbrev pub OfSome {ℓ κ} : {V : Type ℓ} → (V → Type κ) → Option V → Type κ
OfSome P none = Unit
OfSome P (some v) = P v

pub OfSome-elim {ℓ κ} :
    {V : Type ℓ} (P : V → Type κ) (o : Option V) (v : V) → o ≡ some v → OfSome P o → P v
OfSome-elim P none v e h = cc e
OfSome-elim P (some w) v e h = subst P (cc e) h

pub OfSome-intro {ℓ κ} :
    {V : Type ℓ} (P : V → Type κ) (o : Option V) → ((v : V) → o ≡ some v → P v) → OfSome P o
OfSome-intro P none h = tt
OfSome-intro P (some v) h = h v refl

abbrev pub unless {ℓ} : {V : Type ℓ} → (V → Bool) → Option V → Option V
unless p none = none
unless p (some v) = if p v then none else some v

module _ {ℓ κ} {K : Type ℓ} {V : Type κ} ⦃e : Eq K⦄ where
  -- SELECT … WHERE key = k
  unfoldable pub lookup : K → Table K V → Option V
  lookup k [] = none
  lookup k ((j, v) ∷ t) = if j == k then some v else lookup k t

  -- INSERT … ON CONFLICT (key) DO UPDATE; `merge` has the stored row
  unfoldable pub upsert : K → V → (V → V) → Table K V → Table K V
  upsert k v merge [] = (k, v) ∷ []
  upsert k v merge ((j, w) ∷ t) = if j == k then (j, merge w) ∷ t else (j, w) ∷ upsert k v merge t

  -- UPDATE … WHERE key = k
  unfoldable pub update : K → (V → V) → Table K V → Table K V
  update k f [] = []
  update k f ((j, w) ∷ t) = if j == k then (j, f w) ∷ t else (j, w) ∷ update k f t

  -- DELETE … WHERE key = k
  unfoldable pub delete : K → Table K V → Table K V
  delete k [] = []
  delete k ((j, w) ∷ t) = if j == k then t else (j, w) ∷ delete k t

  -- DELETE … WHERE a test on the row
  unfoldable pub delete_where : (V → Bool) → Table K V → Table K V
  delete_where p [] = []
  delete_where p ((j, w) ∷ t) = let rest = delete_where p t in if p w then rest else (j, w) ∷ rest

  -- DELETE … WHERE a test on the key
  unfoldable pub delete_keys : (K → Bool) → Table K V → Table K V
  delete_keys p [] = []
  delete_keys p ((j, w) ∷ t) = let rest = delete_keys p t in if p j then rest else (j, w) ∷ rest

  -- UPDATE … WHERE a test on the row
  unfoldable pub update_where : (V → Bool) → (V → V) → Table K V → Table K V
  update_where p f [] = []
  update_where p f ((j, w) ∷ t) = (j, if p w then f w else w) ∷ update_where p f t

  -- The primary key: no key has two rows.
  abbrev pub HasUniqueKeys : Table K V → Type κ
  HasUniqueKeys [] = Unit
  HasUniqueKeys ((k, _) ∷ t) = (lookup k t ≡ none) × HasUniqueKeys t

  pub lookup-upsert :
      (k j : K) (v : V) (merge : V → V) (t : Table K V)
      → lookup j (upsert k v merge t)
        ≡ (if k == j then some (upserted v merge (lookup k t)) else lookup j t)
  unfolding lookup upsert
  lookup-upsert k j v merge [] = ground arith
  lookup-upsert k j v merge ((i, w) ∷ t) =
      ground (arith, e.beq_iff k j, e.beq_iff i k, e.beq_iff i j, lookup-upsert k j v merge t)

  pub lookup-update :
      (k j : K) (f : V → V) (t : Table K V)
      → lookup j (update k f t) ≡ (if k == j then change f (lookup k t) else lookup j t)
  unfolding lookup update
  lookup-update k j f [] = ground arith
  lookup-update k j f ((i, w) ∷ t) =
      ground (arith, e.beq_iff k j, e.beq_iff i k, e.beq_iff i j, lookup-update k j f t)

  pub lookup-delete :
      (k j : K) (t : Table K V)
      → HasUniqueKeys t
      → lookup j (delete k t) ≡ (if k == j then none else lookup j t)
  unfolding lookup delete
  lookup-delete k j [] h = ground arith
  lookup-delete k j ((i, w) ∷ t) (fresh, h) =
      ground (arith, e.beq_iff k j, e.beq_iff i k, e.beq_iff i j, lookup-delete k j t h)

  lookup-delete_where-none :
      (p : V → Bool) (j : K) (t : Table K V)
      → lookup j t ≡ none
      → lookup j (delete_where p t) ≡ none
  unfolding lookup delete_where
  lookup-delete_where-none p j [] h = refl
  lookup-delete_where-none p j ((i, w) ∷ t) h = ground (arith, lookup-delete_where-none p j t)

  pub lookup-delete_where-some :
      (p : V → Bool) (j : K) (t : Table K V) (v : V)
      → lookup j (delete_where p t) ≡ some v
      → p v ≡ false
  unfolding lookup delete_where
  lookup-delete_where-some p j [] v h = ground arith
  lookup-delete_where-some p j ((i, w) ∷ t) v h = ground (arith, lookup-delete_where-some p j t v)

  pub lookup-delete_where :
      (p : V → Bool) (j : K) (t : Table K V)
      → HasUniqueKeys t
      → lookup j (delete_where p t) ≡ unless p (lookup j t)
  unfolding lookup delete_where
  lookup-delete_where p j [] h = refl
  lookup-delete_where p j ((i, w) ∷ t) (fresh, h) =
      ground (arith, e.beq_iff i j, lookup-delete_where p j t h, lookup-delete_where-none p j t)

  pub upsert-HasUniqueKeys :
      (k : K) (v : V) (merge : V → V) (t : Table K V)
      → HasUniqueKeys t
      → HasUniqueKeys (upsert k v merge t)
  unfolding upsert lookup
  upsert-HasUniqueKeys k v merge [] h = (refl, tt)
  upsert-HasUniqueKeys k v merge ((i, w) ∷ t) (fresh, h) = ground (
    arith,
    e.beq_iff k i,
    e.beq_iff i k,
    upsert-HasUniqueKeys k v merge t h,
    lookup-upsert k i v merge t,
  )

  pub update-HasUniqueKeys :
      (k : K) (f : V → V) (t : Table K V) → HasUniqueKeys t → HasUniqueKeys (update k f t)
  unfolding update lookup
  update-HasUniqueKeys k f [] h = tt
  update-HasUniqueKeys k f ((i, w) ∷ t) (fresh, h) =
      ground
        (arith, e.beq_iff k i, e.beq_iff i k, update-HasUniqueKeys k f t h, lookup-update k i f t)

  pub delete-HasUniqueKeys : (k : K) (t : Table K V) → HasUniqueKeys t → HasUniqueKeys (delete k t)
  unfolding delete lookup
  delete-HasUniqueKeys k [] h = tt
  delete-HasUniqueKeys k ((i, w) ∷ t) (fresh, h) =
      ground
        (arith, e.beq_iff k i, e.beq_iff i k, delete-HasUniqueKeys k t h, lookup-delete k i t h)

  pub delete_where-HasUniqueKeys :
      (p : V → Bool) (t : Table K V) → HasUniqueKeys t → HasUniqueKeys (delete_where p t)
  unfolding delete_where
  delete_where-HasUniqueKeys p [] h = tt
  delete_where-HasUniqueKeys p ((i, w) ∷ t) (fresh, h) =
      ground (arith, delete_where-HasUniqueKeys p t h, lookup-delete_where-none p i t)

  pub lookup-update_self :
      (k : K) (f : V → V) (t : Table K V) (v : V)
      → lookup k t ≡ some v
      → lookup k (update k f t) ≡ some (f v)
  lookup-update_self k f t v h = ground (arith, e.beq_iff k k, lookup-update k k f t)

  pub lookup-upsert_self :
      (k : K) (v : V) (merge : V → V) (t : Table K V)
      → lookup k (upsert k v merge t) ≡ some (upserted v merge (lookup k t))
  lookup-upsert_self k v merge t = ground (arith, e.beq_iff k k, lookup-upsert k k v merge t)

  pub lookup-delete_self : (k : K) (t : Table K V) → HasUniqueKeys t → lookup k (delete k t) ≡ none
  lookup-delete_self k t h = ground (arith, e.beq_iff k k, lookup-delete k k t h)

  pub lookup-update_where :
      (p : V → Bool) (f : V → V) (j : K) (t : Table K V)
      → lookup j (update_where p f t) ≡ change (λ w. if p w then f w else w) (lookup j t)
  unfolding lookup update_where
  lookup-update_where p f j [] = refl
  lookup-update_where p f j ((i, w) ∷ t) = ground (arith, lookup-update_where p f j t)

  pub lookup-delete_keys :
      (p : K → Bool) (j : K) (t : Table K V)
      → lookup j (delete_keys p t) ≡ (if p j then none else lookup j t)
  unfolding lookup delete_keys
  lookup-delete_keys p j [] = ground arith
  lookup-delete_keys p j ((i, w) ∷ t) = ground (arith, e.beq_iff i j, lookup-delete_keys p j t)
