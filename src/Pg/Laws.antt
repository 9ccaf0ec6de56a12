-- ===== src/Pg/Laws.antt =====
-- Laws of statements and of the transaction (postgres/client.ts).
use ixo_blocksync.Base.{◌≡◌, refl, ◌∙◌}
use ixo_blocksync.Pg.{Result, ok, err, Tx, Exec, continue, pure, ◌>>=◌}

-- To take a bind apart that returned a value.
pub >>=-eq-ok {ℓ} :
    {S A B : Type ℓ} (m : Exec S A) (f : A → Exec S B) (tx : Tx S) {b : B} {tx₂ : Tx S}
    → (m >>= f) tx ≡ (ok b, tx₂)
    → (a : A) × (tx₁ : Tx S) × (m tx ≡ (ok a, tx₁)) × (f a tx₁ ≡ (ok b, tx₂))
unfolding ◌>>=◌
>>=-eq-ok {S = S} {A} {B} m f tx {b} {tx₂} h = split (m tx) refl
  where
    split :
        (p : Result A × Tx S)
        → m tx ≡ p
        → (a : A) × (tx₁ : Tx S) × (m tx ≡ (ok a, tx₁)) × (f a tx₁ ≡ (ok b, tx₂))
    split (ok a, tx₁) e = (a, tx₁, e, rw (e, ◌>>=◌) at h)
    split (err x, tx₁) e = cc (rw e at h)

module _ {ℓ} {S A B : Type ℓ} where
  pub bind_congr :
      (m : Exec S A) (f g : A → Exec S B) (tx : Tx S)
      → ((a : A) (tx' : Tx S) → f a tx' ≡ g a tx')
      → (m >>= f) tx ≡ (m >>= g) tx
  unfolding ◌>>=◌
  bind_congr m f g tx same = split (m tx)
    where
      split : (p : Result A × Tx S) → continue p.0 f p.1 ≡ continue p.0 g p.1
      split (ok a, tx') = same a tx'
      split (err e, tx') = refl

module _ {ℓ} {S A B C : Type ℓ} where
  pub bind_assoc :
      (m : Exec S A) (f : A → Exec S B) (g : B → Exec S C) (tx : Tx S)
      → (m >>= f >>= g) tx ≡ (m >>= λ a. f a >>= g) tx
  unfolding ◌>>=◌
  bind_assoc m f g tx = split (m tx)
    where
      split :
          (p : Result A × Tx S)
          → (let (r, tx') = continue p.0 f p.1 in continue r g tx')
            ≡ continue p.0 (λ a tx'. let (r, tx₂) = f a tx' in continue r g tx₂) p.1
      split (ok a, tx') = refl
      split (err e, tx') = refl

-- An action that leaves this part of the database as it is, whatever comes of it.
abbrev pub Keeps : {S A B : Type 0} → (S → B) → Exec S A → Type 0
Keeps {S} f m = (tx : Tx S) → f (m tx).1.db ≡ f tx.db

pub bind-Keeps :
    {S A B C : Type 0} (f : S → C) (m : Exec S A) (g : A → Exec S B)
    → Keeps f m
    → ((a : A) → Keeps f (g a))
    → Keeps f (m >>= g)
unfolding ◌>>=◌
bind-Keeps {S} {A} {B} {C} f m g keeps then_keeps tx = split (m tx) (keeps tx)
  where
    split : (p : Result A × Tx S) → f p.1.db ≡ f tx.db → f (continue p.0 g p.1).1.db ≡ f tx.db
    split (ok a, tx') e = then_keeps a tx' ∙ e
    split (err x, tx') e = e

pub pure-Keeps : {S A B : Type 0} (f : S → B) (a : A) → Keeps f (pure {S = S} a)
unfolding pure
pure-Keeps f a tx = refl
