-- ===== src/Claims/Evaluations.antt =====
-- The evaluations of a claim: their history only grows, and an updated claim points to its current one.
use ixo_blocksync.Base.{
  ◌≡◌, refl, sym, ◌∙◌, ap, ◌⊎◌, inl, inr, ℕ, ◌+◌, true, String, Option, none, some, List, [], ◌∷◌,
  ◌==◌, nat_eq, string_eq, pair_eq, Bool-cases, eq_of_beq, subst, All,
}
use ixo_blocksync.Base.Table.{
  Table, lookup, upsert, upserted, update, lookup-upsert, lookup-upsert_self, lookup-update_self,
}
use ixo_blocksync.Pg.{ok, running, pure, query, statement, ◌>>=◌}
use ixo_blocksync.Claims.{
  Claim, Evaluation, EvaluationKey, ClaimDb, is_there, overwritten, update_claim, id_of,
  insert_evaluation, insert_evaluation_history, set_claim_current_evaluation, set_current,
  update_claim_event, sync_claim_event,
}

abbrev Evaluations : Type 0
Evaluations = Table EvaluationKey (ℕ × Evaluation)

-- Every evaluation that was there is there, as it was.
abbrev pub IsGrown : Evaluations → Evaluations → Type 0
IsGrown old new = (k : EvaluationKey) → (lookup k old ≡ none) ⊎ (lookup k new ≡ lookup k old)

IsGrown-trans : (t u v : Evaluations) → IsGrown t u → IsGrown u v → IsGrown t v
IsGrown-trans t u v tu uv k = join (tu k) (uv k)
  where
    join :
        (lookup k t ≡ none) ⊎ (lookup k u ≡ lookup k t)
        → (lookup k u ≡ none) ⊎ (lookup k v ≡ lookup k u)
        → (lookup k t ≡ none) ⊎ (lookup k v ≡ lookup k t)
    join (inl absent) q = inl absent
    join (inr same) (inl absent) = inl (sym same ∙ absent)
    join (inr same) (inr same') = inr (same' ∙ same)

abbrev inserted : EvaluationKey → Evaluation → ClaimDb → ClaimDb
inserted key e s = record s {
  evaluations = upsert key (s.next_evaluation, e) (λ old. old) s.evaluations;
  next_evaluation = s.next_evaluation + 1;
}

upsert-IsGrown :
    (key : EvaluationKey) (v : ℕ × Evaluation) (t : Evaluations)
    → IsGrown t (upsert key v (λ old. old) t)
upsert-IsGrown key v t k = elim (Bool-cases (key == k)) [
  | inl e ↦ at_key (eq_of_beq key k e)
  | inr e ↦ inr (lookup-upsert key k v (λ old. old) t ∙ rw e)
]
  where
    kept : (o : Option (ℕ × Evaluation)) → (o ≡ none) ⊎ (some (upserted v (λ old. old) o) ≡ o)
    kept none = inl refl
    kept (some old) = inr refl

    through :
        (lookup key t ≡ none) ⊎ (some (upserted v (λ old. old) (lookup key t)) ≡ lookup key t)
        → (lookup key t ≡ none) ⊎ (lookup key (upsert key v (λ old. old) t) ≡ lookup key t)
    through (inl absent) = inl absent
    through (inr same) = inr (lookup-upsert_self key v (λ old. old) t ∙ same)

    at_key : key ≡ k → (lookup k t ≡ none) ⊎ (lookup k (upsert key v (λ old. old) t) ≡ lookup k t)
    at_key e =
        subst (λ j. (lookup j t ≡ none) ⊎ (lookup j (upsert key v (λ old. old) t) ≡ lookup j t)) e
          (through (kept (lookup key t)))

insert_run :
    (key : EvaluationKey) (e : Evaluation) (s : ClaimDb)
    → is_there (lookup key.0 s.claims) ≡ true
    → insert_evaluation key e (running s)
      ≡ (ok (id_of s.next_evaluation (lookup key s.evaluations)), running (inserted key e s))
unfolding insert_evaluation statement
insert_run key e s h = rw h

-- The evaluations are of the claim.
abbrev pub AllOf : String → List (EvaluationKey × Evaluation) → Type 0
AllOf id es = All (λ e. e.0.0 ≡ id) es

-- The new key points to the id that the insert gives.
abbrev pub IsStoredAs : EvaluationKey → ℕ → Evaluations → Type 0
IsStoredAs key n t = (e : Evaluation) × (lookup key t ≡ some (n, e))

inserted-IsStoredAs :
    (key : EvaluationKey) (e : Evaluation) (n : ℕ) (t : Evaluations)
    → IsStoredAs key (id_of n (lookup key t)) (upsert key (n, e) (λ old. old) t)
inserted-IsStoredAs key e n t =
    with_row (lookup key t) (lookup-upsert_self key (n, e) (λ old. old) t)
  where
    with_row :
        (o : Option (ℕ × Evaluation))
        → lookup key (upsert key (n, e) (λ old. old) t) ≡ some (upserted (n, e) (λ old. old) o)
        → IsStoredAs key (id_of n o) (upsert key (n, e) (λ old. old) t)
    with_row none h = (e, h)
    with_row (some (m, d)) h = (d, h)

-- What a history leaves: the same claims, and evaluations that have grown.
history_run :
    (id : String) (es : List (EvaluationKey × Evaluation)) (s : ClaimDb)
    → AllOf id es
    → is_there (lookup id s.claims) ≡ true
    → (s' : ClaimDb) × (insert_evaluation_history es (running s) ≡ (ok tt, running s'))
      × (s'.claims ≡ s.claims)
      × IsGrown s.evaluations s'.evaluations
unfolding insert_evaluation_history pure ◌>>=◌
history_run id [] s h there = (s, refl, refl, λ k. inr refl)
history_run id ((key, e) ∷ es) s (of, h) there =
    let run = insert_run key e s (rw of there) in
    let (s', rest, same, grown) = history_run id es (inserted key e s) h there in
    (
      s',
      rw run rest,
      same,
      IsGrown-trans s.evaluations (inserted key e s).evaluations s'.evaluations
          (upsert-IsGrown key (s.next_evaluation, e) s.evaluations) grown,
    )

-- An update of an indexed claim, with evaluations of this claim and a collection that is there,
-- succeeds: the claim has the columns of the event, no schema type, and points to the stored row of
-- the event's evaluation; and no evaluation that was stored is lost or changed.
pub sync_claim_event-current :
    (id : String) (claim old : Claim) (history : List (EvaluationKey × Evaluation))
    (key : EvaluationKey) (e : Evaluation) (s : ClaimDb)
    → lookup id s.claims ≡ some old
    → is_there (lookup claim.collection_id s.collections) ≡ true
    → AllOf id history
    → key.0 ≡ id
    → (s' : ClaimDb) × (n : ℕ) × (sync_claim_event
          (update_claim_event id claim history (some (key, e)))
          (running s)
        ≡ (ok tt, running s'))
      × (lookup id s'.claims
          ≡ some (record claim { schema_type = none; current_evaluation_id = some n }))
      × IsStoredAs key n s'.evaluations
      × IsGrown s.evaluations s'.evaluations
unfolding sync_claim_event update_claim set_current set_claim_current_evaluation statement query
    pure ◌>>=◌
sync_claim_event-current id claim old history key e s there collection of of_key =
    let row : Claim = overwritten (record claim { schema_type = none }) old in
    let s₁ : ClaimDb = record s {
      claims = update id (overwritten (record claim { schema_type = none })) s.claims;
    } in
    let there₁ : lookup id s₁.claims ≡ some row = lookup-update_self id _ s.claims old there in
    let (s₂, run₂, same, grown) = history_run id history s₁ of (is_there_of there₁) in
    let there₂ : lookup id s₂.claims ≡ some row = ap (lookup id) same ∙ there₁ in
    let n = id_of s₂.next_evaluation (lookup key s₂.evaluations) in
    let run₃ = insert_run key e s₂ (is_there_of (ap (λ k. lookup k s₂.claims) of_key ∙ there₂)) in
    let final : ClaimDb = record (inserted key e s₂) {
      claims = update id (λ r. record r { current_evaluation_id = some n }) s₂.claims;
    } in
    (
      final,
      n,
      rw (there, collection) (rw run₂ (rw run₃)),
      lookup-update_self id (λ r. record r { current_evaluation_id = some n }) s₂.claims row there₂,
      inserted-IsStoredAs key e s₂.next_evaluation s₂.evaluations,
      IsGrown-trans s.evaluations s₂.evaluations final.evaluations grown
          (upsert-IsGrown key (s₂.next_evaluation, e) s₂.evaluations),
    )
  where
    is_there_of : {o : Option Claim} → {c : Claim} → o ≡ some c → is_there o ≡ true
    is_there_of h = rw h
