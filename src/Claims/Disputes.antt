-- ===== src/Claims/Disputes.antt =====
-- The disputes: at most one is open for each subject and role.
use ixo_blocksync.Base.{
  ◌≡◌, refl, sym, ◌⊎◌, inl, inr, ℕ, true, false, String, Option, none, some, List, [], ◌∷◌, ◌++◌,
  ◌==◌, ◌&&◌, ◌||◌, arith, nat_eq, string_eq, Bool-cases, subst,
}
use ixo_blocksync.Pg.{Tx, Exec, pure, query, statement, ◌>>=◌, ◌>>◌}
use ixo_blocksync.Pg.Laws.{Keeps, bind-Keeps}
use ixo_blocksync.Claims.{
  Evaluation, EvaluationKey, Claim, Dispute, DisputeResolution, ClaimDb, is_open_for, has_open,
  create_dispute, latest_open, settle, settled, resolve_dispute, create_claim, update_claim,
  insert_evaluation, insert_evaluation_history, set_claim_current_evaluation, set_current,
  ClaimEvent, submit_claim, update_claim_event, dispute_claim, dispute_resolved, sync_claim_event,
}

-- No open dispute has another one after it for its subject and role.
abbrev pub HasOneOpen : List (ℕ × Dispute) → Type 0
HasOneOpen [] = Unit
HasOneOpen ((_, d) ∷ ds) =
    (((d.status == 0) ≡ false) ⊎ (has_open d.subject_id d.target_role ds ≡ false)) × HasOneOpen ds

abbrev Disputes : Type 0
Disputes = List (ℕ × Dispute)

has_open-append :
    (subject : String) (role : ℕ) (ds : Disputes) (id : ℕ) (e : Dispute)
    → has_open subject role (ds ++ (id, e) ∷ [])
      ≡ (has_open subject role ds || is_open_for subject role e)
unfolding has_open
has_open-append subject role [] id e = ground arith
has_open-append subject role ((i, d) ∷ ds) id e =
    ground (arith, has_open-append subject role ds id e)

append-HasOneOpen :
    (ds : Disputes) (id : ℕ) (e : Dispute)
    → ((e.status == 0) && has_open e.subject_id e.target_role ds) ≡ false
    → HasOneOpen ds
    → HasOneOpen (ds ++ (id, e) ∷ [])
unfolding has_open
append-HasOneOpen [] id e h one = (inr refl, tt)
append-HasOneOpen ((i, d) ∷ ds) id e h (first, one) =
    (apart first, append-HasOneOpen ds id e (rest_closed h) one)
  where
    alone_still :
        (d.status == 0) ≡ true
        → has_open d.subject_id d.target_role ds ≡ false
        → has_open d.subject_id d.target_role (ds ++ (id, e) ∷ []) ≡ false
    alone_still o alone = ground (
      arith,
      has_open-append d.subject_id d.target_role ds id e,
      string_eq.beq_iff e.subject_id d.subject_id,
      string_eq.beq_iff d.subject_id e.subject_id,
      nat_eq.beq_iff e.target_role d.target_role,
      nat_eq.beq_iff d.target_role e.target_role,
      h,
      o,
      alone,
    )

    apart :
        ((d.status == 0) ≡ false) ⊎ (has_open d.subject_id d.target_role ds ≡ false)
        → ((d.status == 0) ≡ false)
          ⊎ (has_open d.subject_id d.target_role (ds ++ (id, e) ∷ []) ≡ false)
    apart (inl closed) = inl closed
    apart (inr alone) = elim (Bool-cases (d.status == 0)) [
      | inl o ↦ inr (alone_still o alone)
      | inr closed ↦ inl closed
    ]

    rest_closed :
        ((e.status == 0) && has_open e.subject_id e.target_role ((i, d) ∷ ds)) ≡ false
        → ((e.status == 0) && has_open e.subject_id e.target_role ds) ≡ false
    rest_closed h = ground (arith, h)

pub has_open-settle :
    (subject : String) (role id status : ℕ) (payload : String) (ds : Disputes)
    → (status == 0) ≡ false
    → has_open subject role ds ≡ false
    → has_open subject role (settle id status payload ds) ≡ false
unfolding has_open settle
has_open-settle subject role id status payload [] h none_open = refl
has_open-settle subject role id status payload ((i, d) ∷ ds) h none_open =
    ground (arith, has_open-settle subject role id status payload ds h, h, none_open)

settle-HasOneOpen :
    (id status : ℕ) (payload : String) (ds : Disputes)
    → (status == 0) ≡ false
    → HasOneOpen ds
    → HasOneOpen (settle id status payload ds)
unfolding settle
settle-HasOneOpen id status payload [] h one = tt
settle-HasOneOpen id status payload ((i, d) ∷ ds) h (first, one) = (
  elim (Bool-cases (i == id)) [ inl e ↦ rw e (inl h) | inr e ↦ rw e (still first) ],
  settle-HasOneOpen id status payload ds h one,
)
  where
    still :
        ((d.status == 0) ≡ false) ⊎ (has_open d.subject_id d.target_role ds ≡ false)
        → ((d.status == 0) ≡ false)
          ⊎ (has_open d.subject_id d.target_role (settle id status payload ds) ≡ false)
    still (inl closed) = inl closed
    still (inr alone) =
        inr (has_open-settle d.subject_id d.target_role id status payload ds h alone)

-- An action that leaves the disputes as they are.
abbrev pub KeepsDisputes : {A : Type 0} → Exec ClaimDb A → Type 0
KeepsDisputes m = Keeps (λ s. s.disputes) m

bind-KeepsDisputes :
    {A B : Type 0} (m : Exec ClaimDb A) (f : A → Exec ClaimDb B)
    → KeepsDisputes m
    → ((a : A) → KeepsDisputes (f a))
    → KeepsDisputes (m >>= f)
bind-KeepsDisputes m f keeps then_keeps = bind-Keeps (λ s. s.disputes) m f keeps then_keeps

pure-KeepsDisputes : {A : Type 0} (a : A) → KeepsDisputes (pure a)
unfolding pure
pure-KeepsDisputes a tx = refl

create_claim-KeepsDisputes : (id : String) (c : Claim) → KeepsDisputes (create_claim id c)
unfolding create_claim statement
create_claim-KeepsDisputes id c tx = ground arith

update_claim-KeepsDisputes : (id : String) (c : Claim) → KeepsDisputes (update_claim id c)
unfolding update_claim statement
update_claim-KeepsDisputes id c tx = ground arith

insert_evaluation-KeepsDisputes :
    (k : EvaluationKey) (e : Evaluation) → KeepsDisputes (insert_evaluation k e)
unfolding insert_evaluation statement
insert_evaluation-KeepsDisputes k e tx = ground arith

set_claim_current_evaluation-KeepsDisputes :
    (id : String) (n : ℕ) → KeepsDisputes (set_claim_current_evaluation id n)
unfolding set_claim_current_evaluation query
set_claim_current_evaluation-KeepsDisputes id n tx = ground arith

insert_evaluation_history-KeepsDisputes :
    (es : List (EvaluationKey × Evaluation)) → KeepsDisputes (insert_evaluation_history es)
unfolding insert_evaluation_history
insert_evaluation_history-KeepsDisputes [] = pure-KeepsDisputes tt
insert_evaluation_history-KeepsDisputes ((k, e) ∷ es) =
    bind-KeepsDisputes (insert_evaluation k e) _ (insert_evaluation-KeepsDisputes k e)
      (λ _. insert_evaluation_history-KeepsDisputes es)

set_current-KeepsDisputes :
    (id : String) (e : Option (EvaluationKey × Evaluation)) → KeepsDisputes (set_current id e)
unfolding set_current
set_current-KeepsDisputes id none = pure-KeepsDisputes tt
set_current-KeepsDisputes id (some (k, e)) =
    bind-KeepsDisputes (insert_evaluation k e) _ (insert_evaluation-KeepsDisputes k e)
      (λ n. set_claim_current_evaluation-KeepsDisputes id n)

create_dispute-HasOneOpen :
    (d : Dispute) (tx : Tx ClaimDb)
    → HasOneOpen tx.db.disputes
    → HasOneOpen (create_dispute d tx).1.db.disputes
unfolding create_dispute query
create_dispute-HasOneOpen d tx one = elim (Bool-cases tx.failed) [
  | inl f ↦ rw f one
  | inr f ↦
      rw f
        (elim (Bool-cases ((d.status == 0) && has_open d.subject_id d.target_role tx.db.disputes)) [
          | inl e ↦ rw e one
          | inr e ↦ rw e (append-HasOneOpen tx.db.disputes tx.db.next_dispute d e one)
        ])
]

settled-HasOneOpen :
    (status : ℕ) (payload : String) (r : DisputeResolution) (o : Option (ℕ × Dispute)) (s : ClaimDb)
    → (status == 0) ≡ false
    → HasOneOpen s.disputes
    → HasOneOpen (settled status payload r o s).disputes
settled-HasOneOpen status payload r none s h one = one
settled-HasOneOpen status payload r (some (id, d)) s h one =
    settle-HasOneOpen id status payload s.disputes h one

-- A resolved event of the chain has a status that is not OPEN.
abbrev pub IsResolving : ClaimEvent → Type 0
IsResolving (dispute_resolved subject role status payload resolution) = (status == 0) ≡ false
IsResolving _ = Unit

-- No claim event, in any state of the transaction and whatever comes of it, lets a second dispute be
-- open for a subject and a role that have one, where the resolved events resolve.
pub sync_claim_event-HasOneOpen :
    (ev : ClaimEvent) (tx : Tx ClaimDb)
    → IsResolving ev
    → HasOneOpen tx.db.disputes
    → HasOneOpen (sync_claim_event ev tx).1.db.disputes
unfolding sync_claim_event resolve_dispute query pure
sync_claim_event-HasOneOpen (submit_claim id c history) tx h one =
    subst HasOneOpen
      (sym (
        bind-KeepsDisputes (create_claim id _) _ (create_claim-KeepsDisputes id _)
          (λ _. insert_evaluation_history-KeepsDisputes history) tx))
      one
sync_claim_event-HasOneOpen (update_claim_event id c history e) tx h one =
    subst HasOneOpen
      (sym (
        bind-KeepsDisputes (update_claim id _ >> insert_evaluation_history history) _
          (bind-KeepsDisputes (update_claim id _) _ (update_claim-KeepsDisputes id _)
            (λ _. insert_evaluation_history-KeepsDisputes history))
          (λ _. set_current-KeepsDisputes id e) tx))
      one
sync_claim_event-HasOneOpen (dispute_claim d) tx h one = create_dispute-HasOneOpen d tx one
sync_claim_event-HasOneOpen (dispute_resolved subject role status payload none) tx h one = one
sync_claim_event-HasOneOpen (dispute_resolved subject role status payload (some r)) tx h one =
    resolved tx one
  where
    resolved :
        (tx : Tx ClaimDb)
        → HasOneOpen tx.db.disputes
        → HasOneOpen (resolve_dispute subject role status payload r tx).1.db.disputes
    resolved tx one = elim (Bool-cases tx.failed) [
      | inl f ↦ rw f one
      | inr f ↦ rw f (
          settled-HasOneOpen status payload r (latest_open subject role tx.db.disputes) tx.db h one)
    ]
