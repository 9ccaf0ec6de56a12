-- ===== src/Claims.antt =====
-- postgres/claim.ts and the claim cases of sync_handlers/event_data_sync.ts: claims, the history of
-- their evaluations, disputes and resolutions. The events come with their documents parsed and the
-- payloads as the texts of `JSON.stringify`.
pub mod Collection
pub mod Collections
pub mod Disputes
pub mod Evaluations
pub mod Resolutions
use ixo_blocksync.Base.{
  ℕ, zero, suc, ◌+◌, Bool, true, false, String, Option, none, some, List, [], ◌∷◌, ◌++◌, ◌==◌, ◌&&◌,
  ◌||◌, not, nat_eq, string_eq, pair_eq, ltb, if◌then◌else◌,
}
use ixo_blocksync.Base.Table.{Table, lookup, upsert, update}
use ixo_blocksync.Claims.Collection.{ClaimCollection}
use ixo_blocksync.Pg.{Exec, Action, pure, query, statement, ◌>>=◌, ◌>>◌}

-- a row of "Claim" beside its id
pub record Claim : Type 0 where
  pub agent_did : String
  pub agent_address : String
  pub submission_date : ℕ
  pub payments_status : String
  pub schema_type : Option String
  pub collection_id : String
  pub use_intent : Option Bool
  pub amount : Option String
  pub cw20_payment : Option String
  pub cw1155_payment : Option String
  pub cw1155_intent_payment : Option String
  pub member_address : Option String
  pub current_evaluation_id : Option ℕ

-- `Evaluation` but for its key (claim, agent, date)
pub record Evaluation : Type 0 where
  pub collection_id : String
  pub oracle : String
  pub agent_did : String
  pub status : ℕ
  pub reason : ℕ
  pub verification_proof : Option String
  pub amount : String
  pub cw20_payment : Option String
  pub cw1155_payment : Option String
  pub cw1155_intent_payment : Option String

abbrev pub EvaluationKey : Type 0
EvaluationKey = String × (String × ℕ)

pub record Dispute : Type 0 where
  pub proof : Option String
  pub subject_id : String
  pub type : ℕ
  pub payload : String
  pub target_role : ℕ
  pub disputer_address : String
  pub disputer_did : String
  pub dispute_deposit : Option String
  pub submitted_at : ℕ
  pub status : ℕ

pub record DisputeResolution : Type 0 where
  pub adjudicator_did : String
  pub adjudicator_address : String
  pub adjudicator_payout_address : String
  pub resolved_at : ℕ
  pub payload : Option String
  pub intended_penalty : String
  pub actual_penalty_paid : String
  pub winner_amount : String
  pub adjudicator_amount : String
  pub winner_address : String
  pub loser_address : String

-- The tables, and the next values of the two BIGSERIAL columns, which an INSERT takes from its
-- sequence even where it ends in a conflict.
pub record ClaimDb : Type 0 where
  pub collections : Table String ClaimCollection
  pub claims : Table String Claim
  pub evaluations : Table EvaluationKey (ℕ × Evaluation)
  pub next_evaluation : ℕ
  pub disputes : List (ℕ × Dispute)
  pub next_dispute : ℕ
  pub resolutions : Table ℕ DisputeResolution

abbrev pub is_there {ℓ} : {A : Type ℓ} → Option A → Bool
is_there none = false
is_there (some a) = true

-- `createClaim`, refused where the id is taken or the collection has no row
unfoldable pub create_claim : String → Claim → Action ClaimDb
create_claim id claim = statement (λ s.
    if not (is_there (lookup id s.claims)) && is_there (lookup claim.collection_id s.collections)
    then some (tt, record s { claims = upsert id claim (λ old. old) s.claims })
    else none)

-- the columns that `updateClaimSql` sets: all but the current evaluation
abbrev pub overwritten : Claim → Claim → Claim
overwritten new old = record new { current_evaluation_id = old.current_evaluation_id }

-- `updateClaim`
unfoldable pub update_claim : String → Claim → Action ClaimDb
update_claim id claim = statement (λ s.
    if not (is_there (lookup id s.claims)) || is_there (lookup claim.collection_id s.collections)
    then some (tt, record s { claims = update id (overwritten claim) s.claims })
    else none)

abbrev pub id_of : ℕ → Option (ℕ × Evaluation) → ℕ
id_of next none = next
id_of next (some (id, _)) = id

-- `insertEvaluation`: the id of the new row, or of the one that is there
unfoldable pub insert_evaluation : EvaluationKey → Evaluation → Exec ClaimDb ℕ
insert_evaluation key e = statement (λ s.
    if is_there (lookup key.0 s.claims)
    then some (
      id_of s.next_evaluation (lookup key s.evaluations),
      record s {
        evaluations = upsert key (s.next_evaluation, e) (λ old. old) s.evaluations;
        next_evaluation = s.next_evaluation + 1;
      },
    )
    else none)

-- `insertEvaluationHistory`
unfoldable pub insert_evaluation_history : List (EvaluationKey × Evaluation) → Action ClaimDb
unfolding insert_evaluation pure ◌>>=◌
insert_evaluation_history [] = pure tt
insert_evaluation_history ((key, e) ∷ es) =
    insert_evaluation key e >>= λ _. insert_evaluation_history es

-- `setClaimCurrentEvaluation`; its foreign key is deferred, and the row was inserted just before
unfoldable pub set_claim_current_evaluation : String → ℕ → Action ClaimDb
set_claim_current_evaluation id evaluation = query (λ s. (
  tt,
  record s {
    claims = update id (λ row. record row { current_evaluation_id = some evaluation }) s.claims;
  },
))

-- OPEN, and for this subject and role
abbrev pub is_open_for : String → ℕ → Dispute → Bool
is_open_for subject role d = d.status == 0 && (d.subject_id == subject && d.target_role == role)

unfoldable pub has_open : String → ℕ → List (ℕ × Dispute) → Bool
has_open subject role [] = false
has_open subject role ((_, d) ∷ ds) =
    let rest = has_open subject role ds in if is_open_for subject role d then true else rest

-- `createDispute`, over the unique index of the open disputes
unfoldable pub create_dispute : Dispute → Action ClaimDb
unfolding has_open
create_dispute d = query (λ s. (
  tt,
  if d.status == 0 && has_open d.subject_id d.target_role s.disputes
      then record s { next_dispute = s.next_dispute + 1 }
      else record s {
        disputes = s.disputes ++ (s.next_dispute, d) ∷ [];
        next_dispute = s.next_dispute + 1;
      },
))

abbrev pub later_of : ℕ × Dispute → Option (ℕ × Dispute) → ℕ × Dispute
later_of d none = d
later_of d (some e) = if ltb d.1.submitted_at e.1.submitted_at then e else d

-- the SELECT of `resolveDisputeSql`
unfoldable pub latest_open : String → ℕ → List (ℕ × Dispute) → Option (ℕ × Dispute)
latest_open subject role [] = none
latest_open subject role (d ∷ ds) =
    let rest = latest_open subject role ds in
    if is_open_for subject role d.1 then some (later_of d rest) else rest

-- its UPDATE
unfoldable pub settle : ℕ → ℕ → String → List (ℕ × Dispute) → List (ℕ × Dispute)
settle id status payload [] = []
settle id status payload ((i, d) ∷ ds) =
    (i, if i == id then record d { status = status; payload = payload } else d)
    ∷ settle id status payload ds

abbrev pub settled : ℕ → String → DisputeResolution → Option (ℕ × Dispute) → ClaimDb → ClaimDb
settled status payload resolution none s = s
settled status payload resolution (some (id, d)) s = record s {
  disputes = settle id status payload s.disputes;
  resolutions = upsert id resolution (λ old. old) s.resolutions;
}

-- `resolveDispute`
unfoldable pub resolve_dispute : String → ℕ → ℕ → String → DisputeResolution → Action ClaimDb
unfolding latest_open
resolve_dispute subject role status payload resolution =
    query (λ s. (tt, settled status payload resolution (latest_open subject role s.disputes) s))

-- the UPDATE of `dismissLegacyDisputes`, and its count
unfoldable pub dismiss : List (ℕ × Dispute) → List (ℕ × Dispute)
dismiss [] = []
dismiss ((i, d) ∷ ds) =
    (i, if d.status == 0 && d.target_role == 0 then record d { status = 2 } else d) ∷ dismiss ds

unfoldable pub legacy_count : List (ℕ × Dispute) → ℕ
legacy_count [] = 0
legacy_count ((i, d) ∷ ds) =
    let rest = legacy_count ds in if d.status == 0 && d.target_role == 0 then 1 + rest else rest

unfoldable pub dismiss_legacy_disputes : Exec ClaimDb ℕ
unfolding dismiss legacy_count
dismiss_legacy_disputes =
    query (λ s. (legacy_count s.disputes, record s { disputes = dismiss s.disputes }))

-- The claim events: a claim with the history of its evaluations, an update that may have a current
-- evaluation, a dispute, and a resolved dispute, without the resolution where the event has none.
pub data ClaimEvent : Type 0 where
  submit_claim : String → Claim → List (EvaluationKey × Evaluation) → ClaimEvent
  update_claim_event :
      String
      → Claim
      → List (EvaluationKey × Evaluation)
      → Option (EvaluationKey × Evaluation)
      → ClaimEvent
  dispute_claim : Dispute → ClaimEvent
  dispute_resolved : String → ℕ → ℕ → String → Option DisputeResolution → ClaimEvent

-- `if (uClaim.evaluation)`
unfoldable pub set_current : String → Option (EvaluationKey × Evaluation) → Action ClaimDb
unfolding pure ◌>>=◌
set_current id none = pure tt
set_current id (some (key, e)) =
    insert_evaluation key e >>= λ evaluation. set_claim_current_evaluation id evaluation

-- The claim cases of `syncEventData`, which leave the schema type undefined, without the refresh of
-- a consumed grant after a submitted claim.
unfoldable pub sync_claim_event : ClaimEvent → Action ClaimDb
unfolding pure ◌>>=◌
sync_claim_event (submit_claim id claim history) =
    create_claim id (record claim { schema_type = none }) >> insert_evaluation_history history
sync_claim_event (update_claim_event id claim history evaluation) =
    update_claim id (record claim { schema_type = none })
    >> insert_evaluation_history history
    >> set_current id evaluation
sync_claim_event (dispute_claim d) = create_dispute d
sync_claim_event (dispute_resolved subject role status payload none) = pure tt
sync_claim_event (dispute_resolved subject role status payload (some resolution)) =
    resolve_dispute subject role status payload resolution
