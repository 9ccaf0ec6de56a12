-- ===== src/Tests/Claims.antt =====
-- The claims and disputes at concrete data.
use ixo_blocksync.Base.{
  ◌≡◌, refl, ℕ, false, none, some, List, [], ◌∷◌, nat_eq, string_eq, pair_eq, inr,
}
use ixo_blocksync.Base.Table.{lookup, upserted}
use ixo_blocksync.Pg.{ok, running}
use ixo_blocksync.Claims.{
  Claim, Evaluation, EvaluationKey, Dispute, DisputeResolution, ClaimDb, has_open, latest_open,
  resolve_dispute, update_claim_event, dispute_claim, sync_claim_event,
}
use ixo_blocksync.Claims.Collection.{ClaimCollection, count}
use ixo_blocksync.Claims.Disputes.{HasOneOpen, sync_claim_event-HasOneOpen}
use ixo_blocksync.Claims.Evaluations.{IsStoredAs, IsGrown, sync_claim_event-current}
use ixo_blocksync.Claims.Resolutions.{resolve_dispute-closes}

abbrev claim : Claim
claim = record {
  agent_did = "did";
  agent_address = "agent";
  submission_date = 1;
  payments_status = "{}";
  schema_type = some "old";
  collection_id = "1";
  use_intent = none;
  amount = none;
  cw20_payment = none;
  cw1155_payment = none;
  cw1155_intent_payment = none;
  member_address = none;
  current_evaluation_id = none;
}

abbrev evaluation : Evaluation
evaluation = record {
  collection_id = "1";
  oracle = "oracle";
  agent_did = "did";
  status = 1;
  reason = 0;
  verification_proof = none;
  amount = "[]";
  cw20_payment = none;
  cw1155_payment = none;
  cw1155_intent_payment = none;
}

abbrev pub dispute : Dispute
dispute = record {
  proof = none;
  subject_id = "c";
  type = 0;
  payload = "{}";
  target_role = 1;
  disputer_address = "ann";
  disputer_did = "did";
  dispute_deposit = none;
  submitted_at = 4;
  status = 0;
}

abbrev resolution : DisputeResolution
resolution = record {
  adjudicator_did = "did";
  adjudicator_address = "judge";
  adjudicator_payout_address = "judge";
  resolved_at = 5;
  payload = none;
  intended_penalty = "[]";
  actual_penalty_paid = "[]";
  winner_amount = "[]";
  adjudicator_amount = "[]";
  winner_address = "ann";
  loser_address = "ben";
}

abbrev collection : ClaimCollection
collection = record {
  entity = "e";
  admin = "admin";
  protocol = "p";
  start_date = none;
  end_date = none;
  quota = 0;
  count = 1;
  evaluated = 0;
  approved = 0;
  rejected = 0;
  disputed = 0;
  invalidated = 0;
  state = 0;
  payments = "{}";
  escrow_account = none;
  intents = none;
  flagged = 0;
  flagged_active = 0;
  service_agent_deposit_required = "[]";
  evaluator_deposit_required = "[]";
  dispute_deposit_amount = "[]";
  penalty_amount_per_dispute = "[]";
  disputes_open = 0;
  disputes_awarded = 0;
  disputes_dismissed = 0;
  min_deposit_period_ns = count 0;
  adjudicators = "[]";
}

abbrev pub claim_db : ClaimDb
claim_db = record {
  collections = ("1", collection) ∷ [];
  claims = ("c", claim) ∷ [];
  evaluations = (("c", ("agent", 2)), (1, evaluation)) ∷ [];
  next_evaluation = 2;
  disputes = (1, dispute) ∷ [];
  next_dispute = 2;
  resolutions = [];
}

one_open : HasOneOpen claim_db.disputes
unfolding has_open
one_open = (inr refl, tt)

sync_claim_event-HasOneOpen_example :
    HasOneOpen (sync_claim_event (dispute_claim dispute) (running claim_db)).1.db.disputes
sync_claim_event-HasOneOpen_example =
    sync_claim_event-HasOneOpen (dispute_claim dispute) (running claim_db) tt one_open

resolve_dispute-closes_example :
    (s' : ClaimDb) × (resolve_dispute "c" 1 1 "{}" resolution (running claim_db)
      ≡ (ok tt, running s'))
    × (has_open "c" 1 s'.disputes ≡ false)
    × (lookup 1 s'.resolutions
        ≡ some (upserted resolution (λ old. old) (lookup 1 claim_db.resolutions)))
    × (resolve_dispute "c" 1 1 "{}" resolution (running s') ≡ (ok tt, running s'))
unfolding latest_open
resolve_dispute-closes_example =
    resolve_dispute-closes "c" 1 1 1 "{}" resolution dispute claim_db refl one_open refl

abbrev history : List (EvaluationKey × Evaluation)
history = (("c", ("agent", 2)), evaluation) ∷ []

sync_claim_event-current_example :
    (s' : ClaimDb) × (n : ℕ) × (sync_claim_event
        (update_claim_event "c" claim history (some (("c", ("agent", 3)), evaluation)))
        (running claim_db)
      ≡ (ok tt, running s'))
    × (lookup "c" s'.claims
        ≡ some (record claim { schema_type = none; current_evaluation_id = some n }))
    × IsStoredAs ("c", ("agent", 3)) n s'.evaluations
    × IsGrown claim_db.evaluations s'.evaluations
unfolding lookup
sync_claim_event-current_example =
    sync_claim_event-current "c" claim claim history ("c", ("agent", 3)) evaluation claim_db refl
      refl (refl, tt) refl
