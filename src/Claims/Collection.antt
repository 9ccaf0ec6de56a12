-- ===== src/Claims/Collection.antt =====
-- The collections of claims: the row of "ClaimCollection" (postgres/claim.ts), and `collectionFromSdk`,
-- `durationToNanos` and the enum helpers of sync_handlers/event_data_sync.ts. A document comes parsed,
-- with its numerals read and its JSON columns as texts.
use ixo_blocksync.Base.{ℕ, ◌+◌, ◌*◌, String, Option, none, some}

-- the text of a BIGINT: digits, or what came as it is
pub data Nanos : Type 0 where
  count : ℕ → Nanos
  as_it_is : String → Nanos

-- a Duration: missing, a text, or its seconds and nanoseconds
pub data Duration : Type 0 where
  no_duration : Duration
  text_duration : String → Duration
  parts : Option ℕ → Option ℕ → Duration

-- an enum of a document: its number, or its name or anything else
pub data EnumValue : Type 0 where
  enum_number : ℕ → EnumValue
  enum_other : String → EnumValue

pub record ClaimCollection : Type 0 where
  pub entity : String
  pub admin : String
  pub protocol : String
  pub start_date : Option ℕ
  pub end_date : Option ℕ
  pub quota : ℕ
  pub count : ℕ
  pub evaluated : ℕ
  pub approved : ℕ
  pub rejected : ℕ
  pub disputed : ℕ
  pub invalidated : ℕ
  pub state : ℕ
  pub payments : String
  pub escrow_account : Option String
  pub intents : Option ℕ
  pub flagged : ℕ
  pub flagged_active : ℕ
  pub service_agent_deposit_required : String
  pub evaluator_deposit_required : String
  pub dispute_deposit_amount : String
  pub penalty_amount_per_dispute : String
  pub disputes_open : ℕ
  pub disputes_awarded : ℕ
  pub disputes_dismissed : ℕ
  pub min_deposit_period_ns : Nanos
  pub adjudicators : String

-- `CollectionSDKType`
pub record CollectionDoc : Type 0 where
  pub id : String
  pub entity : String
  pub admin : String
  pub protocol : String
  pub start_date : Option ℕ
  pub end_date : Option ℕ
  pub quota : ℕ
  pub count : ℕ
  pub evaluated : ℕ
  pub approved : ℕ
  pub rejected : ℕ
  pub disputed : ℕ
  pub invalidated : Option ℕ
  pub state : EnumValue
  pub payments : String
  pub escrow_account : Option String
  pub intents : Option EnumValue
  pub flagged : Option ℕ
  pub flagged_active : Option ℕ
  pub service_agent_deposit_required : Option String
  pub evaluator_deposit_required : Option String
  pub dispute_deposit_amount : Option String
  pub penalty_amount_per_dispute : Option String
  pub disputes_open : Option ℕ
  pub disputes_awarded : Option ℕ
  pub disputes_dismissed : Option ℕ
  pub min_deposit_period : Duration
  pub adjudicators : Option String

-- `value ?? other`
abbrev pub default {ℓ} : {A : Type ℓ} → A → Option A → A
default a none = a
default a (some b) = b

-- `as_seconds` is the match with the form "30s" and its reading: whole seconds, and the rounded rest in
-- nanoseconds.
module _ (as_seconds : String → Option (ℕ × ℕ)) where
  unfoldable pub duration_to_nanos : Duration → Nanos
  duration_to_nanos no_duration = count 0
  duration_to_nanos (text_duration text) = elim (as_seconds text) [
    | some (seconds, nanos) ↦ count (seconds * 1000000000 + nanos)
    | none ↦ as_it_is text
  ]
  duration_to_nanos (parts seconds nanos) = count (default 0 seconds * 1000000000 + default 0 nanos)

  -- `state_of` and `intents_of` are the tables of the generated code, `none` where they throw.
  module _ (state_of intents_of : String → Option ℕ) where
    unfoldable pub safe_collection_state : EnumValue → ℕ
    safe_collection_state (enum_number n) = n
    safe_collection_state (enum_other name) = default 0 (state_of name)

    unfoldable pub safe_collection_intents : Option EnumValue → Option ℕ
    safe_collection_intents none = none
    safe_collection_intents (some (enum_number n)) = some n
    safe_collection_intents (some (enum_other name)) = intents_of name

    -- `collectionFromSdk`: the id, and the row
    unfoldable pub collection_from_sdk : CollectionDoc → String × ClaimCollection
    unfolding duration_to_nanos safe_collection_state safe_collection_intents
    collection_from_sdk c = (
      c.id,
      record {
        entity = c.entity;
        admin = c.admin;
        protocol = c.protocol;
        start_date = c.start_date;
        end_date = c.end_date;
        quota = c.quota;
        count = c.count;
        evaluated = c.evaluated;
        approved = c.approved;
        rejected = c.rejected;
        disputed = c.disputed;
        invalidated = default 0 c.invalidated;
        state = safe_collection_state c.state;
        payments = c.payments;
        escrow_account = c.escrow_account;
        intents = safe_collection_intents c.intents;
        flagged = default 0 c.flagged;
        flagged_active = default 0 c.flagged_active;
        service_agent_deposit_required = default "[]" c.service_agent_deposit_required;
        evaluator_deposit_required = default "[]" c.evaluator_deposit_required;
        dispute_deposit_amount = default "[]" c.dispute_deposit_amount;
        penalty_amount_per_dispute = default "[]" c.penalty_amount_per_dispute;
        disputes_open = default 0 c.disputes_open;
        disputes_awarded = default 0 c.disputes_awarded;
        disputes_dismissed = default 0 c.disputes_dismissed;
        min_deposit_period_ns = duration_to_nanos c.min_deposit_period;
        adjudicators = default "[]" c.adjudicators;
      },
    )
