-- ===== src/Epochs.antt =====
-- postgres/epoch.ts and the epoch cases of sync_handlers/event_data_sync.ts. The module variable
-- `initiatedEpochs` belongs to the process and no rollback restores it, so it stands beside the
-- transaction. The numerals of the archive node's answer come read. The SERIAL id of an event, which
-- nothing reads, is left out.
pub mod Runs
use ixo_blocksync.Base.{
  ℕ, ◌+◌, Bool, true, false, String, Option, none, some, List, [], ◌∷◌, ◌++◌, map, ◌==◌, ◌&&◌,
  nat_eq, string_eq, if◌then◌else◌,
}
use ixo_blocksync.Base.Table.{Table, lookup, upsert}
use ixo_blocksync.Pg.{Error, Result, ok, err, Tx, Action, thrown, query, statement, promise_all}

-- a row of epoch beside its identifier
pub record Epoch : Type 0 where
  pub start_time : ℕ
  pub duration : String
  pub current_epoch : ℕ
  pub current_epoch_start_time : ℕ
  pub epoch_counting_started : Bool
  pub current_epoch_start_height : ℕ

-- a row of epoch_event
pub record EpochEvent : Type 0 where
  pub epoch_number : ℕ
  pub epoch_identifier : String
  pub start_height : ℕ
  pub start_time : ℕ
  pub end_height : Option ℕ
  pub end_time : Option ℕ

pub record EpochDb : Type 0 where
  pub epochs : Table String Epoch
  pub events : List EpochEvent

pub record EpochStartedEvent : Type 0 where
  pub epoch_number : ℕ
  pub time : ℕ
  pub height : ℕ
  pub is_started : Bool

-- `epochsQuery` at a height: the field `epochs` of the answer, or what the call throws
abbrev pub EpochsQuery : Type 0
EpochsQuery = ℕ → Result (Option (List (String × Epoch)))

-- `insertOrUpdateEpoch`
unfoldable pub insert_or_update_epoch : String × Epoch → Action EpochDb
insert_or_update_epoch (identifier, row) =
    query (λ s. (tt, record s { epochs = upsert identifier row (λ _. row) s.epochs }))

abbrev pub is_known : Option Epoch → Bool
is_known none = false
is_known (some row) = true

-- the new row of `createEpochEvent`
abbrev pub started : EpochStartedEvent → String → EpochEvent
started p identifier = record {
  epoch_number = p.epoch_number;
  epoch_identifier = identifier;
  start_height = p.height;
  start_time = p.time;
  end_height = none;
  end_time = none;
}

-- `createEpochEvent`: the identifier is NOT NULL, and a key of epoch
unfoldable pub create_epoch_event : EpochStartedEvent → Option String → Action EpochDb
create_epoch_event p none = statement (λ s. none)
create_epoch_event p (some identifier) = statement (λ s.
    if is_known (lookup identifier s.epochs)
    then some (tt, record s { events = s.events ++ started p identifier ∷ [] })
    else none)

abbrev pub is_of : ℕ → String → EpochEvent → Bool
is_of number identifier e = e.epoch_number == number && e.epoch_identifier == identifier

abbrev pub ended : EpochStartedEvent → EpochEvent → EpochEvent
ended p e = record e { end_height = some p.height; end_time = some p.time }

unfoldable pub end_events : EpochStartedEvent → String → List EpochEvent → List EpochEvent
end_events p identifier [] = []
end_events p identifier (e ∷ es) =
    (if is_of p.epoch_number identifier e then ended p e else e) ∷ end_events p identifier es

-- `epochEnded`
unfoldable pub epoch_ended : EpochStartedEvent → String → Action EpochDb
epoch_ended p identifier = query (λ s. (tt, record s { events = end_events p identifier s.events }))

-- `epochs.epochs.find((epoch) => epoch.current_epoch == number)?.identifier`
unfoldable pub find_identifier : ℕ → List (String × Epoch) → Option String
find_identifier number [] = none
find_identifier number ((identifier, row) ∷ es) =
    let rest = find_identifier number es in
    if row.current_epoch == number then some identifier else rest

-- the `switch` on `initiatedEpochs`, beside the identifier found: the identifier of the event, and
-- the variable afterwards
abbrev pub initiate : String → Option String → Option String × String
initiate initiated found =
    if initiated == "none"
    then (some "day", "day")
    else if initiated == "day"
    then (some "hour", "hour")
    else if initiated == "hour"
    then (some "week", "week")
    else (found, initiated)

abbrev pub choose_identifier : ℕ → String → List (String × Epoch) → Option String × String
choose_identifier number initiated es =
    if number == 1
    then initiate initiated (find_identifier number es)
    else (find_identifier number es, initiated)

-- What an event comes to: its result, the variable and the transaction.
abbrev pub Outcome : Type 0
Outcome = Result (Unit {0}) × (String × Tx EpochDb)

abbrev beside : String → Result (Unit {0}) × Tx EpochDb → Outcome
beside initiated (r, tx) = (r, (initiated, tx))

abbrev record_start :
    EpochStartedEvent → List (String × Epoch) → String → Result (Unit {0}) × Tx EpochDb → Outcome
record_start p es initiated (err e, tx) = (err e, (initiated, tx))
record_start p es initiated (ok _, tx) =
    let (identifier, next) = choose_identifier p.epoch_number initiated es in
    beside next (create_epoch_event p identifier tx)

abbrev record_end : EpochStartedEvent → Option String → String → Tx EpochDb → Outcome
record_end p none initiated tx = (
  err (thrown "The Matrix is really real!! How can you end an epoch if there are no epochs??"),
  (initiated, tx),
)
record_end p (some identifier) initiated tx =
    if identifier == ""
    then (
      err (thrown "The Matrix is really real!! How can you end an epoch if there are no epochs??"),
      (initiated, tx),
    )
    else beside initiated (epoch_ended p identifier tx)

abbrev with_epochs :
    EpochStartedEvent → Result (Option (List (String × Epoch))) → String → Tx EpochDb → Outcome
with_epochs p (err e) initiated tx = (err e, (initiated, tx))
with_epochs p (ok none) initiated tx = (
  err (thrown "The Matrix is real!! How can you start an epoch if there are no epochs??"),
  (initiated, tx),
)
with_epochs p (ok (some [])) initiated tx = (
  err (thrown "The Matrix is real!! How can you start an epoch if there are no epochs??"),
  (initiated, tx),
)
with_epochs p (ok (some (e ∷ es))) initiated tx =
    if p.is_started
    then record_start p (e ∷ es) initiated (promise_all (map insert_or_update_epoch (e ∷ es)) tx)
    else record_end p (find_identifier (p.epoch_number + 1) (e ∷ es)) initiated tx

-- `epochStartedOrEnded`
unfoldable pub epoch_started_or_ended :
    EpochsQuery → EpochStartedEvent → String → Tx EpochDb → Outcome
unfolding create_epoch_event epoch_ended find_identifier insert_or_update_epoch promise_all
epoch_started_or_ended epochs_query p initiated tx =
    with_epochs p (epochs_query p.height) initiated tx

-- EpochStartEvent with its number and start time, and EpochEndEvent with its number
pub data EpochCase : Type 0 where
  epoch_start : ℕ → ℕ → EpochCase
  epoch_end : ℕ → EpochCase

-- The epoch cases of `syncEventData`, in a block of this height and time.
unfoldable pub sync_epoch_event : EpochsQuery → ℕ → ℕ → EpochCase → String → Tx EpochDb → Outcome
unfolding epoch_started_or_ended
sync_epoch_event epochs_query height block_time (epoch_start number time) =
    epoch_started_or_ended epochs_query
      (record { epoch_number = number; time = time; height = height; is_started = true })
sync_epoch_event epochs_query height block_time (epoch_end number) =
    epoch_started_or_ended epochs_query
      (record { epoch_number = number; time = block_time; height = height; is_started = false })

abbrev go_on : (String → Tx EpochDb → Outcome) → Outcome → Outcome
go_on rest (err e, (next, tx)) = (err e, (next, tx))
go_on rest (ok _, (next, tx)) = rest next tx

-- The epoch events of one block, in their order, up to the first that throws.
unfoldable pub sync_epoch_events :
    EpochsQuery → ℕ → ℕ → List EpochCase → String → Tx EpochDb → Outcome
unfolding sync_epoch_event
sync_epoch_events epochs_query height block_time [] initiated tx = (ok tt, (initiated, tx))
sync_epoch_events epochs_query height block_time (ev ∷ evs) initiated tx =
    go_on (λ next tx'. sync_epoch_events epochs_query height block_time evs next tx')
      (sync_epoch_event epochs_query height block_time ev initiated tx)
