-- ===== src/Epochs/Runs.antt =====
-- The epoch events of a chain, started and ended.
use ixo_blocksync.Base.{
  ◌≡◌, refl, ap, ℕ, ◌+◌, Bool, true, false, String, some, List, [], ◌∷◌, ◌++◌, map, ◌==◌, ◌||◌,
  arith, nat_eq, string_eq,
}
use ixo_blocksync.Base.Table.{Table, lookup, upsert, lookup-upsert}
use ixo_blocksync.Pg.{ok, running, pure, query, statement, promise_all, ◌>>=◌}
use ixo_blocksync.Epochs.{
  Epoch, EpochEvent, EpochDb, EpochStartedEvent, EpochsQuery, insert_or_update_epoch, is_known,
  started, create_epoch_event, is_of, ended, end_events, epoch_ended, find_identifier,
  choose_identifier, epoch_started_or_ended, epoch_start, epoch_end, sync_epoch_event,
  sync_epoch_events,
}

abbrev pub has_identifier : String → List (String × Epoch) → Bool
has_identifier k [] = false
has_identifier k ((i, _) ∷ es) = i == k || has_identifier k es

-- The epochs after an answer of the archive node has been stored.
abbrev pub stored : List (String × Epoch) → Table String Epoch → Table String Epoch
stored [] t = t
stored ((k, row) ∷ es) t = stored es (upsert k row (λ _. row) t)

insert_all :
    (es : List (String × Epoch)) (s : EpochDb)
    → promise_all (map insert_or_update_epoch es) (running s)
      ≡ (ok tt, running (record s { epochs = stored es s.epochs }))
unfolding promise_all ◌>>=◌ pure insert_or_update_epoch query
insert_all [] s = refl
insert_all ((k, row) ∷ es) s =
    insert_all es (record s { epochs = upsert k row (λ _. row) s.epochs })

is_known-stored :
    (k : String) (es : List (String × Epoch)) (t : Table String Epoch)
    → (has_identifier k es || is_known (lookup k t)) ≡ true
    → is_known (lookup k (stored es t)) ≡ true
is_known-stored k [] t h = h
is_known-stored k ((i, row) ∷ es) t h =
    is_known-stored k es (upsert i row (λ _. row) t)
      (ground (arith, lookup-upsert i k row (λ _. row) t, h))

has-find_identifier :
    (number : ℕ) (k : String) (es : List (String × Epoch))
    → find_identifier number es ≡ some k
    → has_identifier k es ≡ true
unfolding find_identifier
has-find_identifier number k [] h = cc h
has-find_identifier number k ((i, row) ∷ es) h =
    ground (arith, string_eq.beq_iff i k, has-find_identifier number k es, h)

-- The database after a start has been stored with this identifier.
abbrev pub recorded : EpochStartedEvent → String → List (String × Epoch) → EpochDb → EpochDb
recorded p k es s = record s { epochs = stored es s.epochs; events = s.events ++ started p k ∷ [] }

start_run :
    (epochs_query : EpochsQuery) (p : EpochStartedEvent) (e : String × Epoch)
    (es : List (String × Epoch)) (k initiated next : String) (s : EpochDb)
    → p.is_started ≡ true
    → epochs_query p.height ≡ ok (some (e ∷ es))
    → choose_identifier p.epoch_number initiated (e ∷ es) ≡ (some k, next)
    → has_identifier k (e ∷ es) ≡ true
    → epoch_started_or_ended epochs_query p initiated (running s)
      ≡ (ok tt, (next, running (recorded p k (e ∷ es) s)))
unfolding epoch_started_or_ended create_epoch_event statement
start_run epochs_query p e es k initiated next s start answer chosen has =
    rw (answer, start, insert_all (e ∷ es) s, chosen, known) refl
  where
    known : is_known (lookup k (stored (e ∷ es) s.epochs)) ≡ true
    known = is_known-stored k (e ∷ es) s.epochs (ground (arith, has))

abbrev pub start_of : ℕ → ℕ → ℕ → EpochStartedEvent
start_of number time height = record {
  epoch_number = number;
  time = time;
  height = height;
  is_started = true;
}

append3 :
    {A : Type 0} (xs : List A) (a b c : A)
    → ((xs ++ a ∷ []) ++ b ∷ []) ++ c ∷ [] ≡ xs ++ a ∷ b ∷ c ∷ []
append3 [] a b c = refl
append3 (x ∷ xs) a b c = ap (λ ys. x ∷ ys) (append3 xs a b c)

-- The first three starts of an epoch 1 that the process sees in a block, where the archive node
-- knows of the three epochs, are recorded as those of the day, the hour and the week, in this order.
sync_epoch_events-initial :
    (epochs_query : EpochsQuery) (height block_time : ℕ) (e : String × Epoch)
    (es : List (String × Epoch)) (t₁ t₂ t₃ : ℕ) (s : EpochDb)
    → epochs_query height ≡ ok (some (e ∷ es))
    → has_identifier "day" (e ∷ es) ≡ true
    → has_identifier "hour" (e ∷ es) ≡ true
    → has_identifier "week" (e ∷ es) ≡ true
    → (s' : EpochDb) × (sync_epoch_events epochs_query height block_time
          (epoch_start 1 t₁ ∷ epoch_start 1 t₂ ∷ epoch_start 1 t₃ ∷ [])
          "none"
          (running s)
        ≡ (ok tt, ("week", running s')))
      × (s'.events
          ≡ s.events
            ++ started (start_of 1 t₁ height) "day"
              ∷ started (start_of 1 t₂ height) "hour"
              ∷ started (start_of 1 t₃ height) "week"
              ∷ [])
unfolding sync_epoch_events sync_epoch_event
sync_epoch_events-initial epochs_query height block_time e es t₁ t₂ t₃ s answer day hour week = (
  s₃,
  rw
      (
        start_run epochs_query (start_of 1 t₁ height) e es "day" "none" "day" s refl answer refl
            day,
        start_run epochs_query (start_of 1 t₂ height) e es "hour" "day" "hour" s₁ refl answer refl
            hour,
        start_run epochs_query (start_of 1 t₃ height) e es "week" "hour" "week" s₂ refl answer refl
            week,
      )
      refl,
  append3 s.events _ _ _,
)
  where
    s₁ : EpochDb
    s₁ = recorded (start_of 1 t₁ height) "day" (e ∷ es) s

    s₂ : EpochDb
    s₂ = recorded (start_of 1 t₂ height) "hour" (e ∷ es) s₁

    s₃ : EpochDb
    s₃ = recorded (start_of 1 t₃ height) "week" (e ∷ es) s₂

-- When the block of the first start of an epoch 1 is rolled back and comes again, on the same
-- database, its event is recorded as that of the hour, and not of the day as it was at first.
pub sync_epoch_event-retried :
    (epochs_query : EpochsQuery) (height block_time : ℕ) (e : String × Epoch)
    (es : List (String × Epoch)) (time : ℕ) (s : EpochDb)
    → epochs_query height ≡ ok (some (e ∷ es))
    → has_identifier "day" (e ∷ es) ≡ true
    → has_identifier "hour" (e ∷ es) ≡ true
    → (initiated : String) × (sync_epoch_event epochs_query height block_time
          (epoch_start 1 time)
          "none"
          (running s)
        ≡ (ok tt, (initiated, running (recorded (start_of 1 time height) "day" (e ∷ es) s))))
      × (sync_epoch_event epochs_query height block_time (epoch_start 1 time) initiated (running s)
          ≡ (ok tt, ("hour", running (recorded (start_of 1 time height) "hour" (e ∷ es) s))))
unfolding sync_epoch_event
sync_epoch_event-retried epochs_query height block_time e es time s answer day hour = (
  "day",
  start_run epochs_query (start_of 1 time height) e es "day" "none" "day" s refl answer refl day,
  start_run epochs_query (start_of 1 time height) e es "hour" "day" "hour" s refl answer refl hour,
)

-- No event of the epoch with this number and identifier.
abbrev pub HasNoEvent : ℕ → String → List EpochEvent → Type 0
HasNoEvent number k [] = Unit
HasNoEvent number k (e ∷ es) = (is_of number k e ≡ false) × HasNoEvent number k es

end_events-new :
    (p : EpochStartedEvent) (k : String) (es : List EpochEvent) (e : EpochEvent)
    → is_of p.epoch_number k e ≡ true
    → HasNoEvent p.epoch_number k es
    → end_events p k (es ++ e ∷ []) ≡ es ++ ended p e ∷ []
unfolding end_events
end_events-new p k [] e h fresh = rw h
end_events-new p k (x ∷ es) e h (other, fresh) = rw (other, end_events-new p k es e h fresh)

-- An epoch but the first, which the database has no event of, is started in a block whose answer
-- has it, and ended in a later one whose answer has the next of the same identifier: this leaves
-- one new event, with both heights and times, and every other event as it was.
pub sync_epoch_event-start_end :
    (epochs_query : EpochsQuery) (number h₁ h₂ b₁ b₂ time : ℕ) (k initiated : String)
    (e₁ e₂ : String × Epoch) (es₁ es₂ : List (String × Epoch)) (s : EpochDb)
    → (number == 1) ≡ false
    → (k == "") ≡ false
    → epochs_query h₁ ≡ ok (some (e₁ ∷ es₁))
    → find_identifier number (e₁ ∷ es₁) ≡ some k
    → epochs_query h₂ ≡ ok (some (e₂ ∷ es₂))
    → find_identifier (number + 1) (e₂ ∷ es₂) ≡ some k
    → HasNoEvent number k s.events
    → (s₁ : EpochDb) × (s₂ : EpochDb) × (sync_epoch_event epochs_query h₁ b₁
          (epoch_start number time)
          initiated
          (running s)
        ≡ (ok tt, (initiated, running s₁)))
      × (sync_epoch_event epochs_query h₂ b₂ (epoch_end number) initiated (running s₁)
          ≡ (ok tt, (initiated, running s₂)))
      × (s₂.events
          ≡ s.events
            ++ record {
              epoch_number = number;
              epoch_identifier = k;
              start_height = h₁;
              start_time = time;
              end_height = some h₂;
              end_time = some b₂;
            }
              ∷ [])
unfolding sync_epoch_event epoch_started_or_ended epoch_ended query
sync_epoch_event-start_end epochs_query number h₁ h₂ b₁ b₂ time k initiated e₁ e₂ es₁ es₂ s later
      named answer found answer₂ found₂ fresh =
    (
      s₁,
      record s₁ { events = end_events closing k s₁.events },
      start_run epochs_query (start_of number time h₁) e₁ es₁ k initiated initiated s refl answer
          (rw (later, found) refl) (has-find_identifier number k (e₁ ∷ es₁) found),
      rw (answer₂, found₂, named) refl,
      end_events-new closing k s.events (started (start_of number time h₁) k) own fresh,
    )
  where
    s₁ : EpochDb
    s₁ = recorded (start_of number time h₁) k (e₁ ∷ es₁) s

    closing : EpochStartedEvent
    closing = record { epoch_number = number; time = b₂; height = h₂; is_started = false }

    own : is_of number k (started (start_of number time h₁) k) ≡ true
    own = ground (arith, nat_eq.beq_iff number number, string_eq.beq_iff k k)
