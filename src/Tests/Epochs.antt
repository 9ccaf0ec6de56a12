-- ===== src/Tests/Epochs.antt =====
-- The epoch events at concrete data.
use ixo_blocksync.Base.{
  ◌≡◌, refl, ℕ, true, some, [], ◌∷◌, ◌++◌, String, nat_eq, string_eq, if◌then◌else◌, ◌==◌,
}
use ixo_blocksync.Pg.{ok, running}
use ixo_blocksync.Epochs.{
  Epoch, EpochDb, EpochsQuery, epoch_start, epoch_end, sync_epoch_event, find_identifier,
}
use ixo_blocksync.Epochs.Runs.{
  start_of, recorded, sync_epoch_event-retried, sync_epoch_event-start_end,
}

abbrev at_epoch : ℕ → Epoch
at_epoch number = record {
  start_time = 10;
  duration = "3600s";
  current_epoch = number;
  current_epoch_start_time = 10;
  epoch_counting_started = true;
  current_epoch_start_height = 4;
}

-- the hours go on: number 7 at height 5, and 8 from height 9
abbrev answers : EpochsQuery
answers height = ok (
    some (
      ("day", at_epoch 1)
      ∷ ("hour", at_epoch (if height == 5 then 7 else 8))
      ∷ ("week", at_epoch 1)
      ∷ []))

abbrev no_epochs : EpochDb
no_epochs = record { epochs = []; events = [] }

sync_epoch_event-retried_example :
    (initiated : String) × (sync_epoch_event answers 5 50
        (epoch_start 1 11)
        "none"
        (running no_epochs)
      ≡ (
        ok tt,
        (
          initiated,
          running (
              recorded
                (start_of 1 11 5)
                "day"
                (("day", at_epoch 1) ∷ ("hour", at_epoch 7) ∷ ("week", at_epoch 1) ∷ [])
                no_epochs),
        ),
      ))
    × (sync_epoch_event answers 5 50 (epoch_start 1 11) initiated (running no_epochs) ≡ (
      ok tt,
      (
        "hour",
        running (
            recorded
              (start_of 1 11 5)
              "hour"
              (("day", at_epoch 1) ∷ ("hour", at_epoch 7) ∷ ("week", at_epoch 1) ∷ [])
              no_epochs),
      ),
    ))
sync_epoch_event-retried_example =
    sync_epoch_event-retried answers 5 50 ("day", at_epoch 1)
      (("hour", at_epoch 7) ∷ ("week", at_epoch 1) ∷ []) 11 no_epochs refl refl refl

sync_epoch_event-start_end_example :
    (s₁ : EpochDb) × (s₂ : EpochDb) × (sync_epoch_event answers 5 50
        (epoch_start 7 49)
        "week"
        (running no_epochs)
      ≡ (ok tt, ("week", running s₁)))
    × (sync_epoch_event answers 9 90 (epoch_end 7) "week" (running s₁)
        ≡ (ok tt, ("week", running s₂)))
    × (s₂.events
        ≡ []
          ++ record {
            epoch_number = 7;
            epoch_identifier = "hour";
            start_height = 5;
            start_time = 49;
            end_height = some 9;
            end_time = some 90;
          }
            ∷ [])
unfolding find_identifier
sync_epoch_event-start_end_example =
    sync_epoch_event-start_end answers 7 5 9 50 90 49 "hour" "week" ("day", at_epoch 1)
      ("day", at_epoch 1) (("hour", at_epoch 7) ∷ ("week", at_epoch 1) ∷ [])
      (("hour", at_epoch 8) ∷ ("week", at_epoch 1) ∷ []) no_epochs refl refl refl refl refl refl tt
