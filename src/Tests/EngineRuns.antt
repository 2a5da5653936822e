-- ===== src/Tests/EngineRuns.antt =====
-- The stated properties of webhook_doorman/engine.py under the configuration of `Tests.Data`.
use webhook_doorman.Prelude.{◌≡◌, refl, ◌≤◌, ◌*◌, inl, true, none, some, List, [], ◌∷◌, arith}
use webhook_doorman.Prelude.Lists.{find}
use webhook_doorman.Prelude.Text.{codes, text_eq}
use webhook_doorman.Models.{EventStatus, StoredEvent}
use webhook_doorman.Store.Tables.{EventRow, has_key}
use webhook_doorman.Store.Ingest.{
  record_event, event_row, insert_deliveries, new_delivery, enqueue_first_deliveries,
  has_deliveries, stored_event,
}
use webhook_doorman.Store.Verdicts.{record_detection}
use webhook_doorman.Store.Statements.{exec, run, fresh}
use webhook_doorman.Store.Invariant.{IsWellFormed}
use webhook_doorman.Store.Reachable.{fresh-IsWellFormed}
use webhook_doorman.Store.InFlight.{AllHeld}
use webhook_doorman.Engine.Setup.{Metric, EngineState, increment, Response}
use webhook_doorman.Engine.Ingest.{ingest}
use webhook_doorman.Engine.Admin.{release}
use webhook_doorman.Engine.Backoff.{share, raw_delay, clamped_delay, IsJittered, retry_delay_bounds}
use webhook_doorman.Engine.Delivery.{Faults, run_once}
use webhook_doorman.Engine.Serve.{Call, serve, serve-IsWellFormed}
use webhook_doorman.Engine.Settles.{run_once_settles}
use webhook_doorman.Engine.Told.{Told}
use webhook_doorman.Engine.Answers.{due_for, ingest-Told}
use webhook_doorman.Engine.Again.{release_twice, ingest_duplicate}
use webhook_doorman.Store.Attempts.{HasBudget}
use webhook_doorman.Engine.Budget.{run_once_budget}
use webhook_doorman.Tests.StoreRuns.{queued-IsWellFormed}
use webhook_doorman.Tests.Data.{setup, watched_setup, push_event, fresh_state, stored, queued}

ingest-Told_example :
    Told
      (due_for watched_setup push_event 20 fresh)
      ((record_event push_event fresh).0.0)
      (ingest watched_setup push_event 20 fresh_state).0
      (ingest watched_setup push_event 20 fresh_state).1.db
ingest-Told_example =
    ingest-Told watched_setup push_event 20 fresh_state fresh-IsWellFormed (inl refl)

-- The write of every outcome fails.
abbrev unlucky : Faults
unlucky = record { reading = none; writing = some (codes "disk I/O error") }

abbrev some_calls : List Call
some_calls =
    Call.ingest_event push_event 20
    ∷ Call.ingest_event push_event 25
    ∷ Call.work (λ id. unlucky) (λ id. 0) 30
    ∷ Call.release_held 1 40
    ∷ Call.replay_event 1 50
    ∷ Call.retain 60
    ∷ Call.start_up 70
    ∷ []

serve-IsWellFormed_example : IsWellFormed (serve watched_setup some_calls fresh_state).db
serve-IsWellFormed_example =
    serve-IsWellFormed watched_setup some_calls fresh_state fresh-IsWellFormed

abbrev queued_state : EngineState
queued_state = record { db = run queued fresh; detector_last_error = none; metrics = [] }

nothing_in_flight : AllHeld [] queued_state.db
unfolding AllHeld run exec record_event event_row enqueue_first_deliveries insert_deliveries
    new_delivery
nothing_in_flight = refl

few_attempts : setup.max_attempts ≤ 1025
few_attempts = omega arith

run_once_settles_example :
    AllHeld [] (run_once setup (λ id. unlucky) (λ id. 0) 100 queued_state).1.db
run_once_settles_example =
    run_once_settles setup (λ id. unlucky) (λ id. 0) 100 queued_state few_attempts nothing_in_flight

-- The row of the event.
abbrev push_row : EventRow
push_row = event_row 1 push_event

found_push :
    find (has_key push_event.source push_event.delivery_id) queued_state.db.events ≡ some push_row
unfolding run exec record_event event_row enqueue_first_deliveries insert_deliveries new_delivery
    text_eq
found_push = refl

push_is_queued : has_deliveries 1 queued_state.db ≡ true
unfolding has_deliveries run exec record_event event_row enqueue_first_deliveries insert_deliveries
    new_delivery
push_is_queued = refl

ingest_duplicate_example : ingest setup push_event 90 queued_state ≡ (
  Response.deduplicated push_row.id,
  increment (Metric.events_deduplicated (codes "ci")) queued_state,
)
ingest_duplicate_example =
    ingest_duplicate setup push_event push_row 90 queued_state found_push
      (unfold event_row in push_is_queued)

release_twice_example :
    (release setup 1 80 (release setup 1 70 queued_state).1).1 ≡ (release setup 1 70 queued_state).1
release_twice_example = release_twice setup 1 70 80 queued_state

-- The event as `replay` read it, and the tables after the detector's verdict.
abbrev read_event : StoredEvent
read_event = stored_event setup.safe_json push_row

abbrev judged_state : EngineState
judged_state = record {
  db = record_detection 1 none EventStatus.quarantined (some 40) (run stored fresh);
  detector_last_error = none;
  metrics = [];
}

-- A destination that asks for fifteen minutes gets five, and the jitter.
clamped : clamped_delay setup 1 (some 900000) ≡ some 300000
unfolding clamped_delay raw_delay
clamped = refl

draw_in_range : 60000 ≤ 2 * share setup 300000
draw_in_range = omega arith

retry_delay_bounds_example : IsJittered setup 1 (some 900000) 60000 300000
retry_delay_bounds_example =
    retry_delay_bounds setup 1 (some 900000) 60000 300000 clamped draw_in_range

all_fresh : HasBudget setup.max_attempts queued_state.db
unfolding HasBudget run exec record_event event_row enqueue_first_deliveries insert_deliveries
    new_delivery
all_fresh = refl

run_once_budget_example :
    HasBudget setup.max_attempts (run_once setup (λ id. unlucky) (λ id. 0) 100 queued_state).1.db
run_once_budget_example =
    run_once_budget setup (λ id. unlucky) (λ id. 0) 100 queued_state queued-IsWellFormed all_fresh
