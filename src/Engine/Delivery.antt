-- ===== src/Engine/Delivery.antt =====
-- The delivery worker (webhook_doorman/engine.py, `run_once`, `_recover`, `_deliver_once`,
-- `_context_for`, `_schedule_retry`, `_dead_letter`, `_exhaust`, `sweep_once`, and the requeue of
-- `start`). What a sink does is the `deliver` of its entry; `draw` is the random number of a delay.
use webhook_doorman.Prelude.{
  ℕ, ◌+◌, ◌-◌, ◌*◌, Bool, true, false, ◌&&◌, Option, none, some, List, [], ◌∷◌, ◌++◌,
}
use webhook_doorman.Prelude.Tests.{if◌then◌else◌, leb}
use webhook_doorman.Prelude.Lists.{length}
use webhook_doorman.Prelude.Text.{Text, codes}
use webhook_doorman.Json.{Value, Fields, set_field}
use webhook_doorman.Models.{StoredEvent, Delivery}
use webhook_doorman.Redaction.{redact_text, redact_json}
use webhook_doorman.Context.{stored_view, template_context, decimal}
use webhook_doorman.Store.Tables.{Db, Outcome}
use webhook_doorman.Store.Ingest.{get_event}
use webhook_doorman.Store.Claims.{
  claim_due_deliveries, mark_delivered, mark_retry, mark_exhausted, release_claim,
  requeue_incomplete,
}
use webhook_doorman.Store.Sweep.{sweep}
use webhook_doorman.Engine.Setup.{
  SinkResult, SourceEntry, SinkEntry, Setup, AttemptOutcome, Metric, EngineState, increment,
  with_db,
}
use webhook_doorman.Engine.Backoff.{retry_delay}

abbrev pub claim_batch : ℕ
claim_batch = 32

-- A claim's time is in microseconds, a delay in milliseconds.
abbrev pub due_after : ℕ → ℕ → ℕ
due_after now delay = now + delay * 1000

abbrev pub microseconds_per_day : ℕ
microseconds_per_day = 86400000000

-- What raises in the engine around one attempt, as the `repr` of the error: reading the stored event
-- back, and the write of the outcome, at its first statement (a locked database, a full disk).
pub record Faults : Type 0 where
  pub reading : Option Text
  pub writing : Option Text

module _ (u : Setup) where
  abbrev pub redact_error : Text → Text
  redact_error error = redact_text error u.secret_values

  -- A method of the store returns or raises; where it raises at its first statement, the tables stay.
  -- The result is the `repr` of the error, if there is one.
  abbrev pub store_outcome :
      Option Text → Outcome (Unit {0}) × Db → EngineState → Option Text × EngineState
  store_outcome (some error) (r, db) s = (some error, s)
  store_outcome none (Outcome.ok _, db) s = (none, with_db db s)
  store_outcome none (Outcome.integrity_error, db) s =
      (some (codes "IntegrityError('FOREIGN KEY constraint failed')"), with_db db s)

  unfoldable pub exhaust :
      Option Text → Delivery → Text → Option ℕ → ℕ → ℕ → EngineState → Option Text × EngineState
  exhaust failure d error code latency now s =
      store_outcome failure (mark_exhausted d.id (redact_error error) code latency now s.db) s

  unfoldable pub dead_letter :
      Option Text → Delivery → Text → Option ℕ → ℕ → ℕ → EngineState → Option Text × EngineState
  unfolding exhaust
  dead_letter failure d error code latency now s =
      exhaust failure d error code latency now
        (increment (Metric.delivery_attempts d.sink AttemptOutcome.exhausted) s)

  -- Does this attempt use up the budget?
  abbrev pub is_last : Delivery → Bool
  is_last d = leb u.max_attempts (d.attempt + 1)

  -- `timedelta(seconds=…)` of the delay, if computing the delay does not raise.
  abbrev pub retry_after_delay :
      Option Text
      → Delivery
      → Text
      → Option ℕ
      → ℕ
      → Option ℕ
      → ℕ
      → EngineState
      → Option Text × EngineState
  retry_after_delay failure d error code latency none now s =
      (some (codes "OverflowError('int too large to convert to float')"), s)
  retry_after_delay failure d error code latency (some delay) now s =
      store_outcome failure
        (
          Outcome.ok tt,
          mark_retry d.id (redact_error error) code latency (due_after now delay) now s.db,
        )
        s

  unfoldable pub schedule_retry :
      Option Text
      → Delivery
      → Text
      → Option ℕ
      → ℕ
      → Option ℕ
      → ℕ
      → ℕ
      → EngineState
      → Option Text × EngineState
  unfolding dead_letter
  schedule_retry failure d error code latency retry_after draw now s =
      if is_last d
      then dead_letter failure d (redact_error error) code latency now s
      else retry_after_delay failure d error code latency
          (retry_delay u (d.attempt + 1) retry_after draw) now
          (increment (Metric.delivery_attempts d.sink AttemptOutcome.retry) s)

  abbrev pub is_agent_readable : Option SinkEntry → Bool
  is_agent_readable none = false
  is_agent_readable (some e) = e.agent_readable

  -- A source that has been deleted is untrusted.
  abbrev pub is_untrusted : Option SourceEntry → Bool
  is_untrusted none = true
  is_untrusted (some e) = e.untrusted

  -- The template namespace of one pair of event and sink, with the idempotency key.
  unfoldable pub context_for : StoredEvent → Text → Fields
  context_for e sink =
      template_context u.isoformat u.nfkc u.dumps
        (is_agent_readable (u.sink_by_name sink) && is_untrusted (u.source_by_name e.source))
        (stored_view (record e { payload = redact_json e.payload u.secret_values }))

  unfoldable pub delivery_context : StoredEvent → Delivery → Fields
  unfolding context_for
  delivery_context e d =
      set_field (codes "delivery_key") (Value.str (u.install_id ++ (b'-' ∷ decimal d.id)))
        (context_for e d.sink)

  abbrev pub observe_latency : Text → ℕ → EngineState → EngineState
  observe_latency sink latency s = increment (Metric.delivery_latency sink latency) s

  -- `mark_delivered` comes before the metrics.
  abbrev pub record_delivered :
      Option Text → Delivery → Option ℕ → ℕ → ℕ → EngineState → Option Text × EngineState
  record_delivered (some error) d code latency now s = (some error, s)
  record_delivered none d code latency now s = (
    none,
    increment (Metric.delivery_attempts d.sink AttemptOutcome.delivered)
        (observe_latency d.sink latency (with_db (mark_delivered d.id code latency now s.db) s)),
  )

  -- What the engine does with the sink's answer.
  unfoldable pub settle_attempt :
      Option Text → Delivery → SinkResult → ℕ → ℕ → EngineState → Option Text × EngineState
  unfolding exhaust schedule_retry
  settle_attempt failure d (SinkResult.delivered code latency) draw now s =
      record_delivered failure d code latency now s
  settle_attempt failure d (SinkResult.permanent_error error code latency) draw now s =
      exhaust failure d error code latency now (
        increment (Metric.delivery_attempts d.sink AttemptOutcome.permanent)
          (observe_latency d.sink latency s))
  settle_attempt failure d (SinkResult.sink_error error code latency retry_after) draw now s =
      schedule_retry failure d error code latency retry_after draw now
        (observe_latency d.sink latency s)
  settle_attempt failure d (SinkResult.other_error error) draw now s =
      schedule_retry failure d error none 0 none draw now s

  unfoldable pub deliver_to :
      Option Text
      → Option SinkEntry
      → StoredEvent
      → Delivery
      → ℕ
      → ℕ
      → EngineState
      → Option Text × EngineState
  unfolding settle_attempt delivery_context
  deliver_to failure none e d draw now s =
      exhaust failure d (codes "sink " ++ (u.repr d.sink ++ codes " is not available")) none 0 now s
  deliver_to failure (some entry) e d draw now s =
      if entry.enabled
      then settle_attempt failure d (entry.deliver (delivery_context e d)) draw now s
      else exhaust failure d (codes "sink " ++ (u.repr d.sink ++ codes " is not available")) none 0
          now s

  unfoldable pub deliver_event :
      Option Text → Option StoredEvent → Delivery → ℕ → ℕ → EngineState → Option Text × EngineState
  unfolding deliver_to
  deliver_event failure none d draw now s =
      exhaust failure d (codes "event no longer exists") none 0 now s
  deliver_event failure (some e) d draw now s =
      deliver_to failure (u.sink_by_name d.sink) e d draw now s

  abbrev pub deliver_read :
      Option Text → Option Text → Delivery → ℕ → ℕ → EngineState → Option Text × EngineState
  deliver_read (some error) failure d draw now s = (some error, s)
  deliver_read none failure d draw now s =
      deliver_event failure (get_event u.safe_json d.event_id s.db) d draw now s

  -- An attempt, and what fails in it besides the sink: reading the event back, and writing the outcome.
  unfoldable pub deliver_once : Faults → Delivery → ℕ → ℕ → EngineState → Option Text × EngineState
  unfolding deliver_event
  deliver_once faults d draw now s = deliver_read faults.reading faults.writing d draw now s

  -- An error of the recovery itself is swallowed.
  abbrev pub return_claim : Delivery → Option ℕ → ℕ → EngineState → EngineState
  return_claim d none now s = s
  return_claim d (some delay) now s =
      with_db (release_claim d.id (due_after now delay) now s.db).1 s

  -- An engine error around an attempt counts as one.
  unfoldable pub recover : Delivery → Text → ℕ → ℕ → EngineState → EngineState
  unfolding dead_letter
  recover d error draw now s =
      if is_last d
      then (dead_letter none d (codes "engine error: " ++ redact_error error) none 0 now s).1
      else return_claim d (retry_delay u (d.attempt + 1) none draw) now
          (increment (Metric.delivery_attempts d.sink AttemptOutcome.error) s)

  abbrev pub if_raised : Option Text → Delivery → List (Delivery × Text) → List (Delivery × Text)
  if_raised none d failed = failed
  if_raised (some error) d failed = (d, error) ∷ failed

  -- The attempts of one batch, and the deliveries whose attempt raised, each with its error.
  unfoldable pub deliver_all :
      List Delivery
      → (ℕ → Faults)
      → (ℕ → ℕ)
      → ℕ
      → EngineState
      → List (Delivery × Text) × EngineState
  unfolding deliver_once
  deliver_all [] faults draws now s = ([], s)
  deliver_all (d ∷ ds) faults draws now s =
      let (r, s') = deliver_once (faults d.id) d (draws d.id) now s in
      let (failed, s'') = deliver_all ds faults draws now s' in (if_raised r d failed, s'')

  unfoldable pub recover_all : List (Delivery × Text) → (ℕ → ℕ) → ℕ → EngineState → EngineState
  unfolding recover
  recover_all [] draws now s = s
  recover_all ((d, error) ∷ failed) draws now s =
      recover_all failed draws now (recover d error (draws d.id) now s)

  -- How many were processed. The attempts of `gather` run in the order of the batch here.
  unfoldable pub run_once : (ℕ → Faults) → (ℕ → ℕ) → ℕ → EngineState → ℕ × EngineState
  unfolding deliver_all recover_all
  run_once faults draws now s =
      let (due, db) = claim_due_deliveries now claim_batch s.db in
      let (failed, s') = deliver_all due faults draws now (with_db db s) in
      (length due, recover_all failed draws now s')

  unfoldable pub sweep_once : ℕ → EngineState → (ℕ × ℕ) × EngineState
  sweep_once now s =
      let (counts, db) =
        sweep (now - u.retention_days * microseconds_per_day)
          (now - u.dlq_retention_days * microseconds_per_day) s.db in
      (counts, with_db db s)

  -- The requeue at startup.
  unfoldable pub start : ℕ → EngineState → ℕ × EngineState
  start now s = let (count, db) = requeue_incomplete now s.db in (count, with_db db s)
