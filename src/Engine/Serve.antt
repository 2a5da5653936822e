-- ===== src/Engine/Serve.antt =====
-- The operator's calls and the worker of webhook_doorman/engine.py as runs of the statements of
-- `Store.Statements`, and sequences of calls of all entry points.
use webhook_doorman.Prelude.{ℕ, inl, inr, Bool, true, false, Option, none, some, List, [], ◌∷◌}
use webhook_doorman.Prelude.Tests.{Bool-cases}
use webhook_doorman.Prelude.Text.{Text}
use webhook_doorman.Models.{InboundEvent, StoredEvent, Delivery, is_quarantined, is_withheld}
use webhook_doorman.Store.Tables.{Db, Outcome}
use webhook_doorman.Store.Ingest.{get_event, enqueue_deliveries}
use webhook_doorman.Store.Claims.{claim_due_deliveries}
use webhook_doorman.Store.Verdicts.{release_event}
use webhook_doorman.Store.Invariant.{IsWellFormed}
use webhook_doorman.Store.Methods.{
  Reaches, Reaches-refl, Reaches-trans, Reaches-IsWellFormed, mark_delivered-Reaches,
  mark_retry-Reaches, mark_exhausted-Reaches, sweep-Reaches,
}
use webhook_doorman.Store.Claims.{mark_exhausted}
use webhook_doorman.Engine.Setup.{
  AttemptOutcome, SinkResult, SinkEntry, Setup, Metric, EngineState, increment, with_db,
}
use webhook_doorman.Engine.Ingest.{sinks_for, ingest}
use webhook_doorman.Engine.Admin.{
  release, release_stored, release_to, replay, replay_stored, replay_to,
}
use webhook_doorman.Engine.Delivery.{
  exhaust, dead_letter, delivery_context, observe_latency, schedule_retry, settle_attempt, Faults,
  store_outcome, retry_after_delay, deliver_read, return_claim, deliver_to, deliver_event,
  deliver_once, recover, deliver_all, recover_all, run_once, sweep_once, start, is_last,
  claim_batch, redact_error,
}
use webhook_doorman.Engine.Calls.{
  enqueue_first-Reaches, enqueue-Reaches, release_event-Reaches, claim-Reaches, hand_back-Reaches,
  requeue-Reaches,
}
use webhook_doorman.Engine.Entry.{ingest-Reaches}
use webhook_doorman.Engine.Admin.{release_won, replayed}

module _ (u : Setup) where
  release_to-Reaches :
      (n : ℕ) (sinks : List Text) (now : ℕ) (s : EngineState)
      → Reaches s.db (release_to u n sinks now s).1.db
  release_to-Reaches n [] now s = Reaches-refl s.db
  release_to-Reaches n (sink ∷ sinks) now s = enqueue_first-Reaches n (sink ∷ sinks) now s.db

  release_won-Reaches :
      (e : StoredEvent) (n now : ℕ) (p : Bool × Db) (s : EngineState)
      → Reaches s.db p.1
      → Reaches s.db (release_won u e n now p s).1.db
  release_won-Reaches e n now (true, db) s r =
      Reaches-trans r (release_to-Reaches n (sinks_for u e) now (with_db db s))
  release_won-Reaches e n now (false, db) s r = r

  release_stored-Reaches :
      (o : Option StoredEvent) (n now : ℕ) (s : EngineState)
      → Reaches s.db (release_stored u o n now s).1.db
  unfolding release_stored
  release_stored-Reaches none n now s = Reaches-refl s.db
  release_stored-Reaches (some e) n now s = elim (Bool-cases (is_quarantined e.status)) [
    | inl held ↦
        rw held
          (release_won-Reaches e n now (release_event n s.db) s (release_event-Reaches n s.db))
    | inr decided ↦ rw decided (Reaches-refl s.db)
  ]

  pub release-Reaches : (n now : ℕ) (s : EngineState) → Reaches s.db (release u n now s).1.db
  unfolding release
  release-Reaches n now s = release_stored-Reaches (get_event u.safe_json n s.db) n now s

  replayed-Reaches :
      (n : ℕ) (sinks : List Text) (p : Outcome (List ℕ) × Db) (s : EngineState)
      → Reaches s.db p.1
      → Reaches s.db (replayed u n sinks p s).1.db
  replayed-Reaches n sinks (Outcome.ok ids, db) s r = r
  replayed-Reaches n sinks (Outcome.integrity_error, db) s r = r

  replay_to-Reaches :
      (n : ℕ) (sinks : List Text) (now : ℕ) (s : EngineState)
      → Reaches s.db (replay_to u n sinks now s).1.db
  replay_to-Reaches n [] now s = Reaches-refl s.db
  replay_to-Reaches n (sink ∷ sinks) now s =
      replayed-Reaches n (sink ∷ sinks) (enqueue_deliveries n (sink ∷ sinks) now s.db) s
        (enqueue-Reaches n (sink ∷ sinks) now s.db)

  replay_stored-Reaches :
      (o : Option StoredEvent) (n now : ℕ) (s : EngineState)
      → Reaches s.db (replay_stored u o n now s).1.db
  unfolding replay_stored
  replay_stored-Reaches none n now s = Reaches-refl s.db
  replay_stored-Reaches (some e) n now s = elim (Bool-cases (is_withheld e.status)) [
    | inl refused ↦ rw refused (Reaches-refl s.db)
    | inr allowed ↦ rw allowed (replay_to-Reaches n (sinks_for u e) now s)
  ]

  pub replay-Reaches : (n now : ℕ) (s : EngineState) → Reaches s.db (replay u n now s).1.db
  unfolding replay
  replay-Reaches n now s = replay_stored-Reaches (get_event u.safe_json n s.db) n now s

  store_outcome-Reaches :
      (failure : Option Text) (r : Outcome (Unit {0})) (db : Db) (s : EngineState)
      → Reaches s.db db
      → Reaches s.db (store_outcome u failure (r, db) s).1.db
  store_outcome-Reaches (some error) r db s h = Reaches-refl s.db
  store_outcome-Reaches none (Outcome.ok _) db s h = h
  store_outcome-Reaches none Outcome.integrity_error db s h = h

  exhaust-Reaches :
      (failure : Option Text) (d : Delivery) (error : Text) (code : Option ℕ) (latency now : ℕ)
      (s : EngineState)
      → Reaches s.db (exhaust u failure d error code latency now s).1.db
  unfolding exhaust
  exhaust-Reaches failure d error code latency now s =
      store_outcome-Reaches failure
        (mark_exhausted d.id (redact_error u error) code latency now s.db).0 _ s
        (mark_exhausted-Reaches d.id (redact_error u error) code latency now s.db)

  dead_letter-Reaches :
      (failure : Option Text) (d : Delivery) (error : Text) (code : Option ℕ) (latency now : ℕ)
      (s : EngineState)
      → Reaches s.db (dead_letter u failure d error code latency now s).1.db
  unfolding dead_letter
  dead_letter-Reaches failure d error code latency now s =
      exhaust-Reaches failure d error code latency now
        (increment (Metric.delivery_attempts d.sink AttemptOutcome.exhausted) s)

  retry-Reaches :
      (failure : Option Text) (d : Delivery) (error : Text) (code : Option ℕ) (latency : ℕ)
      (delay : Option ℕ) (now : ℕ) (s : EngineState)
      → Reaches s.db (retry_after_delay u failure d error code latency delay now s).1.db
  retry-Reaches failure d error code latency none now s = Reaches-refl s.db
  retry-Reaches failure d error code latency (some delay) now s =
      store_outcome-Reaches failure (Outcome.ok tt) _ s
        (mark_retry-Reaches d.id (redact_error u error) code latency _ now s.db)

  schedule_retry-Reaches :
      (failure : Option Text) (d : Delivery) (error : Text) (code : Option ℕ) (latency : ℕ)
      (retry_after : Option ℕ) (draw now : ℕ) (s : EngineState)
      → Reaches s.db (schedule_retry u failure d error code latency retry_after draw now s).1.db
  unfolding schedule_retry
  schedule_retry-Reaches failure d error code latency retry_after draw now s =
      elim (Bool-cases (is_last u d)) [
        | inl last ↦
            rw last (dead_letter-Reaches failure d (redact_error u error) code latency now s)
        | inr left ↦ rw left (retry-Reaches failure d error code latency _ now _)
      ]

  settle_attempt-Reaches :
      (failure : Option Text) (d : Delivery) (r : SinkResult) (draw now : ℕ) (s : EngineState)
      → Reaches s.db (settle_attempt u failure d r draw now s).1.db
  unfolding settle_attempt
  settle_attempt-Reaches (some error) d (SinkResult.delivered code latency) draw now s =
      Reaches-refl s.db
  settle_attempt-Reaches none d (SinkResult.delivered code latency) draw now s =
      mark_delivered-Reaches d.id code latency now s.db
  settle_attempt-Reaches failure d (SinkResult.permanent_error error code latency) draw now s =
      exhaust-Reaches failure d error code latency now _
  settle_attempt-Reaches failure d (SinkResult.sink_error error code latency after) draw now s =
      schedule_retry-Reaches failure d error code latency after draw now
        (observe_latency u d.sink latency s)
  settle_attempt-Reaches failure d (SinkResult.other_error error) draw now s =
      schedule_retry-Reaches failure d error none 0 none draw now s

  deliver_to-Reaches :
      (failure : Option Text) (o : Option SinkEntry) (e : StoredEvent) (d : Delivery) (draw now : ℕ)
      (s : EngineState)
      → Reaches s.db (deliver_to u failure o e d draw now s).1.db
  unfolding deliver_to
  deliver_to-Reaches failure none e d draw now s = exhaust-Reaches failure d _ none 0 now s
  deliver_to-Reaches failure (some entry) e d draw now s = elim (Bool-cases entry.enabled) [
    | inl on ↦
        rw on (settle_attempt-Reaches failure d (entry.deliver (delivery_context u e d)) draw now s)
    | inr off ↦ rw off (exhaust-Reaches failure d _ none 0 now s)
  ]

  deliver_event-Reaches :
      (failure : Option Text) (o : Option StoredEvent) (d : Delivery) (draw now : ℕ)
      (s : EngineState)
      → Reaches s.db (deliver_event u failure o d draw now s).1.db
  unfolding deliver_event
  deliver_event-Reaches failure none d draw now s = exhaust-Reaches failure d _ none 0 now s
  deliver_event-Reaches failure (some e) d draw now s =
      deliver_to-Reaches failure (u.sink_by_name d.sink) e d draw now s

  deliver_read-Reaches :
      (reading failure : Option Text) (d : Delivery) (draw now : ℕ) (s : EngineState)
      → Reaches s.db (deliver_read u reading failure d draw now s).1.db
  deliver_read-Reaches (some error) failure d draw now s = Reaches-refl s.db
  deliver_read-Reaches none failure d draw now s =
      deliver_event-Reaches failure (get_event u.safe_json d.event_id s.db) d draw now s

  deliver_once-Reaches :
      (faults : Faults) (d : Delivery) (draw now : ℕ) (s : EngineState)
      → Reaches s.db (deliver_once u faults d draw now s).1.db
  unfolding deliver_once
  deliver_once-Reaches faults d draw now s =
      deliver_read-Reaches faults.reading faults.writing d draw now s

  handed_back-Reaches :
      (o : Option ℕ) (d : Delivery) (now : ℕ) (s : EngineState)
      → Reaches s.db (return_claim u d o now s).db
  handed_back-Reaches none d now s = Reaches-refl s.db
  handed_back-Reaches (some delay) d now s = hand_back-Reaches d.id _ now s.db

  recover-Reaches :
      (d : Delivery) (error : Text) (draw now : ℕ) (s : EngineState)
      → Reaches s.db (recover u d error draw now s).db
  unfolding recover
  recover-Reaches d error draw now s = elim (Bool-cases (is_last u d)) [
    | inl last ↦ rw last (dead_letter-Reaches none d _ none 0 now s)
    | inr left ↦ rw left (handed_back-Reaches _ d now _)
  ]

  deliver_all-Reaches :
      (ds : List Delivery) (faults : ℕ → Faults) (draws : ℕ → ℕ) (now : ℕ) (s : EngineState)
      → Reaches s.db (deliver_all u ds faults draws now s).1.db
  unfolding deliver_all
  deliver_all-Reaches [] faults draws now s = Reaches-refl s.db
  deliver_all-Reaches (d ∷ ds) faults draws now s =
      Reaches-trans (deliver_once-Reaches (faults d.id) d (draws d.id) now s) (
        deliver_all-Reaches ds faults draws now
          (deliver_once u (faults d.id) d (draws d.id) now s).1)

  recover_all-Reaches :
      (failed : List (Delivery × Text)) (draws : ℕ → ℕ) (now : ℕ) (s : EngineState)
      → Reaches s.db (recover_all u failed draws now s).db
  unfolding recover_all
  recover_all-Reaches [] draws now s = Reaches-refl s.db
  recover_all-Reaches ((d, error) ∷ failed) draws now s =
      Reaches-trans (recover-Reaches d error (draws d.id) now s)
        (recover_all-Reaches failed draws now _)

  run_once-Reaches :
      (faults : ℕ → Faults) (draws : ℕ → ℕ) (now : ℕ) (s : EngineState)
      → Reaches s.db (run_once u faults draws now s).1.db
  unfolding run_once
  run_once-Reaches faults draws now s =
      let due : List Delivery = (claim_due_deliveries now claim_batch s.db).0 in
      let claimed : EngineState = with_db (claim_due_deliveries now claim_batch s.db).1 s in
      Reaches-trans (claim-Reaches now claim_batch s.db) (
        Reaches-trans (deliver_all-Reaches due faults draws now claimed) (
          recover_all-Reaches (deliver_all u due faults draws now claimed).0 draws now
            (deliver_all u due faults draws now claimed).1))

  sweep_once-Reaches : (now : ℕ) (s : EngineState) → Reaches s.db (sweep_once u now s).1.db
  unfolding sweep_once
  sweep_once-Reaches now s = sweep-Reaches _ _ s.db

  start-Reaches : (now : ℕ) (s : EngineState) → Reaches s.db (start u now s).1.db
  unfolding start
  start-Reaches now s = requeue-Reaches now s.db

-- One call of an entry point of the engine.
pub data Call : Type 0 where
  ingest_event : InboundEvent → ℕ → Call
  release_held : ℕ → ℕ → Call
  replay_event : ℕ → ℕ → Call
  work : (ℕ → Faults) → (ℕ → ℕ) → ℕ → Call
  retain : ℕ → Call
  start_up : ℕ → Call

unfoldable pub call : Setup → Call → EngineState → EngineState
unfolding ingest release replay run_once sweep_once start
call u (Call.ingest_event ev now) s = (ingest u ev now s).1
call u (Call.release_held n now) s = (release u n now s).1
call u (Call.replay_event n now) s = (replay u n now s).1
call u (Call.work faults draws now) s = (run_once u faults draws now s).1
call u (Call.retain now) s = (sweep_once u now s).1
call u (Call.start_up now) s = (start u now s).1

unfoldable pub serve : Setup → List Call → EngineState → EngineState
unfolding call
serve u [] s = s
serve u (c ∷ cs) s = serve u cs (call u c s)

call-Reaches : (u : Setup) (c : Call) (s : EngineState) → Reaches s.db (call u c s).db
unfolding call
call-Reaches u (Call.ingest_event ev now) s = ingest-Reaches u ev now s
call-Reaches u (Call.release_held n now) s = release-Reaches u n now s
call-Reaches u (Call.replay_event n now) s = replay-Reaches u n now s
call-Reaches u (Call.work faults draws now) s = run_once-Reaches u faults draws now s
call-Reaches u (Call.retain now) s = sweep_once-Reaches u now s
call-Reaches u (Call.start_up now) s = start-Reaches u now s

pub serve-Reaches : (u : Setup) (cs : List Call) (s : EngineState) → Reaches s.db (serve u cs s).db
unfolding serve
serve-Reaches u [] s = Reaches-refl s.db
serve-Reaches u (c ∷ cs) s = Reaches-trans (call-Reaches u c s) (serve-Reaches u cs (call u c s))

-- From tables that keep the promises of the schema (ids and deduplication keys are distinct, every
-- delivery has its event and every dead letter its delivery, ids in use are below the next one),
-- every sequence of the engine's entry points, under every configuration, whatever the sinks and the
-- detector answer and whichever attempts raise, ends in tables that keep them.
pub serve-IsWellFormed :
    (u : Setup) (cs : List Call) (s : EngineState)
    → IsWellFormed s.db
    → IsWellFormed (serve u cs s).db
serve-IsWellFormed u cs s w = Reaches-IsWellFormed (serve-Reaches u cs s) w
