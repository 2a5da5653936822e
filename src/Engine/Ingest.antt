-- ===== src/Engine/Ingest.antt =====
-- Persisting a verified event and queueing its deliveries (webhook_doorman/engine.py, `_ingest`,
-- `_resume` and `_sinks_for`). `now` is the reading of the clock for the one call.
use webhook_doorman.Prelude.{ℕ, Bool, true, false, Option, none, some, List, [], ◌∷◌, map}
use webhook_doorman.Prelude.Tests.{if◌then◌else◌}
use webhook_doorman.Prelude.Lists.{filter}
use webhook_doorman.Prelude.Sort.{sort_by}
use webhook_doorman.Prelude.Text.{Text, contains}
use webhook_doorman.Models.{InboundEvent, StoredEvent, FilterVerdict, is_received, is_filtered}
use webhook_doorman.Filtering.{route}
use webhook_doorman.Context.{inbound_view, stored_view}
use webhook_doorman.Store.Ingest.{record_event, get_event, has_deliveries, enqueue_first_deliveries}
use webhook_doorman.Engine.Setup.{
  Setup, SourceEntry, Metric, EngineState, increment, with_db, Response, text_le,
}
use webhook_doorman.Engine.Screening.{screen}

module _ (u : Setup) where
  abbrev pub routed : Option SourceEntry → StoredEvent → List Text
  routed none e = []
  routed (some source) e = (route u.container_text source.routes e.event_type e.payload).0

  -- The sinks that the event routes to under the current configuration.
  unfoldable pub sinks_for : StoredEvent → List Text
  sinks_for e = routed (u.source_by_name e.source) e

  -- Queue the first deliveries, unless a concurrent redelivery got there first.
  abbrev pub resumed : ℕ → List ℕ × EngineState → Option Response × EngineState
  resumed event_id ([], s) = (none, s)
  resumed event_id (id ∷ ids, s) = (some (Response.resumed event_id), s)

  abbrev pub enqueue_first : ℕ → List Text → ℕ → EngineState → List ℕ × EngineState
  enqueue_first event_id sinks now s =
      let (ids, db) = enqueue_first_deliveries event_id sinks now s.db in (ids, with_db db s)

  -- The event was not withheld: queue and answer.
  abbrev pub resume_screened :
      ℕ → List Text → ℕ → Option Response × EngineState → Option Response × EngineState
  resume_screened event_id sinks now (some body, s) = (some body, s)
  resume_screened event_id sinks now (none, s) =
      resumed event_id (enqueue_first event_id sinks now s)

  abbrev pub resume_sinks :
      StoredEvent → ℕ → List Text → ℕ → EngineState → Option Response × EngineState
  resume_sinks e event_id [] now s = (none, s)
  resume_sinks e event_id (sink ∷ sinks) now s =
      resume_screened event_id (sink ∷ sinks) now (screen u (stored_view e) event_id now s)

  -- The sinks of the stored decision that the current routes still accept.
  unfoldable pub narrowed : List Text → StoredEvent → List Text
  unfolding sinks_for
  narrowed sinks e = filter (λ sink. contains (sinks_for e) sink) sinks

  unfoldable pub resume_stored :
      StoredEvent → ℕ → Option (List Text) → ℕ → EngineState → Option Response × EngineState
  unfolding narrowed
  resume_stored e event_id none now s = (none, s)
  resume_stored e event_id (some []) now s = (none, s)
  resume_stored e event_id (some (sink ∷ sinks)) now s =
      if has_deliveries event_id s.db
      then (none, s)
      else resume_sinks e event_id (narrowed (sink ∷ sinks) e) now s

  unfoldable pub resume_event :
      Option StoredEvent → ℕ → ℕ → EngineState → Option Response × EngineState
  unfolding resume_stored
  resume_event none event_id now s = (none, s)
  resume_event (some e) event_id now s =
      if is_received e.status then resume_stored e event_id e.sinks now s else (none, s)

  unfoldable pub resume : ℕ → ℕ → EngineState → Option Response × EngineState
  unfolding resume_event
  resume event_id now s = resume_event (get_event u.safe_json event_id s.db) event_id now s

  -- An ordinary duplicate is counted and answered as one.
  abbrev pub answer_duplicate : Text → ℕ → Option Response × EngineState → Response × EngineState
  answer_duplicate source event_id (some r, s) = (r, s)
  answer_duplicate source event_id (none, s) =
      (Response.deduplicated event_id, increment (Metric.events_deduplicated source) s)

  -- The loop over `event.filtered_sinks`.
  unfoldable pub count_refusals : Text → List (Text × FilterVerdict) → EngineState → EngineState
  count_refusals source [] s = s
  count_refusals source ((sink, verdict) ∷ rest) s =
      count_refusals source rest
        (increment (Metric.deliveries_filtered source sink verdict.reason) s)

  abbrev pub refused_name : Text × FilterVerdict → Text
  refused_name p = p.0

  abbrev pub dispatch_screened :
      ℕ → List Text → ℕ → Option Response × EngineState → Response × EngineState
  dispatch_screened event_id sinks now (some body, s) = (body, s)
  dispatch_screened event_id sinks now (none, s) =
      (Response.accepted event_id, (enqueue_first event_id sinks now s).1)

  abbrev pub dispatch_new : InboundEvent → ℕ → List Text → ℕ → EngineState → Response × EngineState
  dispatch_new ev event_id [] now s = (Response.ignored event_id, s)
  dispatch_new ev event_id (sink ∷ sinks) now s =
      dispatch_screened event_id (sink ∷ sinks) now (screen u (inbound_view ev) event_id now s)

  -- A newly stored event.
  unfoldable pub ingest_new : InboundEvent → ℕ → ℕ → EngineState → Response × EngineState
  unfolding count_refusals
  ingest_new ev event_id now s =
      let counted =
        count_refusals ev.source ev.filtered_sinks
          (increment (Metric.events_received ev.source) s) in
      if is_filtered ev.status
      then (
        Response.filtered event_id ev.filter_reason
            (sort_by text_le (map refused_name ev.filtered_sinks)),
        increment (Metric.events_filtered ev.source ev.filter_reason) counted,
      )
      else dispatch_new ev event_id ev.sinks now counted

  abbrev pub ingest_recorded : InboundEvent → ℕ × Bool → ℕ → EngineState → Response × EngineState
  ingest_recorded ev (event_id, true) now s =
      answer_duplicate ev.source event_id (resume event_id now s)
  ingest_recorded ev (event_id, false) now s = ingest_new ev event_id now s

  unfoldable pub ingest : InboundEvent → ℕ → EngineState → Response × EngineState
  unfolding resume ingest_new
  ingest ev now s = let (id, db) = record_event ev s.db in ingest_recorded ev id now (with_db db s)
