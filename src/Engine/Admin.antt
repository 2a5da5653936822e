-- ===== src/Engine/Admin.antt =====
-- The operator's two interventions (webhook_doorman/engine.py, `release` and `replay`).
use webhook_doorman.Prelude.{ℕ, Bool, true, false, Option, none, some, List, [], ◌∷◌}
use webhook_doorman.Prelude.Tests.{if◌then◌else◌}
use webhook_doorman.Prelude.Text.{Text}
use webhook_doorman.Models.{StoredEvent, EventStatus, is_quarantined, is_withheld}
use webhook_doorman.Store.Tables.{Db, Outcome, ok}
use webhook_doorman.Store.Ingest.{get_event, enqueue_deliveries}
use webhook_doorman.Store.Verdicts.{release_event}
use webhook_doorman.Engine.Setup.{Setup, EngineState, with_db, AdminResponse}
use webhook_doorman.Engine.Ingest.{sinks_for, enqueue_first}

abbrev pub status_of_stored : Option StoredEvent → Option EventStatus
status_of_stored none = none
status_of_stored (some e) = some e.status

module _ (u : Setup) where
  abbrev pub release_to : ℕ → List Text → ℕ → EngineState → AdminResponse × EngineState
  release_to event_id [] now s = (AdminResponse.no_sinks event_id, s)
  release_to event_id (sink ∷ sinks) now s = (
    AdminResponse.released event_id (sink ∷ sinks),
    (enqueue_first u event_id (sink ∷ sinks) now s).1,
  )

  -- The conditional write decides; the answer then names the state that is there now.
  abbrev pub release_won :
      StoredEvent → ℕ → ℕ → Bool × Db → EngineState → AdminResponse × EngineState
  release_won e event_id now (true, db) s = release_to event_id (sinks_for u e) now (with_db db s)
  release_won e event_id now (false, db) s = (
    AdminResponse.not_quarantined event_id (status_of_stored (get_event u.safe_json event_id db)),
    with_db db s,
  )

  unfoldable pub release_stored :
      Option StoredEvent → ℕ → ℕ → EngineState → AdminResponse × EngineState
  unfolding sinks_for
  release_stored none event_id now s = (AdminResponse.not_found, s)
  release_stored (some e) event_id now s =
      if is_quarantined e.status
      then release_won e event_id now (release_event event_id s.db) s
      else (AdminResponse.not_quarantined event_id (some e.status), s)

  unfoldable pub release : ℕ → ℕ → EngineState → AdminResponse × EngineState
  unfolding release_stored
  release event_id now s = release_stored (get_event u.safe_json event_id s.db) event_id now s

  abbrev pub replayed :
      ℕ → List Text → Outcome (List ℕ) × Db → EngineState → AdminResponse × EngineState
  replayed event_id sinks (ok ids, db) s = (AdminResponse.replayed event_id sinks, with_db db s)
  replayed event_id sinks (Outcome.integrity_error, db) s =
      (AdminResponse.integrity_error, with_db db s)

  abbrev pub replay_to : ℕ → List Text → ℕ → EngineState → AdminResponse × EngineState
  replay_to event_id [] now s = (AdminResponse.no_sinks event_id, s)
  replay_to event_id (sink ∷ sinks) now s =
      replayed event_id (sink ∷ sinks) (enqueue_deliveries event_id (sink ∷ sinks) now s.db) s

  -- The part of `replay` after its read: the event as it was read, and the state at the INSERT.
  unfoldable pub replay_stored :
      Option StoredEvent → ℕ → ℕ → EngineState → AdminResponse × EngineState
  unfolding sinks_for
  replay_stored none event_id now s = (AdminResponse.not_found, s)
  replay_stored (some e) event_id now s =
      if is_withheld e.status
      then (AdminResponse.not_replayable event_id e.status, s)
      else replay_to event_id (sinks_for u e) now s

  unfoldable pub replay : ℕ → ℕ → EngineState → AdminResponse × EngineState
  unfolding replay_stored
  replay event_id now s = replay_stored (get_event u.safe_json event_id s.db) event_id now s
