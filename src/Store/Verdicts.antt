-- ===== src/Store/Verdicts.antt =====
-- The detector's verdict and the release from quarantine
-- (webhook_doorman/store/sqlite.py, `record_detection` and `release_event`). Each is one UPDATE
-- that tests the status in the same statement.
use webhook_doorman.Prelude.{ℕ, Bool, ◌&&◌, Option, none}
use webhook_doorman.Prelude.Tests.{◌==◌}
use webhook_doorman.Prelude.Lists.{count, update_where}
use webhook_doorman.Models.{EventStatus, DetectionResult, is_received, is_quarantined}
use webhook_doorman.Store.Tables.{EventRow, Db, event_is}

unfoldable pub record_detection : ℕ → Option DetectionResult → EventStatus → Option ℕ → Db → Db
record_detection event_id detection status quarantined_at db = record db {
  events =
      update_where (λ e. event_is event_id e && is_received e.status)
        (λ e. record e { detection = detection; status = status; quarantined_at = quarantined_at })
        db.events;
}

unfoldable pub release_event : ℕ → Db → Bool × Db
release_event event_id db =
    let hit = λ (e : EventRow). event_is event_id e && is_quarantined e.status in
    (
      count hit db.events == 1,
      record db {
        events =
            update_where hit
              (λ e. record e { status = EventStatus.received; quarantined_at = none }) db.events;
      },
    )
