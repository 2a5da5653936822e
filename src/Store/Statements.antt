-- ===== src/Store/Statements.antt =====
-- The SQL statements of webhook_doorman/store/sqlite.py as data, and the methods as sequences of
-- them. The connection is in autocommit mode (`isolation_level=None`), so the coroutines of the
-- process interleave at the boundaries of statements: a run of the process is a list of
-- `Statement`s, in any order.
use webhook_doorman.Prelude.{ℕ, Option, none, some, List, [], ◌∷◌}
use webhook_doorman.Prelude.Tests.{if◌then◌else◌}
use webhook_doorman.Prelude.Lists.{find, update_where}
use webhook_doorman.Prelude.Text.{Text}
use webhook_doorman.Models.{EventStatus, DeliveryStatus, InboundEvent, DetectionResult}
use webhook_doorman.Store.Tables.{DeliveryRow, Db, event_is, delivery_is, has_delivery}
use webhook_doorman.Store.Ingest.{record_event, enqueue_deliveries, enqueue_first_deliveries}
use webhook_doorman.Store.Claims.{
  claim_due_deliveries, release_claim, after_attempt, insert_dlq, requeue_incomplete,
}
use webhook_doorman.Store.Verdicts.{record_detection, release_event}
use webhook_doorman.Store.Sweep.{sweep_dlq, sweep_events}

-- `attempt`, `write_dlq` and `settle` are the statements of `mark_delivered`, `mark_retry` and
-- `mark_exhausted`; `settle` names its event by the delivery whose row gave the event's id.
pub data Statement : Type 0 where
  ingest : InboundEvent → Statement
  enqueue : ℕ → List Text → ℕ → Statement
  enqueue_first : ℕ → List Text → ℕ → Statement
  claim : ℕ → ℕ → Statement
  hand_back : ℕ → ℕ → ℕ → Statement
  attempt : ℕ → DeliveryStatus → Option ℕ → ℕ → Option Text → Option ℕ → ℕ → Statement
  write_dlq : ℕ → ℕ → Text → Statement
  settle : ℕ → EventStatus → Statement
  requeue : ℕ → Statement
  detect : ℕ → Option DetectionResult → EventStatus → Option ℕ → Statement
  release : ℕ → Statement
  drop_dlq : ℕ → Statement
  drop_events : ℕ → Statement

-- `UPDATE deliveries SET … WHERE id = ?`.
unfoldable pub exec_attempt :
    ℕ → DeliveryStatus → Option ℕ → ℕ → Option Text → Option ℕ → ℕ → Db → Db
exec_attempt id status code latency error next now db = record db {
  deliveries =
      update_where (delivery_is id) (after_attempt status code latency error next now)
        db.deliveries;
}

-- `UPDATE events SET status = ? WHERE id = ?`.
unfoldable pub settle_row : Option DeliveryRow → EventStatus → Db → Db
settle_row none status db = db
settle_row (some d) status db = record db {
  events = update_where (event_is d.event_id) (λ e. record e { status = status }) db.events;
}

unfoldable pub exec_settle : ℕ → EventStatus → Db → Db
unfolding settle_row
exec_settle id status db = settle_row (find (delivery_is id) db.deliveries) status db

-- A foreign key refuses the row of a delivery that is gone.
unfoldable pub exec_write_dlq : ℕ → ℕ → Text → Db → Db
exec_write_dlq id at error db = if has_delivery id db then insert_dlq id at error db else db

unfoldable pub exec : Statement → Db → Db
exec (Statement.ingest ev) db = (record_event ev db).1
exec (Statement.enqueue e sinks now) db = (enqueue_deliveries e sinks now db).1
exec (Statement.enqueue_first e sinks now) db = (enqueue_first_deliveries e sinks now db).1
exec (Statement.claim now limit) db = (claim_due_deliveries now limit db).1
exec (Statement.hand_back id next now) db = (release_claim id next now db).1
exec (Statement.attempt id status code latency error next now) db =
    exec_attempt id status code latency error next now db
exec (Statement.write_dlq id at error) db = exec_write_dlq id at error db
exec (Statement.settle id status) db = exec_settle id status db
exec (Statement.requeue now) db = (requeue_incomplete now db).1
exec (Statement.detect e detection status at) db = record_detection e detection status at db
exec (Statement.release e) db = (release_event e db).1
exec (Statement.drop_dlq t) db = sweep_dlq t db
exec (Statement.drop_events t) db = sweep_events t db

-- The statements in the order in which the database took them.
unfoldable pub run : List Statement → Db → Db
run [] db = db
run (s ∷ ss) db = run ss (exec s db)

-- The tables that `_SCHEMA` creates; AUTOINCREMENT starts at 1.
abbrev pub fresh : Db
fresh = record {
  events = [];
  deliveries = [];
  dlq = [];
  next_event = 1;
  next_delivery = 1;
  next_dlq = 1;
}
