-- ===== src/Store/Sweep.antt =====
-- The retention sweep of `SqliteStore` (webhook_doorman/store/sqlite.py, `sweep`), with the
-- ON DELETE CASCADE of its two foreign keys, which `PRAGMA foreign_keys=ON` enforces.
use webhook_doorman.Prelude.{ℕ, Bool, not, ◌&&◌}
use webhook_doorman.Prelude.Tests.{ltb}
use webhook_doorman.Prelude.Lists.{any, count, filter}
use webhook_doorman.Models.{is_open}
use webhook_doorman.Store.Tables.{
  EventRow, DeliveryRow, DlqRow, Db, belongs_to, event_is, delivery_is,
}

-- Has the event a delivery that is pending or in flight?
abbrev pub has_open : ℕ → Db → Bool
has_open event_id db = any (λ d. belongs_to event_id d && is_open d.status) db.deliveries

-- The WHERE of the DELETE from `events`.
abbrev pub is_swept : ℕ → Db → EventRow → Bool
is_swept events_before db e = ltb e.received_at events_before && not (has_open e.id db)

-- The rows that the cascade removes with the swept events.
abbrev pub delivery_swept : ℕ → Db → DeliveryRow → Bool
delivery_swept events_before db d =
    any (λ e. event_is d.event_id e && is_swept events_before db e) db.events

abbrev pub dlq_swept : ℕ → Db → DlqRow → Bool
dlq_swept events_before db q =
    any (λ d. delivery_is q.delivery_id d && delivery_swept events_before db d) db.deliveries

-- The DELETE from `dlq`.
abbrev pub sweep_dlq : ℕ → Db → Db
sweep_dlq dlq_before db = record db {
  dlq = filter (λ q. not (ltb q.exhausted_at dlq_before)) db.dlq;
}

-- The DELETE from `events`, and its cascade.
abbrev pub sweep_events : ℕ → Db → Db
sweep_events events_before db = record db {
  events = filter (λ e. not (is_swept events_before db e)) db.events;
  deliveries = filter (λ d. not (delivery_swept events_before db d)) db.deliveries;
  dlq = filter (λ q. not (dlq_swept events_before db q)) db.dlq;
}

-- `(events_deleted, dlq_deleted)`, and the tables after both.
unfoldable pub sweep : ℕ → ℕ → Db → (ℕ × ℕ) × Db
sweep events_before dlq_before db =
    let kept = sweep_dlq dlq_before db in
    (
      (
        count (is_swept events_before kept) db.events,
        count (λ q. ltb q.exhausted_at dlq_before) db.dlq,
      ),
      sweep_events events_before kept,
    )
