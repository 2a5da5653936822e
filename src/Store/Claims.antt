-- ===== src/Store/Claims.antt =====
-- The delivery half of `SqliteStore` (webhook_doorman/store/sqlite.py): claiming what is due, the
-- outcome of an attempt, rolling outcomes up to the event, and the requeue at startup.
use webhook_doorman.Prelude.{
  ℕ, suc, ◌+◌, Bool, true, false, ◌&&◌, ◌||◌, Option, none, some, List, [], ◌∷◌, ◌++◌, map,
}
use webhook_doorman.Prelude.Tests.{if◌then◌else◌, ltb, leb, ◌==◌}
use webhook_doorman.Prelude.Lists.{any, find, filter, count, take, update_where}
use webhook_doorman.Prelude.Sort.{sort_by}
use webhook_doorman.Prelude.Text.{Text}
use webhook_doorman.Models.{
  EventStatus, DeliveryStatus, Delivery, is_pending, is_in_flight, is_open, is_exhausted,
}
use webhook_doorman.Store.Tables.{
  DeliveryRow, Db, Outcome, ok, integrity_error, event_is, delivery_is, belongs_to, has_delivery,
}

-- `next_attempt_at IS NULL OR next_attempt_at <= ?`.
abbrev pub reached : ℕ → Option ℕ → Bool
reached now none = true
reached now (some t) = leb t now

abbrev pub is_due : ℕ → DeliveryRow → Bool
is_due now d = is_pending d.status && reached now d.next_attempt_at

-- ORDER BY puts NULL first.
abbrev pub time_le : Option ℕ → Option ℕ → Bool
time_le none b = true
time_le (some a) none = false
time_le (some a) (some b) = leb a b

abbrev pub due_le : DeliveryRow → DeliveryRow → Bool
due_le a b = time_le a.next_attempt_at b.next_attempt_at

-- The subquery of the claim: the first `limit` due rows by their time.
unfoldable pub due_rows : ℕ → ℕ → Db → List DeliveryRow
due_rows now limit db = take limit (sort_by due_le (filter (is_due now) db.deliveries))

-- `id IN (SELECT id …)`.
abbrev pub is_among : List DeliveryRow → DeliveryRow → Bool
is_among rows d = any (delivery_is d.id) rows

abbrev pub claimed : ℕ → DeliveryRow → DeliveryRow
claimed now d = record d { status = DeliveryStatus.in_flight; updated_at = now }

abbrev pub row_to_delivery : DeliveryRow → Delivery
row_to_delivery d = record {
  id = d.id;
  event_id = d.event_id;
  sink = d.sink;
  attempt = d.attempt;
  status = d.status;
  next_attempt_at = d.next_attempt_at;
  response_code = d.response_code;
  latency_ms = d.latency_ms;
  error = d.error;
}

-- RETURNING gives the rows as the UPDATE left them, in the order of the table.
unfoldable pub claim_due_deliveries : ℕ → ℕ → Db → List Delivery × Db
unfolding due_rows
claim_due_deliveries now limit db =
    let rows = due_rows now limit db in
    let after = update_where (is_among rows) (claimed now) db.deliveries in
    (map row_to_delivery (filter (is_among rows) after), record db { deliveries = after })

-- `WHERE id = ? AND status = 'in_flight'`.
abbrev pub is_held : ℕ → DeliveryRow → Bool
is_held delivery_id d = delivery_is delivery_id d && is_in_flight d.status

abbrev pub handed_back : ℕ → ℕ → DeliveryRow → DeliveryRow
handed_back next_attempt_at now d = record d {
  status = DeliveryStatus.pending;
  attempt = d.attempt + 1;
  next_attempt_at = some next_attempt_at;
  updated_at = now;
}

-- `rowcount == 1`, and the UPDATE of a delivery that is still claimed.
unfoldable pub release_claim : ℕ → ℕ → ℕ → Db → Bool × Db
release_claim delivery_id next_attempt_at now db = (
  count (is_held delivery_id) db.deliveries == 1,
  record db {
    deliveries = update_where (is_held delivery_id) (handed_back next_attempt_at now) db.deliveries;
  },
)

-- `error[:1000]`.
unfoldable pub error_prefix : Text → Text
error_prefix e = take 1000 e

-- The UPDATE that each of the three outcomes makes of its delivery.
abbrev pub after_attempt :
    DeliveryStatus → Option ℕ → ℕ → Option Text → Option ℕ → ℕ → DeliveryRow → DeliveryRow
after_attempt status code latency error next now d = record d {
  status = status;
  attempt = d.attempt + 1;
  response_code = code;
  latency_ms = some latency;
  error = error;
  next_attempt_at = next;
  updated_at = now;
}

abbrev pub open_deliveries : ℕ → Db → ℕ
open_deliveries event_id db = count (λ d. belongs_to event_id d && is_open d.status) db.deliveries

abbrev pub exhausted_deliveries : ℕ → Db → ℕ
exhausted_deliveries event_id db =
    count (λ d. belongs_to event_id d && is_exhausted d.status) db.deliveries

abbrev pub settled_status : Bool → EventStatus
settled_status any_failed = if any_failed then EventStatus.failed else EventStatus.dispatched

-- The part of `_settle_event_for` after the delivery's row has been found.
unfoldable pub settle_event : ℕ → Bool → Db → Db
settle_event event_id failed db = if ltb 0 (open_deliveries event_id db) then db else record db {
  events =
      update_where (event_is event_id)
        (λ e. record e {
          status = settled_status (failed || ltb 0 (exhausted_deliveries event_id db));
        })
        db.events;
}

unfoldable pub settle_found : Option DeliveryRow → Bool → Db → Db
unfolding settle_event
settle_found none failed db = db
settle_found (some d) failed db = settle_event d.event_id failed db

unfoldable pub settle_event_for : ℕ → Bool → Db → Db
unfolding settle_found
settle_event_for delivery_id failed db =
    settle_found (find (delivery_is delivery_id) db.deliveries) failed db

unfoldable pub mark_delivered : ℕ → Option ℕ → ℕ → ℕ → Db → Db
mark_delivered delivery_id response_code latency_ms now db =
    settle_event_for delivery_id false (record db {
      deliveries =
          update_where (delivery_is delivery_id)
            (after_attempt DeliveryStatus.delivered response_code latency_ms none none now)
            db.deliveries;
    })

unfoldable pub mark_retry : ℕ → Text → Option ℕ → ℕ → ℕ → ℕ → Db → Db
mark_retry delivery_id error response_code latency_ms next_attempt_at now db = record db {
  deliveries =
      update_where (delivery_is delivery_id)
        (after_attempt DeliveryStatus.pending response_code latency_ms (some (error_prefix error))
          (some next_attempt_at) now)
        db.deliveries;
}

-- The UPDATE of `mark_exhausted`, before its INSERT into `dlq`.
abbrev pub exhaust_row : ℕ → Text → Option ℕ → ℕ → ℕ → Db → Db
exhaust_row delivery_id error response_code latency_ms now db = record db {
  deliveries =
      update_where (delivery_is delivery_id)
        (after_attempt DeliveryStatus.exhausted response_code latency_ms (some (error_prefix error))
          none now)
        db.deliveries;
}

abbrev pub insert_dlq : ℕ → ℕ → Text → Db → Db
insert_dlq delivery_id exhausted_at error db = record db {
  dlq =
      db.dlq
      ++ record {
        id = db.next_dlq;
        delivery_id = delivery_id;
        exhausted_at = exhausted_at;
        last_error = error_prefix error;
      }
        ∷ [];
  next_dlq = suc db.next_dlq;
}

-- The foreign key of `dlq` refuses a delivery that is gone; the UPDATE has then matched no row.
unfoldable pub mark_exhausted : ℕ → Text → Option ℕ → ℕ → ℕ → Db → Outcome (Unit {0}) × Db
mark_exhausted delivery_id error response_code latency_ms exhausted_at db =
    let db' = exhaust_row delivery_id error response_code latency_ms exhausted_at db in
    if has_delivery delivery_id db
    then (ok tt, settle_event_for delivery_id true (insert_dlq delivery_id exhausted_at error db'))
    else (integrity_error, db')

abbrev pub requeued : ℕ → DeliveryRow → DeliveryRow
requeued now d = record d {
  status = DeliveryStatus.pending;
  next_attempt_at = some now;
  updated_at = now;
}

abbrev pub is_unsettled : DeliveryRow → Bool
is_unsettled d = is_open d.status

-- How many deliveries were open, and all of them made due now.
unfoldable pub requeue_incomplete : ℕ → Db → ℕ × Db
requeue_incomplete now db = (
  count is_unsettled db.deliveries,
  record db { deliveries = update_where is_unsettled (requeued now) db.deliveries },
)
