-- ===== src/Store/Ingest.antt =====
-- The ingest half of `SqliteStore` (webhook_doorman/store/sqlite.py): recording an event once per
-- delivery key, queueing its deliveries, and reading an event back.
use webhook_doorman.Prelude.{
  ℕ, suc, Bool, true, false, not, ◌&&◌, Option, none, some, List, [], ◌∷◌, ◌++◌,
}
use webhook_doorman.Prelude.Tests.{if◌then◌else◌, is_some}
use webhook_doorman.Prelude.Lists.{any, find}
use webhook_doorman.Prelude.Text.{Text}
use webhook_doorman.Prelude.Utf8.{encode}
use webhook_doorman.Json.{Value}
use webhook_doorman.Models.{DeliveryStatus, InboundEvent, StoredEvent, is_received}
use webhook_doorman.Store.Tables.{
  EventRow, DeliveryRow, Db, Outcome, ok, integrity_error, event_is, belongs_to, has_key, has_event,
}

-- The columns that the INSERT of `record_event` writes.
unfoldable pub event_row : ℕ → InboundEvent → EventRow
event_row n ev = record {
  id = n;
  source = ev.source;
  delivery_id = ev.delivery_id;
  event_type = ev.event_type;
  summary = ev.summary;
  received_at = ev.received_at;
  headers = ev.headers;
  body = ev.body;
  context = ev.context;
  verified = ev.verified;
  status = ev.status;
  untrusted_fields = ev.untrusted_fields;
  detection = none;
  quarantined_at = none;
  sinks = some ev.sinks;
}

abbrev pub insert_event : InboundEvent → Db → Db
insert_event ev db = record db {
  events = db.events ++ event_row db.next_event ev ∷ [];
  next_event = suc db.next_event;
}

-- The id of the row that holds the key already, and 0 where there is none.
abbrev pub original_id : Option EventRow → ℕ
original_id none = 0
original_id (some e) = e.id

-- Can SQLite bind the columns that are the event's own texts? A text with a lone surrogate has no
-- UTF-8, and `execute` raises `UnicodeEncodeError` before it runs anything. The other text columns are
-- `json.dumps`, which spells every character in ASCII, or ASCII by themselves.
unfoldable pub is_bound : InboundEvent → Bool
is_bound ev =
    is_some (encode ev.source)
    && is_some (encode ev.delivery_id)
    && is_some (encode ev.event_type)
    && is_some (encode ev.summary)

-- `(event_id, is_duplicate)`, and the tables after the INSERT OR IGNORE, of an event that `is_bound`.
-- Of any other it raises, and its caller does not get here (`ingest_built` of App/Handler). A column
-- that is JSON, a time, a status or a flag is kept here as what it is read back as.
unfoldable pub record_event : InboundEvent → Db → (ℕ × Bool) × Db
unfolding event_row
record_event ev db =
    if any (has_key ev.source ev.delivery_id) db.events
    then ((original_id (find (has_key ev.source ev.delivery_id) db.events), true), db)
    else ((db.next_event, false), insert_event ev db)

-- One row of the INSERT into `deliveries`.
unfoldable pub new_delivery : ℕ → ℕ → Text → ℕ → DeliveryRow
new_delivery n event_id sink now = record {
  id = n;
  event_id = event_id;
  sink = sink;
  attempt = 0;
  status = DeliveryStatus.pending;
  response_code = none;
  latency_ms = none;
  error = none;
  next_attempt_at = some now;
  updated_at = now;
}

-- A row for each sink, in order, and the ids that they get.
unfoldable pub insert_deliveries : ℕ → List Text → ℕ → Db → List ℕ × Db
insert_deliveries event_id [] now db = ([], db)
insert_deliveries event_id (sink ∷ sinks) now db =
    let (ids, db') = insert_deliveries event_id sinks now (record db {
      deliveries = db.deliveries ++ new_delivery db.next_delivery event_id sink now ∷ [];
      next_delivery = suc db.next_delivery;
    }) in
    (db.next_delivery ∷ ids, db')

-- The foreign key on `event_id` refuses the first INSERT, and so all, of an event that is gone.
unfoldable pub enqueue_deliveries : ℕ → List Text → ℕ → Db → Outcome (List ℕ) × Db
enqueue_deliveries event_id [] now db = (ok [], db)
enqueue_deliveries event_id (sink ∷ sinks) now db =
    if has_event event_id db
    then (let (ids, db') = insert_deliveries event_id (sink ∷ sinks) now db in (ok ids, db'))
    else (integrity_error, db)

unfoldable pub has_deliveries : ℕ → Db → Bool
has_deliveries event_id db = any (belongs_to event_id) db.deliveries

-- `EXISTS (SELECT 1 FROM events WHERE id = ? AND status = 'received')`.
abbrev pub is_received_event : ℕ → Db → Bool
is_received_event event_id db = any (λ e. event_is event_id e && is_received e.status) db.events

unfoldable pub enqueue_first_deliveries : ℕ → List Text → ℕ → Db → List ℕ × Db
unfolding has_deliveries
enqueue_first_deliveries event_id [] now db = ([], db)
enqueue_first_deliveries event_id (sink ∷ sinks) now db =
    if not (has_deliveries event_id db) && is_received_event event_id db
    then insert_deliveries event_id (sink ∷ sinks) now db
    else ([], db)

-- `json.loads` is the caller's argument, with `null` for a body that it refuses (`_safe_json`).
module _ (safe_json : List ℕ → Value) where
  unfoldable pub stored_event : EventRow → StoredEvent
  stored_event e = record {
    id = e.id;
    source = e.source;
    delivery_id = e.delivery_id;
    event_type = e.event_type;
    summary = e.summary;
    headers = e.headers;
    body = e.body;
    payload = safe_json e.body;
    context = e.context;
    verified = e.verified;
    status = e.status;
    received_at = e.received_at;
    untrusted_fields = e.untrusted_fields;
    sinks = e.sinks;
  }

  unfoldable pub get_event : ℕ → Db → Option StoredEvent
  get_event event_id db = elim (find (event_is event_id) db.events) [
    | none ↦ none
    | some e ↦ some (stored_event e)
  ]
