-- ===== src/Store/Listing.antt =====
-- The pages that the admin API reads and the counts of `/health`
-- (webhook_doorman/store/sqlite.py, `list_held`, `list_dlq` and `stats`).
use webhook_doorman.Prelude.{ℕ, Bool, true, ◌&&◌, Option, none, some, List, [], ◌∷◌, ◌++◌, map}
use webhook_doorman.Prelude.Tests.{if◌then◌else◌, ltb, leb}
use webhook_doorman.Prelude.Lists.{find, filter, count, take, length}
use webhook_doorman.Prelude.Sort.{sort_by}
use webhook_doorman.Prelude.Text.{Text}
use webhook_doorman.Models.{DeliveryStatus, DetectionResult, HeldEntry, DlqEntry, is_quarantined}
use webhook_doorman.Store.Tables.{EventRow, DeliveryRow, DlqRow, Db, event_is, delivery_is}

-- `AND id < ?`, where a cursor was given.
abbrev pub before : Option ℕ → ℕ → Bool
before none n = true
before (some cursor) n = ltb n cursor

-- `ORDER BY id DESC`.
abbrev pub newer_event : EventRow → EventRow → Bool
newer_event a b = leb b.id a.id

abbrev pub rules_of : Option DetectionResult → List Text
rules_of none = []
rules_of (some d) = d.rules

abbrev pub score_of : Option DetectionResult → Option ℕ
score_of none = none
score_of (some d) = some d.score

abbrev pub held_entry : EventRow → HeldEntry
held_entry e = record {
  event_id = e.id;
  source = e.source;
  event_type = e.event_type;
  score = score_of e.detection;
  rules = rules_of e.detection;
  quarantined_at = e.quarantined_at;
}

abbrev pub held_rows : Option ℕ → Db → List EventRow
held_rows before_id db = filter (λ e. is_quarantined e.status && before before_id e.id) db.events

unfoldable pub list_held : ℕ → Option ℕ → Db → List HeldEntry
list_held limit before_id db =
    map held_entry (take limit (sort_by newer_event (held_rows before_id db)))

-- One row of the join of `dlq`, `deliveries` and `events`.
abbrev pub joined_event : DlqRow → DeliveryRow → Option EventRow → List DlqEntry
joined_event q d none = []
joined_event q d (some e) =
    record {
      id = q.id;
      event_id = d.event_id;
      source = e.source;
      sink = d.sink;
      attempt = d.attempt;
      response_code = d.response_code;
      error = q.last_error;
      exhausted_at = q.exhausted_at;
    }
    ∷ []

abbrev pub joined : DlqRow → Option DeliveryRow → Db → List DlqEntry
joined q none db = []
joined q (some d) db = joined_event q d (find (event_is d.event_id) db.events)

abbrev pub newer_entry : DlqEntry → DlqEntry → Bool
newer_entry a b = leb b.id a.id

-- The joined rows that the WHERE leaves.
unfoldable pub dlq_rows : Option ℕ → Db → List DlqRow → List DlqEntry
dlq_rows before_id db [] = []
dlq_rows before_id db (q ∷ qs) =
    let rest = dlq_rows before_id db qs in
    if before before_id q.id
    then joined q (find (delivery_is q.delivery_id) db.deliveries) db ++ rest
    else rest

unfoldable pub list_dlq : ℕ → Option ℕ → Db → List DlqEntry
unfolding dlq_rows
list_dlq limit before_id db = take limit (sort_by newer_entry (dlq_rows before_id db db.dlq))

pub record Stats : Type 0 where
  pub events : ℕ
  pub deliveries : ℕ
  pub dlq : ℕ
  pub by_status : DeliveryStatus → ℕ
  pub events_quarantined : ℕ

abbrev pub status_eq : DeliveryStatus → DeliveryStatus → Bool
status_eq DeliveryStatus.pending DeliveryStatus.pending = true
status_eq DeliveryStatus.in_flight DeliveryStatus.in_flight = true
status_eq DeliveryStatus.delivered DeliveryStatus.delivered = true
status_eq DeliveryStatus.failed DeliveryStatus.failed = true
status_eq DeliveryStatus.exhausted DeliveryStatus.exhausted = true
status_eq _ _ = Bool.false

-- A status that no row has is missing from the source's dictionary, and 0 here.
unfoldable pub stats : Db → Stats
stats db = record {
  events = length db.events;
  deliveries = length db.deliveries;
  dlq = length db.dlq;
  by_status = λ s. count (λ d. status_eq s d.status) db.deliveries;
  events_quarantined = count (λ e. is_quarantined e.status) db.events;
}
