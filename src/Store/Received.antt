-- ===== src/Store/Received.antt =====
-- The abstract log of received events (webhook_doorman/store/base.py, `Store.record_event`): a function
-- from keys to what the producer's request gave, in which the first write of a key stays.
use webhook_doorman.Prelude.{ℕ, Bool, true, false, ◌&&◌, Option, none, some, List, [], ◌∷◌}
use webhook_doorman.Prelude.Lists.{find}
use webhook_doorman.Prelude.Text.{Text, text_eq}
use webhook_doorman.Json.{Fields}
use webhook_doorman.Models.{InboundEvent}
use webhook_doorman.Store.Tables.{EventRow, Db, has_key}
use webhook_doorman.Store.Statements.{Statement}

-- What of an event is written once: all that the producer's request gave.
pub record Received : Type 0 where
  pub event_type : Text
  pub summary : Text
  pub received_at : ℕ
  pub headers : List (Text × Text)
  pub body : List ℕ
  pub context : Fields
  pub verified : Bool
  pub untrusted_fields : List Text
  pub sinks : Option (List Text)

abbrev pub received_row : EventRow → Received
received_row e = record {
  event_type = e.event_type;
  summary = e.summary;
  received_at = e.received_at;
  headers = e.headers;
  body = e.body;
  context = e.context;
  verified = e.verified;
  untrusted_fields = e.untrusted_fields;
  sinks = e.sinks;
}

abbrev pub received_event : InboundEvent → Received
received_event ev = record {
  event_type = ev.event_type;
  summary = ev.summary;
  received_at = ev.received_at;
  headers = ev.headers;
  body = ev.body;
  context = ev.context;
  verified = ev.verified;
  untrusted_fields = ev.untrusted_fields;
  sinks = some ev.sinks;
}

abbrev pub is_key : Text → Text → InboundEvent → Bool
is_key source id ev = text_eq ev.source source && text_eq ev.delivery_id id

abbrev pub received : Option EventRow → Option Received
received none = none
received (some e) = some (received_row e)

-- What the table holds under a key.
unfoldable pub log : Db → Text → Text → Option Received
log db source id = received (find (has_key source id) db.events)

-- The abstract log takes a key that it does not have, and keeps one that it has.
abbrev pub first_write : Bool → InboundEvent → Option Received → Option Received
first_write same ev (some r) = some r
first_write true ev none = some (received_event ev)
first_write false ev none = none

abbrev pub log_step : Statement → Text → Text → Option Received → Option Received
log_step (Statement.ingest ev) source id old = first_write (is_key source id ev) ev old
log_step s source id old = old

unfoldable pub replay_log : List Statement → Text → Text → Option Received → Option Received
replay_log [] source id old = old
replay_log (s ∷ ss) source id old = replay_log ss source id (log_step s source id old)

-- The sweep of old events is the one statement that takes a row out of the log.
abbrev pub keeps_rows : Statement → Bool
keeps_rows (Statement.drop_events t) = false
keeps_rows s = true
