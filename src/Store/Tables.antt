-- ===== src/Store/Tables.antt =====
-- The tables of webhook_doorman/store/sqlite.py (`_SCHEMA`): a row type and a list of rows for
-- each, in insertion order, and the next AUTOINCREMENT value of each. A JSON column holds the value
-- that its text decodes to. An index is a matter of speed, except for the unique one on
-- (source, delivery_id), which `Store.Invariant` states.
use webhook_doorman.Prelude.{ℕ, Bool, List, Option, ◌&&◌}
use webhook_doorman.Prelude.Tests.{◌==◌}
use webhook_doorman.Prelude.Lists.{any}
use webhook_doorman.Prelude.Text.{Text, text_eq}
use webhook_doorman.Json.{Fields}
use webhook_doorman.Models.{EventStatus, DeliveryStatus, DetectionResult}

pub record EventRow : Type 0 where
  pub id : ℕ
  pub source : Text
  pub delivery_id : Text
  pub event_type : Text
  pub summary : Text
  pub received_at : ℕ
  pub headers : List (Text × Text)
  pub body : List ℕ
  pub context : Fields
  pub verified : Bool
  pub status : EventStatus
  pub untrusted_fields : List Text
  pub detection : Option DetectionResult
  pub quarantined_at : Option ℕ
  pub sinks : Option (List Text)

pub record DeliveryRow : Type 0 where
  pub id : ℕ
  pub event_id : ℕ
  pub sink : Text
  pub attempt : ℕ
  pub status : DeliveryStatus
  pub response_code : Option ℕ
  pub latency_ms : Option ℕ
  pub error : Option Text
  pub next_attempt_at : Option ℕ
  pub updated_at : ℕ

pub record DlqRow : Type 0 where
  pub id : ℕ
  pub delivery_id : ℕ
  pub exhausted_at : ℕ
  pub last_error : Text

pub record Db : Type 0 where
  pub events : List EventRow
  pub deliveries : List DeliveryRow
  pub dlq : List DlqRow
  pub next_event : ℕ
  pub next_delivery : ℕ
  pub next_dlq : ℕ

-- What a statement gives: its value, or the IntegrityError of a foreign key.
pub data Outcome (A : Type 0) : Type 0 where
  ok : A → Outcome A
  integrity_error : Outcome A

abbrev pub event_is : ℕ → EventRow → Bool
event_is n e = e.id == n

abbrev pub delivery_is : ℕ → DeliveryRow → Bool
delivery_is n d = d.id == n

-- `WHERE event_id = ?`.
abbrev pub belongs_to : ℕ → DeliveryRow → Bool
belongs_to n d = d.event_id == n

-- `WHERE source = ? AND delivery_id = ?`.
abbrev pub has_key : Text → Text → EventRow → Bool
has_key s k e = text_eq e.source s && text_eq e.delivery_id k

abbrev pub has_event : ℕ → Db → Bool
has_event n db = any (event_is n) db.events

abbrev pub has_delivery : ℕ → Db → Bool
has_delivery n db = any (delivery_is n) db.deliveries
