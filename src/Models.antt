-- ===== src/Models.antt =====
-- The data carried between the ingest path, the store and the engine
-- (webhook_doorman/models.py, and the verdict types of filtering.py and detect.py).
-- A `datetime` is a natural number of microseconds.
use webhook_doorman.Prelude.{ℕ, Bool, true, false, List, Option}
use webhook_doorman.Prelude.Text.{Text}
use webhook_doorman.Json.{Value, Fields}

pub data EventStatus : Type 0 where
  received dispatched failed filtered quarantined dropped : EventStatus

-- `failed` is declared by the source and never written by it.
pub data DeliveryStatus : Type 0 where
  pending in_flight delivered failed exhausted : DeliveryStatus

abbrev pub is_received : EventStatus → Bool
is_received EventStatus.received = true
is_received _ = false

abbrev pub is_quarantined : EventStatus → Bool
is_quarantined EventStatus.quarantined = true
is_quarantined _ = false

abbrev pub is_filtered : EventStatus → Bool
is_filtered EventStatus.filtered = true
is_filtered _ = false

-- A decision made about the event that keeps it from its sinks.
abbrev pub is_withheld : EventStatus → Bool
is_withheld EventStatus.filtered = true
is_withheld EventStatus.quarantined = true
is_withheld EventStatus.dropped = true
is_withheld _ = false

abbrev pub is_pending : DeliveryStatus → Bool
is_pending DeliveryStatus.pending = true
is_pending _ = false

abbrev pub is_in_flight : DeliveryStatus → Bool
is_in_flight DeliveryStatus.in_flight = true
is_in_flight _ = false

-- `status IN ('pending', 'in_flight')`.
abbrev pub is_open : DeliveryStatus → Bool
is_open DeliveryStatus.pending = true
is_open DeliveryStatus.in_flight = true
is_open _ = false

abbrev pub is_exhausted : DeliveryStatus → Bool
is_exhausted DeliveryStatus.exhausted = true
is_exhausted _ = false

-- `FILTER_REASONS`.
pub data Reason : Type 0 where
  event_type deny require sink : Reason

pub record FilterVerdict : Type 0 where
  pub admitted : Bool
  pub reason : Option Reason
  pub detail : Option Text

-- A score is in thousandths, as `round(total, 3)` leaves it.
pub record DetectionResult : Type 0 where
  pub score : ℕ
  pub backend : Text
  pub rules : List Text
  pub model_version : Option Text

pub record InboundEvent : Type 0 where
  pub source : Text
  pub delivery_id : Text
  pub event_type : Text
  pub summary : Text
  pub headers : List (Text × Text)
  pub body : List ℕ
  pub payload : Value
  pub context : Fields
  pub sinks : List Text
  pub verified : Bool
  pub received_at : ℕ
  pub status : EventStatus
  pub untrusted_fields : List Text
  pub filter_reason : Option Reason
  pub filtered_sinks : List (Text × FilterVerdict)

-- `sinks` is `none` for a row written before schema version 3.
pub record StoredEvent : Type 0 where
  pub id : ℕ
  pub source : Text
  pub delivery_id : Text
  pub event_type : Text
  pub summary : Text
  pub headers : List (Text × Text)
  pub body : List ℕ
  pub payload : Value
  pub context : Fields
  pub verified : Bool
  pub status : EventStatus
  pub received_at : ℕ
  pub untrusted_fields : List Text
  pub sinks : Option (List Text)

pub record Delivery : Type 0 where
  pub id : ℕ
  pub event_id : ℕ
  pub sink : Text
  pub attempt : ℕ
  pub status : DeliveryStatus
  pub next_attempt_at : Option ℕ
  pub response_code : Option ℕ
  pub latency_ms : Option ℕ
  pub error : Option Text

pub record HeldEntry : Type 0 where
  pub event_id : ℕ
  pub source : Text
  pub event_type : Text
  pub score : Option ℕ
  pub rules : List Text
  pub quarantined_at : Option ℕ

pub record DlqEntry : Type 0 where
  pub id : ℕ
  pub event_id : ℕ
  pub source : Text
  pub sink : Text
  pub attempt : ℕ
  pub response_code : Option ℕ
  pub error : Text
  pub exhausted_at : ℕ
