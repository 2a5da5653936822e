-- ===== src/Engine/Setup.antt =====
-- What the engine is built from (webhook_doorman/engine.py, `Engine.__init__`, and the parts of
-- config.py that it reads), the state it keeps, and the answers it gives. Log lines are output and
-- left out; the counters of metrics.py are kept as the list of increments, in order.
use webhook_doorman.Prelude.{ℕ, Bool, true, false, Option, List, [], ◌∷◌, ◌++◌}
use webhook_doorman.Prelude.Tests.{if◌then◌else◌, ltb, ◌==◌}
use webhook_doorman.Prelude.Text.{Text}
use webhook_doorman.Json.{Value, Fields}
use webhook_doorman.Models.{EventStatus, Reason, DetectionResult}
use webhook_doorman.Filtering.{SinkRoute}
use webhook_doorman.Sanitize.{Class}
use webhook_doorman.Store.Tables.{Db}

-- What `detector.score` gives: a verdict, `None`, or an exception with its class name and `repr`.
pub data Scored : Type 0 where
  answered : DetectionResult → Scored
  no_answer : Scored
  raised : Text → Text → Scored

pub record Detector : Type 0 where
  pub name : Text
  pub score : Text → Scored

-- The values of `on_detect` and `on_error`; config.py refuses `drop` for the second.
pub data Action : Type 0 where
  annotate quarantine drop : Action

-- What a sink does with one event: an outcome, or one of the two errors of sinks/base.py.
-- `SinkError` carries the seconds of a `Retry-After`, in milliseconds.
pub data SinkResult : Type 0 where
  delivered : Option ℕ → ℕ → SinkResult
  permanent_error : Text → Option ℕ → ℕ → SinkResult
  sink_error : Text → Option ℕ → ℕ → Option ℕ → SinkResult
  other_error : Text → SinkResult

pub record SourceEntry : Type 0 where
  pub routes : List SinkRoute
  pub untrusted : Bool

pub record SinkEntry : Type 0 where
  pub enabled : Bool
  pub agent_readable : Bool
  pub deliver : Fields → SinkResult

-- Delays are in milliseconds; the jitter is a share in thousandths.
pub record Setup : Type 0 where
  pub source_by_name : Text → Option SourceEntry
  pub sink_by_name : Text → Option SinkEntry
  pub secret_values : List Text
  pub detector : Option Detector
  pub threshold : ℕ
  pub on_detect : Action
  pub on_error : Action
  pub max_attempts : ℕ
  pub base_backoff : ℕ
  pub max_backoff : ℕ
  pub jitter : ℕ
  pub retention_days : ℕ
  pub dlq_retention_days : ℕ
  pub install_id : Text
  pub safe_json : List ℕ → Value
  pub container_text : Value → Text
  pub isoformat : ℕ → Text
  pub nfkc : Text → Text
  pub dumps : Value → Text
  pub repr : Text → Text

pub data DetectionVerdict : Type 0 where
  unavailable flagged clean : DetectionVerdict

pub data AttemptOutcome : Type 0 where
  delivered permanent retry exhausted error : AttemptOutcome

-- Why the handler of app.py turns a request away before it verifies it.
pub data RejectReason : Type 0 where
  source_disabled body_too_large : RejectReason

-- One increment or observation, with its labels.
pub data Metric : Type 0 where
  requests_rejected : Text → RejectReason → Metric
  verification_failures : Text → Text → Metric
  content_sanitized : Text → Class → Metric
  events_deduplicated : Text → Metric
  events_received : Text → Metric
  deliveries_filtered : Text → Text → Option Reason → Metric
  events_filtered : Text → Option Reason → Metric
  detection_latency : Text → Metric
  detection : Text → DetectionVerdict → Metric
  events_quarantined : Text → Option Text → Metric
  delivery_attempts : Text → AttemptOutcome → Metric
  delivery_latency : Text → ℕ → Metric

pub record EngineState : Type 0 where
  pub db : Db
  pub detector_last_error : Option Text
  pub metrics : List Metric

abbrev pub increment : Metric → EngineState → EngineState
increment m s = record s { metrics = s.metrics ++ m ∷ [] }

abbrev pub with_db : Db → EngineState → EngineState
with_db db s = record s { db = db }

-- The JSON bodies that the producer and the operator get.
pub data Response : Type 0 where
  deduplicated : ℕ → Response
  filtered : ℕ → Option Reason → List Text → Response
  ignored : ℕ → Response
  withheld : EventStatus → ℕ → Response
  accepted : ℕ → Response
  resumed : ℕ → Response

pub data AdminResponse : Type 0 where
  not_found : AdminResponse
  not_quarantined : ℕ → Option EventStatus → AdminResponse
  not_replayable : ℕ → EventStatus → AdminResponse
  no_sinks : ℕ → AdminResponse
  released : ℕ → List Text → AdminResponse
  replayed : ℕ → List Text → AdminResponse
  integrity_error : AdminResponse

-- `sorted` on strings.
unfoldable pub text_le : Text → Text → Bool
text_le [] t = true
text_le (a ∷ s) [] = false
text_le (a ∷ s) (b ∷ t) = let rest = text_le s t in if a == b then rest else ltb a b
