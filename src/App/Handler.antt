-- ===== src/App/Handler.antt =====
-- The handler of one source (webhook_doorman/app.py, `build_source_route`): the door, which turns a
-- request away or verifies it, and the way of a verified body to `Engine.ingest`. `loads` is
-- `json.loads` with `none` for the errors that are caught; the rest of `Platform` is Python's or the
-- configuration's, as for `verify`.
use webhook_doorman.Prelude.{ℕ, Bool, true, false, Option, none, some, List, [], ◌∷◌}
use webhook_doorman.Prelude.Tests.{if◌then◌else◌}
use webhook_doorman.Prelude.Text.{Text, codes, text_eq}
use webhook_doorman.Json.{Value}
use webhook_doorman.Models.{InboundEvent}
use webhook_doorman.Sanitize.{Class}
use webhook_doorman.Redaction.{redact_json}
use webhook_doorman.Redaction.Stored.{redact_bytes}
use webhook_doorman.Redaction.Headers.{redact_headers}
use webhook_doorman.Verification.{
  Encoding, VerifySpec, VerificationResult, hmac, bearer, basic, peer_only, verify,
}
use webhook_doorman.Store.Ingest.{is_bound}
use webhook_doorman.Parsers.Event.{ParsedEvent}
use webhook_doorman.Parsers.Registry.{Parser, parse, decode}
use webhook_doorman.Config.Source.{SourceConfig, verify_header}
use webhook_doorman.Secrets.{SourceState}
use webhook_doorman.App.Body.{read_body_capped}
use webhook_doorman.App.DeliveryId.{compute_delivery_id}
use webhook_doorman.App.Event.{Draft, sorted_classes, clean_content, decide_event, build_event}
use webhook_doorman.Engine.Setup.{Setup, Metric, RejectReason, EngineState, increment, Response}
use webhook_doorman.Engine.Ingest.{ingest}

-- Starlette gives the headers with lowercased names, and the socket's peer.
pub record Request : Type 0 where
  pub headers : List (Text × Text)
  pub chunks : List (List ℕ)
  pub peer : Option Text

-- `raised` is an error that nothing catches, which is answered 500. `unfollowed` is an event whose
-- type is no text: what becomes of it is up to the SQLite driver.
pub data Reply : Type 0 where
  answered : Response → Reply
  rejected : ℕ → Reply
  raised : Reply
  unfollowed : Reply

-- `request.headers.get("content-length")`: the first one.
unfoldable pub find_header : Text → List (Text × Text) → Option Text
find_header k [] = none
find_header k ((j, v) ∷ rest) =
    let found = find_header k rest in if text_eq j k then some v else found

-- `out[k] = v`.
unfoldable pub set_header : Text → Text → List (Text × Text) → List (Text × Text)
set_header k v [] = (k, v) ∷ []
set_header k v ((j, w) ∷ rest) =
    let next = set_header k v rest in if text_eq j k then (j, v) ∷ rest else (j, w) ∷ next

pub record Platform (Address Network : Type 0) : Type 0 where
  pub loads : List ℕ → Option Value
  pub lower : Text → Text
  pub sha256 : List ℕ → Text
  pub parse_address : Text → Option Address
  pub contains : Network → Address → Bool
  pub digest : Text → List ℕ → Encoding → Text
  pub decode_base64 : Text → Option Text
  pub parsers : List (Text × Parser)
  pub max_body_bytes : ℕ
  pub secrets : List (Text × Text)

abbrev pub strategy_name : {Address Network : Type 0} → VerifySpec Address Network → Text
strategy_name (hmac spec) = codes "hmac_sha256"
strategy_name (bearer spec) = codes "bearer"
strategy_name (basic spec) = codes "basic"
strategy_name (peer_only spec) = codes "none"

unfoldable pub count_classes : Text → List Class → EngineState → EngineState
count_classes source [] s = s
count_classes source (c ∷ classes) s =
    count_classes source classes (increment (Metric.content_sanitized source c) s)

module _ (Address Network : Type 0) (p : Platform Address Network) (u : Setup) where
  -- A dictionary: of two headers with one name the later one is kept.
  unfoldable pub lower_into : List (Text × Text) → List (Text × Text) → List (Text × Text)
  lower_into acc [] = acc
  lower_into acc ((k, v) ∷ headers) = lower_into (set_header (p.lower k) v acc) headers

  unfoldable pub lowered_headers : List (Text × Text) → List (Text × Text)
  unfolding lower_into
  lowered_headers headers = lower_into [] headers

  unfoldable pub read_body : Request → Option (List ℕ)
  unfolding find_header
  read_body r =
      read_body_capped p.max_body_bytes (find_header (codes "content-length") r.headers) r.chunks

  unfoldable pub verify_request :
      SourceConfig Address Network → List ℕ → Request → VerificationResult
  unfolding lowered_headers
  verify_request source body r =
      verify Address Network p.parse_address p.contains u.repr p.digest p.lower p.decode_base64
        source.verify body (lowered_headers r.headers) r.peer p.secrets

  -- The INSERT of an event that SQLite cannot bind raises, before `ingest` did anything.
  abbrev pub ingest_built : Option InboundEvent → ℕ → EngineState → Reply × EngineState
  ingest_built none now s = (Reply.raised, s)
  ingest_built (some event) now s =
      let (response, s') = ingest u event now s in
      if is_bound event then (Reply.answered response, s') else (Reply.raised, s)

  -- The event's type is a text from here on.
  unfoldable pub draft_of :
      SourceConfig Address Network
      → List ℕ
      → List (Text × Text)
      → List Text
      → Text
      → Value
      → ℕ
      → Draft Address Network u.container_text
  draft_of source safe_body headers untrusted_fields event_type payload now = record {
    delivery_id = compute_delivery_id p.lower p.sha256 source.id_header headers safe_body;
    event_type = event_type;
    headers =
        redact_headers p.lower headers (verify_header Address Network source.verify ∷ [])
          u.secret_values;
    body = safe_body;
    payload = payload;
    untrusted_fields = untrusted_fields;
    received_at = now;
  }

  unfoldable pub built :
      SourceConfig Address Network
      → List ℕ
      → List (Text × Text)
      → ParsedEvent
      → Text
      → ℕ
      → Option InboundEvent
  unfolding draft_of clean_content decide_event build_event
  built source safe_body headers parsed event_type now =
      let payload = redact_json (decode p.loads safe_body) u.secret_values in
      build_event Address Network u.container_text source
        (draft_of source safe_body headers parsed.untrusted_fields event_type payload now)
        (decide_event Address Network u.container_text source parsed.actionable event_type payload)
        (clean_content u.nfkc source.untrusted u.secret_values parsed.summary parsed.context)

  abbrev pub classes_of : SourceConfig Address Network → ParsedEvent → List Class
  classes_of source parsed =
      sorted_classes
        (clean_content u.nfkc source.untrusted u.secret_values parsed.summary
          parsed.context).classes

  unfoldable pub handle_typed :
      SourceConfig Address Network
      → List ℕ
      → List (Text × Text)
      → ParsedEvent
      → Value
      → ℕ
      → EngineState
      → Reply × EngineState
  unfolding built count_classes
  handle_typed source safe_body headers parsed (Value.str event_type) now s =
      ingest_built (built source safe_body headers parsed event_type now) now
        (count_classes source.name (classes_of source parsed) s)
  handle_typed source safe_body headers parsed other now s =
      (Reply.unfollowed, count_classes source.name (classes_of source parsed) s)

  abbrev pub handle_parsed :
      SourceConfig Address Network
      → List ℕ
      → List (Text × Text)
      → Option ParsedEvent
      → ℕ
      → EngineState
      → Reply × EngineState
  handle_parsed source safe_body headers none now s = (Reply.raised, s)
  handle_parsed source safe_body headers (some parsed) now s =
      handle_typed source safe_body headers parsed parsed.event_type now s

  abbrev pub handle_safe :
      SourceConfig Address Network
      → Option (List ℕ)
      → List (Text × Text)
      → ℕ
      → EngineState
      → Reply × EngineState
  handle_safe source none headers now s = (Reply.raised, s)
  handle_safe source (some safe_body) headers now s =
      handle_parsed source safe_body headers
        (parse p.loads p.parsers source.parser safe_body headers) now s

  -- Redact once, and derive everything downstream from the redacted bytes.
  unfoldable pub handle_verified :
      SourceConfig Address Network → List ℕ → Request → ℕ → EngineState → Reply × EngineState
  unfolding handle_typed lowered_headers
  handle_verified source body r now s =
      handle_safe source (redact_bytes body u.secret_values) (lowered_headers r.headers) now s

  abbrev pub handle_body :
      SourceConfig Address Network
      → Option (List ℕ)
      → Request
      → ℕ
      → EngineState
      → Reply × EngineState
  handle_body source none r now s = (
    Reply.rejected 413,
    increment (Metric.requests_rejected source.name RejectReason.body_too_large) s,
  )
  handle_body source (some body) r now s =
      if (verify_request source body r).ok
      then handle_verified source body r now s
      else if (verify_request source body r).raised
      then (Reply.raised, s)
      else (
        Reply.rejected 401,
        increment (Metric.verification_failures source.name (strategy_name source.verify)) s,
      )

  abbrev pub handle_enabled :
      Bool → SourceConfig Address Network → Request → ℕ → EngineState → Reply × EngineState
  handle_enabled false source r now s = (
    Reply.rejected 503,
    increment (Metric.requests_rejected source.name RejectReason.source_disabled) s,
  )
  handle_enabled true source r now s = handle_body source (read_body r) r now s

  unfoldable pub handler :
      SourceState Address Network → Request → ℕ → EngineState → Reply × EngineState
  unfolding read_body verify_request handle_verified
  handler state r now s = handle_enabled state.enabled state.config r now s
