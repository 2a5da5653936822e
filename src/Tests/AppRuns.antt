-- ===== src/Tests/AppRuns.antt =====
-- The stated properties of webhook_doorman/app.py, parsers.py and the byte cap at small inputs: the
-- source `ci` behind a bearer token, under the configuration of `Tests.Data`.
use webhook_doorman.Store.Ingest.{record_event}
use webhook_doorman.Sanitize.{sanitize, sanitize_fields, strip_chars}
use webhook_doorman.Redaction.Stored.{redact_bytes}
use webhook_doorman.Redaction.{redact_text, redactable, replace, walk_fields}
use webhook_doorman.Prelude.Utf8.{encode}
use webhook_doorman.Prelude.Sort.{sort_by}
use webhook_doorman.Engine.Screening.{screen}
use webhook_doorman.Engine.Ingest.{ingest}
use webhook_doorman.App.Event.{sorted_classes}
use webhook_doorman.App.Body.{read_body_capped}
use webhook_doorman.Prelude.{ℕ, ◌≡◌, refl, ◌↔◌, ◌⊎◌, true, false, Option, none, some, [], ◌∷◌}
use webhook_doorman.Prelude.Text.{Text, codes, text_eq, strip}
use webhook_doorman.Json.{Value, Fields, get_or_null, set_field}
use webhook_doorman.Models.{InboundEvent}
use webhook_doorman.Filtering.{
  SourceFilter, first_unmet, route_verdict, type_allowed, first_denied, evaluate, route,
}
use webhook_doorman.Verification.{bearer, get_text, secure_compare, verify}
use webhook_doorman.Parsers.Registry.{builtin_parsers, parse}
use webhook_doorman.Config.Source.{SourceConfig, secret_env_names}
use webhook_doorman.Secrets.{SourceState, resolve_source}
use webhook_doorman.Store.Statements.{fresh}
use webhook_doorman.Store.Reachable.{fresh-IsWellFormed}
use webhook_doorman.Engine.Setup.{Response}
use webhook_doorman.App.Handler.{Request, Reply, Platform, built, handler, set_header}
use webhook_doorman.App.Readable.{IsReadable, IsForged, IsGenuine}
use webhook_doorman.App.Door.{handler_door, resolve_source_closed}
use webhook_doorman.App.Decided.{IsStored, built-IsStored}
use webhook_doorman.Secrets.Enabled.{IsProvided}
use webhook_doorman.Parsers.Event.{ParsedEvent}
use webhook_doorman.App.Answer.{IsMade, IsTrue, handler_answers-IsTrue}
use webhook_doorman.Store.Ingest.{is_bound}
use webhook_doorman.App.DeliveryId.{compute_delivery_id}
use webhook_doorman.Prelude.Utf8.{decode_ignoring}
use webhook_doorman.Tests.Data.{setup, fresh_state, push_event, push_payload, log_route}

abbrev pub same : Text → Text
same t = t

abbrev pub open_filter : SourceFilter
open_filter = record {
  gates = record { event_types = none; require = []; deny = [] };
  max_field_bytes = some 6;
}

abbrev pub ci : SourceConfig ℕ ℕ
ci = record {
  name = codes "ci";
  path = codes "/ci";
  verify =
      bearer (record {
        header = codes "authorization";
        secret_env = codes "T";
        prefix = codes "Bearer ";
      });
  sinks = log_route ∷ [];
  parser = codes "generic";
  id_header = some (codes "x-id");
  filter = open_filter;
  untrusted = true;
  enabled = true;
}

abbrev ci_on : SourceState ℕ ℕ
ci_on = record { config = ci; enabled = true; disabled_reason = none; missing_env = [] }

abbrev pub platform : Platform ℕ ℕ
platform = record {
  loads = λ body. some push_payload;
  lower = same;
  sha256 = λ body. codes "00";
  parse_address = λ t. none;
  contains = λ network address. false;
  digest = λ secret body encoding. [];
  decode_base64 = λ t. none;
  parsers = builtin_parsers (λ v. codes "{}") same;
  max_body_bytes = 8;
  secrets = (codes "T", codes "tok") ∷ [];
}

abbrev pub request : Request
request = record {
  headers = (codes "authorization", codes "Bearer tok") ∷ (codes "x-id", codes "7") ∷ [];
  chunks = codes "{}" ∷ [];
  peer = none;
}

answers_accepted :
    (handler ℕ ℕ platform setup ci_on request 20 fresh_state).0
    ≡ Reply.answered (Response.accepted 1)
unfolding handler read_body_capped text_eq verify get_text set_header secure_compare redact_bytes
    redactable sort_by encode replace parse builtin_parsers sanitize strip_chars redact_text
    get_or_null ingest sanitize_fields walk_fields record_event sorted_classes evaluate type_allowed
    first_denied first_unmet route route_verdict screen is_bound compute_delivery_id strip
    decode_ignoring
answers_accepted = refl

handler_answers-IsTrue_example :
    IsTrue ℕ ℕ platform setup
      (IsMade ℕ ℕ platform setup ci request)
      20
      (Response.accepted 1)
      fresh
      (handler ℕ ℕ platform setup ci_on request 20 fresh_state).1.db
handler_answers-IsTrue_example =
    handler_answers-IsTrue ℕ ℕ platform setup ci_on request 20 fresh_state (Response.accepted 1)
      fresh-IsWellFormed answers_accepted

handler_door_example :
    (((handler ℕ ℕ platform setup ci_on request 20 fresh_state).0 ≡ Reply.rejected 503)
      ↔ (ci_on.enabled ≡ false))
    × (((handler ℕ ℕ platform setup ci_on request 20 fresh_state).0 ≡ Reply.rejected 413)
        ↔ ((ci_on.enabled ≡ true) × (¬ IsReadable ℕ ℕ platform setup request)))
    × (((handler ℕ ℕ platform setup ci_on request 20 fresh_state).0 ≡ Reply.rejected 401)
        ↔ ((ci_on.enabled ≡ true) × IsForged ℕ ℕ platform setup ci request))
    × (((ci_on.enabled ≡ true) × IsGenuine ℕ ℕ platform setup ci request)
        ⊎ ((handler ℕ ℕ platform setup ci_on request 20 fresh_state).1.db ≡ fresh_state.db))
handler_door_example = handler_door ℕ ℕ platform setup ci_on request 20 fresh_state

-- Nothing is set.
unset : ¬ IsProvided [] (secret_env_names ℕ ℕ ci.verify)
unfolding secret_env_names strip get_text
unset h = cc (h.0)

resolve_source_closed_example :
    ((handler ℕ ℕ platform setup (resolve_source ℕ ℕ [] ci) request 20 fresh_state).0
      ≡ Reply.rejected 503)
    × ((handler ℕ ℕ platform setup (resolve_source ℕ ℕ [] ci) request 20 fresh_state).1.db
        ≡ fresh_state.db)
resolve_source_closed_example =
    resolve_source_closed ℕ ℕ platform setup [] ci request 20 fresh_state unset

abbrev pub parsed : ParsedEvent
parsed = record {
  event_type = Value.str (codes "push");
  summary = codes "a push";
  actionable = true;
  context = Fields.field (codes "repo") (Value.str (codes "r")) Fields.end;
  untrusted_fields = codes "summary" ∷ [];
}

abbrev pub event_or : InboundEvent → Option InboundEvent → InboundEvent
event_or e none = e
event_or e (some e') = e'

abbrev built_event : InboundEvent
built_event =
    event_or push_event
      (built ℕ ℕ platform setup ci (codes "{}") request.headers parsed (codes "push") 20)

builds :
    built ℕ ℕ platform setup ci (codes "{}") request.headers parsed (codes "push") 20
    ≡ some built_event
unfolding built encode sanitize strip_chars redact_text sort_by sanitize_fields walk_fields
    set_field
builds = refl

built-IsStored_example :
    IsStored ℕ ℕ platform setup ci (codes "{}") request.headers parsed (codes "push") built_event
built-IsStored_example =
    built-IsStored ℕ ℕ platform setup ci (codes "{}") request.headers parsed (codes "push") 20
      built_event builds
