-- ===== src/App/Event.antt =====
-- From a verified body to the event that is ingested (webhook_doorman/app.py, the handler of
-- `build_source_route` from its second redaction pass on).
use webhook_doorman.Prelude.{
  ℕ, Bool, true, false, not, ◌&&◌, Option, none, some, List, [], ◌∷◌, ◌++◌,
}
use webhook_doorman.Prelude.Tests.{if◌then◌else◌}
use webhook_doorman.Prelude.Lists.{filter}
use webhook_doorman.Prelude.Text.{Text}
use webhook_doorman.Json.{Value, Fields}
use webhook_doorman.Models.{EventStatus, Reason, FilterVerdict, InboundEvent}
use webhook_doorman.Filtering.{evaluate, route}
use webhook_doorman.Filtering.Truncate.{truncate_summary, truncate_context}
use webhook_doorman.Sanitize.{Class, in_classes, sanitize, sanitize_fields}
use webhook_doorman.Redaction.{redact_text, redactable, walk_fields}
use webhook_doorman.Config.Source.{SourceConfig, is_unverified}

-- The summary and the context as they are kept, with what sanitising acted on.
pub record Content : Type 0 where
  pub summary : Text
  pub context : Fields
  pub classes : List Class

-- Where the event goes, and the status that it is stored with.
pub record Decision : Type 0 where
  pub sinks : List Text
  pub refused : List (Text × FilterVerdict)
  pub status : EventStatus
  pub reason : Option Reason

-- `sorted(sanitized_classes)`.
unfoldable pub sorted_classes : List Class → List Class
sorted_classes found =
    filter (λ c. in_classes c found)
      (Class.bidi ∷ Class.control ∷ Class.normalized ∷ Class.tag ∷ Class.zero_width ∷ [])

abbrev pub plain_content : Text → Fields → Content
plain_content summary context = record { summary = summary; context = context; classes = [] }

module _ (nfkc : Text → Text) where
  abbrev pub sanitized_content : Text → Fields → Content
  sanitized_content summary context = record {
    summary = (sanitize nfkc summary).0;
    context = (sanitize_fields nfkc context).0;
    classes = (sanitize nfkc summary).1 ++ (sanitize_fields nfkc context).1;
  }

  -- Redacted always, and sanitised where the source is untrusted.
  unfoldable pub clean_content : Bool → List Text → Text → Fields → Content
  clean_content untrusted secrets summary context =
      if untrusted
      then sanitized_content (redact_text summary secrets)
          (walk_fields (redactable secrets) Fields.end context)
      else plain_content (redact_text summary secrets)
          (walk_fields (redactable secrets) Fields.end context)

-- `refused and not sinks`.
abbrev pub all_refused : List Text → List (Text × FilterVerdict) → Bool
all_refused sinks [] = false
all_refused [] (r ∷ refused) = true
all_refused (s ∷ sinks) (r ∷ refused) = false

unfoldable pub decide : FilterVerdict → List Text × List (Text × FilterVerdict) → Decision
decide verdict (sinks, refused) =
    if not verdict.admitted
    then record {
      sinks = sinks;
      refused = refused;
      status = EventStatus.filtered;
      reason = verdict.reason;
    }
    else if all_refused sinks refused
    then record {
      sinks = sinks;
      refused = refused;
      status = EventStatus.filtered;
      reason = some Reason.sink;
    }
    else record { sinks = sinks; refused = refused; status = EventStatus.received; reason = none }

module _ (Address Network : Type 0) (container_text : Value → Text) where
  abbrev pub nowhere : List Text × List (Text × FilterVerdict)
  nowhere = ([], [])

  -- Admission control, then the routes of the sinks.
  unfoldable pub decide_event : SourceConfig Address Network → Bool → Text → Value → Decision
  unfolding decide
  decide_event source actionable event_type payload =
      let verdict = evaluate container_text source.filter.gates event_type payload in
      decide verdict (
        if actionable && verdict.admitted
        then route container_text source.sinks event_type payload
        else nowhere)

  -- What is known of the event apart from its kept fields.
  pub record Draft : Type 0 where
    pub delivery_id : Text
    pub event_type : Text
    pub headers : List (Text × Text)
    pub body : List ℕ
    pub payload : Value
    pub untrusted_fields : List Text
    pub received_at : ℕ

  abbrev pub event_of :
      SourceConfig Address Network → Draft → Decision → Text → Fields → InboundEvent
  event_of source draft decision summary context = record {
    source = source.name;
    delivery_id = draft.delivery_id;
    event_type = draft.event_type;
    summary = summary;
    headers = draft.headers;
    body = draft.body;
    payload = draft.payload;
    context = context;
    sinks = decision.sinks;
    verified = not (is_unverified Address Network source.verify);
    received_at = draft.received_at;
    status = decision.status;
    untrusted_fields = if source.untrusted then draft.untrusted_fields else [];
    filter_reason = decision.reason;
    filtered_sinks = decision.refused;
  }

  -- `none` is the error of the byte cap.
  abbrev pub capped_event :
      SourceConfig Address Network
      → Draft
      → Decision
      → Option Text
      → Option Fields
      → Option InboundEvent
  capped_event source draft decision none context = none
  capped_event source draft decision (some summary) none = none
  capped_event source draft decision (some summary) (some context) =
      some (event_of source draft decision summary context)

  unfoldable pub build_event :
      SourceConfig Address Network → Draft → Decision → Content → Option InboundEvent
  unfolding truncate_summary truncate_context
  build_event source draft decision content =
      capped_event source draft decision
        (truncate_summary content.summary source.filter.max_field_bytes)
        (truncate_context content.context source.filter.max_field_bytes)
