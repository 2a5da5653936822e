-- ===== src/App/Unleaked.antt =====
-- That no secret is stored (webhook_doorman/app.py, the two redaction passes of
-- `build_source_route`).
use webhook_doorman.Prelude.{ℕ, ◌≡◌, ap, subst, true, false, none, some, List, [], ◌∷◌}
use webhook_doorman.Prelude.Lists.{All}
use webhook_doorman.Prelude.Text.{Text, contains}
use webhook_doorman.Json.{Fields}
use webhook_doorman.Models.{InboundEvent}
use webhook_doorman.Filtering.Truncate.{truncate_summary, truncate_context}
use webhook_doorman.Redaction.{redact_text, redactable, walk_fields}
use webhook_doorman.Redaction.Gone.{IsFree, IsPlain}
use webhook_doorman.Redaction.Bytes.{IsAscii, redact_bytes-IsFree}
use webhook_doorman.Redaction.Cleared.{
  IsFreeValue, IsFreeFields, redact_text-IsFree, redact_json-IsFree, walk_fields_IsFree,
  redact_headers-IsFree,
}
use webhook_doorman.Redaction.Stored.{redact_bytes}
use webhook_doorman.Parsers.Event.{ParsedEvent}
use webhook_doorman.Parsers.Registry.{decode}
use webhook_doorman.Config.Source.{SourceConfig, verify_header}
use webhook_doorman.Engine.Setup.{Setup}
use webhook_doorman.App.Event.{build_event, clean_content}
use webhook_doorman.App.Decided.{capped_inversion}
use webhook_doorman.App.Handler.{Platform, built, draft_of}

some_injective {ℓ} : {A : Type ℓ} (a b : A) → some a ≡ some b → a ≡ b
some_injective a b e = cc

module _ (Address Network : Type 0) (p : Platform Address Network) (u : Setup)
    (source : SourceConfig Address Network) (safe : List ℕ) (headers : List (Text × Text))
    (parsed : ParsedEvent) (event_type : Text) where
  -- A secret is in none of these parts of the event: not in the body, in no text and no key of the payload, in no
  -- header's value; nor in the summary and the context of a trusted source without a cap.
  pub record IsUnleaked (v : Text) (ev : InboundEvent) : Type 0 where
    pub body : IsFree v ev.body
    pub payload : IsFreeValue v ev.payload
    pub headers_free : All (λ (j : Text × Text). IsFree v (j.1)) ev.headers
    pub fields :
        source.untrusted ≡ false
        → source.filter.max_field_bytes ≡ none
        → IsFree v ev.summary × IsFreeFields v ev.context

  built_fields :
      (now : ℕ) (ev : InboundEvent)
      → source.untrusted ≡ false
      → source.filter.max_field_bytes ≡ none
      → built Address Network p u source safe headers parsed event_type now ≡ some ev
      → (redact_text parsed.summary u.secret_values ≡ ev.summary)
        × (walk_fields (redactable u.secret_values) Fields.end parsed.context ≡ ev.context)
  unfolding built build_event clean_content truncate_summary truncate_context
  built_fields now ev trusted uncapped =
      rw (trusted, uncapped)
        (λ e.
          let same = some_injective _ ev e in
          (ap (λ (x : InboundEvent). x.summary) same, ap (λ (x : InboundEvent). x.context) same))

  -- What is stored of a body, its payload and the headers holds no secret. Where the secret is one of the configuration's, of ASCII characters, at least
  -- eight, without angle brackets and not the word `redacted`: whatever the request holds, and however
  -- it spells the secret in JSON, the secret is not in the body of the event that is made of it, in no
  -- text and no key of its payload, in no header's value, nor in the summary and the context of a
  -- trusted source without a byte cap. Of the event's type and delivery id nothing is said.
  pub built-IsUnleaked :
      (raw : List ℕ) (now : ℕ) (ev : InboundEvent) (v : Text)
      → contains u.secret_values v ≡ true
      → IsPlain v
      → IsAscii v
      → redact_bytes raw u.secret_values ≡ some safe
      → built Address Network p u source safe headers parsed event_type now ≡ some ev
      → IsUnleaked v ev
  unfolding built build_event draft_of
  built-IsUnleaked raw now ev v secret plain ascii redacted e =
      let (t, context, same) =
        capped_inversion Address Network u.container_text source _ _ _ _ ev e in
      record {
        body =
            subst (λ (x : InboundEvent). IsFree v x.body) same
              (redact_bytes-IsFree u.secret_values v raw safe secret plain ascii redacted);
        payload =
            subst (λ (x : InboundEvent). IsFreeValue v x.payload) same
              (redact_json-IsFree u.secret_values v secret plain (decode p.loads safe));
        headers_free =
            subst (λ (x : InboundEvent). All (λ (j : Text × Text). IsFree v (j.1)) x.headers) same
              (redact_headers-IsFree u.secret_values v secret plain p.lower
                (verify_header Address Network source.verify ∷ []) headers);
        fields = λ trusted uncapped.
            let (summary, context) = built_fields now ev trusted uncapped e in
            (
              subst (IsFree v) summary
                  (redact_text-IsFree u.secret_values v secret plain parsed.summary),
              subst (IsFreeFields v) context
                  (walk_fields_IsFree u.secret_values v secret plain parsed.context),
            );
      }
