-- ===== src/App/Answer.antt =====
-- The answer of the handler (webhook_doorman/app.py, `build_source_route`) and the tables behind it.
use webhook_doorman.Prelude.{
  ℕ, ◌≡◌, refl, sym, subst, inl, inr, ◌⊎◌, Bool, true, false, Option, none, some, List, [], ◌∷◌,
}
use webhook_doorman.Prelude.Tests.{Bool-cases}
use webhook_doorman.Prelude.Text.{Text}
use webhook_doorman.Json.{Value}
use webhook_doorman.Models.{InboundEvent, is_received, is_filtered}
use webhook_doorman.Sanitize.{Class}
use webhook_doorman.Redaction.Stored.{redact_bytes}
use webhook_doorman.Parsers.Event.{ParsedEvent}
use webhook_doorman.Parsers.Registry.{parse}
use webhook_doorman.Config.Source.{SourceConfig}
use webhook_doorman.Secrets.{SourceState}
use webhook_doorman.Store.Tables.{Db}
use webhook_doorman.Store.Ingest.{record_event, is_bound}
use webhook_doorman.Store.Invariant.{IsWellFormed}
use webhook_doorman.Engine.Setup.{Setup, Metric, EngineState, Response, increment}
use webhook_doorman.Engine.Ingest.{ingest}
use webhook_doorman.Engine.Told.{Told}
use webhook_doorman.Engine.Answers.{due_for, ingest-Told}
use webhook_doorman.App.Decided.{IsStored, built-IsStored}
use webhook_doorman.App.Handler.{
  Request, Reply, Platform, handler, handle_enabled, handle_body, handle_verified, handle_safe,
  handle_parsed, handle_typed, ingest_built, built, read_body, verify_request, lowered_headers,
  count_classes, classes_of,
}

count_classes-db :
    (source : Text) (classes : List Class) (s : EngineState)
    → (count_classes source classes s).db ≡ s.db
unfolding count_classes
count_classes-db source [] s = refl
count_classes-db source (c ∷ classes) s =
    count_classes-db source classes (increment (Metric.content_sanitized source c) s)

module _ (Address Network : Type 0) (p : Platform Address Network) (u : Setup) where
  -- An event that the handler of a source makes of a request: the body is complete and verifies, and
  -- what is stored is what the parser finds in the redacted body.
  pub record IsMade (source : SourceConfig Address Network) (r : Request) (ev : InboundEvent)
      : Type 0 where
    pub raw : List ℕ
    pub safe : List ℕ
    pub parsed : ParsedEvent
    pub event_type : Text
    pub complete : read_body Address Network p u r ≡ some raw
    pub genuine : (verify_request Address Network p u source raw r).ok ≡ true
    pub redacted : redact_bytes raw u.secret_values ≡ some safe
    pub understood :
        parse p.loads p.parsers source.parser safe (lowered_headers Address Network p u r.headers)
        ≡ some parsed
    pub typed : parsed.event_type ≡ Value.str event_type
    pub stored :
        IsStored Address Network p u source safe
          (lowered_headers Address Network p u r.headers)
          parsed
          event_type
          ev

  -- The answer is what `Told` says of one event, of which `P` holds.
  abbrev pub IsTrue : (InboundEvent → Type 0) → ℕ → Response → Db → Db → Type 0
  IsTrue P now response before after =
      (ev : InboundEvent) × P ev
      × Told (due_for u ev now before) ((record_event ev before).0.0) response after

  abbrev AnswersTrue : (InboundEvent → Type 0) → ℕ → Db → Reply × EngineState → Type 0
  AnswersTrue P now before out =
      (response : Response)
      → out.0 ≡ Reply.answered response
      → IsTrue P now response before out.1.db

  built_true :
      (P : InboundEvent → Type 0) (o : Option InboundEvent) (now : ℕ) (s : EngineState)
      → IsWellFormed s.db
      → ((ev : InboundEvent)
          → o ≡ some ev
          → P ev × ((is_received ev.status ≡ true) ⊎ (is_filtered ev.status ≡ true)))
      → AnswersTrue P now s.db (ingest_built Address Network p u o now s)
  built_true P none now s w k response e = absurd (cc)
  built_true P (some ev) now s w k response e = elim (Bool-cases (is_bound ev)) [
    | inl bound ↦
        let facts = k ev refl in
        let same : (ingest u ev now s).0 ≡ response = cc (rw bound at e) in
        rw bound (
          ev,
          facts.0,
          subst
              (λ r.
                Told (due_for u ev now s.db) ((record_event ev s.db).0.0) r
                  (ingest u ev now s).1.db)
              same (ingest-Told u ev now s w facts.1),
        )
    | inr unbound ↦ absurd (cc (rw unbound at e))
  ]

  module _ (P : InboundEvent → Type 0) (source : SourceConfig Address Network)
      (headers : List (Text × Text)) where
    -- What is known of the events of a body and of a parsed event.
    abbrev Gives : List ℕ → ParsedEvent → Type 0
    Gives body parsed =
        (t : Text) (ev : InboundEvent)
        → parsed.event_type ≡ Value.str t
        → IsStored Address Network p u source body headers parsed t ev
        → P ev

    typed_true :
        (body : List ℕ) (parsed : ParsedEvent) (v : Value) (now : ℕ) (s : EngineState)
        → parsed.event_type ≡ v
        → Gives body parsed
        → IsWellFormed s.db
        → AnswersTrue P now s.db
            (handle_typed Address Network p u source body headers parsed v now s)
    unfolding handle_typed
    typed_true body parsed (Value.str t) now s typed gives w =
        let classes : List Class = classes_of Address Network p u source parsed in
        let counted : EngineState = count_classes source.name classes s in
        let same : counted.db ≡ s.db = count_classes-db source.name classes s in
        subst
          (λ db. AnswersTrue P now db (
            ingest_built Address Network p u
              (built Address Network p u source body headers parsed t now) now counted))
          same
          (built_true P (built Address Network p u source body headers parsed t now) now counted
            (subst IsWellFormed (sym same) w)
            (λ ev e.
              let stored : IsStored Address Network p u source body headers parsed t ev =
                built-IsStored Address Network p u source body headers parsed t now ev e in
              (gives t ev typed stored, stored.known)))
    typed_true body parsed Value.null now s typed gives w = λ response e. absurd (cc)
    typed_true body parsed (Value.bool b) now s typed gives w = λ response e. absurd (cc)
    typed_true body parsed (Value.num n) now s typed gives w = λ response e. absurd (cc)
    typed_true body parsed (Value.arr items) now s typed gives w = λ response e. absurd (cc)
    typed_true body parsed (Value.obj fields) now s typed gives w = λ response e. absurd (cc)

    parsed_true :
        (body : List ℕ) (o : Option ParsedEvent) (now : ℕ) (s : EngineState)
        → ((parsed : ParsedEvent) → o ≡ some parsed → Gives body parsed)
        → IsWellFormed s.db
        → AnswersTrue P now s.db (handle_parsed Address Network p u source body headers o now s)
    parsed_true body none now s gives w = λ response e. absurd (cc)
    parsed_true body (some parsed) now s gives w =
        typed_true body parsed parsed.event_type now s refl (gives parsed refl) w

    safe_true :
        (o : Option (List ℕ)) (now : ℕ) (s : EngineState)
        → ((body : List ℕ) (parsed : ParsedEvent)
            → o ≡ some body
            → parse p.loads p.parsers source.parser body headers ≡ some parsed
            → Gives body parsed)
        → IsWellFormed s.db
        → AnswersTrue P now s.db (handle_safe Address Network p u source o headers now s)
    safe_true none now s gives w = λ response e. absurd (cc)
    safe_true (some body) now s gives w =
        parsed_true body (parse p.loads p.parsers source.parser body headers) now s
          (λ parsed. gives body parsed refl) w

  verified_true :
      (source : SourceConfig Address Network) (raw : List ℕ) (r : Request) (now : ℕ)
      (s : EngineState)
      → read_body Address Network p u r ≡ some raw
      → (verify_request Address Network p u source raw r).ok ≡ true
      → IsWellFormed s.db
      → AnswersTrue
          (IsMade source r)
          now
          s.db
          (handle_verified Address Network p u source raw r now s)
  unfolding handle_verified
  verified_true source raw r now s complete genuine w =
      safe_true (IsMade source r) source (lowered_headers Address Network p u r.headers)
        (redact_bytes raw u.secret_values) now s
        (λ safe parsed redacted understood t ev typed stored. record {
          raw = raw;
          safe = safe;
          parsed = parsed;
          event_type = t;
          complete = complete;
          genuine = genuine;
          redacted = redacted;
          understood = understood;
          typed = typed;
          stored = stored;
        })
        w

  body_true :
      (P : InboundEvent → Type 0) (source : SourceConfig Address Network) (o : Option (List ℕ))
      (r : Request) (now : ℕ) (s : EngineState)
      → ((raw : List ℕ)
          → o ≡ some raw
          → (verify_request Address Network p u source raw r).ok ≡ true
          → AnswersTrue P now s.db (handle_verified Address Network p u source raw r now s))
      → AnswersTrue P now s.db (handle_body Address Network p u source o r now s)
  body_true P source none r now s verified = λ response e. absurd (cc)
  body_true P source (some raw) r now s verified =
      elim (Bool-cases (verify_request Address Network p u source raw r).ok) [
        | inl ok ↦ rw ok (verified raw refl ok)
        | inr bad ↦ elim (Bool-cases (verify_request Address Network p u source raw r).raised) [
          | inl broken ↦ rw (bad, broken) (λ response e. absurd (cc))
          | inr whole ↦ rw (bad, whole) (λ response e. absurd (cc))
        ]
      ]

  enabled_true :
      (b : Bool) (source : SourceConfig Address Network) (r : Request) (now : ℕ) (s : EngineState)
      → IsWellFormed s.db
      → AnswersTrue (IsMade source r) now s.db (handle_enabled Address Network p u b source r now s)
  enabled_true false source r now s w = λ response e. absurd (cc)
  enabled_true true source r now s w =
      body_true (IsMade source r) source (read_body Address Network p u r) r now s
        (λ raw complete genuine. verified_true source raw r now s complete genuine w)

  -- A producer is told the truth. From tables that keep the promises of the schema, a request that is
  -- answered 200 has a complete body that verifies; the parser of the source names in that body,
  -- redacted, an event whose type is a text; and of the source's event that has the redacted body, the
  -- delivery id, the sinks and the status that follow, the answer says, in the tables as the request
  -- leaves them, what it means there.
  pub handler_answers-IsTrue :
      (state : SourceState Address Network) (r : Request) (now : ℕ) (s : EngineState)
      (response : Response)
      → IsWellFormed s.db
      → (handler Address Network p u state r now s).0 ≡ Reply.answered response
      → IsTrue
          (IsMade state.config r)
          now
          response
          s.db
          (handler Address Network p u state r now s).1.db
  unfolding handler
  handler_answers-IsTrue state r now s response w e =
      enabled_true state.enabled state.config r now s w response e
