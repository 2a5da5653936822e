-- ===== src/Parsers/Marked.antt =====
-- Which names a parser marks as untrusted (webhook_doorman/parsers.py, `ParsedEvent`).
use webhook_doorman.Prelude.{
  ℕ, ◌≡◌, refl, subst, inl, inr, Bool, true, false, ◌&&◌, ◌||◌, Option, none, some, List, [], ◌∷◌,
}
use webhook_doorman.Prelude.Tests.{Bool-cases, Option-cases, is_some}
use webhook_doorman.Prelude.Lists.{All}
use webhook_doorman.Prelude.Text.{Text, codes, text_eq, contains}
use webhook_doorman.Json.{Value, Items, Fields, get_field, get_or_null, or_value, equals_text}
use webhook_doorman.Verification.{get_text}
use webhook_doorman.Parsers.Event.{ParsedEvent, unactionable}
use webhook_doorman.Parsers.Generic.{parse_generic}
use webhook_doorman.Parsers.Github.{
  parse_github, github_resource, github_action, github_type, github_opened, is_resource_event,
  resource_key, strip_value, with_body,
}
use webhook_doorman.Parsers.Vikunja.{parse_vikunja, vikunja_event}
use webhook_doorman.Parsers.Grafana.{
  parse_grafana, grafana_event, status_marker, with_marker, list_or_empty,
}
use webhook_doorman.Parsers.Registry.{
  Parser, builtin_parsers, get_parser, parse, parse_with, decode, parsed_or_unparseable,
}

-- The name of a field that a template can read.
abbrev pub is_field : ParsedEvent → Text → Bool
is_field e n =
    text_eq n (codes "summary") || (text_eq n (codes "payload") || is_some (get_field n e.context))

pub record IsMarked (e : ParsedEvent) : Type 0 where
  pub marks_summary : e.actionable ≡ true → contains e.untrusted_fields (codes "summary") ≡ true
  pub marks_fields : All (λ n. is_field e n ≡ true) e.untrusted_fields
  pub nothing_else : e.actionable ≡ false → e.context ≡ Fields.end

unactionable-IsMarked : (event_type summary : Text) → IsMarked (unactionable event_type summary)
unactionable-IsMarked event_type summary = record {
  marks_summary = λ h. absurd (cc);
  marks_fields = tt;
  nothing_else = λ h. refl;
}

-- A parser that does not raise gives a marked event.
abbrev MarksAll : Option ParsedEvent → Type 0
MarksAll none = Unit
MarksAll (some e) = IsMarked e

generic_marks : (v : Value) (headers : List (Text × Text)) → MarksAll (parse_generic v headers)
unfolding parse_generic text_eq
generic_marks v headers = record {
  marks_summary = λ h. refl;
  marks_fields = (refl, (refl, tt));
  nothing_else = λ h. absurd (cc);
}

module _ (container_text : Value → Text) where
  opened-IsMarked :
      (gh event_type body : Text) (fields resource : Fields)
      → IsMarked (github_opened container_text gh event_type fields resource body)
  unfolding github_opened text_eq get_field
  opened-IsMarked gh event_type body fields resource = record {
    marks_summary = λ h. refl;
    marks_fields = (refl, (refl, (refl, (refl, tt))));
    nothing_else = λ h. absurd (cc);
  }

  with_body_marks :
      (gh event_type : Text) (fields resource : Fields) (o : Option Text)
      → MarksAll (with_body container_text gh event_type fields resource o)
  with_body_marks gh event_type fields resource none = tt
  with_body_marks gh event_type fields resource (some body) =
      opened-IsMarked gh event_type body fields resource

  resource_marks :
      (gh event_type : Text) (ready : Bool) (fields : Fields) (v : Value)
      → MarksAll (github_resource container_text gh event_type ready fields v)
  unfolding github_resource
  resource_marks gh event_type true fields (Value.obj resource) =
      with_body_marks gh event_type fields resource
        (strip_value (or_value (get_or_null (codes "body") resource) (Value.str [])))
  resource_marks gh event_type true fields Value.null = unactionable-IsMarked event_type _
  resource_marks gh event_type true fields (Value.bool b) = unactionable-IsMarked event_type _
  resource_marks gh event_type true fields (Value.num n) = unactionable-IsMarked event_type _
  resource_marks gh event_type true fields (Value.str s) = unactionable-IsMarked event_type _
  resource_marks gh event_type true fields (Value.arr items) = unactionable-IsMarked event_type _
  resource_marks gh event_type false fields v = unactionable-IsMarked event_type _

  github_marks :
      (v : Value) (headers : List (Text × Text)) → MarksAll (parse_github container_text v headers)
  unfolding parse_github
  github_marks (Value.obj fields) headers =
      let gh : Text = get_text (codes "x-github-event") headers in
      elim (Bool-cases (text_eq gh (codes "ping"))) [
        | inl ping ↦ rw (ping, parse_github) (unactionable-IsMarked (codes "ping") _)
        | inr other ↦
            rw (other, parse_github)
              (resource_marks gh (github_type container_text gh (github_action fields))
                (is_resource_event gh && equals_text (github_action fields) (codes "opened")) fields
                (get_or_null (resource_key gh) fields))
      ]
  github_marks Value.null headers = unactionable-IsMarked _ _
  github_marks (Value.bool b) headers = unactionable-IsMarked _ _
  github_marks (Value.num n) headers = unactionable-IsMarked _ _
  github_marks (Value.str s) headers = unactionable-IsMarked _ _
  github_marks (Value.arr items) headers = unactionable-IsMarked _ _

  vikunja_marks :
      (v : Value) (headers : List (Text × Text)) → MarksAll (parse_vikunja container_text v headers)
  unfolding parse_vikunja vikunja_event text_eq get_field
  vikunja_marks (Value.obj fields) headers = record {
    marks_summary = λ h. refl;
    marks_fields = (refl, (refl, tt));
    nothing_else = λ h. absurd (cc);
  }
  vikunja_marks Value.null headers = unactionable-IsMarked _ _
  vikunja_marks (Value.bool b) headers = unactionable-IsMarked _ _
  vikunja_marks (Value.num n) headers = unactionable-IsMarked _ _
  vikunja_marks (Value.str s) headers = unactionable-IsMarked _ _
  vikunja_marks (Value.arr items) headers = unactionable-IsMarked _ _

  module _ (upper : Text → Text) where
    with_marker_marks :
        (payload : Fields) (status : Value) (alerts : Items) (o : Option Text)
        → MarksAll (with_marker container_text upper payload status alerts o)
    unfolding grafana_event text_eq get_field
    with_marker_marks payload status alerts none = tt
    with_marker_marks payload status alerts (some marker) = record {
      marks_summary = λ h. refl;
      marks_fields = (refl, (refl, (refl, tt)));
      nothing_else = λ h. absurd (cc);
    }

    grafana_marks :
        (v : Value) (headers : List (Text × Text))
        → MarksAll (parse_grafana container_text upper v headers)
    unfolding parse_grafana
    grafana_marks (Value.obj payload) headers =
        let status : Value =
          or_value (get_or_null (codes "status") payload) (Value.str (codes "unknown")) in
        with_marker_marks payload status (list_or_empty (get_or_null (codes "alerts") payload))
          (status_marker container_text upper status)
    grafana_marks Value.null headers = unactionable-IsMarked _ _
    grafana_marks (Value.bool b) headers = unactionable-IsMarked _ _
    grafana_marks (Value.num n) headers = unactionable-IsMarked _ _
    grafana_marks (Value.str s) headers = unactionable-IsMarked _ _
    grafana_marks (Value.arr items) headers = unactionable-IsMarked _ _

    -- Every parser of the registry marks what it returns.
    abbrev AllMark : List (Text × Parser) → Type 0
    AllMark [] = Unit
    AllMark ((name, parser) ∷ rest) =
        ((v : Value) (headers : List (Text × Text)) → MarksAll (parser v headers)) × AllMark rest

    builtin_mark : AllMark (builtin_parsers container_text upper)
    unfolding builtin_parsers
    builtin_mark = (generic_marks, (github_marks, (vikunja_marks, (grafana_marks, tt))))

    found_marks :
        (name : Text) (parsers : List (Text × Parser)) (parser : Parser)
        → AllMark parsers
        → get_parser name parsers ≡ some parser
        → (v : Value) (headers : List (Text × Text)) → MarksAll (parser v headers)
    unfolding get_parser
    found_marks name [] parser all e = absurd (cc)
    found_marks name ((known, first) ∷ rest) parser all e = elim (Bool-cases (text_eq known name)) [
      | inl here ↦
          let same : first ≡ parser = cc (rw here at e) in
          subst
            (λ (f : Parser). (v : Value) (headers : List (Text × Text)) → MarksAll (f v headers))
            same all.0
      | inr later ↦ found_marks name rest parser all.1 (rw later at e)
    ]

    parsed-IsMarked :
        (name : Text) (o : Option ParsedEvent)
        → MarksAll o
        → IsMarked (parsed_or_unparseable name o)
    parsed-IsMarked name none h = unactionable-IsMarked name _
    parsed-IsMarked name (some e) h = h

    -- Whichever parser of the program a source names, and whatever body and headers arrive, an event
    -- that is to be delivered names its summary as untrusted, each name that it gives as untrusted is
    -- one that a template can read, and an event that is not to be delivered carries no context.
    pub parse-IsMarked :
        (loads : List ℕ → Option Value) (name : Text) (body : List ℕ) (headers : List (Text × Text))
        (e : ParsedEvent)
        → parse loads (builtin_parsers container_text upper) name body headers ≡ some e
        → IsMarked e
    unfolding parse parse_with
    parse-IsMarked loads name body headers e h =
        elim (Option-cases (get_parser name (builtin_parsers container_text upper))) [
          | inl unknown ↦ absurd (cc (rw (unknown, parse) at h))
          | inr (parser, known) ↦
              let marks =
                found_marks name (builtin_parsers container_text upper) parser builtin_mark known
                  (decode loads body) headers in
              let same : parsed_or_unparseable name (parser (decode loads body) headers) ≡ e =
                cc (rw (known, parse) at h) in
              subst IsMarked same (parsed-IsMarked name (parser (decode loads body) headers) marks)
        ]
