-- ===== src/Parsers/Actionable.antt =====
-- Which payloads a parser finds worth delivering (webhook_doorman/parsers.py).
use webhook_doorman.Prelude.{
  ℕ, ◌≡◌, refl, ◌↔◌, ◌⊎◌, inl, inr, Bool, true, false, ◌&&◌, Option, List, [],
}
use webhook_doorman.Prelude.Tests.{Bool-cases, &&_parts}
use webhook_doorman.Prelude.Text.{Text, codes, text_eq, text_eq_sound, text_eq_iff}
use webhook_doorman.Json.{Value, Fields, get_or_null, or_value, equals_text}
use webhook_doorman.Verification.{get_text}
use webhook_doorman.Parsers.Event.{ParsedEvent}
use webhook_doorman.Parsers.Github.{
  parse_github, github_resource, github_action, github_type, github_opened, is_resource_event,
  resource_key, strip_value, with_body,
}
use webhook_doorman.Parsers.Registry.{parse_with, decode, parsed_or_unparseable}

equals_text_iff : (v : Value) (t : Text) → (equals_text v t ≡ true) ↔ (v ≡ Value.str t)
equals_text_iff (Value.str s) t =
    (λ h. rw (text_eq_sound s t h) refl, λ h. (text_eq_iff s t).1 (cc))
equals_text_iff Value.null t = (λ h. absurd (cc), λ h. absurd (cc))
equals_text_iff (Value.bool b) t = (λ h. absurd (cc), λ h. absurd (cc))
equals_text_iff (Value.num n) t = (λ h. absurd (cc), λ h. absurd (cc))
equals_text_iff (Value.arr items) t = (λ h. absurd (cc), λ h. absurd (cc))
equals_text_iff (Value.obj fields) t = (λ h. absurd (cc), λ h. absurd (cc))

-- The body of a resource, as the parser reads it: absent and empty ones read as the empty text.
abbrev pub resource_body : Fields → Value
resource_body resource = or_value (get_or_null (codes "body") resource) (Value.str [])

-- A newly opened issue or pull request, whose body, if there is one, is a text.
pub record IsOpened (headers : List (Text × Text)) (payload : Value) : Type 0 where
  pub fields : Fields
  pub resource : Fields
  pub text : Text
  pub decoded : payload ≡ Value.obj fields
  pub kind :
      (get_text (codes "x-github-event") headers ≡ codes "issues")
      ⊎ (get_text (codes "x-github-event") headers ≡ codes "pull_request")
  pub action : github_action fields ≡ Value.str (codes "opened")
  pub found :
      get_or_null (resource_key (get_text (codes "x-github-event") headers)) fields
      ≡ Value.obj resource
  pub body : resource_body resource ≡ Value.str text

module _ (container_text : Value → Text) (name : Text) where
  abbrev acts : Option ParsedEvent → Bool
  acts o = (parsed_or_unparseable name o).actionable

  body_acts :
      (gh_event event_type : Text) (fields resource : Fields) (v : Value)
      → (acts (with_body container_text gh_event event_type fields resource (strip_value v)) ≡ true)
        ↔ ((t : Text) × (v ≡ Value.str t))
  unfolding github_opened
  body_acts gh_event event_type fields resource (Value.str s) = (λ h. (s, refl), λ h. refl)
  body_acts gh_event event_type fields resource Value.null =
      (λ h. absurd (cc), λ h. absurd (cc (h.1)))
  body_acts gh_event event_type fields resource (Value.bool b) =
      (λ h. absurd (cc), λ h. absurd (cc (h.1)))
  body_acts gh_event event_type fields resource (Value.num n) =
      (λ h. absurd (cc), λ h. absurd (cc (h.1)))
  body_acts gh_event event_type fields resource (Value.arr items) =
      (λ h. absurd (cc), λ h. absurd (cc (h.1)))
  body_acts gh_event event_type fields resource (Value.obj other) =
      (λ h. absurd (cc), λ h. absurd (cc (h.1)))

  abbrev HasBody : Value → Type 0
  HasBody v =
      (resource : Fields) × (t : Text) × (v ≡ Value.obj resource)
      × (resource_body resource ≡ Value.str t)

  resource_acts :
      (gh_event event_type : Text) (ready : Bool) (fields : Fields) (v : Value)
      → (acts (github_resource container_text gh_event event_type ready fields v) ≡ true)
        ↔ ((ready ≡ true) × HasBody v)
  unfolding github_resource
  resource_acts gh_event event_type true fields (Value.obj resource) =
      let both = body_acts gh_event event_type fields resource (resource_body resource) in
      (
        λ h. (refl, (resource, (both.0 h).0, refl, (both.0 h).1)),
        λ h. let same : resource ≡ h.1.0 = cc (h.1.2) in both.1 (h.1.1, rw same (h.1.3)),
      )
  resource_acts gh_event event_type true fields Value.null =
      (λ h. absurd (cc), λ h. absurd (cc (h.1.2)))
  resource_acts gh_event event_type true fields (Value.bool b) =
      (λ h. absurd (cc), λ h. absurd (cc (h.1.2)))
  resource_acts gh_event event_type true fields (Value.num n) =
      (λ h. absurd (cc), λ h. absurd (cc (h.1.2)))
  resource_acts gh_event event_type true fields (Value.str s) =
      (λ h. absurd (cc), λ h. absurd (cc (h.1.2)))
  resource_acts gh_event event_type true fields (Value.arr items) =
      (λ h. absurd (cc), λ h. absurd (cc (h.1.2)))
  resource_acts gh_event event_type false fields v = (λ h. absurd (cc), λ h. absurd (cc (h.0)))

  is_resource_event_iff :
      (t : Text)
      → (is_resource_event t ≡ true) ↔ ((t ≡ codes "issues") ⊎ (t ≡ codes "pull_request"))
  is_resource_event_iff t = elim (Bool-cases (text_eq t (codes "issues"))) [
    | inl e ↦ rw e (λ h. inl (text_eq_sound t (codes "issues") e), λ h. refl)
    | inr e ↦ rw e (
      λ h. inr (text_eq_sound t (codes "pull_request") h),
      λ h. elim h [
        | inl i ↦ absurd (cc ((text_eq_iff t (codes "issues")).1 i))
        | inr k ↦ (text_eq_iff t (codes "pull_request")).1 k
      ],
    )
  ]

  module _ (headers : List (Text × Text)) where
    abbrev gh : Text
    gh = get_text (codes "x-github-event") headers

    ping_differs : is_resource_event (codes "ping") ≡ false
    unfolding text_eq
    ping_differs = refl

    ping_is_none : gh ≡ codes "ping" → is_resource_event gh ≡ true → ⊥
    ping_is_none e h = cc ping_differs

    object_acts :
        (fields : Fields)
        → (acts (parse_github container_text (Value.obj fields) headers) ≡ true) ↔ (
            ((is_resource_event gh && equals_text (github_action fields) (codes "opened")) ≡ true)
            × HasBody (get_or_null (resource_key gh) fields))
    unfolding parse_github
    object_acts fields = elim (Bool-cases (text_eq gh (codes "ping"))) [
      | inl ping ↦
          rw (ping, parse_github)
            (
              λ h. absurd (cc),
              λ h. absurd (
                  ping_is_none (text_eq_sound gh (codes "ping") ping) (
                    (&&_parts (is_resource_event gh)
                      (equals_text (github_action fields) (codes "opened")) h.0).0)),
            )
      | inr other ↦
          rw (other, parse_github)
            (resource_acts gh (github_type container_text gh (github_action fields))
              (is_resource_event gh && equals_text (github_action fields) (codes "opened")) fields
              (get_or_null (resource_key gh) fields))
    ]

    value_acts :
        (v : Value) → (acts (parse_github container_text v headers) ≡ true) ↔ IsOpened headers v
    unfolding parse_github
    value_acts (Value.obj fields) = (
      λ h.
          let facts = (object_acts fields).0 h in
          let test =
            &&_parts (is_resource_event gh) (equals_text (github_action fields) (codes "opened"))
              facts.0 in
          record {
            fields = fields;
            resource = facts.1.0;
            text = facts.1.1;
            decoded = refl;
            kind = (is_resource_event_iff gh).0 test.0;
            action = (equals_text_iff (github_action fields) (codes "opened")).0 test.1;
            found = facts.1.2;
            body = facts.1.3;
          },
      λ h.
          let same : fields ≡ h.fields = cc (h.decoded) in
          (object_acts fields).1 (
            rw ((is_resource_event_iff gh).1 h.kind)
                ((equals_text_iff (github_action fields) (codes "opened")).1 (rw same h.action)),
            (h.resource, h.text, rw same h.found, h.body),
          ),
    )
    value_acts Value.null = (λ h. absurd (cc), λ h. absurd (cc (h.decoded)))
    value_acts (Value.bool b) = (λ h. absurd (cc), λ h. absurd (cc (h.decoded)))
    value_acts (Value.num n) = (λ h. absurd (cc), λ h. absurd (cc (h.decoded)))
    value_acts (Value.str s) = (λ h. absurd (cc), λ h. absurd (cc (h.decoded)))
    value_acts (Value.arr items) = (λ h. absurd (cc), λ h. absurd (cc (h.decoded)))

    -- A GitHub body, whatever it decodes to, is actionable exactly when it is an object, the event
    -- header says `issues` or `pull_request`, its `action` is `opened`, the resource of that event is
    -- an object, and the resource's body, if it has one, is a text.
    pub parse_github_acts_iff :
        (loads : List ℕ → Option Value) (body : List ℕ)
        → ((parse_with loads name (parse_github container_text) body headers).actionable ≡ true)
          ↔ IsOpened headers (decode loads body)
    unfolding parse_with
    parse_github_acts_iff loads body = value_acts (decode loads body)
