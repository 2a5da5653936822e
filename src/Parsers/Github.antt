-- ===== src/Parsers/Github.antt =====
-- The GitHub parser (webhook_doorman/parsers.py, `parse_github`).
use webhook_doorman.Prelude.{Bool, true, false, ◌&&◌, ◌||◌, Option, none, some, List, [], ◌∷◌, ◌++◌}
use webhook_doorman.Prelude.Tests.{if◌then◌else◌}
use webhook_doorman.Prelude.Text.{Text, codes, text_eq, or_text, strip}
use webhook_doorman.Json.{Value, Fields, get_field, get_or_null, is_truthy, or_value, equals_text}
use webhook_doorman.Verification.{get_text}
use webhook_doorman.Parsers.Event.{ParsedEvent, unactionable, dig_keys, format}

-- `(v or "").strip()`: only a text has the method.
abbrev pub strip_value : Value → Option Text
strip_value (Value.str s) = some (strip s)
strip_value v = none

abbrev pub github_action : Fields → Value
github_action fields = elim (get_field (codes "action") fields) [ none ↦ Value.str [] | some v ↦ v ]

abbrev pub resource_number : Fields → Value
resource_number fields = elim (get_field (codes "number") fields) [
  | none ↦ Value.str (codes "?")
  | some v ↦ v
]

-- The key of the resource, which is read for every event name.
abbrev pub resource_key : Text → Text
resource_key gh_event =
    if text_eq gh_event (codes "issues") then codes "issue" else codes "pull_request"

abbrev pub is_resource_event : Text → Bool
is_resource_event gh_event =
    text_eq gh_event (codes "issues") || text_eq gh_event (codes "pull_request")

module _ (container_text : Value → Text) where
  unfoldable pub github_type : Text → Value → Text
  unfolding format
  github_type gh_event action =
      if is_truthy action
      then gh_event ++ b'.' ∷ format container_text action
      else or_text gh_event (codes "github")

  -- The event of an opened issue or pull request, once its body is a text.
  unfoldable pub github_opened : Text → Text → Fields → Fields → Text → ParsedEvent
  unfolding dig_keys format
  github_opened gh_event event_type fields resource body =
      let repo : Value =
        or_value (dig_keys (Value.obj fields) (codes "repository" ∷ codes "full_name" ∷ []))
          (Value.str (codes "unknown/unknown")) in
      let number : Value = resource_number resource in
      let title : Value =
        or_value (get_or_null (codes "title") resource) (Value.str (codes "(untitled)")) in
      let author : Value =
        or_value (dig_keys (Value.obj resource) (codes "user" ∷ codes "login" ∷ []))
          (Value.str (codes "unknown")) in
      record {
        event_type = Value.str event_type;
        summary =
            b'[' ∷ format container_text repo
            ++ (b'#' ∷ format container_text number ++ (codes "] " ++ format container_text title));
        actionable = true;
        context = Fields.field (codes "repo") repo (
            Fields.field (codes "number") number (
              Fields.field (codes "title") title (
                Fields.field (codes "url")
                  (or_value (get_or_null (codes "html_url") resource) (Value.str []))
                  (Fields.field (codes "author") author (
                    Fields.field (codes "body") (Value.str body) (
                      Fields.field (codes "kind")
                        (Value.str (
                          if text_eq gh_event (codes "pull_request")
                          then codes "PR"
                          else codes "issue"))
                        Fields.end))))));
        untrusted_fields = codes "summary" ∷ codes "title" ∷ codes "body" ∷ codes "author" ∷ [];
      }

  abbrev pub with_body : Text → Text → Fields → Fields → Option Text → Option ParsedEvent
  with_body gh_event event_type fields resource none = none
  with_body gh_event event_type fields resource (some body) =
      some (github_opened gh_event event_type fields resource body)

  -- The guard on what is actionable: the event, the action, and a resource that is a dictionary.
  unfoldable pub github_resource : Text → Text → Bool → Fields → Value → Option ParsedEvent
  unfolding github_opened
  github_resource gh_event event_type true fields (Value.obj resource) =
      with_body gh_event event_type fields resource
        (strip_value (or_value (get_or_null (codes "body") resource) (Value.str [])))
  github_resource gh_event event_type true fields v =
      some (unactionable event_type (codes "GitHub " ++ event_type))
  github_resource gh_event event_type false fields v =
      some (unactionable event_type (codes "GitHub " ++ event_type))

  unfoldable pub parse_github : Value → List (Text × Text) → Option ParsedEvent
  unfolding github_type github_resource
  parse_github (Value.obj fields) headers =
      let gh_event = get_text (codes "x-github-event") headers in
      let action = github_action fields in
      if text_eq gh_event (codes "ping")
      then some (unactionable (codes "ping") (codes "GitHub webhook ping"))
      else github_resource gh_event (github_type gh_event action)
          (is_resource_event gh_event && equals_text action (codes "opened")) fields
          (get_or_null (resource_key gh_event) fields)
  parse_github v headers = some (
      unactionable (or_text (get_text (codes "x-github-event") headers) (codes "github"))
        (codes "unparseable GitHub payload"))
