-- ===== src/Parsers/Registry.antt =====
-- The parsers by name, and the run of one over a body (webhook_doorman/parsers.py, `get_parser`,
-- `register_parser` and `parse`). `json.loads` is an argument: `none` stands for the errors that
-- `_decode` catches. A name that is not in the registry is `none` where the source raises
-- `ConfigError`; the handler asks for its parser once, when the application is built.
use webhook_doorman.Prelude.{ℕ, Option, none, some, List, [], ◌∷◌, ◌++◌}
use webhook_doorman.Prelude.Tests.{if◌then◌else◌}
use webhook_doorman.Prelude.Text.{Text, codes, text_eq}
use webhook_doorman.Json.{Value}
use webhook_doorman.Parsers.Event.{ParsedEvent, unactionable}
use webhook_doorman.Parsers.Generic.{parse_generic}
use webhook_doorman.Parsers.Github.{parse_github}
use webhook_doorman.Parsers.Vikunja.{parse_vikunja}
use webhook_doorman.Parsers.Grafana.{parse_grafana}

abbrev pub Parser : Type 0
Parser = Value → List (Text × Text) → Option ParsedEvent

unfoldable pub builtin_parsers : (Value → Text) → (Text → Text) → List (Text × Parser)
unfolding parse_generic parse_github parse_vikunja parse_grafana
builtin_parsers container_text upper =
    (codes "generic", parse_generic)
    ∷ (codes "github", parse_github container_text)
    ∷ (codes "vikunja", parse_vikunja container_text)
    ∷ (codes "grafana", parse_grafana container_text upper)
    ∷ []

unfoldable pub get_parser : Text → List (Text × Parser) → Option Parser
get_parser name [] = none
get_parser name ((known, parser) ∷ rest) =
    let found = get_parser name rest in if text_eq known name then some parser else found

unfoldable pub register_parser : Text → Parser → List (Text × Parser) → List (Text × Parser)
register_parser name parser [] = (name, parser) ∷ []
register_parser name parser ((known, old) ∷ rest) =
    let next = register_parser name parser rest in
    if text_eq known name then (known, parser) ∷ rest else (known, old) ∷ next

abbrev pub decoded_or_null : Option Value → Value
decoded_or_null none = Value.null
decoded_or_null (some v) = v

-- `except Exception`: a parser that raises leaves an event with nothing to deliver.
abbrev pub parsed_or_unparseable : Text → Option ParsedEvent → ParsedEvent
parsed_or_unparseable name none =
    unactionable name (codes "unparseable " ++ (name ++ codes " payload"))
parsed_or_unparseable name (some e) = e

module _ (loads : List ℕ → Option Value) where
  unfoldable pub decode : List ℕ → Value
  decode body = decoded_or_null (loads body)

  unfoldable pub parse_with : Text → Parser → List ℕ → List (Text × Text) → ParsedEvent
  unfolding decode
  parse_with name parser body headers = parsed_or_unparseable name (parser (decode body) headers)

  unfoldable pub parse :
      List (Text × Parser) → Text → List ℕ → List (Text × Text) → Option ParsedEvent
  unfolding get_parser parse_with
  parse parsers name body headers = elim (get_parser name parsers) [
    | none ↦ none
    | some parser ↦ some (parse_with name parser body headers)
  ]
