-- ===== src/Parsers/Generic.antt =====
-- The default parser (webhook_doorman/parsers.py, `parse_generic`).
use webhook_doorman.Prelude.{true, Option, some, List, [], ◌∷◌, ◌++◌}
use webhook_doorman.Prelude.Text.{Text, codes, or_text}
use webhook_doorman.Json.{Value, Fields, get_or_null}
use webhook_doorman.Verification.{get_text}
use webhook_doorman.Parsers.Event.{ParsedEvent}

abbrev pub event_keys : List Text
event_keys =
    codes "event" ∷ codes "event_name" ∷ codes "event_type" ∷ codes "type" ∷ codes "action" ∷ []

-- The body of the loop: a nonempty text names the event, and anything else leaves it to the next key.
abbrev pub named_or : Value → Text → Text
named_or (Value.str (c ∷ t)) rest = c ∷ t
named_or v rest = rest

unfoldable pub first_named : List Text → Fields → Text → Text
first_named [] fields event_type = event_type
first_named (key ∷ keys) fields event_type =
    named_or (get_or_null key fields) (first_named keys fields event_type)

unfoldable pub generic_type : Value → Text → Text
unfolding first_named
generic_type (Value.obj fields) event_type = first_named event_keys fields event_type
generic_type v event_type = event_type

unfoldable pub parse_generic : Value → List (Text × Text) → Option ParsedEvent
unfolding generic_type
parse_generic payload headers =
    let event_type = generic_type payload (
      or_text (get_text (codes "x-event-type") headers)
        (or_text (get_text (codes "x-github-event") headers) (codes "webhook"))) in
    some (record {
      event_type = Value.str event_type;
      summary = event_type ++ codes " event received";
      actionable = true;
      context = Fields.end;
      untrusted_fields = codes "summary" ∷ codes "payload" ∷ [];
    })
