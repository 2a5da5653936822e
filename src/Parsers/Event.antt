-- ===== src/Parsers/Event.antt =====
-- What a parser returns (webhook_doorman/parsers.py, `ParsedEvent` and `_dig`). A parser that raises
-- is `none`. `str()` of a list or a dictionary is Python's own and an argument.
use webhook_doorman.Prelude.{ℕ, Bool, true, false, List, [], ◌∷◌}
use webhook_doorman.Prelude.Tests.{ltb}
use webhook_doorman.Prelude.Text.{Text, codes}
use webhook_doorman.Json.{Value, Fields, get_or_null}
use webhook_doorman.Context.{decimal}

-- `event_type` is a value, since Vikunja's is what the payload holds.
pub record ParsedEvent : Type 0 where
  pub event_type : Value
  pub summary : Text
  pub actionable : Bool
  pub context : Fields
  pub untrusted_fields : List Text

-- `ParsedEvent(event_type, summary, actionable=False)`.
abbrev pub unactionable : Text → Text → ParsedEvent
unactionable event_type summary = record {
  event_type = Value.str event_type;
  summary = summary;
  actionable = false;
  context = Fields.end;
  untrusted_fields = [];
}

unfoldable pub dig_keys : Value → List Text → Value
dig_keys current [] = current
dig_keys (Value.obj fields) (key ∷ keys) = dig_keys (get_or_null key fields) keys
dig_keys current (key ∷ keys) = Value.null

-- A count in a context.
abbrev pub number : ℕ → Value
number n = Value.num (record { text = decimal n; nonzero = ltb 0 n })

-- `str()` of a value, as an f-string writes it.
unfoldable pub format : (Value → Text) → Value → Text
format container_text (Value.str s) = s
format container_text (Value.num n) = n.text
format container_text (Value.bool true) = codes "True"
format container_text (Value.bool false) = codes "False"
format container_text Value.null = codes "None"
format container_text (Value.arr items) = container_text (Value.arr items)
format container_text (Value.obj fields) = container_text (Value.obj fields)
