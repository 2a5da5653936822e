-- ===== src/Filtering.antt =====
-- Admission control (webhook_doorman/filtering.py, with the filter models of config.py): which
-- events a source may emit, and which of its sinks get one. `str()` of a list or a dictionary,
-- which `_as_text` falls back to, is Python's own and an argument here.
pub mod Admission
pub mod Routing
pub mod Truncate
use webhook_doorman.Prelude.{ℕ, Bool, true, false, not, ◌||◌, Option, none, some, List, [], ◌∷◌}
use webhook_doorman.Prelude.Tests.{if◌then◌else◌, ◌==◌}
use webhook_doorman.Prelude.Text.{Text, codes, contains}
use webhook_doorman.Json.{Value, Items, Fields, get_field}
use webhook_doorman.Models.{Reason, FilterVerdict}

-- `_EventFilter`: a dictionary of paths keeps the order of the configuration.
pub record EventFilter : Type 0 where
  pub event_types : Option (List Text)
  pub require : List (Text × List Text)
  pub deny : List (Text × List Text)

pub record SinkRoute : Type 0 where
  pub name : Text
  pub filter : Option EventFilter

pub record SourceFilter : Type 0 where
  pub gates : EventFilter
  pub max_field_bytes : Option ℕ

abbrev push : ℕ → List Text → List Text
push c [] = (c ∷ []) ∷ []
push c (w ∷ ws) = (c ∷ w) ∷ ws

-- `text.split(c)` for one character.
unfoldable pub split : ℕ → Text → List Text
split c [] = [] ∷ []
split c (x ∷ xs) = let rest = split c xs in if x == c then [] ∷ rest else push x rest

-- The loop of `dig`: `none` is `MISSING`.
unfoldable pub dig_parts : List Text → Value → Option Value
dig_parts [] v = some v
dig_parts (part ∷ parts) (Value.obj fields) = elim (get_field part fields) [
  | none ↦ none
  | some v ↦ dig_parts parts v
]
dig_parts (part ∷ parts) v = none

unfoldable pub dig : Value → Text → Option Value
unfolding split dig_parts
dig payload path = dig_parts (split b'.' path) payload

abbrev pub admitted : FilterVerdict
admitted = record { admitted = true; reason = none; detail = none }

abbrev pub refused : Reason → Text → FilterVerdict
refused reason detail = record { admitted = false; reason = some reason; detail = some detail }

-- `allowed_types is not None and event_type not in allowed_types`, the other way round.
unfoldable pub type_allowed : Option (List Text) → Text → Bool
type_allowed none event_type = true
type_allowed (some types) event_type = contains types event_type

unfoldable pub check_require : Option Text → FilterVerdict
check_require none = admitted
check_require (some path) = refused Reason.require path

unfoldable pub check_deny : Option Text → FilterVerdict → FilterVerdict
check_deny none next = next
check_deny (some path) next = refused Reason.deny path

module _ (container_text : Value → Text) where
  unfoldable pub as_text : Value → Text
  as_text (Value.bool true) = codes "true"
  as_text (Value.bool false) = codes "false"
  as_text Value.null = codes "null"
  as_text (Value.num n) = n.text
  as_text (Value.str s) = s
  as_text (Value.arr items) = container_text (Value.arr items)
  as_text (Value.obj fields) = container_text (Value.obj fields)

  unfoldable pub any_item : List Text → Items → Bool
  unfolding as_text
  any_item allowed Items.nil = false
  any_item allowed (Items.cons v items) = contains allowed (as_text v) || any_item allowed items

  unfoldable pub matches : Value → List Text → Bool
  unfolding as_text any_item
  matches (Value.arr items) allowed = any_item allowed items
  matches v allowed = contains allowed (as_text v)

  -- Does the path resolve, to a value that matches? `deny` refuses and `require` asks for this.
  unfoldable pub holds : Value → Text × List Text → Bool
  holds payload (path, values) = elim (dig payload path) [
    | none ↦ false
    | some v ↦ matches v values
  ]

  -- The loop over `deny`: the first path that refuses.
  unfoldable pub first_denied : List (Text × List Text) → Value → Option Text
  first_denied [] payload = none
  first_denied (rule ∷ rules) payload =
      let rest = first_denied rules payload in if holds payload rule then some (rule.0) else rest

  -- The loop over `require`: the first path that does not hold.
  unfoldable pub first_unmet : List (Text × List Text) → Value → Option Text
  first_unmet [] payload = none
  first_unmet (rule ∷ rules) payload =
      let rest = first_unmet rules payload in if holds payload rule then rest else some (rule.0)

  unfoldable pub evaluate : EventFilter → Text → Value → FilterVerdict
  unfolding check_require check_deny
  evaluate f event_type payload =
      if type_allowed f.event_types event_type
      then check_deny (first_denied f.deny payload) (check_require (first_unmet f.require payload))
      else refused Reason.event_type event_type

  unfoldable pub route_verdict : SinkRoute → Text → Value → FilterVerdict
  route_verdict r event_type payload = elim (r.filter) [
    | none ↦ admitted
    | some f ↦ evaluate f event_type payload
  ]

  -- `(sinks, refused)`.
  unfoldable pub route : List SinkRoute → Text → Value → List Text × List (Text × FilterVerdict)
  route [] event_type payload = ([], [])
  route (r ∷ routes) event_type payload =
      let (sinks, out) = route routes event_type payload in
      let verdict = route_verdict r event_type payload in
      if verdict.admitted then (r.name ∷ sinks, out) else (sinks, (r.name, verdict) ∷ out)
