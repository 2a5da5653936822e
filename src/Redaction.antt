-- ===== src/Redaction.antt =====
-- Stripping resolved secrets from text (webhook_doorman/redaction.py).
pub mod Stored
pub mod Headers
pub mod Gone
pub mod Cleared
pub mod Bytes
use webhook_doorman.Prelude.{ℕ, zero, suc, ◌-◌, Bool, true, false, not, ◌&&◌, List, [], ◌∷◌, ◌++◌}
use webhook_doorman.Prelude.Tests.{if◌then◌else◌, leb, ◌==◌}
use webhook_doorman.Prelude.Lists.{length}
use webhook_doorman.Prelude.Sort.{sort_by}
use webhook_doorman.Prelude.Text.{Text, codes, contains}
use webhook_doorman.Json.{Value, Items, Fields, set_field}

abbrev pub redacted : Text
redacted = codes "<redacted>"

abbrev pub min_redactable_length : ℕ
min_redactable_length = 8

unfoldable pub starts_with : Text → Text → Bool
starts_with [] t = true
starts_with (p ∷ ps) [] = false
starts_with (p ∷ ps) (c ∷ t) = p == c && starts_with ps t

-- `text.replace(old, new)` for a nonempty `old`: the counter skips the characters of a match.
unfoldable pub replace_from : Text → Text → ℕ → Text → Text
unfolding starts_with
replace_from old new n [] = []
replace_from old new (suc n) (c ∷ t) = replace_from old new n t
replace_from old new zero (c ∷ t) = elim (starts_with old (c ∷ t)) [
  | true ↦ new ++ replace_from old new (length old - 1) t
  | false ↦ c ∷ replace_from old new zero t
]

unfoldable pub replace : Text → Text → Text → Text
unfolding replace_from
replace old new = replace_from old new 0

abbrev pub longer : Text → Text → Bool
longer a b = leb (length b) (length a)

-- The set comprehension of `_redactable`.
unfoldable pub long_enough : List Text → List Text
long_enough [] = []
long_enough (v ∷ vs) =
    let rest = long_enough vs in
    if leb min_redactable_length (length v) && not (contains rest v) then v ∷ rest else rest

-- Longest first. Python leaves the order of two secrets of one length open.
unfoldable pub redactable : List Text → List Text
unfolding long_enough
redactable secrets = sort_by longer (long_enough secrets)

unfoldable pub redact_all : List Text → Text → Text
unfolding replace
redact_all [] text = text
redact_all (v ∷ vs) text = redact_all vs (replace v redacted text)

unfoldable pub redact_text : Text → List Text → Text
unfolding redact_all redactable
redact_text text secrets = redact_all (redactable secrets) text

-- `_walk`: keys too.
unfoldable mutual
  unfolding redact_all

  pub walk : List Text → Value → Value
  walk values (Value.str s) = Value.str (redact_all values s)
  walk values (Value.obj fields) = Value.obj (walk_fields values Fields.end fields)
  walk values (Value.arr items) = Value.arr (walk_items values items)
  walk values Value.null = Value.null
  walk values (Value.bool b) = Value.bool b
  walk values (Value.num n) = Value.num n

  pub walk_items : List Text → Items → Items
  walk_items values Items.nil = Items.nil
  walk_items values (Items.cons v items) = Items.cons (walk values v) (walk_items values items)

  -- A key that redaction makes equal to an earlier one takes its place.
  pub walk_fields : List Text → Fields → Fields → Fields
  walk_fields values acc Fields.end = acc
  walk_fields values acc (Fields.field k v fields) =
      walk_fields values (set_field (redact_all values k) (walk values v) acc) fields

unfoldable pub redact_json : Value → List Text → Value
unfolding walk
redact_json v secrets = walk (redactable secrets) v
