-- ===== src/Json.antt =====
-- A decoded JSON document, as `json.loads` gives it to the rest of the program: the values that
-- webhook_doorman/filtering.py, redaction.py, sanitize.py and parsers.py walk.
use webhook_doorman.Prelude.{Bool, true, false, ◌≡◌, refl, Option, none, some, [], ◌∷◌, arith}
use webhook_doorman.Prelude.Tests.{if◌then◌else◌}
use webhook_doorman.Prelude.Text.{Text, text_eq, text_eq_iff}

-- A JSON number, by what the program asks of it: its `str()` and whether it counts as true.
pub record Numeral : Type 0 where
  pub text : Text
  pub nonzero : Bool

-- `Items` and `Fields` are the lists and dictionaries; a dictionary keeps insertion order.
mutual
  pub data Value : Type 0 where
    null : Value
    bool : Bool → Value
    num : Numeral → Value
    str : Text → Value
    arr : Items → Value
    obj : Fields → Value

  pub data Items : Type 0 where
    nil : Items
    cons : Value → Items → Items

  pub data Fields : Type 0 where
    end : Fields
    field : Text → Value → Fields → Fields

-- `d[k]`, with `none` for a key that is not in the dictionary.
unfoldable pub get_field : Text → Fields → Option Value
get_field k end = none
get_field k (field j v fs) = let rest = get_field k fs in if text_eq j k then some v else rest

-- `d.get(k)`.
unfoldable pub get_or_null : Text → Fields → Value
unfolding get_field
get_or_null k fs = elim (get_field k fs) [ none ↦ Value.null | some v ↦ v ]

-- `bool(v)`.
abbrev pub is_truthy : Value → Bool
is_truthy Value.null = false
is_truthy (Value.bool b) = b
is_truthy (Value.num n) = n.nonzero
is_truthy (Value.str []) = false
is_truthy (Value.str (c ∷ t)) = true
is_truthy (Value.arr Items.nil) = false
is_truthy (Value.arr (Items.cons v items)) = true
is_truthy (Value.obj Fields.end) = false
is_truthy (Value.obj (Fields.field k v fs)) = true

-- `v or w`.
abbrev pub or_value : Value → Value → Value
or_value v w = if is_truthy v then v else w

-- `v == "…"`: no other type of value equals a text.
abbrev pub equals_text : Value → Text → Bool
equals_text (Value.str s) t = text_eq s t
equals_text _ t = false

-- `d[k] = v`: in place for a key that is there, at the end for a new one.
unfoldable pub set_field : Text → Value → Fields → Fields
set_field k v end = field k v end
set_field k v (field j w fs) =
    let rest = set_field k v fs in if text_eq j k then field j v fs else field j w rest

pub get_field-set_field :
    (k j : Text) (v : Value) (fs : Fields)
    → get_field j (set_field k v fs) ≡ (if text_eq k j then some v else get_field j fs)
unfolding get_field set_field
get_field-set_field k j v end = refl
get_field-set_field k j v (field i w fs) =
    ground (arith, get_field-set_field k j v fs, text_eq_iff i k, text_eq_iff i j, text_eq_iff k j)
