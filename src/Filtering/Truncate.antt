-- ===== src/Filtering/Truncate.antt =====
-- The byte cap on a stored field (webhook_doorman/filtering.py, `truncate_text` and `truncate`).
-- `none` is the `UnicodeEncodeError` that a lone surrogate makes `str.encode` raise.
pub mod Cut
use webhook_doorman.Prelude.{ℕ, Option, none, some, List, ◌++◌}
use webhook_doorman.Prelude.Tests.{if◌then◌else◌, leb}
use webhook_doorman.Prelude.Lists.{length, take}
use webhook_doorman.Prelude.Text.{Text, codes}
use webhook_doorman.Prelude.Utf8.{encode, decode_ignoring}
use webhook_doorman.Json.{Value, Items, Fields}

abbrev pub truncation_marker : Text
truncation_marker = codes "…[truncated]"

unfoldable pub cut_bytes : Text → ℕ → List ℕ → Text
cut_bytes text limit encoded =
    if leb (length encoded) limit
    then text
    else decode_ignoring (take limit encoded) ++ truncation_marker

abbrev pub cut_encoded : Text → ℕ → Option (List ℕ) → Option Text
cut_encoded text limit none = none
cut_encoded text limit (some encoded) = some (cut_bytes text limit encoded)

unfoldable pub truncate_text : Text → ℕ → Option Text
unfolding cut_bytes
truncate_text text limit = cut_encoded text limit (encode text)

abbrev pub as_str : Option Text → Option Value
as_str none = none
as_str (some t) = some (Value.str t)

abbrev pub as_arr : Option Items → Option Value
as_arr none = none
as_arr (some items) = some (Value.arr items)

abbrev pub as_obj : Option Fields → Option Value
as_obj none = none
as_obj (some fields) = some (Value.obj fields)

abbrev pub cons_both : Option Value → Option Items → Option Items
cons_both none items = none
cons_both (some v) none = none
cons_both (some v) (some items) = some (Items.cons v items)

abbrev pub field_both : Text → Option Value → Option Fields → Option Fields
field_both k none fields = none
field_both k (some v) none = none
field_both k (some v) (some fields) = some (Fields.field k v fields)

-- Every string of a decoded structure, and no key.
unfoldable mutual
  unfolding truncate_text

  pub truncate_value : ℕ → Value → Option Value
  truncate_value limit (Value.str s) = as_str (truncate_text s limit)
  truncate_value limit (Value.obj fields) = as_obj (truncate_fields limit fields)
  truncate_value limit (Value.arr items) = as_arr (truncate_items limit items)
  truncate_value limit Value.null = some Value.null
  truncate_value limit (Value.bool b) = some (Value.bool b)
  truncate_value limit (Value.num n) = some (Value.num n)

  pub truncate_items : ℕ → Items → Option Items
  truncate_items limit Items.nil = some Items.nil
  truncate_items limit (Items.cons v items) =
      cons_both (truncate_value limit v) (truncate_items limit items)

  pub truncate_fields : ℕ → Fields → Option Fields
  truncate_fields limit Fields.end = some Fields.end
  truncate_fields limit (Fields.field k v fields) =
      field_both k (truncate_value limit v) (truncate_fields limit fields)

-- A source with no cap keeps the value.
unfoldable pub truncate : Value → Option ℕ → Option Value
unfolding truncate_value
truncate v none = some v
truncate v (some limit) = truncate_value limit v

-- The two calls of `truncate`, on the summary and on the context.
unfoldable pub truncate_summary : Text → Option ℕ → Option Text
unfolding truncate_text
truncate_summary text none = some text
truncate_summary text (some limit) = truncate_text text limit

unfoldable pub truncate_context : Fields → Option ℕ → Option Fields
unfolding truncate_fields
truncate_context fields none = some fields
truncate_context fields (some limit) = truncate_fields limit fields
