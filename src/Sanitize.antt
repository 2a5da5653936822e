-- ===== src/Sanitize.antt =====
-- Characters with no place in a webhook payload (webhook_doorman/sanitize.py). NFKC is
-- `unicodedata.normalize` and an argument here; what a theorem needs of it stands among its
-- hypotheses.
pub mod Laws
use webhook_doorman.Prelude.{
  ℕ, Bool, true, false, not, ◌&&◌, ◌||◌, Option, none, some, List, [], ◌∷◌, ◌++◌,
}
use webhook_doorman.Prelude.Tests.{if◌then◌else◌, ltb, leb, ◌==◌}
use webhook_doorman.Prelude.Lists.{any}
use webhook_doorman.Prelude.Text.{Text, text_eq}
use webhook_doorman.Json.{Value, Items, Fields}

-- `SANITIZE_CLASSES`.
pub data Class : Type 0 where
  tag bidi zero_width control normalized : Class

abbrev pub class_eq : Class → Class → Bool
class_eq Class.tag Class.tag = true
class_eq Class.bidi Class.bidi = true
class_eq Class.zero_width Class.zero_width = true
class_eq Class.control Class.control = true
class_eq Class.normalized Class.normalized = true
class_eq _ _ = false

-- `lo <= point <= hi`.
abbrev pub within : ℕ → ℕ → ℕ → Bool
within lo hi point = leb lo point && leb point hi

-- Tab, newline and carriage return.
abbrev pub is_kept_control : ℕ → Bool
is_kept_control c = c == 9 || (c == 10 || c == 13)

unfoldable pub class_of : ℕ → Option Class
class_of point =
    if within 0xE0000 0xE007F point
    then some Class.tag
    else if within 0x202A 0x202E point || within 0x2066 0x2069 point
    then some Class.bidi
    else if point == 0x200B || (point == 0x200C || (point == 0x200D || point == 0xFEFF))
    then some Class.zero_width
    else if (ltb point 0x20 && not (is_kept_control point))
        || (point == 0x7F || within 0x80 0x9F point)
    then some Class.control
    else none

-- `classes.add`: a set is a list here, and only membership is asked of it.
abbrev pub add_class : Class → List Class → List Class
add_class c cs = c ∷ cs

abbrev pub in_classes : Class → List Class → Bool
in_classes c cs = any (class_eq c) cs

-- The loop over the characters: what is kept, and the classes acted on.
unfoldable pub strip_step : Option Class → ℕ → Text × List Class → Text × List Class
strip_step none c (kept, classes) = (c ∷ kept, classes)
strip_step (some found) c (kept, classes) = (kept, add_class found classes)

unfoldable pub strip_chars : Text → Text × List Class
unfolding strip_step class_of
strip_chars [] = ([], [])
strip_chars (c ∷ text) = strip_step (class_of c) c (strip_chars text)

module _ (nfkc : Text → Text) where
  unfoldable pub sanitize : Text → Text × List Class
  sanitize text =
      let (kept, classes) = strip_chars (nfkc text) in
      (kept, if text_eq (nfkc text) text then classes else add_class Class.normalized classes)

  -- Every string of a decoded structure; the classes of all of them.
  unfoldable mutual
    unfolding sanitize

    pub sanitize_structure : Value → Value × List Class
    sanitize_structure (Value.str s) = let (kept, found) = sanitize s in (Value.str kept, found)
    sanitize_structure (Value.obj fields) =
        let (fields', found) = sanitize_fields fields in (Value.obj fields', found)
    sanitize_structure (Value.arr items) =
        let (items', found) = sanitize_items items in (Value.arr items', found)
    sanitize_structure Value.null = (Value.null, [])
    sanitize_structure (Value.bool b) = (Value.bool b, [])
    sanitize_structure (Value.num n) = (Value.num n, [])

    pub sanitize_items : Items → Items × List Class
    sanitize_items Items.nil = (Items.nil, [])
    sanitize_items (Items.cons v items) =
        let (v', found) = sanitize_structure v in
        let (items', more) = sanitize_items items in (Items.cons v' items', found ++ more)

    pub sanitize_fields : Fields → Fields × List Class
    sanitize_fields Fields.end = (Fields.end, [])
    sanitize_fields (Fields.field k v fields) =
        let (v', found) = sanitize_structure v in
        let (fields', more) = sanitize_fields fields in (Fields.field k v' fields', found ++ more)
