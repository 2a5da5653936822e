-- ===== src/Redaction/Stored.antt =====
-- Redaction of the raw body (webhook_doorman/redaction.py, `redact_bytes` and `_byte_forms`), with the
-- spellings of a secret that `json.dumps` writes. `none` is the `UnicodeEncodeError` of a secret that
-- holds a lone surrogate.
use webhook_doorman.Prelude.{
  ℕ, ◌+◌, ◌-◌, ◌/◌, ◌%◌, Bool, true, false, ◌&&◌, ◌||◌, Option, none, some, List, [], ◌∷◌, ◌++◌,
}
use webhook_doorman.Prelude.Tests.{if◌then◌else◌, ltb, ◌==◌}
use webhook_doorman.Prelude.Sort.{sort_by}
use webhook_doorman.Prelude.Text.{Text, codes, contains, is_empty}
use webhook_doorman.Prelude.Utf8.{encode, encode_ignoring}
use webhook_doorman.Redaction.{redacted, replace, redactable, longer}

abbrev pub hex_digit : ℕ → ℕ
hex_digit n = if ltb n 10 then b'0' + n else b'a' + (n - 10)

-- `\uXXXX`.
unfoldable pub unicode_escape : ℕ → Text
unicode_escape n =
    b'\\'
    ∷ b'u'
    ∷ hex_digit (n / 4096)
    ∷ hex_digit (n / 256 % 16)
    ∷ hex_digit (n / 16 % 16)
    ∷ hex_digit (n % 16)
    ∷ []

-- A character inside a JSON string, as `json.dumps` writes it: beyond the basic plane as a pair.
unfoldable pub json_char : Bool → ℕ → Text
unfolding unicode_escape
json_char ensure_ascii c =
    if c == 0x22 || c == 0x5C
    then b'\\' ∷ c ∷ []
    else if c == 0xA
    then codes "\\n"
    else if c == 0xD
    then codes "\\r"
    else if c == 0x9
    then codes "\\t"
    else if c == 0xC
    then codes "\\f"
    else if c == 0x8
    then codes "\\b"
    else if ltb c 0x20 || (ensure_ascii && ltb 0x7E c && ltb c 0x10000)
    then unicode_escape c
    else if ensure_ascii && ltb 0xFFFF c
    then unicode_escape (0xD800 + (c - 0x10000) / 1024)
      ++ unicode_escape (0xDC00 + (c - 0x10000) % 1024)
    else c ∷ []

-- `json.dumps(value, ensure_ascii=…)[1:-1]`.
unfoldable pub json_escape : Bool → Text → Text
unfolding json_char
json_escape ensure_ascii [] = []
json_escape ensure_ascii (c ∷ t) = json_char ensure_ascii c ++ json_escape ensure_ascii t

-- `escaped.replace("/", "\\/")`.
unfoldable pub escape_slashes : Text → Text
escape_slashes = replace (b'/' ∷ []) (b'\\' ∷ b'/' ∷ [])

-- A set, less the empty form.
abbrev pub add_form : List ℕ → List (List ℕ) → List (List ℕ)
add_form form forms = if is_empty form || contains forms form then forms else form ∷ forms

abbrev pub all_forms : List ℕ → Text → Option (List ℕ) → Option (List ℕ) → Option (List (List ℕ))
all_forms raw escaped none slashed = none
all_forms raw escaped (some plain) none = none
all_forms raw escaped (some plain) (some slashed) = some (
    sort_by longer (
      add_form raw (
        add_form escaped
          (add_form (escape_slashes escaped) (add_form plain (add_form slashed []))))))

-- The longest first; the ASCII spellings are their own bytes. Python leaves the order of two forms
-- of one length open.
unfoldable pub byte_forms : Text → Option (List (List ℕ))
unfolding json_escape escape_slashes
byte_forms value =
    all_forms (encode_ignoring value) (json_escape true value) (encode (json_escape false value))
      (encode (escape_slashes (json_escape false value)))

unfoldable pub replace_forms : List (List ℕ) → List ℕ → List ℕ
replace_forms [] body = body
replace_forms (form ∷ forms) body = replace_forms forms (replace form redacted body)

unfoldable pub redact_forms : List Text → List ℕ → Option (List ℕ)
unfolding byte_forms replace_forms
redact_forms [] body = some body
redact_forms (value ∷ values) body = elim (byte_forms value) [
  | none ↦ none
  | some forms ↦ redact_forms values (replace_forms forms body)
]

unfoldable pub redact_bytes : List ℕ → List Text → Option (List ℕ)
unfolding redact_forms
redact_bytes body secret_values = redact_forms (redactable secret_values) body
