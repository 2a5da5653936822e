-- ===== src/Fencing.antt =====
-- Marking attacker-authored fields in rendered output (webhook_doorman/fencing.py). The two regular
-- expressions are matchers by clauses here: each has one way to match, as the source says of them.
pub mod Strip
use webhook_doorman.Prelude.{
  ℕ, zero, suc, ◌+◌, ◌-◌, Bool, true, false, ◌&&◌, ◌||◌, Option, none, some, List, [], ◌∷◌, ◌++◌,
  map,
}
use webhook_doorman.Prelude.Tests.{if◌then◌else◌, leb, ◌==◌, is_some}
use webhook_doorman.Prelude.Lists.{length, filter}
use webhook_doorman.Prelude.Text.{Text, codes, text_eq}
use webhook_doorman.Json.{Value, Fields, get_field, set_field}
use webhook_doorman.Sanitize.{sanitize}

-- `\s` on `str`, which is `str.isspace`.
unfoldable pub is_space : ℕ → Bool
is_space c =
    (leb 9 c && leb c 13)
    || ((leb 28 c && leb c 32)
        || (c == 0x85
            || (c == 0xA0
                || (c == 0x1680
                    || ((leb 0x2000 c && leb c 0x200A)
                        || (c == 0x2028
                            || (c == 0x2029 || (c == 0x202F || (c == 0x205F || c == 0x3000)))))))))

-- A lowercase letter of the pattern under IGNORECASE: `s` also matches U+017F.
abbrev pub letter_eq : ℕ → ℕ → Bool
letter_eq p c = c == p || (c + 32 == p || (p == b's' && c == 0x17F))

unfoldable pub match_word : Text → Text → Option Text
match_word [] t = some t
match_word (p ∷ ps) [] = none
match_word (p ∷ ps) (c ∷ t) = let rest = match_word ps t in if letter_eq p c then rest else none

unfoldable pub skip_spaces : Text → Text
unfolding is_space
skip_spaces [] = []
skip_spaces (c ∷ t) = let rest = skip_spaces t in if is_space c then rest else c ∷ t

unfoldable pub skip_slash : Text → Text
unfolding skip_spaces
skip_slash [] = []
skip_slash (c ∷ t) = if c == b'/' then skip_spaces t else c ∷ t

-- `(?=[\s>/])`.
unfoldable pub at_boundary : Text → Bool
unfolding is_space
at_boundary [] = false
at_boundary (c ∷ t) = is_space c || (c == b'>' || c == b'/')

abbrev pub bounded : Option Text → Option Text
bounded none = none
bounded (some rest) = if at_boundary rest then some rest else none

-- `_FENCE_PREFIX` at the head of the text, and what follows it.
unfoldable pub open_at : Text → Option Text
unfolding match_word skip_spaces skip_slash at_boundary
open_at [] = none
open_at (c ∷ t) =
    if c == b'<'
    then bounded (match_word (codes "untrusted") (skip_slash (skip_spaces t)))
    else none

-- `[^>]{0,n}>`.
unfoldable pub tag_end : ℕ → Text → Option Text
tag_end n [] = none
tag_end zero (c ∷ t) = if c == b'>' then some t else none
tag_end (suc n) (c ∷ t) = let rest = tag_end n t in if c == b'>' then some t else rest

abbrev pub closed : Option Text → Option Text
closed none = none
closed (some rest) = tag_end 512 rest

-- `_FENCE_TAG` at the head of the text, and what follows it.
unfoldable pub tag_at : Text → Option Text
unfolding open_at tag_end
tag_at t = closed (open_at t)

-- `_FENCE_TAG.sub("", text)`: the counter skips the characters of a match.
unfoldable pub sub_from : ℕ → Text → Text
sub_from n [] = []
sub_from (suc n) (c ∷ t) = sub_from n t
sub_from zero (c ∷ t) = elim (tag_at (c ∷ t)) [
  | none ↦ c ∷ sub_from zero t
  | some rest ↦ sub_from (length t - length rest) t
]

unfoldable pub strip_once : Text → Text
unfolding sub_from tag_at
strip_once = sub_from 0

-- `_FENCE_OPEN.search(text)`.
unfoldable pub has_open : Text → Bool
unfolding open_at
has_open [] = false
has_open (c ∷ t) = is_some (open_at (c ∷ t)) || has_open t

abbrev pub lookalike : ℕ → ℕ
lookalike c = if c == b'<' then 0x2039 else if c == b'>' then 0x203A else c

-- `text.translate(_NEUTRALISE_BRACKETS)`.
unfoldable pub neutralise : Text → Text
neutralise [] = []
neutralise (c ∷ t) = lookalike c ∷ neutralise t

abbrev pub finish : Text → Text
finish text = if has_open text then neutralise text else text

-- The passes that are left.
unfoldable pub strip_passes : ℕ → Text → Text
unfolding strip_once has_open neutralise
strip_passes zero text = neutralise text
strip_passes (suc n) text =
    let more = strip_passes n (strip_once text) in
    if text_eq (strip_once text) text then finish text else more

abbrev pub max_strip_passes : ℕ
max_strip_passes = 4

unfoldable pub strip_fence_tags : Text → Text
unfolding strip_passes
strip_fence_tags = strip_passes max_strip_passes

-- `value.replace("\\", "").replace('"', "").replace("\n", " ")`.
unfoldable pub attribute_text : Text → Text
attribute_text [] = []
attribute_text (c ∷ t) =
    let rest = attribute_text t in
    if c == 92 || c == 34 then rest else (if c == 10 then 32 else c) ∷ rest

unfoldable pub attribute : Text → Text
unfolding attribute_text
attribute value = (34 ∷ attribute_text value) ++ 34 ∷ []

unfoldable pub open_tag : Text → Text → Text
unfolding attribute
open_tag source field =
    codes "<untrusted source="
    ++ (attribute source ++ (codes " field=" ++ (attribute field ++ codes ">\n")))

module _ (nfkc : Text → Text) where
  unfoldable pub cleaned : Text → Text
  cleaned content = strip_fence_tags ((sanitize nfkc content).0)

  unfoldable pub fence_text : Text → Text → Text → Text
  unfolding cleaned open_tag
  fence_text content source field =
      open_tag source field ++ (cleaned content ++ codes "\n</untrusted>")

  -- `json.dumps` of a value that is no string is an argument.
  module _ (dumps : Value → Text) where
    unfoldable pub as_text : Value → Text
    as_text (Value.str s) = s
    as_text v = dumps v

    unfoldable pub fence_field : Text → Text → Fields → Fields
    fence_field source field context = elim (get_field field context) [
      | none ↦ context
      | some v ↦ set_field field (Value.str (fence_text (as_text v) source field)) context
    ]

    unfoldable pub fence_context : Text → List Text → Fields → Fields
    fence_context source [] context = context
    fence_context source (field ∷ fields) context =
        fence_context source fields (fence_field source field context)
