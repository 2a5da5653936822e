-- ===== src/App/Body.antt =====
-- Reading a request's body under a cap (webhook_doorman/app.py, `read_body_capped`). `none` is
-- `BodyTooLarge`. `int` of a header reads ASCII digits, which are all the digits of Latin-1.
use webhook_doorman.Prelude.{
  ℕ, ◌+◌, ◌-◌, ◌*◌, ◌≤◌, ◌<◌, ◌≡◌, refl, ◌↔◌, ap, inl, inr, Bool, true, false, ◌&&◌, ◌||◌, Option,
  none, some, List, [], ◌∷◌, ◌++◌, arith,
}
use webhook_doorman.Prelude.Tests.{if◌then◌else◌, ltb, leb, ◌==◌, Bool-cases}
use webhook_doorman.Prelude.Lists.{length, length-append}
use webhook_doorman.Prelude.Text.{Text, strip}

abbrev pub is_digit : ℕ → Bool
is_digit c = leb b'0' c && leb c b'9'

-- Digits, with single underscores between them; a number of more than 4300 digits is refused too.
unfoldable pub parse_digits : Bool → ℕ → ℕ → Text → Option ℕ
parse_digits after_digit value count [] = if after_digit && leb count 4300 then some value else none
parse_digits after_digit value count (c ∷ t) =
    let rest =
      parse_digits (is_digit c) (if is_digit c then 10 * value + (c - b'0') else value)
        (if is_digit c then count + 1 else count) t in
    if is_digit c || (c == b'_' && after_digit) then rest else none

abbrev pub exceeds : ℕ → Option ℕ → Option Bool
exceeds limit none = none
exceeds limit (some n) = some (ltb limit n)

-- `-n > limit` is false for every number.
abbrev pub negative_exceeds : Option ℕ → Option Bool
negative_exceeds none = none
negative_exceeds (some n) = some false

unfoldable pub signed_exceeds : ℕ → Text → Option Bool
unfolding parse_digits
signed_exceeds limit [] = none
signed_exceeds limit (c ∷ t) =
    if c == b'-'
    then negative_exceeds (parse_digits false 0 0 t)
    else if c == b'+'
    then exceeds limit (parse_digits false 0 0 t)
    else exceeds limit (parse_digits false 0 0 (c ∷ t))

-- `int(declared) > limit`: `none` is `ValueError`.
unfoldable pub declared_exceeds : ℕ → Text → Option Bool
unfolding signed_exceeds
declared_exceeds limit declared = signed_exceeds limit (strip declared)

abbrev pub prepend : List ℕ → Option (List ℕ) → Option (List ℕ)
prepend chunk none = none
prepend chunk (some rest) = some (chunk ++ rest)

-- The loop over the stream: the total so far, and the chunks to come.
unfoldable pub read_chunks : ℕ → ℕ → List (List ℕ) → Option (List ℕ)
read_chunks limit total [] = some []
read_chunks limit total (chunk ∷ chunks) =
    let rest = read_chunks limit (total + length chunk) chunks in
    if ltb limit (total + length chunk) then none else prepend chunk rest

abbrev pub unless_over : Option Bool → Option (List ℕ) → Option (List ℕ)
unless_over none body = none
unless_over (some true) body = none
unless_over (some false) body = body

unfoldable pub read_body_capped : ℕ → Option Text → List (List ℕ) → Option (List ℕ)
unfolding declared_exceeds read_chunks
read_body_capped limit none chunks = read_chunks limit 0 chunks
read_body_capped limit (some declared) chunks =
    unless_over (declared_exceeds limit declared) (read_chunks limit 0 chunks)

-- `b"".join(chunks)`.
abbrev pub join : List (List ℕ) → List ℕ
join [] = []
join (chunk ∷ chunks) = chunk ++ join chunks

-- The header is absent, or a number within the limit.
abbrev pub IsDeclared : ℕ → Option Text → Type 0
IsDeclared limit none = Unit
IsDeclared limit (some declared) = declared_exceeds limit declared ≡ some false

read_chunks_within :
    (limit total : ℕ) (chunks : List (List ℕ))
    → total + length (join chunks) ≤ limit
    → read_chunks limit total chunks ≡ some (join chunks)
unfolding read_chunks
read_chunks_within limit total [] h = refl
read_chunks_within limit total (chunk ∷ chunks) h = ground (
  arith,
  length-append chunk (join chunks),
  read_chunks_within limit (total + length chunk) chunks,
)

read_chunks_over :
    (limit total : ℕ) (chunks : List (List ℕ))
    → total ≤ limit
    → limit < total + length (join chunks)
    → read_chunks limit total chunks ≡ none
unfolding read_chunks
read_chunks_over limit total [] t h = absurd (omega arith)
read_chunks_over limit total (chunk ∷ chunks) t h =
    ground (
      arith,
      length-append chunk (join chunks),
      read_chunks_over limit (total + length chunk) chunks,
    )

read_chunks_iff :
    (limit : ℕ) (chunks : List (List ℕ)) (body : List ℕ)
    → (read_chunks limit 0 chunks ≡ some body) ↔ ((body ≡ join chunks) × (length body ≤ limit))
read_chunks_iff limit chunks body = elim (Bool-cases (leb (length (join chunks)) limit)) [
  | inl fits ↦
      let size : length (join chunks) ≤ limit = ground arith in
      let read : read_chunks limit 0 chunks ≡ some (join chunks) =
        read_chunks_within limit 0 chunks (omega arith) in
      rw read (λ h. let same : body ≡ join chunks = cc in (same, rw same size), λ h. rw h.0 refl)
  | inr over ↦
      let size : limit < length (join chunks) = ground arith in
      rw (read_chunks_over limit 0 chunks (omega arith) (omega arith))
        (λ h. absurd (cc), λ h. absurd (omega (arith, ap length h.0)))
]

unless_over_iff :
    (o : Option Bool) (read : Option (List ℕ)) (body : List ℕ)
    → (unless_over o read ≡ some body) ↔ ((o ≡ some false) × (read ≡ some body))
unless_over_iff none read body = (λ h. absurd (cc), λ h. absurd (cc (h.0)))
unless_over_iff (some true) read body = (λ h. absurd (cc), λ h. absurd (cc (h.0)))
unless_over_iff (some false) read body = (λ h. (refl, h), λ h. h.1)

-- A body is read exactly when the declared length, if there is one, is a number within the limit, and
-- the chunks together are within it too, whatever was declared; it is then the chunks, joined.
pub read_body_capped_iff :
    (limit : ℕ) (declared : Option Text) (chunks : List (List ℕ)) (body : List ℕ)
    → (read_body_capped limit declared chunks ≡ some body)
      ↔ (IsDeclared limit declared × (body ≡ join chunks) × (length body ≤ limit))
unfolding read_body_capped
read_body_capped_iff limit none chunks body =
    let read = read_chunks_iff limit chunks body in
    (λ h. (tt, (read.0 h).0, (read.0 h).1), λ h. read.1 (h.1, h.2))
read_body_capped_iff limit (some declared) chunks body =
    let read = read_chunks_iff limit chunks body in
    let test =
      unless_over_iff (declared_exceeds limit declared) (read_chunks limit 0 chunks) body in
    (
      λ h. let parts = read.0 (test.0 h).1 in ((test.0 h).0, parts.0, parts.1),
      λ h. test.1 (h.0, read.1 (h.1, h.2)),
    )
