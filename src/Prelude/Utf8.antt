-- ===== src/Prelude/Utf8.antt =====
-- UTF-8, as `str.encode` and `bytes.decode` have it: the encoder refuses or skips a surrogate, and
-- the decoder, with `errors="ignore"`, drops what is not well formed.
use Prim.Native.Nat.{ℕ, zero, suc, ◌+◌, ◌-◌, ◌*◌, ◌/◌, ◌%◌, ◌≤◌, ◌<◌}
use native.Mathlib.Omega.{arith}
use mathlib.Core.Path.{◌≡◌, refl}
use mathlib.Core.Logic.{inl, inr}
use mathlib.Core.Bool.{Bool, false, ◌&&◌}
use mathlib.Core.Option.{Option, none, some}
use mathlib.Core.List.{List, [], ◌∷◌, ◌++◌}
use webhook_doorman.Prelude.Tests.{if◌then◌else◌, ltb, leb, ◌==◌, Bool-cases}
use webhook_doorman.Prelude.Lists.{length, take}
use webhook_doorman.Prelude.Text.{Text}

abbrev pub between : ℕ → ℕ → ℕ → Bool
between lo hi n = leb lo n && leb n hi

abbrev pub is_surrogate : ℕ → Bool
is_surrogate c = between 0xD800 0xDFFF c

unfoldable pub encode_char : ℕ → List ℕ
encode_char c =
    if ltb c 0x80
    then c ∷ []
    else if ltb c 0x800
    then (0xC0 + c / 64) ∷ (0x80 + c % 64) ∷ []
    else if ltb c 0x10000
    then (0xE0 + c / 4096) ∷ (0x80 + c / 64 % 64) ∷ (0x80 + c % 64) ∷ []
    else (0xF0 + c / 262144) ∷ (0x80 + c / 4096 % 64) ∷ (0x80 + c / 64 % 64) ∷ (0x80 + c % 64) ∷ []

abbrev pub append_to : List ℕ → Option (List ℕ) → Option (List ℕ)
append_to front none = none
append_to front (some rest) = some (front ++ rest)

-- `text.encode("utf-8")`: `none` is `UnicodeEncodeError`.
unfoldable pub encode : Text → Option (List ℕ)
unfolding encode_char
encode [] = some []
encode (c ∷ t) =
    let rest = encode t in if is_surrogate c then none else append_to (encode_char c) rest

-- `text.encode("utf-8", errors="ignore")`.
unfoldable pub encode_ignoring : Text → List ℕ
unfolding encode_char
encode_ignoring [] = []
encode_ignoring (c ∷ t) =
    let rest = encode_ignoring t in if is_surrogate c then rest else encode_char c ++ rest

-- Between two bytes the decoder is ready, or in a sequence: with `more` bytes to come after the
-- next one, which has to lie between two bounds.
pub data Decoder : Type 0 where
  ready : Decoder
  inside : (more point lo hi : ℕ) → Decoder

unfoldable pub lead : ℕ → Decoder × Text
lead b =
    if ltb b 0x80
    then (Decoder.ready, b ∷ [])
    else if between 0xC2 0xDF b
    then (Decoder.inside 0 (b - 0xC0) 0x80 0xBF, [])
    else if b == 0xE0
    then (Decoder.inside 1 0 0xA0 0xBF, [])
    else if b == 0xED
    then (Decoder.inside 1 0xD 0x80 0x9F, [])
    else if between 0xE1 0xEF b
    then (Decoder.inside 1 (b - 0xE0) 0x80 0xBF, [])
    else if b == 0xF0
    then (Decoder.inside 2 0 0x90 0xBF, [])
    else if between 0xF1 0xF3 b
    then (Decoder.inside 2 (b - 0xF0) 0x80 0xBF, [])
    else if b == 0xF4
    then (Decoder.inside 2 4 0x80 0x8F, [])
    else (Decoder.ready, [])

abbrev pub continued : ℕ → ℕ → Decoder × Text
continued zero point = (Decoder.ready, point ∷ [])
continued (suc more) point = (Decoder.inside more point 0x80 0xBF, [])

-- A byte that does not go on with the sequence ends it and is read afresh.
unfoldable pub decode_byte : Decoder → ℕ → Decoder × Text
unfolding lead
decode_byte Decoder.ready b = lead b
decode_byte (Decoder.inside more point lo hi) b =
    if between lo hi b then continued more (point * 64 + (b - 0x80)) else lead b

-- `encoded.decode("utf-8", errors="ignore")`.
unfoldable pub decode_from : Decoder → List ℕ → Text
unfolding decode_byte
decode_from d [] = []
decode_from d (b ∷ bs) = let (d', out) = decode_byte d b in out ++ decode_from d' bs

unfoldable pub decode_ignoring : List ℕ → Text
unfolding decode_from
decode_ignoring = decode_from Decoder.ready

-- A character of Unicode that is no surrogate.
pub record IsScalar (c : ℕ) : Type 0 where
  pub below : c < 0x110000
  pub paired : is_surrogate c ≡ false

-- How a sequence of each length reads back, whatever follows it, and what a part of one reads as.
module _ (c : ℕ) where
  decode-one :
      (bs : List ℕ)
      → c < 0x80
      → decode_from Decoder.ready (encode_char c ++ bs) ≡ c ∷ decode_from Decoder.ready bs
  unfolding decode_from encode_char
  decode-one bs h = ground arith

  decode-two :
      (bs : List ℕ)
      → 0x80 ≤ c
      → c < 0x800
      → decode_from Decoder.ready (encode_char c ++ bs) ≡ c ∷ decode_from Decoder.ready bs
  unfolding decode_from encode_char
  decode-two bs h k = ground arith

  decode-three :
      (bs : List ℕ)
      → 0x800 ≤ c
      → c < 0x10000
      → is_surrogate c ≡ false
      → decode_from Decoder.ready (encode_char c ++ bs) ≡ c ∷ decode_from Decoder.ready bs
  unfolding decode_from encode_char
  decode-three bs h k s = ground arith

  decode-four :
      (bs : List ℕ)
      → 0x10000 ≤ c
      → c < 0x110000
      → decode_from Decoder.ready (encode_char c ++ bs) ≡ c ∷ decode_from Decoder.ready bs
  unfolding decode_from encode_char
  decode-four bs h k = ground arith

  pub decode-encode_char :
      (bs : List ℕ)
      → IsScalar c
      → decode_from Decoder.ready (encode_char c ++ bs) ≡ c ∷ decode_from Decoder.ready bs
  decode-encode_char bs h = elim (Bool-cases (ltb c 0x80)) [
    | inl one ↦ decode-one bs (ground arith)
    | inr more ↦ elim (Bool-cases (ltb c 0x800)) [
      | inl two ↦ decode-two bs (ground arith) (ground arith)
      | inr long ↦ elim (Bool-cases (ltb c 0x10000)) [
        | inl three ↦ decode-three bs (ground arith) (ground arith) h.paired
        | inr four ↦ decode-four bs (ground arith) h.below
      ]
    ]
  ]

  -- A sequence that is cut off is dropped.
  pub decode-cut :
      (n : ℕ)
      → IsScalar c
      → n < length (encode_char c)
      → decode_from Decoder.ready (take n (encode_char c)) ≡ []
  unfolding decode_from encode_char
  decode-cut zero s h = refl
  decode-cut (suc zero) s h = ground arith
  decode-cut (suc (suc zero)) s h = ground arith
  decode-cut (suc (suc (suc zero))) s h = ground arith
  decode-cut (suc (suc (suc (suc n)))) s h = ground arith
