-- ===== src/Filtering/Truncate/Cut.antt =====
-- What the byte cap leaves of a text (webhook_doorman/filtering.py, `truncate_text`).
use webhook_doorman.Prelude.{
  ℕ, zero, suc, ◌+◌, ◌-◌, ◌≤◌, ◌<◌, ◌≡◌, refl, ap, ◌∙◌, ◌↔◌, ◌⊎◌, inl, inr, true, false, Option,
  none, some, List, [], ◌∷◌, ◌++◌, arith,
}
use webhook_doorman.Prelude.Tests.{if◌then◌else◌, leb, leb→le, Bool-cases, ||_parts}
use webhook_doorman.Prelude.Lists.{length, take, any, All, length-append}
use webhook_doorman.Prelude.Text.{Text}
use webhook_doorman.Prelude.Utf8.{
  is_surrogate, encode_char, encode, encode_ignoring, append_to, decode_from, decode_ignoring,
  Decoder, IsScalar, decode-encode_char, decode-cut,
}
use webhook_doorman.Filtering.Truncate.{cut_bytes, cut_encoded, truncate_text, truncation_marker}

-- The bytes of a text.
abbrev pub byte_size : Text → ℕ
byte_size t = length (encode_ignoring t)

-- A text of characters encodes, and its bytes are those of the characters.
encode-scalars : (t : Text) → All IsScalar t → encode t ≡ some (encode_ignoring t)
unfolding encode encode_ignoring
encode-scalars [] h = refl
encode-scalars (c ∷ t) h = rw (h.0.paired, encode-scalars t h.1)

byte_size-nil : byte_size [] ≡ 0
unfolding encode_ignoring
byte_size-nil = refl

byte_size-cons :
    (c : ℕ) (t : Text) → IsScalar c → byte_size (c ∷ t) ≡ length (encode_char c) + byte_size t
unfolding encode_ignoring
byte_size-cons c t h = rw (h.paired, length-append (encode_char c) (encode_ignoring t))

-- The longest prefix of at most `n` bytes.
fit : ℕ → Text → Text
fit n [] = []
fit n (c ∷ t) =
    let rest = fit (n - length (encode_char c)) t in
    if leb (length (encode_char c)) n then c ∷ rest else []

module _ {ℓ} {A : Type ℓ} where
  take-append_long :
      (n m : ℕ) (xs ys : List A) → n ≡ length xs + m → take n (xs ++ ys) ≡ xs ++ take m ys
  take-append_long n m [] ys h = let e : n ≡ m = omega arith in rw e refl
  take-append_long zero m (x ∷ xs) ys h = absurd (omega arith)
  take-append_long (suc n) m (x ∷ xs) ys h =
      ap (λ l. x ∷ l) (take-append_long n m xs ys (omega arith))

  take-append_short : (n : ℕ) (xs ys : List A) → n < length xs → take n (xs ++ ys) ≡ take n xs
  take-append_short zero xs ys h = refl
  take-append_short (suc n) [] ys h = absurd (omega arith)
  take-append_short (suc n) (x ∷ xs) ys h =
      ap (λ l. x ∷ l) (take-append_short n xs ys (omega arith))

  take-all : (n : ℕ) (xs : List A) → length xs ≤ n → take n xs ≡ xs
  take-all zero [] h = refl
  take-all (suc n) [] h = refl
  take-all zero (x ∷ xs) h = absurd (omega arith)
  take-all (suc n) (x ∷ xs) h = ap (λ l. x ∷ l) (take-all n xs (omega arith))

decode-nil : decode_from Decoder.ready [] ≡ []
unfolding decode_from
decode-nil = refl

-- Decoding a prefix of the bytes gives the characters that lie in it whole.
decode-take :
    (n : ℕ) (t : Text)
    → All IsScalar t
    → decode_from Decoder.ready (take n (encode_ignoring t)) ≡ fit n t
unfolding encode_ignoring fit
decode-take n [] h = rw (take-all {A = ℕ} n [] (omega arith)) decode-nil
decode-take n (c ∷ t) h = elim (Bool-cases (leb (length (encode_char c)) n)) [
  | inl whole ↦
      rw (h.0.paired, whole)
        (rw
          (take-append_long n (n - length (encode_char c)) (encode_char c) (encode_ignoring t)
            (ground arith))
          (decode-encode_char c (take (n - length (encode_char c)) (encode_ignoring t)) (h.0)
            ∙ ap (λ l. c ∷ l) (decode-take (n - length (encode_char c)) t h.1)))
  | inr over ↦
      rw (h.0.paired, over)
        (rw (take-append_short n (encode_char c) (encode_ignoring t) (ground arith))
          (decode-cut c n h.0 (ground arith)))
]

-- `p` is the longest beginning of `t`, by whole characters, of at most `limit` bytes.
pub record IsCut (limit : ℕ) (t p : Text) : Type 0 where
  pub next : ℕ
  pub rest : Text
  pub begins : t ≡ p ++ next ∷ rest
  pub fits : byte_size p ≤ limit
  pub tight : limit < byte_size (p ++ next ∷ [])

leb-false : (a b : ℕ) → leb a b ≡ false → b < a
leb-false a b h = ground arith

-- A character in front that fits takes its bytes of the limit.
IsCut-cons :
    (limit c : ℕ) (t p : Text)
    → IsScalar c
    → length (encode_char c) ≤ limit
    → IsCut (limit - length (encode_char c)) t p
    → IsCut limit (c ∷ t) (c ∷ p)
IsCut-cons limit c t p h k cut = record {
  next = cut.next;
  rest = cut.rest;
  begins = ap (λ l. c ∷ l) cut.begins;
  fits = omega (arith, byte_size-cons c p h, cut.fits);
  tight = omega (arith, byte_size-cons c (p ++ cut.next ∷ []) h, cut.tight);
}

fit-IsCut :
    (limit : ℕ) (t : Text) → All IsScalar t → limit < byte_size t → IsCut limit t (fit limit t)
unfolding fit
fit-IsCut limit [] h k = absurd (omega (arith, byte_size-nil))
fit-IsCut limit (c ∷ t) h k = elim (Bool-cases (leb (length (encode_char c)) limit)) [
  | inl whole ↦
      let size : byte_size (c ∷ t) ≡ length (encode_char c) + byte_size t =
        byte_size-cons c t (h.0) in
      let cut : IsCut (limit - length (encode_char c)) t (fit (limit - length (encode_char c)) t) =
        fit-IsCut (limit - length (encode_char c)) t h.1 (ground arith) in
      rw whole (IsCut-cons limit c t _ h.0 (ground arith) cut)
  | inr over ↦ rw over (record {
    next = c;
    rest = t;
    begins = refl;
    fits = omega (arith, byte_size-nil);
    tight = omega (arith, byte_size-nil, byte_size-cons c [] h.0, leb-false _ _ over);
  })
]

append_to-none : (front : List ℕ) (o : Option (List ℕ)) → append_to front o ≡ none → o ≡ none
append_to-none front none h = refl
append_to-none front (some bs) h = absurd (cc)

encode-surrogate : (t : Text) → encode t ≡ none → any is_surrogate t ≡ true
unfolding encode
encode-surrogate [] h = absurd (cc)
encode-surrogate (c ∷ t) h = elim (Bool-cases (is_surrogate c)) [
  | inl e ↦ rw e refl
  | inr e ↦ rw e (encode-surrogate t (append_to-none (encode_char c) (encode t) (rw e at h)))
]

surrogate-encode : (t : Text) → any is_surrogate t ≡ true → encode t ≡ none
unfolding encode
surrogate-encode [] h = absurd (cc)
surrogate-encode (c ∷ t) h = elim (Bool-cases (is_surrogate c)) [
  | inl e ↦ rw e refl
  | inr e ↦ rw e (rw (surrogate-encode t (rw e at h)) refl)
]

cut_encoded-none :
    (t : Text) (limit : ℕ) (o : Option (List ℕ)) → cut_encoded t limit o ≡ none → o ≡ none
cut_encoded-none t limit none h = refl
cut_encoded-none t limit (some bs) h = absurd (cc)

-- The cap raises for exactly the texts that hold a lone surrogate, whatever the limit.
truncate_text_raises_iff :
    (t : Text) (limit : ℕ) → (truncate_text t limit ≡ none) ↔ (any is_surrogate t ≡ true)
unfolding truncate_text
truncate_text_raises_iff t limit = (
  λ h. encode-surrogate t (cut_encoded-none t limit (encode t) h),
  λ h. rw (surrogate-encode t h, truncate_text) refl,
)

abbrev pub IsCodePoint : ℕ → Type 0
IsCodePoint c = c < 0x110000

scalars : (t : Text) → All IsCodePoint t → any is_surrogate t ≡ false → All IsScalar t
scalars [] h k = tt
scalars (c ∷ t) h k =
    let parts = ||_parts (is_surrogate c) (any is_surrogate t) k in
    (record { below = h.0; paired = parts.0 }, scalars t h.1 parts.1)

-- The byte cap, for every text of code points and every limit. For a text with a lone surrogate it
-- raises. Any other text is kept as it is if it is within the limit, and otherwise cut to the longest
-- beginning of whole characters that the limit has room for, with the marker behind it.
pub truncate_text_lem :
    (t : Text) (limit : ℕ)
    → All IsCodePoint t
    → ((any is_surrogate t ≡ true) × (truncate_text t limit ≡ none))
      ⊎ ((any is_surrogate t ≡ false) × (byte_size t ≤ limit) × (truncate_text t limit ≡ some t))
      ⊎ ((any is_surrogate t ≡ false)
          × ((p : Text) × IsCut limit t p
              × (truncate_text t limit ≡ some (p ++ truncation_marker))))
unfolding truncate_text cut_bytes decode_ignoring
truncate_text_lem t limit h = elim (Bool-cases (any is_surrogate t)) [
  | inl lone ↦ inl (lone, (truncate_text_raises_iff t limit).1 lone)
  | inr paired ↦
      let ok : All IsScalar t = scalars t h paired in
      elim (Bool-cases (leb (byte_size t) limit)) [
        | inl fits ↦ inr (
            inl (
              paired,
              leb→le (byte_size t) limit fits,
              rw (encode-scalars t ok, truncate_text) (rw fits refl),
            ))
        | inr over ↦ inr (
            inr (
              paired,
              (
                fit limit t,
                fit-IsCut limit t ok (leb-false (byte_size t) limit over),
                rw (encode-scalars t ok, truncate_text) (rw (over, decode-take limit t ok) refl),
              ),
            ))
      ]
]
