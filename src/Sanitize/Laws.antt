-- ===== src/Sanitize/Laws.antt =====
-- What `sanitize` removes and reports (webhook_doorman/sanitize.py).
use webhook_doorman.Prelude.{
  ℕ, ◌<◌, ◌≤◌, ◌≢◌, ◌⊎◌, ◌≡◌, refl, ap, ◌∙◌, inl, inr, Bool, false, ◌||◌, ◌↔◌, Option, none, some,
  List, [], ◌∷◌, arith,
}
use webhook_doorman.Prelude.Tests.{Bool-cases}
use webhook_doorman.Prelude.Lists.{any, All, All-imp}
use webhook_doorman.Prelude.Text.{Text, text_eq, text_eq_refl, text_eq_iff, text_eq_sound}
use webhook_doorman.Sanitize.{
  Class, class_eq, class_of, in_classes, strip_step, strip_chars, sanitize,
}

-- A character that the loop keeps.
abbrev IsKept : ℕ → Type 0
IsKept c = class_of c ≡ none

-- A character with a place in a payload, by its code point: no tag character, no bidi override or
-- isolate, none of the zero-width space, non-joiner, joiner and no-break space, no control character
-- of either block but tab, newline and carriage return, and no DEL.
pub record IsClean (c : ℕ) : Type 0 where
  pub no_tag : (c < 0xE0000) ⊎ (0xE007F < c)
  pub no_override : (c < 0x202A) ⊎ (0x202E < c)
  pub no_isolate : (c < 0x2066) ⊎ (0x2069 < c)
  pub wide : (c ≢ 0x200B) × (c ≢ 0x200C) × (c ≢ 0x200D) × (c ≢ 0xFEFF)
  pub printed : (32 ≤ c) ⊎ ((c ≡ 9) ⊎ ((c ≡ 10) ⊎ (c ≡ 13)))
  pub no_high_control : (c < 0x7F) ⊎ (0x9F < c)

kept-IsClean : (c : ℕ) → IsKept c → IsClean c
unfolding class_of
kept-IsClean c h = record {
  no_tag = ground arith;
  no_override = ground arith;
  no_isolate = ground arith;
  wide = ((λ e. ground arith), (λ e. ground arith), (λ e. ground arith), (λ e. ground arith));
  printed = ground arith;
  no_high_control = ground arith;
}

strip_step-IsKept :
    (o : Option Class) (c : ℕ) (r : Text × List Class)
    → class_of c ≡ o
    → All IsKept (r.0)
    → All IsKept ((strip_step o c r).0)
unfolding strip_step
strip_step-IsKept none c r e h = (e, h)
strip_step-IsKept (some k) c r e h = h

strip_chars-IsKept : (text : Text) → All IsKept ((strip_chars text).0)
unfolding strip_chars
strip_chars-IsKept [] = tt
strip_chars-IsKept (c ∷ text) =
    strip_step-IsKept (class_of c) c (strip_chars text) refl (strip_chars-IsKept text)

-- Clean text is left as it is, and nothing is reported.
strip_chars_fixed : (text : Text) → All IsKept text → strip_chars text ≡ (text, [])
unfolding strip_chars strip_step
strip_chars_fixed [] h = refl
strip_chars_fixed (c ∷ text) h = rw (h.0, strip_chars_fixed text h.1)

abbrev pub is_class : Class → Option Class → Bool
is_class k none = false
is_class k (some j) = class_eq k j

-- Does the text hold a character of this class?
abbrev pub holds_class : Class → Text → Bool
holds_class k text = any (λ c. is_class k (class_of c)) text

strip_step-classes :
    (k : Class) (o : Option Class) (c : ℕ) (r : Text × List Class)
    → in_classes k ((strip_step o c r).1) ≡ (is_class k o || in_classes k (r.1))
unfolding strip_step
strip_step-classes k none c r = refl
strip_step-classes k (some j) c r = refl

strip_chars-classes :
    (k : Class) (text : Text) → in_classes k ((strip_chars text).1) ≡ holds_class k text
unfolding strip_chars
strip_chars-classes k [] = refl
strip_chars-classes k (c ∷ text) =
    strip_step-classes k (class_of c) c (strip_chars text)
    ∙ ap (λ b. is_class k (class_of c) || b) (strip_chars-classes k text)

class_of-normalized : (c : ℕ) → is_class Class.normalized (class_of c) ≡ false
unfolding class_of
class_of-normalized c = ground arith

-- No character is of the class `normalized`.
never_normalized : (text : Text) → holds_class Class.normalized text ≡ false
never_normalized [] = refl
never_normalized (c ∷ text) = rw (class_of-normalized c) (never_normalized text)

module _ (nfkc : Text → Text) where
  sanitize-IsKept : (text : Text) → All IsKept ((sanitize nfkc text).0)
  unfolding sanitize
  sanitize-IsKept text = strip_chars-IsKept (nfkc text)

  -- No character of the output is a tag character (U+E0000 to U+E007F), a bidi override or isolate
  -- (U+202A to U+202E, U+2066 to U+2069), a zero-width space, non-joiner, joiner or no-break space
  -- (U+200B, U+200C, U+200D, U+FEFF), or a control (below U+0020, U+007F to U+009F) other than tab,
  -- newline and carriage return.
  pub sanitize-IsClean : (text : Text) → All IsClean ((sanitize nfkc text).0)
  sanitize-IsClean text =
      All-imp IsKept IsClean ((sanitize nfkc text).0) kept-IsClean (sanitize-IsKept text)

  -- The report is exact: a class of characters is in it exactly when the normalised text holds one,
  -- and `normalized` exactly when NFKC changed the text.
  pub sanitize-classes :
      (text : Text)
      → ((k : Class)
          → class_eq k Class.normalized ≡ false
          → in_classes k ((sanitize nfkc text).1) ≡ holds_class k (nfkc text))
        × ((in_classes Class.normalized ((sanitize nfkc text).1) ≡ false) ↔ (nfkc text ≡ text))
  unfolding sanitize
  sanitize-classes text = (
    (λ k other. elim (Bool-cases (text_eq (nfkc text) text)) [
      | inl same ↦ rw same (strip_chars-classes k (nfkc text))
      | inr changed ↦ rw (changed, other) (strip_chars-classes k (nfkc text))
    ]),
    (
      (λ h. elim (Bool-cases (text_eq (nfkc text) text)) [
        | inl same ↦ text_eq_sound (nfkc text) text same
        | inr changed ↦ absurd (cc (rw changed at h))
      ]),
      (λ e.
          rw ((text_eq_iff (nfkc text) text).1 e)
            (strip_chars-classes Class.normalized (nfkc text) ∙ never_normalized (nfkc text))),
    ),
  )

  sanitize_fixed :
      (text : Text) → nfkc text ≡ text → All IsKept text → sanitize nfkc text ≡ (text, [])
  unfolding sanitize
  sanitize_fixed text stable clean =
      rw (stable, text_eq_refl text, strip_chars_fixed text clean) refl

  reported : (text : Text) → sanitize nfkc text ≡ (text, []) → nfkc text ≡ text
  unfolding sanitize
  reported text h = elim (Bool-cases (text_eq (nfkc text) text)) [
    | inl same ↦ text_eq_sound (nfkc text) text same
    | inr changed ↦ absurd (cc (rw changed at h))
  ]

  -- Sanitising the output again returns it unchanged and reports nothing exactly when NFKC leaves
  -- the output alone. Removing a character can join two that NFKC composes, so this is not every
  -- text.
  pub sanitize-idem_iff :
      (text : Text)
      → (sanitize nfkc ((sanitize nfkc text).0) ≡ ((sanitize nfkc text).0, []))
        ↔ (nfkc ((sanitize nfkc text).0) ≡ (sanitize nfkc text).0)
  sanitize-idem_iff text = (
    reported ((sanitize nfkc text).0),
    (λ stable. sanitize_fixed ((sanitize nfkc text).0) stable (sanitize-IsKept text)),
  )
