-- ===== src/Fencing/Strip.antt =====
-- What stripping leaves of a fence tag (webhook_doorman/fencing.py, `_strip_fence_tags`), and what
-- the wrapper of `fence_text` makes of a tag that the content does not finish.
use mathlib.Core.List.{append_assoc}
use webhook_doorman.Prelude.{
  ℕ, zero, suc, ◌≡◌, refl, ap, inl, inr, false, none, some, [], ◌∷◌, ◌++◌, arith,
}
use webhook_doorman.Prelude.Tests.{◌==◌, Bool-cases, Option-cases, ||_parts, is_some}
use webhook_doorman.Prelude.Lists.{any}
use webhook_doorman.Prelude.Text.{Text, codes, text_eq, text_eq_refl}
use webhook_doorman.Sanitize.{sanitize}
use webhook_doorman.Fencing.{
  open_at, tag_at, sub_from, strip_once, has_open, lookalike, neutralise, finish, strip_passes,
  strip_fence_tags, open_tag, cleaned, fence_text,
}

open_at-ne : (c : ℕ) (t : Text) → (c == b'<') ≡ false → open_at (c ∷ t) ≡ none
unfolding open_at
open_at-ne c t h = rw h

lookalike-ne : (c : ℕ) → (lookalike c == b'<') ≡ false
lookalike-ne c = ground arith

has_open-neutralise : (t : Text) → has_open (neutralise t) ≡ false
unfolding has_open neutralise
has_open-neutralise [] = refl
has_open-neutralise (c ∷ t) =
    rw (open_at-ne (lookalike c) (neutralise t) (lookalike-ne c)) (has_open-neutralise t)

has_open-finish : (t : Text) → has_open (finish t) ≡ false
has_open-finish t = elim (Bool-cases (has_open t)) [
  | inl opened ↦ rw opened (has_open-neutralise t)
  | inr clean ↦ rw clean clean
]

has_open-strip_passes : (n : ℕ) (t : Text) → has_open (strip_passes n t) ≡ false
unfolding strip_passes
has_open-strip_passes zero t = has_open-neutralise t
has_open-strip_passes (suc n) t = elim (Bool-cases (text_eq (strip_once t) t)) [
  | inl settled ↦ rw settled (has_open-finish t)
  | inr changed ↦ rw changed (has_open-strip_passes n (strip_once t))
]

-- Whatever the content, and however deep its tags are nested, the stripped text holds no opening of
-- a fence tag: at no position does `<`, an optional `/` and the word `untrusted` in any case, with
-- whitespace between, stand before whitespace, `>` or `/`. So it holds no tag either, opening or
-- closing.
pub has_open-strip_fence_tags : (text : Text) → has_open (strip_fence_tags text) ≡ false
unfolding strip_fence_tags
has_open-strip_fence_tags text = has_open-strip_passes 4 text

no_tag : (c : ℕ) (t : Text) → is_some (open_at (c ∷ t)) ≡ false → tag_at (c ∷ t) ≡ none
unfolding tag_at
no_tag c t h = elim (Option-cases (open_at (c ∷ t))) [
  | inl shut ↦ rw shut
  | inr (rest, opened) ↦ absurd (cc (rw opened at h))
]

sub_from_fixed : (t : Text) → has_open t ≡ false → sub_from 0 t ≡ t
unfolding sub_from has_open
sub_from_fixed [] h = refl
sub_from_fixed (c ∷ t) h =
    let parts : (is_some (open_at (c ∷ t)) ≡ false) × (has_open t ≡ false) =
      ||_parts (is_some (open_at (c ∷ t))) (has_open t) h in
    rw (no_tag c t parts.0, sub_from) (ap (λ r. c ∷ r) (sub_from_fixed t parts.1))

-- Content with no opening of a fence tag in it is left exactly as it is.
pub strip_fence_tags_fixed : (text : Text) → has_open text ≡ false → strip_fence_tags text ≡ text
unfolding strip_fence_tags strip_passes strip_once
strip_fence_tags_fixed text h = rw (sub_from_fixed text h, text_eq_refl text, h) refl

-- An opening that the content breaks off: no whitespace, `>` or `/` follows the word yet.
abbrev pub broken_off : Text
broken_off = codes "<untrusted"

-- What the wrapper makes of it.
abbrev pub swallowed : Text
swallowed = codes "<untrusted\n</untrusted>"

has_open-broken_off :
    (p : Text) → any (λ c. c == b'<') p ≡ false → has_open (p ++ broken_off) ≡ false
unfolding has_open
has_open-broken_off [] h = unfold open_at in refl
has_open-broken_off (c ∷ p) h =
    let parts : ((c == b'<') ≡ false) × (any (λ c. c == b'<') p ≡ false) =
      ||_parts (c == b'<') (any (λ c. c == b'<') p) h in
    rw (open_at-ne c (p ++ broken_off) parts.0) (has_open-broken_off p parts.1)

-- Content that ends in `<untrusted`, with no other `<`, that sanitising leaves alone: it passes the
-- stripping, and in the fenced text the forged opening matches the pattern of a whole tag that runs
-- up to the end, over the closing tag of the fence.
pub fence_text-swallowed :
    (nfkc : Text → Text) (p source field : Text)
    → any (λ c. c == b'<') p ≡ false
    → (sanitize nfkc (p ++ broken_off)).0 ≡ p ++ broken_off
    → (fence_text nfkc (p ++ broken_off) source field ≡ open_tag source field ++ (p ++ swallowed))
      × (tag_at swallowed ≡ some [])
unfolding fence_text cleaned
fence_text-swallowed nfkc p source field h clean = (
  rw (clean, strip_fence_tags_fixed (p ++ broken_off) (has_open-broken_off p h))
      (ap (λ (t : Text). open_tag source field ++ t)
        (append_assoc p broken_off (codes "\n</untrusted>"))),
  unfold tag_at in refl,
)
