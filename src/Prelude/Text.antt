-- ===== src/Prelude/Text.antt =====
-- Text as the list of its code points, with the `str` methods that the program calls.
use Prim.Native.Nat.{ℕ}
use Prim.Native.Char.{code}
use Prim.Native.String.{String}
use native.Mathlib.Omega.{arith}
use mathlib.Core.Path.{◌≡◌, refl, ap₂}
use mathlib.Core.Logic.{◌↔◌}
use mathlib.Core.Bool.{Bool, true, false, ◌&&◌, ◌||◌}
use mathlib.Core.List.{List, [], ◌∷◌, reverse}
use webhook_doorman.Prelude.Tests.{◌==◌, ==_iff, ==_refl, &&_parts, leb, if◌then◌else◌}
use webhook_doorman.Prelude.Lists.{any}

abbrev pub Text : Type 0
Text = List ℕ

-- A literal of the source, as its code points.
abbrev pub codes : String → Text
codes String.[] = []
codes (String.◌∷◌ c s) = code c ∷ codes s

-- `a == b` on `str` and on `bytes`.
unfoldable pub text_eq : Text → Text → Bool
text_eq [] [] = true
text_eq (x ∷ xs) (y ∷ ys) = (x == y) && text_eq xs ys
text_eq [] (y ∷ ys) = false
text_eq (x ∷ xs) [] = false

pub text_eq_refl : (s : Text) → text_eq s s ≡ true
unfolding text_eq
text_eq_refl [] = refl
text_eq_refl (x ∷ xs) = rw (==_refl x, text_eq_refl xs)

pub text_eq_sound : (s t : Text) → text_eq s t ≡ true → s ≡ t
unfolding text_eq
text_eq_sound [] [] h = refl
text_eq_sound [] (y ∷ t) h = cc
text_eq_sound (x ∷ s) [] h = cc
text_eq_sound (x ∷ s) (y ∷ t) h =
    let parts : ((x == y) ≡ true) × (text_eq s t ≡ true) = &&_parts (x == y) (text_eq s t) h in
    ap₂ ◌∷◌ ((==_iff x y).0 parts.0) (text_eq_sound s t parts.1)

pub text_eq_iff : (s t : Text) → (text_eq s t ≡ true) ↔ (s ≡ t)
text_eq_iff s t = (text_eq_sound s t, λ e. rw e (text_eq_refl t))

pub text_eq_comm : (s t : Text) → text_eq s t ≡ text_eq t s
unfolding text_eq
text_eq_comm [] [] = refl
text_eq_comm [] (y ∷ t) = refl
text_eq_comm (x ∷ s) [] = refl
text_eq_comm (x ∷ s) (y ∷ t) = ground (arith, text_eq_comm s t)

-- `x in xs`.
abbrev pub contains : List Text → Text → Bool
contains xs x = any (text_eq x) xs

abbrev pub is_empty : Text → Bool
is_empty [] = true
is_empty (c ∷ t) = false

-- `a or b` on texts.
abbrev pub or_text : Text → Text → Text
or_text [] t = t
or_text (c ∷ s) t = c ∷ s

-- `str.isspace` for one character: the characters that `str.strip` removes.
unfoldable pub is_whitespace : ℕ → Bool
is_whitespace c =
    (leb 9 c && leb c 13)
    || ((leb 28 c && leb c 32)
        || (c == 0x85
            || (c == 0xA0
                || (c == 0x1680
                    || ((leb 0x2000 c && leb c 0x200A)
                        || (c == 0x2028
                            || (c == 0x2029 || (c == 0x202F || (c == 0x205F || c == 0x3000)))))))))

unfoldable pub strip_left : Text → Text
unfolding is_whitespace
strip_left [] = []
strip_left (c ∷ t) = let rest = strip_left t in if is_whitespace c then rest else c ∷ t

-- `text.strip()`.
unfoldable pub strip : Text → Text
unfolding strip_left
strip t = reverse (strip_left (reverse (strip_left t)))
