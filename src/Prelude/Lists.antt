-- ===== src/Prelude/Lists.antt =====
-- Lists measured by native numbers and searched by Boolean tests, with the predicates on every
-- element and on distinct keys that the tables' invariants are built from.
use Prim.Native.Nat.{ℕ, zero, suc, ◌+◌, min}
use mathlib.Core.Path.{◌≡◌, refl}
use mathlib.Core.Logic.{inl, inr}
use mathlib.Core.Bool.{Bool, true, false, not, ◌&&◌, ◌||◌}
use mathlib.Core.Option.{Option, none, some}
use mathlib.Core.List.{List, [], ◌∷◌, ◌++◌}
use native.Mathlib.Omega.{arith}
use webhook_doorman.Prelude.Tests.{if◌then◌else◌, Bool-cases}

module _ {ℓ} {A : Type ℓ} where
  abbrev pub length : List A → ℕ
  length [] = 0
  length (x ∷ xs) = suc (length xs)

  abbrev pub take : ℕ → List A → List A
  take zero xs = []
  take (suc n) [] = []
  take (suc n) (x ∷ xs) = x ∷ take n xs

  abbrev pub any : (A → Bool) → List A → Bool
  any p [] = false
  any p (x ∷ xs) = p x || any p xs

  -- The library's `filter` takes a decision; this one takes the program's Boolean test.
  abbrev pub filter : (A → Bool) → List A → List A
  filter p [] = []
  filter p (x ∷ xs) = let rest = filter p xs in if p x then x ∷ rest else rest

  abbrev pub find : (A → Bool) → List A → Option A
  find p [] = none
  find p (x ∷ xs) = let rest = find p xs in if p x then some x else rest

  abbrev pub count : (A → Bool) → List A → ℕ
  count p xs = length (filter p xs)

  -- `UPDATE … SET … WHERE`: `f` on the elements that pass the test.
  abbrev pub update_where : (A → Bool) → (A → A) → List A → List A
  update_where p f [] = []
  update_where p f (x ∷ xs) = (if p x then f x else x) ∷ update_where p f xs

  pub length-append : (xs ys : List A) → length (xs ++ ys) ≡ length xs + length ys
  length-append [] ys = omega arith
  length-append (x ∷ xs) ys = omega (arith, length-append xs ys)

  pub length-take : (n : ℕ) (xs : List A) → length (take n xs) ≡ min n (length xs)
  length-take zero xs = omega arith
  length-take (suc n) [] = omega arith
  length-take (suc n) (x ∷ xs) = omega (arith, length-take n xs)

  pub any-append : (p : A → Bool) (xs ys : List A) → any p (xs ++ ys) ≡ (any p xs || any p ys)
  any-append p [] ys = refl
  any-append p (x ∷ xs) ys = ground (arith, any-append p xs ys)

module _ {ℓ} {A : Type ℓ} where
  -- A test that an update does not change finds the same elements after it.
  pub any-update_where :
      (q p : A → Bool) (f : A → A) (xs : List A)
      → ((x : A) → q (f x) ≡ q x)
      → any q (update_where p f xs) ≡ any q xs
  any-update_where q p f [] h = refl
  any-update_where q p f (x ∷ xs) h = ground (arith, h x, any-update_where q p f xs h)

module _ {ℓ κ} {A : Type ℓ} where
  abbrev pub All : (A → Type κ) → List A → Type κ
  All P [] = Unit
  All P (x ∷ xs) = P x × All P xs

module _ {ℓ κ} {A : Type ℓ} (P : A → Type κ) where
  pub All-append : (xs ys : List A) → All P xs → All P ys → All P (xs ++ ys)
  All-append [] ys hx hy = hy
  All-append (x ∷ xs) ys hx hy = (hx.0, All-append xs ys hx.1 hy)

  pub All-filter : (p : A → Bool) (xs : List A) → All P xs → All P (filter p xs)
  All-filter p [] h = tt
  All-filter p (x ∷ xs) h = elim (Bool-cases (p x)) [
    | inl e ↦ rw e (h.0, All-filter p xs h.1)
    | inr e ↦ rw e (All-filter p xs h.1)
  ]

  pub All-take : (n : ℕ) (xs : List A) → All P xs → All P (take n xs)
  All-take zero xs h = tt
  All-take (suc n) [] h = tt
  All-take (suc n) (x ∷ xs) h = (h.0, All-take n xs h.1)

  pub All-update_where :
      (p : A → Bool) (f : A → A) (xs : List A)
      → ((x : A) → p x ≡ true → P x → P (f x))
      → All P xs
      → All P (update_where p f xs)
  All-update_where p f [] keep h = tt
  All-update_where p f (x ∷ xs) keep h = elim (Bool-cases (p x)) [
    | inl e ↦ rw e (keep x e h.0, All-update_where p f xs keep h.1)
    | inr e ↦ rw e (h.0, All-update_where p f xs keep h.1)
  ]

module _ {ℓ κ κ'} {A : Type ℓ} (P : A → Type κ) (Q : A → Type κ') where
  pub All-imp : (xs : List A) → ((x : A) → P x → Q x) → All P xs → All Q xs
  All-imp [] f h = tt
  All-imp (x ∷ xs) f h = (f x h.0, All-imp xs f h.1)

module _ {ℓ} {A : Type ℓ} where
  pub All-filter_self : (p : A → Bool) (xs : List A) → All (λ x. p x ≡ true) (filter p xs)
  All-filter_self p [] = tt
  All-filter_self p (x ∷ xs) = elim (Bool-cases (p x)) [
    | inl e ↦ rw e (e, All-filter_self p xs)
    | inr e ↦ rw e (All-filter_self p xs)
  ]

  pub All-of_any : (p : A → Bool) (xs : List A) → any p xs ≡ false → All (λ x. p x ≡ false) xs
  All-of_any p [] h = tt
  All-of_any p (x ∷ xs) h = (ground arith, All-of_any p xs (ground arith))

module _ {ℓ κ κ'} {A : Type ℓ} (P : A → Type κ) (Q : A → Type κ') (p : A → Bool) where
  -- A filtered list may use the test that its elements passed.
  pub All-filter_imp :
      (xs : List A) → ((x : A) → p x ≡ true → P x → Q x) → All P xs → All Q (filter p xs)
  All-filter_imp [] f h = tt
  All-filter_imp (x ∷ xs) f h = elim (Bool-cases (p x)) [
    | inl e ↦ rw e (f x e h.0, All-filter_imp xs f h.1)
    | inr e ↦ rw e (All-filter_imp xs f h.1)
  ]

module _ {ℓ} {A : Type ℓ} where
  -- What is found, and is not among the removed, is found after the removal.
  pub any-filter_not :
      (q s : A → Bool) (xs : List A)
      → any q xs ≡ true
      → any (λ x. q x && s x) xs ≡ false
      → any q (filter (λ x. not (s x)) xs) ≡ true
  any-filter_not q s [] h k = h
  any-filter_not q s (x ∷ xs) h k = ground (arith, any-filter_not q s xs)

  pub any-filter_le :
      (q p : A → Bool) (xs : List A) → any q xs ≡ false → any q (filter p xs) ≡ false
  any-filter_le q p [] h = refl
  any-filter_le q p (x ∷ xs) h = ground (arith, any-filter_le q p xs)

  -- The row that a search finds passes the test.
  pub find_sound : (p : A → Bool) (xs : List A) (x : A) → find p xs ≡ some x → p x ≡ true
  find_sound p [] x h = cc
  find_sound p (y ∷ ys) x h = ground (arith, find_sound p ys x)

  pub find_of_any : (p : A → Bool) (xs : List A) → any p xs ≡ true → (x : A) × (find p xs ≡ some x)
  find_of_any p [] h = cc
  find_of_any p (x ∷ xs) h = elim (Bool-cases (p x)) [
    | inl e ↦ (x, rw e)
    | inr e ↦ rw e (find_of_any p xs (ground arith))
  ]

module _ {ℓ} {A : Type ℓ} where
  -- An update that makes no row pass a test that none passed.
  pub none-update_where :
      (q p : A → Bool) (f : A → A) (xs : List A)
      → ((x : A) → p x ≡ true → q x ≡ false → q (f x) ≡ false)
      → any q xs ≡ false
      → any q (update_where p f xs) ≡ false
  none-update_where q p f [] h k = refl
  none-update_where q p f (x ∷ xs) h k = elim (Bool-cases (p x)) [
    | inl hit ↦
        rw hit (ground (arith, h x hit (ground arith), none-update_where q p f xs h (ground arith)))
    | inr other ↦ rw other (ground (arith, none-update_where q p f xs h (ground arith)))
  ]

  pub any_of_find :
      (p q : A → Bool) (xs : List A) (x : A) → find p xs ≡ some x → q x ≡ true → any q xs ≡ true
  any_of_find p q [] x h k = cc
  any_of_find p q (y ∷ ys) x h k = elim (Bool-cases (p y)) [
    | inl hit ↦ ground arith
    | inr other ↦ ground (arith, any_of_find p q ys x (ground arith) k)
  ]
