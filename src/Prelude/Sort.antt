-- ===== src/Prelude/Sort.antt =====
-- `ORDER BY … LIMIT`: a stable insertion sort by a Boolean order, and what the first rows of a
-- sorted list are.
use Prim.Native.Nat.{suc}
use mathlib.Core.Path.{◌≡◌, refl}
use mathlib.Core.Logic.{inl, inr}
use mathlib.Core.Bool.{Bool, true, false}
use mathlib.Core.List.{List, [], ◌∷◌}
use native.Mathlib.Omega.{arith}
use webhook_doorman.Prelude.Tests.{if◌then◌else◌, Bool-cases}
use webhook_doorman.Prelude.Lists.{any, All, All-imp, length}

module _ {ℓ} {A : Type ℓ} (le : A → A → Bool) where
  unfoldable pub insert_by : A → List A → List A
  insert_by x [] = x ∷ []
  insert_by x (y ∷ ys) = let rest = insert_by x ys in if le x y then x ∷ y ∷ ys else y ∷ rest

  unfoldable pub sort_by : List A → List A
  unfolding insert_by
  sort_by [] = []
  sort_by (x ∷ xs) = insert_by x (sort_by xs)

  -- Every element is followed by none that comes strictly before it.
  abbrev pub IsSorted : List A → Type 0
  IsSorted [] = Unit
  IsSorted (x ∷ xs) = All (λ y. le x y ≡ true) xs × IsSorted xs

  any-insert_by : (q : A → Bool) (x : A) (ys : List A) → any q (insert_by x ys) ≡ any q (x ∷ ys)
  unfolding insert_by
  any-insert_by q x [] = refl
  any-insert_by q x (y ∷ ys) = ground (arith, any-insert_by q x ys)

  -- Sorting keeps the rows.
  pub any-sort_by : (q : A → Bool) (xs : List A) → any q (sort_by xs) ≡ any q xs
  unfolding sort_by
  any-sort_by q [] = refl
  any-sort_by q (x ∷ xs) = ground (arith, any-insert_by q x (sort_by xs), any-sort_by q xs)

  length-insert_by : (x : A) (ys : List A) → length (insert_by x ys) ≡ suc (length ys)
  unfolding insert_by
  length-insert_by x [] = refl
  length-insert_by x (y ∷ ys) = ground (arith, length-insert_by x ys)

module _ {ℓ κ} {A : Type ℓ} (le : A → A → Bool) (P : A → Type κ) where
  All-insert_by : (x : A) (ys : List A) → P x → All P ys → All P (insert_by le x ys)
  unfolding insert_by
  All-insert_by x [] h hs = (h, tt)
  All-insert_by x (y ∷ ys) h hs = elim (Bool-cases (le x y)) [
    | inl e ↦ rw e (h, hs)
    | inr e ↦ rw e (hs.0, All-insert_by x ys h hs.1)
  ]

  pub All-sort_by : (xs : List A) → All P xs → All P (sort_by le xs)
  unfolding sort_by
  All-sort_by [] h = tt
  All-sort_by (x ∷ xs) h = All-insert_by x (sort_by le xs) h.0 (All-sort_by xs h.1)

module _ {ℓ} {A : Type ℓ} (le : A → A → Bool) (total : (x y : A) → le x y ≡ false → le y x ≡ true)
    (trans : (x y z : A) → le x y ≡ true → le y z ≡ true → le x z ≡ true) where
  insert_by-IsSorted : (x : A) (ys : List A) → IsSorted le ys → IsSorted le (insert_by le x ys)
  unfolding insert_by
  insert_by-IsSorted x [] h = (tt, tt)
  insert_by-IsSorted x (y ∷ ys) h = elim (Bool-cases (le x y)) [
    | inl e ↦
        rw e (
          (e, All-imp (λ z. le y z ≡ true) (λ z. le x z ≡ true) ys (λ z q. trans x y z e q) h.0),
          h,
        )
    | inr e ↦
        rw e (
          All-insert_by le (λ z. le y z ≡ true) x ys (total x y e) h.0,
          insert_by-IsSorted x ys h.1,
        )
  ]

  pub sort_by-IsSorted : (xs : List A) → IsSorted le (sort_by le xs)
  unfolding sort_by
  sort_by-IsSorted [] = tt
  sort_by-IsSorted (x ∷ xs) = insert_by-IsSorted x (sort_by le xs) (sort_by-IsSorted xs)
