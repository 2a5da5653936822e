-- ===== src/Prelude/Distinct.antt =====
-- Rows with distinct keys: what a primary key or a unique index promises of a table.
use mathlib.Core.Path.{◌≡◌, sym, ◌∙◌}
use mathlib.Core.Logic.{◌≢◌, inl, inr}
use mathlib.Core.Bool.{Bool}
use mathlib.Core.List.{List, [], ◌∷◌, ◌++◌}
use webhook_doorman.Prelude.Tests.{Bool-cases}
use webhook_doorman.Prelude.Lists.{filter, update_where, All, All-append, All-filter}

module _ {ℓ κ} {A : Type ℓ} {K : Type κ} (key : A → K) where
  abbrev pub Distinct : List A → Type κ
  Distinct [] = Unit
  Distinct (x ∷ xs) = All (λ y. key y ≢ key x) xs × Distinct xs

  pub Distinct-filter : (p : A → Bool) (xs : List A) → Distinct xs → Distinct (filter p xs)
  Distinct-filter p [] h = tt
  Distinct-filter p (x ∷ xs) h = elim (Bool-cases (p x)) [
    | inl e ↦ rw e (All-filter (λ y. key y ≢ key x) p xs h.0, Distinct-filter p xs h.1)
    | inr e ↦ rw e (Distinct-filter p xs h.1)
  ]

  -- A new row whose key no old row has.
  pub Distinct-append :
      (xs : List A) (z : A) → Distinct xs → All (λ y. key y ≢ key z) xs → Distinct (xs ++ z ∷ [])
  Distinct-append [] z h f = (tt, tt)
  Distinct-append (x ∷ xs) z h f = (
    All-append (λ y. key y ≢ key x) xs (z ∷ []) h.0 (λ e. f.0 (sym e), tt),
    Distinct-append xs z h.1 f.1,
  )

  module _ (p : A → Bool) (f : A → A) (same : (x : A) → key (f x) ≡ key x) where
    keys_ne :
        (x : A) (xs : List A)
        → All (λ y. key y ≢ key x) xs
        → All (λ y. key y ≢ key x) (update_where p f xs)
    keys_ne x [] h = tt
    keys_ne x (y ∷ ys) h = elim (Bool-cases (p y)) [
      | inl e ↦ rw e (λ q. h.0 (sym (same y) ∙ q), keys_ne x ys h.1)
      | inr e ↦ rw e (h.0, keys_ne x ys h.1)
    ]

    -- An update that leaves the key alone.
    pub Distinct-update_where : (xs : List A) → Distinct xs → Distinct (update_where p f xs)
    Distinct-update_where [] h = tt
    Distinct-update_where (x ∷ xs) h = elim (Bool-cases (p x)) [
      | inl e ↦ rw (e, same x) (keys_ne x xs h.0, Distinct-update_where xs h.1)
      | inr e ↦ rw e (keys_ne x xs h.0, Distinct-update_where xs h.1)
    ]
