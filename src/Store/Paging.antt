-- ===== src/Store/Paging.antt =====
-- What a page of quarantined events holds (webhook_doorman/store/sqlite.py, `list_held`).
use webhook_doorman.Prelude.{
  ℕ, zero, suc, ◌≤◌, ◌≡◌, refl, ap, ◌∙◌, ◌⊎◌, inl, inr, Bool, true, false, ◌&&◌, Option, List, [],
  ◌∷◌, map, arith,
}
use webhook_doorman.Prelude.Tests.{◌==◌, Bool-cases, &&_parts}
use webhook_doorman.Prelude.Lists.{
  any, filter, take, length, length-take, All, All-imp, All-filter_self, All-take,
}
use webhook_doorman.Prelude.Sort.{sort_by, IsSorted, sort_by-IsSorted, any-sort_by, All-sort_by}
use webhook_doorman.Models.{HeldEntry, is_quarantined}
use webhook_doorman.Store.Tables.{EventRow, Db, event_is}
use webhook_doorman.Store.Listing.{before, newer_event, held_entry, held_rows, list_held}

module _ {A : Type 0} {B : Type 0} (f : A → B) where
  any-map : (p : B → Bool) (xs : List A) → any p (map f xs) ≡ any (λ x. p (f x)) xs
  any-map p [] = refl
  any-map p (x ∷ xs) = ground (arith, any-map p xs)

  All-map : (P : B → Type 0) (xs : List A) → All (λ x. P (f x)) xs → All P (map f xs)
  All-map P [] h = tt
  All-map P (x ∷ xs) h = (h.0, All-map P xs h.1)

  length-map : (xs : List A) → length (map f xs) ≡ length xs
  length-map [] = refl
  length-map (x ∷ xs) = ap suc (length-map xs)

-- Rows that come after a row in the order have no greater id.
follows :
    (x : EventRow) (m : ℕ) (xs : List EventRow)
    → All (λ (y : EventRow). newer_event x y ≡ true) xs
    → any (event_is m) xs ≡ true
    → m ≤ x.id
follows x m [] h k = absurd cc
follows x m (y ∷ xs) h k = elim (Bool-cases (event_is m y)) [
  | inl hit ↦ let le : newer_event x y ≡ true = h.0 in ground arith
  | inr other ↦ follows x m xs h.1 (ground arith)
]

-- A row is among the first `n` of a sorted list, or these are `n` rows with no smaller id.
page_or_later :
    (n m : ℕ) (xs : List EventRow)
    → IsSorted newer_event xs
    → any (event_is m) xs ≡ true
    → (any (event_is m) (take n xs) ≡ true)
      ⊎ ((length (take n xs) ≡ n) × All (λ (y : EventRow). m ≤ y.id) (take n xs))
page_or_later zero m xs s h = inr (refl, tt)
page_or_later (suc n) m [] s h = absurd cc
page_or_later (suc n) m (x ∷ xs) s h = elim (Bool-cases (event_is m x)) [
  | inl hit ↦ inl (rw hit refl)
  | inr other ↦ elim (page_or_later n m xs s.1 (ground arith)) [
    | inl found ↦ inl (ground arith)
    | inr (full, older) ↦ inr (ap suc full, (follows x m xs s.0 (ground arith), older))
  ]
]

newer_total : (x y : EventRow) → newer_event x y ≡ false → newer_event y x ≡ true
newer_total x y h = ground arith

newer_trans :
    (x y z : EventRow) → newer_event x y ≡ true → newer_event y z ≡ true → newer_event x z ≡ true
newer_trans x y z a b = ground arith

any_filter :
    (p q : EventRow → Bool) (xs : List EventRow)
    → any (λ x. p x && q x) xs ≡ true
    → any p (filter q xs) ≡ true
any_filter p q [] h = h
any_filter p q (x ∷ xs) h = ground (arith, any_filter p q xs)

module _ (limit : ℕ) (before_id : Option ℕ) (db : Db) where
  abbrev page : List EventRow
  page = take limit (sort_by newer_event (held_rows before_id db))

  page_complete :
      (m : ℕ)
      → any (λ e. event_is m e && (is_quarantined e.status && before before_id e.id)) db.events
        ≡ true
      → (any (event_is m) page ≡ true)
        ⊎ ((length page ≡ limit) × All (λ (y : EventRow). m ≤ y.id) page)
  page_complete m h =
      page_or_later limit m (sort_by newer_event (held_rows before_id db))
        (sort_by-IsSorted newer_event newer_total newer_trans (held_rows before_id db))
        (any-sort_by newer_event (event_is m) (held_rows before_id db)
          ∙ any_filter (event_is m) (λ e. is_quarantined e.status && before before_id e.id)
              db.events h)

  page-before : All (λ (y : EventRow). before before_id y.id ≡ true) page
  page-before =
      All-take (λ (y : EventRow). before before_id y.id ≡ true) limit
        (sort_by newer_event (held_rows before_id db))
        (All-sort_by newer_event (λ (y : EventRow). before before_id y.id ≡ true)
          (held_rows before_id db)
          (All-imp (λ (y : EventRow). (is_quarantined y.status && before before_id y.id) ≡ true)
            (λ (y : EventRow). before before_id y.id ≡ true) (held_rows before_id db)
            (λ y both. (&&_parts (is_quarantined y.status) (before before_id y.id) both).1)
            (All-filter_self (λ y. is_quarantined y.status && before before_id y.id) db.events)))

  -- A page of `/admin/held` skips nothing. It has at most `limit` entries, each below the cursor; and
  -- for every id of a quarantined event below the cursor, the event is on the page, or the page is
  -- full and every entry's id is at least as great.
  pub list_held_page :
      (length (list_held limit before_id db) ≤ limit)
      × All (λ (h : HeldEntry). before before_id h.event_id ≡ true) (list_held limit before_id db)
      × ((m : ℕ)
          → any (λ e. event_is m e && (is_quarantined e.status && before before_id e.id)) db.events
            ≡ true
          → (any (λ (h : HeldEntry). h.event_id == m) (list_held limit before_id db) ≡ true)
            ⊎ ((length (list_held limit before_id db) ≡ limit)
                × All (λ (h : HeldEntry). m ≤ h.event_id) (list_held limit before_id db)))
  unfolding list_held
  list_held_page = (
    omega (
      arith,
      length-map held_entry page,
      length-take limit (sort_by newer_event (held_rows before_id db)),
    ),
    All-map held_entry (λ (h : HeldEntry). before before_id h.event_id ≡ true) page page-before,
    (λ m there. elim (page_complete m there) [
      | inl found ↦ inl (any-map held_entry (λ h. h.event_id == m) page ∙ found)
      | inr (full, older) ↦ inr (
        length-map held_entry page ∙ full,
        All-map held_entry (λ (h : HeldEntry). m ≤ h.event_id) page older,
      )
    ]),
  )
