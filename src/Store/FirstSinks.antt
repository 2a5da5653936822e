-- ===== src/Store/FirstSinks.antt =====
-- Which sinks an event is queued for (webhook_doorman/store/sqlite.py, `enqueue_first_deliveries`).
use webhook_doorman.Prelude.{
  ℕ, ◌≡◌, refl, ◌∙◌, ap, true, false, Bool, ◌&&◌, List, [], ◌∷◌, ◌++◌, map, inl, inr, arith,
}
use webhook_doorman.Prelude.Tests.{◌==◌, ==_refl, Bool-cases}
use webhook_doorman.Prelude.Lists.{any, filter}
use webhook_doorman.Prelude.Text.{Text}
use webhook_doorman.Store.Tables.{DeliveryRow, Db, belongs_to}
use webhook_doorman.Store.Ingest.{
  new_delivery, insert_deliveries, enqueue_first_deliveries, has_deliveries,
}
use webhook_doorman.Store.Claims.{is_due}
use webhook_doorman.Store.Awaiting.{IsAwaiting}

-- A delivery of the event that no worker has tried, and that a claim from now on takes.
abbrev pub is_first : ℕ → ℕ → DeliveryRow → Bool
is_first n now d = belongs_to n d && (d.attempt == 0) && is_due now d

-- The sinks of these deliveries, in the order of their rows.
abbrev pub first_of : ℕ → ℕ → List DeliveryRow → List Text
first_of n now ds = map (λ d. d.sink) (filter (is_first n now) ds)

abbrev pub first_sinks : ℕ → ℕ → Db → List Text
first_sinks n now db = first_of n now db.deliveries

first_of-append :
    (n now : ℕ) (ds : List DeliveryRow) (d : DeliveryRow)
    → is_first n now d ≡ true
    → first_of n now (ds ++ d ∷ []) ≡ first_of n now ds ++ d.sink ∷ []
first_of-append n now [] d h = rw h refl
first_of-append n now (x ∷ ds) d h = elim (Bool-cases (is_first n now x)) [
  | inl taken ↦ rw taken (ap (λ (t : List Text). x.sink ∷ t) (first_of-append n now ds d h))
  | inr other ↦ rw other (first_of-append n now ds d h)
]

append_step : (xs ys : List Text) (x : Text) → (xs ++ x ∷ []) ++ ys ≡ xs ++ x ∷ ys
append_step [] ys x = refl
append_step (z ∷ xs) ys x = ap (λ (t : List Text). z ∷ t) (append_step xs ys x)

new-is_first :
    (n id : ℕ) (sink : Text) (now : ℕ) → is_first n now (new_delivery id n sink now) ≡ true
unfolding new_delivery
new-is_first n id sink now = ground (arith, ==_refl n)

new-sink : (n id : ℕ) (sink : Text) (now : ℕ) → (new_delivery id n sink now).sink ≡ sink
unfolding new_delivery
new-sink n id sink now = refl

insert_deliveries-first :
    (n : ℕ) (sinks : List Text) (now : ℕ) (db : Db)
    → first_sinks n now (insert_deliveries n sinks now db).1 ≡ first_sinks n now db ++ sinks
unfolding insert_deliveries
insert_deliveries-first n [] now db = end (first_sinks n now db)
  where
    end : (xs : List Text) → xs ≡ xs ++ []
    end [] = refl
    end (x ∷ xs) = ap (λ (t : List Text). x ∷ t) (end xs)
insert_deliveries-first n (sink ∷ sinks) now db =
    insert_deliveries-first n sinks now _
    ∙ (ap (λ (t : List Text). t ++ sinks)
          (first_of-append n now db.deliveries (new_delivery db.next_delivery n sink now)
              (new-is_first n db.next_delivery sink now)
            ∙ ap (λ (t : Text). first_sinks n now db ++ t ∷ [])
                (new-sink n db.next_delivery sink now))
        ∙ append_step (first_sinks n now db) sinks sink)

none_first :
    (n now : ℕ) (ds : List DeliveryRow) → any (belongs_to n) ds ≡ false → first_of n now ds ≡ []
none_first n now [] h = refl
none_first n now (d ∷ ds) h = ground (arith, none_first n now ds (ground arith))

-- A waiting event is queued for exactly these sinks, in this order.
pub enqueue_first-first :
    (n : ℕ) (sink : Text) (sinks : List Text) (now : ℕ) (db : Db)
    → IsAwaiting n db
    → first_sinks n now (enqueue_first_deliveries n (sink ∷ sinks) now db).1 ≡ sink ∷ sinks
unfolding enqueue_first_deliveries has_deliveries
enqueue_first-first n sink sinks now db h =
    rw (h.idle, h.waiting)
      (insert_deliveries-first n (sink ∷ sinks) now db
        ∙ ap (λ (t : List Text). t ++ sink ∷ sinks) (none_first n now db.deliveries h.idle))
