-- ===== src/Store/Retention.antt =====
-- What the retention sweep keeps and what it cuts short (webhook_doorman/store/sqlite.py, `sweep`).
use webhook_doorman.Prelude.{
  ℕ, ◌≡◌, refl, subst, sym, ap, inl, inr, Bool, true, false, not, ◌&&◌, List, [], ◌∷◌, arith,
}
use webhook_doorman.Prelude.Tests.{if◌then◌else◌, ==_iff, Bool-cases}
use webhook_doorman.Prelude.Lists.{any, filter, All, All-imp}
use webhook_doorman.Models.{is_open}
use webhook_doorman.Store.Tables.{EventRow, DeliveryRow, Db, belongs_to, event_is}
use webhook_doorman.Store.Sweep.{has_open, is_swept, delivery_swept, sweep_dlq, sweep}

-- A delivery in work.
abbrev pub in_work : DeliveryRow → Bool
in_work d = is_open d.status

-- An event with an open delivery is not swept.
open_is_kept :
    (t n : ℕ) (db : Db) (es : List EventRow)
    → has_open n db ≡ true
    → any (λ e. event_is n e && is_swept t db e) es ≡ false
open_is_kept t n db [] h = refl
open_is_kept t n db (e ∷ es) h = elim (Bool-cases (event_is n e)) [
  | inl hit ↦
      let opened : has_open e.id db ≡ true =
        subst (λ (k : ℕ). has_open k db ≡ true) (sym ((==_iff e.id n).0 hit)) h in
      rw (hit, opened) (ground (arith, open_is_kept t n db es h))
  | inr other ↦ rw other (open_is_kept t n db es h)
]

-- A delivery in work is an open delivery of its event.
backed :
    (ds : List DeliveryRow)
    → All
        (λ (d : DeliveryRow).
          in_work d ≡ true → any (λ x. belongs_to d.event_id x && is_open x.status) ds ≡ true)
        ds
backed [] = tt
backed (d ∷ ds) = (
  (λ work. rw ((==_iff d.event_id d.event_id).1 refl, work) refl),
  All-imp _ _ ds (λ x h work. later d ds x (h work)) (backed ds),
)
  where
    later :
        (d : DeliveryRow) (ds : List DeliveryRow) (x : DeliveryRow)
        → any (λ y. belongs_to x.event_id y && is_open y.status) ds ≡ true
        → any (λ y. belongs_to x.event_id y && is_open y.status) (d ∷ ds) ≡ true
    later d ds x h = ground arith

work_is_kept :
    (t : ℕ) (db : Db) (ds : List DeliveryRow)
    → All (λ (d : DeliveryRow). in_work d ≡ true → has_open d.event_id db ≡ true) ds
    → filter in_work (filter (λ d. not (delivery_swept t db d)) ds) ≡ filter in_work ds
work_is_kept t db [] h = refl
work_is_kept t db (d ∷ ds) h = elim (Bool-cases (in_work d)) [
  | inl work ↦
      rw (open_is_kept t d.event_id db db.events (h.0 work), work)
        (ap (λ (r : List DeliveryRow). d ∷ r) (work_is_kept t db ds h.1))
  | inr done ↦
      idle_dropped d (delivery_swept t db d) (filter (λ x. not (delivery_swept t db x)) ds) ds done
        (work_is_kept t db ds h.1)
]
  where
    idle_dropped :
        (d : DeliveryRow) (b : Bool) (xs ys : List DeliveryRow)
        → in_work d ≡ false
        → filter in_work xs ≡ filter in_work ys
        → filter in_work (if not b then d ∷ xs else xs) ≡ filter in_work (d ∷ ys)
    idle_dropped d true xs ys done e = rw done e
    idle_dropped d false xs ys done e = rw done e

-- The sweep takes no work away: the deliveries that are pending or in flight are the same after it,
-- in the same order, whatever the two horizons.
pub sweep_keeps_work :
    (events_before dlq_before : ℕ) (db : Db)
    → filter in_work (sweep events_before dlq_before db).1.deliveries ≡ filter in_work db.deliveries
unfolding sweep
sweep_keeps_work events_before dlq_before db =
    work_is_kept events_before (sweep_dlq dlq_before db) db.deliveries (backed db.deliveries)
