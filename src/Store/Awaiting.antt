-- ===== src/Store/Awaiting.antt =====
-- An event between its INSERT and its first deliveries (webhook_doorman/store/sqlite.py): what the
-- engine may rely on while it screens the event.
use webhook_doorman.Prelude.{
  ℕ, ◌<◌, ◌≡◌, refl, subst, ◌≢◌, inl, inr, Bool, true, false, not, ◌&&◌, Option, some, List, [],
  ◌∷◌, arith,
}
use webhook_doorman.Prelude.Tests.{==_iff, Bool-cases}
use webhook_doorman.Prelude.Lists.{
  any, find, update_where, All, any-append, any_of_find, find_sound,
}
use webhook_doorman.Prelude.Distinct.{Distinct}
use webhook_doorman.Prelude.Text.{Text}
use webhook_doorman.Models.{EventStatus, InboundEvent, DetectionResult, is_received, is_withheld}
use webhook_doorman.Store.Tables.{EventRow, DeliveryRow, Db, event_is, belongs_to, has_event}
use webhook_doorman.Store.Ingest.{
  event_row, insert_event, insert_deliveries, enqueue_first_deliveries, has_deliveries,
  is_received_event,
}
use webhook_doorman.Store.Verdicts.{record_detection}
use webhook_doorman.Store.Invariant.{IsWellFormed}
use webhook_doorman.Store.Withheld.{IsHeldBack, is_open_event}
use webhook_doorman.Store.Queued.{none_left}
use webhook_doorman.Store.Frame.{used_of_any, insert_deliveries-queued, insert_deliveries-events}

-- A row of the event in another state than `received`.
abbrev pub is_decided : ℕ → EventRow → Bool
is_decided n e = event_is n e && not (is_received e.status)

-- The event is there, `received`, and has no delivery.
pub record IsAwaiting (n : ℕ) (db : Db) : Type 0 where
  pub idle : any (belongs_to n) db.deliveries ≡ false
  pub waiting : is_received_event n db ≡ true
  pub undecided : any (is_decided n) db.events ≡ false
  pub used : n < db.next_event

-- The next id is no row's yet.
unused_id :
    (n : ℕ) (es : List EventRow) → All (λ (e : EventRow). e.id < n) es → any (event_is n) es ≡ false
unused_id n [] h = refl
unused_id n (e ∷ es) h = let below : e.id < n = h.0 in ground (arith, unused_id n es h.1)

none_of_other :
    (n : ℕ) (es : List EventRow) (ds : List DeliveryRow)
    → any (event_is n) es ≡ false
    → All (λ (d : DeliveryRow). any (event_is d.event_id) es ≡ true) ds
    → any (belongs_to n) ds ≡ false
none_of_other n es [] free h = refl
none_of_other n es (d ∷ ds) free h = elim (Bool-cases (belongs_to n d)) [
  | inl mine ↦
      absurd (
        cc (subst (λ (k : ℕ). any (event_is k) es ≡ true) ((==_iff d.event_id n).0 mine) h.0, free))
  | inr other ↦ rw other (none_of_other n es ds free h.1)
]

part_of_none :
    (n : ℕ) (s : EventRow → Bool) (es : List EventRow)
    → any (event_is n) es ≡ false
    → any (λ e. event_is n e && s e) es ≡ false
part_of_none n s [] h = refl
part_of_none n s (e ∷ es) h = ground (arith, part_of_none n s es)

module _ (ev : InboundEvent) (db : Db) (w : IsWellFormed db) where
  new_is_idle : any (belongs_to db.next_event) db.deliveries ≡ false
  new_is_idle =
      none_of_other db.next_event db.events db.deliveries
        (unused_id db.next_event db.events w.event_bound) w.delivery_events

  -- A new `received` event awaits its deliveries.
  pub insert_event-IsAwaiting :
      is_received ev.status ≡ true → IsAwaiting db.next_event (insert_event ev db)
  unfolding event_row
  insert_event-IsAwaiting h =
      let free : any (event_is db.next_event) db.events ≡ false =
        unused_id db.next_event db.events w.event_bound in
      record {
        idle = new_is_idle;
        waiting = ground (
          arith,
          any-append (λ e. event_is db.next_event e && is_received e.status) db.events
              (event_row db.next_event ev ∷ []),
        );
        undecided = ground (
          arith,
          any-append (is_decided db.next_event) db.events (event_row db.next_event ev ∷ []),
          part_of_none db.next_event (λ e. not (is_received e.status)) db.events free,
        );
        used = omega arith;
      }

  -- A new withheld event is held back.
  pub insert_event-IsHeldBack :
      is_withheld ev.status ≡ true → IsHeldBack db.next_event (insert_event ev db)
  unfolding event_row
  insert_event-IsHeldBack h =
      let free : any (event_is db.next_event) db.events ≡ false =
        unused_id db.next_event db.events w.event_bound in
      record {
        idle = new_is_idle;
        withheld = ground (
          arith,
          any-append (is_open_event db.next_event) db.events (event_row db.next_event ev ∷ []),
          part_of_none db.next_event (λ e. not (is_withheld e.status)) db.events free,
        );
        used = omega arith;
      }

received_update :
    (n : ℕ) (r : Option DetectionResult) (at : Option ℕ) (es : List EventRow)
    → any (λ e. event_is n e && is_received e.status) es ≡ true
    → any
        (λ e. event_is n e && is_received e.status)
        (update_where
          (λ e. event_is n e && is_received e.status)
          (λ e. record e { detection = r; status = EventStatus.received; quarantined_at = at })
          es)
      ≡ true
received_update n r at [] h = h
received_update n r at (e ∷ es) h = ground (arith, received_update n r at es)

undecided_update :
    (n : ℕ) (r : Option DetectionResult) (at : Option ℕ) (es : List EventRow)
    → any (is_decided n) es ≡ false
    → any (is_decided n) (
        update_where
          (λ e. event_is n e && is_received e.status)
          (λ e. record e { detection = r; status = EventStatus.received; quarantined_at = at })
          es)
      ≡ false
undecided_update n r at [] h = h
undecided_update n r at (e ∷ es) h = ground (arith, undecided_update n r at es)

held_update :
    (n : ℕ) (r : Option DetectionResult) (status : EventStatus) (at : Option ℕ) (es : List EventRow)
    → is_withheld status ≡ true
    → any (is_decided n) es ≡ false
    → any (is_open_event n) (
        update_where
          (λ e. event_is n e && is_received e.status)
          (λ e. record e { detection = r; status = status; quarantined_at = at })
          es)
      ≡ false
held_update n r status at [] k h = refl
held_update n r status at (e ∷ es) k h = ground (arith, held_update n r status at es k)

-- A verdict that annotates leaves the event waiting.
pub record_detection-IsAwaiting :
    (n : ℕ) (r : Option DetectionResult) (at : Option ℕ) (db : Db)
    → IsAwaiting n db
    → IsAwaiting n (record_detection n r EventStatus.received at db)
unfolding record_detection
record_detection-IsAwaiting n r at db h = record {
  idle = h.idle;
  waiting = received_update n r at db.events h.waiting;
  undecided = undecided_update n r at db.events h.undecided;
  used = h.used;
}

-- Any other verdict holds it back.
pub record_detection-IsHeldBack :
    (n : ℕ) (r : Option DetectionResult) (status : EventStatus) (at : Option ℕ) (db : Db)
    → is_withheld status ≡ true
    → IsAwaiting n db
    → IsHeldBack n (record_detection n r status at db)
unfolding record_detection
record_detection-IsHeldBack n r status at db k h = record {
  idle = h.idle;
  withheld = held_update n r status at db.events k h.undecided;
  used = h.used;
}

-- A waiting event gets its deliveries.
pub enqueue_first-waiting :
    (n : ℕ) (sink : Text) (sinks : List Text) (now : ℕ) (db : Db)
    → IsAwaiting n db
    → ((enqueue_first_deliveries n (sink ∷ sinks) now db).0 ≢ [])
      × (has_deliveries n (enqueue_first_deliveries n (sink ∷ sinks) now db).1 ≡ true)
unfolding enqueue_first_deliveries has_deliveries
enqueue_first-waiting n sink sinks now db h =
    rw (h.idle, h.waiting)
      (not_empty n sink sinks now db, insert_deliveries-queued n sink sinks now db)
  where
    not_empty :
        (n : ℕ) (sink : Text) (sinks : List Text) (now : ℕ) (db : Db)
        → (insert_deliveries n (sink ∷ sinks) now db).0 ≢ []
    not_empty n sink sinks now db e = unfold insert_deliveries in cc

-- With distinct ids the row that a search by id finds is the only one.
only_row :
    (n : ℕ) (e : EventRow) (es : List EventRow)
    → Distinct (λ (x : EventRow). x.id) es
    → find (event_is n) es ≡ some e
    → is_received e.status ≡ true
    → (any (λ x. event_is n x && is_received x.status) es ≡ true) × (any (is_decided n) es ≡ false)
only_row n e [] d f h = absurd (cc)
only_row n e (x ∷ es) d f h = elim (Bool-cases (event_is n x)) [
  | inl hit ↦
      let same : some x ≡ some e = (rw hit at f) in
      let rest : any (event_is n) es ≡ false =
        none_left n es
          (subst (λ (m : ℕ). All (λ (y : EventRow). y.id ≢ m) es) ((==_iff x.id n).0 hit) d.0) in
      let st : is_received x.status ≡ true = received_same x e same h in
      ground (arith, part_of_none n (λ y. not (is_received y.status)) es rest)
  | inr other ↦ ground (arith, only_row n e es d.1)
]
  where
    received_same :
        (x e : EventRow)
        → some x ≡ some e
        → is_received e.status ≡ true
        → is_received x.status ≡ true
    received_same x e same h = cc

-- A stored event that is `received` and has no delivery is waiting.
pub found-IsAwaiting :
    (n : ℕ) (e : EventRow) (db : Db)
    → IsWellFormed db
    → find (event_is n) db.events ≡ some e
    → is_received e.status ≡ true
    → has_deliveries n db ≡ false
    → IsAwaiting n db
unfolding has_deliveries
found-IsAwaiting n e db w f h idle =
    let only : (is_received_event n db ≡ true) × (any (is_decided n) db.events ≡ false) =
      only_row n e db.events w.event_ids f h in
    record {
      idle = idle;
      waiting = only.0;
      undecided = only.1;
      used = used_of_any n db.next_event db.events w.event_bound (
          any_of_find (event_is n) (event_is n) db.events e f
            (find_sound (event_is n) db.events e f));
    }

-- Queueing removes no event.
pub enqueue_first-has_event :
    (n : ℕ) (sinks : List Text) (now : ℕ) (db : Db)
    → has_event n db ≡ true
    → has_event n (enqueue_first_deliveries n sinks now db).1 ≡ true
unfolding enqueue_first_deliveries
enqueue_first-has_event n [] now db h = h
enqueue_first-has_event n (sink ∷ sinks) now db h =
    elim (Bool-cases (not (any (belongs_to n) db.deliveries) && is_received_event n db)) [
      | inl first ↦ rw (first, (insert_deliveries-events n (sink ∷ sinks) now db).0) h
      | inr refused ↦ rw refused h
    ]
