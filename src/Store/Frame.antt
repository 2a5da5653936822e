-- ===== src/Store/Frame.antt =====
-- What the statements of webhook_doorman/store/sqlite.py leave alone: events under an INSERT into
-- `deliveries`, the deliveries of an event under everything but the sweep of that event.
use webhook_doorman.Prelude.{
  ℕ, suc, ◌<◌, ◌≡◌, refl, ap, ◌∙◌, ◌≢◌, inl, inr, Bool, true, false, not, ◌&&◌, Option, none, some,
  List, [], ◌∷◌, ◌++◌, arith,
}
use webhook_doorman.Prelude.Tests.{◌==◌, ==_iff, Bool-cases}
use webhook_doorman.Prelude.Lists.{
  any, find, update_where, All, any-append, any-update_where, any-filter_le,
}
use webhook_doorman.Prelude.Text.{Text}
use webhook_doorman.Models.{EventStatus, InboundEvent}
use webhook_doorman.Store.Tables.{
  EventRow, DeliveryRow, Db, event_is, belongs_to, delivery_is, has_delivery, has_key,
}
use webhook_doorman.Store.Ingest.{
  event_row, record_event, new_delivery, insert_deliveries, enqueue_deliveries,
  enqueue_first_deliveries, is_received_event,
}
use webhook_doorman.Store.Claims.{claim_due_deliveries, release_claim, requeue_incomplete}
use webhook_doorman.Store.Verdicts.{record_detection, release_event}
use webhook_doorman.Store.Statements.{
  Statement, exec, exec_attempt, exec_settle, settle_row, exec_write_dlq,
}
use webhook_doorman.Store.Invariant.{any_grows}

pub insert_deliveries-events :
    (e : ℕ) (sinks : List Text) (now : ℕ) (db : Db)
    → ((insert_deliveries e sinks now db).1.events ≡ db.events)
      × ((insert_deliveries e sinks now db).1.next_event ≡ db.next_event)
unfolding insert_deliveries
insert_deliveries-events e [] now db = (refl, refl)
insert_deliveries-events e (sink ∷ sinks) now db = insert_deliveries-events e sinks now (record db {
  deliveries = db.deliveries ++ new_delivery db.next_delivery e sink now ∷ [];
  next_delivery = suc db.next_delivery;
})

-- A row that was there stays there.
pub insert_deliveries-keeps :
    (q : DeliveryRow → Bool) (e : ℕ) (sinks : List Text) (now : ℕ) (db : Db)
    → any q db.deliveries ≡ true
    → any q (insert_deliveries e sinks now db).1.deliveries ≡ true
unfolding insert_deliveries
insert_deliveries-keeps q e [] now db h = h
insert_deliveries-keeps q e (sink ∷ sinks) now db h =
    insert_deliveries-keeps q e sinks now
      (record db {
        deliveries = db.deliveries ++ new_delivery db.next_delivery e sink now ∷ [];
        next_delivery = suc db.next_delivery;
      })
      (any_grows q db.deliveries (new_delivery db.next_delivery e sink now ∷ []) h)

-- The rows of one event are no rows of another.
pub insert_deliveries-others :
    (n e : ℕ) (sinks : List Text) (now : ℕ) (db : Db)
    → e ≢ n
    → any (belongs_to n) db.deliveries ≡ false
    → any (belongs_to n) (insert_deliveries e sinks now db).1.deliveries ≡ false
unfolding insert_deliveries new_delivery
insert_deliveries-others n e [] now db ne h = h
insert_deliveries-others n e (sink ∷ sinks) now db ne h =
    let new : DeliveryRow = new_delivery db.next_delivery e sink now in
    insert_deliveries-others n e sinks now
      (record db { deliveries = db.deliveries ++ new ∷ []; next_delivery = suc db.next_delivery })
      ne (ground (arith, any-append (belongs_to n) db.deliveries (new ∷ [])))

-- After the INSERT of at least one row the event has deliveries.
pub insert_deliveries-queued :
    (e : ℕ) (sink : Text) (sinks : List Text) (now : ℕ) (db : Db)
    → any (belongs_to e) (insert_deliveries e (sink ∷ sinks) now db).1.deliveries ≡ true
unfolding insert_deliveries new_delivery
insert_deliveries-queued e sink sinks now db =
    let new : DeliveryRow = new_delivery db.next_delivery e sink now in
    insert_deliveries-keeps (belongs_to e) e sinks now
      (record db { deliveries = db.deliveries ++ new ∷ []; next_delivery = suc db.next_delivery })
      (ground (arith, any-append (belongs_to e) db.deliveries (new ∷ [])))

-- An event that is not there, under an id that has been given out.
pub record IsGone (n : ℕ) (db : Db) : Type 0 where
  pub absent : any (event_is n) db.events ≡ false
  pub used : n < db.next_event

ingest-IsGone :
    (n : ℕ) (ev : InboundEvent) (db : Db) → IsGone n db → IsGone n (record_event ev db).1
unfolding record_event
ingest-IsGone n ev db g = elim (Bool-cases (any (has_key ev.source ev.delivery_id) db.events)) [
  | inl taken ↦ rw taken g
  | inr free ↦ rw free (record {
    absent = ground (
      arith,
      any-append (event_is n) db.events (event_row db.next_event ev ∷ []),
      g.absent,
      g.used,
    );
    used = let below : n < db.next_event = g.used in omega arith;
  })
]

insert_deliveries-IsGone :
    (n e : ℕ) (sinks : List Text) (now : ℕ) (db : Db)
    → IsGone n db
    → IsGone n (insert_deliveries e sinks now db).1
insert_deliveries-IsGone n e sinks now db g = record {
  absent = rw ((insert_deliveries-events e sinks now db).0) g.absent;
  used = rw ((insert_deliveries-events e sinks now db).1) g.used;
}

enqueue-IsGone :
    (n e : ℕ) (sinks : List Text) (now : ℕ) (db : Db)
    → IsGone n db
    → IsGone n (enqueue_deliveries e sinks now db).1
unfolding enqueue_deliveries
enqueue-IsGone n e [] now db g = g
enqueue-IsGone n e (sink ∷ sinks) now db g = elim (Bool-cases (any (event_is e) db.events)) [
  | inl there ↦ rw there (insert_deliveries-IsGone n e (sink ∷ sinks) now db g)
  | inr gone ↦ rw gone g
]

enqueue_first-IsGone :
    (n e : ℕ) (sinks : List Text) (now : ℕ) (db : Db)
    → IsGone n db
    → IsGone n (enqueue_first_deliveries e sinks now db).1
unfolding enqueue_first_deliveries
enqueue_first-IsGone n e [] now db g = g
enqueue_first-IsGone n e (sink ∷ sinks) now db g =
    elim (Bool-cases (not (any (belongs_to e) db.deliveries) && is_received_event e db)) [
      | inl first ↦ rw first (insert_deliveries-IsGone n e (sink ∷ sinks) now db g)
      | inr refused ↦ rw refused g
    ]

-- An UPDATE of `events` gives no row another id.
update_events-IsGone :
    (n : ℕ) (p : EventRow → Bool) (f : EventRow → EventRow) (db : Db)
    → ((e : EventRow) → (f e).id ≡ e.id)
    → IsGone n db
    → IsGone n (record db { events = update_where p f db.events })
update_events-IsGone n p f db same g = record {
  absent =
      any-update_where (event_is n) p f db.events (λ e. ap (λ (k : ℕ). k == n) (same e)) ∙ g.absent;
  used = g.used;
}

settle_row-IsGone :
    (n : ℕ) (o : Option DeliveryRow) (status : EventStatus) (db : Db)
    → IsGone n db
    → IsGone n (settle_row o status db)
unfolding settle_row
settle_row-IsGone n none status db g = g
settle_row-IsGone n (some d) status db g = update_events-IsGone n _ _ db (λ e. refl) g

write_dlq-IsGone :
    (n id at : ℕ) (error : Text) (db : Db) → IsGone n db → IsGone n (exec_write_dlq id at error db)
unfolding exec_write_dlq
write_dlq-IsGone n id at error db g = elim (Bool-cases (has_delivery id db)) [
  | inl there ↦ rw there (record { absent = g.absent; used = g.used })
  | inr refused ↦ rw refused g
]

-- Ids are never given out again.
pub exec-IsGone : (n : ℕ) (s : Statement) (db : Db) → IsGone n db → IsGone n (exec s db)
unfolding exec exec_attempt exec_settle claim_due_deliveries release_claim requeue_incomplete
    record_detection release_event
exec-IsGone n (Statement.ingest ev) db g = ingest-IsGone n ev db g
exec-IsGone n (Statement.enqueue e sinks now) db g = enqueue-IsGone n e sinks now db g
exec-IsGone n (Statement.enqueue_first e sinks now) db g = enqueue_first-IsGone n e sinks now db g
exec-IsGone n (Statement.write_dlq id at error) db g = write_dlq-IsGone n id at error db g
exec-IsGone n (Statement.settle id status) db g =
    settle_row-IsGone n (find (delivery_is id) db.deliveries) status db g
exec-IsGone n (Statement.detect e detection status at) db g =
    update_events-IsGone n _ _ db (λ e. refl) g
exec-IsGone n (Statement.release e) db g = update_events-IsGone n _ _ db (λ e. refl) g
exec-IsGone n (Statement.drop_events t) db g = record {
  absent = any-filter_le (event_is n) _ db.events g.absent;
  used = g.used;
}
exec-IsGone n s db g = record { absent = g.absent; used = g.used }

enqueue-next :
    (e : ℕ) (sinks : List Text) (now : ℕ) (db : Db)
    → (enqueue_deliveries e sinks now db).1.next_event ≡ db.next_event
unfolding enqueue_deliveries
enqueue-next e [] now db = refl
enqueue-next e (sink ∷ sinks) now db = elim (Bool-cases (any (event_is e) db.events)) [
  | inl there ↦ rw there ((insert_deliveries-events e (sink ∷ sinks) now db).1)
  | inr gone ↦ rw gone refl
]

enqueue_first-next :
    (e : ℕ) (sinks : List Text) (now : ℕ) (db : Db)
    → (enqueue_first_deliveries e sinks now db).1.next_event ≡ db.next_event
unfolding enqueue_first_deliveries
enqueue_first-next e [] now db = refl
enqueue_first-next e (sink ∷ sinks) now db =
    elim (Bool-cases (not (any (belongs_to e) db.deliveries) && is_received_event e db)) [
      | inl first ↦ rw first ((insert_deliveries-events e (sink ∷ sinks) now db).1)
      | inr refused ↦ rw refused refl
    ]

settle_row-next :
    (o : Option DeliveryRow) (status : EventStatus) (db : Db)
    → (settle_row o status db).next_event ≡ db.next_event
unfolding settle_row
settle_row-next none status db = refl
settle_row-next (some d) status db = refl

-- An id that has been given out stays given out.
pub exec-used : (n : ℕ) (s : Statement) (db : Db) → n < db.next_event → n < (exec s db).next_event
unfolding exec exec_attempt exec_settle exec_write_dlq claim_due_deliveries release_claim
    requeue_incomplete record_detection release_event record_event
exec-used n (Statement.ingest ev) db u = ground arith
exec-used n (Statement.enqueue e sinks now) db u = rw (enqueue-next e sinks now db) u
exec-used n (Statement.enqueue_first e sinks now) db u = rw (enqueue_first-next e sinks now db) u
exec-used n (Statement.write_dlq id at error) db u = ground arith
exec-used n (Statement.settle id status) db u =
    rw (settle_row-next (find (delivery_is id) db.deliveries) status db) u
exec-used n s db u = u

-- The id of a row that is there has been given out.
pub used_of_any :
    (n k : ℕ) (es : List EventRow)
    → All (λ (e : EventRow). e.id < k) es
    → any (event_is n) es ≡ true
    → n < k
used_of_any n k [] b h = absurd (cc)
used_of_any n k (e ∷ es) b h =
    let low : e.id < k = b.0 in
    elim (Bool-cases (event_is n e)) [
      | inl hit ↦ let same : e.id ≡ n = (==_iff e.id n).0 hit in omega arith
      | inr other ↦ used_of_any n k es b.1 (ground arith)
    ]
