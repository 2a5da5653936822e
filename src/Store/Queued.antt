-- ===== src/Store/Queued.antt =====
-- The deliveries of an event stay as long as it does (webhook_doorman/store/sqlite.py): what each
-- statement leaves of an event whose first deliveries are queued.
use webhook_doorman.Prelude.{
  ℕ, ◌<◌, ◌≡◌, refl, sym, subst, ap, ◌∙◌, ◌≢◌, ◌⊎◌, inl, inr, Bool, true, false, not, ◌&&◌, Option,
  none, some, List, [], ◌∷◌, arith,
}
use webhook_doorman.Prelude.Tests.{◌==◌, ==_iff, Bool-cases}
use webhook_doorman.Prelude.Lists.{
  any, find, filter, update_where, All, any-update_where, any-filter_le,
}
use webhook_doorman.Prelude.Distinct.{Distinct}
use webhook_doorman.Prelude.Text.{Text}
use webhook_doorman.Models.{EventStatus, InboundEvent}
use webhook_doorman.Store.Tables.{EventRow, DeliveryRow, Db, event_is, belongs_to, delivery_is}
use webhook_doorman.Store.Ingest.{
  record_event, enqueue_deliveries, enqueue_first_deliveries, has_deliveries, is_received_event,
}
use webhook_doorman.Store.Claims.{
  due_rows, is_among, claimed, is_held, handed_back, after_attempt, is_unsettled, requeued,
  claim_due_deliveries, release_claim, requeue_incomplete,
}
use webhook_doorman.Store.Verdicts.{record_detection, release_event}
use webhook_doorman.Store.Sweep.{is_swept, delivery_swept, sweep_events}
use webhook_doorman.Store.Statements.{
  Statement, exec, exec_attempt, exec_settle, settle_row, exec_write_dlq,
}
use webhook_doorman.Store.Invariant.{IsWellFormed}
use webhook_doorman.Store.Frame.{IsGone, exec-IsGone, insert_deliveries-keeps}

-- The event has had its first deliveries: they are there, or it was swept with them.
abbrev pub IsQueued : ℕ → Db → Type 0
IsQueued e db = (has_deliveries e db ≡ true) ⊎ IsGone e db

pub none_left :
    (n : ℕ) (es : List EventRow) → All (λ (e : EventRow). e.id ≢ n) es → any (event_is n) es ≡ false
none_left n [] h = refl
none_left n (e ∷ es) h = let ne : e.id ≢ n = h.0 in ground (arith, none_left n es h.1)

pub none_of_part :
    (n : ℕ) (s : EventRow → Bool) (es : List EventRow)
    → any (event_is n) es ≡ false
    → any (λ e. event_is n e && s e) es ≡ false
none_of_part n s [] h = refl
none_of_part n s (e ∷ es) h = ground (arith, none_of_part n s es)

-- With distinct ids, if the row of an id is removed, no row of that id is left.
swept_is_gone :
    (n : ℕ) (s : EventRow → Bool) (es : List EventRow)
    → Distinct (λ (e : EventRow). e.id) es
    → any (λ e. event_is n e && s e) es ≡ true
    → any (event_is n) (filter (λ e. not (s e)) es) ≡ false
swept_is_gone n s [] d h = refl
swept_is_gone n s (e ∷ es) d h = elim (Bool-cases (event_is n e)) [
  | inl hit ↦
      let same : e.id ≡ n = (==_iff e.id n).0 hit in
      let rest : any (event_is n) es ≡ false =
        none_left n es (subst (λ (m : ℕ). All (λ (y : EventRow). y.id ≢ m) es) same d.0) in
      ground (arith, none_of_part n s es rest, any-filter_le (event_is n) (λ e. not (s e)) es rest)
  | inr other ↦ ground (arith, swept_is_gone n s es d.1)
]

-- If no event of this id is swept, its deliveries stay.
unswept_stay :
    (n t : ℕ) (db : Db) (ds : List DeliveryRow)
    → any (λ e. event_is n e && is_swept t db e) db.events ≡ false
    → any (belongs_to n) ds ≡ true
    → any (belongs_to n) (filter (λ d. not (delivery_swept t db d)) ds) ≡ true
unswept_stay n t db [] k h = cc
unswept_stay n t db (d ∷ ds) k h = elim (Bool-cases (belongs_to n d)) [
  | inl hit ↦
      let same : d.event_id ≡ n = (==_iff d.event_id n).0 hit in
      let kept : delivery_swept t db d ≡ false =
        subst (λ (m : ℕ). any (λ e. event_is m e && is_swept t db e) db.events ≡ false) (sym same)
          k in
      rw (kept, hit)
  | inr other ↦ ground (arith, unswept_stay n t db ds k (ground arith))
]

drop_events-IsQueued :
    (n t : ℕ) (db : Db)
    → IsWellFormed db
    → n < db.next_event
    → has_deliveries n db ≡ true
    → IsQueued n (sweep_events t db)
unfolding has_deliveries
drop_events-IsQueued n t db w used h =
    elim (Bool-cases (any (λ e. event_is n e && is_swept t db e) db.events)) [
      | inl swept ↦ inr (record {
        absent = swept_is_gone n (is_swept t db) db.events w.event_ids swept;
        used = used;
      })
      | inr stays ↦ inl (unswept_stay n t db db.deliveries stays h)
    ]

enqueue-keeps :
    (n e : ℕ) (sinks : List Text) (now : ℕ) (db : Db)
    → has_deliveries n db ≡ true
    → has_deliveries n (enqueue_deliveries e sinks now db).1 ≡ true
unfolding enqueue_deliveries has_deliveries
enqueue-keeps n e [] now db h = h
enqueue-keeps n e (sink ∷ sinks) now db h = elim (Bool-cases (any (event_is e) db.events)) [
  | inl there ↦ rw there (insert_deliveries-keeps (belongs_to n) e (sink ∷ sinks) now db h)
  | inr gone ↦ rw gone h
]

enqueue_first-keeps :
    (n e : ℕ) (sinks : List Text) (now : ℕ) (db : Db)
    → has_deliveries n db ≡ true
    → has_deliveries n (enqueue_first_deliveries e sinks now db).1 ≡ true
unfolding enqueue_first_deliveries has_deliveries
enqueue_first-keeps n e [] now db h = h
enqueue_first-keeps n e (sink ∷ sinks) now db h =
    elim (Bool-cases (not (any (belongs_to e) db.deliveries) && is_received_event e db)) [
      | inl first ↦ rw first (insert_deliveries-keeps (belongs_to n) e (sink ∷ sinks) now db h)
      | inr refused ↦ rw refused h
    ]

-- An UPDATE of `deliveries` moves no row to another event.
update-keeps :
    (n : ℕ) (p : DeliveryRow → Bool) (f : DeliveryRow → DeliveryRow) (ds : List DeliveryRow)
    → ((d : DeliveryRow) → (f d).event_id ≡ d.event_id)
    → any (belongs_to n) ds ≡ true
    → any (belongs_to n) (update_where p f ds) ≡ true
update-keeps n p f ds same h =
    any-update_where (belongs_to n) p f ds (λ d. ap (λ (k : ℕ). k == n) (same d)) ∙ h

-- The statements that do not touch `deliveries`.
settle_row-deliveries :
    (o : Option DeliveryRow) (status : EventStatus) (db : Db)
    → (settle_row o status db).deliveries ≡ db.deliveries
unfolding settle_row
settle_row-deliveries none status db = refl
settle_row-deliveries (some d) status db = refl

ingest-deliveries :
    (ev : InboundEvent) (db : Db) → (record_event ev db).1.deliveries ≡ db.deliveries
unfolding record_event
ingest-deliveries ev db = ground arith

write_dlq-deliveries :
    (id at : ℕ) (error : Text) (db : Db)
    → (exec_write_dlq id at error db).deliveries ≡ db.deliveries
unfolding exec_write_dlq
write_dlq-deliveries id at error db = ground arith

exec-has_deliveries :
    (n : ℕ) (s : Statement) (db : Db)
    → IsWellFormed db
    → n < db.next_event
    → has_deliveries n db ≡ true
    → IsQueued n (exec s db)
unfolding exec exec_attempt exec_settle claim_due_deliveries release_claim requeue_incomplete
    record_detection release_event has_deliveries
exec-has_deliveries n (Statement.ingest ev) db w u h = inl (rw (ingest-deliveries ev db) h)
exec-has_deliveries n (Statement.enqueue e sinks now) db w u h =
    inl (enqueue-keeps n e sinks now db h)
exec-has_deliveries n (Statement.enqueue_first e sinks now) db w u h =
    inl (enqueue_first-keeps n e sinks now db h)
exec-has_deliveries n (Statement.claim now limit) db w u h =
    inl
      (update-keeps n (is_among (due_rows now limit db)) (claimed now) db.deliveries (λ d. refl) h)
exec-has_deliveries n (Statement.hand_back id next now) db w u h =
    inl (update-keeps n (is_held id) (handed_back next now) db.deliveries (λ d. refl) h)
exec-has_deliveries n (Statement.attempt id status code latency error next now) db w u h = inl (
    update-keeps n (delivery_is id) (after_attempt status code latency error next now) db.deliveries
      (λ d. refl) h)
exec-has_deliveries n (Statement.write_dlq id at error) db w u h =
    inl (rw (write_dlq-deliveries id at error db) h)
exec-has_deliveries n (Statement.settle id status) db w u h =
    inl (rw (settle_row-deliveries (find (delivery_is id) db.deliveries) status db) h)
exec-has_deliveries n (Statement.requeue now) db w u h =
    inl (update-keeps n is_unsettled (requeued now) db.deliveries (λ d. refl) h)
exec-has_deliveries n (Statement.detect e detection status at) db w u h = inl h
exec-has_deliveries n (Statement.release e) db w u h = inl h
exec-has_deliveries n (Statement.drop_dlq t) db w u h = inl h
exec-has_deliveries n (Statement.drop_events t) db w u h = drop_events-IsQueued n t db w u h

-- A statement leaves an event that has had its deliveries in that state.
pub exec-IsQueued :
    (n : ℕ) (s : Statement) (db : Db)
    → IsWellFormed db
    → n < db.next_event
    → IsQueued n db
    → IsQueued n (exec s db)
exec-IsQueued n s db w u (inl h) = exec-has_deliveries n s db w u h
exec-IsQueued n s db w u (inr g) = inr (exec-IsGone n s db g)
