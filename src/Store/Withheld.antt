-- ===== src/Store/Withheld.antt =====
-- Withheld events (webhook_doorman/store/sqlite.py): what `filtered`, `quarantined` and `dropped`
-- promise, under the statements but the two that an operator asks for.
use webhook_doorman.Prelude.{
  ℕ, ◌<◌, ◌≡◌, refl, subst, ap, ◌∙◌, ◌≢◌, inl, inr, Bool, true, false, not, ◌&&◌, Option, none,
  some, List, [], ◌∷◌, arith,
}
use webhook_doorman.Prelude.Tests.{◌==◌, Bool-cases, &&_parts}
use webhook_doorman.Prelude.Lists.{
  any, find, update_where, All, any-append, any-update_where, any-filter_le, none-update_where,
  any_of_find,
}
use webhook_doorman.Prelude.Text.{Text}
use webhook_doorman.Models.{EventStatus, InboundEvent, is_received, is_quarantined, is_withheld}
use webhook_doorman.Store.Tables.{
  EventRow, DeliveryRow, Db, event_is, belongs_to, delivery_is, has_delivery, has_key,
}
use webhook_doorman.Store.Ingest.{
  event_row, record_event, insert_deliveries, enqueue_deliveries, enqueue_first_deliveries,
  is_received_event,
}
use webhook_doorman.Store.Claims.{
  claim_due_deliveries, release_claim, requeue_incomplete, due_rows, is_among, claimed, is_held,
  handed_back, after_attempt, is_unsettled, requeued,
}
use webhook_doorman.Store.Verdicts.{record_detection, release_event}
use webhook_doorman.Store.Statements.{
  Statement, exec, exec_attempt, exec_settle, settle_row, exec_write_dlq, run,
}
use webhook_doorman.Store.Frame.{insert_deliveries-events, insert_deliveries-others}

-- A row of the event that no decision keeps from its sinks.
abbrev pub is_open_event : ℕ → EventRow → Bool
is_open_event n e = event_is n e && not (is_withheld e.status)

-- The event is withheld, or swept since, and has no delivery.
pub record IsHeldBack (n : ℕ) (db : Db) : Type 0 where
  pub idle : any (belongs_to n) db.deliveries ≡ false
  pub withheld : any (is_open_event n) db.events ≡ false
  pub used : n < db.next_event

-- Neither a replay's INSERT nor a release, of this event.
abbrev pub Spares : ℕ → Statement → Type 0
Spares n (Statement.enqueue e sinks now) = e ≢ n
Spares n (Statement.release e) = e ≢ n
Spares n s = Unit

ingest-IsHeldBack :
    (n : ℕ) (ev : InboundEvent) (db : Db) → IsHeldBack n db → IsHeldBack n (record_event ev db).1
unfolding record_event
ingest-IsHeldBack n ev db h = elim (Bool-cases (any (has_key ev.source ev.delivery_id) db.events)) [
  | inl taken ↦ rw taken h
  | inr free ↦ rw free (record {
    idle = h.idle;
    withheld = ground (
      arith,
      any-append (is_open_event n) db.events (event_row db.next_event ev ∷ []),
      h.withheld,
      h.used,
    );
    used = let below : n < db.next_event = h.used in omega arith;
  })
]

insert_deliveries-IsHeldBack :
    (n e : ℕ) (sinks : List Text) (now : ℕ) (db : Db)
    → e ≢ n
    → IsHeldBack n db
    → IsHeldBack n (insert_deliveries e sinks now db).1
insert_deliveries-IsHeldBack n e sinks now db ne h = record {
  idle = insert_deliveries-others n e sinks now db ne h.idle;
  withheld = rw ((insert_deliveries-events e sinks now db).0) h.withheld;
  used = rw ((insert_deliveries-events e sinks now db).1) h.used;
}

enqueue-IsHeldBack :
    (n e : ℕ) (sinks : List Text) (now : ℕ) (db : Db)
    → e ≢ n
    → IsHeldBack n db
    → IsHeldBack n (enqueue_deliveries e sinks now db).1
unfolding enqueue_deliveries
enqueue-IsHeldBack n e [] now db ne h = h
enqueue-IsHeldBack n e (sink ∷ sinks) now db ne h = elim (Bool-cases (any (event_is e) db.events)) [
  | inl there ↦ rw there (insert_deliveries-IsHeldBack n e (sink ∷ sinks) now db ne h)
  | inr gone ↦ rw gone h
]

-- A `received` row is not withheld.
not_received :
    (n : ℕ) (es : List EventRow)
    → any (is_open_event n) es ≡ false
    → any (λ e. event_is n e && is_received e.status) es ≡ false
not_received n [] h = refl
not_received n (e ∷ es) h = ground (arith, not_received n es)

enqueue_first-IsHeldBack :
    (n e : ℕ) (sinks : List Text) (now : ℕ) (db : Db)
    → IsHeldBack n db
    → IsHeldBack n (enqueue_first_deliveries e sinks now db).1
unfolding enqueue_first_deliveries
enqueue_first-IsHeldBack n e [] now db h = h
enqueue_first-IsHeldBack n e (sink ∷ sinks) now db h =
    elim (Bool-cases (not (any (belongs_to e) db.deliveries) && is_received_event e db)) [
      | inl first ↦ rw first (
          insert_deliveries-IsHeldBack n e (sink ∷ sinks) now db
            (λ same. cc (
              subst (λ (k : ℕ). is_received_event k db ≡ true) same
                  ((&&_parts (not (any (belongs_to e) db.deliveries)) (is_received_event e db)
                    first).1),
              not_received n db.events h.withheld,
            ))
            h)
      | inr refused ↦ rw refused h
    ]

-- An UPDATE of `deliveries` moves no row to another event.
update_deliveries-IsHeldBack :
    (n : ℕ) (p : DeliveryRow → Bool) (f : DeliveryRow → DeliveryRow) (db : Db)
    → ((d : DeliveryRow) → (f d).event_id ≡ d.event_id)
    → IsHeldBack n db
    → IsHeldBack n (record db { deliveries = update_where p f db.deliveries })
update_deliveries-IsHeldBack n p f db same h = record {
  idle =
      any-update_where (belongs_to n) p f db.deliveries (λ d. ap (λ (k : ℕ). k == n) (same d))
      ∙ h.idle;
  withheld = h.withheld;
  used = h.used;
}

update_events-IsHeldBack :
    (n : ℕ) (p : EventRow → Bool) (f : EventRow → EventRow) (db : Db)
    → ((e : EventRow) → p e ≡ true → is_open_event n e ≡ false → is_open_event n (f e) ≡ false)
    → IsHeldBack n db
    → IsHeldBack n (record db { events = update_where p f db.events })
update_events-IsHeldBack n p f db keep h = record {
  idle = h.idle;
  withheld = none-update_where (is_open_event n) p f db.events keep h.withheld;
  used = h.used;
}

-- A delivery that is settled belongs to another event.
settle_row-IsHeldBack :
    (n id : ℕ) (o : Option DeliveryRow) (status : EventStatus) (db : Db)
    → find (delivery_is id) db.deliveries ≡ o
    → IsHeldBack n db
    → IsHeldBack n (settle_row o status db)
unfolding settle_row
settle_row-IsHeldBack n id none status db e h = h
settle_row-IsHeldBack n id (some d) status db e h = elim (Bool-cases (belongs_to n d)) [
  | inl mine ↦
      absurd (cc (any_of_find (delivery_is id) (belongs_to n) db.deliveries d e mine, h.idle))
  | inr other ↦
      update_events-IsHeldBack n (event_is d.event_id) (λ e. record e { status = status }) db
        (λ x hit closed. ground arith) h
]

write_dlq-IsHeldBack :
    (n id at : ℕ) (error : Text) (db : Db)
    → IsHeldBack n db
    → IsHeldBack n (exec_write_dlq id at error db)
unfolding exec_write_dlq
write_dlq-IsHeldBack n id at error db h = elim (Bool-cases (has_delivery id db)) [
  | inl there ↦ rw there (record { idle = h.idle; withheld = h.withheld; used = h.used })
  | inr refused ↦ rw refused h
]

exec-IsHeldBack :
    (n : ℕ) (s : Statement) (db : Db) → Spares n s → IsHeldBack n db → IsHeldBack n (exec s db)
unfolding exec exec_attempt exec_settle claim_due_deliveries release_claim requeue_incomplete
    record_detection release_event
exec-IsHeldBack n (Statement.ingest ev) db s h = ingest-IsHeldBack n ev db h
exec-IsHeldBack n (Statement.enqueue e sinks now) db s h = enqueue-IsHeldBack n e sinks now db s h
exec-IsHeldBack n (Statement.enqueue_first e sinks now) db s h =
    enqueue_first-IsHeldBack n e sinks now db h
exec-IsHeldBack n (Statement.claim now limit) db s h =
    update_deliveries-IsHeldBack n (is_among (due_rows now limit db)) (claimed now) db (λ d. refl) h
exec-IsHeldBack n (Statement.hand_back id next now) db s h =
    update_deliveries-IsHeldBack n (is_held id) (handed_back next now) db (λ d. refl) h
exec-IsHeldBack n (Statement.attempt id status code latency error next now) db s h =
    update_deliveries-IsHeldBack n (delivery_is id)
      (after_attempt status code latency error next now) db (λ d. refl) h
exec-IsHeldBack n (Statement.write_dlq id at error) db s h = write_dlq-IsHeldBack n id at error db h
exec-IsHeldBack n (Statement.settle id status) db s h =
    settle_row-IsHeldBack n id (find (delivery_is id) db.deliveries) status db refl h
exec-IsHeldBack n (Statement.requeue now) db s h =
    update_deliveries-IsHeldBack n is_unsettled (requeued now) db (λ d. refl) h
exec-IsHeldBack n (Statement.detect e detection status at) db s h =
    update_events-IsHeldBack n (λ x. event_is e x && is_received x.status)
      (λ x. record x { detection = detection; status = status; quarantined_at = at }) db
      (λ x hit closed. ground arith) h
exec-IsHeldBack n (Statement.release e) db s h =
    update_events-IsHeldBack n (λ x. event_is e x && is_quarantined x.status)
      (λ x. record x { status = EventStatus.received; quarantined_at = none }) db
      (λ x hit closed. ground arith) h
exec-IsHeldBack n (Statement.drop_dlq t) db s h = record {
  idle = h.idle;
  withheld = h.withheld;
  used = h.used;
}
exec-IsHeldBack n (Statement.drop_events t) db s h = record {
  idle = any-filter_le (belongs_to n) _ db.deliveries h.idle;
  withheld = any-filter_le (is_open_event n) _ db.events h.withheld;
  used = h.used;
}

-- An event that is `filtered`, `quarantined` or `dropped` and has no delivery: after any statements
-- but a release of this event and the INSERT of a replay of it, it has no delivery, and no row of
-- it is in any other state. A redelivery that resumes, a concurrent verdict, a settling delivery
-- of another event and a sweep cannot send it anywhere.
pub run-IsHeldBack :
    (n : ℕ) (ss : List Statement) (db : Db)
    → All (Spares n) ss
    → IsHeldBack n db
    → IsHeldBack n (run ss db)
unfolding run
run-IsHeldBack n [] db s h = h
run-IsHeldBack n (st ∷ ss) db s h =
    run-IsHeldBack n ss (exec st db) s.1 (exec-IsHeldBack n st db s.0 h)
