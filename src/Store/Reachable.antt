-- ===== src/Store/Reachable.antt =====
-- The promises of the schema under the statements of webhook_doorman/store/sqlite.py, in any order.
use webhook_doorman.Prelude.{
  ℕ, suc, ◌<◌, ◌≡◌, refl, ap, ◌≢◌, inl, inr, Bool, true, false, not, ◌&&◌, Option, none, some, List,
  [], ◌∷◌, ◌++◌, arith,
}
use webhook_doorman.Prelude.Tests.{ltb, Bool-cases, &&_parts}
use webhook_doorman.Prelude.Lists.{
  any, find, filter, All-imp, All-filter, All-filter_imp, All-of_any, any-filter_not,
}
use webhook_doorman.Prelude.Distinct.{Distinct-filter}
use webhook_doorman.Prelude.Text.{Text, text_eq_refl}
use webhook_doorman.Models.{EventStatus, InboundEvent, is_received}
use webhook_doorman.Store.Tables.{
  EventRow, DeliveryRow, DlqRow, Db, event_is, delivery_is, has_key, has_event, has_delivery,
}
use webhook_doorman.Store.Ingest.{
  event_row, record_event, new_delivery, insert_deliveries, enqueue_deliveries,
  enqueue_first_deliveries, is_received_event, has_deliveries,
}
use webhook_doorman.Store.Claims.{
  claim_due_deliveries, claimed, is_among, due_rows, release_claim, after_attempt, error_prefix,
  requeue_incomplete,
}
use webhook_doorman.Store.Verdicts.{record_detection, release_event}
use webhook_doorman.Store.Sweep.{sweep_dlq, sweep_events, is_swept, delivery_swept, dlq_swept}
use webhook_doorman.Store.Statements.{
  Statement, exec, exec_attempt, exec_settle, settle_row, exec_write_dlq, run, fresh,
}
use webhook_doorman.Store.Invariant.{
  IsWellFormed, event_key, update_events-IsWellFormed, update_deliveries-IsWellFormed,
  append_delivery-IsWellFormed, append_event-IsWellFormed, append_dlq-IsWellFormed,
}

-- A row that the unique index does not match has another key.
key_ne : (s k : Text) (e : EventRow) → has_key s k e ≡ false → event_key e ≢ (s, k)
key_ne s k e h p =
    let ps : e.source ≡ s = ap (λ (x : Text × Text). x.0) p in
    let pk : e.delivery_id ≡ k = ap (λ (x : Text × Text). x.1) p in
    cc (h, ps, pk, text_eq_refl s, text_eq_refl k)

record_event-IsWellFormed :
    (ev : InboundEvent) (db : Db) → IsWellFormed db → IsWellFormed (record_event ev db).1
unfolding record_event
record_event-IsWellFormed ev db w =
    elim (Bool-cases (any (has_key ev.source ev.delivery_id) db.events)) [
      | inl taken ↦ rw taken w
      | inr free ↦ rw free (
          append_event-IsWellFormed db (event_row db.next_event ev) refl
            (All-imp (λ (e : EventRow). has_key ev.source ev.delivery_id e ≡ false)
              (λ (e : EventRow). event_key e ≢ (ev.source, ev.delivery_id)) db.events
              (key_ne ev.source ev.delivery_id)
              (All-of_any (has_key ev.source ev.delivery_id) db.events free))
            w)
    ]

pub insert_deliveries-IsWellFormed :
    (e : ℕ) (sinks : List Text) (now : ℕ) (db : Db)
    → has_event e db ≡ true
    → IsWellFormed db
    → IsWellFormed (insert_deliveries e sinks now db).1
unfolding insert_deliveries new_delivery
insert_deliveries-IsWellFormed e [] now db there w = w
insert_deliveries-IsWellFormed e (sink ∷ sinks) now db there w =
    insert_deliveries-IsWellFormed e sinks now
      (record db {
        deliveries = db.deliveries ++ new_delivery db.next_delivery e sink now ∷ [];
        next_delivery = suc db.next_delivery;
      })
      there
      (append_delivery-IsWellFormed db (new_delivery db.next_delivery e sink now) refl there w)

enqueue_deliveries-IsWellFormed :
    (e : ℕ) (sinks : List Text) (now : ℕ) (db : Db)
    → IsWellFormed db
    → IsWellFormed (enqueue_deliveries e sinks now db).1
unfolding enqueue_deliveries
enqueue_deliveries-IsWellFormed e [] now db w = w
enqueue_deliveries-IsWellFormed e (sink ∷ sinks) now db w = elim (Bool-cases (has_event e db)) [
  | inl there ↦ rw there (insert_deliveries-IsWellFormed e (sink ∷ sinks) now db there w)
  | inr gone ↦ rw gone w
]

-- An event that is there and `received` is there.
pub any_part {ℓ} :
    {A : Type ℓ} (p q : A → Bool) (xs : List A) → any (λ x. p x && q x) xs ≡ true → any p xs ≡ true
any_part p q [] h = cc
any_part p q (x ∷ xs) h = ground (arith, any_part p q xs)

enqueue_first-IsWellFormed :
    (e : ℕ) (sinks : List Text) (now : ℕ) (db : Db)
    → IsWellFormed db
    → IsWellFormed (enqueue_first_deliveries e sinks now db).1
unfolding enqueue_first_deliveries
enqueue_first-IsWellFormed e [] now db w = w
enqueue_first-IsWellFormed e (sink ∷ sinks) now db w =
    elim (Bool-cases (not (has_deliveries e db) && is_received_event e db)) [
      | inl first ↦
          let parts : (not (has_deliveries e db) ≡ true) × (is_received_event e db ≡ true) =
            &&_parts (not (has_deliveries e db)) (is_received_event e db) first in
          rw first (
            insert_deliveries-IsWellFormed e (sink ∷ sinks) now db
              (any_part (event_is e) (λ x. is_received x.status) db.events parts.1) w)
      | inr refused ↦ rw refused w
    ]

sweep_dlq-IsWellFormed : (t : ℕ) (db : Db) → IsWellFormed db → IsWellFormed (sweep_dlq t db)
sweep_dlq-IsWellFormed t db w =
    let keep : DlqRow → Bool = λ q. not (ltb q.exhausted_at t) in
    record {
      event_ids = w.event_ids;
      event_keys = w.event_keys;
      event_bound = w.event_bound;
      delivery_ids = w.delivery_ids;
      delivery_bound = w.delivery_bound;
      delivery_events = w.delivery_events;
      dlq_ids = Distinct-filter (λ (q : DlqRow). q.id) keep db.dlq w.dlq_ids;
      dlq_bound = All-filter (λ (q : DlqRow). q.id < db.next_dlq) keep db.dlq w.dlq_bound;
      dlq_deliveries =
          All-filter (λ (q : DlqRow). has_delivery q.delivery_id db ≡ true) keep db.dlq
            w.dlq_deliveries;
    }

negated : (b : Bool) → not b ≡ true → b ≡ false
negated b h = ground arith

-- The cascade leaves no row without the row that it refers to.
sweep_events-IsWellFormed : (t : ℕ) (db : Db) → IsWellFormed db → IsWellFormed (sweep_events t db)
sweep_events-IsWellFormed t db w =
    let e_keep : EventRow → Bool = λ e. not (is_swept t db e) in
    let d_keep : DeliveryRow → Bool = λ d. not (delivery_swept t db d) in
    let q_keep : DlqRow → Bool = λ q. not (dlq_swept t db q) in
    record {
      event_ids = Distinct-filter (λ (e : EventRow). e.id) e_keep db.events w.event_ids;
      event_keys = Distinct-filter event_key e_keep db.events w.event_keys;
      event_bound =
          All-filter (λ (e : EventRow). e.id < db.next_event) e_keep db.events w.event_bound;
      delivery_ids =
          Distinct-filter (λ (d : DeliveryRow). d.id) d_keep db.deliveries w.delivery_ids;
      delivery_bound =
          All-filter (λ (d : DeliveryRow). d.id < db.next_delivery) d_keep db.deliveries
            w.delivery_bound;
      delivery_events =
          All-filter_imp (λ (d : DeliveryRow). has_event d.event_id db ≡ true)
            (λ (d : DeliveryRow). any (event_is d.event_id) (filter e_keep db.events) ≡ true) d_keep
            db.deliveries
            (λ d kept there.
              any-filter_not (event_is d.event_id) (is_swept t db) db.events there
                (negated (delivery_swept t db d) kept))
            w.delivery_events;
      dlq_ids = Distinct-filter (λ (q : DlqRow). q.id) q_keep db.dlq w.dlq_ids;
      dlq_bound = All-filter (λ (q : DlqRow). q.id < db.next_dlq) q_keep db.dlq w.dlq_bound;
      dlq_deliveries =
          All-filter_imp (λ (q : DlqRow). has_delivery q.delivery_id db ≡ true)
            (λ (q : DlqRow). any (delivery_is q.delivery_id) (filter d_keep db.deliveries) ≡ true)
            q_keep db.dlq
            (λ q kept there.
              any-filter_not (delivery_is q.delivery_id) (delivery_swept t db) db.deliveries there
                (negated (dlq_swept t db q) kept))
            w.dlq_deliveries;
    }

settle_row-IsWellFormed :
    (o : Option DeliveryRow) (status : EventStatus) (db : Db)
    → IsWellFormed db
    → IsWellFormed (settle_row o status db)
unfolding settle_row
settle_row-IsWellFormed none status db w = w
settle_row-IsWellFormed (some d) status db w =
    update_events-IsWellFormed (event_is d.event_id) (λ e. record e { status = status }) (λ e. refl)
      (λ e. refl) db w

exec_write_dlq-IsWellFormed :
    (id at : ℕ) (error : Text) (db : Db)
    → IsWellFormed db
    → IsWellFormed (exec_write_dlq id at error db)
unfolding exec_write_dlq
exec_write_dlq-IsWellFormed id at error db w = elim (Bool-cases (has_delivery id db)) [
  | inl there ↦ rw there (
      append_dlq-IsWellFormed db
        (record {
          id = db.next_dlq;
          delivery_id = id;
          exhausted_at = at;
          last_error = error_prefix error;
        })
        refl there w)
  | inr gone ↦ rw gone w
]

-- Every statement keeps the promises of the schema.
pub exec-IsWellFormed : (s : Statement) (db : Db) → IsWellFormed db → IsWellFormed (exec s db)
unfolding exec exec_attempt exec_settle claim_due_deliveries release_claim requeue_incomplete
    record_detection release_event
exec-IsWellFormed (Statement.ingest ev) db w = record_event-IsWellFormed ev db w
exec-IsWellFormed (Statement.enqueue e sinks now) db w =
    enqueue_deliveries-IsWellFormed e sinks now db w
exec-IsWellFormed (Statement.enqueue_first e sinks now) db w =
    enqueue_first-IsWellFormed e sinks now db w
exec-IsWellFormed (Statement.claim now limit) db w =
    update_deliveries-IsWellFormed (is_among (due_rows now limit db)) (claimed now) (λ d. refl)
      (λ d. refl) db w
exec-IsWellFormed (Statement.hand_back id next now) db w =
    update_deliveries-IsWellFormed _ _ (λ d. refl) (λ d. refl) db w
exec-IsWellFormed (Statement.attempt id status code latency error next now) db w =
    update_deliveries-IsWellFormed (delivery_is id)
      (after_attempt status code latency error next now) (λ d. refl) (λ d. refl) db w
exec-IsWellFormed (Statement.write_dlq id at error) db w =
    exec_write_dlq-IsWellFormed id at error db w
exec-IsWellFormed (Statement.settle id status) db w =
    settle_row-IsWellFormed (find (delivery_is id) db.deliveries) status db w
exec-IsWellFormed (Statement.requeue now) db w =
    update_deliveries-IsWellFormed _ _ (λ d. refl) (λ d. refl) db w
exec-IsWellFormed (Statement.detect e detection status at) db w =
    update_events-IsWellFormed _ _ (λ e. refl) (λ e. refl) db w
exec-IsWellFormed (Statement.release e) db w =
    update_events-IsWellFormed _ _ (λ e. refl) (λ e. refl) db w
exec-IsWellFormed (Statement.drop_dlq t) db w = sweep_dlq-IsWellFormed t db w
exec-IsWellFormed (Statement.drop_events t) db w = sweep_events-IsWellFormed t db w

-- From tables that keep the promises of the schema, any statements, in any order and from any
-- number of coroutines, lead to tables that keep them: ids are distinct and below the next one, no
-- two events share (source, delivery_id), each delivery has its event and each dead letter its
-- delivery.
pub run-IsWellFormed : (ss : List Statement) (db : Db) → IsWellFormed db → IsWellFormed (run ss db)
unfolding run
run-IsWellFormed [] db w = w
run-IsWellFormed (s ∷ ss) db w = run-IsWellFormed ss (exec s db) (exec-IsWellFormed s db w)

pub fresh-IsWellFormed : IsWellFormed fresh
fresh-IsWellFormed = record {
  event_ids = tt;
  event_keys = tt;
  event_bound = tt;
  delivery_ids = tt;
  delivery_bound = tt;
  delivery_events = tt;
  dlq_ids = tt;
  dlq_bound = tt;
  dlq_deliveries = tt;
}
