-- ===== src/Store/Log.antt =====
-- The event table as a log (webhook_doorman/store/sqlite.py, `SqliteStore.record_event`): what the rows
-- hold of what was received, whichever statements run in between.
use webhook_doorman.Prelude.{
  ℕ, ◌≡◌, refl, sym, ◌∙◌, ap, inl, inr, Bool, true, false, not, ◌&&◌, Option, none, some, List, [],
  ◌∷◌, ◌++◌,
}
use webhook_doorman.Prelude.Tests.{if◌then◌else◌, Bool-cases, is_some, &&_parts}
use webhook_doorman.Prelude.Lists.{any, find, update_where, All}
use webhook_doorman.Prelude.Text.{Text, text_eq, text_eq_iff}
use webhook_doorman.Models.{EventStatus, InboundEvent, is_received, is_quarantined}
use webhook_doorman.Store.Tables.{
  EventRow, DeliveryRow, Db, event_is, has_key, delivery_is, has_event, has_delivery,
}
use webhook_doorman.Store.Ingest.{
  event_row, record_event, insert_deliveries, enqueue_deliveries, enqueue_first_deliveries,
  has_deliveries, is_received_event,
}
use webhook_doorman.Store.Claims.{claim_due_deliveries, release_claim, requeue_incomplete}
use webhook_doorman.Store.Verdicts.{record_detection, release_event}
use webhook_doorman.Store.Statements.{
  Statement, exec, run, exec_attempt, exec_settle, settle_row, exec_write_dlq,
}
use webhook_doorman.Store.Received.{
  Received, received_row, received_event, is_key, received, log, first_write, log_step, replay_log,
  keeps_rows,
}

module _ (source id : Text) where
  find-append :
      (es : List EventRow) (e : EventRow)
      → received (find (has_key source id) (es ++ e ∷ [])) ≡ (
          if any (has_key source id) es
          then received (find (has_key source id) es)
          else if has_key source id e
          then some (received_row e)
          else none)
  find-append [] e = elim (Bool-cases (has_key source id e)) [
    | inl hit ↦ rw hit refl
    | inr miss ↦ rw miss refl
  ]
  find-append (x ∷ es) e = elim (Bool-cases (has_key source id x)) [
    | inl hit ↦ rw hit refl
    | inr miss ↦ rw miss (find-append es e)
  ]

  find-any :
      (es : List EventRow)
      → any (has_key source id) es ≡ is_some (received (find (has_key source id) es))
  find-any [] = refl
  find-any (x ∷ es) = elim (Bool-cases (has_key source id x)) [
    | inl hit ↦ rw hit refl
    | inr miss ↦ rw miss (find-any es)
  ]

  -- An UPDATE that leaves the key and what was received leaves the log.
  find-update_where :
      (p : EventRow → Bool) (f : EventRow → EventRow)
      → ((e : EventRow) → has_key source id (f e) ≡ has_key source id e)
      → ((e : EventRow) → received_row (f e) ≡ received_row e)
      → (es : List EventRow)
      → received (find (has_key source id) (update_where p f es))
        ≡ received (find (has_key source id) es)
  find-update_where p f same_key same [] = refl
  find-update_where p f same_key same (x ∷ es) = elim (Bool-cases (p x)) [
    | inl hit ↦
        rw (hit, same_key x)
          (elim (Bool-cases (has_key source id x)) [
            | inl found ↦ rw found (ap some (same x))
            | inr not_yet ↦ rw not_yet (find-update_where p f same_key same es)
          ])
    | inr miss ↦ rw miss (elim (Bool-cases (has_key source id x)) [
      | inl found ↦ rw found refl
      | inr not_yet ↦ rw not_yet (find-update_where p f same_key same es)
    ])
  ]

  first_write_kept :
      (b : Bool) (ev : InboundEvent) (o : Option Received)
      → is_some o ≡ true
      → o ≡ first_write b ev o
  first_write_kept b ev none h = absurd (cc)
  first_write_kept b ev (some r) h = refl

  first_write_other : (ev : InboundEvent) (o : Option Received) → o ≡ first_write false ev o
  first_write_other ev none = refl
  first_write_other ev (some r) = refl

  first_write_if :
      (b : Bool) (ev : InboundEvent) (o : Option Received)
      → (if is_some o then o else if b then some (received_event ev) else none) ≡ first_write b ev o
  first_write_if b ev (some r) = refl
  first_write_if true ev none = refl
  first_write_if false ev none = refl

  -- A duplicate is under a key that the log has.
  duplicate_kept :
      (ev : InboundEvent) (es : List EventRow)
      → any (has_key ev.source ev.delivery_id) es ≡ true
      → is_key source id ev ≡ true
      → is_some (received (find (has_key source id) es)) ≡ true
  duplicate_kept ev es h k =
      let parts = &&_parts (text_eq ev.source source) (text_eq ev.delivery_id id) k in
      let s : ev.source ≡ source = (text_eq_iff ev.source source).0 parts.0 in
      let d : ev.delivery_id ≡ id = (text_eq_iff ev.delivery_id id).0 parts.1 in
      sym (find-any es)
      ∙ (ap (λ t. any (has_key t id) es) (sym s)
          ∙ (ap (λ t. any (has_key ev.source t) es) (sym d) ∙ h))

  log-record_event :
      (ev : InboundEvent) (db : Db)
      → log (record_event ev db).1 source id
        ≡ first_write (is_key source id ev) ev (log db source id)
  unfolding log record_event
  log-record_event ev db = elim (Bool-cases (any (has_key ev.source ev.delivery_id) db.events)) [
    | inl old ↦ rw old (elim (Bool-cases (is_key source id ev)) [
      | inl same ↦
          first_write_kept (is_key source id ev) ev _ (duplicate_kept ev db.events old same)
      | inr other ↦ rw other (first_write_other ev _)
    ])
    | inr new ↦ rw new (
        find-append db.events (event_row db.next_event ev)
        ∙ (rw (find-any db.events) (
            first_write_if (is_key source id ev) ev
              (received (find (has_key source id) db.events)))))
  ]

  insert_deliveries-log :
      (n : ℕ) (sinks : List Text) (now : ℕ) (db : Db)
      → log (insert_deliveries n sinks now db).1 source id ≡ log db source id
  unfolding log insert_deliveries
  insert_deliveries-log n [] now db = refl
  insert_deliveries-log n (k ∷ sinks) now db = insert_deliveries-log n sinks now _

  enqueue-log :
      (n : ℕ) (sinks : List Text) (now : ℕ) (db : Db)
      → log (enqueue_deliveries n sinks now db).1 source id ≡ log db source id
  unfolding enqueue_deliveries
  enqueue-log n [] now db = refl
  enqueue-log n (k ∷ sinks) now db = elim (Bool-cases (has_event n db)) [
    | inl there ↦ rw there (insert_deliveries-log n (k ∷ sinks) now db)
    | inr gone ↦ rw gone refl
  ]

  enqueue_first-log :
      (n : ℕ) (sinks : List Text) (now : ℕ) (db : Db)
      → log (enqueue_first_deliveries n sinks now db).1 source id ≡ log db source id
  unfolding enqueue_first_deliveries
  enqueue_first-log n [] now db = refl
  enqueue_first-log n (k ∷ sinks) now db =
      elim (Bool-cases (not (has_deliveries n db) && is_received_event n db)) [
        | inl may ↦ rw may (insert_deliveries-log n (k ∷ sinks) now db)
        | inr not_now ↦ rw not_now refl
      ]

  settle_row-log :
      (o : Option DeliveryRow) (status : EventStatus) (db : Db)
      → log (settle_row o status db) source id ≡ log db source id
  unfolding log settle_row
  settle_row-log none status db = refl
  settle_row-log (some d) status db =
      find-update_where (event_is d.event_id) (λ e. record e { status = status }) (λ e. refl)
        (λ e. refl) db.events

  write_dlq-log :
      (n at : ℕ) (error : Text) (db : Db)
      → log (exec_write_dlq n at error db) source id ≡ log db source id
  unfolding log exec_write_dlq
  write_dlq-log n at error db = elim (Bool-cases (has_delivery n db)) [
    | inl there ↦ rw there refl
    | inr gone ↦ rw gone refl
  ]

  exec-log :
      (s : Statement) (db : Db)
      → keeps_rows s ≡ true
      → log (exec s db) source id ≡ log_step s source id (log db source id)
  unfolding log exec exec_attempt exec_settle claim_due_deliveries release_claim requeue_incomplete
      record_detection release_event
  exec-log (Statement.ingest ev) db h = log-record_event ev db
  exec-log (Statement.enqueue e sinks now) db h = enqueue-log e sinks now db
  exec-log (Statement.enqueue_first e sinks now) db h = enqueue_first-log e sinks now db
  exec-log (Statement.claim now limit) db h = refl
  exec-log (Statement.hand_back n next now) db h = refl
  exec-log (Statement.attempt n status code latency error next now) db h = refl
  exec-log (Statement.write_dlq n at error) db h = write_dlq-log n at error db
  exec-log (Statement.settle n status) db h =
      settle_row-log (find (delivery_is n) db.deliveries) status db
  exec-log (Statement.requeue now) db h = refl
  exec-log (Statement.detect e detection status at) db h =
      find-update_where (λ r. event_is e r && is_received r.status) _ (λ r. refl) (λ r. refl)
        db.events
  exec-log (Statement.release e) db h =
      find-update_where (λ r. event_is e r && is_quarantined r.status) _ (λ r. refl) (λ r. refl)
        db.events
  exec-log (Statement.drop_dlq t) db h = refl
  exec-log (Statement.drop_events t) db h = absurd (cc)

  -- The tables implement the log. Whatever statements run, in any order and from any number of
  -- coroutines, as long as the sweep deletes no event in between: under every key, what the tables
  -- hold of the received event is what the abstract log holds after the same statements. So the first
  -- write of a key stays, and no verdict, attempt, release or requeue changes what was received.
  pub run_refines_log :
      (ss : List Statement) (db : Db)
      → All (λ s. keeps_rows s ≡ true) ss
      → log (run ss db) source id ≡ replay_log ss source id (log db source id)
  unfolding run replay_log
  run_refines_log [] db h = refl
  run_refines_log (s ∷ ss) db h =
      run_refines_log ss (exec s db) h.1 ∙ ap (replay_log ss source id) (exec-log s db h.0)
