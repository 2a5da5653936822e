-- ===== src/Store/Methods.antt =====
-- The methods of `SqliteStore` (webhook_doorman/store/sqlite.py) as runs of statements.
use webhook_doorman.Prelude.{
  ℕ, ◌≡◌, refl, ◌∙◌, ap, inl, inr, Bool, true, false, ◌||◌, Option, none, some, List, [], ◌∷◌, ◌++◌,
}
use webhook_doorman.Prelude.Tests.{ltb, Bool-cases}
use webhook_doorman.Prelude.Lists.{find}
use webhook_doorman.Prelude.Text.{Text}
use webhook_doorman.Models.{DeliveryStatus}
use webhook_doorman.Store.Tables.{DeliveryRow, Db, delivery_is, has_delivery}
use webhook_doorman.Store.Claims.{
  error_prefix, open_deliveries, exhausted_deliveries, settled_status, settle_found,
  settle_event_for, mark_delivered, mark_retry, mark_exhausted, exhaust_row, insert_dlq,
}
use webhook_doorman.Store.Sweep.{sweep, sweep_dlq}
use webhook_doorman.Store.Statements.{
  Statement, exec, exec_attempt, exec_settle, settle_row, exec_write_dlq, run,
}
use webhook_doorman.Store.Invariant.{IsWellFormed, has_delivery-update}
use webhook_doorman.Store.Reachable.{run-IsWellFormed}

-- Some statements lead from the one database to the other.
pub record Reaches (a b : Db) : Type 0 where
  pub statements : List Statement
  pub leads : b ≡ run statements a

run-append : (ss ts : List Statement) (db : Db) → run (ss ++ ts) db ≡ run ts (run ss db)
unfolding run
run-append [] ts db = refl
run-append (s ∷ ss) ts db = run-append ss ts (exec s db)

pub Reaches-refl : (db : Db) → Reaches db db
unfolding run
Reaches-refl db = record { statements = []; leads = refl }

pub Reaches-trans : {a b c : Db} → Reaches a b → Reaches b c → Reaches a c
Reaches-trans {a} {b} {c} r s = record {
  statements = r.statements ++ s.statements;
  leads = s.leads ∙ (ap (run s.statements) r.leads ∙ back r.statements s.statements a);
}
  where
    back : (ss ts : List Statement) (db : Db) → run ts (run ss db) ≡ run (ss ++ ts) db
    back ss ts db = rw (run-append ss ts db)

-- One statement.
pub Reaches-exec : (s : Statement) (db : Db) → Reaches db (exec s db)
unfolding run
Reaches-exec s db = record { statements = s ∷ []; leads = refl }

-- With no open delivery left, settling is one UPDATE; otherwise it is none.
settle_found-Reaches :
    (id : ℕ) (failed : Bool) (o : Option DeliveryRow) (db : Db)
    → find (delivery_is id) db.deliveries ≡ o
    → Reaches db (settle_found o failed db)
unfolding settle_found run exec exec_settle
settle_found-Reaches id failed none db e = Reaches-refl db
settle_found-Reaches id failed (some d) db e =
    elim (Bool-cases (ltb 0 (open_deliveries d.event_id db))) [
      | inl waiting ↦ rw waiting (Reaches-refl db)
      | inr settled ↦ rw settled (record {
        statements =
            Statement.settle id
              (settled_status (failed || ltb 0 (exhausted_deliveries d.event_id db)))
            ∷ [];
        leads = rw (e, settle_row);
      })
    ]

pub settle_event_for-Reaches :
    (id : ℕ) (failed : Bool) (db : Db) → Reaches db (settle_event_for id failed db)
unfolding settle_event_for
settle_event_for-Reaches id failed db =
    settle_found-Reaches id failed (find (delivery_is id) db.deliveries) db refl

pub mark_delivered-Reaches :
    (id : ℕ) (code : Option ℕ) (latency now : ℕ) (db : Db)
    → Reaches db (mark_delivered id code latency now db)
unfolding mark_delivered exec exec_attempt
mark_delivered-Reaches id code latency now db =
    Reaches-trans
      (Reaches-exec (Statement.attempt id DeliveryStatus.delivered code latency none none now) db)
      (settle_event_for-Reaches id false
        (exec_attempt id DeliveryStatus.delivered code latency none none now db))

pub mark_retry-Reaches :
    (id : ℕ) (error : Text) (code : Option ℕ) (latency next now : ℕ) (db : Db)
    → Reaches db (mark_retry id error code latency next now db)
unfolding mark_retry exec exec_attempt
mark_retry-Reaches id error code latency next now db =
    Reaches-exec
      (Statement.attempt id DeliveryStatus.pending code latency (some (error_prefix error))
        (some next) now)
      db

exhaust_row-Reaches :
    (id : ℕ) (error : Text) (code : Option ℕ) (latency at : ℕ) (db : Db)
    → Reaches db (exhaust_row id error code latency at db)
unfolding exec exec_attempt
exhaust_row-Reaches id error code latency at db =
    Reaches-exec
      (Statement.attempt id DeliveryStatus.exhausted code latency (some (error_prefix error)) none
        at)
      db

-- The UPDATE of a delivery keeps the delivery.
has_delivery-exhaust_row :
    (id : ℕ) (error : Text) (code : Option ℕ) (latency at : ℕ) (db : Db)
    → has_delivery id (exhaust_row id error code latency at db) ≡ has_delivery id db
has_delivery-exhaust_row id error code latency at db =
    has_delivery-update _ _ (λ d. refl) (λ d. refl) id db.deliveries

insert_dlq-Reaches :
    (id at : ℕ) (error : Text) (db : Db)
    → has_delivery id db ≡ true
    → Reaches db (insert_dlq id at error db)
unfolding run exec exec_write_dlq
insert_dlq-Reaches id at error db there = record {
  statements = Statement.write_dlq id at error ∷ [];
  leads = rw there;
}

pub mark_exhausted-Reaches :
    (id : ℕ) (error : Text) (code : Option ℕ) (latency at : ℕ) (db : Db)
    → Reaches db (mark_exhausted id error code latency at db).1
unfolding mark_exhausted
mark_exhausted-Reaches id error code latency at db = elim (Bool-cases (has_delivery id db)) [
  | inl there ↦ rw there (
      Reaches-trans (exhaust_row-Reaches id error code latency at db) (
        Reaches-trans
          (insert_dlq-Reaches id at error (exhaust_row id error code latency at db)
            (has_delivery-exhaust_row id error code latency at db ∙ there))
          (settle_event_for-Reaches id true
            (insert_dlq id at error (exhaust_row id error code latency at db)))))
  | inr gone ↦ rw gone (exhaust_row-Reaches id error code latency at db)
]

pub sweep-Reaches :
    (events_before dlq_before : ℕ) (db : Db) → Reaches db (sweep events_before dlq_before db).1
unfolding sweep exec
sweep-Reaches events_before dlq_before db =
    Reaches-trans (Reaches-exec (Statement.drop_dlq dlq_before) db)
      (Reaches-exec (Statement.drop_events events_before) (sweep_dlq dlq_before db))

-- What the statements keep, the methods keep.
pub Reaches-IsWellFormed : {a b : Db} → Reaches a b → IsWellFormed a → IsWellFormed b
Reaches-IsWellFormed {a} r w = rw r.leads (run-IsWellFormed r.statements a w)
