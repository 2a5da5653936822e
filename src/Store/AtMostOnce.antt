-- ===== src/Store/AtMostOnce.antt =====
-- How often the first deliveries of an event are queued
-- (webhook_doorman/store/sqlite.py, `enqueue_first_deliveries`) when other statements run in between.
use webhook_doorman.Prelude.{
  ℕ, ◌<◌, ◌≡◌, refl, ◌≢◌, inl, inr, true, not, ◌&&◌, List, [], ◌∷◌, arith,
}
use webhook_doorman.Prelude.Tests.{Bool-cases, &&_parts}
use webhook_doorman.Prelude.Lists.{any}
use webhook_doorman.Prelude.Text.{Text}
use webhook_doorman.Models.{is_received}
use webhook_doorman.Store.Tables.{Db, event_is, belongs_to}
use webhook_doorman.Store.Ingest.{enqueue_first_deliveries, has_deliveries, is_received_event}
use webhook_doorman.Store.Statements.{Statement, exec, run}
use webhook_doorman.Store.Invariant.{IsWellFormed}
use webhook_doorman.Store.Reachable.{exec-IsWellFormed, any_part}
use webhook_doorman.Store.Frame.{exec-used, used_of_any, insert_deliveries-queued}
use webhook_doorman.Store.Queued.{IsQueued, none_of_part, exec-IsQueued}

run-IsQueued :
    (n : ℕ) (ss : List Statement) (db : Db)
    → IsWellFormed db
    → n < db.next_event
    → IsQueued n db
    → IsQueued n (run ss db)
unfolding run
run-IsQueued n [] db w u q = q
run-IsQueued n (s ∷ ss) db w u q =
    run-IsQueued n ss (exec s db) (exec-IsWellFormed s db w) (exec-used n s db u)
      (exec-IsQueued n s db w u q)

-- An event that has had its deliveries gets no first ones.
enqueue_first_refused :
    (n : ℕ) (sinks : List Text) (now : ℕ) (db : Db)
    → IsQueued n db
    → enqueue_first_deliveries n sinks now db ≡ ([], db)
unfolding enqueue_first_deliveries has_deliveries
enqueue_first_refused n [] now db q = refl
enqueue_first_refused n (sink ∷ sinks) now db (inl h) = rw h
enqueue_first_refused n (sink ∷ sinks) now db (inr g) =
    rw (none_of_part n (λ e. is_received e.status) db.events g.absent) (ground arith)

-- What a call that queued anything leaves behind.
pub queued :
    (n : ℕ) (sinks : List Text) (now : ℕ) (db : Db)
    → (enqueue_first_deliveries n sinks now db).0 ≢ []
    → (has_deliveries n (enqueue_first_deliveries n sinks now db).1 ≡ true)
      × (any (event_is n) db.events ≡ true)
unfolding enqueue_first_deliveries has_deliveries
queued n [] now db h = absurd (h refl)
queued n (sink ∷ sinks) now db h =
    elim (Bool-cases (not (any (belongs_to n) db.deliveries) && is_received_event n db)) [
      | inl first ↦ (
        rw first (insert_deliveries-queued n sink sinks now db),
        any_part (event_is n) (λ e. is_received e.status) db.events
            ((&&_parts (not (any (belongs_to n) db.deliveries)) (is_received_event n db) first).1),
      )
      | inr refused ↦ absurd (h (rw refused))
    ]

-- From tables that keep the promises of the schema: once a call of `enqueue_first_deliveries` has
-- queued any delivery of an event, then after any statements, of any coroutines, every further call
-- for that event, with whatever sinks and at whatever time, queues nothing and changes nothing.
pub enqueue_first_deliveries_once :
    (n : ℕ) (sinks more : List Text) (now later : ℕ) (ss : List Statement) (db : Db)
    → IsWellFormed db
    → (enqueue_first_deliveries n sinks now db).0 ≢ []
    → enqueue_first_deliveries n more later (run ss (enqueue_first_deliveries n sinks now db).1)
      ≡ ([], run ss (enqueue_first_deliveries n sinks now db).1)
enqueue_first_deliveries_once n sinks more now later ss db w h =
    let q : (has_deliveries n (enqueue_first_deliveries n sinks now db).1 ≡ true)
        × (any (event_is n) db.events ≡ true) =
      queued n sinks now db h in
    enqueue_first_refused n more later (run ss (enqueue_first_deliveries n sinks now db).1) (
      run-IsQueued n ss (enqueue_first_deliveries n sinks now db).1
        (first-IsWellFormed n sinks now db w)
        (first-used n sinks now db (used_of_any n db.next_event db.events w.event_bound q.1))
        (inl q.0))
  where
    first-IsWellFormed :
        (n : ℕ) (sinks : List Text) (now : ℕ) (db : Db)
        → IsWellFormed db
        → IsWellFormed (enqueue_first_deliveries n sinks now db).1
    first-IsWellFormed n sinks now db w =
        unfold exec in exec-IsWellFormed (Statement.enqueue_first n sinks now) db w

    first-used :
        (n : ℕ) (sinks : List Text) (now : ℕ) (db : Db)
        → n < db.next_event
        → n < (enqueue_first_deliveries n sinks now db).1.next_event
    first-used n sinks now db u =
        unfold exec in exec-used n (Statement.enqueue_first n sinks now) db u
