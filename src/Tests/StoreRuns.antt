-- ===== src/Tests/StoreRuns.antt =====
-- The stated properties of webhook_doorman/store/sqlite.py at the rows of `Tests.Data`.
use webhook_doorman.Prelude.{
  ◌≡◌, refl, ◌≢◌, true, false, none, some, List, [], ◌∷◌, ◌++◌, ◌≤◌, ◌&&◌, arith,
}
use webhook_doorman.Prelude.Lists.{any, filter, All, length}
use webhook_doorman.Prelude.Text.{Text, codes}
use webhook_doorman.Models.{EventStatus, Delivery, DeliveryStatus}
use webhook_doorman.Store.Tables.{Db}
use webhook_doorman.Store.Ingest.{
  record_event, event_row, insert_deliveries, enqueue_first_deliveries,
}
use webhook_doorman.Store.Claims.{claim_due_deliveries}
use webhook_doorman.Store.Sweep.{sweep}
use webhook_doorman.Store.Verdicts.{record_detection}
use webhook_doorman.Store.Statements.{Statement, exec, run, fresh}
use webhook_doorman.Store.Invariant.{IsWellFormed}
use webhook_doorman.Store.Reachable.{run-IsWellFormed, fresh-IsWellFormed}
use webhook_doorman.Store.AtMostOnce.{enqueue_first_deliveries_once}
use webhook_doorman.Store.Withheld.{IsHeldBack, Spares, run-IsHeldBack}
use webhook_doorman.Store.Exclusive.{hands_out, claim_due_deliveries_exclusive}
use webhook_doorman.Store.Retention.{in_work, sweep_keeps_work}
use webhook_doorman.Store.Tables.{event_is}
use webhook_doorman.Prelude.{ℕ, ◌⊎◌}
use webhook_doorman.Prelude.Tests.{◌==◌}
use webhook_doorman.Models.{HeldEntry, is_quarantined}
use webhook_doorman.Store.Listing.{before, list_held}
use webhook_doorman.Store.Paging.{list_held_page}
use webhook_doorman.Tests.Data.{stored, queued}

abbrev pub stored_db : Db
stored_db = run stored fresh

abbrev pub queued_db : Db
queued_db = run queued fresh

abbrev both_sinks : List Text
both_sinks = codes "chat" ∷ codes "log" ∷ []

pub stored-IsWellFormed : IsWellFormed stored_db
stored-IsWellFormed = run-IsWellFormed stored fresh fresh-IsWellFormed

pub queued-IsWellFormed : IsWellFormed queued_db
queued-IsWellFormed = run-IsWellFormed queued fresh fresh-IsWellFormed

-- The first call queues two.
first_ids : (enqueue_first_deliveries 1 both_sinks 20 stored_db).0 ≡ 1 ∷ 2 ∷ []
unfolding enqueue_first_deliveries insert_deliveries run exec record_event event_row
first_ids = refl

first_some : (enqueue_first_deliveries 1 both_sinks 20 stored_db).0 ≢ []
first_some = rw first_ids (λ e. cc)

enqueue_first_deliveries_once_example :
    enqueue_first_deliveries 1 both_sinks 50
      (run (Statement.claim 40 32 ∷ []) (enqueue_first_deliveries 1 both_sinks 20 stored_db).1)
    ≡ ([], run (Statement.claim 40 32 ∷ []) (enqueue_first_deliveries 1 both_sinks 20 stored_db).1)
enqueue_first_deliveries_once_example =
    enqueue_first_deliveries_once 1 both_sinks both_sinks 20 50 (Statement.claim 40 32 ∷ [])
      stored_db stored-IsWellFormed first_some

-- The event in quarantine.
abbrev held_db : Db
held_db = run (stored ++ Statement.detect 1 none EventStatus.quarantined (some 15) ∷ []) fresh

held : IsHeldBack 1 held_db
unfolding run exec record_event event_row record_detection
held = record { idle = refl; withheld = refl; used = omega arith }

abbrev meanwhile : List Statement
meanwhile =
    Statement.enqueue_first 1 both_sinks 20
    ∷ Statement.enqueue 2 both_sinks 21
    ∷ Statement.detect 1 none EventStatus.received none
    ∷ []

spared : All (Spares 1) meanwhile
spared = (tt, ((λ e. omega arith), (tt, tt)))

run-IsHeldBack_example : IsHeldBack 1 (run meanwhile held_db)
run-IsHeldBack_example = run-IsHeldBack 1 meanwhile held_db spared held

claim_due_deliveries_exclusive_example :
    All
      (λ (d : Delivery). hands_out d.id (claim_due_deliveries 30 1 queued_db).0 ≡ false)
      (claim_due_deliveries 31 32 (claim_due_deliveries 30 1 queued_db).1).0
claim_due_deliveries_exclusive_example =
    claim_due_deliveries_exclusive 30 1 31 32 queued_db queued-IsWellFormed

sweep_keeps_work_example :
    filter in_work (sweep 1000 0 queued_db).1.deliveries ≡ filter in_work queued_db.deliveries
sweep_keeps_work_example = sweep_keeps_work 1000 0 queued_db

-- Both deliveries are exhausted, the dead letters are new, and the event is old.
abbrev dead_db : Db
dead_db =
    run
      (queued
        ++ Statement.claim 30 32
          ∷ Statement.attempt 1 DeliveryStatus.exhausted none 5 (some []) none 900
          ∷ Statement.write_dlq 1 900 []
          ∷ Statement.attempt 2 DeliveryStatus.delivered none 5 none none 900
          ∷ [])
      fresh

list_held_page_example :
    (length (list_held 5 (some 9) held_db) ≤ 5)
    × All (λ (h : HeldEntry). before (some 9) h.event_id ≡ true) (list_held 5 (some 9) held_db)
    × ((m : ℕ)
        → any
            (λ e. event_is m e && (is_quarantined e.status && before (some 9) e.id))
            held_db.events
          ≡ true
        → (any (λ (h : HeldEntry). h.event_id == m) (list_held 5 (some 9) held_db) ≡ true)
          ⊎ ((length (list_held 5 (some 9) held_db) ≡ 5)
              × All (λ (h : HeldEntry). m ≤ h.event_id) (list_held 5 (some 9) held_db)))
list_held_page_example = list_held_page 5 (some 9) held_db
