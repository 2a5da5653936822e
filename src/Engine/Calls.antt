-- ===== src/Engine/Calls.antt =====
-- The store calls of webhook_doorman/engine.py, and its screening, as runs of the statements of
-- `Store.Statements`.
use webhook_doorman.Prelude.{ℕ, ◌≡◌, refl, Option, none, some, List, [], ◌∷◌}
use webhook_doorman.Prelude.Text.{Text}
use webhook_doorman.Models.{EventStatus, InboundEvent, DetectionResult, FilterVerdict}
use webhook_doorman.Context.{EventView}
use webhook_doorman.Store.Tables.{Db}
use webhook_doorman.Store.Ingest.{record_event, enqueue_deliveries, enqueue_first_deliveries}
use webhook_doorman.Store.Claims.{claim_due_deliveries, release_claim, requeue_incomplete}
use webhook_doorman.Store.Verdicts.{record_detection, release_event}
use webhook_doorman.Store.Statements.{Statement, exec}
use webhook_doorman.Store.Methods.{Reaches, Reaches-refl, Reaches-exec}
use webhook_doorman.Engine.Setup.{Detector, Setup, Metric, EngineState, increment}
use webhook_doorman.Engine.Screening.{screen, act_on, conclude, score_text, untrusted_text}
use webhook_doorman.Engine.Ingest.{count_refusals}

pub record_event-Reaches : (ev : InboundEvent) (db : Db) → Reaches db (record_event ev db).1
unfolding exec
record_event-Reaches ev db = Reaches-exec (Statement.ingest ev) db

pub enqueue_first-Reaches :
    (n : ℕ) (sinks : List Text) (now : ℕ) (db : Db)
    → Reaches db (enqueue_first_deliveries n sinks now db).1
unfolding exec
enqueue_first-Reaches n sinks now db = Reaches-exec (Statement.enqueue_first n sinks now) db

pub enqueue-Reaches :
    (n : ℕ) (sinks : List Text) (now : ℕ) (db : Db)
    → Reaches db (enqueue_deliveries n sinks now db).1
unfolding exec
enqueue-Reaches n sinks now db = Reaches-exec (Statement.enqueue n sinks now) db

detect-Reaches :
    (n : ℕ) (r : Option DetectionResult) (status : EventStatus) (at : Option ℕ) (db : Db)
    → Reaches db (record_detection n r status at db)
unfolding exec
detect-Reaches n r status at db = Reaches-exec (Statement.detect n r status at) db

pub release_event-Reaches : (n : ℕ) (db : Db) → Reaches db (release_event n db).1
unfolding exec
release_event-Reaches n db = Reaches-exec (Statement.release n) db

pub claim-Reaches : (now limit : ℕ) (db : Db) → Reaches db (claim_due_deliveries now limit db).1
unfolding exec
claim-Reaches now limit db = Reaches-exec (Statement.claim now limit) db

pub hand_back-Reaches : (id next now : ℕ) (db : Db) → Reaches db (release_claim id next now db).1
unfolding exec
hand_back-Reaches id next now db = Reaches-exec (Statement.hand_back id next now) db

pub requeue-Reaches : (now : ℕ) (db : Db) → Reaches db (requeue_incomplete now db).1
unfolding exec
requeue-Reaches now db = Reaches-exec (Statement.requeue now) db

conclude-db :
    (u : Setup) (source : Text) (n : ℕ) (status : EventStatus) (rule : Option Text)
    (s : EngineState)
    → (conclude u source n status rule s).1.db ≡ s.db
unfolding conclude
conclude-db u source n EventStatus.received rule s = refl
conclude-db u source n EventStatus.quarantined rule s = refl
conclude-db u source n status rule s = refl

pub count_refusals-db :
    (u : Setup) (source : Text) (fs : List (Text × FilterVerdict)) (s : EngineState)
    → (count_refusals u source fs s).db ≡ s.db
unfolding count_refusals
count_refusals-db u source [] s = refl
count_refusals-db u source ((sink, verdict) ∷ fs) s =
    count_refusals-db u source fs
      (increment (Metric.deliveries_filtered source sink verdict.reason) s)

module _ (u : Setup) where
  -- The screening is one UPDATE of the event, or nothing.
  score_text-Reaches :
      (o : Option Detector) (text source : Text) (n now : ℕ) (s : EngineState)
      → Reaches s.db (score_text u o text source n now s).1.db
  unfolding act_on
  score_text-Reaches none text source n now s = Reaches-refl s.db
  score_text-Reaches (some detector) [] source n now s = Reaches-refl s.db
  score_text-Reaches (some detector) (c ∷ text) source n now s =
      rw (conclude-db u) (detect-Reaches n _ _ _ s.db)

  pub screen-Reaches :
      (e : EventView) (n now : ℕ) (s : EngineState) → Reaches s.db (screen u e n now s).1.db
  unfolding screen
  screen-Reaches e n now s = score_text-Reaches u.detector (untrusted_text u e) e.source n now s
