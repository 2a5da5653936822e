-- ===== src/Engine/Told.antt =====
-- What an answer of `Engine.ingest` (webhook_doorman/engine.py) says of the tables, for the screening
-- and the dispatch of a new event.
use webhook_doorman.Prelude.{
  ◌⊎◌, sym, ℕ, ◌≡◌, refl, subst, inl, inr, Bool, true, false, Option, none, some, List, [], ◌∷◌,
}
use webhook_doorman.Prelude.Tests.{Bool-cases}
use webhook_doorman.Prelude.Text.{Text}
use webhook_doorman.Models.{
  EventStatus, InboundEvent, DetectionResult, is_received, is_filtered, is_withheld,
}
use webhook_doorman.Context.{EventView, inbound_view}
use webhook_doorman.Store.Tables.{Db}
use webhook_doorman.Store.Ingest.{has_deliveries}
use webhook_doorman.Store.Verdicts.{record_detection}
use webhook_doorman.Engine.Setup.{
  Action, Detector, Setup, Metric, EngineState, increment, with_db, Response,
}
use webhook_doorman.Engine.Screening.{
  screen, act_on, conclude, score_text, untrusted_text, status_of,
}
use webhook_doorman.Engine.Ingest.{count_refusals, dispatch_screened, ingest_new, dispatch_new}
use webhook_doorman.Engine.Calls.{count_refusals-db}
use webhook_doorman.Models.{is_received, is_withheld, is_filtered}
use webhook_doorman.Store.Tables.{event_is, has_event}
use webhook_doorman.Store.Withheld.{IsHeldBack}
use webhook_doorman.Store.Reachable.{any_part}
use webhook_doorman.Store.FirstSinks.{first_sinks, enqueue_first-first}
use webhook_doorman.Store.Awaiting.{
  IsAwaiting, record_detection-IsAwaiting, record_detection-IsHeldBack, enqueue_first-waiting,
}

-- What an answer is measured by: the sinks of the event that arrives, those that a redelivery still
-- owes to the stored one, and the time.
pub record Due : Type 0 where
  pub fresh : List Text
  pub again : List Text
  pub at : ℕ

-- The event is queued for these sinks, in this order: for each there is a delivery that nobody tried
-- and that is due.
abbrev pub IsQueuedFor : ℕ → List Text → ℕ → Db → Type 0
IsQueuedFor n sinks now db = (has_deliveries n db ≡ true) × (first_sinks n now db ≡ sinks)

-- What each answer promises of the event that it names. An event that no sink takes, and that the
-- source's filter admitted, waits.
unfoldable pub Told : Due → ℕ → Response → Db → Type 0
Told q n (Response.accepted m) db = (m ≡ n) × IsQueuedFor n q.fresh q.at db
Told q n (Response.resumed m) db = (m ≡ n) × IsQueuedFor n q.again q.at db
Told q n (Response.withheld status m) db = (m ≡ n) × (is_withheld status ≡ true) × IsHeldBack n db
Told q n (Response.filtered m reason sinks) db = (m ≡ n) × IsHeldBack n db
Told q n (Response.ignored m) db = (m ≡ n) × IsAwaiting n db
Told q n (Response.deduplicated m) db = (m ≡ n) × (has_event n db ≡ true)

-- After a screening: an answer, or an event that still waits.
abbrev pub Screened : Due → ℕ → Option Response → Db → Type 0
Screened q n none db = IsAwaiting n db
Screened q n (some r) db = Told q n r db

-- After a redelivery looked for what is left to do.
abbrev pub Resumed : Due → ℕ → Option Response → Db → Type 0
Resumed q n none db = has_event n db ≡ true
Resumed q n (some r) db = Told q n r db

pub waiting-has_event : (n : ℕ) (db : Db) → IsAwaiting n db → has_event n db ≡ true
waiting-has_event n db h = any_part (event_is n) (λ e. is_received e.status) db.events h.waiting

module _ (u : Setup) (q : Due) where
  conclude-Screened :
      (source : Text) (n : ℕ) (r : Option DetectionResult) (status : EventStatus) (at : Option ℕ)
      (rule : Option Text) (s : EngineState)
      → (is_received status ≡ true) ⊎ (is_withheld status ≡ true)
      → IsAwaiting n s.db
      → Screened q n
          (conclude u source n status rule (with_db (record_detection n r status at s.db) s)).0
          (conclude u source n status rule (with_db (record_detection n r status at s.db) s)).1.db
  unfolding conclude Told
  conclude-Screened source n r EventStatus.received at rule s k h =
      record_detection-IsAwaiting n r at s.db h
  conclude-Screened source n r EventStatus.quarantined at rule s k h =
      (refl, refl, record_detection-IsHeldBack n r EventStatus.quarantined at s.db refl h)
  conclude-Screened source n r EventStatus.dropped at rule s k h =
      (refl, refl, record_detection-IsHeldBack n r EventStatus.dropped at s.db refl h)
  conclude-Screened source n r EventStatus.filtered at rule s k h =
      (refl, refl, record_detection-IsHeldBack n r EventStatus.filtered at s.db refl h)
  conclude-Screened source n r EventStatus.dispatched at rule s (inl k) h = absurd cc
  conclude-Screened source n r EventStatus.dispatched at rule s (inr k) h = absurd cc
  conclude-Screened source n r EventStatus.failed at rule s (inl k) h = absurd cc
  conclude-Screened source n r EventStatus.failed at rule s (inr k) h = absurd cc

  status_of_action :
      (a : Action) → (is_received (status_of u a) ≡ true) ⊎ (is_withheld (status_of u a) ≡ true)
  status_of_action Action.annotate = inl refl
  status_of_action Action.quarantine = inr refl
  status_of_action Action.drop = inr refl

  score_text-Screened :
      (o : Option Detector) (text source : Text) (n now : ℕ) (s : EngineState)
      → IsAwaiting n s.db
      → Screened q n
          (score_text u o text source n now s).0
          (score_text u o text source n now s).1.db
  unfolding act_on
  score_text-Screened none text source n now s h = h
  score_text-Screened (some detector) [] source n now s h = h
  score_text-Screened (some detector) (c ∷ text) source n now s h =
      conclude-Screened source n _ _ _ _ _ (status_of_action _) h

  pub screen-Screened :
      (e : EventView) (n now : ℕ) (s : EngineState)
      → IsAwaiting n s.db
      → Screened q n (screen u e n now s).0 (screen u e n now s).1.db
  unfolding screen
  screen-Screened e n now s h =
      score_text-Screened u.detector (untrusted_text u e) e.source n now s h

  dispatch_screened-Told :
      (n : ℕ) (sink : Text) (sinks : List Text) (now : ℕ) (p : Option Response × EngineState)
      → q.at ≡ now
      → q.fresh ≡ sink ∷ sinks
      → Screened q n p.0 p.1.db
      → Told q n
          (dispatch_screened u n (sink ∷ sinks) now p).0
          (dispatch_screened u n (sink ∷ sinks) now p).1.db
  unfolding Told
  dispatch_screened-Told n sink sinks now (some body, s) at same h = h
  dispatch_screened-Told n sink sinks now (none, s) at same h =
      rw (at, same)
        (
          refl,
          (
            (enqueue_first-waiting n sink sinks now s.db h).1,
            enqueue_first-first n sink sinks now s.db h,
          ),
        )

  dispatch_new-Told :
      (ev : InboundEvent) (n : ℕ) (sinks : List Text) (now : ℕ) (s : EngineState)
      → q.at ≡ now
      → q.fresh ≡ sinks
      → IsAwaiting n s.db
      → Told q n (dispatch_new u ev n sinks now s).0 (dispatch_new u ev n sinks now s).1.db
  dispatch_new-Told ev n [] now s at same h = unfold Told in (refl, h)
  dispatch_new-Told ev n (sink ∷ sinks) now s at same h =
      dispatch_screened-Told n sink sinks now (screen u (inbound_view ev) n now s) at same
        (screen-Screened (inbound_view ev) n now s h)

  -- A new event, filtered at the boundary or not.
  pub ingest_new-Told :
      (ev : InboundEvent) (n now : ℕ) (s : EngineState)
      → q.at ≡ now
      → q.fresh ≡ ev.sinks
      → (is_received ev.status ≡ true → IsAwaiting n s.db)
      → (is_filtered ev.status ≡ true → IsHeldBack n s.db)
      → (is_received ev.status ≡ true) ⊎ (is_filtered ev.status ≡ true)
      → Told q n (ingest_new u ev n now s).0 (ingest_new u ev n now s).1.db
  unfolding ingest_new Told
  ingest_new-Told ev n now s at same waits held k = elim (Bool-cases (is_filtered ev.status)) [
    | inl refused ↦ rw (refused, count_refusals-db u) (refl, held refused)
    | inr passed ↦
        let counted : EngineState =
          count_refusals u ev.source ev.filtered_sinks
            (increment (Metric.events_received ev.source) s) in
        rw passed (
          dispatch_new-Told ev n ev.sinks now counted at same (
            subst (λ (db : Db). IsAwaiting n db)
              (sym (
                count_refusals-db u ev.source ev.filtered_sinks
                  (increment (Metric.events_received ev.source) s)))
              (waits (received_one k passed))))
  ]
    where
      received_one : {a b : Bool} → (a ≡ true) ⊎ (b ≡ true) → b ≡ false → a ≡ true
      received_one (inl h) e = h
      received_one (inr h) e = absurd (cc)
