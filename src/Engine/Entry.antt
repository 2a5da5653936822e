-- ===== src/Engine/Entry.antt =====
-- `Engine.ingest` (webhook_doorman/engine.py) as a run of the statements of `Store.Statements`.
use webhook_doorman.Prelude.{
  ℕ, subst, inl, inr, Bool, true, false, Option, none, some, List, [], ◌∷◌,
}
use webhook_doorman.Prelude.Tests.{Bool-cases}
use webhook_doorman.Prelude.Text.{Text}
use webhook_doorman.Models.{InboundEvent, StoredEvent, is_received, is_filtered}
use webhook_doorman.Context.{inbound_view, stored_view}
use webhook_doorman.Store.Tables.{Db}
use webhook_doorman.Store.Ingest.{record_event, get_event, has_deliveries}
use webhook_doorman.Store.Statements.{fresh}
use webhook_doorman.Store.Methods.{Reaches, Reaches-refl, Reaches-trans}
use webhook_doorman.Engine.Setup.{Setup, Metric, EngineState, increment, with_db, Response}
use webhook_doorman.Engine.Screening.{screen}
use webhook_doorman.Engine.Ingest.{
  resume, resume_event, resume_stored, resume_sinks, resume_screened, narrowed, count_refusals,
  resumed, dispatch_screened, ingest_new, dispatch_new, ingest, enqueue_first, ingest_recorded,
  answer_duplicate,
}
use webhook_doorman.Engine.Calls.{
  record_event-Reaches, enqueue_first-Reaches, count_refusals-db, screen-Reaches,
}

module _ (u : Setup) where
  resumed-Reaches :
      (n : ℕ) (p : List ℕ × EngineState) (db : Db)
      → Reaches db p.1.db
      → Reaches db (resumed u n p).1.db
  resumed-Reaches n ([], s) db r = r
  resumed-Reaches n (id ∷ ids, s) db r = r

  resume_screened-Reaches :
      (n : ℕ) (sinks : List Text) (now : ℕ) (p : Option Response × EngineState) (db : Db)
      → Reaches db p.1.db
      → Reaches db (resume_screened u n sinks now p).1.db
  resume_screened-Reaches n sinks now (some body, s) db r = r
  resume_screened-Reaches n sinks now (none, s) db r =
      resumed-Reaches n (enqueue_first u n sinks now s) db
        (Reaches-trans r (enqueue_first-Reaches n sinks now s.db))

  resume_sinks-Reaches :
      (e : StoredEvent) (n : ℕ) (sinks : List Text) (now : ℕ) (s : EngineState)
      → Reaches s.db (resume_sinks u e n sinks now s).1.db
  resume_sinks-Reaches e n [] now s = Reaches-refl s.db
  resume_sinks-Reaches e n (sink ∷ sinks) now s =
      resume_screened-Reaches n (sink ∷ sinks) now (screen u (stored_view e) n now s) s.db
        (screen-Reaches u (stored_view e) n now s)

  resume_stored-Reaches :
      (e : StoredEvent) (n : ℕ) (sinks : Option (List Text)) (now : ℕ) (s : EngineState)
      → Reaches s.db (resume_stored u e n sinks now s).1.db
  unfolding resume_stored
  resume_stored-Reaches e n none now s = Reaches-refl s.db
  resume_stored-Reaches e n (some []) now s = Reaches-refl s.db
  resume_stored-Reaches e n (some (sink ∷ sinks)) now s =
      elim (Bool-cases (has_deliveries n s.db)) [
        | inl had ↦ rw had (Reaches-refl s.db)
        | inr first ↦ rw first (resume_sinks-Reaches e n (narrowed u (sink ∷ sinks) e) now s)
      ]

  resume_event-Reaches :
      (o : Option StoredEvent) (n now : ℕ) (s : EngineState)
      → Reaches s.db (resume_event u o n now s).1.db
  unfolding resume_event
  resume_event-Reaches none n now s = Reaches-refl s.db
  resume_event-Reaches (some e) n now s = elim (Bool-cases (is_received e.status)) [
    | inl fresh ↦ rw fresh (resume_stored-Reaches e n e.sinks now s)
    | inr decided ↦ rw decided (Reaches-refl s.db)
  ]

  answer_duplicate-Reaches :
      (source : Text) (n : ℕ) (p : Option Response × EngineState) (db : Db)
      → Reaches db p.1.db
      → Reaches db (answer_duplicate u source n p).1.db
  answer_duplicate-Reaches source n (some r, s) db h = h
  answer_duplicate-Reaches source n (none, s) db h = h

  dispatch_screened-Reaches :
      (n : ℕ) (sinks : List Text) (now : ℕ) (p : Option Response × EngineState) (db : Db)
      → Reaches db p.1.db
      → Reaches db (dispatch_screened u n sinks now p).1.db
  dispatch_screened-Reaches n sinks now (some body, s) db r = r
  dispatch_screened-Reaches n sinks now (none, s) db r =
      Reaches-trans r (enqueue_first-Reaches n sinks now s.db)

  dispatch_new-Reaches :
      (ev : InboundEvent) (n : ℕ) (sinks : List Text) (now : ℕ) (s : EngineState)
      → Reaches s.db (dispatch_new u ev n sinks now s).1.db
  dispatch_new-Reaches ev n [] now s = Reaches-refl s.db
  dispatch_new-Reaches ev n (sink ∷ sinks) now s =
      dispatch_screened-Reaches n (sink ∷ sinks) now (screen u (inbound_view ev) n now s) s.db
        (screen-Reaches u (inbound_view ev) n now s)

  ingest_new-Reaches :
      (ev : InboundEvent) (n now : ℕ) (s : EngineState)
      → Reaches s.db (ingest_new u ev n now s).1.db
  unfolding ingest_new
  ingest_new-Reaches ev n now s = elim (Bool-cases (is_filtered ev.status)) [
    | inl refused ↦ rw (refused, count_refusals-db u) (Reaches-refl s.db)
    | inr passed ↦
        let counted : EngineState =
          count_refusals u ev.source ev.filtered_sinks
            (increment (Metric.events_received ev.source) s) in
        rw passed (
          subst (λ (db : Db). Reaches db (dispatch_new u ev n ev.sinks now counted).1.db)
            (count_refusals-db u ev.source ev.filtered_sinks
              (increment (Metric.events_received ev.source) s))
            (dispatch_new-Reaches ev n ev.sinks now counted))
  ]

  ingest_recorded-Reaches :
      (ev : InboundEvent) (p : ℕ × Bool) (now : ℕ) (s : EngineState)
      → Reaches s.db (ingest_recorded u ev p now s).1.db
  unfolding resume
  ingest_recorded-Reaches ev (n, true) now s =
      answer_duplicate-Reaches ev.source n (resume u n now s) s.db
        (resume_event-Reaches (get_event u.safe_json n s.db) n now s)
  ingest_recorded-Reaches ev (n, false) now s = ingest_new-Reaches ev n now s

  pub ingest-Reaches :
      (ev : InboundEvent) (now : ℕ) (s : EngineState) → Reaches s.db (ingest u ev now s).1.db
  unfolding ingest
  ingest-Reaches ev now s =
      Reaches-trans (record_event-Reaches ev s.db) (
        ingest_recorded-Reaches ev (record_event ev s.db).0 now
          (with_db (record_event ev s.db).1 s))
