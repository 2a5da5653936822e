-- ===== src/Engine/Again.antt =====
-- What an operator's calls and a producer's redelivery do when they come twice or at the wrong time
-- (webhook_doorman/engine.py, `release`, `replay` and `_ingest`).
use webhook_doorman.Prelude.{
  arith, ℕ, ◌≡◌, refl, inl, inr, Bool, true, false, not, ◌&&◌, Option, none, some, List, [], ◌∷◌,
}
use webhook_doorman.Prelude.Tests.{Bool-cases}
use webhook_doorman.Prelude.Text.{Text}
use webhook_doorman.Models.{
  EventStatus, InboundEvent, StoredEvent, is_received, is_quarantined, is_withheld,
}
use webhook_doorman.Store.Tables.{Db}
use webhook_doorman.Store.Ingest.{record_event, get_event, has_deliveries, enqueue_first_deliveries}
use webhook_doorman.Store.Verdicts.{release_event}
use webhook_doorman.Engine.Setup.{Setup, Metric, EngineState, increment, with_db, Response}
use webhook_doorman.Engine.Ingest.{sinks_for, resume, resume_event, resume_stored, ingest}
use webhook_doorman.Engine.Admin.{release, release_stored, release_to}
use webhook_doorman.Engine.Admin.{release_won}
use webhook_doorman.Prelude.Lists.{any, find, find_sound, any_of_find, update_where}
use webhook_doorman.Models.{is_quarantined, is_received, is_withheld}
use webhook_doorman.Store.Tables.{EventRow, event_is, has_key}
use webhook_doorman.Store.Ingest.{stored_event, is_received_event}
use webhook_doorman.Store.Frame.{insert_deliveries-events}

-- A row of the event in quarantine.
abbrev pub is_kept : ℕ → EventRow → Bool
is_kept n e = event_is n e && is_quarantined e.status

abbrev pub is_held_event : ℕ → Db → Bool
is_held_event n db = any (is_kept n) db.events

released_none :
    (n : ℕ) (es : List EventRow)
    → any (is_kept n) (
        update_where
          (is_kept n)
          (λ e. record e { status = EventStatus.received; quarantined_at = none })
          es)
      ≡ false
released_none n [] = refl
released_none n (e ∷ es) = ground (arith, released_none n es)

release_event-none : (n : ℕ) (db : Db) → is_held_event n (release_event n db).1 ≡ false
unfolding release_event
release_event-none n db = released_none n db.events

enqueue_first-events :
    (n : ℕ) (sinks : List Text) (now : ℕ) (db : Db)
    → (enqueue_first_deliveries n sinks now db).1.events ≡ db.events
unfolding enqueue_first_deliveries
enqueue_first-events n [] now db = refl
enqueue_first-events n (sink ∷ sinks) now db =
    elim (Bool-cases (not (has_deliveries n db) && is_received_event n db)) [
      | inl first ↦ rw (first, (insert_deliveries-events n (sink ∷ sinks) now db).0) refl
      | inr refused ↦ rw refused refl
    ]

not_held :
    (a e : StoredEvent)
    → some a ≡ some e
    → is_quarantined a.status ≡ false
    → is_quarantined e.status ≡ false
not_held a e same h = cc

module _ (u : Setup) where
  -- With none in quarantine a release changes nothing.
  release_stored-idle :
      (o : Option StoredEvent) (n now : ℕ) (s : EngineState)
      → ((e : StoredEvent) → o ≡ some e → is_quarantined e.status ≡ false)
      → (release_stored u o n now s).1 ≡ s
  unfolding release_stored
  release_stored-idle none n now s h = refl
  release_stored-idle (some e) n now s h = rw (h e refl) refl

  found_not_held :
      (n : ℕ) (o : Option EventRow) (db : Db)
      → find (event_is n) db.events ≡ o
      → is_held_event n db ≡ false
      → (e : StoredEvent) → get_event u.safe_json n db ≡ some e
      → is_quarantined e.status ≡ false
  unfolding get_event stored_event
  found_not_held n none db f h e g = absurd (cc (rw (f, get_event) at g))
  found_not_held n (some row) db f h e g = elim (Bool-cases (is_quarantined row.status)) [
    | inl held ↦ absurd (
        cc (
          any_of_find (event_is n) (is_kept n) db.events row f
              (rw (find_sound (event_is n) db.events row f, held) refl),
          h,
        ))
    | inr other ↦ not_held (stored_event u.safe_json row) e (rw (f, get_event) at g) other
  ]

  release_idle :
      (n now : ℕ) (s : EngineState) → is_held_event n s.db ≡ false → (release u n now s).1 ≡ s
  unfolding release
  release_idle n now s h =
      release_stored-idle (get_event u.safe_json n s.db) n now s
        (found_not_held n (find (event_is n) s.db.events) s.db refl h)

  release_to-events :
      (n : ℕ) (sinks : List Text) (now : ℕ) (s : EngineState)
      → (release_to u n sinks now s).1.db.events ≡ s.db.events
  release_to-events n [] now s = refl
  release_to-events n (sink ∷ sinks) now s = enqueue_first-events n (sink ∷ sinks) now s.db

  release_won-events :
      (e : StoredEvent) (n now : ℕ) (p : Bool × Db) (s : EngineState)
      → (release_won u e n now p s).1.db.events ≡ p.1.events
  release_won-events e n now (true, db) s = release_to-events n (sinks_for u e) now (with_db db s)
  release_won-events e n now (false, db) s = refl

  release_stored-twice :
      (o : Option StoredEvent) (n now later : ℕ) (s : EngineState)
      → get_event u.safe_json n s.db ≡ o
      → (release u n later (release_stored u o n now s).1).1 ≡ (release_stored u o n now s).1
  unfolding release release_stored
  release_stored-twice none n now later s g = rw g refl
  release_stored-twice (some e) n now later s g = elim (Bool-cases (is_quarantined e.status)) [
    | inl held ↦ rw held (
        release_idle n later (release_won u e n now (release_event n s.db) s).1
          (rw (release_won-events e n now (release_event n s.db) s) (release_event-none n s.db)))
    | inr other ↦ rw (other, g, other) refl
  ]

  -- A release that comes twice, from one operator or two, acts once: the second call leaves the whole
  -- state of the engine as the first left it, whatever the first did.
  pub release_twice :
      (n now later : ℕ) (s : EngineState)
      → (release u n later (release u n now s).1).1 ≡ (release u n now s).1
  unfolding release
  release_twice n now later s =
      release_stored-twice (get_event u.safe_json n s.db) n now later s refl

  resume_queued :
      (o : Option StoredEvent) (n now : ℕ) (s : EngineState)
      → has_deliveries n s.db ≡ true
      → resume_event u o n now s ≡ (none, s)
  unfolding resume_event
  resume_queued none n now s h = refl
  resume_queued (some e) n now s h = elim (Bool-cases (is_received e.status)) [
    | inl waits ↦ rw (waits, resume_stored_queued e e.sinks n now s h) refl
    | inr decided ↦ rw decided refl
  ]
    where
      resume_stored_queued :
          (e : StoredEvent) (sinks : Option (List Text)) (n now : ℕ) (s : EngineState)
          → has_deliveries n s.db ≡ true
          → resume_stored u e n sinks now s ≡ (none, s)
      resume_stored_queued e none n now s h = unfold resume_stored in refl
      resume_stored_queued e (some []) n now s h = unfold resume_stored in refl
      resume_stored_queued e (some (sink ∷ sinks)) n now s h = unfold resume_stored in (rw h refl)

  -- A redelivery of an event that has its deliveries, whatever it carries besides its key, is answered
  -- `deduplicated` with the id of the stored event; the tables and the detector's state stay as they
  -- are, and one metric is counted.
  pub ingest_duplicate :
      (ev : InboundEvent) (e : EventRow) (now : ℕ) (s : EngineState)
      → find (has_key ev.source ev.delivery_id) s.db.events ≡ some e
      → has_deliveries e.id s.db ≡ true
      → ingest u ev now s
        ≡ (Response.deduplicated e.id, increment (Metric.events_deduplicated ev.source) s)
  unfolding ingest resume record_event
  ingest_duplicate ev e now s f h =
      rw
        (
          any_of_find (has_key ev.source ev.delivery_id) (has_key ev.source ev.delivery_id)
              s.db.events e f (find_sound (has_key ev.source ev.delivery_id) s.db.events e f),
          f,
          resume_queued (get_event u.safe_json e.id s.db) e.id now s h,
        )
        refl
