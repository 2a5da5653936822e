-- ===== src/Engine/Answers.antt =====
-- What the answer of `Engine.ingest` (webhook_doorman/engine.py) says of the tables that it leaves.
use webhook_doorman.Prelude.{
  ◌⊎◌, arith, ◌≢◌, ℕ, ◌≡◌, refl, sym, ap, ◌∙◌, subst, inl, inr, Bool, true, false, Option, none,
  some, List, [], ◌∷◌,
}
use webhook_doorman.Prelude.Tests.{Bool-cases, ==_iff}
use webhook_doorman.Prelude.Text.{Text}
use webhook_doorman.Models.{
  EventStatus, InboundEvent, StoredEvent, is_received, is_filtered, is_withheld,
}
use webhook_doorman.Context.{stored_view}
use webhook_doorman.Store.Tables.{Db}
use webhook_doorman.Store.Ingest.{record_event, get_event, has_deliveries}
use webhook_doorman.Store.Invariant.{IsWellFormed}
use webhook_doorman.Store.Methods.{Reaches-IsWellFormed}
use webhook_doorman.Engine.Setup.{Setup, EngineState, with_db, Response}
use webhook_doorman.Engine.Screening.{screen}
use webhook_doorman.Engine.Ingest.{
  resume, resume_event, resume_stored, resume_sinks, resume_screened, narrowed, resumed, ingest,
  enqueue_first, ingest_recorded, answer_duplicate,
}
use webhook_doorman.Engine.Calls.{record_event-Reaches}
use webhook_doorman.Models.{is_received, is_withheld, is_filtered}
use webhook_doorman.Prelude.Lists.{any, find, find_of_any, any_of_find}
use webhook_doorman.Store.Tables.{EventRow, event_is, has_key, has_event}
use webhook_doorman.Store.Ingest.{stored_event}
use webhook_doorman.Store.Withheld.{IsHeldBack}
use webhook_doorman.Store.Awaiting.{
  IsAwaiting, insert_event-IsAwaiting, insert_event-IsHeldBack, enqueue_first-waiting,
  found-IsAwaiting, enqueue_first-has_event,
}
use webhook_doorman.Store.FirstSinks.{enqueue_first-first}
use webhook_doorman.Engine.Told.{
  Due, IsQueuedFor, Told, Screened, Resumed, waiting-has_event, screen-Screened, ingest_new-Told,
}

filtered_withheld : (status : EventStatus) → is_filtered status ≡ true → is_withheld status ≡ true
filtered_withheld status h = ground arith

-- What `record_event` says of its answer.
recorded_known :
    (ev : InboundEvent) (db : Db)
    → (record_event ev db).0.1 ≡ true
    → has_event (record_event ev db).0.0 (record_event ev db).1 ≡ true
unfolding record_event
recorded_known ev db h = elim (Bool-cases (any (has_key ev.source ev.delivery_id) db.events)) [
  | inl taken ↦
      let found : (e : EventRow) × (find (has_key ev.source ev.delivery_id) db.events ≡ some e) =
        find_of_any (has_key ev.source ev.delivery_id) db.events taken in
      rw (taken, found.1)
        (any_of_find (has_key ev.source ev.delivery_id) (event_is (found.0).id) db.events found.0
          found.1 ((==_iff (found.0).id (found.0).id).1 refl))
  | inr free ↦ absurd (cc (rw free at h))
]

recorded_waits :
    (ev : InboundEvent) (db : Db)
    → IsWellFormed db
    → (record_event ev db).0.1 ≡ false
    → is_received ev.status ≡ true
    → IsAwaiting (record_event ev db).0.0 (record_event ev db).1
unfolding record_event
recorded_waits ev db w h k = elim (Bool-cases (any (has_key ev.source ev.delivery_id) db.events)) [
  | inl taken ↦ absurd (cc (rw taken at h))
  | inr free ↦ rw free (insert_event-IsAwaiting ev db w k)
]

recorded_held :
    (ev : InboundEvent) (db : Db)
    → IsWellFormed db
    → (record_event ev db).0.1 ≡ false
    → is_filtered ev.status ≡ true
    → IsHeldBack (record_event ev db).0.0 (record_event ev db).1
unfolding record_event
recorded_held ev db w h k = elim (Bool-cases (any (has_key ev.source ev.delivery_id) db.events)) [
  | inl taken ↦ absurd (cc (rw taken at h))
  | inr free ↦ rw free (insert_event-IsHeldBack ev db w (filtered_withheld ev.status k))
]

-- What a redelivery still owes to a stored event: the sinks that it was stored with, as far as its
-- source still routes it to them.
abbrev pub owed : Setup → Option StoredEvent → List Text
owed u none = []
owed u (some e) = elim e.sinks [ none ↦ [] | some sinks ↦ narrowed u sinks e ]

module _ (u : Setup) (q : Due) where
  resumed-Resumed :
      (n : ℕ) (p : List ℕ × EngineState)
      → has_event n p.1.db ≡ true
      → (p.0 ≢ [] → IsQueuedFor n q.again q.at p.1.db)
      → Resumed q n (resumed u n p).0 (resumed u n p).1.db
  unfolding Told
  resumed-Resumed n ([], s) h k = h
  resumed-Resumed n (id ∷ ids, s) h k = (refl, k (λ e. cc))

  resume_screened-Resumed :
      (n : ℕ) (sink : Text) (sinks : List Text) (now : ℕ) (p : Option Response × EngineState)
      → q.at ≡ now
      → q.again ≡ sink ∷ sinks
      → Screened q n p.0 p.1.db
      → Resumed q n
          (resume_screened u n (sink ∷ sinks) now p).0
          (resume_screened u n (sink ∷ sinks) now p).1.db
  resume_screened-Resumed n sink sinks now (some body, s) at same h = h
  resume_screened-Resumed n sink sinks now (none, s) at same h =
      resumed-Resumed n (enqueue_first u n (sink ∷ sinks) now s)
        (enqueue_first-has_event n (sink ∷ sinks) now s.db (waiting-has_event n s.db h))
        (λ some_ids.
          rw (at, same)
            (
              (enqueue_first-waiting n sink sinks now s.db h).1,
              enqueue_first-first n sink sinks now s.db h,
            ))

  resume_sinks-Resumed :
      (e : StoredEvent) (n : ℕ) (sinks : List Text) (now : ℕ) (s : EngineState)
      → q.at ≡ now
      → q.again ≡ sinks
      → IsAwaiting n s.db
      → Resumed q n (resume_sinks u e n sinks now s).0 (resume_sinks u e n sinks now s).1.db
  resume_sinks-Resumed e n [] now s at same h = waiting-has_event n s.db h
  resume_sinks-Resumed e n (sink ∷ sinks) now s at same h =
      resume_screened-Resumed n sink sinks now (screen u (stored_view e) n now s) at same
        (screen-Screened u q (stored_view e) n now s h)

  resume_stored-Resumed :
      (e : StoredEvent) (n : ℕ) (sinks : Option (List Text)) (now : ℕ) (s : EngineState)
      → q.at ≡ now
      → q.again ≡ elim sinks [ none ↦ [] | some names ↦ narrowed u names e ]
      → has_event n s.db ≡ true
      → (has_deliveries n s.db ≡ false → IsAwaiting n s.db)
      → Resumed q n (resume_stored u e n sinks now s).0 (resume_stored u e n sinks now s).1.db
  unfolding resume_stored
  resume_stored-Resumed e n none now s at same h k = h
  resume_stored-Resumed e n (some []) now s at same h k = h
  resume_stored-Resumed e n (some (sink ∷ sinks)) now s at same h k =
      elim (Bool-cases (has_deliveries n s.db)) [
        | inl had ↦ rw had h
        | inr first ↦
            rw first
              (resume_sinks-Resumed e n (narrowed u (sink ∷ sinks) e) now s at same (k first))
      ]

  resume_event-Resumed :
      (e : StoredEvent) (n now : ℕ) (s : EngineState)
      → q.at ≡ now
      → q.again ≡ owed u (some e)
      → has_event n s.db ≡ true
      → (is_received e.status ≡ true → has_deliveries n s.db ≡ false → IsAwaiting n s.db)
      → Resumed q n (resume_event u (some e) n now s).0 (resume_event u (some e) n now s).1.db
  unfolding resume_event
  resume_event-Resumed e n now s at same h k = elim (Bool-cases (is_received e.status)) [
    | inl open_one ↦ rw open_one (resume_stored-Resumed e n e.sinks now s at same h (k open_one))
    | inr decided ↦ rw decided h
  ]

  get_event_found :
      (n : ℕ) (e : EventRow) (db : Db)
      → find (event_is n) db.events ≡ some e
      → some (stored_event u.safe_json e) ≡ get_event u.safe_json n db
  unfolding get_event
  get_event_found n e db f = rw (f, get_event) refl

  resume-Resumed :
      (n now : ℕ) (s : EngineState)
      → q.at ≡ now
      → q.again ≡ owed u (get_event u.safe_json n s.db)
      → IsWellFormed s.db
      → has_event n s.db ≡ true
      → Resumed q n (resume u n now s).0 (resume u n now s).1.db
  unfolding resume stored_event
  resume-Resumed n now s at same w h =
      let found : (e : EventRow) × (find (event_is n) s.db.events ≡ some e) =
        find_of_any (event_is n) s.db.events h in
      subst
        (λ (o : Option StoredEvent).
          Resumed q n (resume_event u o n now s).0 (resume_event u o n now s).1.db)
        (get_event_found n found.0 s.db found.1)
        (resume_event-Resumed (stored_event u.safe_json found.0) n now s at
          (same ∙ ap (owed u) (sym (get_event_found n found.0 s.db found.1))) h
          (λ received idle. found-IsAwaiting n found.0 s.db w found.1 received idle))

  answer_duplicate-Told :
      (source : Text) (n : ℕ) (p : Option Response × EngineState)
      → Resumed q n p.0 p.1.db
      → Told q n (answer_duplicate u source n p).0 (answer_duplicate u source n p).1.db
  answer_duplicate-Told source n (some r, s) h = h
  answer_duplicate-Told source n (none, s) h = unfold Told in (refl, h)

  ingest_recorded-Told :
      (ev : InboundEvent) (p : ℕ × Bool) (now : ℕ) (s : EngineState)
      → q.at ≡ now
      → q.fresh ≡ ev.sinks
      → q.again ≡ owed u (get_event u.safe_json p.0 s.db)
      → IsWellFormed s.db
      → (p.1 ≡ true → has_event p.0 s.db ≡ true)
      → (p.1 ≡ false → is_received ev.status ≡ true → IsAwaiting p.0 s.db)
      → (p.1 ≡ false → is_filtered ev.status ≡ true → IsHeldBack p.0 s.db)
      → (is_received ev.status ≡ true) ⊎ (is_filtered ev.status ≡ true)
      → Told q p.0 (ingest_recorded u ev p now s).0 (ingest_recorded u ev p now s).1.db
  ingest_recorded-Told ev (n, true) now s at same left w known waits held k =
      answer_duplicate-Told ev.source n (resume u n now s)
        (resume-Resumed n now s at left w (known refl))
  ingest_recorded-Told ev (n, false) now s at same left w known waits held k =
      ingest_new-Told u q ev n now s at same (waits refl) (held refl) k

module _ (u : Setup) where
  -- What the answer to this event is measured by: its sinks, and those that are owed to the event that
  -- has its key.
  abbrev pub due_for : InboundEvent → ℕ → Db → Due
  due_for ev now db = record {
    fresh = ev.sinks;
    again = owed u (get_event u.safe_json ((record_event ev db).0.0) (record_event ev db).1);
    at = now;
  }

  -- The answer to a producer is true. From tables that keep the promises of the schema, for an event
  -- that arrives as `received` or as `filtered`, the answer names the event that is stored under the
  -- delivery's key, and in the tables that the call leaves: `accepted` means that there is a delivery,
  -- due and not tried, for each of the event's sinks, in their order, and `resumed` the same for the
  -- sinks that the stored event came with and that its source still routes it to; `withheld`, with the
  -- status it names, and `filtered` mean that no row of it is in a state from which it is sent and that
  -- it has no delivery; `ignored` means that it is `received` and has no delivery; `deduplicated` that
  -- it is there.
  pub ingest-Told :
      (ev : InboundEvent) (now : ℕ) (s : EngineState)
      → IsWellFormed s.db
      → (is_received ev.status ≡ true) ⊎ (is_filtered ev.status ≡ true)
      → Told
          (due_for ev now s.db)
          ((record_event ev s.db).0.0)
          (ingest u ev now s).0
          (ingest u ev now s).1.db
  unfolding ingest
  ingest-Told ev now s w k =
      ingest_recorded-Told u (due_for ev now s.db) ev (record_event ev s.db).0 now
        (with_db (record_event ev s.db).1 s) refl refl refl
        (Reaches-IsWellFormed (record_event-Reaches ev s.db) w) (recorded_known ev s.db)
        (recorded_waits ev s.db w) (recorded_held ev s.db w) k
