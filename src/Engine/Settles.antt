-- ===== src/Engine/Settles.antt =====
-- What a pass of the worker of webhook_doorman/engine.py does with the deliveries that it claims.
use webhook_doorman.Prelude.{
  ℕ, ◌+◌, ◌<◌, ◌≤◌, ◌≡◌, ◌≢◌, ◌⊎◌, refl, sym, subst, ◌∙◌, false, arith, inl, inr, Option, none,
  some, List, [], ◌∷◌, ◌++◌,
}
use webhook_doorman.Prelude.Tests.{Bool-cases}
use webhook_doorman.Prelude.Text.{Text}
use webhook_doorman.Models.{StoredEvent, Delivery}
use webhook_doorman.Store.Ingest.{get_event}
use webhook_doorman.Store.Claims.{claim_due_deliveries, mark_exhausted}
use webhook_doorman.Store.Tables.{Db, Outcome}
use webhook_doorman.Store.Exclusive.{hands_out}
use webhook_doorman.Engine.Backoff.{retry_delay_known}
use webhook_doorman.Engine.Setup.{
  AttemptOutcome, SinkResult, SinkEntry, Setup, Metric, EngineState, increment, with_db,
}
use webhook_doorman.Engine.Delivery.{
  exhaust, dead_letter, delivery_context, observe_latency, schedule_retry, settle_attempt, Faults,
  store_outcome, retry_after_delay, deliver_read, return_claim, if_raised, deliver_to,
  deliver_event, deliver_once, recover, deliver_all, recover_all, run_once, is_last, claim_batch,
  redact_error,
}
use webhook_doorman.Store.InFlight.{
  AllHeld, Clears, mark_delivered-Clears, mark_retry-Clears, mark_exhausted-Clears, Clears-AllHeld,
  AllHeld-imp, release_claim-AllHeld, claim-AllHeld,
}

-- Another attempt is left after this one.
abbrev pub Again : Setup → Delivery → Type 0
Again u d = d.attempt + 1 < u.max_attempts

pub another : (u : Setup) (d : Delivery) → is_last u d ≡ false → Again u d
another u d h = ground arith

-- What an attempt makes of its delivery: it is cleared, or the attempt raised and the tables stay.
abbrev pub Settled : Setup → Delivery → EngineState → Option Text × EngineState → Type 0
Settled u d s out = Clears d.id (Again u d) s.db out.1.db ⊎ ((out.0 ≢ none) × (out.1.db ≡ s.db))

module _ (u : Setup) where
  stored :
      (failure : Option Text) (d : Delivery) (r : Outcome (Unit {0})) (db : Db)
      (s before : EngineState)
      → s.db ≡ before.db
      → Clears d.id (Again u d) before.db db
      → Settled u d before (store_outcome u failure (r, db) s)
  stored (some error) d r db s before same c = inr ((λ e. cc), same)
  stored none d (Outcome.ok _) db s before same c = inl c
  stored none d Outcome.integrity_error db s before same c = inl c

  exhaust-Settled :
      (failure : Option Text) (d : Delivery) (error : Text) (code : Option ℕ) (latency now : ℕ)
      (s before : EngineState)
      → s.db ≡ before.db
      → Settled u d before (exhaust u failure d error code latency now s)
  unfolding exhaust
  exhaust-Settled failure d error code latency now s before same =
      stored failure d (mark_exhausted d.id (redact_error u error) code latency now s.db).0
        (mark_exhausted d.id (redact_error u error) code latency now s.db).1 s before same
        (subst
          (λ db.
            Clears d.id (Again u d) db
              (mark_exhausted d.id (redact_error u error) code latency now s.db).1)
          same
          (mark_exhausted-Clears (Again u d) d.id (redact_error u error) code latency now s.db))

  pub dead_letter-Clears :
      (Another : Type 0) (d : Delivery) (error : Text) (code : Option ℕ) (latency now : ℕ)
      (s : EngineState)
      → Clears d.id Another s.db (dead_letter u none d error code latency now s).1.db
  unfolding dead_letter exhaust
  dead_letter-Clears Another d error code latency now s =
      taken (mark_exhausted d.id (redact_error u error) code latency now s.db)
        (increment (Metric.delivery_attempts d.sink AttemptOutcome.exhausted) s)
        (mark_exhausted-Clears Another d.id (redact_error u error) code latency now s.db)
    where
      taken :
          (p : Outcome (Unit {0}) × Db) (s' : EngineState)
          → Clears d.id Another s.db p.1
          → Clears d.id Another s.db (store_outcome u none p s').1.db
      taken (Outcome.ok _, db) s' c = c
      taken (Outcome.integrity_error, db) s' c = c

  retry-Settled :
      (failure : Option Text) (d : Delivery) (error : Text) (code : Option ℕ) (latency : ℕ)
      (delay : Option ℕ) (now : ℕ) (s : EngineState)
      → Again u d
      → Settled u d s (retry_after_delay u failure d error code latency delay now s)
  retry-Settled failure d error code latency none now s again = inr ((λ e. cc), refl)
  retry-Settled failure d error code latency (some delay) now s again =
      stored failure d (Outcome.ok tt) _ s s refl
        (mark_retry-Clears (Again u d) d.id (redact_error u error) code latency _ now s.db again)

  schedule_retry-Settled :
      (failure : Option Text) (d : Delivery) (error : Text) (code : Option ℕ) (latency : ℕ)
      (retry_after : Option ℕ) (draw now : ℕ) (s : EngineState)
      → Settled u d s (schedule_retry u failure d error code latency retry_after draw now s)
  unfolding schedule_retry dead_letter
  schedule_retry-Settled failure d error code latency retry_after draw now s =
      elim (Bool-cases (is_last u d)) [
        | inl last ↦
            rw last (exhaust-Settled failure d (redact_error u error) code latency now _ s refl)
        | inr left ↦ rw left (
            retry-Settled failure d error code latency _ now
              (increment (Metric.delivery_attempts d.sink AttemptOutcome.retry) s)
              (another u d left))
      ]

  settle_attempt-Settled :
      (failure : Option Text) (d : Delivery) (r : SinkResult) (draw now : ℕ) (s : EngineState)
      → Settled u d s (settle_attempt u failure d r draw now s)
  unfolding settle_attempt
  settle_attempt-Settled (some error) d (SinkResult.delivered code latency) draw now s =
      inr ((λ e. cc), refl)
  settle_attempt-Settled none d (SinkResult.delivered code latency) draw now s =
      inl (mark_delivered-Clears (Again u d) d.id code latency now s.db)
  settle_attempt-Settled failure d (SinkResult.permanent_error error code latency) draw now s =
      exhaust-Settled failure d error code latency now _ s refl
  settle_attempt-Settled failure d (SinkResult.sink_error error code latency after) draw now s =
      schedule_retry-Settled failure d error code latency after draw now
        (observe_latency u d.sink latency s)
  settle_attempt-Settled failure d (SinkResult.other_error error) draw now s =
      schedule_retry-Settled failure d error none 0 none draw now s

  deliver_to-Settled :
      (failure : Option Text) (o : Option SinkEntry) (e : StoredEvent) (d : Delivery) (draw now : ℕ)
      (s : EngineState)
      → Settled u d s (deliver_to u failure o e d draw now s)
  unfolding deliver_to
  deliver_to-Settled failure none e d draw now s = exhaust-Settled failure d _ none 0 now s s refl
  deliver_to-Settled failure (some entry) e d draw now s = elim (Bool-cases entry.enabled) [
    | inl on ↦
        rw on (settle_attempt-Settled failure d (entry.deliver (delivery_context u e d)) draw now s)
    | inr off ↦ rw off (exhaust-Settled failure d _ none 0 now s s refl)
  ]

  deliver_event-Settled :
      (failure : Option Text) (o : Option StoredEvent) (d : Delivery) (draw now : ℕ)
      (s : EngineState)
      → Settled u d s (deliver_event u failure o d draw now s)
  unfolding deliver_event
  deliver_event-Settled failure none d draw now s = exhaust-Settled failure d _ none 0 now s s refl
  deliver_event-Settled failure (some e) d draw now s =
      deliver_to-Settled failure (u.sink_by_name d.sink) e d draw now s

  deliver_read-Settled :
      (reading failure : Option Text) (d : Delivery) (draw now : ℕ) (s : EngineState)
      → Settled u d s (deliver_read u reading failure d draw now s)
  deliver_read-Settled (some error) failure d draw now s = inr ((λ e. cc), refl)
  deliver_read-Settled none failure d draw now s =
      deliver_event-Settled failure (get_event u.safe_json d.event_id s.db) d draw now s

  pub deliver_once-Settled :
      (faults : Faults) (d : Delivery) (draw now : ℕ) (s : EngineState)
      → Settled u d s (deliver_once u faults d draw now s)
  unfolding deliver_once
  deliver_once-Settled faults d draw now s =
      deliver_read-Settled faults.reading faults.writing d draw now s

  -- The deliveries whose attempt raised.
  abbrev pub raised_ones : List (Delivery × Text) → List Delivery
  raised_ones [] = []
  raised_ones ((d, error) ∷ failed) = d ∷ raised_ones failed

  one_of :
      (d : Delivery) (ds es : List Delivery) (n : ℕ)
      → hands_out n (ds ++ d ∷ es) ≡ hands_out n (d ∷ (ds ++ es))
  one_of d [] es n = refl
  one_of d (c ∷ ds) es n = ground (arith, one_of d ds es n)

  AllHeld-front :
      (d : Delivery) (ds es : List Delivery) (db : Db)
      → AllHeld (ds ++ d ∷ es) db
      → AllHeld (d ∷ (ds ++ es)) db
  AllHeld-front d ds es db h =
      AllHeld-imp (ds ++ d ∷ es) (d ∷ (ds ++ es)) db (λ n k. sym (one_of d ds es n) ∙ k) h

  AllHeld-back :
      (d : Delivery) (ds es : List Delivery) (db : Db)
      → AllHeld (d ∷ (ds ++ es)) db
      → AllHeld (ds ++ d ∷ es) db
  AllHeld-back d ds es db h =
      AllHeld-imp (d ∷ (ds ++ es)) (ds ++ d ∷ es) db (λ n k. one_of d ds es n ∙ k) h

  AllHeld-more : (d : Delivery) (ds : List Delivery) (db : Db) → AllHeld ds db → AllHeld (d ∷ ds) db
  AllHeld-more d ds db h = AllHeld-imp ds (d ∷ ds) db (λ n k. ground arith) h

  kept_raised :
      (r : Option Text) (d : Delivery) (failed : List (Delivery × Text)) (es : List Delivery)
      (db : Db)
      → r ≢ none
      → AllHeld (raised_ones failed ++ d ∷ es) db
      → AllHeld (raised_ones (if_raised u r d failed) ++ es) db
  kept_raised none d failed es db ne h = absurd (ne refl)
  kept_raised (some error) d failed es db ne h = AllHeld-front d (raised_ones failed) es db h

  kept_any :
      (r : Option Text) (d : Delivery) (failed : List (Delivery × Text)) (es : List Delivery)
      (db : Db)
      → AllHeld (raised_ones failed ++ es) db
      → AllHeld (raised_ones (if_raised u r d failed) ++ es) db
  kept_any none d failed es db h = h
  kept_any (some error) d failed es db h = AllHeld-more d (raised_ones failed ++ es) db h

  -- After the attempts, what is in flight is in the hands of those that raised.
  deliver_all-AllHeld :
      (ds es : List Delivery) (faults : ℕ → Faults) (draws : ℕ → ℕ) (now : ℕ) (s : EngineState)
      → AllHeld (ds ++ es) s.db
      → AllHeld
          (raised_ones (deliver_all u ds faults draws now s).0 ++ es)
          (deliver_all u ds faults draws now s).1.db
  unfolding deliver_all
  deliver_all-AllHeld [] es faults draws now s h = h
  deliver_all-AllHeld (d ∷ ds) es faults draws now s h =
      let out : Option Text × EngineState = deliver_once u (faults d.id) d (draws d.id) now s in
      elim (deliver_once-Settled (faults d.id) d (draws d.id) now s) [
        | inl c ↦ kept_any out.0 d (deliver_all u ds faults draws now out.1).0 es _ (
            deliver_all-AllHeld ds es faults draws now out.1
              (Clears-AllHeld (Again u d) d (ds ++ es) c h))
        | inr same ↦ kept_raised out.0 d (deliver_all u ds faults draws now out.1).0 es _ same.0 (
            deliver_all-AllHeld ds (d ∷ es) faults draws now out.1
              (subst (AllHeld (ds ++ d ∷ es)) (sym same.1) (AllHeld-back d ds es s.db h)))
      ]

  handed_back-AllHeld :
      (o : Option ℕ) (d : Delivery) (ds : List Delivery) (now : ℕ) (s : EngineState)
      → (delay : ℕ) × (o ≡ some delay)
      → AllHeld (d ∷ ds) s.db
      → AllHeld ds (return_claim u d o now s).db
  handed_back-AllHeld none d ds now s k h = absurd (cc (k.1))
  handed_back-AllHeld (some delay) d ds now s k h = release_claim-AllHeld d ds _ now s.db h

  recover-AllHeld :
      (d : Delivery) (ds : List Delivery) (error : Text) (draw now : ℕ) (s : EngineState)
      → u.max_attempts ≤ 1025
      → AllHeld (d ∷ ds) s.db
      → AllHeld ds (recover u d error draw now s).db
  unfolding recover
  recover-AllHeld d ds error draw now s m h = elim (Bool-cases (is_last u d)) [
    | inl last ↦
        rw last
          (Clears-AllHeld (Again u d) d ds (dead_letter-Clears (Again u d) d _ none 0 now s) h)
    | inr left ↦
        let again : Again u d = another u d left in
        rw left (
          handed_back-AllHeld _ d ds now _ (retry_delay_known u (d.attempt + 1) draw (omega arith))
            h)
  ]

  recover_all-AllHeld :
      (failed : List (Delivery × Text)) (draws : ℕ → ℕ) (now : ℕ) (s : EngineState)
      → u.max_attempts ≤ 1025
      → AllHeld (raised_ones failed) s.db
      → AllHeld [] (recover_all u failed draws now s).db
  unfolding recover_all
  recover_all-AllHeld [] draws now s m h = h
  recover_all-AllHeld ((d, error) ∷ failed) draws now s m h =
      recover_all-AllHeld failed draws now (recover u d error (draws d.id) now s) m
        (recover-AllHeld d (raised_ones failed) error (draws d.id) now s m h)

  append_none : (ds : List Delivery) (n : ℕ) → hands_out n (ds ++ []) ≡ hands_out n ds
  append_none [] n = refl
  append_none (c ∷ ds) n = ground (arith, append_none ds n)

  -- A pass of the worker leaves no delivery behind. With no delivery in flight before it, and at most
  -- 1025 attempts to a delivery, none is in flight after it, whatever each sink answers, for an event
  -- that is gone and for a sink that is gone or disabled, and whichever of the attempts raise in the
  -- engine, because the event cannot be read back or the outcome cannot be written; the writes of the
  -- recovery itself are taken to go through.
  pub run_once_settles :
      (faults : ℕ → Faults) (draws : ℕ → ℕ) (now : ℕ) (s : EngineState)
      → u.max_attempts ≤ 1025
      → AllHeld [] s.db
      → AllHeld [] (run_once u faults draws now s).1.db
  unfolding run_once
  run_once_settles faults draws now s m h =
      let due : List Delivery = (claim_due_deliveries now claim_batch s.db).0 in
      let taken : EngineState = with_db (claim_due_deliveries now claim_batch s.db).1 s in
      let tried : List (Delivery × Text) × EngineState = deliver_all u due faults draws now taken in
      recover_all-AllHeld tried.0 draws now tried.1 m (
        AllHeld-imp (raised_ones tried.0 ++ []) (raised_ones tried.0) tried.1.db
          (λ n k. sym (append_none (raised_ones tried.0) n) ∙ k)
          (deliver_all-AllHeld due [] faults draws now taken (
            AllHeld-imp due (due ++ []) taken.db (λ n k. append_none due n ∙ k)
              (claim-AllHeld now claim_batch s.db h))))
