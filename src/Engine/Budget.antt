-- ===== src/Engine/Budget.antt =====
-- How often a delivery is tried (webhook_doorman/engine.py, `_schedule_retry` and `_recover`).
use webhook_doorman.Prelude.{ℕ, refl, ◌≢◌, sym, subst, some, inl, inr, Option, none, List, [], ◌∷◌}
use webhook_doorman.Prelude.Tests.{Bool-cases}
use webhook_doorman.Prelude.Lists.{All, All-imp}
use webhook_doorman.Prelude.Distinct.{Distinct}
use webhook_doorman.Prelude.Text.{Text}
use webhook_doorman.Models.{Delivery}
use webhook_doorman.Store.Tables.{Db, delivery_is}
use webhook_doorman.Store.Claims.{claim_due_deliveries, release_claim, is_held, handed_back}
use webhook_doorman.Store.Invariant.{IsWellFormed}
use webhook_doorman.Store.InFlight.{Clears}
use webhook_doorman.Engine.Setup.{Setup, EngineState, with_db}
use webhook_doorman.Engine.Delivery.{
  Faults, if_raised, return_claim, deliver_once, recover, deliver_all, recover_all, run_once,
  is_last, claim_batch, dead_letter,
}
use webhook_doorman.Engine.Settles.{
  Again, another, raised_ones, dead_letter-Clears, deliver_once-Settled,
}
use webhook_doorman.Store.Attempts.{
  HasBudget, Agrees, AgreesHeld, update-budget, update-agrees, closed_budget, Agrees-AgreesHeld,
  idle-AgreesHeld, released-budget,
}
use webhook_doorman.Store.ClaimAttempts.{claim-HasBudget, claim_apart, claim-Agrees}

module _ (u : Setup) where
  Clears-HasBudget :
      (d : Delivery) {a b : Db}
      → Clears d.id (Again u d) a b
      → Agrees a d
      → HasBudget u.max_attempts a
      → HasBudget u.max_attempts b
  unfolding HasBudget
  Clears-HasBudget d {a} c k h =
      rw c.after
        (update-budget u.max_attempts d c.change c.same c.counted c.allowed a.deliveries h k)

  Clears-Agrees :
      (d c : Delivery) {a b : Db}
      → Clears d.id (Again u d) a b
      → c.id ≢ d.id
      → Agrees a c
      → Agrees b c
  Clears-Agrees d c {a} s ne k =
      rw s.after
        (update-agrees u.max_attempts d s.change s.same s.counted s.allowed c a.deliveries ne k)

  deliver_all-HasBudget :
      (ds : List Delivery) (faults : ℕ → Faults) (draws : ℕ → ℕ) (now : ℕ) (s : EngineState)
      → Distinct (λ (c : Delivery). c.id) ds
      → All (Agrees s.db) ds
      → HasBudget u.max_attempts s.db
      → HasBudget u.max_attempts (deliver_all u ds faults draws now s).1.db
  unfolding deliver_all
  deliver_all-HasBudget [] faults draws now s apart k h = h
  deliver_all-HasBudget (d ∷ ds) faults draws now s apart k h =
      let out : Option Text × EngineState = deliver_once u (faults d.id) d (draws d.id) now s in
      elim (deliver_once-Settled u (faults d.id) d (draws d.id) now s) [
        | inl once ↦
            deliver_all-HasBudget ds faults draws now out.1 apart.1
              (both ds d s.db out.1.db once apart.0 k.1) (Clears-HasBudget d once k.0 h)
        | inr same ↦
            deliver_all-HasBudget ds faults draws now out.1 apart.1
              (subst (λ db. All (Agrees db) ds) (sym same.1) k.1)
              (subst (HasBudget u.max_attempts) (sym same.1) h)
      ]
    where
      both :
          (ds : List Delivery) (d : Delivery) (a b : Db)
          → Clears d.id (Again u d) a b
          → All (λ (c : Delivery). c.id ≢ d.id) ds
          → All (Agrees a) ds
          → All (Agrees b) ds
      both [] d a b c ne k = tt
      both (x ∷ ds) d a b c ne k = (Clears-Agrees d x c ne.0 k.0, both ds d a b c ne.1 k.1)

module _ (u : Setup) where
  Clears-AgreesHeld :
      (id : ℕ) (Another : Type 0) (c : Delivery) {a b : Db}
      → Clears id Another a b
      → AgreesHeld a c
      → AgreesHeld b c
  Clears-AgreesHeld id Another c {a} s h =
      rw s.after (idle-AgreesHeld c (delivery_is id) s.change s.idle a.deliveries h)

  -- The attempts of a batch leave what a later recovery goes by.
  deliver_all-AgreesHeld :
      (ds : List Delivery) (c : Delivery) (faults : ℕ → Faults) (draws : ℕ → ℕ) (now : ℕ)
      (s : EngineState)
      → AgreesHeld s.db c
      → AgreesHeld (deliver_all u ds faults draws now s).1.db c
  unfolding deliver_all
  deliver_all-AgreesHeld [] c faults draws now s h = h
  deliver_all-AgreesHeld (d ∷ ds) c faults draws now s h =
      elim (deliver_once-Settled u (faults d.id) d (draws d.id) now s) [
        | inl once ↦
            deliver_all-AgreesHeld ds c faults draws now _
              (Clears-AgreesHeld d.id (Again u d) c once h)
        | inr same ↦
            deliver_all-AgreesHeld ds c faults draws now _
              (subst (λ db. AgreesHeld db c) (sym same.1) h)
      ]

  raised-All :
      (P : Delivery → Type 0) (ds : List Delivery) (faults : ℕ → Faults) (draws : ℕ → ℕ) (now : ℕ)
      (s : EngineState)
      → All P ds
      → All P (raised_ones u (deliver_all u ds faults draws now s).0)
  unfolding deliver_all
  raised-All P [] faults draws now s k = tt
  raised-All P (d ∷ ds) faults draws now s k =
      one (deliver_once u (faults d.id) d (draws d.id) now s).0
        (deliver_all u ds faults draws now (deliver_once u (faults d.id) d (draws d.id) now s).1).0
        (raised-All P ds faults draws now _ k.1)
    where
      one :
          (r : Option Text) (failed : List (Delivery × Text))
          → All P (raised_ones u failed)
          → All P (raised_ones u (if_raised u r d failed))
      one none failed h = h
      one (some error) failed h = (k.0, h)

  dead_letter-HasBudget :
      (d : Delivery) (error : Text) (now : ℕ) (s : EngineState)
      → HasBudget u.max_attempts s.db
      → HasBudget u.max_attempts (dead_letter u none d error none 0 now s).1.db
  unfolding HasBudget
  dead_letter-HasBudget d error now s h =
      let gone : Clears d.id ⊥ s.db (dead_letter u none d error none 0 now s).1.db =
        dead_letter-Clears u ⊥ d error none 0 now s in
      rw gone.after (closed_budget u.max_attempts d.id gone.change gone.allowed s.db.deliveries h)

  return_claim-HasBudget :
      (o : Option ℕ) (d : Delivery) (now : ℕ) (s : EngineState)
      → Again u d
      → AgreesHeld s.db d
      → HasBudget u.max_attempts s.db
      → HasBudget u.max_attempts (return_claim u d o now s).db
  unfolding HasBudget release_claim
  return_claim-HasBudget none d now s again k h = h
  return_claim-HasBudget (some delay) d now s again k h =
      released-budget u.max_attempts d _ now again s.db.deliveries h k

  return_claim-AgreesHeld :
      (o : Option ℕ) (d c : Delivery) (now : ℕ) (s : EngineState)
      → AgreesHeld s.db c
      → AgreesHeld (return_claim u d o now s).db c
  unfolding release_claim
  return_claim-AgreesHeld none d c now s h = h
  return_claim-AgreesHeld (some delay) d c now s h =
      idle-AgreesHeld c (is_held d.id) (handed_back _ now) (λ x. refl) s.db.deliveries h

  recover-HasBudget :
      (d : Delivery) (error : Text) (draw now : ℕ) (s : EngineState)
      → AgreesHeld s.db d
      → HasBudget u.max_attempts s.db
      → HasBudget u.max_attempts (recover u d error draw now s).db
  unfolding recover
  recover-HasBudget d error draw now s k h = elim (Bool-cases (is_last u d)) [
    | inl last ↦ rw last (dead_letter-HasBudget d _ now s h)
    | inr left ↦ rw left (return_claim-HasBudget _ d now _ (another u d left) k h)
  ]

  recover-AgreesHeld :
      (d c : Delivery) (error : Text) (draw now : ℕ) (s : EngineState)
      → AgreesHeld s.db c
      → AgreesHeld (recover u d error draw now s).db c
  unfolding recover
  recover-AgreesHeld d c error draw now s h = elim (Bool-cases (is_last u d)) [
    | inl last ↦ rw last (Clears-AgreesHeld d.id ⊥ c (dead_letter-Clears u ⊥ d _ none 0 now s) h)
    | inr left ↦ rw left (return_claim-AgreesHeld _ d c now _ h)
  ]

  recover_all-HasBudget :
      (failed : List (Delivery × Text)) (draws : ℕ → ℕ) (now : ℕ) (s : EngineState)
      → All (AgreesHeld s.db) (raised_ones u failed)
      → HasBudget u.max_attempts s.db
      → HasBudget u.max_attempts (recover_all u failed draws now s).db
  unfolding recover_all
  recover_all-HasBudget [] draws now s k h = h
  recover_all-HasBudget ((d, error) ∷ failed) draws now s k h =
      let next : EngineState = recover u d error (draws d.id) now s in
      recover_all-HasBudget failed draws now next
        (All-imp (AgreesHeld s.db) (AgreesHeld next.db) (raised_ones u failed)
          (λ c held. recover-AgreesHeld d c error (draws d.id) now s held) k.1)
        (recover-HasBudget d error (draws d.id) now s k.0 h)

-- Every delivery has an attempt left for as long as it is open. From tables that keep the promises of
-- the schema, with every open delivery tried less often than `max_attempts`, a pass of the worker ends
-- in tables where every open delivery has again been tried less often, whatever the sinks answer and
-- whichever of the attempts raise in the engine.
pub run_once_budget :
    (u : Setup) (faults : ℕ → Faults) (draws : ℕ → ℕ) (now : ℕ) (s : EngineState)
    → IsWellFormed s.db
    → HasBudget u.max_attempts s.db
    → HasBudget u.max_attempts (run_once u faults draws now s).1.db
unfolding run_once
run_once_budget u faults draws now s w h =
    let due : List Delivery = (claim_due_deliveries now claim_batch s.db).0 in
    let begun : EngineState = with_db (claim_due_deliveries now claim_batch s.db).1 s in
    let tried : List (Delivery × Text) × EngineState = deliver_all u due faults draws now begun in
    recover_all-HasBudget u tried.0 draws now tried.1
      (raised-All u (AgreesHeld tried.1.db) due faults draws now begun (
        All-imp (Agrees begun.db) (AgreesHeld tried.1.db) due
          (λ c k.
            deliver_all-AgreesHeld u due c faults draws now begun (Agrees-AgreesHeld begun.db c k))
          (claim-Agrees now claim_batch s.db w)))
      (deliver_all-HasBudget u due faults draws now begun (claim_apart now claim_batch s.db w)
        (claim-Agrees now claim_batch s.db w)
        (claim-HasBudget u.max_attempts now claim_batch s.db w h))
