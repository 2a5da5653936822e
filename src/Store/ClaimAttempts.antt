-- ===== src/Store/ClaimAttempts.antt =====
-- What a claim says of the attempts of the deliveries that it hands out
-- (webhook_doorman/store/sqlite.py, `claim_due_deliveries`).
use webhook_doorman.Prelude.{
  ℕ, ◌≡◌, refl, ◌≢◌, inl, inr, Bool, true, false, ◌&&◌, ◌||◌, List, [], ◌∷◌, map, arith,
}
use webhook_doorman.Prelude.Tests.{==_iff, Bool-cases, &&_parts}
use webhook_doorman.Prelude.Lists.{any, filter, update_where, All, All-imp, All-filter}
use webhook_doorman.Prelude.Distinct.{Distinct, Distinct-filter, Distinct-update_where}
use webhook_doorman.Models.{Delivery, DeliveryStatus, is_pending, is_open}
use webhook_doorman.Store.Tables.{DeliveryRow, Db, delivery_is}
use webhook_doorman.Store.Claims.{
  claim_due_deliveries, due_rows, is_among, claimed, row_to_delivery, is_due, reached,
}
use webhook_doorman.Store.Invariant.{IsWellFormed}
use webhook_doorman.Store.Exclusive.{picked_is_due}
use webhook_doorman.Store.Attempts.{is_spent, HasBudget, disagrees, Agrees}

-- What a claim hands out has distinct ids.
map_apart :
    (n : ℕ) (rs : List DeliveryRow)
    → All (λ (r : DeliveryRow). r.id ≢ n) rs
    → All (λ (c : Delivery). c.id ≢ n) (map row_to_delivery rs)
map_apart n [] h = tt
map_apart n (r ∷ rs) h = (h.0, map_apart n rs h.1)

map-Distinct :
    (rs : List DeliveryRow)
    → Distinct (λ (r : DeliveryRow). r.id) rs
    → Distinct (λ (c : Delivery). c.id) (map row_to_delivery rs)
map-Distinct [] h = tt
map-Distinct (r ∷ rs) h = (map_apart r.id rs h.0, map-Distinct rs h.1)

-- A row and the delivery that it gives agree; no other row has its id.
own_row :
    (r : DeliveryRow) (rs : List DeliveryRow)
    → All (λ (x : DeliveryRow). x.id ≢ r.id) rs
    → any (disagrees (row_to_delivery r)) rs ≡ false
own_row r [] h = refl
own_row r (x ∷ rs) h = let ne : x.id ≢ r.id = h.0 in ground (arith, own_row r rs h.1)

rows-Agrees :
    (rs : List DeliveryRow)
    → Distinct (λ (r : DeliveryRow). r.id) rs
    → All (λ (r : DeliveryRow). any (disagrees (row_to_delivery r)) rs ≡ false) rs
rows-Agrees [] h = tt
rows-Agrees (r ∷ rs) h = (own_first r rs h.0, later r rs h.0 rs h.0 (rows-Agrees rs h.1))
  where
    own_first :
        (r : DeliveryRow) (rs : List DeliveryRow)
        → All (λ (x : DeliveryRow). x.id ≢ r.id) rs
        → any (disagrees (row_to_delivery r)) (r ∷ rs) ≡ false
    own_first r rs h = ground (arith, own_row r rs h, (==_iff r.attempt r.attempt).1 refl)

    later :
        (r : DeliveryRow) (rs : List DeliveryRow)
        → All (λ (x : DeliveryRow). x.id ≢ r.id) rs
        → (xs : List DeliveryRow) → All (λ (x : DeliveryRow). x.id ≢ r.id) xs
        → All (λ (x : DeliveryRow). any (disagrees (row_to_delivery x)) rs ≡ false) xs
        → All (λ (x : DeliveryRow). any (disagrees (row_to_delivery x)) (r ∷ rs) ≡ false) xs
    later r rs a [] ne k = tt
    later r rs a (x ∷ xs) ne k = (
      let apart : x.id ≢ r.id = ne.0 in
          let e : any (disagrees (row_to_delivery x)) rs ≡ false = k.0 in ground arith,
      later r rs a xs ne.1 k.1,
    )

-- With distinct ids, a row passes a test that some row of its id passes.
own_test :
    (q : DeliveryRow → Bool) (rs : List DeliveryRow)
    → Distinct (λ (r : DeliveryRow). r.id) rs
    → All (λ (r : DeliveryRow). any (λ x. delivery_is r.id x && q x) rs ≡ true → q r ≡ true) rs
own_test q [] h = tt
own_test q (r ∷ rs) h =
    ((λ found. first_test r rs h.0 found), later r rs rs h.0 (own_test q rs h.1))
  where
    absent :
        (n : ℕ) (rs : List DeliveryRow)
        → All (λ (x : DeliveryRow). x.id ≢ n) rs
        → any (λ x. delivery_is n x && q x) rs ≡ false
    absent n [] h = refl
    absent n (x ∷ rs) h = let ne : x.id ≢ n = h.0 in ground (arith, absent n rs h.1)

    first_test :
        (r : DeliveryRow) (rs : List DeliveryRow)
        → All (λ (x : DeliveryRow). x.id ≢ r.id) rs
        → any (λ x. delivery_is r.id x && q x) (r ∷ rs) ≡ true
        → q r ≡ true
    first_test r rs h found = ground (arith, absent r.id rs h)

    skip :
        (y r : DeliveryRow) (rs : List DeliveryRow)
        → y.id ≢ r.id
        → any (λ x. delivery_is y.id x && q x) (r ∷ rs) ≡ true
        → any (λ x. delivery_is y.id x && q x) rs ≡ true
    skip y r rs ne found = ground arith

    later :
        (r : DeliveryRow) (rs xs : List DeliveryRow)
        → All (λ (x : DeliveryRow). x.id ≢ r.id) xs
        → All (λ (y : DeliveryRow). any (λ x. delivery_is y.id x && q x) rs ≡ true → q y ≡ true) xs
        → All
            (λ (y : DeliveryRow). any (λ x. delivery_is y.id x && q x) (r ∷ rs) ≡ true → q y ≡ true)
            xs
    later r rs [] ne k = tt
    later r rs (y ∷ xs) ne k = (
      (λ found. let apart : y.id ≢ r.id = ne.0 in k.0 (skip y r rs apart found)),
      later r rs xs ne.1 k.1,
    )

claimed_budget :
    (limit now : ℕ) (rows rs : List DeliveryRow)
    → All (λ (r : DeliveryRow). is_among rows r ≡ true → is_due now r ≡ true) rs
    → any (is_spent limit) rs ≡ false
    → any (is_spent limit) (update_where (is_among rows) (claimed now) rs) ≡ false
claimed_budget limit now rows [] k h = refl
claimed_budget limit now rows (r ∷ rs) k h = elim (Bool-cases (is_among rows r)) [
  | inl picked ↦ rw picked (
      claimed_row r (k.0 picked) (ground arith)
        (claimed_budget limit now rows rs k.1 (ground arith)))
  | inr left ↦ rw left (ground (arith, claimed_budget limit now rows rs k.1 (ground arith)))
]
  where
    pending_open : (s : DeliveryStatus) → is_pending s ≡ true → is_open s ≡ true
    pending_open s h = ground arith

    claimed_row :
        (r : DeliveryRow) {b : Bool}
        → is_due now r ≡ true
        → is_spent limit r ≡ false
        → b ≡ false
        → (is_spent limit (claimed now r) || b) ≡ false
    claimed_row r due h e = ground (
      arith,
      pending_open r.status
          ((&&_parts (is_pending r.status) (reached now r.next_attempt_at) due).0),
    )

pub claim-HasBudget :
    (limit now batch : ℕ) (db : Db)
    → IsWellFormed db
    → HasBudget limit db
    → HasBudget limit (claim_due_deliveries now batch db).1
unfolding HasBudget claim_due_deliveries
claim-HasBudget limit now batch db w h =
    claimed_budget limit now (due_rows now batch db) db.deliveries
      (All-imp
        (λ (r : DeliveryRow).
          any (λ x. delivery_is r.id x && is_due now x) db.deliveries ≡ true → is_due now r ≡ true)
        (λ (r : DeliveryRow). is_among (due_rows now batch db) r ≡ true → is_due now r ≡ true)
        db.deliveries (λ r own picked. own (picked_is_due r.id now batch db picked))
        (own_test (is_due now) db.deliveries w.delivery_ids))
      h

claim-Distinct :
    (now batch : ℕ) (db : Db)
    → IsWellFormed db
    → Distinct (λ (r : DeliveryRow). r.id) (claim_due_deliveries now batch db).1.deliveries
unfolding claim_due_deliveries
claim-Distinct now batch db w =
    Distinct-update_where (λ (r : DeliveryRow). r.id) (is_among (due_rows now batch db))
      (claimed now) (λ r. refl) db.deliveries w.delivery_ids

pub claim_apart :
    (now batch : ℕ) (db : Db)
    → IsWellFormed db
    → Distinct (λ (c : Delivery). c.id) (claim_due_deliveries now batch db).0
unfolding claim_due_deliveries
claim_apart now batch db w =
    map-Distinct
      (filter (is_among (due_rows now batch db)) (claim_due_deliveries now batch db).1.deliveries)
      (Distinct-filter (λ (r : DeliveryRow). r.id) (is_among (due_rows now batch db))
        (claim_due_deliveries now batch db).1.deliveries (claim-Distinct now batch db w))

map-All :
    (P : Delivery → Type 0) (rs : List DeliveryRow)
    → All (λ (r : DeliveryRow). P (row_to_delivery r)) rs
    → All P (map row_to_delivery rs)
map-All P [] h = tt
map-All P (r ∷ rs) h = (h.0, map-All P rs h.1)

pub claim-Agrees :
    (now batch : ℕ) (db : Db)
    → IsWellFormed db
    → All (Agrees (claim_due_deliveries now batch db).1) (claim_due_deliveries now batch db).0
unfolding claim_due_deliveries
claim-Agrees now batch db w =
    map-All (Agrees (claim_due_deliveries now batch db).1)
      (filter (is_among (due_rows now batch db)) (claim_due_deliveries now batch db).1.deliveries)
      (All-filter
        (λ (r : DeliveryRow). Agrees (claim_due_deliveries now batch db).1 (row_to_delivery r))
        (is_among (due_rows now batch db)) (claim_due_deliveries now batch db).1.deliveries
        (rows-Agrees (claim_due_deliveries now batch db).1.deliveries
          (claim-Distinct now batch db w)))
