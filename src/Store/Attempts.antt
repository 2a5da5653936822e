-- ===== src/Store/Attempts.antt =====
-- How often each row has been tried (webhook_doorman/store/sqlite.py): what an attempt, a claim and
-- a handed back claim do to the count.
use webhook_doorman.Prelude.{
  ℕ, ◌+◌, ◌<◌, ◌≡◌, refl, ◌≢◌, inl, inr, Bool, true, false, not, ◌&&◌, ◌||◌, List, [], ◌∷◌, arith,
}
use webhook_doorman.Prelude.Tests.{ltb, ◌==◌, Bool-cases}
use webhook_doorman.Prelude.Lists.{any, update_where}
use webhook_doorman.Models.{Delivery, is_open, is_in_flight}
use webhook_doorman.Store.Tables.{DeliveryRow, Db, delivery_is}
use webhook_doorman.Store.Claims.{is_held, handed_back}

-- An open row with no attempt left.
abbrev pub is_spent : ℕ → DeliveryRow → Bool
is_spent limit r = is_open r.status && not (ltb r.attempt limit)

-- Every open delivery has been tried less often than the limit.
unfoldable pub HasBudget : ℕ → Db → Type 0
HasBudget limit db = any (is_spent limit) db.deliveries ≡ false

-- A row of the delivery that has been tried more or less often than the delivery says.
abbrev pub disagrees : Delivery → DeliveryRow → Bool
disagrees d r = delivery_is d.id r && not (r.attempt == d.attempt)

abbrev pub Agrees : Db → Delivery → Type 0
Agrees db d = any (disagrees d) db.deliveries ≡ false

module _ (limit : ℕ) (d : Delivery) (f : DeliveryRow → DeliveryRow)
    (same : (x : DeliveryRow) → (f x).id ≡ x.id)
    (counted : (x : DeliveryRow) → (f x).attempt ≡ x.attempt + 1)
    (allowed : (x : DeliveryRow) → is_open (f x).status ≡ true → d.attempt + 1 < limit) where
  spent_row : (r : DeliveryRow) → r.attempt ≡ d.attempt → is_spent limit (f r) ≡ false
  spent_row r e = elim (Bool-cases (is_open (f r).status)) [
    | inl open_row ↦
        let left : d.attempt + 1 < limit = allowed r open_row in ground (arith, counted r)
    | inr closed ↦ rw closed refl
  ]

  pub update-budget :
      (rs : List DeliveryRow)
      → any (is_spent limit) rs ≡ false
      → any (disagrees d) rs ≡ false
      → any (is_spent limit) (update_where (delivery_is d.id) f rs) ≡ false
  update-budget [] h k = refl
  update-budget (r ∷ rs) h k = elim (Bool-cases (delivery_is d.id r)) [
    | inl hit ↦
        let e : r.attempt ≡ d.attempt = agree r hit (ground arith) in
        rw (hit, spent_row r e) (update-budget rs (ground arith) (ground arith))
    | inr other ↦ rw other (ground (arith, update-budget rs (ground arith) (ground arith)))
  ]
    where
      agree :
          (r : DeliveryRow)
          → delivery_is d.id r ≡ true
          → disagrees d r ≡ false
          → r.attempt ≡ d.attempt
      agree r hit k = ground arith

  pub update-agrees :
      (c : Delivery) (rs : List DeliveryRow)
      → c.id ≢ d.id
      → any (disagrees c) rs ≡ false
      → any (disagrees c) (update_where (delivery_is d.id) f rs) ≡ false
  update-agrees c [] ne k = refl
  update-agrees c (r ∷ rs) ne k = elim (Bool-cases (delivery_is d.id r)) [
    | inl hit ↦ rw (hit, same r) (ground (arith, update-agrees c rs ne (ground arith)))
    | inr other ↦ rw other (ground (arith, update-agrees c rs ne (ground arith)))
  ]

-- A claimed row of the delivery that has been tried more or less often than the delivery says.
abbrev pub is_stale : Delivery → DeliveryRow → Bool
is_stale d r = is_held d.id r && not (r.attempt == d.attempt)

abbrev pub AgreesHeld : Db → Delivery → Type 0
AgreesHeld db d = any (is_stale d) db.deliveries ≡ false

pub Agrees-AgreesHeld : (db : Db) (d : Delivery) → Agrees db d → AgreesHeld db d
Agrees-AgreesHeld db d h = held db.deliveries h
  where
    held : (rs : List DeliveryRow) → any (disagrees d) rs ≡ false → any (is_stale d) rs ≡ false
    held [] h = refl
    held (r ∷ rs) h = ground (arith, held rs (ground arith))

-- An UPDATE that takes rows out of flight makes none stale.
pub idle-AgreesHeld :
    (d : Delivery) (p : DeliveryRow → Bool) (f : DeliveryRow → DeliveryRow)
    → ((x : DeliveryRow) → is_in_flight (f x).status ≡ false)
    → (rs : List DeliveryRow) → any (is_stale d) rs ≡ false
    → any (is_stale d) (update_where p f rs) ≡ false
idle-AgreesHeld d p f idle [] h = refl
idle-AgreesHeld d p f idle (r ∷ rs) h = elim (Bool-cases (p r)) [
  | inl hit ↦ rw hit (ground (arith, idle r, idle-AgreesHeld d p f idle rs (ground arith)))
  | inr other ↦ rw other (ground (arith, idle-AgreesHeld d p f idle rs (ground arith)))
]

-- A claim that is handed back counts as an attempt.
pub released-budget :
    (limit : ℕ) (d : Delivery) (next now : ℕ)
    → d.attempt + 1 < limit
    → (rs : List DeliveryRow) → any (is_spent limit) rs ≡ false
    → any (is_stale d) rs ≡ false
    → any (is_spent limit) (update_where (is_held d.id) (handed_back next now) rs) ≡ false
released-budget limit d next now again [] h k = refl
released-budget limit d next now again (r ∷ rs) h k = elim (Bool-cases (is_held d.id r)) [
  | inl held ↦
      let e : r.attempt ≡ d.attempt = agree r held (ground arith) in
      rw held
        (ground (arith, released-budget limit d next now again rs (ground arith) (ground arith)))
  | inr other ↦
      rw other
        (ground (arith, released-budget limit d next now again rs (ground arith) (ground arith)))
]
  where
    agree : (r : DeliveryRow) → is_held d.id r ≡ true → is_stale d r ≡ false → r.attempt ≡ d.attempt
    agree r held k = ground arith

pub closed_budget :
    (limit id : ℕ) (f : DeliveryRow → DeliveryRow)
    → ((x : DeliveryRow) → is_open (f x).status ≡ true → ⊥)
    → (rs : List DeliveryRow) → any (is_spent limit) rs ≡ false
    → any (is_spent limit) (update_where (delivery_is id) f rs) ≡ false
closed_budget limit id f closes [] h = refl
closed_budget limit id f closes (r ∷ rs) h = elim (Bool-cases (delivery_is id r)) [
  | inl hit ↦
      rw hit (closed_row (f r) (closes r) (closed_budget limit id f closes rs (ground arith)))
  | inr other ↦ rw other (ground (arith, closed_budget limit id f closes rs (ground arith)))
]
  where
    closed_row :
        (x : DeliveryRow) {b : Bool}
        → (is_open x.status ≡ true → ⊥)
        → b ≡ false
        → (is_spent limit x || b) ≡ false
    closed_row x shut e = elim (Bool-cases (is_open x.status)) [
      | inl open_row ↦ absurd (shut open_row)
      | inr closed ↦ rw (closed, e) refl
    ]
