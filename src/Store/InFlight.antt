-- ===== src/Store/InFlight.antt =====
-- Which deliveries a worker holds (webhook_doorman/store/sqlite.py), under a claim and under the
-- outcomes of an attempt.
use webhook_doorman.Prelude.{
  ◌+◌, ℕ, ◌≡◌, refl, inl, inr, Bool, true, false, not, ◌&&◌, Option, none, some, List, [], ◌∷◌, map,
  arith,
}
use webhook_doorman.Prelude.Tests.{==_iff, Bool-cases, ltb}
use webhook_doorman.Prelude.Lists.{any, find, filter, update_where, All, All-imp}
use webhook_doorman.Prelude.Text.{Text}
use webhook_doorman.Models.{Delivery, DeliveryStatus, is_in_flight, is_open}
use webhook_doorman.Store.Tables.{DeliveryRow, Db, delivery_is, has_delivery}
use webhook_doorman.Store.Claims.{
  due_rows, is_among, claimed, row_to_delivery, claim_due_deliveries, settle_event, settle_found,
  settle_event_for, open_deliveries, mark_delivered, mark_retry, mark_exhausted, after_attempt,
  error_prefix, release_claim, is_held, handed_back,
}
use webhook_doorman.Store.Exclusive.{hands_out}

-- A row in flight that none of these deliveries accounts for.
abbrev pub is_lost : List Delivery → DeliveryRow → Bool
is_lost ds r = is_in_flight r.status && not (hands_out r.id ds)

-- Every row in flight is in these hands.
unfoldable pub AllHeld : List Delivery → Db → Type 0
AllHeld ds db = any (is_lost ds) db.deliveries ≡ false

settle_event_for-deliveries :
    (id : ℕ) (failed : Bool) (db : Db) → (settle_event_for id failed db).deliveries ≡ db.deliveries
unfolding settle_event_for
settle_event_for-deliveries id failed db = found (find (delivery_is id) db.deliveries) failed db
  where
    found :
        (o : Option DeliveryRow) (failed : Bool) (db : Db)
        → (settle_found o failed db).deliveries ≡ db.deliveries
    found none failed db = unfold settle_found in refl
    found (some d) failed db =
        unfold settle_found settle_event in
        (elim (Bool-cases (ltb 0 (open_deliveries d.event_id db))) [
          | inl waits ↦ rw waits refl
          | inr settled ↦ rw settled refl
        ])

-- The deliveries after are those before, with the row of this id changed: one attempt more, not in
-- flight, and open only if there is another attempt (`Again`).
pub record Clears (id : ℕ) (Again : Type 0) (a b : Db) : Type 0 where
  pub change : DeliveryRow → DeliveryRow
  pub idle : (x : DeliveryRow) → is_in_flight (change x).status ≡ false
  pub same : (x : DeliveryRow) → (change x).id ≡ x.id
  pub counted : (x : DeliveryRow) → (change x).attempt ≡ x.attempt + 1
  pub allowed : (x : DeliveryRow) → is_open (change x).status ≡ true → Again
  pub after : b.deliveries ≡ update_where (delivery_is id) change a.deliveries

module _ (Again : Type 0) where
  pub mark_delivered-Clears :
      (id : ℕ) (code : Option ℕ) (latency now : ℕ) (db : Db)
      → Clears id Again db (mark_delivered id code latency now db)
  unfolding mark_delivered
  mark_delivered-Clears id code latency now db = record {
    change = after_attempt DeliveryStatus.delivered code latency none none now;
    idle = λ x. refl;
    same = λ x. refl;
    counted = λ x. refl;
    allowed = λ x open_row. absurd cc;
    after = settle_event_for-deliveries id false _;
  }

  pub mark_retry-Clears :
      (id : ℕ) (error : Text) (code : Option ℕ) (latency next now : ℕ) (db : Db)
      → Again
      → Clears id Again db (mark_retry id error code latency next now db)
  unfolding mark_retry
  mark_retry-Clears id error code latency next now db again = record {
    change =
        after_attempt DeliveryStatus.pending code latency (some (error_prefix error)) (some next)
          now;
    idle = λ x. refl;
    same = λ x. refl;
    counted = λ x. refl;
    allowed = λ x open_row. again;
    after = refl;
  }

  pub mark_exhausted-Clears :
      (id : ℕ) (error : Text) (code : Option ℕ) (latency at : ℕ) (db : Db)
      → Clears id Again db (mark_exhausted id error code latency at db).1
  unfolding mark_exhausted
  mark_exhausted-Clears id error code latency at db = record {
    change =
        after_attempt DeliveryStatus.exhausted code latency (some (error_prefix error)) none at;
    idle = λ x. refl;
    same = λ x. refl;
    counted = λ x. refl;
    allowed = λ x open_row. absurd cc;
    after = elim (Bool-cases (has_delivery id db)) [
      | inl there ↦ rw there (settle_event_for-deliveries id true _)
      | inr gone ↦ rw gone refl
    ];
  }

cleared :
    (d : Delivery) (ds : List Delivery) (f : DeliveryRow → DeliveryRow)
    → ((x : DeliveryRow) → is_in_flight (f x).status ≡ false)
    → (rs : List DeliveryRow) → any (is_lost (d ∷ ds)) rs ≡ false
    → any (is_lost ds) (update_where (delivery_is d.id) f rs) ≡ false
cleared d ds f idle [] h = refl
cleared d ds f idle (r ∷ rs) h = elim (Bool-cases (delivery_is d.id r)) [
  | inl hit ↦ rw (hit, idle r) (cleared d ds f idle rs (ground arith))
  | inr other ↦ rw other (ground (arith, cleared d ds f idle rs (ground arith)))
]

-- An attempt takes its own delivery out of the hands of the worker.
pub Clears-AllHeld :
    (Again : Type 0) (d : Delivery) (ds : List Delivery) {a b : Db}
    → Clears d.id Again a b
    → AllHeld (d ∷ ds) a
    → AllHeld ds b
unfolding AllHeld
Clears-AllHeld Again d ds {a} c h = rw c.after (cleared d ds c.change c.idle a.deliveries h)

-- More hands hold what fewer hold.
pub AllHeld-imp :
    (ds es : List Delivery) (db : Db)
    → ((n : ℕ) → hands_out n ds ≡ true → hands_out n es ≡ true)
    → AllHeld ds db
    → AllHeld es db
unfolding AllHeld
AllHeld-imp ds es db k h = wider db.deliveries h
  where
    wider_row :
        (r : DeliveryRow)
        → (hands_out r.id ds ≡ true → hands_out r.id es ≡ true)
        → is_lost ds r ≡ false
        → is_lost es r ≡ false
    wider_row r k h = elim (Bool-cases (hands_out r.id ds)) [
      | inl held ↦ ground (arith, k held)
      | inr free ↦ ground arith
    ]

    wider : (rs : List DeliveryRow) → any (is_lost ds) rs ≡ false → any (is_lost es) rs ≡ false
    wider [] h = refl
    wider (r ∷ rs) h = ground (arith, wider_row r (k r.id) (ground arith), wider rs (ground arith))

released :
    (d : Delivery) (ds : List Delivery) (next now : ℕ) (rs : List DeliveryRow)
    → any (is_lost (d ∷ ds)) rs ≡ false
    → any (is_lost ds) (update_where (is_held d.id) (handed_back next now) rs) ≡ false
released d ds next now [] h = refl
released d ds next now (r ∷ rs) h = elim (Bool-cases (is_held d.id r)) [
  | inl held ↦ rw held (released d ds next now rs (ground arith))
  | inr other ↦
      rw other
        (ground (arith, left r other (ground arith), released d ds next now rs (ground arith)))
]
  where
    left :
        (r : DeliveryRow)
        → is_held d.id r ≡ false
        → is_lost (d ∷ ds) r ≡ false
        → is_lost ds r ≡ false
    left r a b = ground arith

-- A claim that is handed back is out of the hands of the worker.
pub release_claim-AllHeld :
    (d : Delivery) (ds : List Delivery) (next now : ℕ) (db : Db)
    → AllHeld (d ∷ ds) db
    → AllHeld ds (release_claim d.id next now db).1
unfolding AllHeld release_claim
release_claim-AllHeld d ds next now db h = released d ds next now db.deliveries h

module _ (rows : List DeliveryRow) (now : ℕ) where
  -- What a claim of these rows hands out.
  abbrev handed : List DeliveryRow → List Delivery
  handed rs =
      map row_to_delivery (filter (is_among rows) (update_where (is_among rows) (claimed now) rs))

  grows :
      (n : ℕ) (r : DeliveryRow) (rs : List DeliveryRow)
      → hands_out n (handed rs) ≡ true
      → hands_out n (handed (r ∷ rs)) ≡ true
  grows n r rs h = elim (Bool-cases (is_among rows r)) [
    | inl picked ↦ rw (picked, picked) (ground arith)
    | inr left ↦ rw (left, left) h
  ]

  handed-All :
      (rs : List DeliveryRow)
      → All (λ (r : DeliveryRow). is_among rows r ≡ true → hands_out r.id (handed rs) ≡ true) rs
  handed-All [] = tt
  handed-All (r ∷ rs) = (
    (λ picked. rw (picked, picked) (ground (arith, (==_iff r.id r.id).1 refl))),
    All-imp (λ (x : DeliveryRow). is_among rows x ≡ true → hands_out x.id (handed rs) ≡ true)
        (λ (x : DeliveryRow). is_among rows x ≡ true → hands_out x.id (handed (r ∷ rs)) ≡ true) rs
        (λ x h picked. grows x.id r rs (h picked)) (handed-All rs),
  )

  none_lost :
      (hs : List Delivery) (rs : List DeliveryRow)
      → All (λ (r : DeliveryRow). is_among rows r ≡ true → hands_out r.id hs ≡ true) rs
      → any (is_lost []) rs ≡ false
      → any (is_lost hs) (update_where (is_among rows) (claimed now) rs) ≡ false
  none_lost hs [] k h = refl
  none_lost hs (r ∷ rs) k h = elim (Bool-cases (is_among rows r)) [
    | inl picked ↦ rw (picked, k.0 picked) (none_lost hs rs k.1 (ground arith))
    | inr left ↦ rw left (ground (arith, none_lost hs rs k.1 (ground arith)))
  ]

-- With nothing in flight before, a claim hands out all that is in flight after it.
pub claim-AllHeld :
    (now limit : ℕ) (db : Db)
    → AllHeld [] db
    → AllHeld (claim_due_deliveries now limit db).0 (claim_due_deliveries now limit db).1
unfolding AllHeld claim_due_deliveries
claim-AllHeld now limit db h =
    none_lost (due_rows now limit db) now (claim_due_deliveries now limit db).0 db.deliveries
      (handed-All (due_rows now limit db) now db.deliveries) h
