-- ===== src/Store/Exclusive.antt =====
-- Who gets a due delivery (webhook_doorman/store/sqlite.py, `claim_due_deliveries`).
use webhook_doorman.Prelude.{
  ℕ, zero, suc, ◌≤◌, ◌+◌, ◌≡◌, refl, ◌≢◌, subst, sym, ap, ◌∙◌, inl, inr, Bool, true, false, ◌&&◌,
  ◌||◌, List, [], ◌∷◌, map, arith,
}
use webhook_doorman.Prelude.Tests.{◌==◌, ==_iff, Bool-cases}
use webhook_doorman.Prelude.Lists.{
  any, filter, take, length, count, update_where, All, All-imp, length-take,
}
use webhook_doorman.Prelude.Distinct.{Distinct, Distinct-update_where}
use webhook_doorman.Prelude.Sort.{sort_by, any-sort_by}
use webhook_doorman.Models.{Delivery, DeliveryStatus, is_in_flight, is_pending}
use webhook_doorman.Store.Tables.{DeliveryRow, Db, delivery_is}
use webhook_doorman.Store.Claims.{
  is_due, due_le, due_rows, is_among, claimed, row_to_delivery, claim_due_deliveries,
}
use webhook_doorman.Store.Invariant.{IsWellFormed}

any-take :
    {A : Type 0} (p : A → Bool) (n : ℕ) (xs : List A) → any p (take n xs) ≡ true → any p xs ≡ true
any-take p zero xs h = absurd cc
any-take p (suc n) [] h = h
any-take p (suc n) (x ∷ xs) h = elim (Bool-cases (p x)) [
  | inl e ↦ rw e refl
  | inr e ↦ rw e (any-take p n xs (rw e at h))
]

any_filter :
    {A : Type 0} (p q : A → Bool) (xs : List A) → any p (filter q xs) ≡ any (λ x. p x && q x) xs
any_filter p q [] = refl
any_filter p q (x ∷ xs) = ground (arith, any_filter p q xs)

-- A row that the subquery picks was due.
pub picked_is_due :
    (n now limit : ℕ) (db : Db)
    → any (delivery_is n) (due_rows now limit db) ≡ true
    → any (λ r. delivery_is n r && is_due now r) db.deliveries ≡ true
unfolding due_rows
picked_is_due n now limit db h =
    sym (any_filter (delivery_is n) (is_due now) db.deliveries)
    ∙ (sym (any-sort_by due_le (delivery_is n) (filter (is_due now) db.deliveries))
        ∙ any-take (delivery_is n) limit (sort_by due_le (filter (is_due now) db.deliveries)) h)

-- Is a delivery of this id handed out?
abbrev pub hands_out : ℕ → List Delivery → Bool
hands_out n ds = any (λ c. c.id == n) ds

module _ (rows : List DeliveryRow) (now : ℕ) where
  -- What is handed out was picked.
  handed_is_picked :
      (ds : List DeliveryRow)
      → All
          (λ (c : Delivery). any (delivery_is c.id) rows ≡ true)
          (map row_to_delivery (filter (is_among rows) ds))
  handed_is_picked [] = tt
  handed_is_picked (d ∷ ds) = elim (Bool-cases (is_among rows d)) [
    | inl picked ↦ rw picked (picked, handed_is_picked ds)
    | inr left ↦ rw left (handed_is_picked ds)
  ]

  -- What is handed out is in flight.
  handed_in_flight :
      (n : ℕ) (ds : List DeliveryRow)
      → hands_out n (
          map row_to_delivery
            (filter (is_among rows) (update_where (is_among rows) (claimed now) ds)))
        ≡ true
      → any
          (λ r. delivery_is n r && is_in_flight r.status)
          (update_where (is_among rows) (claimed now) ds)
        ≡ true
  handed_in_flight n [] h = h
  handed_in_flight n (d ∷ ds) h = elim (Bool-cases (is_among rows d)) [
    | inl picked ↦ rw picked (ground (arith, handed_in_flight n ds, (rw (picked, picked) at h)))
    | inr left ↦ rw left (ground (arith, handed_in_flight n ds, (rw (left, left) at h)))
  ]

-- With distinct ids no id is both in flight and due.
one_status :
    (n now : ℕ) (ds : List DeliveryRow)
    → Distinct (λ (d : DeliveryRow). d.id) ds
    → any (λ r. delivery_is n r && is_in_flight r.status) ds ≡ true
    → any (λ r. delivery_is n r && is_due now r) ds ≡ false
one_status n now [] d h = refl
one_status n now (x ∷ ds) d h = elim (Bool-cases (delivery_is n x)) [
  | inl hit ↦
      let rest : any (delivery_is n) ds ≡ false =
        none_of_key n ds
          (subst (λ (m : ℕ). All (λ (y : DeliveryRow). y.id ≢ m) ds) ((==_iff x.id n).0 hit) d.0) in
      ground (
        arith,
        in_flight_not_pending x.status,
        part_of_none n (λ r. is_in_flight r.status) ds rest,
        part_of_none n (is_due now) ds rest,
      )
  | inr other ↦ ground (arith, one_status n now ds d.1)
]
  where
    none_of_key :
        (n : ℕ) (ds : List DeliveryRow)
        → All (λ (d : DeliveryRow). d.id ≢ n) ds
        → any (delivery_is n) ds ≡ false
    none_of_key n [] h = refl
    none_of_key n (x ∷ ds) h = let ne : x.id ≢ n = h.0 in ground (arith, none_of_key n ds h.1)

    part_of_none :
        (n : ℕ) (q : DeliveryRow → Bool) (ds : List DeliveryRow)
        → any (delivery_is n) ds ≡ false
        → any (λ r. delivery_is n r && q r) ds ≡ false
    part_of_none n q [] h = refl
    part_of_none n q (x ∷ ds) h = ground (arith, part_of_none n q ds)

    in_flight_not_pending : (s : DeliveryStatus) → is_in_flight s ≡ true → is_pending s ≡ false
    in_flight_not_pending s h = ground arith

-- An id that the second claim picks is not one that the first handed out.
apart :
    (n now limit later more : ℕ) (db : Db)
    → IsWellFormed db
    → any (delivery_is n) (due_rows later more (claim_due_deliveries now limit db).1) ≡ true
    → hands_out n (claim_due_deliveries now limit db).0 ≡ false
unfolding claim_due_deliveries
apart n now limit later more db w picked =
    elim (Bool-cases (hands_out n (claim_due_deliveries now limit db).0)) [
      | inl handed ↦
          let rows : List DeliveryRow = due_rows now limit db in
          absurd (
            cc (
              picked_is_due n later more (claim_due_deliveries now limit db).1 picked,
              one_status n later (update_where (is_among rows) (claimed now) db.deliveries)
                  (Distinct-update_where (λ (d : DeliveryRow). d.id) (is_among rows) (claimed now)
                    (λ d. refl) db.deliveries w.delivery_ids)
                  (handed_in_flight rows now n db.deliveries handed),
            ))
      | inr free ↦ free
    ]

-- Two claims in a row, of one worker or of two, hand out no delivery twice: the ids of the second
-- are not among the first's, at whatever times and limits.
pub claim_due_deliveries_exclusive :
    (now limit later more : ℕ) (db : Db)
    → IsWellFormed db
    → All
        (λ (d : Delivery). hands_out d.id (claim_due_deliveries now limit db).0 ≡ false)
        (claim_due_deliveries later more (claim_due_deliveries now limit db).1).0
unfolding claim_due_deliveries
claim_due_deliveries_exclusive now limit later more db w =
    All-imp
      (λ (d : Delivery).
        any (delivery_is d.id) (due_rows later more (claim_due_deliveries now limit db).1) ≡ true)
      (λ (d : Delivery). hands_out d.id (claim_due_deliveries now limit db).0 ≡ false)
      (claim_due_deliveries later more (claim_due_deliveries now limit db).1).0
      (λ d picked. apart d.id now limit later more db w picked)
      (handed_is_picked (due_rows later more (claim_due_deliveries now limit db).1) later (
        update_where (is_among (due_rows later more (claim_due_deliveries now limit db).1))
          (claimed later) (claim_due_deliveries now limit db).1.deliveries))

-- How many rows a list of picked rows can name.
count_or :
    {A : Type 0} (p q : A → Bool) (xs : List A)
    → count (λ x. p x || q x) xs ≤ count p xs + count q xs
count_or p q [] = omega arith
count_or p q (x ∷ xs) = ground (arith, count_or p q xs)

count_key :
    (n : ℕ) (ds : List DeliveryRow)
    → Distinct (λ (d : DeliveryRow). d.id) ds
    → count (λ d. n == d.id) ds ≤ 1
count_key n [] d = omega arith
count_key n (x ∷ ds) d = elim (Bool-cases (n == x.id)) [
  | inl hit ↦
      rw
        (
          hit,
          absent n ds (
              subst (λ (m : ℕ). All (λ (y : DeliveryRow). y.id ≢ m) ds)
                (sym ((==_iff n x.id).0 hit)) d.0),
        )
        (omega arith)
  | inr other ↦ rw other (count_key n ds d.1)
]
  where
    absent :
        (n : ℕ) (ds : List DeliveryRow)
        → All (λ (y : DeliveryRow). y.id ≢ n) ds
        → count (λ d. n == d.id) ds ≡ 0
    absent n [] h = refl
    absent n (y ∷ ds) h = let ne : y.id ≢ n = h.0 in ground (arith, absent n ds h.1)

count_among :
    (rows ds : List DeliveryRow)
    → Distinct (λ (d : DeliveryRow). d.id) ds
    → count (is_among rows) ds ≤ length rows
count_among [] ds d = rw (count_false ds) (omega arith)
  where
    count_false : (ds : List DeliveryRow) → count (is_among []) ds ≡ 0
    count_false [] = refl
    count_false (x ∷ ds) = count_false ds
count_among (r ∷ rows) ds d = omega (
  arith,
  count_or (λ x. r.id == x.id) (is_among rows) ds,
  count_key r.id ds d,
  count_among rows ds d,
)

length-map : {A B : Type 0} (f : A → B) (xs : List A) → length (map f xs) ≡ length xs
length-map f [] = refl
length-map f (x ∷ xs) = ap suc (length-map f xs)

-- A claim hands out at most `limit` deliveries, and each of them was due: pending, and with its time
-- reached.
pub claim_due_deliveries_due :
    (now limit : ℕ) (db : Db)
    → IsWellFormed db
    → (length (claim_due_deliveries now limit db).0 ≤ limit)
      × All
          (λ (d : Delivery). any (λ r. delivery_is d.id r && is_due now r) db.deliveries ≡ true)
          (claim_due_deliveries now limit db).0
unfolding claim_due_deliveries
claim_due_deliveries_due now limit db w =
    let rows : List DeliveryRow = due_rows now limit db in
    let after : List DeliveryRow = update_where (is_among rows) (claimed now) db.deliveries in
    let few : length rows ≤ limit =
      unfold due_rows in
      omega (arith, length-take limit (sort_by due_le (filter (is_due now) db.deliveries))) in
    (
      omega (
        arith,
        few,
        length-map row_to_delivery (filter (is_among rows) after),
        count_among rows after (
            Distinct-update_where (λ (d : DeliveryRow). d.id) (is_among rows) (claimed now)
              (λ d. refl) db.deliveries w.delivery_ids),
      ),
      All-imp (λ (d : Delivery). any (delivery_is d.id) rows ≡ true)
          (λ (d : Delivery). any (λ r. delivery_is d.id r && is_due now r) db.deliveries ≡ true)
          (claim_due_deliveries now limit db).0 (λ d picked. picked_is_due d.id now limit db picked)
          (handed_is_picked rows now after),
    )
