-- ===== src/Store/Invariant.antt =====
-- What the schema of webhook_doorman/store/sqlite.py promises of its tables: primary keys, the
-- unique index on (source, delivery_id), and the two foreign keys. Here the ways in which a
-- statement may change a table; `Store.Reachable` has the statements themselves.
use webhook_doorman.Prelude.{ℕ, suc, ◌<◌, ◌≡◌, ap, ◌≢◌, Bool, true, List, [], ◌∷◌, ◌++◌, arith}
use webhook_doorman.Prelude.Tests.{◌==◌}
use webhook_doorman.Prelude.Lists.{
  any, All, All-append, All-imp, All-update_where, any-append, any-update_where, update_where,
}
use webhook_doorman.Prelude.Distinct.{Distinct, Distinct-append, Distinct-update_where}
use webhook_doorman.Prelude.Text.{Text}
use webhook_doorman.Store.Tables.{
  EventRow, DeliveryRow, DlqRow, Db, event_is, delivery_is, has_event, has_delivery,
}

abbrev pub event_key : EventRow → Text × Text
event_key e = (e.source, e.delivery_id)

pub record IsWellFormed (db : Db) : Type 0 where
  pub event_ids : Distinct (λ (e : EventRow). e.id) db.events
  pub event_keys : Distinct event_key db.events
  pub event_bound : All (λ (e : EventRow). e.id < db.next_event) db.events
  pub delivery_ids : Distinct (λ (d : DeliveryRow). d.id) db.deliveries
  pub delivery_bound : All (λ (d : DeliveryRow). d.id < db.next_delivery) db.deliveries
  pub delivery_events : All (λ (d : DeliveryRow). has_event d.event_id db ≡ true) db.deliveries
  pub dlq_ids : Distinct (λ (q : DlqRow). q.id) db.dlq
  pub dlq_bound : All (λ (q : DlqRow). q.id < db.next_dlq) db.dlq
  pub dlq_deliveries : All (λ (q : DlqRow). has_delivery q.delivery_id db ≡ true) db.dlq

-- An UPDATE of `events` that leaves the keys alone.
module _ (p : EventRow → Bool) (f : EventRow → EventRow)
    (same_id : (e : EventRow) → (f e).id ≡ e.id)
    (same_key : (e : EventRow) → event_key (f e) ≡ event_key e) where
  pub has_event-update :
      (n : ℕ) (es : List EventRow) → any (event_is n) (update_where p f es) ≡ any (event_is n) es
  has_event-update n es =
      any-update_where (event_is n) p f es (λ e. ap (λ (k : ℕ). k == n) (same_id e))

  pub update_events-IsWellFormed :
      (db : Db) → IsWellFormed db → IsWellFormed (record db { events = update_where p f db.events })
  update_events-IsWellFormed db w = record {
    event_ids = Distinct-update_where (λ (e : EventRow). e.id) p f same_id db.events w.event_ids;
    event_keys = Distinct-update_where event_key p f same_key db.events w.event_keys;
    event_bound =
        All-update_where (λ (e : EventRow). e.id < db.next_event) p f db.events
          (λ e _ h. rw (same_id e) h) w.event_bound;
    delivery_ids = w.delivery_ids;
    delivery_bound = w.delivery_bound;
    delivery_events =
        All-imp (λ (d : DeliveryRow). has_event d.event_id db ≡ true)
          (λ (d : DeliveryRow). any (event_is d.event_id) (update_where p f db.events) ≡ true)
          db.deliveries (λ d h. rw (has_event-update d.event_id db.events) h) w.delivery_events;
    dlq_ids = w.dlq_ids;
    dlq_bound = w.dlq_bound;
    dlq_deliveries = w.dlq_deliveries;
  }

-- An UPDATE of `deliveries` that leaves the ids alone.
module _ (p : DeliveryRow → Bool) (f : DeliveryRow → DeliveryRow)
    (same_id : (d : DeliveryRow) → (f d).id ≡ d.id)
    (same_event : (d : DeliveryRow) → (f d).event_id ≡ d.event_id) where
  pub has_delivery-update :
      (n : ℕ) (ds : List DeliveryRow)
      → any (delivery_is n) (update_where p f ds) ≡ any (delivery_is n) ds
  has_delivery-update n ds =
      any-update_where (delivery_is n) p f ds (λ d. ap (λ (k : ℕ). k == n) (same_id d))

  pub update_deliveries-IsWellFormed :
      (db : Db)
      → IsWellFormed db
      → IsWellFormed (record db { deliveries = update_where p f db.deliveries })
  update_deliveries-IsWellFormed db w = record {
    event_ids = w.event_ids;
    event_keys = w.event_keys;
    event_bound = w.event_bound;
    delivery_ids =
        Distinct-update_where (λ (d : DeliveryRow). d.id) p f same_id db.deliveries w.delivery_ids;
    delivery_bound =
        All-update_where (λ (d : DeliveryRow). d.id < db.next_delivery) p f db.deliveries
          (λ d _ h. rw (same_id d) h) w.delivery_bound;
    delivery_events =
        All-update_where (λ (d : DeliveryRow). has_event d.event_id db ≡ true) p f db.deliveries
          (λ d _ h. rw (same_event d) h) w.delivery_events;
    dlq_ids = w.dlq_ids;
    dlq_bound = w.dlq_bound;
    dlq_deliveries =
        All-imp (λ (q : DlqRow). has_delivery q.delivery_id db ≡ true)
          (λ (q : DlqRow). any (delivery_is q.delivery_id) (update_where p f db.deliveries) ≡ true)
          db.dlq (λ q h. rw (has_delivery-update q.delivery_id db.deliveries) h) w.dlq_deliveries;
  }

-- An id below the next one is not the next one.
pub ids_ne {ℓ} :
    {A : Type ℓ} (id : A → ℕ) (n : ℕ) (xs : List A)
    → All (λ x. id x < n) xs
    → All (λ x. id x ≢ n) xs
ids_ne id n [] h = tt
ids_ne id n (x ∷ xs) h =
    ((λ e. let below : id x < n = h.0 in absurd (omega arith)), ids_ne id n xs h.1)

pub ids_lt_suc {ℓ} :
    {A : Type ℓ} (id : A → ℕ) (n : ℕ) (xs : List A)
    → All (λ x. id x < n) xs
    → All (λ x. id x < suc n) xs
ids_lt_suc id n [] h = tt
ids_lt_suc id n (x ∷ xs) h = (let below : id x < n = h.0 in omega arith, ids_lt_suc id n xs h.1)

-- A test that found a row finds one among more rows.
pub any_grows {ℓ} :
    {A : Type ℓ} (q : A → Bool) (xs ys : List A) → any q xs ≡ true → any q (xs ++ ys) ≡ true
any_grows q xs ys h = rw (any-append q xs ys, h)

-- An INSERT into `deliveries` under the next id, for an event that is there.
pub append_delivery-IsWellFormed :
    (db : Db) (d : DeliveryRow)
    → d.id ≡ db.next_delivery
    → has_event d.event_id db ≡ true
    → IsWellFormed db
    → IsWellFormed
        (record db { deliveries = db.deliveries ++ d ∷ []; next_delivery = suc db.next_delivery })
append_delivery-IsWellFormed db d fresh there w = record {
  event_ids = w.event_ids;
  event_keys = w.event_keys;
  event_bound = w.event_bound;
  delivery_ids =
      Distinct-append (λ (d : DeliveryRow). d.id) db.deliveries d w.delivery_ids
        (rw fresh
          (ids_ne (λ (d : DeliveryRow). d.id) db.next_delivery db.deliveries w.delivery_bound));
  delivery_bound =
      All-append (λ (d : DeliveryRow). d.id < suc db.next_delivery) db.deliveries (d ∷ [])
        (ids_lt_suc (λ (d : DeliveryRow). d.id) db.next_delivery db.deliveries w.delivery_bound)
        (omega arith, tt);
  delivery_events =
      All-append (λ (d : DeliveryRow). has_event d.event_id db ≡ true) db.deliveries (d ∷ [])
        w.delivery_events (there, tt);
  dlq_ids = w.dlq_ids;
  dlq_bound = w.dlq_bound;
  dlq_deliveries =
      All-imp (λ (q : DlqRow). has_delivery q.delivery_id db ≡ true)
        (λ (q : DlqRow). any (delivery_is q.delivery_id) (db.deliveries ++ d ∷ []) ≡ true) db.dlq
        (λ q h. any_grows (delivery_is q.delivery_id) db.deliveries (d ∷ []) h) w.dlq_deliveries;
}

-- An INSERT into `events` under the next id and a key that no row has.
pub append_event-IsWellFormed :
    (db : Db) (e : EventRow)
    → e.id ≡ db.next_event
    → All (λ (x : EventRow). event_key x ≢ event_key e) db.events
    → IsWellFormed db
    → IsWellFormed (record db { events = db.events ++ e ∷ []; next_event = suc db.next_event })
append_event-IsWellFormed db e fresh new w = record {
  event_ids =
      Distinct-append (λ (e : EventRow). e.id) db.events e w.event_ids
        (rw fresh (ids_ne (λ (e : EventRow). e.id) db.next_event db.events w.event_bound));
  event_keys = Distinct-append event_key db.events e w.event_keys new;
  event_bound =
      All-append (λ (e : EventRow). e.id < suc db.next_event) db.events (e ∷ [])
        (ids_lt_suc (λ (e : EventRow). e.id) db.next_event db.events w.event_bound)
        (omega arith, tt);
  delivery_ids = w.delivery_ids;
  delivery_bound = w.delivery_bound;
  delivery_events =
      All-imp (λ (d : DeliveryRow). has_event d.event_id db ≡ true)
        (λ (d : DeliveryRow). any (event_is d.event_id) (db.events ++ e ∷ []) ≡ true) db.deliveries
        (λ d h. any_grows (event_is d.event_id) db.events (e ∷ []) h) w.delivery_events;
  dlq_ids = w.dlq_ids;
  dlq_bound = w.dlq_bound;
  dlq_deliveries = w.dlq_deliveries;
}

-- An INSERT into `dlq` under the next id, for a delivery that is there.
pub append_dlq-IsWellFormed :
    (db : Db) (q : DlqRow)
    → q.id ≡ db.next_dlq
    → has_delivery q.delivery_id db ≡ true
    → IsWellFormed db
    → IsWellFormed (record db { dlq = db.dlq ++ q ∷ []; next_dlq = suc db.next_dlq })
append_dlq-IsWellFormed db q fresh there w = record {
  event_ids = w.event_ids;
  event_keys = w.event_keys;
  event_bound = w.event_bound;
  delivery_ids = w.delivery_ids;
  delivery_bound = w.delivery_bound;
  delivery_events = w.delivery_events;
  dlq_ids =
      Distinct-append (λ (q : DlqRow). q.id) db.dlq q w.dlq_ids
        (rw fresh (ids_ne (λ (q : DlqRow). q.id) db.next_dlq db.dlq w.dlq_bound));
  dlq_bound =
      All-append (λ (q : DlqRow). q.id < suc db.next_dlq) db.dlq (q ∷ [])
        (ids_lt_suc (λ (q : DlqRow). q.id) db.next_dlq db.dlq w.dlq_bound) (omega arith, tt);
  dlq_deliveries =
      All-append (λ (q : DlqRow). has_delivery q.delivery_id db ≡ true) db.dlq (q ∷ [])
        w.dlq_deliveries (there, tt);
}
