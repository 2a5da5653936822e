-- ===== src/App/Door.antt =====
-- Which request gets past the door of a source (webhook_doorman/app.py, `build_source_route`), and
-- which source has a door at all.
use webhook_doorman.Prelude.{
  ℕ, ◌≡◌, refl, ap, ◌≢◌, ◌↔◌, ◌⊎◌, inl, inr, Bool, true, false, Option, none, some, List, arith,
}
use webhook_doorman.Prelude.Tests.{Bool-cases}
use webhook_doorman.Prelude.Text.{Text}
use webhook_doorman.Json.{Value}
use webhook_doorman.Models.{InboundEvent}
use webhook_doorman.Redaction.Stored.{redact_bytes}
use webhook_doorman.Store.Ingest.{is_bound}
use webhook_doorman.Parsers.Event.{ParsedEvent}
use webhook_doorman.Parsers.Registry.{parse}
use webhook_doorman.Config.Source.{SourceConfig, secret_env_names}
use webhook_doorman.Secrets.{SourceState, resolve_source}
use webhook_doorman.Secrets.Enabled.{IsProvided, resolve_source_enabled_iff}
use webhook_doorman.Engine.Setup.{Setup, EngineState}
use webhook_doorman.App.Readable.{
  IsReadable, IsForged, IsGenuine, IsUnverified, IsVerified, unreadable_iff, IsUnverified-IsForged,
  IsVerified-IsGenuine,
}
use webhook_doorman.App.Handler.{
  Request, Reply, Platform, handler, handle_enabled, handle_body, handle_verified, handle_safe,
  handle_parsed, handle_typed, ingest_built, built, read_body, verify_request, lowered_headers,
  count_classes, classes_of,
}

-- An answer of the door.
abbrev pub IsRejected : Reply → Type 0
IsRejected (Reply.rejected n) = Unit {0}
IsRejected (Reply.answered r) = ⊥
IsRejected Reply.raised = ⊥
IsRejected Reply.unfollowed = ⊥

module _ (Address Network : Type 0) (p : Platform Address Network) (u : Setup) where
  ingest_built-not-IsRejected :
      (o : Option InboundEvent) (now : ℕ) (s : EngineState)
      → ¬ IsRejected (ingest_built Address Network p u o now s).0
  ingest_built-not-IsRejected none now s h = h
  ingest_built-not-IsRejected (some ev) now s h = elim (Bool-cases (is_bound ev)) [
    | inl bound ↦ (rw bound at h)
    | inr unbound ↦ (rw unbound at h)
  ]

  typed-not-IsRejected :
      (source : SourceConfig Address Network) (body : List ℕ) (headers : List (Text × Text))
      (parsed : ParsedEvent) (v : Value) (now : ℕ) (s : EngineState)
      → ¬ IsRejected (handle_typed Address Network p u source body headers parsed v now s).0
  unfolding handle_typed
  typed-not-IsRejected source body headers parsed (Value.str t) now s h =
      ingest_built-not-IsRejected (built Address Network p u source body headers parsed t now) now
        (count_classes source.name (classes_of Address Network p u source parsed) s) h
  typed-not-IsRejected source body headers parsed Value.null now s h = h
  typed-not-IsRejected source body headers parsed (Value.bool b) now s h = h
  typed-not-IsRejected source body headers parsed (Value.num n) now s h = h
  typed-not-IsRejected source body headers parsed (Value.arr items) now s h = h
  typed-not-IsRejected source body headers parsed (Value.obj fields) now s h = h

  parsed-not-IsRejected :
      (source : SourceConfig Address Network) (body : List ℕ) (headers : List (Text × Text))
      (parsed : Option ParsedEvent) (now : ℕ) (s : EngineState)
      → ¬ IsRejected (handle_parsed Address Network p u source body headers parsed now s).0
  parsed-not-IsRejected source body headers none now s h = h
  parsed-not-IsRejected source body headers (some parsed) now s h =
      typed-not-IsRejected source body headers parsed parsed.event_type now s h

  safe-not-IsRejected :
      (source : SourceConfig Address Network) (body : Option (List ℕ))
      (headers : List (Text × Text)) (now : ℕ) (s : EngineState)
      → ¬ IsRejected (handle_safe Address Network p u source body headers now s).0
  safe-not-IsRejected source none headers now s h = h
  safe-not-IsRejected source (some body) headers now s h =
      parsed-not-IsRejected source body headers (parse p.loads p.parsers source.parser body headers)
        now s h

  verified-not_rejected :
      (source : SourceConfig Address Network) (body : List ℕ) (r : Request) (now : ℕ)
      (s : EngineState) (code : ℕ)
      → (handle_verified Address Network p u source body r now s).0 ≢ Reply.rejected code
  unfolding handle_verified
  verified-not_rejected source body r now s code e =
      safe-not-IsRejected source (redact_bytes body u.secret_values)
        (lowered_headers Address Network p u r.headers) now s (rw e tt)

  rejected_ne : (a b : ℕ) → a ≢ b → Reply.rejected a ≢ Reply.rejected b
  rejected_ne a b h e = h (cc)

  body_large :
      (source : SourceConfig Address Network) (o : Option (List ℕ)) (r : Request) (now : ℕ)
      (s : EngineState)
      → ((handle_body Address Network p u source o r now s).0 ≡ Reply.rejected 413) ↔ (o ≡ none)
  body_large source none r now s = (λ h. refl, λ h. refl)
  body_large source (some body) r now s =
      elim (Bool-cases (verify_request Address Network p u source body r).ok) [
        | inl ok ↦
            rw ok (λ h. absurd (verified-not_rejected source body r now s 413 h), λ h. absurd (cc))
        | inr bad ↦ elim (Bool-cases (verify_request Address Network p u source body r).raised) [
          | inl broken ↦ rw (bad, broken) (λ h. absurd (cc), λ h. absurd (cc))
          | inr false_one ↦
              rw (bad, false_one)
                (λ h. absurd (rejected_ne 401 413 (λ e. omega arith) h), λ h. absurd (cc))
        ]
      ]

  other_body :
      (source : SourceConfig Address Network) (body body' : List ℕ) (r : Request)
      → some body ≡ some body'
      → verify_request Address Network p u source body r
        ≡ verify_request Address Network p u source body' r
  other_body source body body' r e =
      let same : body ≡ body' = cc in ap (λ b. verify_request Address Network p u source b r) same

  body-IsUnverified :
      (source : SourceConfig Address Network) (o : Option (List ℕ)) (r : Request) (now : ℕ)
      (s : EngineState)
      → ((handle_body Address Network p u source o r now s).0 ≡ Reply.rejected 401)
        ↔ IsUnverified Address Network p u source o r
  body-IsUnverified source none r now s =
      (λ h. absurd (rejected_ne 413 401 (λ e. omega arith) h), λ h. absurd (cc (h.1)))
  body-IsUnverified source (some body) r now s =
      elim (Bool-cases (verify_request Address Network p u source body r).ok) [
        | inl ok ↦ rw ok (
          λ h. absurd (verified-not_rejected source body r now s 401 h),
          λ h. absurd (cc (other_body source body h.0 r h.1, ok, h.2)),
        )
        | inr bad ↦ elim (Bool-cases (verify_request Address Network p u source body r).raised) [
          | inl broken ↦
              rw (bad, broken)
                (λ h. absurd (cc), λ h. absurd (cc (other_body source body h.0 r h.1, broken, h.3)))
          | inr whole ↦ rw (bad, whole) (λ h. (body, refl, bad, whole), λ h. refl)
        ]
      ]

  body_not_503 :
      (source : SourceConfig Address Network) (o : Option (List ℕ)) (r : Request) (now : ℕ)
      (s : EngineState)
      → (handle_body Address Network p u source o r now s).0 ≢ Reply.rejected 503
  body_not_503 source none r now s h = rejected_ne 413 503 (λ e. omega arith) h
  body_not_503 source (some body) r now s h =
      elim (Bool-cases (verify_request Address Network p u source body r).ok) [
        | inl ok ↦ verified-not_rejected source body r now s 503 (rw ok at h)
        | inr bad ↦ elim (Bool-cases (verify_request Address Network p u source body r).raised) [
          | inl broken ↦ absurd (cc (rw (bad, broken) at h))
          | inr whole ↦ rejected_ne 401 503 (λ e. omega arith) (rw (bad, whole) at h)
        ]
      ]

  body_stores :
      (source : SourceConfig Address Network) (o : Option (List ℕ)) (r : Request) (now : ℕ)
      (s : EngineState)
      → IsVerified Address Network p u source o r
        ⊎ ((handle_body Address Network p u source o r now s).1.db ≡ s.db)
  body_stores source none r now s = inr refl
  body_stores source (some body) r now s =
      elim (Bool-cases (verify_request Address Network p u source body r).ok) [
        | inl ok ↦ inl (body, refl, ok)
        | inr bad ↦ elim (Bool-cases (verify_request Address Network p u source body r).raised) [
          | inl broken ↦ inr (rw (bad, broken) refl)
          | inr whole ↦ inr (rw (bad, whole) refl)
        ]
      ]

  enabled_door :
      (b : Bool) (source : SourceConfig Address Network) (r : Request) (now : ℕ) (s : EngineState)
      → (((handle_enabled Address Network p u b source r now s).0 ≡ Reply.rejected 503)
          ↔ (b ≡ false))
        × (((handle_enabled Address Network p u b source r now s).0 ≡ Reply.rejected 413)
            ↔ ((b ≡ true) × (¬ IsReadable Address Network p u r)))
        × (((handle_enabled Address Network p u b source r now s).0 ≡ Reply.rejected 401)
            ↔ ((b ≡ true) × IsForged Address Network p u source r))
  enabled_door false source r now s = (
    (λ h. refl, λ h. refl),
    (λ h. absurd (rejected_ne 503 413 (λ e. omega arith) h), λ h. absurd (cc (h.0))),
    (λ h. absurd (rejected_ne 503 401 (λ e. omega arith) h), λ h. absurd (cc (h.0))),
  )
  enabled_door true source r now s =
      let o : Option (List ℕ) = read_body Address Network p u r in
      (
        (λ h. absurd (body_not_503 source o r now s h), λ h. absurd (cc)),
        (
          λ h. (refl, (unreadable_iff Address Network p u r).0 ((body_large source o r now s).0 h)),
          λ h. (body_large source o r now s).1 ((unreadable_iff Address Network p u r).1 h.1),
        ),
        (
          λ h. (
            refl,
            (IsUnverified-IsForged Address Network p u source r).0
                ((body-IsUnverified source o r now s).0 h),
          ),
          λ h.
              (body-IsUnverified source o r now s).1
                ((IsUnverified-IsForged Address Network p u source r).1 h.1),
        ),
      )

  enabled_stores :
      (b : Bool) (source : SourceConfig Address Network) (r : Request) (now : ℕ) (s : EngineState)
      → ((b ≡ true) × IsGenuine Address Network p u source r)
        ⊎ ((handle_enabled Address Network p u b source r now s).1.db ≡ s.db)
  enabled_stores false source r now s = inr refl
  enabled_stores true source r now s =
      elim (body_stores source (read_body Address Network p u r) r now s) [
        | inl genuine ↦ inl (refl, IsVerified-IsGenuine Address Network p u source r genuine)
        | inr same ↦ inr same
      ]

  -- Each refusal has its one cause: 503 exactly for a disabled source; 413 exactly for an enabled one
  -- whose request declares a length that is over the cap or is no number, or sends more bytes than the
  -- cap; 401 exactly for an enabled one with a readable body, where checking all the bytes that were
  -- sent gives a result and that is no pass. And every request either came to an enabled source, with
  -- a readable body that verifies, or leaves the tables as they are.
  pub handler_door :
      (state : SourceState Address Network) (r : Request) (now : ℕ) (s : EngineState)
      → (((handler Address Network p u state r now s).0 ≡ Reply.rejected 503)
          ↔ (state.enabled ≡ false))
        × (((handler Address Network p u state r now s).0 ≡ Reply.rejected 413)
            ↔ ((state.enabled ≡ true) × (¬ IsReadable Address Network p u r)))
        × (((handler Address Network p u state r now s).0 ≡ Reply.rejected 401)
            ↔ ((state.enabled ≡ true) × IsForged Address Network p u state.config r))
        × (((state.enabled ≡ true) × IsGenuine Address Network p u state.config r)
            ⊎ ((handler Address Network p u state r now s).1.db ≡ s.db))
  unfolding handler
  handler_door state r now s =
      let door = enabled_door state.enabled state.config r now s in
      (door.0, door.1, door.2, enabled_stores state.enabled state.config r now s)

  enabled_closed :
      (b : Bool) (source : SourceConfig Address Network) (r : Request) (now : ℕ) (s : EngineState)
      → b ≢ true
      → ((handle_enabled Address Network p u b source r now s).0 ≡ Reply.rejected 503)
        × ((handle_enabled Address Network p u b source r now s).1.db ≡ s.db)
  enabled_closed false source r now s h = (refl, refl)
  enabled_closed true source r now s h = absurd (h refl)

  -- An absent secret closes the door. Where a variable that a source's verification needs is unset, or
  -- blank, in the environment that the source is resolved in, every request to it is answered 503 and
  -- leaves the tables as they are.
  pub resolve_source_closed :
      (env : List (Text × Text)) (source : SourceConfig Address Network) (r : Request) (now : ℕ)
      (s : EngineState)
      → ¬ IsProvided env (secret_env_names Address Network source.verify)
      → ((handler Address Network p u (resolve_source Address Network env source) r now s).0
          ≡ Reply.rejected 503)
        × ((handler Address Network p u (resolve_source Address Network env source) r now s).1.db
            ≡ s.db)
  unfolding handler
  resolve_source_closed env source r now s h =
      enabled_closed (resolve_source Address Network env source).enabled
        (resolve_source Address Network env source).config r now s
        (λ on. h ((resolve_source_enabled_iff Address Network env source).0 on).1)
