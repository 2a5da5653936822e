-- ===== src/Filtering/Admission.antt =====
-- What an admitted event has, and which gate a refusal names (webhook_doorman/filtering.py,
-- `evaluate`).
use webhook_doorman.Prelude.{
  ◌≡◌, refl, ◌↔◌, inl, inr, true, false, Option, none, some, List, [], ◌∷◌, arith,
}
use webhook_doorman.Prelude.Tests.{Bool-cases, Option-cases}
use webhook_doorman.Prelude.Lists.{any, All}
use webhook_doorman.Prelude.Text.{Text}
use webhook_doorman.Json.{Value}
use webhook_doorman.Models.{Reason}
use webhook_doorman.Filtering.{
  EventFilter, dig, matches, holds, first_denied, first_unmet, check_deny, check_require, evaluate,
  type_allowed,
}

-- With nothing denied, a refusal is for a requirement.
by_require :
    (d u : Option Text)
    → d ≡ none
    → (check_deny d (check_require u)).admitted ≡ false
    → (check_deny d (check_require u)).reason ≡ some Reason.require
unfolding check_deny check_require
by_require none none e h = absurd (cc)
by_require none (some u) e h = refl
by_require (some d) u e h = absurd (cc)

module _ (container_text : Value → Text) where
  -- The payload has a value at the rule's path, and it is one of the rule's values.
  abbrev pub Carries : Value → Text × List Text → Type 0
  Carries payload rule =
      (v : Value) × (dig payload (rule.0) ≡ some v) × (matches container_text v (rule.1) ≡ true)

  pub holds-Carries :
      (payload : Value) (rule : Text × List Text)
      → holds container_text payload rule ≡ true
      → Carries payload rule
  unfolding holds
  holds-Carries payload (path, values) h = elim (Option-cases (dig payload path)) [
    | inl missing ↦ absurd (cc (rw (missing, holds) at h))
    | inr (v, found) ↦ (v, found, (rw (found, holds) at h))
  ]

  pub Carries-holds :
      (payload : Value) (rule : Text × List Text)
      → Carries payload rule
      → holds container_text payload rule ≡ true
  unfolding holds
  Carries-holds payload (path, values) (v, found, hit) = rw (found, holds) hit

  not_holds :
      (payload : Value) (rule : Text × List Text)
      → ¬ Carries payload rule
      → holds container_text payload rule ≡ false
  not_holds payload rule h = elim (Bool-cases (holds container_text payload rule)) [
    | inl hit ↦ absurd (h (holds-Carries payload rule hit))
    | inr miss ↦ miss
  ]

  holds_not :
      (payload : Value) (rule : Text × List Text)
      → holds container_text payload rule ≡ false
      → ¬ Carries payload rule
  holds_not payload rule h c = cc (h, Carries-holds payload rule c)

  denied_none :
      (rules : List (Text × List Text)) (payload : Value)
      → first_denied container_text rules payload ≡ none
      → All (λ r. ¬ Carries payload r) rules
  unfolding first_denied
  denied_none [] payload h = tt
  denied_none (rule ∷ rules) payload h = elim (Bool-cases (holds container_text payload rule)) [
    | inl hit ↦ absurd (cc (rw hit at h))
    | inr miss ↦ (holds_not payload rule miss, denied_none rules payload (rw miss at h))
  ]

  none_denied :
      (rules : List (Text × List Text)) (payload : Value)
      → All (λ r. ¬ Carries payload r) rules
      → first_denied container_text rules payload ≡ none
  unfolding first_denied
  none_denied [] payload h = refl
  none_denied (rule ∷ rules) payload h =
      rw (not_holds payload rule h.0) (none_denied rules payload h.1)

  unmet_none :
      (rules : List (Text × List Text)) (payload : Value)
      → first_unmet container_text rules payload ≡ none
      → All (Carries payload) rules
  unfolding first_unmet
  unmet_none [] payload h = tt
  unmet_none (rule ∷ rules) payload h = elim (Bool-cases (holds container_text payload rule)) [
    | inl hit ↦ (holds-Carries payload rule hit, unmet_none rules payload (rw hit at h))
    | inr miss ↦ absurd (cc (rw miss at h))
  ]

  none_unmet :
      (rules : List (Text × List Text)) (payload : Value)
      → All (Carries payload) rules
      → first_unmet container_text rules payload ≡ none
  unfolding first_unmet
  none_unmet [] payload h = refl
  none_unmet (rule ∷ rules) payload h =
      rw (Carries-holds payload rule h.0) (none_unmet rules payload h.1)

  -- What an operator reads in the filter: the type is allowed, no denied path carries one of its
  -- values, and every required path does. A missing path is not carried, so it passes the one and
  -- fails the other.
  pub record IsAdmissible (f : EventFilter) (event_type : Text) (payload : Value) : Type 0 where
    pub allowed : type_allowed f.event_types event_type ≡ true
    pub none_denied : All (λ r. ¬ Carries payload r) f.deny
    pub all_required : All (Carries payload) f.require

  admitted_parts :
      (d u : Option Text)
      → (check_deny d (check_require u)).admitted ≡ true
      → (d ≡ none) × (u ≡ none)
  unfolding check_deny check_require
  admitted_parts none none h = (refl, refl)
  admitted_parts none (some u) h = absurd (cc)
  admitted_parts (some d) u h = absurd (cc)

  -- An event is admitted exactly when it is admissible: its type is allowed, no path of `deny`
  -- carries a denied value, and every path of `require` carries a required one.
  pub evaluate_iff :
      (f : EventFilter) (event_type : Text) (payload : Value)
      → ((evaluate container_text f event_type payload).admitted ≡ true)
        ↔ IsAdmissible f event_type payload
  unfolding evaluate
  evaluate_iff f event_type payload = (
    (λ h. elim (Bool-cases (type_allowed f.event_types event_type)) [
      | inl ok ↦
          let parts : (first_denied container_text f.deny payload ≡ none)
              × (first_unmet container_text f.require payload ≡ none) =
            admitted_parts (first_denied container_text f.deny payload)
              (first_unmet container_text f.require payload) (rw ok at h) in
          record {
            allowed = ok;
            none_denied = denied_none f.deny payload parts.0;
            all_required = unmet_none f.require payload parts.1;
          }
      | inr bad ↦ absurd (cc (rw bad at h))
    ]),
    (λ a.
        rw
          (
            a.allowed,
            none_denied f.deny payload a.none_denied,
            none_unmet f.require payload a.all_required,
          )
          (unfold check_deny check_require in refl)),
  )

  any_denied :
      (rules : List (Text × List Text)) (payload : Value)
      → any (holds container_text payload) rules ≡ true
      → (path : Text) × (first_denied container_text rules payload ≡ some path)
  unfolding first_denied
  any_denied [] payload h = absurd (cc)
  any_denied (rule ∷ rules) payload h = elim (Bool-cases (holds container_text payload rule)) [
    | inl hit ↦ (rule.0, rw hit)
    | inr miss ↦ rw miss (any_denied rules payload (ground arith))
  ]

  clear :
      (rules : List (Text × List Text)) (payload : Value)
      → any (holds container_text payload) rules ≡ false
      → first_denied container_text rules payload ≡ none
  unfolding first_denied
  clear [] payload h = refl
  clear (rule ∷ rules) payload h = ground (arith, clear rules payload)

  -- The gates are asked in the order `event_types`, `deny`, `require`: a type that is not allowed
  -- is refused for its type whatever the payload, and a payload with a denied value is refused as
  -- `deny` whether or not it has what `require` asks for. An allowed event without a denied value
  -- is refused as `require` unless it is admitted.
  pub evaluate_order :
      (f : EventFilter) (event_type : Text) (payload : Value)
      → (type_allowed f.event_types event_type ≡ false
          → (evaluate container_text f event_type payload).reason ≡ some Reason.event_type)
        × (type_allowed f.event_types event_type ≡ true
            → any (holds container_text payload) f.deny ≡ true
            → (evaluate container_text f event_type payload).reason ≡ some Reason.deny)
        × (type_allowed f.event_types event_type ≡ true
            → any (holds container_text payload) f.deny ≡ false
            → (evaluate container_text f event_type payload).admitted ≡ false
            → (evaluate container_text f event_type payload).reason ≡ some Reason.require)
  unfolding evaluate check_deny check_require
  evaluate_order f event_type payload = (
    (λ h. rw h),
    (λ ok h.
        let found : (path : Text) × (first_denied container_text f.deny payload ≡ some path) =
          any_denied f.deny payload h in
        rw (ok, found.1)),
    (λ ok h out. rw ok (
        by_require (first_denied container_text f.deny payload)
          (first_unmet container_text f.require payload) (clear f.deny payload h) (rw ok at out))),
  )
