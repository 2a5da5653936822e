-- ===== src/App/Decided.antt =====
-- What is stored of a request (webhook_doorman/app.py, `build_source_route`), and that the answer to
-- it is true.
use webhook_doorman.Prelude.{
  ℕ, ◌≡◌, refl, ◌⊎◌, ◌∙◌, subst, inl, inr, Bool, true, false, not, ◌&&◌, Option, none, some, List,
  [], ◌∷◌,
}
use webhook_doorman.Prelude.Tests.{if◌then◌else◌, Bool-cases}
use webhook_doorman.Prelude.Lists.{All}
use webhook_doorman.Prelude.Text.{Text}
use webhook_doorman.Json.{Value, Fields}
use webhook_doorman.Models.{InboundEvent, FilterVerdict, is_received, is_filtered}
use webhook_doorman.Filtering.{evaluate, route}
use webhook_doorman.Redaction.{redact_json}
use webhook_doorman.Redaction.Headers.{IsBlanked, redact_headers_lem}
use webhook_doorman.Parsers.Event.{ParsedEvent}
use webhook_doorman.Parsers.Registry.{decode}
use webhook_doorman.Config.Source.{SourceConfig, verify_header, is_unverified}
use webhook_doorman.Engine.Setup.{Setup}
use webhook_doorman.App.Event.{
  Decision, Draft, all_refused, decide, decide_event, event_of, capped_event, build_event, nowhere,
}
use webhook_doorman.App.DeliveryId.{compute_delivery_id}
use webhook_doorman.App.Handler.{Platform, built, draft_of}

-- The status agrees with the sinks: `filtered` means none, with a reason, and `received` has no reason.
pub record IsConsistent (d : Decision) : Type 0 where
  pub filtered_sinks : is_filtered d.status ≡ true → d.sinks ≡ []
  pub known : (is_received d.status ≡ true) ⊎ (is_filtered d.status ≡ true)

all_refused-sinks :
    (sinks : List Text) (refused : List (Text × FilterVerdict))
    → all_refused sinks refused ≡ true
    → sinks ≡ []
all_refused-sinks sinks [] h = absurd (cc)
all_refused-sinks [] (r ∷ refused) h = refl
all_refused-sinks (s ∷ sinks) (r ∷ refused) h = absurd (cc)

decide-IsConsistent :
    (v : FilterVerdict) (routed : List Text × List (Text × FilterVerdict))
    → (v.admitted ≡ false → routed.0 ≡ [])
    → IsConsistent (decide v routed) × ((decide v routed).sinks ≡ routed.0)
unfolding decide
decide-IsConsistent v (sinks, refused) none_if = elim (Bool-cases v.admitted) [
  | inl on ↦ elim (Bool-cases (all_refused sinks refused)) [
    | inl all ↦
        rw (on, all)
          (
            record { filtered_sinks = λ h. all_refused-sinks sinks refused all; known = inr refl },
            refl,
          )
    | inr some_taken ↦
        rw (on, some_taken) (record { filtered_sinks = λ h. absurd (cc); known = inl refl }, refl)
  ]
  | inr off ↦ rw off (record { filtered_sinks = λ h. none_if off; known = inr refl }, refl)
]

pub capped_inversion :
    (Address Network : Type 0) (container_text : Value → Text)
    (source : SourceConfig Address Network) (draft : Draft Address Network container_text)
    (d : Decision) (summary : Option Text) (context : Option Fields) (ev : InboundEvent)
    → capped_event Address Network container_text source draft d summary context ≡ some ev
    → (t : Text) × (fields : Fields) × (event_of Address Network container_text source draft d t
          fields
        ≡ ev)
capped_inversion A N f source draft d none context ev h = absurd (cc)
capped_inversion A N f source draft d (some t) none ev h = absurd (cc)
capped_inversion A N f source draft d (some t) (some fields) ev h = (t, fields, cc)

module _ (Address Network : Type 0) (p : Platform Address Network) (u : Setup)
    (source : SourceConfig Address Network) (body : List ℕ) (headers : List (Text × Text))
    (parsed : ParsedEvent) (event_type : Text) where
  abbrev pub kept_payload : Value
  kept_payload = redact_json (decode p.loads body) u.secret_values

  -- The sinks that get the event: none unless the parser found it actionable and the source's filter
  -- admits it, and then those whose route takes it.
  abbrev pub taken_by : List Text
  taken_by =
      if parsed.actionable
        && (evaluate u.container_text source.filter.gates event_type kept_payload).admitted
      then (route u.container_text source.sinks event_type kept_payload).0
      else []

  pub record IsStored (ev : InboundEvent) : Type 0 where
    pub named : ev.source ≡ source.name
    pub redacted_body : ev.body ≡ body
    pub keyed : ev.delivery_id ≡ compute_delivery_id p.lower p.sha256 source.id_header headers body
    pub says_verified : ev.verified ≡ not (is_unverified Address Network source.verify)
    pub blanked :
        All (IsBlanked p.lower (verify_header Address Network source.verify ∷ [])) ev.headers
    pub routed : ev.sinks ≡ taken_by
    pub untrusted_only : source.untrusted ≡ false → ev.untrusted_fields ≡ []
    pub filtered_sinks : is_filtered ev.status ≡ true → ev.sinks ≡ []
    pub known : (is_received ev.status ≡ true) ⊎ (is_filtered ev.status ≡ true)

  routed_or_nowhere :
      (actionable : Bool) (v : FilterVerdict) (taken : List Text × List (Text × FilterVerdict))
      → (v.admitted ≡ false
          → (if actionable && v.admitted then taken else nowhere Address Network u.container_text).0
            ≡ [])
        × ((if actionable && v.admitted then taken else nowhere Address Network u.container_text).0
            ≡ (if actionable && v.admitted then taken.0 else []))
  routed_or_nowhere true v taken = elim (Bool-cases v.admitted) [
    | inl on ↦ rw on (λ h. absurd (cc), refl)
    | inr off ↦ rw off (λ h. refl, refl)
  ]
  routed_or_nowhere false v taken = (λ h. refl, refl)

  decide_event_lem :
      (now : ℕ)
      → IsConsistent (
          decide_event Address Network u.container_text source parsed.actionable event_type
            kept_payload)
        × ((decide_event Address Network u.container_text source parsed.actionable event_type
              kept_payload).sinks
            ≡ taken_by)
  unfolding decide_event
  decide_event_lem now =
      let v = evaluate u.container_text source.filter.gates event_type kept_payload in
      let split =
        routed_or_nowhere parsed.actionable v
          (route u.container_text source.sinks event_type kept_payload) in
      let decided = decide-IsConsistent v _ split.0 in (decided.0, decided.1 ∙ split.1)

  -- What the handler makes of a body that is redacted already, when it makes an event of it: the event
  -- is the source's, has that body, the delivery id that the headers and the body give, and says whether
  -- the source verifies; a header that is a credential
  -- by its name is blanked; its sinks are none unless the parser found it actionable and the filter
  -- admits it, and then those whose route takes it; it arrives as `received` or as `filtered`, and a
  -- filtered one has no sinks; one of a trusted source has no untrusted fields.
  pub built-IsStored :
      (now : ℕ) (ev : InboundEvent)
      → built Address Network p u source body headers parsed event_type now ≡ some ev
      → IsStored ev
  unfolding built build_event draft_of
  built-IsStored now ev h =
      let (t, fields, same) =
        capped_inversion Address Network u.container_text source _ _ _ _ ev h in
      let decided = decide_event_lem now in
      subst IsStored same (record {
        named = refl;
        redacted_body = refl;
        keyed = refl;
        says_verified = refl;
        blanked =
            (redact_headers_lem p.lower headers (verify_header Address Network source.verify ∷ [])
              u.secret_values).1;
        routed = decided.1;
        untrusted_only = λ e. rw e refl;
        filtered_sinks = decided.0.filtered_sinks;
        known = decided.0.known;
      })
