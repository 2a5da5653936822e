-- ===== src/Secrets/Enabled.antt =====
-- Which source is enabled (webhook_doorman/secrets.py, `resolve`), and what the two tokens are worth.
use webhook_doorman.Prelude.{◌≡◌, refl, ◌↔◌, inl, inr, Bool, true, false, List, [], ◌∷◌}
use webhook_doorman.Prelude.Tests.{Bool-cases, if◌then◌else◌}
use webhook_doorman.Prelude.Lists.{All}
use webhook_doorman.Prelude.Text.{Text, is_empty, strip}
use webhook_doorman.Verification.{get_text}
use webhook_doorman.Config.Source.{SourceConfig, secret_env_names}
use webhook_doorman.Config.Sinks.{SinkSpec, sink_secret_env_names}
use webhook_doorman.Secrets.{
  missing, is_missing, sink_state, resolve_sink, SourceState, source_state, resolve_source,
}

-- Every variable of the list is set, to more than white space.
abbrev pub IsProvided : List (Text × Text) → List Text → Type 0
IsProvided env names = All (λ n. is_empty (strip (get_text n env)) ≡ false) names

missing_iff :
    (env : List (Text × Text)) (names : List Text) → (missing names env ≡ []) ↔ IsProvided env names
unfolding missing
missing_iff env [] = (λ h. tt, λ h. refl)
missing_iff env (n ∷ names) = elim (Bool-cases (is_missing env n)) [
  | inl e ↦ (λ h. absurd (cc (rw e at h)), λ h. absurd (cc (h.0)))
  | inr e ↦
      (λ h. (e, (missing_iff env names).0 (rw e at h)), λ h. rw e ((missing_iff env names).1 h.1))
]

sink_state_iff :
    (k : SinkSpec) (names : List Text) → ((sink_state k names).enabled ≡ true) ↔ (names ≡ [])
sink_state_iff k [] = (λ h. refl, λ h. refl)
sink_state_iff k (n ∷ names) = (λ h. absurd (cc), λ h. absurd (cc))

-- A sink is enabled exactly when every variable it refers to is set.
pub resolve_sink_enabled_iff :
    (env : List (Text × Text)) (k : SinkSpec)
    → ((resolve_sink env k).enabled ≡ true) ↔ IsProvided env (sink_secret_env_names k)
unfolding resolve_sink
resolve_sink_enabled_iff env k =
    let state = sink_state_iff k (missing (sink_secret_env_names k) env) in
    let names = missing_iff env (sink_secret_env_names k) in
    (λ h. names.0 (state.0 h), λ h. state.1 (names.1 h))

module _ (Address Network : Type 0) where
  source_state_iff :
      (s : SourceConfig Address Network) (names : List Text)
      → ((source_state Address Network s names).enabled ≡ true) ↔ (names ≡ [])
  source_state_iff s [] = (λ h. refl, λ h. refl)
  source_state_iff s (n ∷ names) = (λ h. absurd (cc), λ h. absurd (cc))

  enabled_if :
      (b : Bool) (x y : SourceState Address Network)
      → y.enabled ≡ false
      → ((if b then x else y).enabled ≡ true) ↔ ((b ≡ true) × (x.enabled ≡ true))
  enabled_if true x y h = (λ e. (refl, e), λ e. e.1)
  enabled_if false x y h = (λ e. absurd (cc), λ e. absurd (cc (e.0)))

  -- A source is enabled exactly when the configuration enables it and the environment sets every
  -- secret that its verification needs, to more than white space.
  pub resolve_source_enabled_iff :
      (env : List (Text × Text)) (s : SourceConfig Address Network)
      → ((resolve_source Address Network env s).enabled ≡ true)
        ↔ ((s.enabled ≡ true) × IsProvided env (secret_env_names Address Network s.verify))
  unfolding resolve_source
  resolve_source_enabled_iff env s =
      let names : List Text = secret_env_names Address Network s.verify in
      let test = enabled_if s.enabled (source_state Address Network s (missing names env)) _ refl in
      let state = source_state_iff s (missing names env) in
      (
        λ h. ((test.0 h).0, (missing_iff env names).0 (state.0 (test.0 h).1)),
        λ h. test.1 (h.0, state.1 ((missing_iff env names).1 h.1)),
      )
