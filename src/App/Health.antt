-- ===== src/App/Health.antt =====
-- The status and the metrics routes (webhook_doorman/app.py, `build_health_route` and
-- `build_metrics_route`). Rendering the exposition is not modelled: an answer holds what is rendered.
-- The version, which is a constant, and the detector's report on itself are left out.
use webhook_doorman.Prelude.{
  ℕ, ◌≡◌, refl, ◌↔◌, ◌⊎◌, inl, inr, Bool, true, false, Option, none, some, List, [], ◌∷◌, ◌++◌, map,
  arith,
}
use webhook_doorman.Prelude.Tests.{if◌then◌else◌, Bool-cases, is_some}
use webhook_doorman.Prelude.Lists.{any}
use webhook_doorman.Prelude.Text.{Text, codes}
use webhook_doorman.Verification.{secure_compare}
use webhook_doorman.Secrets.{
  DisabledReason, SourceState, SinkState, Resolved, unverified_source_names, admin_token,
  metrics_token,
}
use webhook_doorman.Config.Sinks.{
  SinkKind, matrix, ntfy, vikunja_task, http, discord, slack, apprise,
}
use webhook_doorman.App.Handler.{strategy_name}
use webhook_doorman.Store.Listing.{Stats}
use webhook_doorman.App.Admin.{presented_token}

-- What the route gets of the engine: there is none, its store fails, or it answers.
pub data Probe : Type 0 where
  no_engine : Probe
  failing : Probe
  serving : Stats → Probe

pub data Degraded : Type 0 where
  no_sources_enabled store_unavailable : Degraded

pub record SourceLine : Type 0 where
  pub name : Text
  pub enabled : Bool
  pub path : Text
  pub strategy : Text
  pub reason : Option DisabledReason

pub record SinkLine : Type 0 where
  pub name : Text
  pub enabled : Bool
  pub kind : Text
  pub reason : Option DisabledReason

pub record Health : Type 0 where
  pub status_code : ℕ
  pub status : Text
  pub sources : List SourceLine
  pub sinks : List SinkLine
  pub unverified_sources : List Text
  pub replay_enabled : Bool
  pub stats : Option Stats
  pub degraded : List Degraded

pub data MetricsReply : Type 0 where
  exposition : Option Stats → MetricsReply
  unauthorized : MetricsReply

abbrev pub stats_of : Probe → Option Stats
stats_of Probe.no_engine = none
stats_of Probe.failing = none
stats_of (Probe.serving stats) = some stats

abbrev pub store_degraded : Probe → List Degraded
store_degraded Probe.failing = Degraded.store_unavailable ∷ []
store_degraded Probe.no_engine = []
store_degraded (Probe.serving stats) = []

abbrev pub health_code : List Degraded → ℕ
health_code [] = 200
health_code (d ∷ degraded) = 503

abbrev pub health_status : List Degraded → Text
health_status [] = codes "ok"
health_status (d ∷ degraded) = codes "degraded"

-- The reason of what is not enabled.
abbrev pub reason_of : Bool → Option DisabledReason → Option DisabledReason
reason_of true reason = none
reason_of false reason = reason

-- `state.config.type`.
abbrev pub kind_name : SinkKind → Text
kind_name (matrix s) = codes "matrix"
kind_name (ntfy s) = codes "ntfy"
kind_name (vikunja_task s) = codes "vikunja_task"
kind_name (http s) = codes "http"
kind_name (discord s) = codes "discord"
kind_name (slack s) = codes "slack"
kind_name (apprise s) = codes "apprise"

abbrev pub sink_line : SinkState → SinkLine
sink_line k = record {
  name = k.config.base.name;
  enabled = k.enabled;
  kind = kind_name k.config.kind;
  reason = reason_of k.enabled k.disabled_reason;
}

module _ (Address Network : Type 0) (resolved : Resolved Address Network) where
  abbrev pub source_line : SourceState Address Network → SourceLine
  source_line s = record {
    name = s.config.name;
    enabled = s.enabled;
    path = s.config.path;
    strategy = strategy_name s.config.verify;
    reason = reason_of s.enabled s.disabled_reason;
  }

  abbrev pub is_on : SourceState Address Network → Bool
  is_on s = s.enabled

  -- What keeps the router from doing its job at all.
  unfoldable pub degradations : Probe → List Degraded
  degradations probe =
      (if any is_on resolved.sources then [] else Degraded.no_sources_enabled ∷ [])
      ++ store_degraded probe

  unfoldable pub health : Probe → Health
  unfolding degradations
  health probe = record {
    status_code = health_code (degradations probe);
    status = health_status (degradations probe);
    sources = map source_line resolved.sources;
    sinks = map sink_line resolved.sinks;
    unverified_sources = unverified_source_names Address Network resolved;
    replay_enabled = is_some (admin_token Address Network resolved);
    stats = stats_of probe;
    degraded = degradations probe;
  }

  abbrev pub gated : Option Text → Text → Probe → MetricsReply
  gated none authorization probe = MetricsReply.exposition (stats_of probe)
  gated (some expected) authorization probe =
      if secure_compare expected (presented_token authorization)
      then MetricsReply.exposition (stats_of probe)
      else MetricsReply.unauthorized

  unfoldable pub metrics_route : Text → Probe → MetricsReply
  unfolding presented_token
  metrics_route authorization probe =
      gated (metrics_token Address Network resolved) authorization probe

  abbrev pub IsFailing : Probe → Type 0
  IsFailing probe = probe ≡ Probe.failing

  unavailable_iff : (probe : Probe) → (health_code (store_degraded probe) ≡ 503) ↔ IsFailing probe
  unavailable_iff Probe.failing = (λ h. refl, λ h. refl)
  unavailable_iff Probe.no_engine = (λ h. absurd (omega arith), λ h. absurd (cc))
  unavailable_iff (Probe.serving stats) = (λ h. absurd (omega arith), λ h. absurd (cc))

  -- The status route answers 503 exactly when no source is enabled or the store fails: one disabled
  -- source among others does not do it.
  pub health_degraded_iff :
      (probe : Probe)
      → ((health probe).status_code ≡ 503)
        ↔ ((any is_on resolved.sources ≡ false) ⊎ IsFailing probe)
  unfolding health degradations
  health_degraded_iff probe = elim (Bool-cases (any is_on resolved.sources)) [
    | inl on ↦ rw on (
      λ h. inr ((unavailable_iff probe).0 h),
      λ h. elim h [ inl bad ↦ absurd (cc) | inr fails ↦ (unavailable_iff probe).1 fails ],
    )
    | inr off ↦ rw off (λ h. inl refl, λ h. refl)
  ]
