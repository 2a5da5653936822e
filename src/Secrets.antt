-- ===== src/Secrets.antt =====
-- Binding a configuration to the environment (webhook_doorman/secrets.py). The environment is a
-- dictionary of texts, and a variable that is not in it reads as the empty text.
pub mod Enabled
pub mod Covered
use webhook_doorman.Prelude.{
  ℕ, Bool, true, false, not, ◌&&◌, ◌||◌, Option, none, some, List, [], ◌∷◌, map,
}
use webhook_doorman.Prelude.Tests.{if◌then◌else◌, ltb}
use webhook_doorman.Prelude.Lists.{length, filter}
use webhook_doorman.Prelude.Text.{Text, is_empty, strip}
use webhook_doorman.Verification.{get_text}
use webhook_doorman.Config.Source.{SourceConfig, secret_env_names, is_unverified}
use webhook_doorman.Config.Sinks.{SinkSpec, sink_secret_env_names}
use webhook_doorman.Config.Check.{Config, required_env_names}

pub data DisabledReason : Type 0 where
  in_config : DisabledReason
  missing_variables : List Text → DisabledReason

pub record SinkState : Type 0 where
  pub config : SinkSpec
  pub enabled : Bool
  pub disabled_reason : Option DisabledReason
  pub missing_env : List Text

-- `not env.get(n, "").strip()`.
abbrev pub is_missing : List (Text × Text) → Text → Bool
is_missing env n = is_empty (strip (get_text n env))

unfoldable pub missing : List Text → List (Text × Text) → List Text
missing [] env = []
missing (n ∷ names) env =
    let rest = missing names env in if is_missing env n then n ∷ rest else rest

abbrev pub sink_state : SinkSpec → List Text → SinkState
sink_state sink [] = record {
  config = sink;
  enabled = true;
  disabled_reason = none;
  missing_env = [];
}
sink_state sink (n ∷ names) = record {
  config = sink;
  enabled = false;
  disabled_reason = some (DisabledReason.missing_variables (n ∷ names));
  missing_env = n ∷ names;
}

unfoldable pub resolve_sink : List (Text × Text) → SinkSpec → SinkState
unfolding missing
resolve_sink env sink = sink_state sink (missing (sink_secret_env_names sink) env)

-- A token that is blank or short is as good as none.
unfoldable pub usable_token : ℕ → Text → Option Text
usable_token min_length value =
    if is_empty (strip value) || ltb (length value) min_length then none else some value

unfoldable pub named_token : Option Text → ℕ → List (Text × Text) → Option Text
unfolding usable_token
named_token none min_length secrets = none
named_token (some []) min_length secrets = none
named_token (some (c ∷ name)) min_length secrets =
    usable_token min_length (get_text (c ∷ name) secrets)

module _ (Address Network : Type 0) where
  pub record SourceState : Type 0 where
    pub config : SourceConfig Address Network
    pub enabled : Bool
    pub disabled_reason : Option DisabledReason
    pub missing_env : List Text

  -- The states are in the order of the configuration, whose names are distinct.
  pub record Resolved : Type 0 where
    pub config : Config Address Network
    pub secrets : List (Text × Text)
    pub sources : List SourceState
    pub sinks : List SinkState

  abbrev pub source_state : SourceConfig Address Network → List Text → SourceState
  source_state source [] = record {
    config = source;
    enabled = true;
    disabled_reason = none;
    missing_env = [];
  }
  source_state source (n ∷ names) = record {
    config = source;
    enabled = false;
    disabled_reason = some (DisabledReason.missing_variables (n ∷ names));
    missing_env = n ∷ names;
  }

  unfoldable pub resolve_source : List (Text × Text) → SourceConfig Address Network → SourceState
  unfolding missing
  resolve_source env source =
      if source.enabled
      then source_state source (missing (secret_env_names Address Network source.verify) env)
      else record {
        config = source;
        enabled = false;
        disabled_reason = some DisabledReason.in_config;
        missing_env = [];
      }

  abbrev pub bound : List (Text × Text) → Text → Text × Text
  bound env name = (name, get_text name env)

  unfoldable pub resolve : Config Address Network → List (Text × Text) → Resolved
  unfolding resolve_source resolve_sink
  resolve config env = record {
    config = config;
    secrets = map (bound env) (required_env_names Address Network config);
    sources = map (resolve_source env) config.sources;
    sinks = map (resolve_sink env) config.sinks;
  }

  abbrev pub secret_of : Text × Text → Text
  secret_of s = s.1

  -- Every resolved secret value, for redaction.
  unfoldable pub secret_values : Resolved → List Text
  secret_values r = filter (λ v. not (is_empty v)) (map secret_of r.secrets)

  abbrev pub runs_unverified : SourceState → Bool
  runs_unverified s = s.enabled && is_unverified Address Network s.config.verify

  abbrev pub state_name : SourceState → Text
  state_name s = s.config.name

  unfoldable pub unverified_source_names : Resolved → List Text
  unverified_source_names r = map state_name (filter runs_unverified r.sources)

  unfoldable pub admin_token : Resolved → Option Text
  unfolding named_token
  admin_token r = named_token r.config.admin_token_env r.config.admin_min_token_length r.secrets

  unfoldable pub metrics_token : Resolved → Option Text
  unfolding named_token
  metrics_token r =
      named_token r.config.metrics_token_env r.config.metrics_min_token_length r.secrets
