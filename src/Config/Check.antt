-- ===== src/Config/Check.antt =====
-- The whole configuration (webhook_doorman/config.py, `Config` and `_cross_check`).
use webhook_doorman.Prelude.{ℕ, Bool, true, false, Option, none, some, List, [], ◌∷◌, ◌++◌, map}
use webhook_doorman.Prelude.Tests.{if◌then◌else◌}
use webhook_doorman.Prelude.Lists.{find}
use webhook_doorman.Prelude.Text.{Text, contains, text_eq}
use webhook_doorman.Config.Source.{SourceConfig, secret_env_names, is_unverified, route_names}
use webhook_doorman.Config.Sinks.{SinkSpec, sink_secret_env_names}

pub data CrossProblem : Type 0 where
  no_sources : CrossProblem
  duplicate_source_name : Text → CrossProblem
  duplicate_source_path : Text → CrossProblem
  duplicate_sink_name : Text → CrossProblem
  unknown_sink : Text → Text → CrossProblem
  unverified_not_allowed : List Text → CrossProblem

-- `_duplicates`: each value that stands in the list before; Python's is the set of them, sorted.
unfoldable pub duplicates : List Text → List Text → List Text
duplicates seen [] = []
duplicates seen (v ∷ values) =
    let rest = duplicates (v ∷ seen) values in if contains seen v then v ∷ rest else rest

abbrev pub env_option : Option Text → List Text
env_option none = []
env_option (some []) = []
env_option (some (c ∷ t)) = (c ∷ t) ∷ []

module _ (Address Network : Type 0) where
  pub record Config : Type 0 where
    pub sources : List (SourceConfig Address Network)
    pub sinks : List SinkSpec
    pub max_body_bytes : ℕ
    pub allow_unverified : Bool
    pub admin_token_env : Option Text
    pub admin_min_token_length : ℕ
    pub metrics_token_env : Option Text
    pub metrics_min_token_length : ℕ

  abbrev pub source_names : List (SourceConfig Address Network) → List Text
  source_names sources = map (λ (s : SourceConfig Address Network). s.name) sources

  abbrev pub source_paths : List (SourceConfig Address Network) → List Text
  source_paths sources = map (λ (s : SourceConfig Address Network). s.path) sources

  abbrev pub sink_names : List SinkSpec → List Text
  sink_names sinks = map (λ (s : SinkSpec). s.base.name) sinks

  -- The sinks that one source names and the configuration does not define.
  unfoldable pub unknown_sinks : List Text → Text → List Text → List CrossProblem
  unknown_sinks known source [] = []
  unknown_sinks known source (sink ∷ sinks) =
      let rest = unknown_sinks known source sinks in
      if contains known sink then rest else CrossProblem.unknown_sink source sink ∷ rest

  unfoldable pub unknown_routes :
      List Text → List (SourceConfig Address Network) → List CrossProblem
  unfolding unknown_sinks
  unknown_routes known [] = []
  unknown_routes known (s ∷ sources) =
      unknown_sinks known s.name (route_names s.sinks) ++ unknown_routes known sources

  unfoldable pub unverified_names : List (SourceConfig Address Network) → List Text
  unverified_names [] = []
  unverified_names (s ∷ sources) =
      let rest = unverified_names sources in
      if is_unverified Address Network s.verify then s.name ∷ rest else rest

  abbrev pub no_source : List (SourceConfig Address Network) → List CrossProblem
  no_source [] = CrossProblem.no_sources ∷ []
  no_source (s ∷ sources) = []

  -- The guard on `strategy: none`.
  abbrev pub unverified_problem : Bool → List Text → List CrossProblem
  unverified_problem allowed [] = []
  unverified_problem true (n ∷ names) = []
  unverified_problem false (n ∷ names) = CrossProblem.unverified_not_allowed (n ∷ names) ∷ []

  unfoldable pub cross_check : Config → List CrossProblem
  unfolding duplicates unknown_routes unverified_names
  cross_check c =
      no_source c.sources
      ++ (map CrossProblem.duplicate_source_name (duplicates [] (source_names c.sources))
          ++ (map CrossProblem.duplicate_source_path (duplicates [] (source_paths c.sources))
              ++ (map CrossProblem.duplicate_sink_name (duplicates [] (sink_names c.sinks))
                  ++ (unknown_routes (sink_names c.sinks) c.sources
                      ++ unverified_problem c.allow_unverified (unverified_names c.sources)))))

  unfoldable pub source_by_name : Config → Text → Option (SourceConfig Address Network)
  source_by_name c name = find (λ (s : SourceConfig Address Network). text_eq s.name name) c.sources

  unfoldable pub sink_by_name : Config → Text → Option SinkSpec
  sink_by_name c name = find (λ (s : SinkSpec). text_eq s.base.name name) c.sinks

  unfoldable pub sources_env_names : List (SourceConfig Address Network) → List Text
  sources_env_names [] = []
  sources_env_names (s ∷ sources) =
      secret_env_names Address Network s.verify ++ sources_env_names sources

  unfoldable pub sinks_env_names : List SinkSpec → List Text
  sinks_env_names [] = []
  sinks_env_names (s ∷ sinks) = sink_secret_env_names s ++ sinks_env_names sinks

  -- A set in the source; only membership is asked of it.
  unfoldable pub required_env_names : Config → List Text
  unfolding sources_env_names sinks_env_names
  required_env_names c =
      sources_env_names c.sources
      ++ (sinks_env_names c.sinks
          ++ (env_option c.admin_token_env ++ env_option c.metrics_token_env))
