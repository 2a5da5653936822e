-- ===== src/Tests/ConfigRuns.antt =====
-- The stated properties of webhook_doorman/config.py, secrets.py, parsers.py, the admin API, the byte
-- cap and the log at small inputs.
use webhook_doorman.Prelude.{
  ℕ, ◌≡◌, refl, ◌≢◌, ◌↔◌, ◌⊎◌, ◌≤◌, true, false, Option, none, some, List, [], ◌∷◌, ◌++◌, arith,
}
use webhook_doorman.Prelude.Lists.{any, All}
use webhook_doorman.Prelude.Int.{pos}
use webhook_doorman.Prelude.Text.{Text, codes, text_eq, strip}
use webhook_doorman.Prelude.Utf8.{is_surrogate}
use webhook_doorman.Json.{Value, Fields}
use webhook_doorman.Redaction.{starts_with}
use webhook_doorman.Redaction.Headers.{is_credential}
use webhook_doorman.Filtering.Truncate.{truncate_text, truncation_marker}
use webhook_doorman.Filtering.Truncate.Cut.{IsCodePoint, byte_size, IsCut, truncate_text_lem}
use webhook_doorman.Parsers.Registry.{parse_with, decode}
use webhook_doorman.Parsers.Github.{parse_github}
use webhook_doorman.Parsers.Actionable.{IsOpened, parse_github_acts_iff}
use webhook_doorman.Config.Source.{SourceConfig, check_source, secret_env_names, verify_header}
use webhook_doorman.Config.Sinks.{SinkSpec, SinkKind, sink_secret_env_names}
use webhook_doorman.Config.Check.{Config, cross_check}
use webhook_doorman.Config.Accepted.{IsServable, check_source-IsServable}
use webhook_doorman.Config.Crossed.{IsCoherent, cross_check-IsCoherent}
use webhook_doorman.Secrets.{resolve}
use webhook_doorman.Secrets.Covered.{IsCovered, resolve-IsCovered}
use webhook_doorman.Store.Statements.{run, fresh}
use webhook_doorman.Store.Received.{log, replay_log}
use webhook_doorman.Store.Log.{run_refines_log}
use webhook_doorman.Engine.Admin.{replay, release}
use webhook_doorman.App.Admin.{
  AdminReply, admin_answer, presented_token, replay_route, release_route, list_dlq_route,
  list_held_route,
}
use webhook_doorman.App.Closed.{IsAuthorized, admin_closed}
use webhook_doorman.Tests.Data.{setup, fresh_state, queued}
use webhook_doorman.Tests.AppRuns.{ci, same}

run_refines_log_example :
    log (run queued fresh) (codes "ci") (codes "d-1")
    ≡ replay_log queued (codes "ci") (codes "d-1") (log fresh (codes "ci") (codes "d-1"))
run_refines_log_example = run_refines_log (codes "ci") (codes "d-1") queued fresh (refl, (refl, tt))

ascii : All IsCodePoint (codes "ab")
ascii = omega arith

truncate_text_lem_example :
    ((any is_surrogate (codes "ab") ≡ true) × (truncate_text (codes "ab") 1 ≡ none))
    ⊎ ((any is_surrogate (codes "ab") ≡ false)
        × (byte_size (codes "ab") ≤ 1)
        × (truncate_text (codes "ab") 1 ≡ some (codes "ab")))
    ⊎ ((any is_surrogate (codes "ab") ≡ false)
        × ((p : Text) × IsCut 1 (codes "ab") p
            × (truncate_text (codes "ab") 1 ≡ some (p ++ truncation_marker))))
truncate_text_lem_example = truncate_text_lem (codes "ab") 1 ascii

abbrev braces : Value → Text
braces v = codes "{}"

abbrev opened : List ℕ → Option Value
opened body = some (
    Value.obj (
      Fields.field (codes "action") (Value.str (codes "opened"))
        (Fields.field (codes "issue") (Value.obj Fields.end) Fields.end)))

abbrev issue_headers : List (Text × Text)
issue_headers = (codes "x-github-event", codes "issues") ∷ []

parse_github_acts_iff_example :
    ((parse_with opened
        (codes "github")
        (parse_github braces)
        (codes "{}")
        issue_headers).actionable
      ≡ true)
    ↔ IsOpened issue_headers (decode opened (codes "{}"))
parse_github_acts_iff_example =
    parse_github_acts_iff braces (codes "github") issue_headers opened (codes "{}")

abbrev log_sink : SinkSpec
log_sink = record {
  base = record { name = codes "log"; agent_readable = false };
  kind = SinkKind.slack (record { webhook_url_env = codes "W"; template = codes "t" });
}

abbrev config : Config ℕ ℕ
config = record {
  sources = ci ∷ [];
  sinks = log_sink ∷ [];
  max_body_bytes = 8;
  allow_unverified = false;
  admin_token_env = some (codes "A");
  admin_min_token_length = 4;
  metrics_token_env = none;
  metrics_min_token_length = 4;
}

abbrev env : List (Text × Text)
env =
    (codes "T", codes "tok") ∷ (codes "W", codes "https://hook") ∷ (codes "A", codes "letmein") ∷ []

source_passes : check_source ℕ ℕ same ci ≡ none
unfolding check_source strip starts_with text_eq
source_passes = refl

lowered_id : same (codes "x-id") ≢ []
lowered_id e = cc

check_source-IsServable_example :
    IsServable ci.path
    × (is_credential same (verify_header ℕ ℕ ci.verify ∷ []) (codes "x-id") ≡ false)
check_source-IsServable_example =
    check_source-IsServable same ℕ ℕ ci (codes "x-id") refl lowered_id source_passes

config_passes : cross_check ℕ ℕ config ≡ []
unfolding cross_check text_eq
config_passes = refl

cross_check-IsCoherent_example : IsCoherent ℕ ℕ config
cross_check-IsCoherent_example = cross_check-IsCoherent ℕ ℕ config config_passes

resolve-IsCovered_example :
    All
      (λ (s : SourceConfig ℕ ℕ).
        All (IsCovered ℕ ℕ env (resolve ℕ ℕ config env)) (secret_env_names ℕ ℕ s.verify))
      (ci ∷ [])
    × All
        (λ (k : SinkSpec).
          All (IsCovered ℕ ℕ env (resolve ℕ ℕ config env)) (sink_secret_env_names k))
        (log_sink ∷ [])
resolve-IsCovered_example = resolve-IsCovered ℕ ℕ config env

admin_closed_example :
    (IsAuthorized ℕ ℕ (resolve ℕ ℕ config env) (presented_token (codes "Bearer letmein"))
      × (replay_route ℕ ℕ (resolve ℕ ℕ config env) setup 1 (codes "Bearer letmein") 9 fresh_state
          ≡ admin_answer (replay setup 1 9 fresh_state))
      × (release_route ℕ ℕ (resolve ℕ ℕ config env) setup 1 (codes "Bearer letmein") 9 fresh_state
          ≡ admin_answer (release setup 1 9 fresh_state)))
    ⊎ ((¬ IsAuthorized ℕ ℕ (resolve ℕ ℕ config env) (presented_token (codes "Bearer letmein")))
        × (replay_route ℕ ℕ (resolve ℕ ℕ config env) setup 1 (codes "Bearer letmein") 9 fresh_state
            ≡ (AdminReply.status 401, fresh_state))
        × (release_route ℕ ℕ (resolve ℕ ℕ config env) setup 1 (codes "Bearer letmein") 9 fresh_state
            ≡ (AdminReply.status 401, fresh_state))
        × (list_dlq_route ℕ ℕ
              (resolve ℕ ℕ config env)
              setup
              (pos 5)
              none
              (codes "Bearer letmein")
              fresh_state
            ≡ AdminReply.status 401)
        × (list_held_route ℕ ℕ
              (resolve ℕ ℕ config env)
              setup
              (pos 5)
              none
              (codes "Bearer letmein")
              fresh_state
            ≡ AdminReply.status 401))
admin_closed_example =
    admin_closed ℕ ℕ (resolve ℕ ℕ config env) setup (codes "Bearer letmein") 1 9 (pos 5) none
      fresh_state
