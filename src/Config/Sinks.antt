-- ===== src/Config/Sinks.antt =====
-- The sinks (webhook_doorman/config.py, the seven sink models and `sink_secret_env_names`).
use webhook_doorman.Prelude.{ℕ, Bool, false, not, Option, none, some, List, [], ◌∷◌, ◌++◌}
use webhook_doorman.Prelude.Tests.{if◌then◌else◌}
use webhook_doorman.Prelude.Text.{Text, is_empty}

pub record SinkBase : Type 0 where
  pub name : Text
  pub agent_readable : Bool

-- `_EndpointMixin`.
pub record Endpoint : Type 0 where
  pub url : Option Text
  pub url_env : Option Text

pub record MatrixSink : Type 0 where
  pub endpoint : Endpoint
  pub token_env : Text
  pub room_env : Text
  pub template : Text

pub record NtfySink : Type 0 where
  pub endpoint : Endpoint
  pub topic_env : Text
  pub token_env : Option Text
  pub title_template : Text
  pub template : Text
  pub tags : Text

pub record VikunjaTaskSink : Type 0 where
  pub endpoint : Endpoint
  pub token_env : Text
  pub project_id : ℕ
  pub title_template : Text
  pub description_template : Text

pub data Method : Type 0 where
  post put patch : Method

pub record HttpSink : Type 0 where
  pub endpoint : Endpoint
  pub method : Method
  pub content_type : Text
  pub template : Text
  pub token_env : Option Text
  pub headers : List (Text × Text)

pub record DiscordSink : Type 0 where
  pub webhook_url_env : Text
  pub template : Text
  pub username : Option Text
  pub avatar_url : Option Text
  pub thread_id : Option Text

pub record SlackSink : Type 0 where
  pub webhook_url_env : Text
  pub template : Text

pub record AppriseSink : Type 0 where
  pub endpoint : Endpoint
  pub key_env : Text
  pub template : Text
  pub title_template : Text
  pub notify_type : Text
  pub body_format : Text
  pub tag : Option Text

pub data SinkKind : Type 0 where
  matrix : MatrixSink → SinkKind
  ntfy : NtfySink → SinkKind
  vikunja_task : VikunjaTaskSink → SinkKind
  http : HttpSink → SinkKind
  discord : DiscordSink → SinkKind
  slack : SlackSink → SinkKind
  apprise : AppriseSink → SinkKind

pub record SinkSpec : Type 0 where
  pub base : SinkBase
  pub kind : SinkKind

-- A name that is set and not empty.
abbrev pub env_name : Option Text → List Text
env_name none = []
env_name (some []) = []
env_name (some (c ∷ t)) = (c ∷ t) ∷ []

-- The `*_env` fields that hold a name.
unfoldable pub kind_env_names : SinkKind → List Text
kind_env_names (matrix s) =
    env_name s.endpoint.url_env ++ (env_name (some s.token_env) ++ env_name (some s.room_env))
kind_env_names (ntfy s) =
    env_name s.endpoint.url_env ++ (env_name (some s.topic_env) ++ env_name s.token_env)
kind_env_names (vikunja_task s) = env_name s.endpoint.url_env ++ env_name (some s.token_env)
kind_env_names (http s) = env_name s.endpoint.url_env ++ env_name s.token_env
kind_env_names (discord s) = env_name (some s.webhook_url_env)
kind_env_names (slack s) = env_name (some s.webhook_url_env)
kind_env_names (apprise s) = env_name s.endpoint.url_env ++ env_name (some s.key_env)

unfoldable pub sink_secret_env_names : SinkSpec → List Text
unfolding kind_env_names
sink_secret_env_names s = kind_env_names s.kind

abbrev pub is_set : Option Text → Bool
is_set none = false
is_set (some t) = not (is_empty t)

-- `_exactly_one_url`.
unfoldable pub has_one_url : Endpoint → Bool
has_one_url e = if is_set e.url then not (is_set e.url_env) else is_set e.url_env
