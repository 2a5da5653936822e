-- ===== src/Config/Source.antt =====
-- One source (webhook_doorman/config.py, `SourceConfig` and the models below it). `verify` is the
-- model of `Verification`. A validator gives the first reason it refuses for, or none.
use webhook_doorman.Prelude.{
  ℕ, Bool, true, false, not, ◌&&◌, ◌||◌, Option, none, some, List, [], ◌∷◌, map,
}
use webhook_doorman.Prelude.Tests.{if◌then◌else◌, ◌==◌, is_some}
use webhook_doorman.Prelude.Lists.{any}
use webhook_doorman.Prelude.Text.{Text, codes, contains, is_empty, strip}
use webhook_doorman.Filtering.{EventFilter, SinkRoute, SourceFilter}
use webhook_doorman.Verification.{VerifySpec, hmac, bearer, basic, peer_only}
use webhook_doorman.Redaction.{starts_with}
use webhook_doorman.Redaction.Headers.{sensitive_headers}

pub data Problem : Type 0 where
  no_leading_slash path_is_template under_admin under_metrics blank_name : Problem
  no_sinks credential_as_dedup_key blank_field : Problem
  empty_allowlist cap_not_positive blank_reason no_networks bad_network : Problem
  empty_values : Text → Problem
  repeated_sink : Text → Problem

-- `ValueError` if the test holds, and the next check otherwise.
abbrev pub refuse_if : Bool → Problem → Option Problem → Option Problem
refuse_if test problem next = if test then some problem else next

module _ (Address Network : Type 0) where
  pub record SourceConfig : Type 0 where
    pub name : Text
    pub path : Text
    pub verify : VerifySpec Address Network
    pub sinks : List SinkRoute
    pub parser : Text
    pub id_header : Option Text
    pub filter : SourceFilter
    pub untrusted : Bool
    pub enabled : Bool

  -- `getattr(self.verify, "header", "")`.
  abbrev pub verify_header : VerifySpec Address Network → Text
  verify_header (hmac spec) = spec.header
  verify_header (bearer spec) = spec.header
  verify_header (basic spec) = spec.header
  verify_header (peer_only spec) = []

  unfoldable pub secret_env_names : VerifySpec Address Network → List Text
  secret_env_names (hmac spec) = spec.secret_env ∷ []
  secret_env_names (bearer spec) = spec.secret_env ∷ []
  secret_env_names (basic spec) = spec.user_env ∷ spec.pass_env ∷ []
  secret_env_names (peer_only spec) = []

  abbrev pub is_unverified : VerifySpec Address Network → Bool
  is_unverified (peer_only spec) = true
  is_unverified spec = false

abbrev pub is_brace : ℕ → Bool
is_brace c = c == b'{' || c == b'}'

-- `_leading_slash`.
unfoldable pub check_path : Text → Option Problem
check_path path = refuse_if (not (starts_with (codes "/") path)) Problem.no_leading_slash (
    refuse_if (any is_brace path) Problem.path_is_template (
      refuse_if (starts_with (codes "/admin") path) Problem.under_admin
        (refuse_if (starts_with (codes "/metrics") path) Problem.under_metrics none)))

-- `_name_non_blank`, of sources and of sinks.
unfoldable pub check_name : Text → Option Problem
check_name name = refuse_if (is_empty (strip name)) Problem.blank_name none

abbrev pub route_names : List SinkRoute → List Text
route_names routes = map (λ (r : SinkRoute). r.name) routes

-- The first name that stands again further on.
unfoldable pub first_repeated : List Text → Option Text
first_repeated [] = none
first_repeated (n ∷ ns) = let rest = first_repeated ns in if contains ns n then some n else rest

abbrev pub repeated_problem : Option Text → Option Problem
repeated_problem none = none
repeated_problem (some n) = some (Problem.repeated_sink n)

-- `_at_least_one_sink`.
unfoldable pub check_sinks : List SinkRoute → Option Problem
unfolding first_repeated
check_sinks [] = some Problem.no_sinks
check_sinks (r ∷ routes) = repeated_problem (first_repeated (route_names (r ∷ routes)))

-- `_no_empty_allowlist`.
unfoldable pub check_event_types : Option (List Text) → Option Problem
check_event_types none = none
check_event_types (some []) = some Problem.empty_allowlist
check_event_types (some (t ∷ types)) = none

-- `_no_empty_value_lists`.
unfoldable pub check_values : List (Text × List Text) → Option Problem
check_values [] = none
check_values ((path, []) ∷ rules) = some (Problem.empty_values path)
check_values ((path, v ∷ values) ∷ rules) = check_values rules

abbrev pub first_problem : Option Problem → Option Problem → Option Problem
first_problem none next = next
first_problem (some p) next = some p

unfoldable pub check_filter : EventFilter → Option Problem
unfolding check_event_types check_values
check_filter f =
    first_problem (check_event_types f.event_types)
      (first_problem (check_values f.require) (check_values f.deny))

-- `_positive`, of a cap that is there.
unfoldable pub check_cap : Option ℕ → Option Problem
check_cap none = none
check_cap (some limit) = refuse_if (limit == 0) Problem.cap_not_positive none

abbrev pub check_route_filter : Option EventFilter → Option Problem
check_route_filter none = none
check_route_filter (some f) = check_filter f

unfoldable pub check_route_filters : List SinkRoute → Option Problem
unfolding check_filter
check_route_filters [] = none
check_route_filters (r ∷ routes) =
    first_problem (check_route_filter r.filter) (check_route_filters routes)

-- `_reason_non_blank` and `_valid_cidrs`, on the fields of a source without verification.
module _ {Network : Type 0} (parse_network : Text → Option Network) where
  unfoldable pub check_networks : List Text → Option Problem
  check_networks [] = none
  check_networks (entry ∷ entries) =
      let rest = check_networks entries in
      if is_some (parse_network entry) then rest else some Problem.bad_network

  unfoldable pub check_unverified : Text → List Text → Option Problem
  unfolding check_networks
  check_unverified reason [] =
      refuse_if (is_empty (strip reason)) Problem.blank_reason (some Problem.no_networks)
  check_unverified reason (entry ∷ entries) =
      refuse_if (is_empty (strip reason)) Problem.blank_reason (check_networks (entry ∷ entries))

abbrev pub text_or_empty : Option Text → Text
text_or_empty none = []
text_or_empty (some t) = t

-- `_dedup_header_is_not_a_credential`, on the lowered names.
unfoldable pub check_dedup : Text → Text → Option Problem
check_dedup header verify_header =
    if is_empty header
    then none
    else refuse_if
        (contains sensitive_headers header
          || (not (is_empty verify_header) && contains (verify_header ∷ []) header))
        Problem.credential_as_dedup_key none

-- `_non_blank`.
unfoldable pub check_non_blank : Text → Option Problem
check_non_blank field = refuse_if (is_empty (strip field)) Problem.blank_field none

-- Every validator of one source, in the order of the fields; the model's own comes last. The fields
-- of a source without verification are checked above, where they are still texts.
module _ (Address Network : Type 0) (lower : Text → Text) where
  unfoldable pub check_verify : VerifySpec Address Network → Option Problem
  unfolding check_non_blank
  check_verify (hmac spec) =
      first_problem (check_non_blank spec.header) (check_non_blank spec.secret_env)
  check_verify (bearer spec) = check_non_blank spec.secret_env
  check_verify (basic spec) = none
  check_verify (peer_only spec) = none

  unfoldable pub check_source : SourceConfig Address Network → Option Problem
  unfolding check_name check_path check_verify check_sinks check_route_filters check_filter
      check_cap check_dedup
  check_source s = first_problem (check_name s.name) (
      first_problem (check_path s.path) (
        first_problem (check_verify s.verify) (
          first_problem (check_route_filters s.sinks) (
            first_problem (check_sinks s.sinks) (
              first_problem (check_filter s.filter.gates) (
                first_problem (check_cap s.filter.max_field_bytes) (
                  check_dedup (lower (text_or_empty s.id_header))
                    (lower (verify_header Address Network s.verify)))))))))
