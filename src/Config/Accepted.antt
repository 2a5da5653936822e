-- ===== src/Config/Accepted.antt =====
-- What the configuration promises once its checks have passed (webhook_doorman/config.py, the
-- validators of `SourceConfig` and `_cross_check`).
use webhook_doorman.Prelude.{
  ℕ, ◌≡◌, refl, ◌≢◌, subst, Bool, true, false, not, ◌&&◌, ◌||◌, Option, none, some, [], ◌∷◌, arith,
}
use webhook_doorman.Prelude.Tests.{||_parts}
use webhook_doorman.Prelude.Lists.{any}
use webhook_doorman.Prelude.Text.{Text, codes, contains, is_empty, text_eq}
use webhook_doorman.Redaction.{starts_with}
use webhook_doorman.Redaction.Headers.{sensitive_headers, is_credential, lowered_names}
use webhook_doorman.Config.Source.{
  Problem, SourceConfig, refuse_if, first_problem, check_source, check_path, check_verify,
  check_dedup, is_brace, check_name, check_sinks, check_route_filters, check_filter, check_cap,
  verify_header, text_or_empty,
}

refuse_if-none :
    (test : Bool) (p : Problem) (next : Option Problem)
    → refuse_if test p next ≡ none
    → (test ≡ false) × (next ≡ none)
refuse_if-none true p next h = absurd (cc)
refuse_if-none false p next h = (refl, h)

first_problem-none :
    (o next : Option Problem) → first_problem o next ≡ none → (o ≡ none) × (next ≡ none)
first_problem-none none next h = (refl, h)
first_problem-none (some p) next h = absurd (cc)

not-false : (b : Bool) → not b ≡ false → b ≡ true
not-false b h = ground arith

-- A path that can be registered: literal, and outside the two reserved prefixes.
pub record IsServable (path : Text) : Type 0 where
  pub rooted : starts_with (codes "/") path ≡ true
  pub literal : any is_brace path ≡ false
  pub outside_admin : starts_with (codes "/admin") path ≡ false
  pub outside_metrics : starts_with (codes "/metrics") path ≡ false

check_path-IsServable : (path : Text) → check_path path ≡ none → IsServable path
unfolding check_path
check_path-IsServable path h =
    let rooted = refuse_if-none (not (starts_with (codes "/") path)) _ _ h in
    let literal = refuse_if-none (any is_brace path) _ _ rooted.1 in
    let admin = refuse_if-none (starts_with (codes "/admin") path) _ _ literal.1 in
    let metrics = refuse_if-none (starts_with (codes "/metrics") path) _ _ admin.1 in
    record {
      rooted = not-false _ rooted.0;
      literal = literal.0;
      outside_admin = admin.0;
      outside_metrics = metrics.0;
    }

||_false : (a b : Bool) → a ≡ false → b ≡ false → (a || b) ≡ false
||_false a b h k = ground arith

-- A name that is not empty is not the empty text, and so not a verify header that is.
same_header :
    (c : ℕ) (t header : Text)
    → (not (is_empty header) && contains (header ∷ []) (c ∷ t)) ≡ false
    → contains (header ∷ []) (c ∷ t) ≡ false
unfolding text_eq
same_header c t [] h = refl
same_header c t (d ∷ header) h = h

check_dedup_parts :
    (id_header header : Text)
    → id_header ≢ []
    → check_dedup id_header header ≡ none
    → (contains sensitive_headers id_header ≡ false) × (contains (header ∷ []) id_header ≡ false)
unfolding check_dedup
check_dedup_parts [] header k h = absurd (k refl)
check_dedup_parts (c ∷ t) header k h =
    let parts =
      ||_parts (contains sensitive_headers (c ∷ t))
        (not (is_empty header) && contains (header ∷ []) (c ∷ t)) (refuse_if-none _ _ _ h).0 in
    (parts.0, same_header c t header parts.1)

module _ (lower : Text → Text) where
  extra_false :
      (header key : Text)
      → contains (lower header ∷ []) (lower key) ≡ false
      → contains (lowered_names lower (header ∷ [])) (lower key) ≡ false
  unfolding lowered_names
  extra_false [] key h = refl
  extra_false (c ∷ header) key h = h

  -- The check compares lowered names; redaction goes by the same ones.
  check_dedup-keeps :
      (id_header header : Text)
      → lower id_header ≢ []
      → check_dedup (lower id_header) (lower header) ≡ none
      → is_credential lower (header ∷ []) id_header ≡ false
  unfolding is_credential
  check_dedup-keeps id_header header nonempty h =
      let parts = check_dedup_parts (lower id_header) (lower header) nonempty h in
      ||_false (contains sensitive_headers (lower id_header))
        (contains (lowered_names lower (header ∷ [])) (lower id_header)) parts.0
        (extra_false header id_header parts.1)

  module _ (Address Network : Type 0) where
    -- A source that passes its checks and names a header by which its deliveries are told apart: its
    -- path shadows neither reserved prefix and is no route template, and redaction does not blank that
    -- header by its name. `str.lower` makes of the name one that is not empty.
    pub check_source-IsServable :
        (s : SourceConfig Address Network) (id_header : Text)
        → s.id_header ≡ some id_header
        → lower id_header ≢ []
        → check_source Address Network lower s ≡ none
        → IsServable s.path
          × (is_credential lower (verify_header Address Network s.verify ∷ []) id_header ≡ false)
    unfolding check_source
    check_source-IsServable s id_header e nonempty h =
        let name = first_problem-none (check_name s.name) _ h in
        let path = first_problem-none (check_path s.path) _ name.1 in
        let verifies = first_problem-none (check_verify Address Network lower s.verify) _ path.1 in
        let filters = first_problem-none (check_route_filters s.sinks) _ verifies.1 in
        let sinks = first_problem-none (check_sinks s.sinks) _ filters.1 in
        let gates = first_problem-none (check_filter s.filter.gates) _ sinks.1 in
        let cap = first_problem-none (check_cap s.filter.max_field_bytes) _ gates.1 in
        (
          check_path-IsServable s.path path.0,
          check_dedup-keeps id_header (verify_header Address Network s.verify) nonempty (
              subst
                (λ o.
                  check_dedup (lower (text_or_empty o))
                    (lower (verify_header Address Network s.verify))
                  ≡ none)
                e cap.1),
        )
