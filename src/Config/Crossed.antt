-- ===== src/Config/Crossed.antt =====
-- What `_cross_check` (webhook_doorman/config.py) promises of a configuration that it lets pass.
use webhook_doorman.Prelude.{◌≡◌, refl, ◌≢◌, inl, inr, Bool, true, false, List, [], ◌∷◌, ◌++◌, map}
use webhook_doorman.Prelude.Tests.{Bool-cases, ||_parts}
use webhook_doorman.Prelude.Lists.{All, All-imp}
use webhook_doorman.Prelude.Distinct.{Distinct}
use webhook_doorman.Prelude.Text.{Text, contains, text_eq, text_eq_refl}
use webhook_doorman.Config.Source.{SourceConfig, is_unverified, route_names}
use webhook_doorman.Config.Check.{
  Config, CrossProblem, cross_check, duplicates, unknown_sinks, unknown_routes, unverified_names,
  unverified_problem, no_source, source_names, source_paths, sink_names,
}

append_nil {ℓ} : {A : Type ℓ} (xs ys : List A) → xs ++ ys ≡ [] → (xs ≡ []) × (ys ≡ [])
append_nil [] ys h = (refl, h)
append_nil (x ∷ xs) ys h = absurd (cc)

map_nil {ℓ κ} : {A : Type ℓ} {B : Type κ} (f : A → B) (xs : List A) → map f xs ≡ [] → xs ≡ []
map_nil f [] h = refl
map_nil f (x ∷ xs) h = absurd (cc)

abbrev itself : Text → Text
itself t = t

text_eq-ne : (s t : Text) → text_eq s t ≡ false → s ≢ t
text_eq-ne s t h e = cc (rw (e, text_eq_refl t) at h)

-- No duplicate is found exactly where the values differ, and from those seen before.
duplicates-Distinct :
    (seen values : List Text)
    → duplicates seen values ≡ []
    → Distinct itself values × All (λ v. contains seen v ≡ false) values
unfolding duplicates
duplicates-Distinct seen [] h = (tt, tt)
duplicates-Distinct seen (v ∷ values) h = elim (Bool-cases (contains seen v)) [
  | inl again ↦ absurd (cc (rw again at h))
  | inr new ↦
      let rest = duplicates-Distinct (v ∷ seen) values (rw new at h) in
      (
        (
          All-imp (λ y. contains (v ∷ seen) y ≡ false) (λ y. y ≢ v) values
              (λ y fresh. text_eq-ne y v (||_parts (text_eq y v) (contains seen y) fresh).0) rest.1,
          rest.0,
        ),
        (
          new,
          All-imp (λ y. contains (v ∷ seen) y ≡ false) (λ y. contains seen y ≡ false) values
              (λ y fresh. (||_parts (text_eq y v) (contains seen y) fresh).1) rest.1,
        ),
      )
]

module _ (Address Network : Type 0) where
  unknown_sinks-known :
      (known : List Text) (source : Text) (sinks : List Text)
      → unknown_sinks Address Network known source sinks ≡ []
      → All (λ k. contains known k ≡ true) sinks
  unfolding unknown_sinks
  unknown_sinks-known known source [] h = tt
  unknown_sinks-known known source (k ∷ sinks) h = elim (Bool-cases (contains known k)) [
    | inl found ↦ (found, unknown_sinks-known known source sinks (rw found at h))
    | inr missing ↦ absurd (cc (rw missing at h))
  ]

  abbrev pub RoutesTo : List Text → SourceConfig Address Network → Type 0
  RoutesTo known s = All (λ k. contains known k ≡ true) (route_names s.sinks)

  unknown_routes-known :
      (known : List Text) (sources : List (SourceConfig Address Network))
      → unknown_routes Address Network known sources ≡ []
      → All (RoutesTo known) sources
  unfolding unknown_routes
  unknown_routes-known known [] h = tt
  unknown_routes-known known (s ∷ sources) h =
      let parts =
        append_nil (unknown_sinks Address Network known s.name (route_names s.sinks))
          (unknown_routes Address Network known sources) h in
      (
        unknown_sinks-known known s.name (route_names s.sinks) parts.0,
        unknown_routes-known known sources parts.1,
      )

  abbrev pub IsVerified : SourceConfig Address Network → Type 0
  IsVerified s = is_unverified Address Network s.verify ≡ false

  unverified_names-none :
      (sources : List (SourceConfig Address Network))
      → unverified_names Address Network sources ≡ []
      → All IsVerified sources
  unfolding unverified_names
  unverified_names-none [] h = tt
  unverified_names-none (s ∷ sources) h =
      elim (Bool-cases (is_unverified Address Network s.verify)) [
        | inl open_one ↦ absurd (cc (rw open_one at h))
        | inr verified ↦ (verified, unverified_names-none sources (rw verified at h))
      ]

  guarded :
      (allowed : Bool) (names : List Text)
      → unverified_problem Address Network allowed names ≡ []
      → allowed ≡ false
      → names ≡ []
  guarded allowed [] h k = refl
  guarded true (n ∷ names) h k = absurd (cc)
  guarded false (n ∷ names) h k = absurd (cc)

  some_source :
      (sources : List (SourceConfig Address Network))
      → no_source Address Network sources ≡ []
      → sources ≢ []
  some_source [] h = absurd (cc)
  some_source (s ∷ sources) h = λ e. cc

  pub record IsCoherent (c : Config Address Network) : Type 0 where
    pub has_source : c.sources ≢ []
    pub names : Distinct itself (source_names Address Network c.sources)
    pub paths : Distinct itself (source_paths Address Network c.sources)
    pub sinks : Distinct itself (sink_names Address Network c.sinks)
    pub routes : All (RoutesTo (sink_names Address Network c.sinks)) c.sources
    pub verified : c.allow_unverified ≡ false → All IsVerified c.sources

  -- A configuration that passes has a source; no two sources share a name or a path, and no two sinks
  -- a name; every sink that a source routes to is defined; and unless unverified sources are allowed,
  -- every source verifies.
  pub cross_check-IsCoherent :
      (c : Config Address Network) → cross_check Address Network c ≡ [] → IsCoherent c
  unfolding cross_check
  cross_check-IsCoherent c h =
      let first = append_nil (no_source Address Network c.sources) _ h in
      let names =
        append_nil
          (map CrossProblem.duplicate_source_name
            (duplicates [] (source_names Address Network c.sources)))
          _ first.1 in
      let paths =
        append_nil
          (map CrossProblem.duplicate_source_path
            (duplicates [] (source_paths Address Network c.sources)))
          _ names.1 in
      let sinks =
        append_nil
          (map CrossProblem.duplicate_sink_name
            (duplicates [] (sink_names Address Network c.sinks)))
          _ paths.1 in
      let last =
        append_nil (unknown_routes Address Network (sink_names Address Network c.sinks) c.sources) _
          sinks.1 in
      record {
        has_source = some_source c.sources first.0;
        names = (duplicates-Distinct [] _ (map_nil _ _ names.0)).0;
        paths = (duplicates-Distinct [] _ (map_nil _ _ paths.0)).0;
        sinks = (duplicates-Distinct [] _ (map_nil _ _ sinks.0)).0;
        routes = unknown_routes-known (sink_names Address Network c.sinks) c.sources last.0;
        verified = λ k.
            unverified_names-none c.sources
              (guarded c.allow_unverified (unverified_names Address Network c.sources) last.1 k);
      }
