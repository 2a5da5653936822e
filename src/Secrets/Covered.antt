-- ===== src/Secrets/Covered.antt =====
-- Every secret that the configuration refers to is resolved, and is known to redaction
-- (webhook_doorman/secrets.py, `resolve` and `Resolved.secret_values`).
use webhook_doorman.Prelude.{
  ℕ, ◌≤◌, ap, ◌≡◌, refl, ◌⊎◌, ◌∙◌, inl, inr, Bool, true, false, not, List, [], ◌∷◌, ◌++◌, map,
  arith,
}
use webhook_doorman.Prelude.Tests.{Bool-cases}
use webhook_doorman.Prelude.Lists.{All, All-imp, any-append, filter, length}
use webhook_doorman.Prelude.Text.{
  Text, text_eq, text_eq_sound, text_eq_refl, text_eq_comm, contains, is_empty,
}
use webhook_doorman.Redaction.{redactable}
use webhook_doorman.Redaction.Gone.{redactable-contains}
use webhook_doorman.Verification.{get_text}
use webhook_doorman.Config.Source.{SourceConfig, secret_env_names}
use webhook_doorman.Config.Sinks.{SinkSpec, sink_secret_env_names}
use webhook_doorman.Config.Check.{Config, sources_env_names, sinks_env_names, required_env_names}
use webhook_doorman.Secrets.{Resolved, resolve, secret_values, bound, secret_of}

abbrev AllIn : List Text → List Text → Type 0
AllIn names part = All (λ n. contains names n ≡ true) part

contains-append_left :
    (xs ys : List Text) (n : Text) → contains xs n ≡ true → contains (xs ++ ys) n ≡ true
contains-append_left xs ys n h = rw (any-append (text_eq n) xs ys) (rw h refl)

contains-append_right :
    (xs ys : List Text) (n : Text) → contains ys n ≡ true → contains (xs ++ ys) n ≡ true
contains-append_right xs ys n h = rw (any-append (text_eq n) xs ys) (ground arith)

AllIn-cons : (x : Text) (xs part : List Text) → AllIn xs part → AllIn (x ∷ xs) part
AllIn-cons x xs part h =
    All-imp (λ n. contains xs n ≡ true) (λ n. contains (x ∷ xs) n ≡ true) part
      (λ n e. contains-append_right (x ∷ []) xs n e) h

AllIn-self : (xs : List Text) → AllIn xs xs
AllIn-self [] = tt
AllIn-self (x ∷ xs) = (rw (text_eq_refl x) refl, AllIn-cons x xs xs (AllIn-self xs))

AllIn-left : (xs ys part : List Text) → AllIn xs part → AllIn (xs ++ ys) part
AllIn-left xs ys part h =
    All-imp (λ n. contains xs n ≡ true) (λ n. contains (xs ++ ys) n ≡ true) part
      (λ n e. contains-append_left xs ys n e) h

AllIn-right : (xs ys part : List Text) → AllIn ys part → AllIn (xs ++ ys) part
AllIn-right xs ys part h =
    All-imp (λ n. contains ys n ≡ true) (λ n. contains (xs ++ ys) n ≡ true) part
      (λ n e. contains-append_right xs ys n e) h

-- The value of a name that is bound is the environment's.
get_text-bound :
    (Address Network : Type 0) (env : List (Text × Text)) (names : List Text) (n : Text)
    → contains names n ≡ true
    → get_text n (map (bound Address Network env) names) ≡ get_text n env
unfolding get_text
get_text-bound A N env [] n h = absurd (cc)
get_text-bound A N env (m ∷ names) n h = elim (Bool-cases (text_eq m n)) [
  | inl e ↦ rw e (rw (text_eq_sound m n e) refl)
  | inr e ↦
      let other : text_eq n m ≡ false = text_eq_comm n m ∙ e in
      rw e (get_text-bound A N env names n (rw other at h))
]

abbrev is_nonempty : Text → Bool
is_nonempty v = not (is_empty v)

text_eq-nil : (c : ℕ) (t : Text) → text_eq (c ∷ t) [] ≡ false
unfolding text_eq
text_eq-nil c t = refl

contains-filter :
    (vs : List Text) (c : ℕ) (t : Text)
    → contains vs (c ∷ t) ≡ true
    → contains (filter is_nonempty vs) (c ∷ t) ≡ true
contains-filter [] c t h = h
contains-filter ([] ∷ vs) c t h = contains-filter vs c t (rw (text_eq-nil c t) at h)
contains-filter ((d ∷ v) ∷ vs) c t h = ground (arith, contains-filter vs c t)

contains-values :
    (Address Network : Type 0) (env : List (Text × Text)) (names : List Text) (n : Text)
    → contains names n ≡ true
    → contains
        (map (secret_of Address Network) (map (bound Address Network env) names))
        (get_text n env)
      ≡ true
contains-values A N env [] n h = absurd (cc)
contains-values A N env (m ∷ names) n h = elim (Bool-cases (text_eq n m)) [
  | inl e ↦ rw (text_eq_sound n m e) (rw (text_eq_refl (get_text m env)) refl)
  | inr e ↦
      contains-append_right (get_text m env ∷ []) _ (get_text n env)
        (contains-values A N env names n (rw e at h))
]

kept :
    (vs : List Text) (v : Text)
    → contains vs v ≡ true
    → (v ≡ []) ⊎ (contains (filter is_nonempty vs) v ≡ true)
kept vs [] k = inl refl
kept vs (c ∷ t) k = inr (contains-filter vs c t k)

module _ (Address Network : Type 0) where
  -- A variable's value is the one that verification and the sinks read; redaction is given it, and
  -- looks for it if it has eight characters.
  abbrev pub IsCovered : List (Text × Text) → Resolved Address Network → Text → Type 0
  IsCovered env r n =
      (get_text n r.secrets ≡ get_text n env)
      × ((get_text n env ≡ [])
          ⊎ (contains (secret_values Address Network r) (get_text n env) ≡ true))
      × (8 ≤ length (get_text n env)
          → contains (redactable (secret_values Address Network r)) (get_text n env) ≡ true)

  sources_in :
      (sources : List (SourceConfig Address Network))
      → All
          (λ (s : SourceConfig Address Network).
            AllIn
              (sources_env_names Address Network sources)
              (secret_env_names Address Network s.verify))
          sources
  unfolding sources_env_names
  sources_in [] = tt
  sources_in (s ∷ sources) =
      let own : List Text = secret_env_names Address Network s.verify in
      let others : List Text = sources_env_names Address Network sources in
      (
        AllIn-left own others own (AllIn-self own),
        All-imp
            (λ (s' : SourceConfig Address Network).
              AllIn others (secret_env_names Address Network s'.verify))
            (λ (s' : SourceConfig Address Network).
              AllIn (own ++ others) (secret_env_names Address Network s'.verify))
            sources (λ s' h. AllIn-right own others (secret_env_names Address Network s'.verify) h)
            (sources_in sources),
      )

  sinks_in :
      (sinks : List SinkSpec)
      → All
          (λ (k : SinkSpec).
            AllIn (sinks_env_names Address Network sinks) (sink_secret_env_names k))
          sinks
  unfolding sinks_env_names
  sinks_in [] = tt
  sinks_in (k ∷ sinks) =
      let own : List Text = sink_secret_env_names k in
      let others : List Text = sinks_env_names Address Network sinks in
      (
        AllIn-left own others own (AllIn-self own),
        All-imp (λ (k' : SinkSpec). AllIn others (sink_secret_env_names k'))
            (λ (k' : SinkSpec). AllIn (own ++ others) (sink_secret_env_names k')) sinks
            (λ k' h. AllIn-right own others (sink_secret_env_names k') h) (sinks_in sinks),
      )

  module _ (config : Config Address Network) (env : List (Text × Text)) where
    name_IsCovered :
        (n : Text)
        → contains (required_env_names Address Network config) n ≡ true
        → IsCovered env (resolve Address Network config env) n
    unfolding resolve secret_values
    name_IsCovered n h =
        let known =
          kept _ (get_text n env)
            (contains-values Address Network env (required_env_names Address Network config) n h) in
        (
          get_text-bound Address Network env (required_env_names Address Network config) n h,
          known,
          long_one (get_text n env) _ known,
        )
      where
        long_one :
            (v : Text) (vs : List Text)
            → (v ≡ []) ⊎ (contains vs v ≡ true)
            → 8 ≤ length v
            → contains (redactable vs) v ≡ true
        long_one v vs (inl none_there) l = absurd (omega (arith, ap length none_there))
        long_one v vs (inr there) l = redactable-contains vs v there l

    names_IsCovered :
        (names : List Text)
        → AllIn (required_env_names Address Network config) names
        → All (IsCovered env (resolve Address Network config env)) names
    names_IsCovered names h =
        All-imp (λ n. contains (required_env_names Address Network config) n ≡ true)
          (IsCovered env (resolve Address Network config env)) names name_IsCovered h

    -- For every source and every sink of the configuration, enabled or not, each variable that it
    -- refers to is resolved to the environment's value; a value that is not empty is given to redaction,
    -- and one of at least eight characters is among those that redaction looks for.
    pub resolve-IsCovered :
        All
          (λ (s : SourceConfig Address Network).
            All
              (IsCovered env (resolve Address Network config env))
              (secret_env_names Address Network s.verify))
          config.sources
        × All
            (λ (k : SinkSpec).
              All (IsCovered env (resolve Address Network config env)) (sink_secret_env_names k))
            config.sinks
    unfolding required_env_names
    resolve-IsCovered = (
      All-imp
          (λ (s : SourceConfig Address Network).
            AllIn (sources_env_names Address Network config.sources)
              (secret_env_names Address Network s.verify))
          (λ (s : SourceConfig Address Network).
            All (IsCovered env (resolve Address Network config env))
              (secret_env_names Address Network s.verify))
          config.sources
          (λ s h.
            names_IsCovered (secret_env_names Address Network s.verify)
              (AllIn-left _ _ (secret_env_names Address Network s.verify) h))
          (sources_in config.sources),
      All-imp
          (λ (k : SinkSpec).
            AllIn (sinks_env_names Address Network config.sinks) (sink_secret_env_names k))
          (λ (k : SinkSpec).
            All (IsCovered env (resolve Address Network config env)) (sink_secret_env_names k))
          config.sinks
          (λ k h. names_IsCovered (sink_secret_env_names k) (
            AllIn-right _ _ (sink_secret_env_names k) (AllIn-left _ _ (sink_secret_env_names k) h)))
          (sinks_in config.sinks),
    )
