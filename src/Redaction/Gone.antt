-- ===== src/Redaction/Gone.antt =====
-- That a secret is gone after redaction (webhook_doorman/redaction.py).
use webhook_doorman.Prelude.{
  ℕ, zero, suc, ◌≤◌, ◌-◌, ◌≡◌, refl, sym, ap, subst, ◌≢◌, inl, inr, Bool, true, false, not, ◌&&◌,
  ◌||◌, List, [], ◌∷◌, ◌++◌, arith,
}
use webhook_doorman.Prelude.Tests.{leb, ◌==◌, ==_iff, &&_parts, ||_parts, Bool-cases}
use webhook_doorman.Prelude.Lists.{length, any}
use webhook_doorman.Prelude.Text.{Text, codes, contains, text_eq, text_eq_iff, text_eq_refl}
use webhook_doorman.Prelude.Sort.{any-sort_by}
use webhook_doorman.Redaction.{
  starts_with, replace_from, replace, redact_all, redacted, redactable, long_enough, longer,
}

-- A text that stands nowhere in another.
abbrev pub IsFree : Text → Text → Type 0
IsFree v [] = starts_with v [] ≡ false
IsFree v (c ∷ t) = (starts_with v (c ∷ t) ≡ false) × IsFree v t

-- A secret that the marker cannot be mistaken for: with no bracket in it, and not the word in it.
abbrev pub is_bracket : ℕ → Bool
is_bracket c = c == b'<' || c == b'>'

pub record IsPlain (v : Text) : Type 0 where
  pub long : 8 ≤ length v
  pub bracketless : any is_bracket v ≡ false
  pub other : v ≢ codes "redacted"

-- A beginning with no character of a kind in it ends before the first one of that kind.
pub starts_with_before :
    (q : ℕ → Bool) (v a : Text) (b : ℕ) (t : Text)
    → any q v ≡ false
    → q b ≡ true
    → starts_with v (a ++ b ∷ t) ≡ true
    → starts_with v a ≡ true
unfolding starts_with
starts_with_before q [] a b t h k e = refl
starts_with_before q (c ∷ v) [] b t h k e =
    let heads = &&_parts (c == b) (starts_with v t) e in
    let same : c ≡ b = (==_iff c b).0 heads.0 in
    let no : q c ≡ false = (||_parts (q c) (any q v) h).0 in absurd (cc (ap q same))
starts_with_before q (c ∷ v) (d ∷ a) b t h k e =
    let heads = &&_parts (c == d) (starts_with v (a ++ b ∷ t)) e in
    rw (heads.0) (starts_with_before q v a b t ((||_parts (q c) (any q v) h).1) k heads.1)

pub starts_with-length : (v a : Text) → starts_with v a ≡ true → length v ≤ length a
unfolding starts_with
starts_with-length [] a e = omega arith
starts_with-length (c ∷ v) [] e = absurd (cc)
starts_with-length (c ∷ v) (d ∷ a) e = ground (arith, starts_with-length v a)

starts_with_whole : (v a : Text) → starts_with v a ≡ true → length a ≤ length v → v ≡ a
unfolding starts_with
starts_with_whole [] [] e h = refl
starts_with_whole [] (d ∷ a) e h = absurd (omega arith)
starts_with_whole (c ∷ v) [] e h = absurd (cc)
starts_with_whole (c ∷ v) (d ∷ a) e h = ground (arith, starts_with_whole v a)

-- No secret starts inside the marker, before its closing bracket.
inside_marker :
    (v a t : Text) → IsPlain v → length a ≤ 8 → a ≢ v → starts_with v (a ++ b'>' ∷ t) ≡ false
inside_marker v a t p h k = elim (Bool-cases (starts_with v (a ++ b'>' ∷ t))) [
  | inl e ↦
      let short = starts_with_before is_bracket v a b'>' t p.bracketless refl e in
      absurd (k (sym (starts_with_whole v a short (omega (arith, p.long)))))
  | inr e ↦ e
]

bracket_first :
    (v : Text) (b : ℕ) (t : Text) → IsPlain v → is_bracket b ≡ true → starts_with v (b ∷ t) ≡ false
unfolding starts_with
bracket_first [] b t p k = absurd (omega (arith, p.long))
bracket_first (c ∷ v) b t p k =
    let free : any is_bracket (c ∷ v) ≡ false = p.bracketless in ground arith

pub empty_first : (v : Text) → IsPlain v → starts_with v [] ≡ false
unfolding starts_with
empty_first [] p = absurd (omega (arith, p.long))
empty_first (c ∷ v) p = refl

inside-IsFree :
    (v a t : Text)
    → IsPlain v
    → length a ≤ 8
    → a ≢ v
    → IsFree v (b'>' ∷ t)
    → IsFree v (a ++ b'>' ∷ t)
inside-IsFree v [] t p l k h = h
inside-IsFree v (c ∷ a) t p l k h = (
  inside_marker v (c ∷ a) t p l k,
  inside-IsFree v a t p (omega arith) (λ e. omega (arith, ap length e, p.long)) h,
)

pub IsFree-marker : (v t : Text) → IsPlain v → IsFree v t → IsFree v (redacted ++ t)
IsFree-marker v t p h = (
  bracket_first v b'<' (codes "redacted>" ++ t) p refl,
  inside-IsFree v (codes "redacted") t p (omega arith) (λ e. p.other (sym e))
      (bracket_first v b'>' t p refl, h),
)

module _ (old : Text) where
  replace_nil : replace_from old redacted zero [] ≡ []
  unfolding replace_from
  replace_nil = refl

  replace_hit :
      (c : ℕ) (t : Text)
      → starts_with old (c ∷ t) ≡ true
      → replace_from old redacted zero (c ∷ t)
        ≡ redacted ++ replace_from old redacted (length old - 1) t
  unfolding replace_from
  replace_hit c t e = rw (e, replace_from) refl

  replace_miss :
      (c : ℕ) (t : Text)
      → starts_with old (c ∷ t) ≡ false
      → replace_from old redacted zero (c ∷ t) ≡ c ∷ replace_from old redacted zero t
  unfolding replace_from
  replace_miss c t e = rw (e, replace_from) refl

  -- What starts in the output started in the text: up to the first marker the two are the same.
  replace_from_before :
      (v t : Text)
      → any is_bracket v ≡ false
      → starts_with v (replace_from old redacted zero t) ≡ true
      → starts_with v t ≡ true
  unfolding starts_with
  replace_from_before [] t h e = refl
  replace_from_before (b ∷ v) [] h e = rw replace_nil at e
  replace_from_before (b ∷ v) (c ∷ t) h e = elim (Bool-cases (starts_with old (c ∷ t))) [
    | inl hit ↦
        let first : starts_with (b ∷ v) (redacted ++ replace_from old redacted (length old - 1) t)
            ≡ true =
          rw (replace_hit c t hit) at e in
        absurd (ground arith)
    | inr miss ↦
        let parts =
          &&_parts (b == c) (starts_with v (replace_from old redacted zero t))
            (rw (replace_miss c t miss) at e) in
        rw (parts.0)
          (replace_from_before v t ((||_parts (is_bracket b) (any is_bracket v) h).1) parts.1)
  ]

  not_before :
      (v : Text) (c : ℕ) (t : Text)
      → IsPlain v
      → starts_with old (c ∷ t) ≡ false
      → starts_with v (c ∷ t) ≡ false
      → starts_with v (c ∷ replace_from old redacted zero t) ≡ false
  not_before v c t p miss free =
      elim (Bool-cases (starts_with v (c ∷ replace_from old redacted zero t))) [
        | inl e ↦
            let hit : starts_with v (c ∷ t) ≡ true =
              replace_from_before v (c ∷ t) p.bracketless (rw (replace_miss c t miss) e) in
            absurd (cc)
        | inr e ↦ e
      ]

  -- A secret that is gone does not come back.
  replace_from-kept :
      (v : Text) (n : ℕ) (t : Text)
      → IsPlain v
      → IsFree v t
      → IsFree v (replace_from old redacted n t)
  unfolding replace_from
  replace_from-kept v n [] p h = h
  replace_from-kept v (suc n) (c ∷ t) p h = replace_from-kept v n t p h.1
  replace_from-kept v zero (c ∷ t) p h = elim (Bool-cases (starts_with old (c ∷ t))) [
    | inl hit ↦
        rw (replace_hit c t hit)
          (IsFree-marker v _ p (replace_from-kept v (length old - 1) t p h.1))
    | inr miss ↦
        rw (replace_miss c t miss) (not_before v c t p miss h.0, replace_from-kept v zero t p h.1)
  ]

  replace_from-IsFree :
      (n : ℕ) (t : Text) → IsPlain old → IsFree old (replace_from old redacted n t)
  unfolding replace_from
  replace_from-IsFree n [] p = empty_first old p
  replace_from-IsFree (suc n) (c ∷ t) p = replace_from-IsFree n t p
  replace_from-IsFree zero (c ∷ t) p = elim (Bool-cases (starts_with old (c ∷ t))) [
    | inl hit ↦
        rw (replace_hit c t hit) (IsFree-marker old _ p (replace_from-IsFree (length old - 1) t p))
    | inr miss ↦
        rw (replace_miss c t miss) (not_before old c t p miss miss, replace_from-IsFree zero t p)
  ]

pub redact_all-kept :
    (vs : List Text) (v t : Text) → IsPlain v → IsFree v t → IsFree v (redact_all vs t)
unfolding redact_all replace
redact_all-kept [] v t p h = h
redact_all-kept (u ∷ vs) v t p h =
    redact_all-kept vs v (replace u redacted t) p (replace_from-kept u v zero t p h)

pub redact_all-IsFree :
    (vs : List Text) (v t : Text) → contains vs v ≡ true → IsPlain v → IsFree v (redact_all vs t)
unfolding redact_all replace
redact_all-IsFree [] v t h p = absurd (cc)
redact_all-IsFree (u ∷ vs) v t h p = elim (Bool-cases (text_eq v u)) [
  | inl same ↦
      redact_all-kept vs v (replace u redacted t) p
        (rw (sym ((text_eq_iff v u).0 same)) (replace_from-IsFree v zero t p))
  | inr other ↦ redact_all-IsFree vs v (replace u redacted t) (rw other at h) p
]

long_enough_head :
    (u : Text) (vs : List Text) → 8 ≤ length u → contains (long_enough (u ∷ vs)) u ≡ true
unfolding long_enough
long_enough_head u vs l =
    let long : leb 8 (length u) ≡ true = ground arith in
    elim (Bool-cases (contains (long_enough vs) u)) [
      | inl old ↦ rw (long, old) old
      | inr new ↦ rw (long, new, text_eq_refl u) refl
    ]

long_enough-contains :
    (vs : List Text) (v : Text)
    → contains vs v ≡ true
    → 8 ≤ length v
    → contains (long_enough vs) v ≡ true
unfolding long_enough
long_enough-contains [] v h l = absurd (cc)
long_enough-contains (u ∷ vs) v h l = elim (Bool-cases (text_eq v u)) [
  | inl same ↦
      let whole : v ≡ u = (text_eq_iff v u).0 same in
      rw whole (long_enough_head u vs (subst (λ t. 8 ≤ length t) whole l))
  | inr other ↦
      let later : contains (long_enough vs) v ≡ true =
        long_enough-contains vs v (rw other at h) l in
      elim (Bool-cases (leb 8 (length u) && not (contains (long_enough vs) u))) [
        | inl kept ↦ rw (kept, other) later
        | inr dropped ↦ rw dropped later
      ]
]

pub redactable-contains :
    (vs : List Text) (v : Text)
    → contains vs v ≡ true
    → 8 ≤ length v
    → contains (redactable vs) v ≡ true
unfolding redactable
redactable-contains vs v h l =
    rw (any-sort_by longer (text_eq v) (long_enough vs)) (long_enough-contains vs v h l)
