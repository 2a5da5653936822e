-- ===== src/App/Rejoined.antt =====
-- A secret that sanitising puts together again (webhook_doorman/app.py, where the handler redacts
-- before it sanitises).
use webhook_doorman.Prelude.{
  ℕ, zero, ◌≤◌, ◌<◌, ◌+◌, ◌≡◌, refl, ap, ◌∙◌, inl, inr, Bool, true, false, Option, none, some, List,
  [], ◌∷◌, ◌++◌, arith,
}
use webhook_doorman.Prelude.Tests.{leb, Bool-cases, is_some, ||_parts}
use webhook_doorman.Prelude.Lists.{length, length-append, any}
use webhook_doorman.Prelude.Sort.{sort_by, insert_by}
use webhook_doorman.Prelude.Text.{Text}
use webhook_doorman.Json.{Fields}
use webhook_doorman.Sanitize.{Class, class_of, strip_step, strip_chars, sanitize}
use webhook_doorman.Redaction.{
  starts_with, replace_from, replace, redact_all, redacted, redactable, long_enough, redact_text,
}
use webhook_doorman.Redaction.Gone.{IsFree, starts_with_before, starts_with-length}
use webhook_doorman.App.Event.{clean_content}

-- A character that sanitising removes.
abbrev pub is_removed : ℕ → Bool
is_removed c = is_some (class_of c)

too_short : (v t : Text) → length t < length v → starts_with v t ≡ false
too_short v t l = elim (Bool-cases (starts_with v t)) [
  | inl e ↦ absurd (omega (arith, starts_with-length v t e))
  | inr e ↦ e
]

short-IsFree : (v t : Text) → length t < length v → IsFree v t
short-IsFree v [] l = too_short v [] l
short-IsFree v (c ∷ t) l = (too_short v (c ∷ t) l, short-IsFree v t (omega arith))

-- A removed character between two parts, each shorter than the secret.
module _ (v b : Text) (z : ℕ) (kept : any is_removed v ≡ false) (gone : is_removed z ≡ true) where
  across : (a : Text) → length a < length v → starts_with v (a ++ z ∷ b) ≡ false
  across a l = elim (Bool-cases (starts_with v (a ++ z ∷ b))) [
    | inl e ↦
        let short = starts_with_before is_removed v a z b kept gone e in
        absurd (omega (arith, starts_with-length v a short))
    | inr e ↦ e
  ]

  split-IsFree : (a : Text) → length a < length v → length b < length v → IsFree v (a ++ z ∷ b)
  split-IsFree [] l m = (across [] l, short-IsFree v b m)
  split-IsFree (c ∷ a) l m = (across (c ∷ a) l, split-IsFree a (omega arith) m)

replace-free : (v t : Text) → IsFree v t → replace_from v redacted zero t ≡ t
unfolding replace_from
replace-free v [] h = refl
replace-free v (c ∷ t) h = rw (h.0, replace_from) (ap (λ s. c ∷ s) (replace-free v t h.1))

strip_step_kept :
    (o : Option Class) (c : ℕ) (r : Text × List Class)
    → is_some o ≡ false
    → (strip_step o c r).0 ≡ c ∷ r.0
unfolding strip_step
strip_step_kept none c r h = refl
strip_step_kept (some k) c r h = absurd (cc)

strip_step_gone :
    (o : Option Class) (c : ℕ) (r : Text × List Class)
    → is_some o ≡ true
    → (strip_step o c r).0 ≡ r.0
unfolding strip_step
strip_step_gone none c r h = absurd (cc)
strip_step_gone (some k) c r h = refl

strip_chars-kept : (a : Text) → any is_removed a ≡ false → (strip_chars a).0 ≡ a
unfolding strip_chars
strip_chars-kept [] h = refl
strip_chars-kept (c ∷ a) h =
    let parts = ||_parts (is_removed c) (any is_removed a) h in
    strip_step_kept (class_of c) c (strip_chars a) parts.0
    ∙ ap (λ t. c ∷ t) (strip_chars-kept a parts.1)

strip_chars-split :
    (a b : Text) (z : ℕ)
    → any is_removed (a ++ b) ≡ false
    → is_removed z ≡ true
    → (strip_chars (a ++ z ∷ b)).0 ≡ a ++ b
unfolding strip_chars
strip_chars-split [] b z h gone =
    strip_step_gone (class_of z) z (strip_chars b) gone ∙ strip_chars-kept b h
strip_chars-split (c ∷ a) b z h gone =
    let parts = ||_parts (is_removed c) (any is_removed (a ++ b)) h in
    strip_step_kept (class_of c) c (strip_chars (a ++ z ∷ b)) parts.0
    ∙ ap (λ t. c ∷ t) (strip_chars-split a b z parts.1 gone)

redact_text_one :
    (v t : Text) → 8 ≤ length v → redact_text t (v ∷ []) ≡ replace_from v redacted zero t
unfolding redact_text redactable long_enough redact_all replace sort_by insert_by
redact_text_one v t l = let long : leb 8 (length v) ≡ true = ground arith in rw long refl

sanitize_split :
    (nfkc : Text → Text) (a b : Text) (z : ℕ)
    → any is_removed (a ++ b) ≡ false
    → is_removed z ≡ true
    → nfkc (a ++ z ∷ b) ≡ a ++ z ∷ b
    → (sanitize nfkc (a ++ z ∷ b)).0 ≡ a ++ b
unfolding sanitize
sanitize_split nfkc a b z kept gone same =
    ap (λ t. (strip_chars t).0) same ∙ strip_chars-split a b z kept gone

-- Sanitising can undo redaction. Whatever the secret, of at least eight characters that sanitising
-- keeps: with one character that it removes put into the middle, redaction does not know the secret,
-- and the summary that is kept of an untrusted source is the secret in the clear, unless NFKC changes
-- the text.
pub clean_content_rejoins :
    (nfkc : Text → Text) (a b : Text) (z : ℕ) (context : Fields)
    → 0 < length a
    → 0 < length b
    → 8 ≤ length (a ++ b)
    → any is_removed (a ++ b) ≡ false
    → is_removed z ≡ true
    → nfkc (a ++ z ∷ b) ≡ a ++ z ∷ b
    → (clean_content nfkc true ((a ++ b) ∷ []) (a ++ z ∷ b) context).summary ≡ a ++ b
unfolding clean_content
clean_content_rejoins nfkc a b z context p q l kept gone same =
    let n : length (a ++ b) ≡ length a + length b = length-append a b in
    let free : IsFree (a ++ b) (a ++ z ∷ b) =
      split-IsFree (a ++ b) b z kept gone a (omega arith) (omega arith) in
    let left : redact_text (a ++ z ∷ b) ((a ++ b) ∷ []) ≡ a ++ z ∷ b =
      redact_text_one (a ++ b) (a ++ z ∷ b) l ∙ replace-free (a ++ b) (a ++ z ∷ b) free in
    rw (left) (sanitize_split nfkc a b z kept gone same)
