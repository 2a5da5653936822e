-- ===== src/Redaction/Bytes.antt =====
-- That a secret is gone from the stored body (webhook_doorman/redaction.py, `redact_bytes`).
use webhook_doorman.Prelude.{
  ℕ, ◌≤◌, ◌<◌, ◌≡◌, refl, sym, ap, subst, inl, inr, true, false, Option, none, some, List, [], ◌∷◌,
  arith,
}
use webhook_doorman.Prelude.Tests.{ltb, Bool-cases, Option-cases}
use webhook_doorman.Prelude.Lists.{length, All}
use webhook_doorman.Prelude.Sort.{sort_by, any-sort_by}
use webhook_doorman.Prelude.Text.{Text, contains, text_eq, text_eq_iff, text_eq_refl, is_empty}
use webhook_doorman.Prelude.Utf8.{encode_ignoring, encode_char, is_surrogate}
use webhook_doorman.Redaction.{redact_all, redactable, longer}
use webhook_doorman.Redaction.Stored.{
  redact_bytes, redact_forms, replace_forms, byte_forms, all_forms, add_form, escape_slashes,
}
use webhook_doorman.Redaction.Gone.{
  IsFree, IsPlain, redact_all-IsFree, redact_all-kept, redactable-contains,
}

replace_forms-redact_all :
    (forms : List (List ℕ)) (body : List ℕ) → replace_forms forms body ≡ redact_all forms body
unfolding replace_forms redact_all
replace_forms-redact_all [] body = refl
replace_forms-redact_all (form ∷ forms) body = replace_forms-redact_all forms _

contains-add_form :
    (form : List ℕ) (forms : List (List ℕ))
    → is_empty form ≡ false
    → contains (add_form form forms) form ≡ true
contains-add_form form forms h = elim (Bool-cases (contains forms form)) [
  | inl old ↦ rw (h, old) old
  | inr new ↦ rw (h, new, text_eq_refl form) refl
]

all_forms-contains :
    (raw escaped : List ℕ) (plain slashed : Option (List ℕ)) (forms : List (List ℕ))
    → is_empty raw ≡ false
    → all_forms raw escaped plain slashed ≡ some forms
    → contains forms raw ≡ true
all_forms-contains raw escaped none slashed forms h e = absurd (cc)
all_forms-contains raw escaped (some plain) none forms h e = absurd (cc)
all_forms-contains raw escaped (some plain) (some slashed) forms h e =
    let others =
      add_form escaped (add_form (escape_slashes escaped) (add_form plain (add_form slashed []))) in
    let same : sort_by longer (add_form raw others) ≡ forms = cc in
    rw (sym same, any-sort_by longer (text_eq raw) (add_form raw others))
      (contains-add_form raw others h)

abbrev pub IsAscii : Text → Type 0
IsAscii v = All (λ (c : ℕ). c < 128) v

encode_ignoring-ascii : (v : Text) → IsAscii v → encode_ignoring v ≡ v
unfolding encode_ignoring encode_char
encode_ignoring-ascii [] h = refl
encode_ignoring-ascii (c ∷ v) h =
    let low : ltb c 0x80 ≡ true = ground arith in
    let fine : is_surrogate c ≡ false = ground arith in
    rw (fine, low) (ap (λ t. c ∷ t) (encode_ignoring-ascii v h.1))

nonempty : (v : Text) → 8 ≤ length v → is_empty v ≡ false
nonempty [] l = absurd (omega arith)
nonempty (c ∷ v) l = refl

byte_forms-contains :
    (v : Text) (forms : List (List ℕ))
    → 8 ≤ length v
    → IsAscii v
    → byte_forms v ≡ some forms
    → contains forms v ≡ true
unfolding byte_forms
byte_forms-contains v forms l a e =
    all_forms-contains v _ _ _ forms (nonempty v l) (rw (encode_ignoring-ascii v a) at e)

redact_forms_step :
    (u : Text) (vs : List Text) (body out : List ℕ)
    → redact_forms (u ∷ vs) body ≡ some out
    → (forms : List (List ℕ)) × (byte_forms u ≡ some forms)
      × (redact_forms vs (redact_all forms body) ≡ some out)
unfolding redact_forms
redact_forms_step u vs body out = elim (Option-cases (byte_forms u)) [
  | inl fails ↦ rw (fails, redact_forms) (λ e. absurd (cc))
  | inr (forms, same) ↦
      rw (same, redact_forms, replace_forms-redact_all forms body) (λ e. (forms, refl, e))
]

finished : (body out : List ℕ) → redact_forms [] body ≡ some out → body ≡ out
unfolding redact_forms
finished body out e = cc

redact_forms-kept :
    (vs : List Text) (v : Text) (body out : List ℕ)
    → IsPlain v
    → IsFree v body
    → redact_forms vs body ≡ some out
    → IsFree v out
redact_forms-kept [] v body out p f e = subst (IsFree v) (finished body out e) f
redact_forms-kept (u ∷ vs) v body out p f e =
    let (forms, same, rest) = redact_forms_step u vs body out e in
    redact_forms-kept vs v (redact_all forms body) out p (redact_all-kept forms v body p f) rest

redact_forms-IsFree :
    (vs : List Text) (v : Text) (body out : List ℕ)
    → contains vs v ≡ true
    → IsPlain v
    → IsAscii v
    → redact_forms vs body ≡ some out
    → IsFree v out
redact_forms-IsFree [] v body out h p a e = absurd (cc)
redact_forms-IsFree (u ∷ vs) v body out h p a e =
    let (forms, same, rest) = redact_forms_step u vs body out e in
    elim (Bool-cases (text_eq v u)) [
      | inl equal ↦
          let whole : u ≡ v = sym ((text_eq_iff v u).0 equal) in
          let held : contains forms v ≡ true =
            byte_forms-contains v forms p.long a
              (subst (λ (w : Text). byte_forms w ≡ some forms) whole same) in
          redact_forms-kept vs v (redact_all forms body) out p
            (redact_all-IsFree forms v body held p) rest
      | inr other ↦ redact_forms-IsFree vs v (redact_all forms body) out (rw other at h) p a rest
    ]

-- A secret of ASCII characters is nowhere in the body that is stored.
pub redact_bytes-IsFree :
    (secrets : List Text) (v : Text) (body out : List ℕ)
    → contains secrets v ≡ true
    → IsPlain v
    → IsAscii v
    → redact_bytes body secrets ≡ some out
    → IsFree v out
unfolding redact_bytes
redact_bytes-IsFree secrets v body out h p =
    redact_forms-IsFree (redactable secrets) v body out (redactable-contains secrets v h p.long) p
