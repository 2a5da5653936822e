-- ===== src/Verification/Genuine.antt =====
-- Which signatures and tokens pass (webhook_doorman/verification.py).
use webhook_doorman.Prelude.{
  ℕ, ◌≡◌, refl, ◌≢◌, ◌↔◌, sym, ◌∙◌, inl, inr, true, false, not, ◌&&◌, List, [], ◌∷◌, ◌++◌, arith,
}
use webhook_doorman.Prelude.Tests.{==_iff, Bool-cases}
use webhook_doorman.Prelude.Text.{Text, text_eq_iff, text_eq_sound}
use webhook_doorman.Redaction.{starts_with}
use webhook_doorman.Verification.{
  Encoding, HmacVerify, BearerVerify, is_blank, secure_compare, verify_hmac, verify_bearer,
}

pub not_blank : (t : Text) → is_blank t ≡ false → t ≢ []
not_blank t h = λ e. cc (rw e at h)

pub blank_false : (t : Text) → t ≢ [] → is_blank t ≡ false
blank_false [] h = absurd (h refl)
blank_false (c ∷ t) h = refl

-- A comparison succeeds exactly on two equal credentials that are not empty.
pub secure_compare_iff : (a b : Text) → (secure_compare a b ≡ true) ↔ ((a ≢ []) × (a ≡ b))
unfolding secure_compare
secure_compare_iff [] b = ((λ h. absurd cc), (λ h. absurd (h.0 refl)))
secure_compare_iff (c ∷ a) [] = ((λ h. absurd cc), (λ h. absurd (cc (h.1))))
secure_compare_iff (c ∷ a) (d ∷ b) = (
  (λ h. ((λ e. cc), text_eq_sound (c ∷ a) (d ∷ b) h)),
  (λ h. (text_eq_iff (c ∷ a) (d ∷ b)).1 (h.1)),
)

starts_with_append : (p t : Text) → starts_with p (p ++ t) ≡ true
unfolding starts_with
starts_with_append [] t = refl
starts_with_append (c ∷ p) t = rw ((==_iff c c).1 refl) (starts_with_append p t)

-- A bearer token passes exactly when a secret is set and the header is the prefix and the secret.
pub verify_bearer_iff :
    (spec : BearerVerify) (presented secret : Text)
    → ((verify_bearer spec presented secret).ok ≡ true)
      ↔ ((secret ≢ []) × (presented ≢ []) × (presented ≡ spec.prefix ++ secret))
unfolding verify_bearer
verify_bearer_iff spec presented secret = (
  (λ h. elim (Bool-cases (is_blank secret)) [
    | inl unset ↦ absurd (cc (rw unset at h))
    | inr set ↦ elim (Bool-cases (is_blank presented)) [
      | inl missing ↦ absurd (cc (rw (set, missing) at h))
      | inr sent ↦ elim (Bool-cases (secure_compare (spec.prefix ++ secret) presented)) [
        | inl equal ↦ (
          not_blank secret set,
          not_blank presented sent,
          sym (((secure_compare_iff (spec.prefix ++ secret) presented).0 equal).1),
        )
        | inr other ↦ absurd (cc (rw (set, sent, other) at h))
      ]
    ]
  ]),
  (λ h.
      rw
        (
          blank_false secret h.0,
          blank_false presented h.1,
          (secure_compare_iff (spec.prefix ++ secret) presented).1 ((λ e. h.1 (h.2 ∙ e)), sym h.2),
        )
        refl),
)

module _ (digest : Text → List ℕ → Encoding → Text) where
  -- A signature passes exactly when a secret is set and the header is the prefix and the digest of
  -- the raw body under the secret, in the configured encoding.
  pub verify_hmac_iff :
      (spec : HmacVerify) (body : List ℕ) (presented secret : Text)
      → ((verify_hmac digest spec body presented secret).ok ≡ true) ↔ (
          (secret ≢ [])
          × (presented ≢ [])
          × (presented ≡ spec.prefix ++ digest secret body spec.encoding))
  unfolding verify_hmac
  verify_hmac_iff spec body presented secret = (
    (λ h. elim (Bool-cases (is_blank secret)) [
      | inl unset ↦ absurd (cc (rw unset at h))
      | inr set ↦ elim (Bool-cases (is_blank presented)) [
        | inl missing ↦ absurd (cc (rw (set, missing) at h))
        | inr sent ↦
            elim (Bool-cases
              (not (is_blank spec.prefix) && not (starts_with spec.prefix presented))) [
                | inl wrong ↦ absurd (cc (rw (set, sent, wrong) at h))
                | inr right ↦
                    elim (Bool-cases (
                      secure_compare (spec.prefix ++ digest secret body spec.encoding) presented)) [
                        | inl equal ↦ (
                          not_blank secret set,
                          not_blank presented sent,
                          sym (
                              ((secure_compare_iff (spec.prefix ++ digest secret body spec.encoding)
                                  presented).0
                                equal).1),
                        )
                        | inr other ↦ absurd (cc (rw (set, sent, right, other) at h))
                      ]
              ]
      ]
    ]),
    (λ h.
        rw
          (
            blank_false secret h.0,
            blank_false presented h.1,
            prefix_right spec.prefix presented (digest secret body spec.encoding) h.2,
            (secure_compare_iff (spec.prefix ++ digest secret body spec.encoding) presented).1
                ((λ e. h.1 (h.2 ∙ e)), sym h.2),
          )
          refl),
  )
    where
      prefix_right :
          (p presented t : Text)
          → presented ≡ p ++ t
          → (not (is_blank p) && not (starts_with p presented)) ≡ false
      prefix_right p presented t e = rw (e, starts_with_append p t) (ground arith)
