-- ===== src/Verification/BasicAuth.antt =====
-- What an HTTP Basic header must hold to pass (webhook_doorman/verification.py, `verify_basic`).
use webhook_doorman.Prelude.{
  ℕ, ◌≡◌, refl, ◌≢◌, ◌↔◌, ap, inl, inr, Bool, true, false, not, ◌&&◌, ◌||◌, Option, none, some, [],
  ◌∷◌, ◌++◌, arith,
}
use webhook_doorman.Prelude.Tests.{◌==◌, ==_iff, Bool-cases, &&_parts, ||_parts}
use webhook_doorman.Prelude.Lists.{any}
use webhook_doorman.Prelude.Text.{Text, codes, text_eq, text_eq_sound}
use webhook_doorman.Verification.{
  BasicVerify, is_blank, secure_compare, partition, compare_basic, check_basic, check_scheme,
  verify_basic, is_ascii,
}
use webhook_doorman.Verification.Genuine.{not_blank, blank_false, secure_compare_iff}

-- What `partition` finds.
partition_sound :
    (c : ℕ) (t : Text)
    → (partition c t).1 ≡ true
    → (t ≡ (partition c t).0 ++ c ∷ (partition c t).2)
      × (any (λ x. x == c) ((partition c t).0) ≡ false)
unfolding partition
partition_sound c [] h = absurd cc
partition_sound c (x ∷ t) h = elim (Bool-cases (x == c)) [
  | inl hit ↦ rw hit (ap (λ (y : ℕ). y ∷ t) ((==_iff x c).0 hit), refl)
  | inr other ↦
      let rest : (t ≡ (partition c t).0 ++ c ∷ (partition c t).2)
          × (any (λ y. y == c) ((partition c t).0) ≡ false) =
        partition_sound c t (rw other at h) in
      rw other (ap (λ (y : Text). x ∷ y) rest.0, rw other rest.1)
]

partition_complete :
    (c : ℕ) (a b : Text) → any (λ x. x == c) a ≡ false → partition c (a ++ c ∷ b) ≡ (a, true, b)
unfolding partition
partition_complete c [] b h = rw ((==_iff c c).1 refl) refl
partition_complete c (x ∷ a) b h =
    let parts : ((x == c) ≡ false) × (any (λ y. y == c) a ≡ false) =
      ||_parts (x == c) (any (λ y. y == c) a) h in
    rw (parts.0, partition_complete c a b parts.1) refl

module _ (lower : Text → Text) (decode_base64 : Text → Option Text) (user password : Text) where
  -- The header names the scheme, and its one credential decodes to the user and the password. The
  -- user has no colon.
  pub record IsBasic (presented : Text) : Type 0 where
    pub scheme : Text
    pub encoded : Text
    pub splits : presented ≡ scheme ++ b' ' ∷ encoded
    pub one_word : any (λ x. x == b' ') scheme ≡ false
    pub given : encoded ≢ []
    pub named : lower scheme ≡ codes "basic"
    pub ascii : is_ascii encoded ≡ true
    pub credential : decode_base64 encoded ≡ some (user ++ b':' ∷ password)
    pub user_whole : any (λ x. x == b':') user ≡ false

  compared :
      (r : Text × Bool × Text)
      → (compare_basic lower decode_base64 user password r).ok ≡ true
      → (r.1 ≡ true) × (user ≡ r.0) × (password ≡ r.2)
  unfolding compare_basic
  compared (a, false, b) h = absurd cc
  compared (a, true, b) h = elim (Bool-cases (secure_compare user a && secure_compare password b)) [
    | inl both ↦
        let parts : (secure_compare user a ≡ true) × (secure_compare password b ≡ true) =
          &&_parts (secure_compare user a) (secure_compare password b) both in
        (
          refl,
          ((secure_compare_iff user a).0 parts.0).1,
          ((secure_compare_iff password b).0 parts.1).1,
        )
    | inr other ↦ absurd (cc (rw other at h))
  ]

  checked :
      (o : Option Text)
      → (check_basic lower decode_base64 user password o).ok ≡ true
      → (o ≡ some (user ++ b':' ∷ password)) × (any (λ x. x == b':') user ≡ false)
  unfolding check_basic
  checked none h = absurd cc
  checked (some t) h =
      let same : ((partition b':' t).1 ≡ true)
          × (user ≡ (partition b':' t).0)
          × (password ≡ (partition b':' t).2) =
        compared (partition b':' t) h in
      let sound : (t ≡ (partition b':' t).0 ++ b':' ∷ (partition b':' t).2)
          × (any (λ x. x == b':') ((partition b':' t).0) ≡ false) =
        partition_sound b':' t same.0 in
      (ap some (rw (same.1, same.2) sound.0), rw same.1 sound.1)

  schemed :
      (r : Text × Bool × Text)
      → (check_scheme lower decode_base64 user password r).ok ≡ true
      → (lower (r.0) ≡ codes "basic")
        × (r.2 ≢ [])
        × (is_ascii (r.2) ≡ true)
        × ((check_basic lower decode_base64 user password (decode_base64 (r.2))).ok ≡ true)
  unfolding check_scheme
  schemed (scheme, found, encoded) h =
      elim (Bool-cases (not (text_eq (lower scheme) (codes "basic")) || is_blank encoded)) [
        | inl wrong ↦ absurd (cc (rw wrong at h))
        | inr right ↦
            let parts : (not (text_eq (lower scheme) (codes "basic")) ≡ false)
                × (is_blank encoded ≡ false) =
              ||_parts (not (text_eq (lower scheme) (codes "basic"))) (is_blank encoded) right in
            elim (Bool-cases (is_ascii encoded)) [
              | inl plain ↦ (
                text_eq_sound (lower scheme) (codes "basic")
                    (positive (text_eq (lower scheme) (codes "basic")) parts.0),
                not_blank encoded parts.1,
                plain,
                (rw (right, plain) at h),
              )
              | inr other ↦ absurd (cc (rw (right, other) at h))
            ]
      ]
    where
      positive : (b : Bool) → not b ≡ false → b ≡ true
      positive b h = ground arith

  -- There is an encoded part only after a space.
  found_space : (c : ℕ) (t : Text) → (partition c t).2 ≢ [] → (partition c t).1 ≡ true
  unfolding partition
  found_space c [] h = absurd (h refl)
  found_space c (x ∷ t) h = elim (Bool-cases (x == c)) [
    | inl hit ↦ rw hit refl
    | inr other ↦ rw other (found_space c t (rw other at h))
  ]

  check_scheme-IsBasic :
      (presented : Text)
      → (check_scheme lower decode_base64 user password (partition b' ' presented)).ok ≡ true
      → IsBasic presented
  check_scheme-IsBasic presented h =
      let parts : (lower ((partition b' ' presented).0) ≡ codes "basic")
          × ((partition b' ' presented).2 ≢ [])
          × (is_ascii ((partition b' ' presented).2) ≡ true)
          × ((check_basic lower decode_base64 user password
                (decode_base64 ((partition b' ' presented).2))).ok
              ≡ true) =
        schemed (partition b' ' presented) h in
      let sound : (presented ≡ (partition b' ' presented).0 ++ b' ' ∷ (partition b' ' presented).2)
          × (any (λ x. x == b' ') ((partition b' ' presented).0) ≡ false) =
        partition_sound b' ' presented (found_space b' ' presented parts.1) in
      let decoded : (decode_base64 ((partition b' ' presented).2) ≡ some (user ++ b':' ∷ password))
          × (any (λ x. x == b':') user ≡ false) =
        checked (decode_base64 ((partition b' ' presented).2)) (parts.3) in
      record {
        scheme = (partition b' ' presented).0;
        encoded = (partition b' ' presented).2;
        splits = sound.0;
        one_word = sound.1;
        given = parts.1;
        named = parts.0;
        ascii = parts.2;
        credential = decoded.0;
        user_whole = decoded.1;
      }

  IsBasic-check_scheme :
      (presented : Text)
      → user ≢ []
      → password ≢ []
      → IsBasic presented
      → (check_scheme lower decode_base64 user password (partition b' ' presented)).ok ≡ true
  unfolding check_scheme check_basic compare_basic text_eq
  IsBasic-check_scheme presented nu np h =
      rw
        (
          h.splits,
          partition_complete b' ' h.scheme h.encoded h.one_word,
          h.named,
          blank_false h.encoded h.given,
          h.ascii,
          h.credential,
          partition_complete b':' user password h.user_whole,
          (secure_compare_iff user user).1 (nu, refl),
          (secure_compare_iff password password).1 (np, refl),
        )
        refl

  -- Basic credentials pass exactly when a user and a password are set and the header is the one word
  -- `basic` in any case, a space, and ASCII that decodes to the user, a colon and the password. So a user
  -- with a colon in it never passes.
  pub verify_basic_iff :
      (spec : BasicVerify) (presented : Text)
      → ((verify_basic lower decode_base64 spec presented user password).ok ≡ true)
        ↔ ((user ≢ []) × (password ≢ []) × IsBasic presented)
  unfolding verify_basic
  verify_basic_iff spec presented = (
    (λ h. elim (Bool-cases (is_blank user || is_blank password)) [
      | inl unset ↦ absurd (cc (rw unset at h))
      | inr set ↦ elim (Bool-cases (is_blank presented)) [
        | inl missing ↦ absurd (cc (rw (set, missing) at h))
        | inr sent ↦
            let parts : (is_blank user ≡ false) × (is_blank password ≡ false) =
              ||_parts (is_blank user) (is_blank password) set in
            (
              not_blank user parts.0,
              not_blank password parts.1,
              check_scheme-IsBasic presented (rw (set, sent) at h),
            )
      ]
    ]),
    (λ h.
        rw (blank_false user h.0, blank_false password h.1, sent_one presented h.2)
          (IsBasic-check_scheme presented h.0 h.1 h.2)),
  )
    where
      append_not_blank : (a b : Text) (c : ℕ) → is_blank (a ++ c ∷ b) ≡ false
      append_not_blank [] b c = refl
      append_not_blank (x ∷ a) b c = refl

      sent_one : (t : Text) → IsBasic t → is_blank t ≡ false
      sent_one t h = rw h.splits (append_not_blank h.scheme h.encoded b' ')
