-- ===== src/Verification/Closed.antt =====
-- `verify` (webhook_doorman/verification.py) with nothing configured to compare with.
use webhook_doorman.Prelude.{ℕ, ◌≡◌, refl, ◌⊎◌, inl, inr, Bool, false, Option, none, some, List, []}
use webhook_doorman.Prelude.Tests.{Bool-cases}
use webhook_doorman.Prelude.Text.{Text}
use webhook_doorman.Verification.{
  Encoding, VerifySpec, NoneVerify, hmac, bearer, basic, peer_only, get_text, is_blank,
  check_address, verify_peer, verify_hmac, verify_bearer, verify_basic, verify,
}

module _ (Address Network : Type 0) where
  -- The environment has no secret for the check, or an empty one; an allowlist is empty.
  abbrev pub IsUnset : VerifySpec Address Network → List (Text × Text) → Type 0
  IsUnset (hmac spec) secrets = get_text spec.secret_env secrets ≡ []
  IsUnset (bearer spec) secrets = get_text spec.secret_env secrets ≡ []
  IsUnset (basic spec) secrets =
      (get_text spec.user_env secrets ≡ []) ⊎ (get_text spec.pass_env secrets ≡ [])
  IsUnset (peer_only spec) secrets = spec.networks ≡ []

  module _ (parse_address : Text → Option Address) (contains : Network → Address → Bool)
      (repr : Text → Text) where
    address_closed :
        (spec : NoneVerify Address Network) (peer : Text) (o : Option Address)
        → spec.networks ≡ []
        → (check_address Address Network parse_address contains repr spec peer o).ok ≡ false
    unfolding check_address
    address_closed spec peer none h = refl
    address_closed spec peer (some a) h = rw h refl

    peer_closed :
        (spec : NoneVerify Address Network) (peer : Option Text)
        → spec.networks ≡ []
        → (verify_peer Address Network parse_address contains repr spec peer).ok ≡ false
    unfolding verify_peer
    peer_closed spec none h = refl
    peer_closed spec (some peer) h = elim (Bool-cases (is_blank peer)) [
      | inl missing ↦ rw missing refl
      | inr sent ↦ rw sent (address_closed spec peer (parse_address peer) h)
    ]

    -- An absent secret is never a pass: with no secret in the environment for the configured check,
    -- or an empty one, or no network in the allowlist, `verify` refuses every request, whatever its
    -- headers, its body and its peer, and whatever HMAC and base64 compute.
    pub verify_closed :
        (digest : Text → List ℕ → Encoding → Text) (lower : Text → Text)
        (decode_base64 : Text → Option Text) (spec : VerifySpec Address Network) (body : List ℕ)
        (headers : List (Text × Text)) (peer : Option Text) (secrets : List (Text × Text))
        → IsUnset spec secrets
        → (verify Address Network parse_address contains repr digest lower decode_base64 spec body
            headers peer secrets).ok
          ≡ false
    unfolding verify verify_hmac verify_bearer verify_basic
    verify_closed digest lower decode_base64 (hmac spec) body headers peer secrets h = rw h refl
    verify_closed digest lower decode_base64 (bearer spec) body headers peer secrets h = rw h refl
    verify_closed digest lower decode_base64 (basic spec) body headers peer secrets (inl h) =
        rw h refl
    verify_closed digest lower decode_base64 (basic spec) body headers peer secrets (inr h) =
        elim (Bool-cases (is_blank (get_text spec.user_env secrets))) [
          | inl unset ↦ rw unset refl
          | inr set ↦ rw (set, h) refl
        ]
    verify_closed digest lower decode_base64 (peer_only spec) body headers peer secrets h =
        peer_closed spec peer h
