-- ===== src/Verification.antt =====
-- Who may send an event (webhook_doorman/verification.py, with the `verify` models of config.py).
-- HMAC, base64, `str.lower`, and the parsing and matching of addresses are Python's own, and
-- arguments here. A header or an environment value that is missing is the empty text, as `get` with
-- a default makes it. `secure_compare` compares the UTF-8 of two strings, with surrogates passed,
-- which is equal exactly when the code points are.
pub mod Genuine
pub mod BasicAuth
pub mod Closed
use webhook_doorman.Prelude.{
  ℕ, Bool, true, false, not, ◌&&◌, ◌||◌, Option, none, some, List, [], ◌∷◌, ◌++◌,
}
use webhook_doorman.Prelude.Tests.{if◌then◌else◌, ltb, ◌==◌}
use webhook_doorman.Prelude.Lists.{any}
use webhook_doorman.Prelude.Text.{Text, codes, text_eq}
use webhook_doorman.Redaction.{starts_with}

pub data Encoding : Type 0 where
  hex base64 : Encoding

pub record HmacVerify : Type 0 where
  pub header : Text
  pub secret_env : Text
  pub prefix : Text
  pub encoding : Encoding

pub record BearerVerify : Type 0 where
  pub header : Text
  pub secret_env : Text
  pub prefix : Text

pub record BasicVerify : Type 0 where
  pub header : Text
  pub user_env : Text
  pub pass_env : Text

-- `raised` is an error that `verify` lets through instead of a result.
pub record VerificationResult : Type 0 where
  pub ok : Bool
  pub reason : Text
  pub raised : Bool

abbrev pub accepted : VerificationResult
accepted = record { ok = true; reason = []; raised = false }

abbrev pub rejected : Text → VerificationResult
rejected reason = record { ok = false; reason = reason; raised = false }

abbrev pub value_error : VerificationResult
value_error = record { ok = false; reason = []; raised = true }

abbrev pub is_blank : Text → Bool
is_blank [] = true
is_blank (c ∷ t) = false

unfoldable pub secure_compare : Text → Text → Bool
secure_compare expected presented =
    if is_blank expected || is_blank presented then false else text_eq expected presented

-- `text.partition(c)`: the parts around the first `c`, and whether there is one.
unfoldable pub partition : ℕ → Text → Text × Bool × Text
partition c [] = ([], false, [])
partition c (x ∷ t) =
    let (before, found, after) = partition c t in
    if x == c then ([], true, t) else (x ∷ before, found, after)

-- `d.get(k, "")` on a dictionary of strings.
unfoldable pub get_text : Text → List (Text × Text) → Text
get_text k [] = []
get_text k ((j, v) ∷ rest) = let found = get_text k rest in if text_eq j k then v else found

module _ (digest : Text → List ℕ → Encoding → Text) where
  unfoldable pub verify_hmac : HmacVerify → List ℕ → Text → Text → VerificationResult
  verify_hmac spec body presented secret =
      if is_blank secret
      then rejected (codes "secret is unset")
      else if is_blank presented
      then rejected (codes "missing " ++ (spec.header ++ codes " header"))
      else if not (is_blank spec.prefix) && not (starts_with spec.prefix presented)
      then rejected (codes "signature prefix mismatch")
      else if secure_compare (spec.prefix ++ digest secret body spec.encoding) presented
      then accepted
      else rejected (codes "signature mismatch")

unfoldable pub verify_bearer : BearerVerify → Text → Text → VerificationResult
verify_bearer spec presented secret =
    if is_blank secret
    then rejected (codes "secret is unset")
    else if is_blank presented
    then rejected (codes "missing " ++ (spec.header ++ codes " header"))
    else if secure_compare (spec.prefix ++ secret) presented
    then accepted
    else rejected (codes "token mismatch")

abbrev pub is_ascii : Text → Bool
is_ascii t = not (any (λ c. not (ltb c 128)) t)

-- `base64.b64decode(…, validate=True).decode("utf-8")` of an ASCII text, with `none` for a
-- `binascii.Error` and for a `UnicodeDecodeError`. Of any other text `b64decode` raises a `ValueError`
-- that nothing catches.
module _ (lower : Text → Text) (decode_base64 : Text → Option Text) where
  unfoldable pub compare_basic : Text → Text → Text × Bool × Text → VerificationResult
  compare_basic user password (presented_user, false, presented_pass) =
      rejected (codes "malformed Basic credential")
  compare_basic user password (presented_user, true, presented_pass) =
      if secure_compare user presented_user && secure_compare password presented_pass
      then accepted
      else rejected (codes "credential mismatch")

  unfoldable pub check_basic : Text → Text → Option Text → VerificationResult
  unfolding compare_basic
  check_basic user password none = rejected (codes "malformed Basic credential")
  check_basic user password (some decoded) = compare_basic user password (partition b':' decoded)

  unfoldable pub check_scheme : Text → Text → Text × Bool × Text → VerificationResult
  unfolding check_basic
  check_scheme user password (scheme, found, encoded) =
      if not (text_eq (lower scheme) (codes "basic")) || is_blank encoded
      then rejected (codes "not a Basic credential")
      else if is_ascii encoded
      then check_basic user password (decode_base64 encoded)
      else value_error

  unfoldable pub verify_basic : BasicVerify → Text → Text → Text → VerificationResult
  unfolding check_scheme
  verify_basic spec presented user password =
      if is_blank user || is_blank password
      then rejected (codes "credentials are unset")
      else if is_blank presented
      then rejected (codes "missing " ++ (spec.header ++ codes " header"))
      else check_scheme user password (partition b' ' presented)

-- An address and a network are Python's; `contains` says whether their versions are the same and the
-- address lies in the network.
module _ (Address Network : Type 0) where
  pub record NoneVerify : Type 0 where
    pub networks : List Network

  pub data VerifySpec : Type 0 where
    hmac : HmacVerify → VerifySpec
    bearer : BearerVerify → VerifySpec
    basic : BasicVerify → VerifySpec
    peer_only : NoneVerify → VerifySpec

  module _ (parse_address : Text → Option Address) (contains : Network → Address → Bool)
      (repr : Text → Text) where
    unfoldable pub check_address : NoneVerify → Text → Option Address → VerificationResult
    check_address spec peer none = rejected (codes "unparseable peer address " ++ repr peer)
    check_address spec peer (some address) =
        if any (λ network. contains network address) spec.networks
        then accepted
        else rejected (codes "peer " ++ (peer ++ codes " not in allow_from"))

    unfoldable pub verify_peer : NoneVerify → Option Text → VerificationResult
    unfolding check_address
    verify_peer spec none = rejected (codes "peer address unavailable")
    verify_peer spec (some peer) =
        if is_blank peer
        then rejected (codes "peer address unavailable")
        else check_address spec peer (parse_address peer)

    module _ (digest : Text → List ℕ → Encoding → Text) (lower : Text → Text)
        (decode_base64 : Text → Option Text) where
      unfoldable pub verify :
          VerifySpec
          → List ℕ
          → List (Text × Text)
          → Option Text
          → List (Text × Text)
          → VerificationResult
      unfolding verify_hmac verify_bearer verify_basic verify_peer
      verify (hmac spec) body headers peer secrets =
          verify_hmac digest spec body (get_text (lower spec.header) headers)
            (get_text spec.secret_env secrets)
      verify (bearer spec) body headers peer secrets =
          verify_bearer spec (get_text (lower spec.header) headers)
            (get_text spec.secret_env secrets)
      verify (basic spec) body headers peer secrets =
          verify_basic lower decode_base64 spec (get_text (lower spec.header) headers)
            (get_text spec.user_env secrets) (get_text spec.pass_env secrets)
      verify (peer_only spec) body headers peer secrets = verify_peer spec peer
