-- ===== src/Tests/VerifyRuns.antt =====
-- The stated properties of webhook_doorman/verification.py and sinks/base.py at small requests.
use webhook_doorman.Prelude.{
  ℕ, ◌≡◌, refl, ◌≢◌, ◌↔◌, Bool, true, false, Option, none, some, List, [], ◌++◌,
}
use webhook_doorman.Prelude.Text.{Text, codes}
use webhook_doorman.Verification.{
  Encoding, HmacVerify, BasicVerify, hmac, verify_hmac, verify_basic, verify, get_text,
}
use webhook_doorman.Verification.Genuine.{verify_hmac_iff}
use webhook_doorman.Verification.BasicAuth.{IsBasic, verify_basic_iff}
use webhook_doorman.Verification.Closed.{verify_closed}

-- A digest for the tests: the secret and the body.
abbrev paste : Text → List ℕ → Encoding → Text
paste secret body encoding = secret ++ body

abbrev same : Text → Text
same t = t

abbrev decode : Text → Option Text
decode t = some t

abbrev github : HmacVerify
github = record {
  header = codes "x-hub-signature-256";
  secret_env = codes "GITHUB_SECRET";
  prefix = codes "sha256=";
  encoding = Encoding.hex;
}

abbrev account : BasicVerify
account = record {
  header = codes "authorization";
  user_env = codes "USER";
  pass_env = codes "PASS";
}

verify_hmac_iff_example :
    ((verify_hmac paste github (codes "{}") (codes "sha256=key{}") (codes "key")).ok ≡ true) ↔ (
      (codes "key" ≢ [])
      × (codes "sha256=key{}" ≢ [])
      × (codes "sha256=key{}" ≡ codes "sha256=" ++ (codes "key" ++ codes "{}")))
verify_hmac_iff_example =
    verify_hmac_iff paste github (codes "{}") (codes "sha256=key{}") (codes "key")

verify_basic_iff_example :
    ((verify_basic same decode account (codes "basic bob:pw") (codes "bob") (codes "pw")).ok ≡ true)
    ↔ ((codes "bob" ≢ [])
        × (codes "pw" ≢ [])
        × IsBasic same decode (codes "bob") (codes "pw") (codes "basic bob:pw"))
verify_basic_iff_example =
    verify_basic_iff same decode (codes "bob") (codes "pw") account (codes "basic bob:pw")

-- An address is a number, and a network holds one.
abbrev read_address : Text → Option ℕ
read_address t = some 7

abbrev holds_all : ℕ → ℕ → Bool
holds_all network address = true

no_secret : get_text github.secret_env [] ≡ []
unfolding get_text
no_secret = refl

verify_closed_example :
    (verify ℕ ℕ read_address holds_all same paste same decode
      (hmac github)
      (codes "{}")
      []
      none
      []).ok
    ≡ false
verify_closed_example =
    verify_closed ℕ ℕ read_address holds_all same paste same decode (hmac github) (codes "{}") []
      none [] no_secret
