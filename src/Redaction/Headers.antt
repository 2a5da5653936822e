-- ===== src/Redaction/Headers.antt =====
-- The headers that are kept with an event (webhook_doorman/redaction.py, `redact_headers`).
use webhook_doorman.Prelude.{◌≡◌, refl, ap, Bool, true, ◌||◌, List, [], ◌∷◌, map}
use webhook_doorman.Prelude.Tests.{if◌then◌else◌}
use webhook_doorman.Prelude.Lists.{All}
use webhook_doorman.Prelude.Text.{Text, codes, contains, is_empty}
use webhook_doorman.Redaction.{redacted, redact_all, redactable}

abbrev pub sensitive_headers : List Text
sensitive_headers =
    codes "authorization"
    ∷ codes "proxy-authorization"
    ∷ codes "cookie"
    ∷ codes "set-cookie"
    ∷ codes "x-api-key"
    ∷ codes "x-auth-token"
    ∷ codes "x-authorization"
    ∷ codes "x-vikunja-signature"
    ∷ codes "x-hub-signature"
    ∷ codes "x-hub-signature-256"
    ∷ codes "x-gitlab-token"
    ∷ codes "x-webhook-signature"
    ∷ []

-- `str.lower` is an argument.
module _ (lower : Text → Text) where
  unfoldable pub lowered_names : List Text → List Text
  lowered_names [] = []
  lowered_names (h ∷ hs) =
      let rest = lowered_names hs in if is_empty h then rest else lower h ∷ rest

  -- `lowered in by_name`.
  unfoldable pub is_credential : List Text → Text → Bool
  unfolding lowered_names
  is_credential extra_headers key =
      contains sensitive_headers (lower key) || contains (lowered_names extra_headers) (lower key)

  abbrev pub safe_value : List Text → List Text → Text → Text → Text
  safe_value extra_headers values key value =
      if is_credential extra_headers key then redacted else redact_all values value

  unfoldable pub redact_each : List Text → List Text → List (Text × Text) → List (Text × Text)
  unfolding is_credential
  redact_each extra_headers values [] = []
  redact_each extra_headers values ((key, value) ∷ headers) =
      (key, safe_value extra_headers values key value) ∷ redact_each extra_headers values headers

  unfoldable pub redact_headers : List (Text × Text) → List Text → List Text → List (Text × Text)
  unfolding redact_each
  redact_headers headers extra_headers secret_values =
      redact_each extra_headers (redactable secret_values) headers

  abbrev pub header_name : Text × Text → Text
  header_name h = h.0

  -- A header that carries a credential.
  abbrev pub IsBlanked : List Text → Text × Text → Type 0
  IsBlanked extra_headers h = is_credential extra_headers (h.0) ≡ true → h.1 ≡ redacted

  redact_each_lem :
      (extra values : List Text) (headers : List (Text × Text))
      → (map header_name (redact_each extra values headers) ≡ map header_name headers)
        × All (IsBlanked extra) (redact_each extra values headers)
  unfolding redact_each
  redact_each_lem extra values [] = (refl, tt)
  redact_each_lem extra values ((k, v) ∷ headers) =
      let rest = redact_each_lem extra values headers in
      (ap (λ l. k ∷ l) rest.0, (λ h. rw h refl, rest.1))

  -- The stored headers have the names of the request's, in order, and each one that is sensitive by
  -- its name, or that the source names as a credential, holds the marker and nothing else.
  pub redact_headers_lem :
      (headers : List (Text × Text)) (extra secret_values : List Text)
      → (map header_name (redact_headers headers extra secret_values) ≡ map header_name headers)
        × All (IsBlanked extra) (redact_headers headers extra secret_values)
  unfolding redact_headers
  redact_headers_lem headers extra secret_values =
      redact_each_lem extra (redactable secret_values) headers
