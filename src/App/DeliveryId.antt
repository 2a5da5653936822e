-- ===== src/App/DeliveryId.antt =====
-- The key that deduplication goes by (webhook_doorman/app.py, `compute_delivery_id`). SHA-256 and
-- `str.lower` are arguments.
use webhook_doorman.Prelude.{ℕ, ◌≤◌, ◌<◌, ◌≡◌, Option, none, some, List, [], ◌∷◌, ◌++◌, arith}
use webhook_doorman.Prelude.Lists.{length, take, length-append, length-take}
use webhook_doorman.Prelude.Text.{Text, codes, strip}
use webhook_doorman.Verification.{get_text}

abbrev pub max_delivery_id_length : ℕ
max_delivery_id_length = 200

module _ (lower : Text → Text) (sha256 : List ℕ → Text) where
  unfoldable pub body_id : List ℕ → Text
  body_id body = codes "sha256:" ++ sha256 body

  abbrev pub id_or_body : Text → List ℕ → Text
  id_or_body [] body = body_id body
  id_or_body (c ∷ value) body = take max_delivery_id_length (c ∷ value)

  unfoldable pub compute_delivery_id : Option Text → List (Text × Text) → List ℕ → Text
  unfolding body_id
  compute_delivery_id none headers body = body_id body
  compute_delivery_id (some []) headers body = body_id body
  compute_delivery_id (some (c ∷ name)) headers body =
      id_or_body (strip (get_text (lower (c ∷ name)) headers)) body

  module _ (digest_length : (body : List ℕ) → length (sha256 body) ≡ 64) where
    body_id_bounds : (body : List ℕ) → (0 < length (body_id body)) × (length (body_id body) ≤ 200)
    unfolding body_id
    body_id_bounds body =
        omega (arith, length-append (codes "sha256:") (sha256 body), digest_length body)

    id_or_body_bounds :
        (value : Text) (body : List ℕ)
        → (0 < length (id_or_body value body)) × (length (id_or_body value body) ≤ 200)
    id_or_body_bounds [] body = body_id_bounds body
    id_or_body_bounds (c ∷ value) body =
        omega (arith, length-take max_delivery_id_length (c ∷ value))

    -- A delivery has a key that is not empty and no longer than the index allows, whatever the
    -- producer sends in the header and in the body; a digest has 64 characters.
    pub compute_delivery_id_bounds :
        (id_header : Option Text) (headers : List (Text × Text)) (body : List ℕ)
        → (0 < length (compute_delivery_id id_header headers body))
          × (length (compute_delivery_id id_header headers body) ≤ max_delivery_id_length)
    unfolding compute_delivery_id
    compute_delivery_id_bounds none headers body = body_id_bounds body
    compute_delivery_id_bounds (some []) headers body = body_id_bounds body
    compute_delivery_id_bounds (some (c ∷ name)) headers body =
        id_or_body_bounds (strip (get_text (lower (c ∷ name)) headers)) body
