-- ===== src/App/Readable.antt =====
-- Which requests have a body that is read (webhook_doorman/app.py, `read_body_capped`), and which of
-- these verify.
use webhook_doorman.Prelude.{
  ℕ, ◌≤◌, ◌≡◌, refl, sym, subst, ◌↔◌, true, false, Option, none, some, List,
}
use webhook_doorman.Prelude.Lists.{length}
use webhook_doorman.Prelude.Text.{codes}
use webhook_doorman.Config.Source.{SourceConfig}
use webhook_doorman.Engine.Setup.{Setup}
use webhook_doorman.App.Body.{join, IsDeclared, read_body_capped_iff}
use webhook_doorman.App.Handler.{Request, Platform, read_body, verify_request, find_header}

module _ (Address Network : Type 0) (p : Platform Address Network) (u : Setup) where
  -- The headers declare no length, or a number within the cap, and the chunks together are within it.
  abbrev pub IsReadable : Request → Type 0
  IsReadable r =
      IsDeclared p.max_body_bytes (find_header (codes "content-length") r.headers)
      × (length (join r.chunks) ≤ p.max_body_bytes)

  -- The readable body does not verify, and checking it raises nothing.
  abbrev pub IsForged : SourceConfig Address Network → Request → Type 0
  IsForged source r =
      IsReadable r
      × ((verify_request Address Network p u source (join r.chunks) r).ok ≡ false)
      × ((verify_request Address Network p u source (join r.chunks) r).raised ≡ false)

  abbrev pub IsGenuine : SourceConfig Address Network → Request → Type 0
  IsGenuine source r =
      IsReadable r × ((verify_request Address Network p u source (join r.chunks) r).ok ≡ true)

  -- What is read is all that was sent.
  read_body-IsReadable :
      (r : Request) (body : List ℕ)
      → read_body Address Network p u r ≡ some body
      → IsReadable r × (body ≡ join r.chunks)
  unfolding read_body
  read_body-IsReadable r body e =
      let parts =
        (read_body_capped_iff p.max_body_bytes (find_header (codes "content-length") r.headers)
            r.chunks body).0
          e in
      ((parts.0, rw (sym (parts.1)) (parts.2)), parts.1)

  IsReadable-read_body :
      (r : Request) → IsReadable r → read_body Address Network p u r ≡ some (join r.chunks)
  unfolding read_body
  IsReadable-read_body r h =
      (read_body_capped_iff p.max_body_bytes (find_header (codes "content-length") r.headers)
          r.chunks (join r.chunks)).1
        (h.0, refl, h.1)

  -- Refusals of one body, as it is read.
  abbrev pub IsUnverified : SourceConfig Address Network → Option (List ℕ) → Request → Type 0
  IsUnverified source o r =
      (body : List ℕ) × (o ≡ some body)
      × ((verify_request Address Network p u source body r).ok ≡ false)
      × ((verify_request Address Network p u source body r).raised ≡ false)

  abbrev pub IsVerified : SourceConfig Address Network → Option (List ℕ) → Request → Type 0
  IsVerified source o r =
      (body : List ℕ) × (o ≡ some body)
      × ((verify_request Address Network p u source body r).ok ≡ true)

  pub unreadable_iff : (r : Request) → (read_body Address Network p u r ≡ none) ↔ (¬ IsReadable r)
  unreadable_iff r = by_case (read_body Address Network p u r) refl
    where
      by_case :
          (o : Option (List ℕ))
          → read_body Address Network p u r ≡ o
          → (read_body Address Network p u r ≡ none) ↔ (¬ IsReadable r)
      by_case none e = (λ h k. absurd (cc (IsReadable-read_body r k)), λ h. e)
      by_case (some body) e = (λ h. absurd (cc), λ h. absurd (h (read_body-IsReadable r body e).0))

  pub IsUnverified-IsForged :
      (source : SourceConfig Address Network) (r : Request)
      → IsUnverified source (read_body Address Network p u r) r ↔ IsForged source r
  IsUnverified-IsForged source r = (
    (λ h.
        let read = read_body-IsReadable r h.0 h.1 in
        (
          read.0,
          subst (λ b. (verify_request Address Network p u source b r).ok ≡ false) read.1 (h.2),
          subst (λ b. (verify_request Address Network p u source b r).raised ≡ false) read.1 (h.3),
        )),
    (λ h. (join r.chunks, IsReadable-read_body r h.0, h.1, h.2)),
  )

  pub IsVerified-IsGenuine :
      (source : SourceConfig Address Network) (r : Request)
      → IsVerified source (read_body Address Network p u r) r
      → IsGenuine source r
  IsVerified-IsGenuine source r h =
      let read = read_body-IsReadable r h.0 h.1 in
      (read.0, subst (λ b. (verify_request Address Network p u source b r).ok ≡ true) read.1 (h.2))
