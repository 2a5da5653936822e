-- ===== src/App/Closed.antt =====
-- Who may use the admin API and read the metrics (webhook_doorman/app.py, with the token rules of
-- secrets.py).
use webhook_doorman.Prelude.{
  ℕ, ◌≤◌, ◌<◌, ◌≡◌, refl, ◌≢◌, sym, subst, ◌↔◌, ◌⊎◌, inl, inr, Bool, true, false, ◌||◌, Option,
  none, some, List, [], ◌∷◌, arith,
}
use webhook_doorman.Prelude.Tests.{if◌then◌else◌, ltb, ◌==◌, Bool-cases, ||_parts}
use webhook_doorman.Prelude.Lists.{length, length-take}
use webhook_doorman.Prelude.Int.{ℤ, pos, negsuc}
use webhook_doorman.Prelude.Text.{Text, is_empty, strip}
use webhook_doorman.Models.{DlqEntry, HeldEntry}
use webhook_doorman.Verification.{get_text}
use webhook_doorman.Verification.Genuine.{secure_compare_iff}
use webhook_doorman.Secrets.{Resolved, admin_token, named_token, usable_token}
use webhook_doorman.Store.Listing.{list_dlq, list_held, newer_entry, dlq_rows}
use webhook_doorman.Prelude.Sort.{sort_by}
use webhook_doorman.Store.Tables.{Db}
use webhook_doorman.Store.Paging.{list_held_page}
use webhook_doorman.Engine.Setup.{Setup, EngineState}
use webhook_doorman.Engine.Admin.{release, replay}
use webhook_doorman.App.Admin.{
  admin_answer, AdminReply, Page, presented_token, check_token, check_admin_token, replay_route,
  release_route, list_dlq_route, list_held_route, effective_limit, page_of, last_id, dlq_id,
  held_id, cursor_of,
}

-- A token is worth something: it is not blank, and as long as the configuration asks for.
abbrev pub IsStrong : ℕ → Text → Type 0
IsStrong min_length token = (is_empty (strip token) ≡ false) × (min_length ≤ length token)

not_shorter : (a b : ℕ) → ltb a b ≡ false → b ≤ a
not_shorter a b h = ground arith

usable_token-IsStrong :
    (min_length : ℕ) (value token : Text)
    → usable_token min_length value ≡ some token
    → (value ≡ token) × IsStrong min_length token
unfolding usable_token
usable_token-IsStrong min_length value token h =
    elim (Bool-cases (is_empty (strip value) || ltb (length value) min_length)) [
      | inl weak ↦ absurd (cc (rw weak at h))
      | inr strong ↦
          let same : value ≡ token = cc (rw strong at h) in
          let parts = ||_parts (is_empty (strip value)) (ltb (length value) min_length) strong in
          rw (sym same) (refl, (parts.0, not_shorter (length value) min_length parts.1))
    ]

named_token-IsStrong :
    (name : Option Text) (min_length : ℕ) (secrets : List (Text × Text)) (token : Text)
    → named_token name min_length secrets ≡ some token
    → IsStrong min_length token
unfolding named_token
named_token-IsStrong none min_length secrets token h = absurd (cc)
named_token-IsStrong (some []) min_length secrets token h = absurd (cc)
named_token-IsStrong (some (c ∷ name)) min_length secrets token h =
    (usable_token-IsStrong min_length (get_text (c ∷ name) secrets) token h).1

strip-nil : strip [] ≡ []
unfolding strip
strip-nil = refl

strong_nonempty : (n : ℕ) (t : Text) → IsStrong n t → t ≢ []
strong_nonempty n t h e = cc (rw (e, strip-nil) at (h.0))

effective_limit_bounds : (l : ℤ) → (1 ≤ effective_limit l) × (effective_limit l ≤ 100)
unfolding effective_limit
effective_limit_bounds (pos n) = omega arith
effective_limit_bounds (negsuc n) = omega arith

length-list_dlq : (n : ℕ) (before_id : Option ℕ) (db : Db) → length (list_dlq n before_id db) ≤ n
unfolding list_dlq
length-list_dlq n before_id db =
    omega (arith, length-take n (sort_by newer_entry (dlq_rows before_id db db.dlq)))

length-list_held : (n : ℕ) (before_id : Option ℕ) (db : Db) → length (list_held n before_id db) ≤ n
length-list_held n before_id db = (list_held_page n before_id db).0

module _ {A : Type 0} where
  pub record IsBounded (page : Page A) : Type 0 where
    pub at_least_one : 1 ≤ page.limit
    pub at_most_100 : page.limit ≤ 100
    pub counted : page.count ≡ length page.entries
    pub within : page.count ≤ page.limit
    pub cursor : (page.next_before_id ≡ none) ↔ (page.count < page.limit)

  last_id-some : (id_of : A → ℕ) (e : A) (entries : List A) → last_id id_of (e ∷ entries) ≢ none
  last_id-some id_of e [] h = cc
  last_id-some id_of e (e' ∷ entries) h = last_id-some id_of e' entries h

  last_id-none :
      (id_of : A → ℕ) (entries : List A) → 0 < length entries → last_id id_of entries ≢ none
  last_id-none id_of [] h = absurd (omega arith)
  last_id-none id_of (e ∷ entries) h = last_id-some id_of e entries

  page_of-IsBounded :
      (id_of : A → ℕ) (l : ℤ) (entries : List A)
      → length entries ≤ effective_limit l
      → IsBounded (page_of id_of (effective_limit l) entries)
  unfolding page_of
  page_of-IsBounded id_of l entries h =
      let limits = effective_limit_bounds l in
      record {
        at_least_one = limits.0;
        at_most_100 = limits.1;
        counted = refl;
        within = h;
        cursor = elim (Bool-cases (length entries == effective_limit l)) [
          | inl full ↦ rw full (
            λ e. absurd (last_id-none id_of entries (ground arith) e),
            λ less. absurd (ground arith),
          )
          | inr short ↦ rw short (λ e. ground arith, λ less. refl)
        ];
      }

  ok_or_status :
      (passes : Bool) (made page : Page A)
      → IsBounded made
      → (if passes then AdminReply.ok made else AdminReply.status 401) ≡ AdminReply.ok page
      → IsBounded page
  ok_or_status true made page b h = let same : made ≡ page = cc in subst IsBounded same b
  ok_or_status false made page b h = absurd (cc)

module _ (Address Network : Type 0) (resolved : Resolved Address Network) where
  -- The caller presents the token that the environment holds, and that token is strong.
  abbrev pub IsAuthorized : Text → Type 0
  IsAuthorized presented =
      (admin_token Address Network resolved ≡ some presented)
      × IsStrong resolved.config.admin_min_token_length presented

  check_token_iff :
      (o : Option Text) (presented : Text)
      → ((token : Text) → o ≡ some token → IsStrong resolved.config.admin_min_token_length token)
      → (check_token o presented ≡ true)
        ↔ ((o ≡ some presented) × IsStrong resolved.config.admin_min_token_length presented)
  unfolding check_token
  check_token_iff none presented k = (λ h. absurd (cc), λ h. absurd (cc (h.0)))
  check_token_iff (some token) presented k = (
    λ h.
        let same : token ≡ presented = ((secure_compare_iff token presented).0 h).1 in
        rw (sym same) (refl, k token refl),
    λ h.
        let same : token ≡ presented = cc (h.0) in
        (secure_compare_iff token presented).1
          (strong_nonempty resolved.config.admin_min_token_length token (k token refl), same),
  )

  module _ (u : Setup) where
    -- The admin token passes exactly when it is the one of the environment, which counts only if it
    -- is not blank and has the configured length: with no token, or a short one, nothing passes.
    pub check_admin_token_iff :
        (presented : Text)
        → (check_admin_token Address Network resolved u presented ≡ true) ↔ IsAuthorized presented
    unfolding check_admin_token admin_token
    check_admin_token_iff presented =
        check_token_iff (admin_token Address Network resolved) presented (λ token e.
          named_token-IsStrong resolved.config.admin_token_env
            resolved.config.admin_min_token_length resolved.secrets token e)

    -- The admin API is closed without its token: the one of the environment, if that is not blank and
    -- has the configured length. With it, replay and release do what the engine does. Without it, or
    -- where there is none, each of the four routes answers 401 whatever it is asked for, so that the
    -- answer tells nothing of which events there are, and replay and release leave the whole state.
    pub admin_closed :
        (authorization : Text) (event_id now : ℕ) (limit : ℤ) (before_id : Option ℤ)
        (s : EngineState)
        → (IsAuthorized (presented_token authorization)
            × (replay_route Address Network resolved u event_id authorization now s
                ≡ admin_answer (replay u event_id now s))
            × (release_route Address Network resolved u event_id authorization now s
                ≡ admin_answer (release u event_id now s)))
          ⊎ ((¬ IsAuthorized (presented_token authorization))
              × (replay_route Address Network resolved u event_id authorization now s
                  ≡ (AdminReply.status 401, s))
              × (release_route Address Network resolved u event_id authorization now s
                  ≡ (AdminReply.status 401, s))
              × (list_dlq_route Address Network resolved u limit before_id authorization s
                  ≡ AdminReply.status 401)
              × (list_held_route Address Network resolved u limit before_id authorization s
                  ≡ AdminReply.status 401))
    unfolding replay_route release_route list_dlq_route list_held_route
    admin_closed authorization event_id now limit before_id s =
        let test = check_admin_token_iff (presented_token authorization) in
        elim (Bool-cases
          (check_admin_token Address Network resolved u (presented_token authorization))) [
            | inl passes ↦ inl (test.0 passes, rw passes refl, rw passes refl)
            | inr fails ↦
                inr
                  ((λ h. cc (test.1 h)), rw fails refl, rw fails refl, rw fails refl, rw fails refl)
          ]

    -- A page that an authorised caller gets, of the dead letters or of the held events, has at most
    -- `limit` entries, and that limit is between 1 and 100 whatever was asked for; a cursor for the
    -- next page is offered exactly when the page is full.
    pub list_routes_bounds :
        (authorization : Text) (limit : ℤ) (before_id : Option ℤ) (s : EngineState)
        → ((page : Page DlqEntry)
            → list_dlq_route Address Network resolved u limit before_id authorization s
              ≡ AdminReply.ok page
            → IsBounded page)
          × ((page : Page HeldEntry)
              → list_held_route Address Network resolved u limit before_id authorization s
                ≡ AdminReply.ok page
              → IsBounded page)
    unfolding list_dlq_route list_held_route
    list_routes_bounds authorization limit before_id s =
        let passes : Bool =
          check_admin_token Address Network resolved u (presented_token authorization) in
        (
          λ page h.
              ok_or_status passes _ page
                (page_of-IsBounded dlq_id limit _
                  (length-list_dlq (effective_limit limit) (cursor_of before_id) s.db))
                h,
          λ page h.
              ok_or_status passes _ page
                (page_of-IsBounded held_id limit _
                  (length-list_held (effective_limit limit) (cursor_of before_id) s.db))
                h,
        )
