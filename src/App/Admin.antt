-- ===== src/App/Admin.antt =====
-- The admin API (webhook_doorman/app.py, `build_admin_router`, with `Engine.check_admin_token`). An
-- event id is a number of a row; of a negative one there is none, which answers as an unknown id does.
use webhook_doorman.Prelude.{ℕ, Bool, false, Option, none, some, List, [], ◌∷◌, max, min}
use webhook_doorman.Prelude.Tests.{if◌then◌else◌, ◌==◌}
use webhook_doorman.Prelude.Lists.{length}
use webhook_doorman.Prelude.Int.{ℤ, pos, negsuc}
use webhook_doorman.Prelude.Text.{Text, codes, strip}
use webhook_doorman.Models.{DlqEntry, HeldEntry}
use webhook_doorman.Redaction.{starts_with}
use webhook_doorman.Verification.{secure_compare}
use webhook_doorman.Secrets.{Resolved, admin_token}
use webhook_doorman.Store.Listing.{list_dlq, list_held}
use webhook_doorman.Engine.Setup.{Setup, EngineState, AdminResponse}
use webhook_doorman.Engine.Admin.{release, replay}

abbrev pub dlq_max_limit : ℕ
dlq_max_limit = 100

-- The body of an answer 200, or the status of another one.
pub data AdminReply {ℓ} (A : Type ℓ) : Type ℓ where
  ok : A → AdminReply A
  status : ℕ → AdminReply A

pub record Page {ℓ} (A : Type ℓ) : Type ℓ where
  pub count : ℕ
  pub limit : ℕ
  pub next_before_id : Option ℕ
  pub entries : List A

-- `text.removeprefix(prefix)`.
unfoldable pub remove_prefix : Text → Text → Text
remove_prefix [] t = t
remove_prefix (p ∷ ps) [] = []
remove_prefix (p ∷ ps) (c ∷ t) =
    let rest = remove_prefix ps t in if starts_with (p ∷ ps) (c ∷ t) then rest else c ∷ t

-- `authorization.removeprefix("Bearer ").strip()`.
unfoldable pub presented_token : Text → Text
unfolding remove_prefix
presented_token authorization = strip (remove_prefix (codes "Bearer ") authorization)

unfoldable pub check_token : Option Text → Text → Bool
check_token none presented = false
check_token (some expected) presented = secure_compare expected presented

-- `max(1, min(limit, DLQ_MAX_LIMIT))`.
unfoldable pub effective_limit : ℤ → ℕ
effective_limit (pos n) = max 1 (min n dlq_max_limit)
effective_limit (negsuc n) = 1

-- No row has an id below a negative cursor.
abbrev pub cursor_of : Option ℤ → Option ℕ
cursor_of none = none
cursor_of (some (pos n)) = some n
cursor_of (some (negsuc n)) = some 0

module _ {ℓ} {A : Type ℓ} (id_of : A → ℕ) where
  -- `entries[-1].id`.
  abbrev pub last_id : List A → Option ℕ
  last_id [] = none
  last_id (e ∷ []) = some (id_of e)
  last_id (e ∷ e' ∷ entries) = last_id (e' ∷ entries)

  unfoldable pub page_of : ℕ → List A → Page A
  page_of limit entries = record {
    count = length entries;
    limit = limit;
    next_before_id = if length entries == limit then last_id entries else none;
    entries = entries;
  }

-- `LookupError` is answered 404, and an error that nothing catches 500.
abbrev pub admin_reply : AdminResponse → AdminReply AdminResponse
admin_reply AdminResponse.not_found = AdminReply.status 404
admin_reply AdminResponse.integrity_error = AdminReply.status 500
admin_reply (AdminResponse.not_quarantined id s) =
    AdminReply.ok (AdminResponse.not_quarantined id s)
admin_reply (AdminResponse.not_replayable id s) = AdminReply.ok (AdminResponse.not_replayable id s)
admin_reply (AdminResponse.no_sinks id) = AdminReply.ok (AdminResponse.no_sinks id)
admin_reply (AdminResponse.released id sinks) = AdminReply.ok (AdminResponse.released id sinks)
admin_reply (AdminResponse.replayed id sinks) = AdminReply.ok (AdminResponse.replayed id sinks)

abbrev pub admin_answer : AdminResponse × EngineState → AdminReply AdminResponse × EngineState
admin_answer (response, s) = (admin_reply response, s)

abbrev pub dlq_id : DlqEntry → ℕ
dlq_id e = e.id

abbrev pub held_id : HeldEntry → ℕ
held_id e = e.event_id

module _ (Address Network : Type 0) (resolved : Resolved Address Network) (u : Setup) where
  unfoldable pub check_admin_token : Text → Bool
  unfolding check_token
  check_admin_token presented = check_token (admin_token Address Network resolved) presented

  -- The token is checked before the event is looked up.
  unfoldable pub replay_route : ℕ → Text → ℕ → EngineState → AdminReply AdminResponse × EngineState
  unfolding check_admin_token presented_token
  replay_route event_id authorization now s =
      if check_admin_token (presented_token authorization)
      then admin_answer (replay u event_id now s)
      else (AdminReply.status 401, s)

  unfoldable pub release_route : ℕ → Text → ℕ → EngineState → AdminReply AdminResponse × EngineState
  unfolding check_admin_token presented_token
  release_route event_id authorization now s =
      if check_admin_token (presented_token authorization)
      then admin_answer (release u event_id now s)
      else (AdminReply.status 401, s)

  unfoldable pub list_dlq_route : ℤ → Option ℤ → Text → EngineState → AdminReply (Page DlqEntry)
  unfolding check_admin_token presented_token effective_limit page_of
  list_dlq_route limit before_id authorization s =
      if check_admin_token (presented_token authorization)
      then AdminReply.ok (
          page_of dlq_id (effective_limit limit)
            (list_dlq (effective_limit limit) (cursor_of before_id) s.db))
      else AdminReply.status 401

  unfoldable pub list_held_route : ℤ → Option ℤ → Text → EngineState → AdminReply (Page HeldEntry)
  unfolding check_admin_token presented_token effective_limit page_of
  list_held_route limit before_id authorization s =
      if check_admin_token (presented_token authorization)
      then AdminReply.ok (
          page_of held_id (effective_limit limit)
            (list_held (effective_limit limit) (cursor_of before_id) s.db))
      else AdminReply.status 401
