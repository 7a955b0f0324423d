-- ===== src/Session.antt =====
-- frontend/src/auth/AuthContext.tsx, the answers of frontend/src/api/client.ts, and the choice of
-- the view in frontend/src/App.tsx: who is signed in.
--
-- The state is the provider's, with the entry `antimoney-user` of `localStorage`. Each run of the
-- mount effect has a number; its `cancelled` flag is false for the number in `live` alone, which
-- is the validation that is under way.
pub mod Invariant
mod Tests
use antimoney.Prelude.{
  ℕ, suc, ◌+◌, Bool, true, false, not, ◌==◌, eqb, leb, ◌&&◌, String, Option, none, some,
  if◌then◌else◌,
}
use mathlib.Core.Option

pub record AuthUser : Type 0 where
  pub user_id : String
  pub book_guid : String
  pub email : String
  pub name : String

-- What `localStorage` holds: nothing, a text that is no JSON, or a user.
pub data Cache : Type 0 where
  absent unreadable : Cache
  saved : AuthUser → Cache

pub record State : Type 0 where
  pub user : Option AuthUser
  pub loading : Bool
  pub cache : Cache
  pub live : Option ℕ
  pub next : ℕ

-- The answer to a call: its status, its `error` field if its body is JSON with one.
pub record Response : Type 0 where
  pub status : ℕ
  pub is_json : Bool
  pub error : Option String

pub data Outcome : Type 0 where
  failed : String → Outcome
  failed_status : ℕ → Outcome
  no_content : Outcome
  content : Outcome
  not_json : Outcome

-- `res.ok`
abbrev pub is_ok : ℕ → Bool
is_ok status = leb 200 status && leb status 299

-- The error of a call that failed; `status_text` stands in for a body that is not JSON.
abbrev pub error_of : String → Response → Outcome
error_of status_text r =
    if r.is_json
    then elim r.error [
      | none ↦ failed_status r.status
      | some e ↦ if e == "" then failed_status r.status else failed e
    ]
    else (if status_text == "" then failed_status r.status else failed status_text)

-- `fetchJSON`, on the answer of the server, with its effect on the session.
unfoldable pub fetch_json : String → Response → State → Outcome × State
fetch_json status_text r s =
    if eqb r.status 401
    then (failed "Session expired", record s { cache = absent; user = none })
    else if not (is_ok r.status)
    then (error_of status_text r, s)
    else if eqb r.status 204
    then (no_content, s)
    else ((if r.is_json then content else not_json), s)

-- `JSON.parse(saved)`
abbrev pub cached_user : Cache → Option AuthUser → Option AuthUser
cached_user absent u = u
cached_user unreadable u = u
cached_user (saved v) u = some v

pub data Event : Type 0 where
  -- the mount effect and its clean-up
  mounted unmounted : Event
  -- the answer to `/auth/me` of the run with the number, good or bad
  validated : ℕ → AuthUser → Event
  rejected : ℕ → Event
  -- `login` or `register` with a good answer, and with a bad one, which throws
  signed_in : AuthUser → Event
  sign_in_failed : Event
  logged_out : Event
  api_answer : String → Response → Event

abbrev pub is_live : ℕ → Option ℕ → Bool
is_live n none = false
is_live n (some m) = eqb n m

unfoldable pub step : Event → State → State
unfolding fetch_json
step mounted s = record s {
  user = cached_user s.cache s.user;
  live = some s.next;
  next = suc s.next;
}
step unmounted s = record s { live = none }
step (validated n u) s =
    if is_live n s.live
    then record s { user = some u; cache = saved u; loading = false; live = none }
    else s
step (rejected n) s =
    if is_live n s.live
    then record s { user = none; cache = absent; loading = false; live = none }
    else s
step (signed_in u) s = record s { user = some u; cache = saved u }
step sign_in_failed s = s
step logged_out s = record s { user = none; cache = absent }
step (api_answer text r) s = (fetch_json text r s).1

-- `AppContent`
pub data View : Type 0 where
  spinner login_page pages : View

unfoldable pub view : State → View
view s = if s.loading then spinner else elim s.user [ none ↦ login_page | some u ↦ pages ]
