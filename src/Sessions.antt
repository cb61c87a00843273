-- ===== src/Sessions.antt =====
-- Device sessions (app/services/session_manager.py), with the cache of the tokens that notifications
-- go to (app/services/session_cache.py). The other cached data, device details and the listings are
-- left out. `now` is the time in UTC.
pub mod Single
pub mod Registered
pub mod Series
use fleet_manager.Prelude.{
  ℕ, suc, ◌+◌, ◌*◌, Bool, true, false, not, ◌&&◌, Option, none, some, List, [], ◌∷◌, ◌++◌, map, max,
  ltb, ◌==◌, if◌then◌else◌, find?, filter, count, any, length,
}
use fleet_manager.Prelude.Result.{Result, ok, err, ◌>>◌, ◌>>=◌, raise_if}
use fleet_manager.Store.{Text, UserType}
use fleet_manager.Safety.Window.{day}

pub data Platform : Type 0 where
  web app : Platform

-- A row of `user_sessions`, with the columns that sign-in and sign-out write.
pub record DeviceSession : Type 0 where
  pub session_id : ℕ
  pub user_type : UserType
  pub user_id : ℕ
  pub tenant_id : ℕ
  pub platform : Platform
  pub fcm_token : Option Text
  pub is_active : Bool
  pub last_activity_at : ℕ
  pub expires_at : Option ℕ
  pub updated_at : ℕ

pub record CachedToken : Type 0 where
  pub user_type : UserType
  pub user_id : ℕ
  pub token : Text

pub record SessionTables : Type 0 where
  pub rows : List DeviceSession
  pub tokens : List CachedToken

abbrev pub rank_user : UserType → ℕ
rank_user UserType.admin = 0
rank_user UserType.employee = 1
rank_user UserType.vendor = 2
rank_user UserType.driver = 3

abbrev pub rank_platform : Platform → ℕ
rank_platform Platform.web = 0
rank_platform Platform.app = 1

abbrev pub is_session_of : UserType → ℕ → DeviceSession → Bool
is_session_of user_type user_id s =
    rank_user s.user_type == rank_user user_type && s.user_id == user_id && s.is_active

abbrev pub is_current : UserType → ℕ → Platform → DeviceSession → Bool
is_current user_type user_id platform s =
    is_session_of user_type user_id s && rank_platform s.platform == rank_platform platform

abbrev pub signed_out : ℕ → DeviceSession → DeviceSession
signed_out now s = record s { is_active = false; fcm_token = none; updated_at = now }

-- The loop that signs out the sessions found.
abbrev pub deactivate : (DeviceSession → Bool) → ℕ → List DeviceSession → List DeviceSession
deactivate p now [] = []
deactivate p now (s ∷ ss) = (if p s then signed_out now s else s) ∷ deactivate p now ss

abbrev pub is_token_of : UserType → ℕ → CachedToken → Bool
is_token_of user_type user_id c =
    rank_user c.user_type == rank_user user_type && c.user_id == user_id

abbrev pub invalidate_user : UserType → ℕ → List CachedToken → List CachedToken
invalidate_user user_type user_id tokens =
    filter (λ c. not (is_token_of user_type user_id c)) tokens

-- A missing token is refused by the cache.
abbrev pub set_token : UserType → ℕ → Option Text → List CachedToken → List CachedToken
set_token user_type user_id none tokens = tokens
set_token user_type user_id (some token) tokens =
    record { user_type = user_type; user_id = user_id; token = token }
    ∷ invalidate_user user_type user_id tokens

-- The users of the sessions that are signed out.
abbrev pub invalidate_users : List DeviceSession → List CachedToken → List CachedToken
invalidate_users [] tokens = tokens
invalidate_users (s ∷ ss) tokens =
    invalidate_user s.user_type s.user_id (invalidate_users ss tokens)

-- The next value of the key's sequence.
abbrev pub next_session_id : List DeviceSession → ℕ
next_session_id [] = 1
next_session_id (s ∷ ss) = max (suc s.session_id) (next_session_id ss)

pub record SignIn : Type 0 where
  pub user_type : UserType
  pub user_id : ℕ
  pub tenant_id : ℕ
  pub platform : Platform
  pub fcm_token : Text

pub data SessionError : Type 0 where
  invalid_token : SessionError

abbrev pub replaced : Option DeviceSession → ℕ → SessionTables → SessionTables
replaced none now tables = tables
replaced (some old) now tables = record {
  rows = deactivate (λ s. s.session_id == old.session_id) now tables.rows;
  tokens = invalidate_user old.user_type old.user_id tables.tokens;
}

abbrev pub new_session : SignIn → ℕ → ℕ → DeviceSession
new_session r session_id now = record {
  session_id = session_id;
  user_type = r.user_type;
  user_id = r.user_id;
  tenant_id = r.tenant_id;
  platform = r.platform;
  fcm_token = some r.fcm_token;
  is_active = true;
  last_activity_at = now;
  expires_at = some (now + 30 * day);
  updated_at = now;
}

unfoldable pub register_session : SessionTables → SignIn → ℕ → Result SessionError SessionTables
register_session tables r now = do
  raise_if (ltb (length r.fcm_token) 140) SessionError.invalid_token
  let old = find? (is_current r.user_type r.user_id r.platform) tables.rows
  let left = replaced old now tables
  ok (record {
    rows = left.rows ++ new_session r (next_session_id tables.rows) now ∷ [];
    tokens = set_token r.user_type r.user_id (some r.fcm_token) left.tokens;
  })

abbrev pub is_wanted : UserType → ℕ → Option Platform → DeviceSession → Bool
is_wanted user_type user_id none s = is_session_of user_type user_id s
is_wanted user_type user_id (some platform) s = is_current user_type user_id platform s

abbrev pub sign_out : (DeviceSession → Bool) → ℕ → SessionTables → SessionTables
sign_out p now tables = record {
  rows = deactivate p now tables.rows;
  tokens = invalidate_users (filter p tables.rows) tables.tokens;
}

-- All platforms, unless one is named; the reply says whether there was a session.
unfoldable pub logout_session :
    SessionTables → UserType → ℕ → Option Platform → ℕ → SessionTables × Bool
logout_session tables user_type user_id platform now = (
  sign_out (is_wanted user_type user_id platform) now tables,
  any (is_wanted user_type user_id platform) tables.rows,
)

abbrev pub has_passed : Option ℕ → ℕ → Bool
has_passed none now = false
has_passed (some t) now = ltb t now

abbrev pub is_expired : ℕ → DeviceSession → Bool
is_expired now s = s.is_active && has_passed s.expires_at now

unfoldable pub cleanup_expired_sessions : SessionTables → ℕ → SessionTables × ℕ
cleanup_expired_sessions tables now =
    (sign_out (is_expired now) now tables, count (is_expired now) tables.rows)

-- What a lookup of a session puts into the cache.
abbrev pub cached : Option DeviceSession → List CachedToken → List CachedToken
cached none tokens = tokens
cached (some s) tokens = set_token s.user_type s.user_id s.fcm_token tokens

unfoldable pub get_active_session :
    SessionTables → UserType → ℕ → Option Platform → SessionTables × Option DeviceSession
get_active_session tables user_type user_id platform =
    let found = find? (is_wanted user_type user_id platform) tables.rows in
    (record tables { tokens = cached found tables.tokens }, found)

abbrev pub touched : ℕ → ℕ → List DeviceSession → List DeviceSession
touched session_id now [] = []
touched session_id now (s ∷ ss) =
    (if s.session_id == session_id then record s { last_activity_at = now } else s)
    ∷ touched session_id now ss

unfoldable pub update_last_activity : SessionTables → ℕ → ℕ → SessionTables
update_last_activity tables session_id now = record {
  rows = touched session_id now tables.rows;
  tokens = cached (find? (λ s. s.session_id == session_id) tables.rows) tables.tokens;
}
