-- ===== src/Sessions/Series.antt =====
-- Series of sign-ins, sign-outs, lookups and clean-ups (app/services/session_manager.py).
use fleet_manager.Prelude.{ℕ, ◌≡◌, refl, Option, List, [], ◌∷◌, find?, find?-true, not, Elem-filter}
use fleet_manager.Prelude.Result.{Result, ok, err}
use fleet_manager.Store.{UserType}
use fleet_manager.Sessions.{
  Platform, SessionTables, SignIn, SessionError, is_token_of, invalidate_user, register_session,
  is_wanted, logout_session, is_expired, cleanup_expired_sessions, get_active_session,
  update_last_activity,
}
use fleet_manager.Sessions.Single.{IsSound, sign_out-IsSound, cached-IsLive}
use fleet_manager.Sessions.Registered.{register_session-IsSound, update_last_activity-IsSound}

-- The last is the end of a cached entry's life.
pub data SessionRequest : Type 0 where
  sign_in : SignIn → SessionRequest
  log_out : UserType → ℕ → Option Platform → SessionRequest
  look_up : UserType → ℕ → Option Platform → SessionRequest
  touch : ℕ → SessionRequest
  clean_up : SessionRequest
  forget : UserType → ℕ → SessionRequest

-- A refused sign-in changes nothing.
abbrev pub registered : SessionTables → Result SessionError SessionTables → SessionTables
registered tables (ok tables') = tables'
registered tables (err e) = tables

abbrev pub take_session : SessionTables → SessionRequest → ℕ → SessionTables
take_session tables (sign_in r) now = registered tables (register_session tables r now)
take_session tables (log_out t u platform) now = (logout_session tables t u platform now).0
take_session tables (look_up t u platform) now = (get_active_session tables t u platform).0
take_session tables (touch session_id) now = update_last_activity tables session_id now
take_session tables clean_up now = (cleanup_expired_sessions tables now).0
take_session tables (forget t u) now = record tables { tokens = invalidate_user t u tables.tokens }

unfoldable pub take_sessions : SessionTables → List (SessionRequest × ℕ) → SessionTables
take_sessions tables [] = tables
take_sessions tables ((request, now) ∷ rest) = take_sessions (take_session tables request now) rest

registered-IsSound :
    (tables : SessionTables) (o : Result SessionError SessionTables)
    → ((tables' : SessionTables) → o ≡ ok tables' → IsSound tables')
    → IsSound tables
    → IsSound (registered tables o)
registered-IsSound tables (ok tables') keeps sound = keeps tables' refl
registered-IsSound tables (err e) keeps sound = sound

take_session-IsSound :
    (tables : SessionTables) (request : SessionRequest) (now : ℕ)
    → IsSound tables
    → IsSound (take_session tables request now)
unfolding logout_session get_active_session cleanup_expired_sessions
take_session-IsSound tables (sign_in r) now sound =
    registered-IsSound tables (register_session tables r now)
      (λ tables' h. register_session-IsSound tables r now tables' h sound) sound
take_session-IsSound tables (log_out t u platform) now sound =
    sign_out-IsSound (is_wanted t u platform) now tables sound
take_session-IsSound tables (look_up t u platform) now sound = (
  sound.0,
  cached-IsLive tables (find? (is_wanted t u platform) tables.rows)
      (λ s e. (find?-true (is_wanted t u platform) tables.rows e).1) sound,
)
take_session-IsSound tables (touch session_id) now sound =
    update_last_activity-IsSound tables session_id now sound
take_session-IsSound tables clean_up now sound = sign_out-IsSound (is_expired now) now tables sound
take_session-IsSound tables (forget t u) now sound =
    (sound.0, λ c m. sound.1 c (Elem-filter (λ c. not (is_token_of t u c)) tables.tokens m).0)

-- If session ids are keys, no user has two active sessions on one platform, sessions that are not
-- active have no token, and each cached token is that of an active session of its user, then all this
-- still holds after any series of sign-ins, sign-outs, lookups, activities, clean-ups and expiries of
-- cached entries.
pub take_sessions-IsSound :
    (requests : List (SessionRequest × ℕ)) (tables : SessionTables)
    → IsSound tables
    → IsSound (take_sessions tables requests)
unfolding take_sessions
take_sessions-IsSound [] tables sound = sound
take_sessions-IsSound ((request, now) ∷ rest) tables sound =
    take_sessions-IsSound rest (take_session tables request now)
      (take_session-IsSound tables request now sound)
