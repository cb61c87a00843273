-- ===== src/Tests/Sessions.antt =====
-- The driver of the night shift signs in on two telephones.
use fleet_manager.Prelude.{
  ℕ, zero, suc, ◌+◌, ◌*◌, ◌≡◌, refl, sym, ◌∙◌, ap, none, some, List, [], ◌∷◌, Elem, here, there,
}
use fleet_manager.Prelude.Result.{ok, err}
use fleet_manager.Store.{Text, UserType}
use fleet_manager.Safety.Window.{day}
use fleet_manager.Sessions.{
  Platform, DeviceSession, SessionTables, SignIn, SessionError, new_session, signed_out,
  register_session,
}
use fleet_manager.Sessions.Single.{IsLive, IsSound}
use fleet_manager.Sessions.Series.{SessionRequest, take_sessions, take_sessions-IsSound}
use fleet_manager.Tests.Night.{at}

abbrev repeated : ℕ → ℕ → Text
repeated zero c = []
repeated (suc n) c = c ∷ repeated n c

abbrev sign_in : ℕ → SignIn
sign_in c = record {
  user_type = UserType.driver;
  user_id = 5;
  tenant_id = 1;
  platform = Platform.app;
  fcm_token = repeated 140 c;
}

abbrev first : DeviceSession
first = new_session (sign_in b'a') 1 (at 8)

abbrev signed_in : SessionTables
signed_in = record {
  rows = first ∷ [];
  tokens = record { user_type = UserType.driver; user_id = 5; token = repeated 140 b'a' } ∷ [];
}

-- The second telephone takes the place of the first.
second_telephone :
    register_session signed_in (sign_in b'b') (at 9)
    ≡ ok (record {
      rows = signed_out (at 9) first ∷ new_session (sign_in b'b') 2 (at 9) ∷ [];
      tokens = record { user_type = UserType.driver; user_id = 5; token = repeated 140 b'b' } ∷ [];
    })
unfolding register_session
second_telephone = refl

short_token :
    register_session signed_in (record (sign_in b'b') { fcm_token = repeated 139 b'b' }) (at 9)
    ≡ err SessionError.invalid_token
unfolding register_session
short_token = refl

only_first : (s : DeviceSession) → Elem s signed_in.rows → s ≡ first
only_first s here = refl
only_first s (there m) = elim m [ ]

signed_in-IsSound : IsSound signed_in
signed_in-IsSound = (
  record {
    keyed = λ a b ma mb e. only_first a ma ∙ sym (only_first b mb);
    single = λ a b ma mb r. only_first a ma ∙ sym (only_first b mb);
    cleared =
        λ s m off. absurd (let e = ap (λ (y : DeviceSession). y.is_active) (only_first s m) in cc);
  },
  live,
)
  where
    live : IsLive signed_in
    live c here = (first, here, (refl, refl, refl, refl))
    live c (there m) = elim m [ ]

abbrev requests : List (SessionRequest × ℕ)
requests =
    (SessionRequest.sign_in (sign_in b'b'), at 9)
    ∷ (SessionRequest.look_up UserType.driver 5 none, at 10)
    ∷ (SessionRequest.touch 1, at 11)
    ∷ (SessionRequest.clean_up, at 8 + 31 * day)
    ∷ (SessionRequest.log_out UserType.driver 5 (some Platform.app), at 12 + 31 * day)
    ∷ []

take_sessions-IsSound_example : IsSound (take_sessions signed_in requests)
take_sessions-IsSound_example = take_sessions-IsSound requests signed_in signed_in-IsSound
