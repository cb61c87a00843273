-- ===== src/Tests/Stale.antt =====
-- The driver of the night shift falls silent.
use fleet_manager.Prelude.{
  arith, ℕ, true, false, ◌+◌, ◌*◌, ◌↔◌, ◌≡◌, refl, List, [], ◌∷◌, All, Elem,
}
use fleet_manager.Store.{Db, Route, UserSession, UserType}
use fleet_manager.Stale.{minute, Alert, alert_of, run_check, run_jobs}
use fleet_manager.Stale.Cooldown.{IsKeyed, IsFree, IsSpaced, run_jobs-IsSpaced}
use fleet_manager.Stale.Silence.{IsDue, run_check-IsDue}
use fleet_manager.Tests.Night.{at, going, db_going, office}

abbrev admin_session : UserSession
admin_session = record {
  user_id = 90;
  tenant_id = 1;
  user_type = UserType.admin;
  has_fcm_token = true;
  is_active = true;
}

abbrev watched : Db
watched = record db_going {
  user_sessions = admin_session ∷ record admin_session { user_id = 91; is_active = false } ∷ [];
}

-- After a ping, a minute after the start.
abbrev heard : Db
heard = record watched {
  pings = record { route_id = 7; position = office; recorded_at = at 21 + minute } ∷ [];
}

abbrev ticks : List (Db × ℕ)
ticks =
    (watched, at 21 + 4 * minute)
    ∷ (heard, at 21 + 5 * minute)
    ∷ (heard, at 21 + 6 * minute)
    ∷ (heard, at 21 + 8 * minute)
    ∷ (heard, at 21 + 16 * minute)
    ∷ []

alerts :
    run_jobs [] ticks
    ≡ alert_of watched (at 21 + 6 * minute) going
      ∷ alert_of watched (at 21 + 16 * minute) going
      ∷ []
unfolding run_jobs run_check
alerts = refl

heard-IsKeyed : IsKeyed watched.routes
heard-IsKeyed = (((λ e. absurd (omega arith)), tt), (tt, tt))

run_jobs-IsSpaced_example :
    All (λ a. IsFree [] a.route_id a.at) (run_jobs [] ticks) × IsSpaced (run_jobs [] ticks)
run_jobs-IsSpaced_example =
    run_jobs-IsSpaced ticks []
      (heard-IsKeyed, (heard-IsKeyed, (heard-IsKeyed, (heard-IsKeyed, (heard-IsKeyed, tt)))))

abbrev expected : Alert
expected = record { route_id = 7; at = at 21 + 6 * minute; users = 90 ∷ [] }

run_check-IsDue_example : Elem expected (run_check [] heard (at 21 + 6 * minute)).1 ↔ (
    (r : Route) × IsDue heard [] (at 21 + 6 * minute) r
    × (expected ≡ alert_of heard (at 21 + 6 * minute) r))
run_check-IsDue_example = run_check-IsDue [] heard (at 21 + 6 * minute) expected
