-- ===== src/Tests/Geofence.antt =====
-- The driver of the night shift nears the stops.
use fleet_manager.Prelude.{◌≡◌, refl, ◌≢◌, none, List, [], ◌∷◌, arith, All, Elem, here, there}
use fleet_manager.Store.{Db, RouteManagementBooking, Booking}
use fleet_manager.Trip.Checks.{target_of}
use fleet_manager.Geofence.Blocked.{track_blocked}
use fleet_manager.Prelude.Sort.{sort_by}
use fleet_manager.Geofence.{Report, notified, arrival_of, run_geofence_check, track}
use fleet_manager.Geofence.Once.{IsFresh, IsDistinct, track-IsDistinct}
use fleet_manager.Tests.Night.{
  at, taxi, office, home, db, first_link, second_link, first_booking, second_booking,
}

abbrev away : Report
away = record { tenant_id = 1; route_id = 7; here = home; now = at 20 }

abbrev near : Report
near = record away { here = office; now = at 21 }

abbrev reports : List Report
reports = away ∷ near ∷ near ∷ near ∷ []

-- The stops are notified in their order, each once.
tracks : track taxi db reports ≡ (
  record db { links = notified second_link (at 21) ∷ notified first_link (at 21) ∷ [] },
  arrival_of first_link first_booking 7 0 ∷ arrival_of second_link second_booking 7 0 ∷ [],
)
unfolding track run_geofence_check sort_by
tracks = refl

track-IsDistinct_example :
    All (λ a. IsFresh db a.link_id) (track taxi db reports).1 × IsDistinct (track taxi db reports).1
track-IsDistinct_example = track-IsDistinct taxi reports db

abbrev unplaced : Booking
unplaced = record first_booking { pickup_latitude = none }

abbrev db_unplaced : Db
db_unplaced = record db { bookings = unplaced ∷ second_booking ∷ [] }

same_link :
    (x y : RouteManagementBooking)
    → Elem x db_unplaced.links
    → Elem y db_unplaced.links
    → x.id ≡ y.id
    → x ≡ y
same_link x y here here e = refl
same_link x y here (there here) e = absurd (omega arith)
same_link x y (there here) here e = absurd (omega arith)
same_link x y (there here) (there here) e = refl
same_link x y here (there (there m)) e = elim m [ ]
same_link x y (there here) (there (there m)) e = elim m [ ]
same_link x y (there (there m)) my e = elim m [ ]

only_unplaced :
    (b : Booking)
    → Elem b db_unplaced.bookings
    → b.booking_id ≡ first_link.booking_id
    → target_of b.pickup_latitude b.pickup_longitude ≡ none
only_unplaced b here e = refl
only_unplaced b (there here) e = absurd (omega arith)
only_unplaced b (there (there m)) e = elim m [ ]

-- The second stop is never told that its driver arrives.
track_blocked_example :
    All (λ a. a.link_id ≢ second_link.id) (track taxi db_unplaced reports).1
    × Elem second_link (track taxi db_unplaced reports).0.links
track_blocked_example = track_blocked taxi first_link second_link reports db_unplaced (record {
  keyed = same_link;
  blocking = there here;
  waits = refl;
  booked = (unplaced, here, refl, refl);
  unplaced = only_unplaced;
  blocked = here;
  one_route = refl;
  later = omega arith;
})
