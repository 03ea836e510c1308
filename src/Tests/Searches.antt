-- ===== src/Tests/Searches.antt =====
-- The theorems on the search for a driver, at concrete requests.
use geo_spatial_dispatch_ser.Prelude.{
  is_blank, trim_space, is_space, false, ◌≡◌, ◌≢◌, refl, true, none, some, [], ◌∷◌, pos,
  trim_prefix,
}
use geo_spatial_dispatch_ser.Result.{ok, err, active_assignment}
use geo_spatial_dispatch_ser.Redis.Memory.{Store, hash, text, put, memory}
use geo_spatial_dispatch_ser.Float.Degrees.{degrees, nan, whole}
use geo_spatial_dispatch_ser.Geo.Memory.{geo_memory}
use geo_spatial_dispatch_ser.Client
use geo_spatial_dispatch_ser.Client.{quiet}
use geo_spatial_dispatch_ser.Client.Keeps.{Keeps}
use geo_spatial_dispatch_ser.Driver.{status_key}
use geo_spatial_dispatch_ser.Geo
use geo_spatial_dispatch_ser.Geo.{Location, NoneCloser}
use geo_spatial_dispatch_ser.Lifecycle.Manager
use geo_spatial_dispatch_ser.Lifecycle.Types.{validate_pickup}
use geo_spatial_dispatch_ser.Lifecycle.Exclusive.{Exclusive}
use geo_spatial_dispatch_ser.Dispatcher.Types.{
  DispatchRequest, with_defaults, new_assignment, assigned,
}
use geo_spatial_dispatch_ser.Dispatcher.Assign.{try_assign_driver}
use geo_spatial_dispatch_ser.Dispatcher.Assigned.{IsFree, IsAssigned, try_assign_driver-free}
use geo_spatial_dispatch_ser.Dispatcher.Reaching.{IsOpen}
use geo_spatial_dispatch_ser.Dispatcher.Returning.{
  refusal_of, IsGivenBack, try_assign_driver-returns,
}
use geo_spatial_dispatch_ser.Dispatcher.Search.{find_and_assign}
use geo_spatial_dispatch_ser.Dispatcher.Nearest.{find_and_assign-nearest}
use geo_spatial_dispatch_ser.Dispatcher.Safety.Search.{find_and_assign-Safe}
use geo_spatial_dispatch_ser.Server.{server_dispatcher}
use geo_spatial_dispatch_ser.Tests.Setup.{shop, wired, fleet, half_busy, request, riding}

abbrev asked : DispatchRequest
asked = request "r1" "rider1"

IsFree-driver : IsFree shop asked "d1" fleet
unfolding server_dispatcher validate_pickup new_assignment Geo.validate_coordinates
IsFree-driver = record {
  unlocked = refl;
  unowned = refl;
  available = refl;
  new_request = refl;
  no_ride = refl;
  named_rider = refl;
  on_the_map = refl;
}

try_assign_driver-free_example :
    ((try_assign_driver shop asked "d1" (quiet fleet)).0 ≡ ok true)
    × IsAssigned shop asked "d1" (try_assign_driver shop asked "d1" (quiet fleet)).1.db
try_assign_driver-free_example = try_assign_driver-free shop wired asked "d1" fleet IsFree-driver

-- Rider "rider1" is on a ride, and driver "d2" is free.
abbrev one_riding : Store
one_riding = put (riding "en_route") "driver:status:d2" (some (text "available"))

abbrev another : DispatchRequest
another = request "r2" "rider1"

IsOpen-other : IsOpen shop "d2" one_riding
unfolding server_dispatcher
IsOpen-other = record { unlocked = refl; unowned = refl; available = refl }

other_named : is_blank "d2" ≡ false
unfolding trim_space is_space
other_named = refl

still_riding : refusal_of shop another "d2" one_riding ≡ some active_assignment
unfolding server_dispatcher validate_pickup new_assignment Geo.validate_coordinates
still_riding = refl

try_assign_driver-returns_example :
    ((try_assign_driver shop another "d2" (quiet one_riding)).0 ≡ err active_assignment)
    × IsGivenBack shop "d2" one_riding (try_assign_driver shop another "d2" (quiet one_riding)).1.db
try_assign_driver-returns_example =
    try_assign_driver-returns shop wired another "d2" one_riding active_assignment IsOpen-other
      other_named refl still_riding

abbrev near : Location
near = record { id = "d1"; longitude = whole (pos 11); latitude = nan; distance_km = whole (pos 1) }

abbrev far : Location
far = record { id = "d2"; longitude = whole (pos 14); latitude = nan; distance_km = whole (pos 4) }

abbrev farthest : Location
farthest = record {
  id = "d3";
  longitude = whole (pos 15);
  latitude = nan;
  distance_km = whole (pos 5);
}

-- The nearest driver is busy, and a third one is farther than the second.
abbrev crowded : Store
crowded = put half_busy "locations" (
    some (
      hash (
        ("x:d3", "+111111111111111")
        ∷ ("x:d2", "+11111111111111")
        ∷ ("y:d2", "+")
        ∷ ("x:d1", "+11111111111")
        ∷ [])))

no_ride :
    Manager.active shop.lifecycle (with_defaults "u" asked).rider_id (quiet crowded)
    ≡ (ok none, quiet crowded)
unfolding server_dispatcher with_defaults Manager.active Client.call Client.pure Client.◌>>=◌
no_ride = refl

found :
    let r = with_defaults "u" asked in
    Geo.find_nearby shop.geo_service r.longitude r.latitude r.radius_km (quiet crowded)
    ≡ (ok (near ∷ far ∷ farthest ∷ []), quiet crowded)
unfolding server_dispatcher with_defaults Geo.find_nearby Geo.validate_coordinates
    Geo.validate_radius Client.call Client.pure Client.◌>>=◌ trim_prefix
found = refl

IsFree-far : IsFree shop (with_defaults "u" asked) "d2" crowded
unfolding server_dispatcher validate_pickup new_assignment with_defaults Geo.validate_coordinates
IsFree-far = record {
  unlocked = refl;
  unowned = refl;
  available = refl;
  new_request = refl;
  no_ride = refl;
  named_rider = refl;
  on_the_map = refl;
}

near_busy : memory.get crowded (status_key shop.driver_service "d1") ≢ some "available"
unfolding server_dispatcher
near_busy e = cc

find_and_assign-nearest_example :
    let (result, v) = find_and_assign shop "u" asked (quiet crowded) in
    (result ≡ ok (assigned (with_defaults "u" asked) far "en_route"))
    × NoneCloser far.distance_km (farthest.distance_km ∷ [])
    × IsAssigned shop (with_defaults "u" asked) "d2" v.db
find_and_assign-nearest_example =
    find_and_assign-nearest shop crowded wired "u" asked (near ∷ []) far (farthest ∷ []) no_ride
      found (near_busy, tt) IsFree-far

find_and_assign-Safe_example : Keeps (Exclusive shop.lifecycle) (find_and_assign shop "u" asked)
find_and_assign-Safe_example = find_and_assign-Safe shop wired "u" asked
