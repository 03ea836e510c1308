-- ===== src/Tests/Endings.antt =====
-- The theorems that rides can be ended and drivers located, at concrete databases.
use geo_spatial_dispatch_ser.Prelude.{
  String, ◌≡◌, refl, true, false, pos, trim_space, is_space, is_blank,
}
use geo_spatial_dispatch_ser.Result.{redis, ok, err}
use geo_spatial_dispatch_ser.Redis.Memory.{memory}
use geo_spatial_dispatch_ser.Float.Degrees.{degrees, whole, less}
use geo_spatial_dispatch_ser.Geo.Memory.{geo_memory}
use geo_spatial_dispatch_ser.Client
use geo_spatial_dispatch_ser.Client.{quiet}
use geo_spatial_dispatch_ser.Client.Achieves.{Achieves}
use geo_spatial_dispatch_ser.Geo
use geo_spatial_dispatch_ser.Geo.{Location}
use geo_spatial_dispatch_ser.Geo.Laws.{get_location-add_location}
use geo_spatial_dispatch_ser.Lifecycle.Types.{distance_km}
use geo_spatial_dispatch_ser.Dispatcher.Rides.{
  cancel_assignment, arrive_assignment, update_driver_location,
}
use geo_spatial_dispatch_ser.Dispatcher.Running.{
  IsRunning, cancel_assignment-running, arrive_assignment-running,
}
use geo_spatial_dispatch_ser.Dispatcher.Locating.{
  IsOnline, update_driver_location-IsOnline, update_driver_location-refused,
}
use geo_spatial_dispatch_ser.Server.{server_dispatcher}
use geo_spatial_dispatch_ser.Tests.Setup.{shop, wired, empty, ride, riding}

en_route-IsRunning : IsRunning shop.lifecycle (riding "en_route") (ride "en_route")
unfolding server_dispatcher trim_space is_space
en_route-IsRunning = record {
  record_kept = record {
    request_id = refl;
    rider_id = refl;
    driver_id = refl;
    longitude = refl;
    latitude = refl;
    status = refl;
  };
  running = refl;
  longitude_read = refl;
  latitude_read = refl;
  named = refl;
}

cancel_assignment-running_example :
    (cancel_assignment shop "r1" (quiet (riding "en_route"))).0 ≡ ok (ride "cancelled")
unfolding server_dispatcher
cancel_assignment-running_example =
    cancel_assignment-running shop (riding "en_route") (ride "en_route") en_route-IsRunning refl
      refl

abbrev place : Location
place = record {
  id = "d1";
  longitude = whole (pos 10);
  latitude = whole (pos 0);
  distance_km = whole (pos 0);
}

there :
    Geo.get_location shop.geo_service "d1" (quiet (riding "en_route"))
    ≡ (ok place, quiet (riding "en_route"))
unfolding server_dispatcher Geo.get_location Client.call Client.pure Client.◌>>=◌ trim_space
    is_space
there = refl

near :
    less true shop.lifecycle.arrival_threshold_km
      (distance_km (whole (pos 10)) (whole (pos 0)) (whole (pos 10)) (whole (pos 0)))
    ≡ false
unfolding server_dispatcher distance_km
near = refl

arrive_assignment-running_example :
    (arrive_assignment shop "r1" (quiet (riding "en_route"))).0 ≡ ok (ride "arrived")
unfolding server_dispatcher
arrive_assignment-running_example =
    arrive_assignment-running shop (riding "en_route") (ride "en_route") en_route-IsRunning place
      refl refl refl there near

named : is_blank "d1" ≡ false
unfolding trim_space is_space
named = refl

valid : Geo.validate_coordinates (whole (pos 10)) (whole (pos 0)) ≡ ok tt
unfolding Geo.validate_coordinates
valid = refl

indexable : Geo.is_indexable (whole (pos 10)) (whole (pos 0)) ≡ true
indexable = refl

update_driver_location-IsOnline_example :
    Achieves
      (λ e _. IsOnline shop wired "d1" e)
      (update_driver_location shop "d1" (whole (pos 10)) (whole (pos 0)))
      empty
update_driver_location-IsOnline_example =
    update_driver_location-IsOnline shop wired "d1" (whole (pos 10)) (whole (pos 0)) empty named
      valid indexable

-- 88 degrees of latitude pass the validation, and the index does not take them.
valid_north : Geo.validate_coordinates (whole (pos 10)) (whole (pos 88)) ≡ ok tt
unfolding Geo.validate_coordinates
valid_north = refl

beyond : Geo.is_indexable (whole (pos 10)) (whole (pos 88)) ≡ false
beyond = refl

update_driver_location-refused_example :
    (error_text : String) × (update_driver_location shop "d1"
        (whole (pos 10))
        (whole (pos 88))
        (quiet empty)
      ≡ (err (redis error_text), quiet empty))
update_driver_location-refused_example =
    update_driver_location-refused shop wired "d1" (whole (pos 10)) (whole (pos 88)) empty named
      valid_north beyond

get_location-add_location_example :
    let (done, w) = Geo.add_location shop.geo_service place (quiet empty) in
    let (lon, lat) = geo_memory.cell (whole (pos 10)) (whole (pos 0)) in
    (done ≡ ok tt)
    × (Geo.get_location shop.geo_service "d1" w ≡ (
      ok (record { id = "d1"; longitude = lon; latitude = lat; distance_km = whole (pos 0) }),
      w,
    ))
get_location-add_location_example =
    get_location-add_location shop.geo_service place empty named valid indexable
