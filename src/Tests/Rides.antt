-- ===== src/Tests/Rides.antt =====
-- The dispatcher's theorems at concrete runs.
use geo_spatial_dispatch_ser.Prelude.{
  String, ◌≡◌, refl, List, [], ◌∷◌, pos, trim_space, trim_prefix, is_space,
}
use geo_spatial_dispatch_ser.Redis.Memory.{memory}
use geo_spatial_dispatch_ser.Float.Degrees.{degrees, whole}
use geo_spatial_dispatch_ser.Geo.Memory.{geo_memory}
use geo_spatial_dispatch_ser.Client.{quiet, served}
use geo_spatial_dispatch_ser.Lifecycle.Types.{Assignment}
use geo_spatial_dispatch_ser.Dispatcher.Types.{Dispatcher}
use geo_spatial_dispatch_ser.Dispatcher.Commands.{set_status, perform}
use geo_spatial_dispatch_ser.Dispatcher.Runs.{
  perform_operation, find, locate, Task, run, Rides, IsIdle, one_ride_per_driver,
  one_ride_per_rider,
}
use geo_spatial_dispatch_ser.Client
use geo_spatial_dispatch_ser.Lock
use geo_spatial_dispatch_ser.Driver
use geo_spatial_dispatch_ser.Geo
use geo_spatial_dispatch_ser.Lifecycle.Manager
use geo_spatial_dispatch_ser.Lifecycle.Scripts
use geo_spatial_dispatch_ser.Lifecycle.Types
use geo_spatial_dispatch_ser.Dispatcher.Types as Requests
use geo_spatial_dispatch_ser.Dispatcher.Assign
use geo_spatial_dispatch_ser.Dispatcher.Search
use geo_spatial_dispatch_ser.Dispatcher.Rides as Moves
use geo_spatial_dispatch_ser.Server.{server_dispatcher}
use geo_spatial_dispatch_ser.Tests.Setup.{shop, wired, empty, request}

-- A driver comes online, and a rider's request finds it while another client sets a status.
abbrev tasks : List Task
tasks =
    record { operation = locate "d1" (whole (pos 10)) (whole (pos 0)); gaps = [] }
    ∷ record {
      operation = find "u" (request "r1" "rider1");
      gaps = record { commands = set_status "d2" "available" ∷ []; fault = served } ∷ [];
    }
    ∷ []

idle : IsIdle shop empty
idle r e = cc

ride : Rides shop (run shop tasks empty) "driver_id" "r1" "d1"
unfolding run perform_operation perform server_dispatcher Client.call Client.pure Client.raise
    Client.attempt Client.◌>>=◌ Lock.try_lock Lock.unlock Driver.set_busy Driver.set_available
    Driver.set_status Driver.heartbeat Driver.get_statuses Driver.set_busy_script Geo.add_location
    Geo.find_nearby Geo.validate_coordinates Geo.validate_radius Manager.create Manager.active
    Manager.driver_owner Manager.refresh_active_driver Scripts.create_assignment_script
    Scripts.create_writes Scripts.refresh_active_driver_script Types.validate_pickup trim_space
    trim_prefix is_space Requests.with_defaults Requests.new_assignment Assign.try_assign_driver
    Assign.record_assignment Search.assign_nearest Search.search_and_assign Search.find_and_assign
    Moves.update_driver_location
ride = (refl, refl)

one_ride_per_driver_example : ◌≡◌ {A = String} "r1" "r1"
one_ride_per_driver_example =
    one_ride_per_driver shop wired tasks empty "r1" "r1" "d1" idle ride ride

rides : Rides shop (run shop tasks empty) "rider_id" "r1" "rider1"
unfolding run perform_operation perform server_dispatcher Client.call Client.pure Client.raise
    Client.attempt Client.◌>>=◌ Lock.try_lock Lock.unlock Driver.set_busy Driver.set_available
    Driver.set_status Driver.heartbeat Driver.get_statuses Driver.set_busy_script Geo.add_location
    Geo.find_nearby Geo.validate_coordinates Geo.validate_radius Manager.create Manager.active
    Manager.driver_owner Manager.refresh_active_driver Scripts.create_assignment_script
    Scripts.create_writes Scripts.refresh_active_driver_script Types.validate_pickup trim_space
    trim_prefix is_space Requests.with_defaults Requests.new_assignment Assign.try_assign_driver
    Assign.record_assignment Search.assign_nearest Search.search_and_assign Search.find_and_assign
    Moves.update_driver_location
rides = (refl, refl)

one_ride_per_rider_example : ◌≡◌ {A = String} "r1" "r1"
one_ride_per_rider_example =
    one_ride_per_rider shop wired tasks empty "r1" "r1" "rider1" idle rides rides
