-- ===== src/Server.antt =====
-- internal/server/server.go: the services that the server puts together.
pub mod Http
pub mod Dispatching
pub mod Positions
pub mod Limits
pub mod Demo
pub mod Sockets
pub mod Routes
pub mod Refusals
pub mod Safe
pub mod Leases
pub mod Workers
pub mod Conserving
pub mod Calls
pub mod Collecting
pub mod Waiting
pub mod Finishing
pub mod Wiring
use geo_spatial_dispatch_ser.Prelude.{◌*◌, some, [], second}
use geo_spatial_dispatch_ser.Float.{Float}
use geo_spatial_dispatch_ser.Redis.{Redis}
use geo_spatial_dispatch_ser.Geo.{GeoIndex, new_geo_service}
use geo_spatial_dispatch_ser.Driver.{new_driver_service}
use geo_spatial_dispatch_ser.Lock.{new_lock_manager}
use geo_spatial_dispatch_ser.Lifecycle.Types.{new_lifecycle_manager}
use geo_spatial_dispatch_ser.Dispatcher.Types.{Dispatcher, new_dispatcher}
use geo_spatial_dispatch_ser.Dispatcher.Rides.{update_driver_location}
use geo_spatial_dispatch_ser.Driver.{heartbeat}
use geo_spatial_dispatch_ser.Realtime.Messages.{LocationPayload}
use geo_spatial_dispatch_ser.Realtime.Systems.{Hub, new_hub}

-- The dispatcher of `New`.
unfoldable pub server_dispatcher : ⦃F : Float⦄ → Dispatcher
unfolding new_dispatcher new_lifecycle_manager new_geo_service new_driver_service new_lock_manager
server_dispatcher =
    new_dispatcher (new_geo_service "locations") (new_driver_service "driver" (30 * second))
      (new_lock_manager "dispatch:lock" (10 * second)) []

-- The hub of `New`, with its two handlers.
unfoldable pub server_hub : ⦃R : Redis⦄ ⦃F : Float⦄ ⦃G : GeoIndex R F⦄ → Hub R.Db
server_hub ⦃R⦄ =
    new_hub R.Db
      (some (λ (loc : LocationPayload).
        update_driver_location server_dispatcher loc.driver_id loc.longitude loc.latitude))
      (some (heartbeat server_dispatcher.driver_service))
