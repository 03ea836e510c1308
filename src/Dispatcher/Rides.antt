-- ===== src/Dispatcher/Rides.antt =====
-- internal/dispatch/dispatcher.go: cancelling, arriving, the reset of a rider, and driver positions.
use geo_spatial_dispatch_ser.Prelude.{ℕ, String, not, Option, ◌==◌, if◌then◌else◌}
use geo_spatial_dispatch_ser.Result.{
  Result, ok, err, driver_offline, assignment_state_conflict, driver_too_far,
}
use geo_spatial_dispatch_ser.Redis.{Redis}
use geo_spatial_dispatch_ser.Float.{Float}
use geo_spatial_dispatch_ser.Client.{Io, pure, raise, attempt, ◌>>=◌, ◌>>◌}
use geo_spatial_dispatch_ser.Driver.{heartbeat, set_available, get_driver_stats}
use geo_spatial_dispatch_ser.Geo.{GeoIndex, lift, get_location, add_location}
use geo_spatial_dispatch_ser.Lifecycle.Types.{
  Assignment, en_route, distance_km, validate_lifecycle_id,
}
use geo_spatial_dispatch_ser.Lifecycle.Manager.{
  refresh_active_driver, get_assignment, cancel, arrive, reset_rider,
}
use geo_spatial_dispatch_ser.Dispatcher.Types.{Dispatcher}

module _ ⦃R : Redis⦄ ⦃F : Float⦄ ⦃G : GeoIndex R F⦄ where
  open R use {Db}
  open F use {Float64, lt}

  unfoldable pub cancel_assignment : Dispatcher → String → Io Db Assignment
  cancel_assignment s request_id = do
    lift (validate_lifecycle_id request_id)
    cancel s.lifecycle request_id

  unfoldable pub arrive_assignment : Dispatcher → String → Io Db Assignment
  arrive_assignment s request_id = do
    lift (validate_lifecycle_id request_id)
    a ← get_assignment s.lifecycle request_id
    if not (a.status == en_route) then raise assignment_state_conflict else (do
      position ← get_location s.geo_service a.driver_id
      if lt s.lifecycle.arrival_threshold_km
            (distance_km position.longitude position.latitude a.pickup_longitude a.pickup_latitude)
          then raise driver_too_far
          else arrive s.lifecycle a)

  unfoldable pub get_dispatch_assignment : Dispatcher → String → Io Db Assignment
  get_dispatch_assignment s request_id = get_assignment s.lifecycle request_id

  unfoldable pub reset_rider_assignment : Dispatcher → String → Io Db Unit
  reset_rider_assignment s rider_id = do
    lift (validate_lifecycle_id rider_id)
    reset_rider s.lifecycle rider_id

  -- A driver with no ride: the heartbeat, and a driver that had expired comes back online.
  abbrev pub revived : Dispatcher → String → Result (Unit {0}) → Io Db Unit
  revived s driver_id (err driver_offline) = set_available s.driver_service driver_id
  revived s driver_id (err e) = raise e
  revived s driver_id (ok done) = pure tt

  unfoldable pub update_driver_location : Dispatcher → String → Float64 → Float64 → Io Db Unit
  update_driver_location s driver_id lon lat = do
    add_location s.geo_service
        (record { id = driver_id; longitude = lon; latitude = lat; distance_km = F.constant 0 0 })
    held ← refresh_active_driver s.lifecycle driver_id
    if held then pure tt else (do
      outcome ← attempt (heartbeat s.driver_service driver_id)
      revived s driver_id outcome)

  -- `GetStats`: total and available drivers.
  unfoldable pub get_stats : Dispatcher → ℕ → Io Db (Option (ℕ × ℕ))
  get_stats s fuel = get_driver_stats s.driver_service fuel
