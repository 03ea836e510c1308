-- ===== src/Dispatcher/Safety/Rides.antt =====
-- internal/dispatch/dispatcher.go: the other operations on rides keep them exclusive, in the same sense.
use geo_spatial_dispatch_ser.Prelude.{String, not, ◌==◌, arith}
use geo_spatial_dispatch_ser.Result.{
  Result, ok, err, driver_offline, assignment_state_conflict, driver_too_far,
}
use geo_spatial_dispatch_ser.Redis.{Redis}
use geo_spatial_dispatch_ser.Float.{Float}
use geo_spatial_dispatch_ser.Client.Keeps.{
  Keeps, Keeps-bind, Keeps-pure, Keeps-raise, Keeps-if, Keeps-attempt,
}
use geo_spatial_dispatch_ser.Driver.Frames.{heartbeat-Keeps}
use geo_spatial_dispatch_ser.Geo.{GeoIndex}
use geo_spatial_dispatch_ser.Geo.Frames.{Keeps-lift, add_location-Keeps, get_location-Keeps}
use geo_spatial_dispatch_ser.Lifecycle.Types.{en_route, distance_km}
use geo_spatial_dispatch_ser.Lifecycle.Exclusive.{Exclusive}
use geo_spatial_dispatch_ser.Lifecycle.Keeping.{
  get_assignment-Keeps, refresh_active_driver-Keeps, cancel-Keeps, arrive-Keeps,
}
use geo_spatial_dispatch_ser.Dispatcher.Types.{Dispatcher}
use geo_spatial_dispatch_ser.Dispatcher.Rides.{
  cancel_assignment, arrive_assignment, revived, update_driver_location,
}
use geo_spatial_dispatch_ser.Dispatcher.Wiring.{IsWired, status-Ignores, geo-Ignores}
use geo_spatial_dispatch_ser.Dispatcher.Safety.Assign.{set_available-Safe}

module _ ⦃R : Redis⦄ ⦃F : Float⦄ ⦃G : GeoIndex R F⦄ (s : Dispatcher) (w : IsWired s) where
  open R use {Db}
  open F use {Float64, lt}

  pub cancel_assignment-Safe :
      (request : String) → Keeps (Exclusive s.lifecycle) (cancel_assignment s request)
  unfolding cancel_assignment
  cancel_assignment-Safe request =
      Keeps-bind _ _ (Keeps-lift _) (λ u. cancel-Keeps s.lifecycle w.configured request)

  pub arrive_assignment-Safe :
      (request : String) → Keeps (Exclusive s.lifecycle) (arrive_assignment s request)
  unfolding arrive_assignment
  arrive_assignment-Safe request = Keeps-bind _ _ (Keeps-lift _) (λ u.
      Keeps-bind _ _ (get_assignment-Keeps (Exclusive s.lifecycle) s.lifecycle request) (λ a.
        Keeps-if (not (a.status == en_route)) _ _ (Keeps-raise assignment_state_conflict) (
          Keeps-bind _ _ (get_location-Keeps (Exclusive s.lifecycle) s.geo_service a.driver_id)
            (λ p.
              Keeps-if
                (lt s.lifecycle.arrival_threshold_km
                  (distance_km p.longitude p.latitude a.pickup_longitude a.pickup_latitude))
                _ _ (Keeps-raise driver_too_far) (arrive-Keeps s.lifecycle w.configured a)))))

  revived-Safe :
      (driver : String) (r : Result (Unit {0})) → Keeps (Exclusive s.lifecycle) (revived s driver r)
  revived-Safe driver (ok done) = Keeps-pure _
  revived-Safe driver (err driver_offline) = set_available-Safe s w driver
  revived-Safe driver (err e) = Keeps-raise _

  pub update_driver_location-Safe :
      (driver : String) (lon lat : Float64)
      → Keeps (Exclusive s.lifecycle) (update_driver_location s driver lon lat)
  unfolding update_driver_location
  update_driver_location-Safe driver lon lat =
      Keeps-bind _ _ (add_location-Keeps (Exclusive s.lifecycle) s.geo_service _ (geo-Ignores s w))
        (λ u. Keeps-bind _ _ (refresh_active_driver-Keeps s.lifecycle w.configured driver) (λ held.
          Keeps-if held _ _ (Keeps-pure tt) (
            Keeps-bind _ _
              (Keeps-attempt _ (
                heartbeat-Keeps (Exclusive s.lifecycle) s.driver_service driver
                  (status-Ignores s w driver) (omega (arith, w.online))))
              (revived-Safe driver))))
