-- ===== src/Dispatcher/Running.antt =====
-- internal/dispatch/dispatcher.go: a ride that is en route can be cancelled, and can arrive.
use geo_spatial_dispatch_ser.Prelude.{
  String, ◌≡◌, ◌∙◌, refl, ap, true, false, ◌==◌, eq_iff, some, is_blank, arith, pos,
}
use geo_spatial_dispatch_ser.Result.{ok}
use geo_spatial_dispatch_ser.Redis.{Redis}
use geo_spatial_dispatch_ser.Float.{Float}
use geo_spatial_dispatch_ser.Client.{quiet, call, pure, ◌>>=◌}
use geo_spatial_dispatch_ser.Lock.{lock_key}
use geo_spatial_dispatch_ser.Geo.{GeoIndex, Location, get_location}
use geo_spatial_dispatch_ser.Lifecycle.Types.{
  LifecycleManager, Assignment, active_rider_key, active_driver_key, driver_status_key, arrived,
  cancelled, en_route, distance_km, validate_lifecycle_id,
}
use geo_spatial_dispatch_ser.Lifecycle.Scripts.{is_other}
use geo_spatial_dispatch_ser.Lifecycle.Guards.{cancel-passes, arrive-passes}
use geo_spatial_dispatch_ser.Lifecycle.Records.{IsRecorded, get_assignment-recorded}
use geo_spatial_dispatch_ser.Lifecycle.Manager.{
  get_assignment, cancel, arrive, cancel_command, arrive_command,
}
use geo_spatial_dispatch_ser.Dispatcher.Types.{Dispatcher}
use geo_spatial_dispatch_ser.Dispatcher.Rides.{cancel_assignment, arrive_assignment}

module _ ⦃R : Redis⦄ ⦃F : Float⦄ where
  open R use {Db, get, hget, exists}

  hget_some-exists : (d : Db) (k f v : String) → hget d k f ≡ some v → exists d k ≡ true
  hget_some-exists d k f v h = ground (arith, R.hget-exists d k f)

  -- An assignment that is recorded, en route, and can be read.
  pub record IsRunning (m : LifecycleManager) (d : Db) (a : Assignment) : Type 0 where
    pub record_kept : IsRecorded m d a
    pub running : a.status ≡ "en_route"
    pub longitude_read : F.is_nan a.pickup_longitude ≡ false
    pub latitude_read : F.is_nan a.pickup_latitude ≡ false
    pub named : is_blank a.request_id ≡ false

module _ ⦃R : Redis⦄ ⦃F : Float⦄ ⦃G : GeoIndex R F⦄ (s : Dispatcher) (d : R.Db) (a : Assignment)
    (h : IsRunning s.lifecycle d a) where
  open R use {get, hget}

  abbrev m : LifecycleManager
  m = s.lifecycle

  read : get_assignment m a.request_id (quiet d) ≡ (ok a, quiet d)
  read = get_assignment-recorded m d a h.record_kept h.longitude_read h.latitude_read

  is_running : (a.status == en_route) ≡ true
  is_running = (eq_iff a.status "en_route").1 h.running

  cancels :
      get d (active_driver_key m a.driver_id) ≡ some a.request_id
      → is_other (get d (lock_key m.lock_manager a.driver_id)) a.request_id ≡ false
      → (cancel_command m a.request_id a d).0 ≡ pos 1
  cancels owned lock =
      ap (λ r. r.0)
        (cancel-passes _ _ _ _ _ _ _ _ _ _ d (
          hget_some-exists d _ "status" _ h.record_kept.status,
          h.record_kept.status ∙ ap some h.running,
          h.record_kept.driver_id,
          h.record_kept.rider_id,
          owned,
          lock,
        ))

  -- The cancellation of an assignment that is en route succeeds and answers with it, cancelled, if it
  -- is recorded with an id that is not blank and coordinates that are not NaN, the driver's active key
  -- names it, no other request holds the driver's lock, and no other client interferes.
  pub cancel_assignment-running :
      get d (active_driver_key m a.driver_id) ≡ some a.request_id
      → is_other (get d (lock_key m.lock_manager a.driver_id)) a.request_id ≡ false
      → (cancel_assignment s a.request_id (quiet d)).0 ≡ ok (record a { status = cancelled })
  unfolding cancel_assignment cancel call ◌>>=◌ validate_lifecycle_id pure
  cancel_assignment-running owned lock = rw (h.named, read, is_running, cancels owned lock) refl

  arrives :
      get d (active_rider_key m a.rider_id) ≡ some a.request_id
      → get d (active_driver_key m a.driver_id) ≡ some a.request_id
      → get d (driver_status_key m a.driver_id) ≡ some "busy"
      → (arrive_command m a d).0 ≡ pos 1
  arrives riding owned busy =
      ap (λ r. r.0)
        (arrive-passes _ _ _ _ _ _ _ d (
          hget_some-exists d _ "status" _ h.record_kept.status,
          h.record_kept.status ∙ ap some h.running,
          riding,
          owned,
          busy,
        ))

  -- The arrival of an assignment that is en route succeeds and answers with it, arrived, if it is
  -- recorded with an id that is not blank and coordinates that are not NaN, both active keys name it,
  -- its driver is busy and has a stored position within the threshold of the pickup point, and no
  -- other client interferes.
  pub arrive_assignment-running :
      (p : Location)
      → get d (active_rider_key m a.rider_id) ≡ some a.request_id
      → get d (active_driver_key m a.driver_id) ≡ some a.request_id
      → get d (driver_status_key m a.driver_id) ≡ some "busy"
      → get_location s.geo_service a.driver_id (quiet d) ≡ (ok p, quiet d)
      → F.lt m.arrival_threshold_km
          (distance_km p.longitude p.latitude a.pickup_longitude a.pickup_latitude)
        ≡ false
      → (arrive_assignment s a.request_id (quiet d)).0 ≡ ok (record a { status = arrived })
  unfolding arrive_assignment arrive call ◌>>=◌ validate_lifecycle_id pure
  arrive_assignment-running p riding owned busy there near =
      rw (h.named, read, is_running, there, near, arrives riding owned busy) refl
