-- ===== src/Dispatcher/Safety/Assign.antt =====
-- internal/dispatch/dispatcher.go: `tryAssignDriver` and `ReleaseDriver` keep the rides exclusive,
-- whatever other clients do between their round trips and whichever of these fail.
use geo_spatial_dispatch_ser.Prelude.{String, Bool, true, false, not, ◌==◌}
use geo_spatial_dispatch_ser.Result.{
  Error, Result, ok, err, lock_expired, driver_offline, status_conflict, driver_ownership_conflict,
}
use geo_spatial_dispatch_ser.Redis.{Redis}
use geo_spatial_dispatch_ser.Float.{Float}
use geo_spatial_dispatch_ser.Client.{Io, raise, ◌>>◌}
use geo_spatial_dispatch_ser.Client.Keeps.{
  Keeps, Keeps-bind, Keeps-pure, Keeps-raise, Keeps-if, Keeps-attempt,
}
use geo_spatial_dispatch_ser.Lock.{unlock}
use geo_spatial_dispatch_ser.Lock.Frames.{try_lock-Keeps, unlock-Keeps}
use geo_spatial_dispatch_ser.Driver.{set_available}
use geo_spatial_dispatch_ser.Driver.Frames.{set_available-Keeps, set_busy-Keeps}
use geo_spatial_dispatch_ser.Lifecycle.Types.{validate_pickup}
use geo_spatial_dispatch_ser.Lifecycle.Exclusive.{Exclusive}
use geo_spatial_dispatch_ser.Lifecycle.Keeping.{
  driver_owner-Keeps, refresh_active_driver-Keeps, create-Keeps,
}
use geo_spatial_dispatch_ser.Dispatcher.Types.{Dispatcher, DispatchRequest, new_assignment}
use geo_spatial_dispatch_ser.Dispatcher.Assign.{
  ignore, unless_expired, release_driver, create_failed, created, pickup_checked, record_assignment,
  busy_failed, made_busy, owner_known, try_assign_driver,
}
use geo_spatial_dispatch_ser.Dispatcher.Wiring.{IsWired, status-Ignores, lock-Ignores}

module _ ⦃R : Redis⦄ ⦃F : Float⦄ (s : Dispatcher) (w : IsWired s) where
  open R use {Db}

  abbrev Safe : {A : Type 0} → Io Db A → Type 0
  Safe m = Keeps (Exclusive s.lifecycle) m

  ignore-Safe : {A : Type 0} (m : Io Db A) → Safe m → Safe (ignore m)
  ignore-Safe m k = Keeps-bind _ _ (Keeps-attempt m k) (λ r. Keeps-pure _)

  unlock-Safe : (driver request : String) → Safe (unlock s.lock_manager driver request)
  unlock-Safe driver request =
      unlock-Keeps (Exclusive s.lifecycle) s.lock_manager driver request (lock-Ignores s w driver)

  pub set_available-Safe : (driver : String) → Safe (set_available s.driver_service driver)
  set_available-Safe driver =
      set_available-Keeps (Exclusive s.lifecycle) s.driver_service driver
        (status-Ignores s w driver)

  unless_expired-Safe : (r : Result (Unit {0})) → Safe (unless_expired r)
  unless_expired-Safe (ok done) = Keeps-pure _
  unless_expired-Safe (err lock_expired) = Keeps-pure _
  unless_expired-Safe (err e) = Keeps-raise _

  -- ReleaseDriver keeps the rides exclusive.
  pub release_driver-Safe : (driver request : String) → Safe (release_driver s driver request)
  unfolding release_driver
  release_driver-Safe driver request =
      Keeps-bind _ _ (Keeps-attempt _ (unlock-Safe driver request))
        (λ r. Keeps-bind _ _ (unless_expired-Safe r) (λ u. set_available-Safe driver))

  roll_back-Safe :
      (req : DispatchRequest) (driver : String) (e : Error)
      → Safe (ignore (release_driver s driver req.request_id) >> raise {A = Bool} e)
  roll_back-Safe req driver e =
      Keeps-bind _ _ (ignore-Safe _ (release_driver-Safe driver req.request_id))
        (λ u. Keeps-raise e)

  create_failed-Safe :
      (req : DispatchRequest) (driver : String) (e : Error) → Safe (create_failed s req driver e)
  create_failed-Safe req driver driver_ownership_conflict =
      Keeps-bind _ _ (ignore-Safe _ (unlock-Safe driver req.request_id)) (λ u.
        Keeps-bind _ _ (refresh_active_driver-Keeps s.lifecycle w.configured driver) (λ held.
          Keeps-bind _ _
            (Keeps-if held _ _ (Keeps-pure _) (ignore-Safe _ (set_available-Safe driver)))
            (λ v. Keeps-pure _)))
  create_failed-Safe req driver e = roll_back-Safe req driver e

  created-Safe :
      (req : DispatchRequest) (driver : String) (r : Result (Unit {0}))
      → Safe (created s req driver r)
  created-Safe req driver (ok done) = Keeps-pure _
  created-Safe req driver (err e) = create_failed-Safe req driver e

  pickup_checked-Safe :
      (req : DispatchRequest) (driver : String) (r : Result (Unit {0}))
      → Safe (pickup_checked s req driver r)
  pickup_checked-Safe req driver (err e) = roll_back-Safe req driver e
  pickup_checked-Safe req driver (ok done) =
      Keeps-bind _ _
        (Keeps-attempt _ (create-Keeps s.lifecycle w.configured (new_assignment req driver)))
        (created-Safe req driver)

  record_assignment-Safe :
      (req : DispatchRequest) (driver : String) → Safe (record_assignment s req driver)
  unfolding record_assignment
  record_assignment-Safe req driver =
      Keeps-if (req.rider_id == "") _ _ (Keeps-pure true)
        (pickup_checked-Safe req driver (validate_pickup (new_assignment req driver)))

  busy_failed-Safe : (e : Error) → Safe (busy_failed e)
  busy_failed-Safe status_conflict = Keeps-pure _
  busy_failed-Safe driver_offline = Keeps-pure _
  busy_failed-Safe e = Keeps-raise _

  made_busy-Safe :
      (req : DispatchRequest) (driver : String) (r : Result (Unit {0}))
      → Safe (made_busy s req driver r)
  made_busy-Safe req driver (ok done) = record_assignment-Safe req driver
  made_busy-Safe req driver (err e) =
      Keeps-bind _ _ (ignore-Safe _ (unlock-Safe driver req.request_id)) (λ u. busy_failed-Safe e)

  owner_known-Safe :
      (req : DispatchRequest) (driver : String) (r : Result String)
      → Safe (owner_known s req driver r)
  owner_known-Safe req driver (err e) =
      Keeps-bind _ _ (ignore-Safe _ (unlock-Safe driver req.request_id)) (λ u. Keeps-raise e)
  owner_known-Safe req driver (ok owner) =
      Keeps-if (not (owner == "")) _ _
        (Keeps-bind _ _ (ignore-Safe _ (unlock-Safe driver req.request_id)) (λ u. Keeps-pure false))
        (Keeps-bind _ _
          (Keeps-attempt _ (
            set_busy-Keeps (Exclusive s.lifecycle) s.driver_service driver
              (status-Ignores s w driver)))
          (made_busy-Safe req driver))

  -- tryAssignDriver keeps the rides exclusive.
  pub try_assign_driver-Safe :
      (req : DispatchRequest) (driver : String) → Safe (try_assign_driver s req driver)
  unfolding try_assign_driver
  try_assign_driver-Safe req driver =
      Keeps-bind _ _
        (try_lock-Keeps (Exclusive s.lifecycle) s.lock_manager driver req.request_id
          (lock-Ignores s w driver))
        (λ locked. Keeps-if (not locked) _ _ (Keeps-pure false) (
          Keeps-bind _ _
            (Keeps-attempt _ (driver_owner-Keeps (Exclusive s.lifecycle) s.lifecycle driver))
            (owner_known-Safe req driver)))
