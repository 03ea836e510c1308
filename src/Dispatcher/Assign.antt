-- ===== src/Dispatcher/Assign.antt =====
-- internal/dispatch/dispatcher.go: `tryAssignDriver`, with its roll-backs, and `ReleaseDriver`.
use geo_spatial_dispatch_ser.Prelude.{String, Bool, true, false, not, ◌==◌, if◌then◌else◌}
use geo_spatial_dispatch_ser.Result.{
  Error, Result, ok, err, lock_expired, driver_offline, status_conflict, driver_ownership_conflict,
}
use geo_spatial_dispatch_ser.Redis.{Redis}
use geo_spatial_dispatch_ser.Float.{Float}
use geo_spatial_dispatch_ser.Client.{Io, pure, raise, attempt, ◌>>=◌, ◌>>◌}
use geo_spatial_dispatch_ser.Lock.{unlock, try_lock}
use geo_spatial_dispatch_ser.Driver.{set_busy, set_available}
use geo_spatial_dispatch_ser.Lifecycle.Types.{validate_pickup}
use geo_spatial_dispatch_ser.Lifecycle.Manager.{driver_owner, refresh_active_driver, create}
use geo_spatial_dispatch_ser.Dispatcher.Types.{Dispatcher, DispatchRequest, new_assignment}

module _ ⦃R : Redis⦄ ⦃F : Float⦄ where
  open R use {Db}

  -- `_ = m`
  abbrev pub ignore : {A : Type 0} → Io Db A → Io Db Unit
  ignore m = do attempt m; pure tt

  abbrev pub unless_expired : Result (Unit {0}) → Io Db Unit
  unless_expired (err lock_expired) = pure tt
  unless_expired (err e) = raise e
  unless_expired (ok done) = pure tt

  unfoldable pub release_driver : Dispatcher → String → String → Io Db Unit
  release_driver s driver_id request_id = do
    outcome ← attempt (unlock s.lock_manager driver_id request_id)
    unless_expired outcome
    set_available s.driver_service driver_id

  -- After `create` failed. The result is whether the driver was assigned.
  abbrev pub create_failed : Dispatcher → DispatchRequest → String → Error → Io Db Bool
  create_failed s req driver_id driver_ownership_conflict = do
    ignore (unlock s.lock_manager driver_id req.request_id)
    held ← refresh_active_driver s.lifecycle driver_id
    (if held then pure tt else ignore (set_available s.driver_service driver_id))
    pure false
  create_failed s req driver_id e = do ignore (release_driver s driver_id req.request_id); raise e

  abbrev pub created : Dispatcher → DispatchRequest → String → Result (Unit {0}) → Io Db Bool
  created s req driver_id (ok done) = pure true
  created s req driver_id (err e) = create_failed s req driver_id e

  abbrev pub pickup_checked : Dispatcher → DispatchRequest → String → Result (Unit {0}) → Io Db Bool
  pickup_checked s req driver_id (err e) = do
    ignore (release_driver s driver_id req.request_id)
    raise e
  pickup_checked s req driver_id (ok done) = do
    outcome ← attempt (create s.lifecycle (new_assignment req driver_id))
    created s req driver_id outcome

  -- The part of `tryAssignDriver` after `SetBusy` has succeeded.
  unfoldable pub record_assignment : Dispatcher → DispatchRequest → String → Io Db Bool
  record_assignment s req driver_id =
      if req.rider_id == ""
      then pure true
      else pickup_checked s req driver_id (validate_pickup (new_assignment req driver_id))

  -- An error of `SetBusy`: the lock is given back, and a driver that is taken is passed over.
  abbrev pub busy_failed : Error → Io Db Bool
  busy_failed status_conflict = pure false
  busy_failed driver_offline = pure false
  busy_failed e = raise e

  abbrev pub made_busy : Dispatcher → DispatchRequest → String → Result (Unit {0}) → Io Db Bool
  made_busy s req driver_id (ok done) = record_assignment s req driver_id
  made_busy s req driver_id (err e) = do
    ignore (unlock s.lock_manager driver_id req.request_id)
    busy_failed e

  abbrev pub owner_known : Dispatcher → DispatchRequest → String → Result String → Io Db Bool
  owner_known s req driver_id (err e) = do
    ignore (unlock s.lock_manager driver_id req.request_id)
    raise e
  owner_known s req driver_id (ok owner) =
      if not (owner == "")
      then (do ignore (unlock s.lock_manager driver_id req.request_id); pure false)
      else (do
        outcome ← attempt (set_busy s.driver_service driver_id)
        made_busy s req driver_id outcome)

  -- `tryAssignDriver`; `true` is its result with `Success`, which `assigned` spells out.
  unfoldable pub try_assign_driver : Dispatcher → DispatchRequest → String → Io Db Bool
  try_assign_driver s req driver_id = do
    locked ← try_lock s.lock_manager driver_id req.request_id
    if not locked then pure false else (do
      owner ← attempt (driver_owner s.lifecycle driver_id)
      owner_known s req driver_id owner)
