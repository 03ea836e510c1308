-- ===== src/Dispatcher/Commands.antt =====
-- internal/dispatch, internal/driver, internal/geospatial: the round trips that change the database in
-- the dispatcher's operations, as commands that any client may send at any time, and the expiry of keys.
-- The reset of a rider, `ExtendLock` and `RemoveLocation` are not among them.
use geo_spatial_dispatch_ser.Prelude.{String, List, [], ◌∷◌, whole_seconds, if◌then◌else◌}
use geo_spatial_dispatch_ser.Redis.{Redis}
use geo_spatial_dispatch_ser.Float.{Float}
use geo_spatial_dispatch_ser.Lock.{lock_key, unlock_script}
use geo_spatial_dispatch_ser.Driver.{DriverStatus, status_key, set_busy_script}
use geo_spatial_dispatch_ser.Geo.{GeoIndex}
use geo_spatial_dispatch_ser.Lifecycle.Types.{
  Assignment, assignment_key, active_driver_key, active_rider_key,
}
use geo_spatial_dispatch_ser.Lifecycle.Scripts.{is_text, active_status}
use geo_spatial_dispatch_ser.Lifecycle.Manager.{
  create_command, cancel_command, arrive_command, refresh_command,
}
use geo_spatial_dispatch_ser.Dispatcher.Types.{Dispatcher}

-- The commands, by the method that sends them; the last five are keys that expire. `SetStatus` with
-- the status offline deletes the key as its expiry does, so it is `status_expires`. An active key
-- expires with the assignment that it names, since one script gave both the same time to live: so it
-- is still there while that assignment is en route.
pub data Command ⦃F : Float⦄ : Type 0 where
  try_lock unlock : String → String → Command
  set_busy refresh heartbeat : String → Command
  set_status : String → DriverStatus → Command
  add_location : String → F.Float64 → F.Float64 → Command
  create arrive : Assignment → Command
  cancel : String → Assignment → Command
  lock_expires status_expires assignment_expires owner_expires rider_expires : String → Command

module _ ⦃R : Redis⦄ ⦃F : Float⦄ ⦃G : GeoIndex R F⦄ (s : Dispatcher) where
  open R use {Db, get, hget, set_nx, set_ex, del, expire}

  -- A key that names an assignment goes, unless the assignment is en route.
  abbrev pub expire_active : String → Db → Db
  expire_active key d =
      if is_text (active_status s.lifecycle.assignment_prefix (get d key) d) "en_route"
      then d
      else del d key

  unfoldable pub perform : Command → Db → Db
  perform (try_lock driver request) d =
      (set_nx d (lock_key s.lock_manager driver) request s.lock_manager.lock_ttl).1
  perform (unlock driver request) d = (unlock_script (lock_key s.lock_manager driver) request d).1
  perform (set_busy driver) d =
      (set_busy_script (status_key s.driver_service driver)
        (whole_seconds s.driver_service.default_ttl) d).1
  perform (refresh driver) d = (refresh_command s.lifecycle driver d).1
  perform (heartbeat driver) d =
      expire d (status_key s.driver_service driver) s.driver_service.default_ttl
  perform (set_status driver status) d =
      set_ex d (status_key s.driver_service driver) status s.driver_service.default_ttl
  perform (add_location id lon lat) d = (G.geoadd d s.geo_service.key id lon lat).1
  perform (create a) d = (create_command s.lifecycle a d).1
  perform (arrive a) d = (arrive_command s.lifecycle a d).1
  perform (cancel request a) d = (cancel_command s.lifecycle request a d).1
  perform (lock_expires driver) d = del d (lock_key s.lock_manager driver)
  perform (status_expires driver) d = del d (status_key s.driver_service driver)
  perform (assignment_expires request) d = del d (assignment_key s.lifecycle request)
  perform (owner_expires driver) d = expire_active (active_driver_key s.lifecycle driver) d
  perform (rider_expires rider) d = expire_active (active_rider_key s.lifecycle rider) d

  abbrev pub perform_all : List Command → Db → Db
  perform_all [] d = d
  perform_all (command ∷ commands) d = perform_all commands (perform command d)
