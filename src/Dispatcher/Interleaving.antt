-- ===== src/Dispatcher/Interleaving.antt =====
-- internal/dispatch: any number of clients at once. Every command keeps the rides exclusive, so they
-- stay so however the clients' round trips interleave.
use geo_spatial_dispatch_ser.Prelude.{
  String, ◌≡◌, false, List, [], ◌∷◌, whole_seconds, arith, Bool-cases, inl, inr,
}
use geo_spatial_dispatch_ser.Redis.{Redis}
use geo_spatial_dispatch_ser.Redis.Frame.{set_nx-SameAt, set_ex-SameAt, del-SameAt, expire-SameAt}
use geo_spatial_dispatch_ser.Float.{Float}
use geo_spatial_dispatch_ser.Lock.{lock_key}
use geo_spatial_dispatch_ser.Lock.Frames.{unlock_script-SameAt}
use geo_spatial_dispatch_ser.Driver.{status_key}
use geo_spatial_dispatch_ser.Driver.Frames.{set_busy_script-SameAt}
use geo_spatial_dispatch_ser.Geo.{GeoIndex}
use geo_spatial_dispatch_ser.Geo.Frames.{geoadd-SameAt}
use geo_spatial_dispatch_ser.Lifecycle.Types.{active_driver_key, active_rider_key}
use geo_spatial_dispatch_ser.Lifecycle.Expiry.{
  assignment_expires-Exclusive, owner_expires-Exclusive, rider_expires-Exclusive,
}
use geo_spatial_dispatch_ser.Lifecycle.Scripts.{is_text, active_status}
use geo_spatial_dispatch_ser.Lifecycle.Exclusive.{Exclusive}
use geo_spatial_dispatch_ser.Lifecycle.Commands.{
  create_command-Exclusive, cancel_command-Exclusive, arrive_command-Exclusive,
  refresh_command-Exclusive,
}
use geo_spatial_dispatch_ser.Dispatcher.Types.{Dispatcher}
use geo_spatial_dispatch_ser.Dispatcher.Wiring.{IsWired, status-Ignores, lock-Ignores, geo-Ignores}
use geo_spatial_dispatch_ser.Dispatcher.Commands.{
  Command, try_lock, unlock, set_busy, refresh, heartbeat, set_status, add_location, create, arrive,
  cancel, lock_expires, status_expires, assignment_expires, owner_expires, rider_expires, perform,
  perform_all, expire_active,
}

module _ ⦃R : Redis⦄ ⦃F : Float⦄ ⦃G : GeoIndex R F⦄ (s : Dispatcher) (w : IsWired s) where
  open R use {Db, get, hget, del, expire, set_ex}

  expire_active-Exclusive :
      (key : String) (d : Db)
      → Exclusive s.lifecycle d
      → (is_text (active_status s.lifecycle.assignment_prefix (get d key) d) "en_route" ≡ false
          → Exclusive s.lifecycle (del d key))
      → Exclusive s.lifecycle (expire_active s key d)
  expire_active-Exclusive key d h idle =
      elim (Bool-cases
        (is_text (active_status s.lifecycle.assignment_prefix (get d key) d) "en_route")) [
          | inl busy ↦ rw busy h
          | inr free ↦ rw free (idle free)
        ]

  -- Every `Command` keeps the rides exclusive: if the active keys of the driver and the rider of every
  -- assignment that is en route name it, they still do. The commands are the round trips that create,
  -- cancel, arrive and refresh, take and release a lock, and update a status or a location, and the expiry
  -- of keys; those of the reset of a rider, which takes active keys away, are not among them. An active
  -- key does not expire before the assignment that it names, while that is en route.
  pub perform-Exclusive :
      (command : Command) (d : Db)
      → Exclusive s.lifecycle d
      → Exclusive s.lifecycle (perform s command d)
  unfolding perform
  perform-Exclusive (try_lock driver request) d h =
      lock-Ignores s w driver d _
        (λ j ne.
          set_nx-SameAt d (lock_key s.lock_manager driver) j ne request s.lock_manager.lock_ttl)
        h
  perform-Exclusive (unlock driver request) d h =
      lock-Ignores s w driver d _ (unlock_script-SameAt (lock_key s.lock_manager driver) request d)
        h
  perform-Exclusive (set_busy driver) d h =
      status-Ignores s w driver d _
        (set_busy_script-SameAt (status_key s.driver_service driver)
          (whole_seconds s.driver_service.default_ttl) d)
        h
  perform-Exclusive (refresh driver) d h =
      refresh_command-Exclusive s.lifecycle w.configured driver d h
  perform-Exclusive (heartbeat driver) d h =
      status-Ignores s w driver d _
        (λ j ne.
          expire-SameAt d (status_key s.driver_service driver) s.driver_service.default_ttl j
            (omega (arith, w.online)))
        h
  perform-Exclusive (set_status driver status) d h =
      status-Ignores s w driver d _
        (λ j ne.
          set_ex-SameAt d (status_key s.driver_service driver) j ne status
            s.driver_service.default_ttl)
        h
  perform-Exclusive (add_location id lon lat) d h =
      geo-Ignores s w d _ (geoadd-SameAt d s.geo_service.key id lon lat) h
  perform-Exclusive (create a) d h = create_command-Exclusive s.lifecycle w.configured a d h
  perform-Exclusive (arrive a) d h = arrive_command-Exclusive s.lifecycle w.configured a d h
  perform-Exclusive (cancel request a) d h =
      cancel_command-Exclusive s.lifecycle w.configured request a d h
  perform-Exclusive (lock_expires driver) d h =
      lock-Ignores s w driver d _ (del-SameAt d (lock_key s.lock_manager driver)) h
  perform-Exclusive (status_expires driver) d h =
      status-Ignores s w driver d _ (del-SameAt d (status_key s.driver_service driver)) h
  perform-Exclusive (assignment_expires request) d h =
      assignment_expires-Exclusive s.lifecycle w.configured d h request
  perform-Exclusive (owner_expires driver) d h =
      expire_active-Exclusive (active_driver_key s.lifecycle driver) d h
        (owner_expires-Exclusive s.lifecycle w.configured d h driver)
  perform-Exclusive (rider_expires rider) d h =
      expire_active-Exclusive (active_rider_key s.lifecycle rider) d h
        (rider_expires-Exclusive s.lifecycle w.configured d h rider)

  pub perform_all-Exclusive :
      (commands : List Command) (d : Db)
      → Exclusive s.lifecycle d
      → Exclusive s.lifecycle (perform_all s commands d)
  perform_all-Exclusive [] d h = h
  perform_all-Exclusive (command ∷ commands) d h =
      perform_all-Exclusive commands (perform s command d) (perform-Exclusive command d h)
