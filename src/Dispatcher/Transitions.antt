-- ===== src/Dispatcher/Transitions.antt =====
-- internal/dispatch/lifecycle.go: the life of an assignment under the commands of any clients, from
-- en_route to arrived or cancelled and no further.
use geo_spatial_dispatch_ser.Prelude.{
  String, ◌≡◌, ◌≢◌, ◌∙◌, ap, whole_seconds, arith, Bool-cases, inl, inr,
}
use geo_spatial_dispatch_ser.Redis.{Redis}
use geo_spatial_dispatch_ser.Redis.Frame.{
  SameAt, SameAt-refl, set_nx-SameAt, set_ex-SameAt, del-SameAt, expire-SameAt,
}
use geo_spatial_dispatch_ser.Float.{Float}
use geo_spatial_dispatch_ser.Lock.{lock_key}
use geo_spatial_dispatch_ser.Lock.Frames.{unlock_script-SameAt}
use geo_spatial_dispatch_ser.Driver.{status_key}
use geo_spatial_dispatch_ser.Driver.Frames.{set_busy_script-SameAt}
use geo_spatial_dispatch_ser.Geo.{GeoIndex}
use geo_spatial_dispatch_ser.Geo.Frames.{geoadd-SameAt}
use geo_spatial_dispatch_ser.Lifecycle.Types.{assignment_key, active_driver_key, active_rider_key}
use geo_spatial_dispatch_ser.Lifecycle.Keys
use geo_spatial_dispatch_ser.Lifecycle.Scripts.{is_text, active_status}
use geo_spatial_dispatch_ser.Dispatcher.Types.{Dispatcher}
use geo_spatial_dispatch_ser.Dispatcher.Wiring.{
  IsWired, status_key-eq, lock_key-eq, geo_ne_assignment,
}
use geo_spatial_dispatch_ser.Dispatcher.Commands.{
  Command, try_lock, unlock, set_busy, refresh, heartbeat, set_status, add_location, create, arrive,
  cancel, lock_expires, status_expires, assignment_expires, owner_expires, rider_expires, perform,
  expire_active,
}
use geo_spatial_dispatch_ser.Dispatcher.Moves.{
  Move, same-Moves, create-Moves, cancel-Moves, arrive-Moves, refresh-Moves, expires-Moves,
}

module _ ⦃R : Redis⦄ ⦃F : Float⦄ ⦃G : GeoIndex R F⦄ (s : Dispatcher) (w : IsWired s) where
  open R use {Db, get, hget, del}

  abbrev key : String → String
  key r = assignment_key s.lifecycle r

  lock_ne : (driver r : String) → lock_key s.lock_manager driver ≢ key r
  lock_ne driver r e =
      Keys.lock_ne_assignment s.lifecycle w.configured driver r (lock_key-eq s w driver ∙ e)

  status_ne : (driver r : String) → status_key s.driver_service driver ≢ key r
  status_ne driver r e =
      Keys.status_ne_assignment s.lifecycle w.configured driver r (status_key-eq s w driver ∙ e)

  expire_active-SameAt :
      (k : String) (r : String) (d : Db) → k ≢ key r → SameAt (key r) d (expire_active s k d)
  expire_active-SameAt k r d ne =
      elim (Bool-cases
        (is_text (active_status s.lifecycle.assignment_prefix (get d k) d) "en_route")) [
          | inl busy ↦ rw busy (SameAt-refl (key r) d)
          | inr free ↦ rw free (del-SameAt d k (key r) ne)
        ]

  -- Every `Command`, which are all round trips of the dispatcher but those of a reset, and the expiry of
  -- keys, makes at most one step in the life of every assignment: it is created en_route where
  -- there was none, goes from en_route to arrived or from en_route to cancelled, or vanishes, which
  -- only the expiry of its own key does; otherwise its status stays.
  pub perform-Move :
      (command : Command) (d : Db) (r : String)
      → Move
          (command ≡ assignment_expires r)
          (hget d (assignment_key s.lifecycle r) "status")
          (hget (perform s command d) (assignment_key s.lifecycle r) "status")
  unfolding perform
  perform-Move (try_lock driver request) d r = same-Moves s.lifecycle w.configured r d _ (
      set_nx-SameAt d (lock_key s.lock_manager driver) (key r) (lock_ne driver r) request
        s.lock_manager.lock_ttl)
  perform-Move (unlock driver request) d r =
      same-Moves s.lifecycle w.configured r d _
        (unlock_script-SameAt (lock_key s.lock_manager driver) request d (key r) (lock_ne driver r))
  perform-Move (set_busy driver) d r = same-Moves s.lifecycle w.configured r d _ (
      set_busy_script-SameAt (status_key s.driver_service driver)
        (whole_seconds s.driver_service.default_ttl) d (key r) (status_ne driver r))
  perform-Move (refresh driver) d r = refresh-Moves s.lifecycle w.configured r d _ driver
  perform-Move (heartbeat driver) d r = same-Moves s.lifecycle w.configured r d _ (
      expire-SameAt d (status_key s.driver_service driver) s.driver_service.default_ttl (key r)
        (omega (arith, w.online)))
  perform-Move (set_status driver status) d r = same-Moves s.lifecycle w.configured r d _ (
      set_ex-SameAt d (status_key s.driver_service driver) (key r) (status_ne driver r) status
        s.driver_service.default_ttl)
  perform-Move (add_location id lon lat) d r =
      same-Moves s.lifecycle w.configured r d _
        (geoadd-SameAt d s.geo_service.key id lon lat (key r) (geo_ne_assignment s w r))
  perform-Move (create a) d r = create-Moves s.lifecycle w.configured r d _ a
  perform-Move (arrive a) d r = arrive-Moves s.lifecycle w.configured r d _ a
  perform-Move (cancel request a) d r = cancel-Moves s.lifecycle w.configured r d _ request a
  perform-Move (lock_expires driver) d r =
      same-Moves s.lifecycle w.configured r d _
        (del-SameAt d (lock_key s.lock_manager driver) (key r) (lock_ne driver r))
  perform-Move (status_expires driver) d r =
      same-Moves s.lifecycle w.configured r d _
        (del-SameAt d (status_key s.driver_service driver) (key r) (status_ne driver r))
  perform-Move (assignment_expires request) d r =
      expires-Moves s.lifecycle w.configured r d _ request (ap assignment_expires)
  perform-Move (owner_expires driver) d r = same-Moves s.lifecycle w.configured r d _ (
      expire_active-SameAt (active_driver_key s.lifecycle driver) r d
        (Keys.driver_ne_assignment s.lifecycle w.configured driver r))
  perform-Move (rider_expires rider) d r = same-Moves s.lifecycle w.configured r d _ (
      expire_active-SameAt (active_rider_key s.lifecycle rider) r d
        (Keys.rider_ne_assignment s.lifecycle w.configured rider r))
