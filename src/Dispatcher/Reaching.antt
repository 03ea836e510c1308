-- ===== src/Dispatcher/Reaching.antt =====
-- internal/dispatch/dispatcher.go: `tryAssignDriver` up to the recording of the assignment, on a driver
-- that nobody has.
use mathlib.Core.Path.{subst}
use geo_spatial_dispatch_ser.Prelude.{
  ◌<◌, String, ◌≡◌, ◌≢◌, ◌∙◌, refl, sym, false, Option, none, some, whole_seconds,
}
use geo_spatial_dispatch_ser.Redis.{Redis}
use geo_spatial_dispatch_ser.Redis.Frame.{SameAt, SameAt-trans, set_ex-SameAt}
use geo_spatial_dispatch_ser.Float.{Float}
use geo_spatial_dispatch_ser.Client.{quiet, call, ◌>>=◌, pure, attempt}
use geo_spatial_dispatch_ser.Lock.{lock_key}
use geo_spatial_dispatch_ser.Lock.Laws.{try_lock_free}
use geo_spatial_dispatch_ser.Driver.{status_key}
use geo_spatial_dispatch_ser.Driver.Laws.{set_busy_available}
use geo_spatial_dispatch_ser.Lifecycle.Types.{
  LifecycleManager, assignment_key, active_driver_key, driver_status_key,
}
use geo_spatial_dispatch_ser.Lifecycle.Keys
use geo_spatial_dispatch_ser.Lifecycle.Scripts.{active_status}
use geo_spatial_dispatch_ser.Lifecycle.Manager.{driver_owner}
use geo_spatial_dispatch_ser.Dispatcher.Types.{Dispatcher, DispatchRequest}
use geo_spatial_dispatch_ser.Dispatcher.Assign.{try_assign_driver, record_assignment}
use geo_spatial_dispatch_ser.Dispatcher.Wiring.{
  IsWired, lock_key-eq, status_key-eq, lock_ne, status_ne,
}

module _ ⦃R : Redis⦄ where
  open R use {Db, get, exists, set_ex}

  module _ ⦃F : Float⦄ where
    -- A driver that can be taken.
    pub record IsOpen (s : Dispatcher) (driver : String) (d : Db) : Type 0 where
      pub unlocked : exists d (lock_key s.lock_manager driver) ≡ false
      pub unowned : get d (active_driver_key s.lifecycle driver) ≡ none
      pub available : get d (status_key s.driver_service driver) ≡ some "available"

  module _ ⦃F : Float⦄ (s : Dispatcher) (req : DispatchRequest) (driver : String) (d : Db) where
    abbrev pub locked_db : Db
    locked_db = set_ex d (lock_key s.lock_manager driver) req.request_id s.lock_manager.lock_ttl

    -- The database with the driver locked and busy.
    abbrev pub busy_db : Db
    busy_db =
        set_ex locked_db (status_key s.driver_service driver) "busy"
          (whole_seconds s.driver_service.default_ttl)

  module _ ⦃F : Float⦄ (s : Dispatcher) (w : IsWired s) (req : DispatchRequest) (driver : String)
      (d : Db) where
    abbrev m : LifecycleManager
    m = s.lifecycle

    abbrev locked : Db
    locked = locked_db s req driver d

    abbrev busy : Db
    busy = busy_db s req driver d

    pub busy-SameAt :
        (j : String)
        → lock_key m.lock_manager driver ≢ j
        → driver_status_key m driver ≢ j
        → SameAt j d busy
    busy-SameAt j nl ns =
        SameAt-trans
          (set_ex-SameAt d (lock_key s.lock_manager driver) j (lock_ne s w driver j nl) _ _)
          (set_ex-SameAt locked (status_key s.driver_service driver) j (status_ne s w driver j ns) _
            _)

    pub same_assignment : (r : String) → SameAt (assignment_key m r) d busy
    same_assignment r =
        busy-SameAt _ (Keys.lock_ne_assignment m w.configured driver r)
          (Keys.status_ne_assignment m w.configured driver r)

    pub same_status :
        (o : Option String)
        → active_status m.assignment_prefix o busy ≡ active_status m.assignment_prefix o d
    same_status none = refl
    same_status (some r) = (same_assignment r).hgets "status"

    -- The request still has the lock when the driver is busy.
    pub busy_lock : get busy (lock_key s.lock_manager driver) ≡ some req.request_id
    busy_lock =
        R.get-set_ex_ne locked (status_key s.driver_service driver) _ _
          (lock_key s.lock_manager driver)
          (status_ne s w driver _ (λ e.
            Keys.status_ne_lock m w.configured driver driver (e ∙ sym (lock_key-eq s w driver))))
        ∙ R.get-set_ex d (lock_key s.lock_manager driver) req.request_id s.lock_manager.lock_ttl
            (subst (λ lm. 0 < lm.lock_ttl) (sym w.one_lock) w.configured.lock_live)

    module _ (free : IsOpen s driver d) where
      locked_owner : get locked (active_driver_key m driver) ≡ none
      locked_owner =
          R.get-set_ex_ne d (lock_key s.lock_manager driver) _ _ (active_driver_key m driver)
            (lock_ne s w driver _ (Keys.lock_ne_driver m w.configured driver driver))
          ∙ free.unowned

      locked_status : get locked (status_key s.driver_service driver) ≡ some "available"
      locked_status =
          R.get-set_ex_ne d (lock_key s.lock_manager driver) _ _
            (status_key s.driver_service driver)
            (lock_ne s w driver _ (λ e.
              Keys.lock_ne_status m w.configured driver driver
                (e ∙ sym (status_key-eq s w driver))))
          ∙ free.available

      -- The attempt comes to the point where the driver is locked and busy.
      pub reaches :
          try_assign_driver s req driver (quiet d) ≡ record_assignment s req driver (quiet busy)
      unfolding try_assign_driver driver_owner call ◌>>=◌ attempt pure
      reaches =
          rw
            (
              try_lock_free s.lock_manager driver req.request_id d req.request_id free.unlocked,
              locked_owner,
              set_busy_available s.driver_service driver locked locked_status,
            )
            refl
