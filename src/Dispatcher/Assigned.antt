-- ===== src/Dispatcher/Assigned.antt =====
-- internal/dispatch/dispatcher.go: `tryAssignDriver` on a driver that is free.
use geo_spatial_dispatch_ser.Prelude.{
  String, ◌≡◌, ◌≢◌, ◌∙◌, refl, sym, ap, true, false, ◌==◌, none, some, pos, whole_seconds,
}
use geo_spatial_dispatch_ser.Result.{ok}
use geo_spatial_dispatch_ser.Redis.{Redis}
use geo_spatial_dispatch_ser.Redis.Frame.{SameAt}
use geo_spatial_dispatch_ser.Float.{Float}
use geo_spatial_dispatch_ser.Client.{quiet, call, ◌>>=◌, pure, attempt}
use geo_spatial_dispatch_ser.Lock.{lock_key}
use geo_spatial_dispatch_ser.Driver.{status_key}
use geo_spatial_dispatch_ser.Lifecycle.Types.{
  LifecycleManager, Assignment, assignment_key, active_rider_key, active_driver_key,
  validate_pickup,
}
use geo_spatial_dispatch_ser.Lifecycle.Keys
use geo_spatial_dispatch_ser.Lifecycle.Guards.{create-passes}
use geo_spatial_dispatch_ser.Lifecycle.Scripts.{is_active, active_status, is_other}
use geo_spatial_dispatch_ser.Lifecycle.Creating.{after_create, created-SameAt}
use geo_spatial_dispatch_ser.Lifecycle.Records.{IsRecorded, written}
use geo_spatial_dispatch_ser.Lifecycle.Manager.{create, create_command}
use geo_spatial_dispatch_ser.Dispatcher.Types.{Dispatcher, DispatchRequest, new_assignment}
use geo_spatial_dispatch_ser.Dispatcher.Assign.{try_assign_driver, record_assignment}
use geo_spatial_dispatch_ser.Dispatcher.Wiring.{IsWired, lock_key-eq, status_key-eq}
use geo_spatial_dispatch_ser.Dispatcher.Reaching.{
  IsOpen, locked_db, busy_db, busy-SameAt, same_assignment, same_status, busy_lock, reaches,
}

module _ ⦃R : Redis⦄ ⦃F : Float⦄ where
  open R use {Db, get, hget, exists, set_ex}
  open F use {format}

  -- A driver that is free, for a new request of a rider who has no ride.
  pub record IsFree (s : Dispatcher) (req : DispatchRequest) (driver : String) (d : Db)
      : Type 0 where
    pub unlocked : exists d (lock_key s.lock_manager driver) ≡ false
    pub unowned : get d (active_driver_key s.lifecycle driver) ≡ none
    pub available : get d (status_key s.driver_service driver) ≡ some "available"
    pub new_request : exists d (assignment_key s.lifecycle req.request_id) ≡ false
    pub no_ride :
        is_active (
          active_status s.lifecycle.assignment_prefix
            (get d (active_rider_key s.lifecycle req.rider_id))
            d)
        ≡ false
    pub named_rider : (req.rider_id == "") ≡ false
    pub on_the_map : validate_pickup (new_assignment req driver) ≡ ok tt

  -- A driver that is assigned to a request.
  pub record IsAssigned (s : Dispatcher) (req : DispatchRequest) (driver : String) (e : Db)
      : Type 0 where
    pub holds_lock : get e (lock_key s.lock_manager driver) ≡ some req.request_id
    pub is_busy : get e (status_key s.driver_service driver) ≡ some "busy"
    pub record_kept : IsRecorded s.lifecycle e (new_assignment req driver)
    pub rider_held : get e (active_rider_key s.lifecycle req.rider_id) ≡ some req.request_id
    pub driver_held : get e (active_driver_key s.lifecycle driver) ≡ some req.request_id

  module _ (s : Dispatcher) (w : IsWired s) (req : DispatchRequest) (driver : String) (d : Db)
      (free : IsFree s req driver d) where
    abbrev m : LifecycleManager
    m = s.lifecycle

    abbrev busy : Db
    busy = busy_db s req driver d

    opened : IsOpen s driver d
    opened = record { unlocked = free.unlocked; unowned = free.unowned; available = free.available }

    abbrev a : Assignment
    a = new_assignment req driver

    request-eq : a.request_id ≡ req.request_id
    unfolding new_assignment
    request-eq = refl

    abbrev assigned_db : Db
    assigned_db =
        after_create m req.request_id req.rider_id driver (format a.pickup_longitude)
          (format a.pickup_latitude) (whole_seconds m.assignment_ttl) busy

    script_passes : create_command m a busy ≡ (pos 1, assigned_db)
    unfolding new_assignment
    script_passes = create-passes _ _ _ _ _ _ _ _ _ _ busy (
      ap is_active (
            ap (λ o. active_status m.assignment_prefix o busy) rider
            ∙ same_status s w req driver d _)
          ∙ free.no_ride,
      (same_assignment s w req driver d req.request_id).present ∙ free.new_request,
      ap (λ o. is_other o req.request_id) owner,
    )
      where
        rider : get busy (active_rider_key m req.rider_id) ≡ get d (active_rider_key m req.rider_id)
        rider =
            (busy-SameAt s w req driver d _ (Keys.lock_ne_rider m w.configured driver _)
              (Keys.status_ne_rider m w.configured driver _)).gets

        owner : get busy (active_driver_key m driver) ≡ none
        owner =
            (busy-SameAt s w req driver d _ (Keys.lock_ne_driver m w.configured driver driver)
              (Keys.status_ne_driver m w.configured driver driver)).gets
            ∙ free.unowned

    recorded : record_assignment s req driver (quiet busy) ≡ (ok true, quiet assigned_db)
    unfolding record_assignment create call ◌>>=◌ pure attempt
    recorded = rw (free.named_rider, free.on_the_map, script_passes) refl

    assigns : try_assign_driver s req driver (quiet d) ≡ (ok true, quiet assigned_db)
    assigns = reaches s w req driver d opened ∙ recorded

    assigned-SameAt :
        (j : String)
        → assignment_key m req.request_id ≢ j
        → active_rider_key m req.rider_id ≢ j
        → active_driver_key m driver ≢ j
        → SameAt j busy assigned_db
    assigned-SameAt =
        created-SameAt m w.configured req.request_id req.rider_id driver (format a.pickup_longitude)
          (format a.pickup_latitude) (whole_seconds m.assignment_ttl) w.configured.assignment_live
          busy

    assigned_lock : get assigned_db (lock_key s.lock_manager driver) ≡ some req.request_id
    assigned_lock =
        (assigned-SameAt (lock_key s.lock_manager driver)
          (λ e. Keys.assignment_ne_lock m w.configured _ driver (e ∙ sym (lock_key-eq s w driver)))
          (λ e. Keys.rider_ne_lock m w.configured _ driver (e ∙ sym (lock_key-eq s w driver)))
          (λ e.
            Keys.driver_ne_lock m w.configured _ driver (e ∙ sym (lock_key-eq s w driver)))).gets
        ∙ busy_lock s w req driver d

    assigned_status : get assigned_db (status_key s.driver_service driver) ≡ some "busy"
    assigned_status =
        (assigned-SameAt (status_key s.driver_service driver)
          (λ e.
            Keys.assignment_ne_status m w.configured _ driver (e ∙ sym (status_key-eq s w driver)))
          (λ e. Keys.rider_ne_status m w.configured _ driver (e ∙ sym (status_key-eq s w driver)))
          (λ e.
            Keys.driver_ne_status m w.configured _ driver
              (e ∙ sym (status_key-eq s w driver)))).gets
        ∙ R.get-set_ex (locked_db s req driver d) (status_key s.driver_service driver) "busy"
            (whole_seconds s.driver_service.default_ttl) w.online

    record_written :
        IsRecorded m assigned_db (new_assignment req driver)
        × (get assigned_db (active_rider_key m req.rider_id) ≡ some req.request_id)
        × (get assigned_db (active_driver_key m driver) ≡ some req.request_id)
    unfolding new_assignment
    record_written =
        written m w.configured (new_assignment req driver) busy
          ((same_assignment s w req driver d req.request_id).present ∙ free.new_request)

    -- A driver that is free is assigned to a new request of a rider who has a name and no ride, with a
    -- pickup point in range, if no other client interferes and no call fails: `tryAssignDriver` answers
    -- that it succeeded, the driver is locked in the name of the request and busy, the assignment is
    -- recorded en route with the request's pickup point, and the active keys of the driver and of the
    -- rider name it. The driver is free if nobody has its lock, no request has its active key, and it is
    -- available.
    pub try_assign_driver-free :
        ((try_assign_driver s req driver (quiet d)).0 ≡ ok true)
        × IsAssigned s req driver (try_assign_driver s req driver (quiet d)).1.db
    try_assign_driver-free =
        let (record_kept, rider_held, driver_held) = record_written in
        rw assigns (
          refl,
          record {
            holds_lock = assigned_lock;
            is_busy = assigned_status;
            record_kept = record_kept;
            rider_held = rider_held;
            driver_held = driver_held;
          },
        )

    pub try_assign_driver-quiet :
        try_assign_driver s req driver (quiet d) ≡ (ok true, quiet assigned_db)
    try_assign_driver-quiet = assigns
