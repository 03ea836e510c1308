-- ===== src/Dispatcher/Returning.antt =====
-- internal/dispatch/dispatcher.go: the roll-back of `tryAssignDriver` where the assignment cannot be
-- recorded.
use geo_spatial_dispatch_ser.Prelude.{
  ◌<◌, String, ◌≡◌, ◌≢◌, ◌∙◌, refl, sym, ap, Bool, true, false, ◌==◌, Option, none, some, arith,
  is_blank, Bool-cases, inl, inr,
}
use geo_spatial_dispatch_ser.Result.{
  Error, Result, ok, err, active_assignment, request_already_exists,
}
use geo_spatial_dispatch_ser.Redis.{Redis}
use geo_spatial_dispatch_ser.Redis.Frame.{SameAt, SameAt-trans, set_ex-SameAt, del-SameAt}
use geo_spatial_dispatch_ser.Float.{Float}
use geo_spatial_dispatch_ser.Client.{quiet, call, ◌>>=◌, pure, raise, attempt}
use geo_spatial_dispatch_ser.Lock.{lock_key}
use geo_spatial_dispatch_ser.Lock.Laws.{unlock_holder}
use geo_spatial_dispatch_ser.Driver.{status_key, set_available, set_status}
use geo_spatial_dispatch_ser.Lifecycle.Types.{assignment_key, active_rider_key, validate_pickup}
use geo_spatial_dispatch_ser.Lifecycle.Keys
use geo_spatial_dispatch_ser.Lifecycle.Scripts.{is_active, active_status, create_assignment_script}
use geo_spatial_dispatch_ser.Lifecycle.Manager.{create}
use geo_spatial_dispatch_ser.Dispatcher.Types.{Dispatcher, DispatchRequest, new_assignment}
use geo_spatial_dispatch_ser.Dispatcher.Assign.{
  try_assign_driver, record_assignment, release_driver, pickup_checked,
}
use geo_spatial_dispatch_ser.Dispatcher.Wiring.{IsWired, lock_key-eq, status_ne}
use geo_spatial_dispatch_ser.Dispatcher.Reaching.{
  IsOpen, locked_db, busy_db, busy-SameAt, same_assignment, same_status, busy_lock, reaches,
}

-- Why a request cannot be recorded: its pickup point, a ride of its rider, or its id, in this order.
abbrev pub refusal : Result (Unit {0}) → Bool → Bool → Option Error
refusal (err e) riding known = some e
refusal (ok done) true known = some active_assignment
refusal (ok done) false true = some request_already_exists
refusal (ok done) false false = none

module _ ⦃R : Redis⦄ ⦃F : Float⦄ where
  open R use {Db, get, hget, exists, set_ex, del}

  -- Whether the rider of the request has a ride, by the active key.
  abbrev pub has_ride : Dispatcher → DispatchRequest → Db → Bool
  has_ride s req d = is_active (
      active_status s.lifecycle.assignment_prefix
        (get d (active_rider_key s.lifecycle req.rider_id)) d)

  abbrev pub refusal_of : Dispatcher → DispatchRequest → String → Db → Option Error
  refusal_of s req driver d =
      refusal (validate_pickup (new_assignment req driver)) (has_ride s req d)
        (exists d (assignment_key s.lifecycle req.request_id))

  -- A driver that has been given back: nobody has its lock, it is available, and nothing else has
  -- changed.
  pub record IsGivenBack (s : Dispatcher) (driver : String) (d e : Db) : Type 0 where
    pub unlocked : exists e (lock_key s.lock_manager driver) ≡ false
    pub available : get e (status_key s.driver_service driver) ≡ some "available"
    pub others :
        (j : String)
        → lock_key s.lock_manager driver ≢ j
        → status_key s.driver_service driver ≢ j
        → SameAt j d e

  module _ (s : Dispatcher) (w : IsWired s) (req : DispatchRequest) (driver : String) (d : Db) where
    abbrev busy : Db
    busy = busy_db s req driver d

    abbrev unlocked_db : Db
    unlocked_db = del busy (lock_key s.lock_manager driver)

    abbrev returned : Db
    returned =
        set_ex unlocked_db (status_key s.driver_service driver) "available"
          s.driver_service.default_ttl

    releases :
        is_blank driver ≡ false
        → release_driver s driver req.request_id (quiet busy) ≡ (ok tt, quiet returned)
    unfolding release_driver set_available set_status call ◌>>=◌ attempt pure
    releases named =
        rw
          (
            unlock_holder s.lock_manager driver req.request_id busy (busy_lock s w req driver d),
            named,
          )
          refl

    status_ne_lock : status_key s.driver_service driver ≢ lock_key s.lock_manager driver
    status_ne_lock = status_ne s w driver _ (λ e.
        Keys.status_ne_lock s.lifecycle w.configured driver driver
          (e ∙ sym (lock_key-eq s w driver)))

    live : 0 < s.driver_service.default_ttl
    live = omega (arith, w.online)

    returned-IsGivenBack : IsGivenBack s driver d returned
    returned-IsGivenBack = record {
      unlocked =
          (set_ex-SameAt unlocked_db (status_key s.driver_service driver) _ status_ne_lock _
            _).present
          ∙ R.exists-del busy (lock_key s.lock_manager driver);
      available =
          R.get-set_ex unlocked_db (status_key s.driver_service driver) "available"
            s.driver_service.default_ttl live;
      others = λ j nl ns.
          SameAt-trans
            (SameAt-trans
              (SameAt-trans (set_ex-SameAt d _ j nl _ _)
                (set_ex-SameAt (locked_db s req driver d) _ j ns _ _))
              (del-SameAt busy _ j nl))
            (set_ex-SameAt unlocked_db _ j ns _ _);
    }

    busy_ride : has_ride s req busy ≡ has_ride s req d
    busy_ride = ap is_active (
        ap (λ o. active_status s.lifecycle.assignment_prefix o busy)
          (busy-SameAt s w req driver d _ (Keys.lock_ne_rider s.lifecycle w.configured driver _)
            (Keys.status_ne_rider s.lifecycle w.configured driver _)).gets
        ∙ same_status s w req driver d _)

    busy_known :
        exists busy (assignment_key s.lifecycle req.request_id)
        ≡ exists d (assignment_key s.lifecycle req.request_id)
    busy_known = (same_assignment s w req driver d req.request_id).present

    rider_riding :
        is_blank driver ≡ false
        → has_ride s req d ≡ true
        → pickup_checked s req driver (ok tt) (quiet busy) ≡ (err active_assignment, quiet returned)
    unfolding create create_assignment_script new_assignment call ◌>>=◌ attempt pure raise
    rider_riding named riding = rw (busy_ride ∙ riding, releases named) refl

    request_known :
        is_blank driver ≡ false
        → has_ride s req d ≡ false
        → exists d (assignment_key s.lifecycle req.request_id) ≡ true
        → pickup_checked s req driver (ok tt) (quiet busy)
          ≡ (err request_already_exists, quiet returned)
    unfolding create create_assignment_script new_assignment call ◌>>=◌ attempt pure raise
    request_known named idle known = rw (busy_ride ∙ idle, busy_known ∙ known, releases named) refl

    pickup_wrong :
        (e : Error)
        → is_blank driver ≡ false
        → pickup_checked s req driver (err e) (quiet busy) ≡ (err e, quiet returned)
    unfolding ◌>>=◌ attempt pure raise
    pickup_wrong e named = rw (releases named) refl

    tried :
        (r : Result (Unit {0})) (e : Error)
        → is_blank driver ≡ false
        → refusal r (has_ride s req d) (exists d (assignment_key s.lifecycle req.request_id))
          ≡ some e
        → pickup_checked s req driver r (quiet busy) ≡ (err e, quiet returned)
    tried (err x) e named h = pickup_wrong x named ∙ cc
    tried (ok done) e named h = elim (Bool-cases (has_ride s req d)) [
      | inl riding ↦ rider_riding named riding ∙ cc (rw riding at h)
      | inr idle ↦ elim (Bool-cases (exists d (assignment_key s.lifecycle req.request_id))) [
        | inl known ↦ request_known named idle known ∙ cc (rw (idle, known) at h)
        | inr new ↦ absurd (cc (rw (idle, new) at h))
      ]
    ]

    ends :
        (e : Error)
        → is_blank driver ≡ false
        → (req.rider_id == "") ≡ false
        → refusal_of s req driver d ≡ some e
        → record_assignment s req driver (quiet busy) ≡ (err e, quiet returned)
    unfolding record_assignment
    ends e named rider reason = rw rider (tried _ e named reason)

    -- For a rider's request that cannot be recorded, because its pickup point is out of range, its rider
    -- has a ride or its id is taken, an attempt on a driver that is free fails with that reason, and it
    -- gives the driver back: nobody has its lock, it is available, and every other key is as before. The
    -- driver's id is not blank, and no other client interferes.
    pub try_assign_driver-returns :
        (e : Error)
        → IsOpen s driver d
        → is_blank driver ≡ false
        → (req.rider_id == "") ≡ false
        → refusal_of s req driver d ≡ some e
        → ((try_assign_driver s req driver (quiet d)).0 ≡ err e)
          × IsGivenBack s driver d (try_assign_driver s req driver (quiet d)).1.db
    try_assign_driver-returns e free named rider reason =
        rw (reaches s w req driver d free, ends e named rider reason) (refl, returned-IsGivenBack)
