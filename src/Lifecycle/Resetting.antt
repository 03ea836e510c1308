-- ===== src/Lifecycle/Resetting.antt =====
-- internal/dispatch/lifecycle.go: `resetRider` leaves alone every key that is not the manager's.
use geo_spatial_dispatch_ser.Prelude.{
  ◌<◌, String, ◌≡◌, ◌≢◌, ◌∙◌, not, ◌==◌, Option, none, some, ℤ, whole_seconds, inl, inr, if-holds,
}
use geo_spatial_dispatch_ser.Result.{
  Result, ok, err, assignment_not_found, assignment_state_conflict,
}
use geo_spatial_dispatch_ser.Redis.{Redis}
use geo_spatial_dispatch_ser.Redis.Frame.{SameAt, SameAt-trans}
use geo_spatial_dispatch_ser.Float.{Float}
use geo_spatial_dispatch_ser.Lock.{lock_key}
use geo_spatial_dispatch_ser.Client.Keeps.{
  Keeps, Keeps-call, Keeps-bind, Keeps-pure, Keeps-raise, Keeps-if, Keeps-attempt,
}
use geo_spatial_dispatch_ser.Lifecycle.Types.{
  LifecycleManager, Assignment, en_route, assignment_key, active_rider_key, active_driver_key,
  driver_status_key,
}
use geo_spatial_dispatch_ser.Lifecycle.Guards.{cancel-cases}
use geo_spatial_dispatch_ser.Lifecycle.Frames.{cancel_writes-SameAt, del_if-SameAt}
use geo_spatial_dispatch_ser.Lifecycle.Scripts.{
  is_text, clear_active_assignment_script, clear_reset_assignment_script,
}
use geo_spatial_dispatch_ser.Lifecycle.Keeping.{get_assignment-Keeps, was_cancelled-Keeps}
use geo_spatial_dispatch_ser.Lifecycle.Manager.{
  cancel, cancel_command, clear_active, clear_reset, after_cancel, reset_found, reset_request,
  reset_rider,
}

-- A key that is none of a manager's.
pub record IsApart ⦃F : Float⦄ (m : LifecycleManager) (key : String) : Type 0 where
  pub not_assignment : (id : String) → assignment_key m id ≢ key
  pub not_rider : (id : String) → active_rider_key m id ≢ key
  pub not_driver : (id : String) → active_driver_key m id ≢ key
  pub not_status : (id : String) → driver_status_key m id ≢ key
  pub not_lock : (id : String) → lock_key m.lock_manager id ≢ key

module _ ⦃R : Redis⦄ ⦃F : Float⦄ (m : LifecycleManager) (live : 0 < whole_seconds m.assignment_ttl)
    (key value : String) (apart : IsApart m key) where
  open R use {Db, get}

  -- The key has the value.
  abbrev pub Holds : Db → Type 0
  Holds d = get d key ≡ some value

  kept : (d e : Db) → SameAt key d e → Holds d → Holds e
  kept d e same h = same.gets ∙ h

  cancel_command-Holds :
      (request : String) (a : Assignment) (d : Db)
      → Holds d
      → Holds (cancel_command m request a d).1
  cancel_command-Holds request a d h =
      elim (cancel-cases (assignment_key m request) (driver_status_key m a.driver_id)
        (lock_key m.lock_manager a.driver_id) (active_rider_key m a.rider_id)
        (active_driver_key m a.driver_id) request a.driver_id a.rider_id
        (whole_seconds m.driver_status_ttl) (whole_seconds m.assignment_ttl) d) [
          | inl (_, _, e) ↦ rw e (
              kept d _
                (cancel_writes-SameAt _ _ _ _ _ request _ _ d key live
                  (apart.not_assignment request) (apart.not_status a.driver_id)
                  (apart.not_lock a.driver_id) (apart.not_rider a.rider_id)
                  (apart.not_driver a.driver_id))
                h)
          | inr (_, e) ↦ rw e h
        ]

  cancel-Holds : (request : String) → Keeps Holds (cancel m request)
  unfolding cancel
  cancel-Holds request = Keeps-bind _ _ (get_assignment-Keeps Holds m request) (λ a.
      Keeps-if (not (a.status == en_route)) _ _ (Keeps-raise assignment_state_conflict) (
        Keeps-bind _ _ (Keeps-call _ (cancel_command-Holds request a))
          (was_cancelled-Keeps Holds a)))

  clear_active-Holds : (rider request : String) → Keeps Holds (clear_active m rider request)
  unfolding clear_active clear_active_assignment_script
  clear_active-Holds rider request =
      Keeps-bind _ _
        (Keeps-call _ (λ d h.
          if-holds (λ (r : ℤ × Db). Holds r.1) (is_text (get d (active_rider_key m rider)) request)
            _ _ (λ _. R.get-del_ne d _ key (apart.not_rider rider) ∙ h) (λ _. h)))
        (λ r. Keeps-pure _)

  clear_reset-Holds :
      (rider request : String) (a : Assignment) → Keeps Holds (clear_reset m rider request a)
  unfolding clear_reset_assignment_script
  clear_reset-Holds rider request a =
      Keeps-bind _ _
        (Keeps-call _ (λ d h.
          kept d _
            (SameAt-trans (del_if-SameAt _ request d key (apart.not_rider rider))
              (del_if-SameAt _ request _ key (apart.not_driver a.driver_id)))
            h))
        (λ r. Keeps-pure _)

  after_cancel-Holds :
      (rider request : String) (a : Assignment) (r : Result Assignment)
      → Keeps Holds (after_cancel m rider request a r)
  after_cancel-Holds rider request a (ok done) = Keeps-pure _
  after_cancel-Holds rider request a (err assignment_state_conflict) =
      clear_reset-Holds rider request a
  after_cancel-Holds rider request a (err e) = Keeps-raise _

  reset_found-Holds :
      (rider request : String) (r : Result Assignment) → Keeps Holds (reset_found m rider request r)
  reset_found-Holds rider request (err assignment_not_found) = clear_active-Holds rider request
  reset_found-Holds rider request (err e) = Keeps-raise _
  reset_found-Holds rider request (ok a) =
      Keeps-if (a.status == en_route) _ _
        (Keeps-bind _ _ (Keeps-attempt _ (cancel-Holds request))
          (after_cancel-Holds rider request a))
        (clear_reset-Holds rider request a)

  reset_request-Holds : (rider : String) (o : Option String) → Keeps Holds (reset_request m rider o)
  reset_request-Holds rider none = Keeps-pure _
  reset_request-Holds rider (some request) =
      Keeps-bind _ _ (Keeps-attempt _ (get_assignment-Keeps Holds m request))
        (reset_found-Holds rider request)

  pub reset_rider-Holds : (rider : String) → Keeps Holds (reset_rider m rider)
  unfolding reset_rider
  reset_rider-Holds rider = Keeps-bind _ _ (Keeps-call _ (λ d h. h)) (reset_request-Holds rider)
