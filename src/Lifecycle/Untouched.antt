-- ===== src/Lifecycle/Untouched.antt =====
-- internal/dispatch/lifecycle.go: the keys that `cancel` leaves alone.
use geo_spatial_dispatch_ser.Prelude.{ℕ, ◌<◌, String, ◌≢◌}
use geo_spatial_dispatch_ser.Redis.{Redis}
use geo_spatial_dispatch_ser.Redis.Frame.{SameAt}
use geo_spatial_dispatch_ser.Float.{Float}
use geo_spatial_dispatch_ser.Lock.{lock_key}
use geo_spatial_dispatch_ser.Lifecycle.Types.{
  LifecycleManager, assignment_key, active_rider_key, driver_status_key, active_driver_key,
}
use geo_spatial_dispatch_ser.Lifecycle.Keys
use geo_spatial_dispatch_ser.Lifecycle.Frames.{cancel_writes-SameAt}
use geo_spatial_dispatch_ser.Lifecycle.Cancelling.{after_cancel}

module _ ⦃R : Redis⦄ ⦃F : Float⦄ (m : LifecycleManager) (c : Keys.IsConfigured m)
    (request driver rider : String) (status_ttl ttl : ℕ) (live : 0 < ttl) (d : R.Db) where
  abbrev after : R.Db
  after = after_cancel m request driver rider status_ttl ttl d

  pub cancelled-SameAt :
      (j : String)
      → assignment_key m request ≢ j
      → driver_status_key m driver ≢ j
      → lock_key m.lock_manager driver ≢ j
      → active_rider_key m rider ≢ j
      → active_driver_key m driver ≢ j
      → SameAt j d after
  cancelled-SameAt j =
      cancel_writes-SameAt (assignment_key m request) (driver_status_key m driver)
        (lock_key m.lock_manager driver) (active_rider_key m rider) (active_driver_key m driver)
        request status_ttl ttl d j live

  pub ride-cancelled_ne : (r : String) → request ≢ r → SameAt (assignment_key m r) d after
  ride-cancelled_ne r ne =
      cancelled-SameAt (assignment_key m r) (Keys.assignment_ne_self m request r ne)
        (Keys.status_ne_assignment m c driver r) (Keys.lock_ne_assignment m c driver r)
        (Keys.rider_ne_assignment m c rider r) (Keys.driver_ne_assignment m c driver r)

  pub owner-cancelled_ne : (x : String) → driver ≢ x → SameAt (active_driver_key m x) d after
  owner-cancelled_ne x ne =
      cancelled-SameAt (active_driver_key m x) (Keys.assignment_ne_driver m c request x)
        (Keys.status_ne_driver m c driver x) (Keys.lock_ne_driver m c driver x)
        (Keys.rider_ne_driver m c rider x) (Keys.driver_ne_self m driver x ne)

  pub rider-cancelled_ne : (x : String) → rider ≢ x → SameAt (active_rider_key m x) d after
  rider-cancelled_ne x ne =
      cancelled-SameAt (active_rider_key m x) (Keys.assignment_ne_rider m c request x)
        (Keys.status_ne_rider m c driver x) (Keys.lock_ne_rider m c driver x)
        (Keys.rider_ne_self m rider x ne) (Keys.driver_ne_rider m c driver x)
