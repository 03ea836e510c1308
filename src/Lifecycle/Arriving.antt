-- ===== src/Lifecycle/Arriving.antt =====
-- internal/dispatch/lifecycle.go: what `arrive` leaves at the keys of the ride, its guards passed.
use geo_spatial_dispatch_ser.Prelude.{ℕ, ◌<◌, String, ◌≡◌, ◌∙◌, ◌≢◌, some, [], ◌∷◌}
use geo_spatial_dispatch_ser.Redis.{Redis, lookup, or_else}
use geo_spatial_dispatch_ser.Redis.Frame.{SameAt}
use geo_spatial_dispatch_ser.Float.{Float}
use geo_spatial_dispatch_ser.Lifecycle.Types.{
  LifecycleManager, assignment_key, active_rider_key, driver_status_key, active_driver_key,
}
use geo_spatial_dispatch_ser.Lifecycle.Scripts.{arrive_writes}
use geo_spatial_dispatch_ser.Lifecycle.Frames.{arrive_writes-SameAt}

module _ ⦃R : Redis⦄ ⦃F : Float⦄ (m : LifecycleManager) (request driver rider : String)
    (ttl status_ttl : ℕ) where
  abbrev pub after_arrive : R.Db → R.Db
  after_arrive =
      arrive_writes (assignment_key m request) (active_rider_key m rider)
        (active_driver_key m driver) (driver_status_key m driver) ttl status_ttl

module _ ⦃R : Redis⦄ ⦃F : Float⦄ (m : LifecycleManager) (request driver rider : String)
    (ttl status_ttl : ℕ) (live : 0 < ttl) (status_live : 0 < status_ttl) (d : R.Db) where
  open R use {get, hget}

  abbrev after : R.Db
  after = after_arrive m request driver rider ttl status_ttl d

  pub hget-arrived :
      (f : String)
      → hget d (assignment_key m request) "status" ≡ some "en_route"
      → hget after (assignment_key m request) f
        ≡ or_else (lookup f (("status", "arrived") ∷ [])) (hget d (assignment_key m request) f)
  unfolding arrive_writes
  hget-arrived f en_route =
      R.hget-expire _ (driver_status_key m driver) status_ttl (assignment_key m request) f
        status_live
      ∙ R.hget-expire _ (active_driver_key m driver) ttl (assignment_key m request) f live
      ∙ R.hget-expire _ (active_rider_key m rider) ttl (assignment_key m request) f live
      ∙ R.hget-expire _ (assignment_key m request) ttl (assignment_key m request) f live
      ∙ R.hget-hset d (assignment_key m request) (("status", "arrived") ∷ []) f "status" "en_route"
          en_route

  -- Every other key reads as before: only its time to live may be new.
  pub arrived-SameAt : (j : String) → assignment_key m request ≢ j → SameAt j d after
  arrived-SameAt j =
      arrive_writes-SameAt (assignment_key m request) (active_rider_key m rider)
        (active_driver_key m driver) (driver_status_key m driver) ttl status_ttl d j live
        status_live
