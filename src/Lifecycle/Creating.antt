-- ===== src/Lifecycle/Creating.antt =====
-- internal/dispatch/lifecycle.go: what `create` leaves at the keys of the ride, its guards passed.
use geo_spatial_dispatch_ser.Prelude.{ℕ, ◌<◌, String, ◌≡◌, ◌∙◌, ◌≢◌, false, some}
use geo_spatial_dispatch_ser.Redis.{Redis, lookup}
use geo_spatial_dispatch_ser.Redis.Frame.{SameAt}
use geo_spatial_dispatch_ser.Float.{Float}
use geo_spatial_dispatch_ser.Lifecycle.Types.{
  LifecycleManager, assignment_key, active_rider_key, active_driver_key,
}
use geo_spatial_dispatch_ser.Lifecycle.Keys
use geo_spatial_dispatch_ser.Lifecycle.Scripts.{assignment_fields, create_writes}
use geo_spatial_dispatch_ser.Lifecycle.Frames.{create_writes-SameAt}

module _ ⦃R : Redis⦄ ⦃F : Float⦄ (m : LifecycleManager) (request rider driver lon lat : String)
    (ttl : ℕ) where
  abbrev pub after_create : R.Db → R.Db
  after_create =
      create_writes (assignment_key m request) (active_rider_key m rider)
        (active_driver_key m driver) request rider driver lon lat ttl

module _ ⦃R : Redis⦄ ⦃F : Float⦄ (m : LifecycleManager) (c : Keys.IsConfigured m)
    (request rider driver lon lat : String) (ttl : ℕ) (live : 0 < ttl) (d : R.Db) where
  open R use {get, hget, exists}

  abbrev after : R.Db
  after = after_create m request rider driver lon lat ttl d

  pub hget-created :
      (f : String)
      → exists d (assignment_key m request) ≡ false
      → hget after (assignment_key m request) f
        ≡ lookup f (assignment_fields request rider driver lon lat)
  unfolding create_writes
  hget-created f new =
      R.hget-set_ex_ne _ (active_driver_key m driver) request ttl (assignment_key m request) f
        (Keys.driver_ne_assignment m c driver request)
      ∙ R.hget-set_ex_ne _ (active_rider_key m rider) request ttl (assignment_key m request) f
          (Keys.rider_ne_assignment m c rider request)
      ∙ R.hget-expire _ (assignment_key m request) ttl (assignment_key m request) f live
      ∙ R.hget-hset_new d (assignment_key m request)
          (assignment_fields request rider driver lon lat) f new

  pub owner-created : get after (active_driver_key m driver) ≡ some request
  unfolding create_writes
  owner-created = R.get-set_ex _ (active_driver_key m driver) request ttl live

  pub rider-created : get after (active_rider_key m rider) ≡ some request
  unfolding create_writes
  rider-created =
      R.get-set_ex_ne _ (active_driver_key m driver) request ttl (active_rider_key m rider)
        (Keys.driver_ne_rider m c driver rider)
      ∙ R.get-set_ex _ (active_rider_key m rider) request ttl live

  pub created-SameAt :
      (j : String)
      → assignment_key m request ≢ j
      → active_rider_key m rider ≢ j
      → active_driver_key m driver ≢ j
      → SameAt j d after
  created-SameAt j =
      create_writes-SameAt (assignment_key m request) (active_rider_key m rider)
        (active_driver_key m driver) request rider driver lon lat ttl d j live

  pub ride-created_ne : (r : String) → request ≢ r → SameAt (assignment_key m r) d after
  ride-created_ne r ne =
      created-SameAt (assignment_key m r) (Keys.assignment_ne_self m request r ne)
        (Keys.rider_ne_assignment m c rider r) (Keys.driver_ne_assignment m c driver r)

  pub owner-created_ne : (x : String) → driver ≢ x → SameAt (active_driver_key m x) d after
  owner-created_ne x ne =
      created-SameAt (active_driver_key m x) (Keys.assignment_ne_driver m c request x)
        (Keys.rider_ne_driver m c rider x) (Keys.driver_ne_self m driver x ne)

  pub rider-created_ne : (x : String) → rider ≢ x → SameAt (active_rider_key m x) d after
  rider-created_ne x ne =
      created-SameAt (active_rider_key m x) (Keys.assignment_ne_rider m c request x)
        (Keys.rider_ne_self m rider x ne) (Keys.driver_ne_rider m c driver x)
