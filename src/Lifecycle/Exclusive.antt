-- ===== src/Lifecycle/Exclusive.antt =====
-- internal/dispatch/lifecycle.go: one ride for a driver and for a rider. The active keys name every
-- assignment that is en route.
use geo_spatial_dispatch_ser.Prelude.{String, ◌≡◌, sym, ◌∙◌, ◌≢◌, some}
use geo_spatial_dispatch_ser.Redis.{Redis}
use geo_spatial_dispatch_ser.Redis.Frame.{SameAt}
use geo_spatial_dispatch_ser.Float.{Float}
use geo_spatial_dispatch_ser.Lock.{lock_key}
use geo_spatial_dispatch_ser.Lifecycle.Types.{
  LifecycleManager, assignment_key, active_rider_key, driver_status_key, active_driver_key,
}
use geo_spatial_dispatch_ser.Lifecycle.Keys

module _ ⦃R : Redis⦄ ⦃F : Float⦄ (m : LifecycleManager) where
  open R use {Db, get, hget}

  pub record Exclusive (d : Db) : Type 0 where
    pub owned :
        (r driver : String)
        → hget d (assignment_key m r) "status" ≡ some "en_route"
        → hget d (assignment_key m r) "driver_id" ≡ some driver
        → get d (active_driver_key m driver) ≡ some r
    pub riding :
        (r rider : String)
        → hget d (assignment_key m r) "status" ≡ some "en_route"
        → hget d (assignment_key m r) "rider_id" ≡ some rider
        → get d (active_rider_key m rider) ≡ some r

  -- The assignments and the active keys read the same.
  pub record SameRides (d e : Db) : Type 0 where
    pub rides : (r f : String) → hget e (assignment_key m r) f ≡ hget d (assignment_key m r) f
    pub owners : (x : String) → get e (active_driver_key m x) ≡ get d (active_driver_key m x)
    pub riders : (x : String) → get e (active_rider_key m x) ≡ get d (active_rider_key m x)

  pub Exclusive-SameRides : {d e : Db} → SameRides d e → Exclusive d → Exclusive e
  Exclusive-SameRides same h = record {
    owned = λ r driver s v.
        same.owners driver
        ∙ h.owned r driver (sym (same.rides r "status") ∙ s) (sym (same.rides r "driver_id") ∙ v);
    riding = λ r rider s v.
        same.riders rider
        ∙ h.riding r rider (sym (same.rides r "status") ∙ s) (sym (same.rides r "rider_id") ∙ v);
  }

module _ ⦃R : Redis⦄ ⦃F : Float⦄ (m : LifecycleManager) where
  open R use {Db}

  -- A database that differs at one key, which is none of theirs.
  pub SameRides-at :
      (k : String) (d e : Db)
      → ((r : String) → k ≢ assignment_key m r)
      → ((x : String) → k ≢ active_driver_key m x)
      → ((x : String) → k ≢ active_rider_key m x)
      → ((j : String) → k ≢ j → SameAt j d e)
      → SameRides m d e
  SameRides-at k d e na nd nr same = record {
    rides = λ r f. (same (assignment_key m r) (na r)).hgets f;
    owners = λ x. (same (active_driver_key m x) (nd x)).gets;
    riders = λ x. (same (active_rider_key m x) (nr x)).gets;
  }

module _ ⦃R : Redis⦄ ⦃F : Float⦄ (m : LifecycleManager) (c : Keys.IsConfigured m) where
  open R use {Db}

  pub SameRides-status :
      (driver : String) (d e : Db)
      → ((j : String) → driver_status_key m driver ≢ j → SameAt j d e)
      → SameRides m d e
  SameRides-status driver d e =
      SameRides-at m (driver_status_key m driver) d e (Keys.status_ne_assignment m c driver)
        (Keys.status_ne_driver m c driver) (Keys.status_ne_rider m c driver)

  pub SameRides-lock :
      (driver : String) (d e : Db)
      → ((j : String) → lock_key m.lock_manager driver ≢ j → SameAt j d e)
      → SameRides m d e
  SameRides-lock driver d e =
      SameRides-at m (lock_key m.lock_manager driver) d e (Keys.lock_ne_assignment m c driver)
        (Keys.lock_ne_driver m c driver) (Keys.lock_ne_rider m c driver)
