-- ===== src/Lifecycle/Keys.antt =====
-- internal/dispatch/lifecycle.go, lock.go: when the prefixes of the configuration keep the five
-- families of keys apart, and the times to live are positive.
use geo_spatial_dispatch_ser.Prelude.{
  ◌<◌, String, ◌≡◌, ◌≢◌, true, concat, differ, join_key-ne, join_key-injective, sym, whole_seconds,
}
use geo_spatial_dispatch_ser.Float.{Float}
use geo_spatial_dispatch_ser.Lock.{lock_key}
use geo_spatial_dispatch_ser.Lifecycle.Types.{
  LifecycleManager, assignment_key, active_rider_key, driver_status_key, active_driver_key,
}

-- Keys with the two prefixes differ at once, before their ids.
abbrev pub Apart : String → String → Type 0
Apart p q = differ (concat p ":") (concat q ":") ≡ true

pub record IsConfigured ⦃F : Float⦄ (m : LifecycleManager) : Type 0 where
  pub assignment_rider : Apart m.assignment_prefix m.rider_active_prefix
  pub assignment_driver : Apart m.assignment_prefix m.driver_active_prefix
  pub assignment_status : Apart m.assignment_prefix m.driver_status_prefix
  pub assignment_lock : Apart m.assignment_prefix m.lock_manager.key_prefix
  pub rider_driver : Apart m.rider_active_prefix m.driver_active_prefix
  pub rider_status : Apart m.rider_active_prefix m.driver_status_prefix
  pub rider_lock : Apart m.rider_active_prefix m.lock_manager.key_prefix
  pub driver_status : Apart m.driver_active_prefix m.driver_status_prefix
  pub driver_lock : Apart m.driver_active_prefix m.lock_manager.key_prefix
  pub status_lock : Apart m.driver_status_prefix m.lock_manager.key_prefix
  pub assignment_live : 0 < whole_seconds m.assignment_ttl
  pub status_live : 0 < whole_seconds m.driver_status_ttl
  pub lock_live : 0 < m.lock_manager.lock_ttl

-- Two keys of different families differ, and in one family they differ with their ids.
module _ ⦃F : Float⦄ (m : LifecycleManager) (c : IsConfigured m) where
  pub assignment_ne_rider : (x y : String) → assignment_key m x ≢ active_rider_key m y
  assignment_ne_rider x y = join_key-ne _ _ c.assignment_rider x y

  pub rider_ne_assignment : (x y : String) → active_rider_key m x ≢ assignment_key m y
  rider_ne_assignment x y e = join_key-ne _ _ c.assignment_rider y x (sym e)

  pub assignment_ne_driver : (x y : String) → assignment_key m x ≢ active_driver_key m y
  assignment_ne_driver x y = join_key-ne _ _ c.assignment_driver x y

  pub driver_ne_assignment : (x y : String) → active_driver_key m x ≢ assignment_key m y
  driver_ne_assignment x y e = join_key-ne _ _ c.assignment_driver y x (sym e)

  pub assignment_ne_status : (x y : String) → assignment_key m x ≢ driver_status_key m y
  assignment_ne_status x y = join_key-ne _ _ c.assignment_status x y

  pub status_ne_assignment : (x y : String) → driver_status_key m x ≢ assignment_key m y
  status_ne_assignment x y e = join_key-ne _ _ c.assignment_status y x (sym e)

  pub assignment_ne_lock : (x y : String) → assignment_key m x ≢ lock_key m.lock_manager y
  assignment_ne_lock x y = join_key-ne _ _ c.assignment_lock x y

  pub lock_ne_assignment : (x y : String) → lock_key m.lock_manager x ≢ assignment_key m y
  lock_ne_assignment x y e = join_key-ne _ _ c.assignment_lock y x (sym e)

  pub rider_ne_driver : (x y : String) → active_rider_key m x ≢ active_driver_key m y
  rider_ne_driver x y = join_key-ne _ _ c.rider_driver x y

  pub driver_ne_rider : (x y : String) → active_driver_key m x ≢ active_rider_key m y
  driver_ne_rider x y e = join_key-ne _ _ c.rider_driver y x (sym e)

  pub rider_ne_status : (x y : String) → active_rider_key m x ≢ driver_status_key m y
  rider_ne_status x y = join_key-ne _ _ c.rider_status x y

  pub status_ne_rider : (x y : String) → driver_status_key m x ≢ active_rider_key m y
  status_ne_rider x y e = join_key-ne _ _ c.rider_status y x (sym e)

  pub rider_ne_lock : (x y : String) → active_rider_key m x ≢ lock_key m.lock_manager y
  rider_ne_lock x y = join_key-ne _ _ c.rider_lock x y

  pub lock_ne_rider : (x y : String) → lock_key m.lock_manager x ≢ active_rider_key m y
  lock_ne_rider x y e = join_key-ne _ _ c.rider_lock y x (sym e)

  pub driver_ne_status : (x y : String) → active_driver_key m x ≢ driver_status_key m y
  driver_ne_status x y = join_key-ne _ _ c.driver_status x y

  pub status_ne_driver : (x y : String) → driver_status_key m x ≢ active_driver_key m y
  status_ne_driver x y e = join_key-ne _ _ c.driver_status y x (sym e)

  pub driver_ne_lock : (x y : String) → active_driver_key m x ≢ lock_key m.lock_manager y
  driver_ne_lock x y = join_key-ne _ _ c.driver_lock x y

  pub lock_ne_driver : (x y : String) → lock_key m.lock_manager x ≢ active_driver_key m y
  lock_ne_driver x y e = join_key-ne _ _ c.driver_lock y x (sym e)

  pub status_ne_lock : (x y : String) → driver_status_key m x ≢ lock_key m.lock_manager y
  status_ne_lock x y = join_key-ne _ _ c.status_lock x y

  pub lock_ne_status : (x y : String) → lock_key m.lock_manager x ≢ driver_status_key m y
  lock_ne_status x y e = join_key-ne _ _ c.status_lock y x (sym e)

module _ ⦃F : Float⦄ (m : LifecycleManager) where
  pub assignment_ne_self : (x y : String) → x ≢ y → assignment_key m x ≢ assignment_key m y
  assignment_ne_self x y ne e = ne (join_key-injective _ x y e)

  pub rider_ne_self : (x y : String) → x ≢ y → active_rider_key m x ≢ active_rider_key m y
  rider_ne_self x y ne e = ne (join_key-injective _ x y e)

  pub driver_ne_self : (x y : String) → x ≢ y → active_driver_key m x ≢ active_driver_key m y
  driver_ne_self x y ne e = ne (join_key-injective _ x y e)

  pub status_ne_self : (x y : String) → x ≢ y → driver_status_key m x ≢ driver_status_key m y
  status_ne_self x y ne e = ne (join_key-injective _ x y e)

  pub lock_ne_self : (x y : String) → x ≢ y → lock_key m.lock_manager x ≢ lock_key m.lock_manager y
  lock_ne_self x y ne e = ne (join_key-injective _ x y e)
