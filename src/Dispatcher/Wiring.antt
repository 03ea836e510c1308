-- ===== src/Dispatcher/Wiring.antt =====
-- internal/dispatch/dispatcher.go: the services of a dispatcher agree on their keys, as they do where
-- internal/server/server.go builds it.
use geo_spatial_dispatch_ser.Prelude.{
  ◌<◌, String, ◌≡◌, ◌≢◌, sym, ◌∙◌, ap, refl, true, concat, differ, concat-ne, whole_seconds,
}
use geo_spatial_dispatch_ser.Redis.{Redis}
use geo_spatial_dispatch_ser.Redis.Frame.{Ignores}
use geo_spatial_dispatch_ser.Float.{Float}
use geo_spatial_dispatch_ser.Lock.{lock_key}
use geo_spatial_dispatch_ser.Driver.{status_key}
use geo_spatial_dispatch_ser.Lifecycle.Types.{driver_status_key, assignment_key}
use geo_spatial_dispatch_ser.Lifecycle.Keys.{IsConfigured}
use geo_spatial_dispatch_ser.Lifecycle.Exclusive.{
  Exclusive, SameRides-at, SameRides-status, SameRides-lock, Exclusive-SameRides,
}
use geo_spatial_dispatch_ser.Dispatcher.Types.{Dispatcher}

-- A key that no id makes equal to a key with the prefix.
abbrev pub Beside : String → String → Type 0
Beside prefix key = differ (concat prefix ":") key ≡ true

pub record IsWired ⦃F : Float⦄ (s : Dispatcher) : Type 0 where
  pub configured : IsConfigured s.lifecycle
  pub one_lock : s.lock_manager ≡ s.lifecycle.lock_manager
  pub one_status :
      concat s.driver_service.key_prefix ":status:" ≡ concat s.lifecycle.driver_status_prefix ":"
  pub online : 0 < whole_seconds s.driver_service.default_ttl
  pub geo_assignment : Beside s.lifecycle.assignment_prefix s.geo_service.key
  pub geo_rider : Beside s.lifecycle.rider_active_prefix s.geo_service.key
  pub geo_driver : Beside s.lifecycle.driver_active_prefix s.geo_service.key
  pub geo_status : Beside s.lifecycle.driver_status_prefix s.geo_service.key
  pub geo_lock : Beside s.lifecycle.lock_manager.key_prefix s.geo_service.key

concat_empty : (s : String) → concat s "" ≡ s
concat_empty String.[] = refl
concat_empty (String.◌∷◌ c s) = ap (String.◌∷◌ c) (concat_empty s)

beside :
    (prefix key : String) → Beside prefix key → (id : String) → key ≢ concat (concat prefix ":") id
beside prefix key apart id e =
    concat-ne (concat prefix ":") key apart id "" (sym e ∙ sym (concat_empty key))

module _ ⦃R : Redis⦄ ⦃F : Float⦄ (s : Dispatcher) (w : IsWired s) where
  open R use {Db}

  pub status_key-eq :
      (driver : String) → driver_status_key s.lifecycle driver ≡ status_key s.driver_service driver
  status_key-eq driver = ap (λ p. concat p driver) (sym w.one_status)

  pub lock_key-eq :
      (driver : String) → lock_key s.lifecycle.lock_manager driver ≡ lock_key s.lock_manager driver
  lock_key-eq driver = ap (λ lm. lock_key lm driver) (sym w.one_lock)

  -- A key that differs from the lifecycle's spelling differs from the services'.
  pub lock_ne :
      (driver j : String)
      → lock_key s.lifecycle.lock_manager driver ≢ j
      → lock_key s.lock_manager driver ≢ j
  lock_ne driver j ne e = ne (lock_key-eq driver ∙ e)

  pub status_ne :
      (driver j : String)
      → driver_status_key s.lifecycle driver ≢ j
      → status_key s.driver_service driver ≢ j
  status_ne driver j ne e = ne (status_key-eq driver ∙ e)

  -- The status and the lock of a driver, and the positions, are no part of the rides.
  pub status-Ignores :
      (driver : String) → Ignores (Exclusive s.lifecycle) (status_key s.driver_service driver)
  status-Ignores driver d e same = Exclusive-SameRides s.lifecycle (
      SameRides-status s.lifecycle w.configured driver d e
        (λ j ne. same j (λ p. ne (status_key-eq driver ∙ p))))

  pub lock-Ignores :
      (driver : String) → Ignores (Exclusive s.lifecycle) (lock_key s.lock_manager driver)
  lock-Ignores driver d e same = Exclusive-SameRides s.lifecycle (
      SameRides-lock s.lifecycle w.configured driver d e
        (λ j ne. same j (λ p. ne (lock_key-eq driver ∙ p))))

  pub geo-Ignores : Ignores (Exclusive s.lifecycle) s.geo_service.key
  geo-Ignores d e same = Exclusive-SameRides s.lifecycle (
      SameRides-at s.lifecycle s.geo_service.key d e
        (beside s.lifecycle.assignment_prefix s.geo_service.key w.geo_assignment)
        (beside s.lifecycle.driver_active_prefix s.geo_service.key w.geo_driver)
        (beside s.lifecycle.rider_active_prefix s.geo_service.key w.geo_rider) same)

  pub geo_ne_assignment : (r : String) → s.geo_service.key ≢ assignment_key s.lifecycle r
  geo_ne_assignment = beside s.lifecycle.assignment_prefix s.geo_service.key w.geo_assignment
