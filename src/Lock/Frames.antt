-- ===== src/Lock/Frames.antt =====
-- internal/dispatch/lock.go: the operations on a driver's lock change its key only, so they keep
-- every property that ignores it.
use geo_spatial_dispatch_ser.Prelude.{
  zero, suc, String, ◌≢◌, Option, none, some, ◌==◌, ℤ, pos, negsuc,
}
use geo_spatial_dispatch_ser.Redis.{Redis}
use geo_spatial_dispatch_ser.Redis.Frame.{
  SameAt, SameAt-refl, SameAt-reply, set_nx-SameAt, del-SameAt, Ignores,
}
use geo_spatial_dispatch_ser.Client.Keeps.{Keeps, Keeps-call, Keeps-bind, Keeps-pure, Keeps-raise}
use geo_spatial_dispatch_ser.Lock.{
  LockManager, lock_key, unlock_owned, unlock_script, unlocked, try_lock, unlock,
}

module _ ⦃R : Redis⦄ where
  open R use {Db, get}

  unlock_owned-SameAt :
      (key request : String) (o : Option String) (d : Db) (j : String)
      → key ≢ j
      → SameAt j d (unlock_owned key request o d).1
  unlock_owned-SameAt key request none d j ne = SameAt-refl j d
  unlock_owned-SameAt key request (some owner) d j ne =
      SameAt-reply (owner == request) _ _ (del-SameAt d key j ne) (SameAt-refl j d)

  pub unlock_script-SameAt :
      (key request : String) (d : Db) (j : String)
      → key ≢ j
      → SameAt j d (unlock_script key request d).1
  unfolding unlock_script
  unlock_script-SameAt key request d = unlock_owned-SameAt key request (get d key) d

  unlocked-Keeps : (P : Db → Type 0) (result : ℤ) → Keeps P (unlocked result)
  unlocked-Keeps P (pos zero) = Keeps-raise _
  unlocked-Keeps P (pos (suc zero)) = Keeps-pure _
  unlocked-Keeps P (pos (suc (suc n))) = Keeps-raise _
  unlocked-Keeps P (negsuc zero) = Keeps-raise _
  unlocked-Keeps P (negsuc (suc n)) = Keeps-raise _

  module _ (P : Db → Type 0) (lm : LockManager) (driver request : String)
      (ignores : Ignores P (lock_key lm driver)) where
    pub try_lock-Keeps : Keeps P (try_lock lm driver request)
    unfolding try_lock
    try_lock-Keeps =
        Keeps-call _
          (λ d. ignores d _ (λ j ne. set_nx-SameAt d (lock_key lm driver) j ne request lm.lock_ttl))

    pub unlock-Keeps : Keeps P (unlock lm driver request)
    unfolding unlock
    unlock-Keeps =
        Keeps-bind _ _
          (Keeps-call _ (λ d. ignores d _ (unlock_script-SameAt (lock_key lm driver) request d)))
          (unlocked-Keeps P)
