-- ===== src/Lock.antt =====
-- internal/dispatch/lock.go: the lock of a driver, a key with a time to live.
pub mod Frames
pub mod Laws
use geo_spatial_dispatch_ser.Prelude.{
  ℕ, zero, suc, ◌*◌, String, Bool, true, false, Option, none, some, ◌==◌, nat_eq, join_key, ℤ, pos,
  negsuc, flag, second, whole_seconds, if◌then◌else◌,
}
use geo_spatial_dispatch_ser.Result.{lock_expired, lock_not_held}
use geo_spatial_dispatch_ser.Redis.{Redis}
use geo_spatial_dispatch_ser.Client.{Io, pure, raise, call, ◌>>=◌, reading}

pub record LockManager : Type 0 where
  pub key_prefix : String
  pub lock_ttl : ℕ

unfoldable pub new_lock_manager : String → ℕ → LockManager
new_lock_manager key_prefix lock_ttl = record {
  key_prefix = if key_prefix == "" then "dispatch:lock" else key_prefix;
  lock_ttl = if nat_eq lock_ttl 0 then 10 * second else lock_ttl;
}

abbrev pub lock_key : LockManager → String → String
lock_key lm driver_id = join_key lm.key_prefix driver_id

module _ ⦃R : Redis⦄ where
  open R use {Db, get, exists, set_nx, del, expire}

  -- The scripts after their GET, which gives the owner.
  abbrev pub unlock_owned : String → String → Option String → Db → ℤ × Db
  unlock_owned key request none d = (negsuc 0, d)
  unlock_owned key request (some owner) d =
      if owner == request then (flag (exists d key), del d key) else (pos 0, d)

  abbrev pub extend_owned : String → String → ℕ → Option String → Db → ℤ × Db
  extend_owned key request ttl none d = (pos 0, d)
  extend_owned key request ttl (some owner) d =
      if owner == request then (flag (exists d key), expire d key ttl) else (pos 0, d)

  unfoldable pub unlock_script : String → String → Db → ℤ × Db
  unlock_script key request d = unlock_owned key request (get d key) d

  unfoldable pub extend_lock_script : String → String → ℕ → Db → ℤ × Db
  extend_lock_script key request ttl d = extend_owned key request ttl (get d key) d

  unfoldable pub try_lock : LockManager → String → String → Io Db Bool
  try_lock lm driver_id request_id =
      call (λ d. set_nx d (lock_key lm driver_id) request_id lm.lock_ttl)

  abbrev pub unlocked : ℤ → Io Db Unit
  unlocked (pos (suc zero)) = pure tt
  unlocked (negsuc zero) = raise lock_expired
  unlocked _ = raise lock_not_held

  unfoldable pub unlock : LockManager → String → String → Io Db Unit
  unlock lm driver_id request_id = do
    result ← call (unlock_script (lock_key lm driver_id) request_id)
    unlocked result

  abbrev pub extended : ℤ → Io Db Unit
  extended (pos zero) = raise lock_not_held
  extended _ = pure tt

  unfoldable pub extend_lock : LockManager → String → String → Io Db Unit
  extend_lock lm driver_id request_id = do
    result ←
        call (extend_lock_script (lock_key lm driver_id) request_id (whole_seconds lm.lock_ttl))
    extended result

  unfoldable pub is_locked : LockManager → String → Io Db Bool
  is_locked lm driver_id = call (reading (λ d. exists d (lock_key lm driver_id)))
