-- ===== src/Lock/Laws.antt =====
-- internal/dispatch/lock.go: what the lock promises to its holder.
use geo_spatial_dispatch_ser.Prelude.{
  ℕ, ◌<◌, String, ◌≡◌, ◌≢◌, refl, ap, true, false, some, arith, eq_iff, eq_refl, whole_seconds, pos,
}
use geo_spatial_dispatch_ser.Result.{ok, err, lock_not_held}
use geo_spatial_dispatch_ser.Redis.{Redis}
use geo_spatial_dispatch_ser.Client.{quiet, call, ◌>>=◌, raise, pure}
use geo_spatial_dispatch_ser.Lock.{
  LockManager, lock_key, try_lock, unlock, extend_lock, is_locked, unlock_script,
  extend_lock_script,
}

module _ ⦃R : Redis⦄ where
  open R use {Db, get, exists, set_ex}

  pub get_some-exists : (d : Db) (k v : String) → get d k ≡ some v → exists d k ≡ true
  get_some-exists d k v h = ground (arith, R.get-exists d k)

  module _ (lm : LockManager) (driver holder : String) (d : Db) where
    abbrev key : String
    key = lock_key lm driver

    try_lock_held :
        (q : String) → exists d key ≡ true → try_lock lm driver q (quiet d) ≡ (ok false, quiet d)
    unfolding try_lock call
    try_lock_held q h = rw (R.set_nx_lem d key q lm.lock_ttl, h)

    pub try_lock_free :
        (q : String)
        → exists d key ≡ false
        → try_lock lm driver q (quiet d) ≡ (ok true, quiet (set_ex d key q lm.lock_ttl))
    unfolding try_lock call
    try_lock_free q h = rw (R.set_nx_lem d key q lm.lock_ttl, h)

    unlock_refused :
        (q : String) → get d key ≡ some holder → holder ≢ q → unlock_script key q d ≡ (pos 0, d)
    unfolding unlock_script
    unlock_refused q h ne = ground (arith, eq_iff holder q)

    extend_refused :
        (q : String) (n : ℕ)
        → get d key ≡ some holder
        → holder ≢ q
        → extend_lock_script key q n d ≡ (pos 0, d)
    unfolding extend_lock_script
    extend_refused q n h ne = ground (arith, eq_iff holder q)

    unlock_granted : get d key ≡ some holder → unlock_script key holder d ≡ (pos 1, R.del d key)
    unfolding unlock_script
    unlock_granted h = rw (h, eq_refl holder, get_some-exists d key holder h)

    -- While a request holds the lock of a driver, any other request is refused: it cannot take the
    -- lock, release it or extend it, and its attempts leave the database as it is.
    pub holder_excludes :
        (q : String)
        → get d key ≡ some holder
        → holder ≢ q
        → (try_lock lm driver q (quiet d) ≡ (ok false, quiet d))
          × (unlock lm driver q (quiet d) ≡ (err lock_not_held, quiet d))
          × (extend_lock lm driver q (quiet d) ≡ (err lock_not_held, quiet d))
    unfolding unlock extend_lock call ◌>>=◌ raise
    holder_excludes q h ne = (
      try_lock_held q (get_some-exists d key holder h),
      rw (unlock_refused q h ne),
      rw (extend_refused q (whole_seconds lm.lock_ttl) h ne),
    )

    -- A request that holds the lock and releases it leaves the lock free.
    pub unlock_holder :
        get d key ≡ some holder → unlock lm driver holder (quiet d) ≡ (ok tt, quiet (R.del d key))
    unfolding unlock call ◌>>=◌ pure
    unlock_holder h = rw (unlock_granted h)

  -- A free lock is taken by the first request that tries; then it is locked in that request's name,
  -- and when the request releases it, it is free again. Its time to live has to be positive.
  pub lock_unlock :
      (lm : LockManager) (driver holder : String) (d : Db)
      → 0 < lm.lock_ttl
      → exists d (lock_key lm driver) ≡ false
      → let (locked, w) = try_lock lm driver holder (quiet d) in
        (locked ≡ ok true)
        × (get w.db (lock_key lm driver) ≡ some holder)
        × ((is_locked lm driver w).0 ≡ ok true)
        × (let (released, v) = unlock lm driver holder w in
            (released ≡ ok tt) × ((is_locked lm driver v).0 ≡ ok false))
  unfolding is_locked call
  lock_unlock lm driver holder d live free =
      let held = R.get-set_ex d (lock_key lm driver) holder lm.lock_ttl live in
      rw
        (
          try_lock_free lm driver holder d holder free,
          unlock_holder lm driver holder (set_ex d (lock_key lm driver) holder lm.lock_ttl) held,
        )
        (
          refl,
          held,
          ap ok (R.exists-set_ex d (lock_key lm driver) holder lm.lock_ttl live),
          (refl, ap ok (R.exists-del _ (lock_key lm driver))),
        )
