-- ===== src/Driver/Frames.antt =====
-- internal/driver/driver.go: the operations on a driver's status change its key only, so they keep
-- every property that ignores it.
use geo_spatial_dispatch_ser.Prelude.{
  ℕ, ◌<◌, zero, suc, String, ◌≢◌, not, ◌||◌, Option, none, some, List, [], ◌∷◌, ◌==◌, ℤ, pos,
  negsuc, is_blank, whole_seconds,
}
use geo_spatial_dispatch_ser.Result.{driver_not_found, invalid_status}
use geo_spatial_dispatch_ser.Redis.{Redis}
use geo_spatial_dispatch_ser.Redis.Frame.{
  SameAt, SameAt-refl, SameAt-reply, set_ex-SameAt, del-SameAt, expire-SameAt, Ignores,
}
use geo_spatial_dispatch_ser.Client.Keeps.{
  Keeps, Keeps-call, Keeps-bind, Keeps-pure, Keeps-raise, Keeps-if,
}
use geo_spatial_dispatch_ser.Driver.{
  DriverService, DriverStatus, status_key, status_busy, status_available, status_offline, busy_from,
  set_busy_script, made_busy, set_status, set_busy, set_available, heartbeat, get_statuses,
}

module _ ⦃R : Redis⦄ where
  open R use {Db, get}

  busy_from-SameAt :
      (key : String) (ttl : ℕ) (o : Option String) (d : Db) (j : String)
      → key ≢ j
      → SameAt j d (busy_from key ttl o d).1
  busy_from-SameAt key ttl none d j ne = SameAt-refl j d
  busy_from-SameAt key ttl (some current) d j ne =
      SameAt-reply (current == status_available) _ _ (set_ex-SameAt d key j ne status_busy ttl)
        (SameAt-refl j d)

  pub set_busy_script-SameAt :
      (key : String) (ttl : ℕ) (d : Db) (j : String)
      → key ≢ j
      → SameAt j d (set_busy_script key ttl d).1
  unfolding set_busy_script
  set_busy_script-SameAt key ttl d = busy_from-SameAt key ttl (get d key) d

  made_busy-Keeps : (P : Db → Type 0) (result : ℤ) → Keeps P (made_busy result)
  made_busy-Keeps P (pos zero) = Keeps-raise _
  made_busy-Keeps P (pos (suc zero)) = Keeps-pure _
  made_busy-Keeps P (pos (suc (suc n))) = Keeps-raise _
  made_busy-Keeps P (negsuc zero) = Keeps-raise _
  made_busy-Keeps P (negsuc (suc n)) = Keeps-raise _

  module _ (P : Db → Type 0) (ds : DriverService) (driver : String)
      (ignores : Ignores P (status_key ds driver)) where
    pub set_status-Keeps : (status : DriverStatus) → Keeps P (set_status ds driver status)
    unfolding set_status
    set_status-Keeps status = Keeps-if (is_blank driver) _ _ (Keeps-raise driver_not_found) (
        Keeps-if
          (not (status == status_available || status == status_busy || status == status_offline)) _
          _ (Keeps-raise invalid_status)
          (Keeps-if (status == status_offline) _ _
            (Keeps-call _ (λ d. ignores d _ (del-SameAt d (status_key ds driver))))
            (Keeps-call _ (λ d.
              ignores d _
                (λ j ne. set_ex-SameAt d (status_key ds driver) j ne status ds.default_ttl)))))

    pub set_available-Keeps : Keeps P (set_available ds driver)
    unfolding set_available
    set_available-Keeps = set_status-Keeps status_available

    pub set_busy-Keeps : Keeps P (set_busy ds driver)
    unfolding set_busy
    set_busy-Keeps =
        Keeps-bind _ _
          (Keeps-call _ (λ d.
            ignores d _
              (set_busy_script-SameAt (status_key ds driver) (whole_seconds ds.default_ttl) d)))
          (made_busy-Keeps P)

    pub heartbeat-Keeps : 0 < ds.default_ttl → Keeps P (heartbeat ds driver)
    unfolding heartbeat
    heartbeat-Keeps live = Keeps-if (is_blank driver) _ _ (Keeps-raise driver_not_found) (
        Keeps-bind _ _
          (Keeps-call _ (λ d.
            ignores d _ (λ j ne. expire-SameAt d (status_key ds driver) ds.default_ttl j live)))
          (λ refreshed. Keeps-if refreshed _ _ (Keeps-pure _) (Keeps-raise _)))

  pub get_statuses-Keeps :
      (P : Db → Type 0) (ds : DriverService) (ids : List String) → Keeps P (get_statuses ds ids)
  unfolding get_statuses
  get_statuses-Keeps P ds [] = Keeps-pure _
  get_statuses-Keeps P ds (id ∷ ids) =
      Keeps-bind _ _ (Keeps-call _ (λ d h. h)) (λ values. Keeps-pure _)
