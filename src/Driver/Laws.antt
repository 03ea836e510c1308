-- ===== src/Driver/Laws.antt =====
-- internal/driver/driver.go: what the driver service promises of a driver's status.
use geo_spatial_dispatch_ser.Prelude.{
  ◌<◌, String, ◌≡◌, ◌≢◌, ◌∙◌, refl, ap, false, Option, none, some, arith, eq_iff, inl, inr, ◌⊎◌,
  whole_seconds, pos, is_blank, Bool-cases,
}
use geo_spatial_dispatch_ser.Result.{ok, err, driver_offline, status_conflict}
use geo_spatial_dispatch_ser.Redis.{Redis}
use geo_spatial_dispatch_ser.Redis.Frame.{get-del}
use geo_spatial_dispatch_ser.Client.{quiet, call, ◌>>=◌, raise, pure}
use geo_spatial_dispatch_ser.Driver.{
  DriverService, DriverStatus, status_key, set_busy_script, set_busy, set_status, get_status,
  heartbeat, or_offline,
}

-- One of the three statuses.
abbrev pub IsStatus : DriverStatus → Type 0
IsStatus status = (status ≡ "available") ⊎ (status ≡ "busy") ⊎ (status ≡ "offline")

-- `SetBusy` by the stored status.
abbrev pub BusyFrom : ⦃R : Redis⦄ → DriverService → String → R.Db → Option String → Type 0
BusyFrom ds driver d none = set_busy ds driver (quiet d) ≡ (err driver_offline, quiet d)
BusyFrom ⦃R = R⦄ ds driver d (some status) =
    (status ≡ "available"
      → set_busy ds driver (quiet d)
        ≡ (ok tt, quiet (R.set_ex d (status_key ds driver) "busy" (whole_seconds ds.default_ttl))))
    × (status ≢ "available" → set_busy ds driver (quiet d) ≡ (err status_conflict, quiet d))

module _ ⦃R : Redis⦄ (ds : DriverService) where
  open R use {Db, get, exists, set_ex, del, expire}

  pub set_busy_available :
      (driver : String) (d : Db)
      → get d (status_key ds driver) ≡ some "available"
      → set_busy ds driver (quiet d)
        ≡ (ok tt, quiet (set_ex d (status_key ds driver) "busy" (whole_seconds ds.default_ttl)))
  unfolding set_busy set_busy_script call ◌>>=◌ pure
  set_busy_available driver d h = rw h refl

  taken_reply :
      (driver status : String) (d : Db)
      → get d (status_key ds driver) ≡ some status
      → status ≢ "available"
      → set_busy_script (status_key ds driver) (whole_seconds ds.default_ttl) d ≡ (pos 0, d)
  unfolding set_busy_script
  taken_reply driver status d h ne = ground (arith, eq_iff status "available")

  set_busy_taken :
      (driver status : String) (d : Db)
      → get d (status_key ds driver) ≡ some status
      → status ≢ "available"
      → set_busy ds driver (quiet d) ≡ (err status_conflict, quiet d)
  unfolding set_busy call ◌>>=◌ raise
  set_busy_taken driver status d h ne = rw (taken_reply driver status d h ne)

  -- `SetBusy` of an available driver makes it busy; of a driver with no status it answers that it is
  -- offline, and of one with any other status that they conflict, and in both cases changes nothing.
  pub set_busy-cases :
      (driver : String) (d : Db) (o : Option String)
      → get d (status_key ds driver) ≡ o
      → BusyFrom ds driver d o
  unfolding set_busy set_busy_script call ◌>>=◌ pure raise
  set_busy-cases driver d none h = rw h refl
  set_busy-cases driver d (some status) h = (
    (λ e. set_busy_available driver d (h ∙ ap some e)),
    λ ne. set_busy_taken driver status d h ne,
  )

  -- Two requests that race for an available driver: the first makes it busy, the second is told of a
  -- conflict and changes nothing. The time to live is at least one second.
  pub set_busy_once :
      (driver : String) (d : Db)
      → 0 < whole_seconds ds.default_ttl
      → get d (status_key ds driver) ≡ some "available"
      → let (first, w) = set_busy ds driver (quiet d) in
        (first ≡ ok tt)
        × (get w.db (status_key ds driver) ≡ some "busy")
        × (set_busy ds driver w ≡ (err status_conflict, w))
  set_busy_once driver d live h =
      let key = status_key ds driver in
      let busy = R.get-set_ex d key "busy" (whole_seconds ds.default_ttl) live in
      rw (set_busy_available driver d h) (refl, busy, set_busy_taken driver "busy" _ busy (λ e. cc))

  pub get_status_lem :
      (driver : String) (d : Db)
      → is_blank driver ≡ false
      → get_status ds driver (quiet d) ≡ (ok (or_offline (get d (status_key ds driver))), quiet d)
  unfolding get_status call ◌>>=◌ pure
  get_status_lem driver d named = rw named refl

  set_status_offline :
      (driver : String) (d : Db)
      → is_blank driver ≡ false
      → set_status ds driver "offline" (quiet d) ≡ (ok tt, quiet (del d (status_key ds driver)))
  unfolding set_status call
  set_status_offline driver d named = rw named refl

  set_status_online :
      (driver status : String) (d : Db)
      → is_blank driver ≡ false
      → (status ≡ "available") ⊎ (status ≡ "busy")
      → set_status ds driver status (quiet d)
        ≡ (ok tt, quiet (set_ex d (status_key ds driver) status ds.default_ttl))
  unfolding set_status call
  set_status_online driver status d named (inl e) = rw (named, e) refl
  set_status_online driver status d named (inr e) = rw (named, e) refl

  online_read :
      (driver status : String) (d : Db)
      → 0 < ds.default_ttl
      → is_blank driver ≡ false
      → (status ≡ "available") ⊎ (status ≡ "busy")
      → let (done, w) = set_status ds driver status (quiet d) in
        (done ≡ ok tt) × (get_status ds driver w ≡ (ok status, w))
  online_read driver status d live named h =
      rw
        (
          set_status_online driver status d named h,
          get_status_lem driver (set_ex d (status_key ds driver) status ds.default_ttl) named,
          R.get-set_ex d (status_key ds driver) status ds.default_ttl live,
        )
        (refl, refl)

  -- The status that `SetStatus` writes is the one that `GetStatus` reads, for an id that is not blank,
  -- any of the three statuses and a positive time to live.
  pub get_status-set_status :
      (driver : String) (status : DriverStatus) (d : Db)
      → 0 < ds.default_ttl
      → is_blank driver ≡ false
      → IsStatus status
      → let (done, w) = set_status ds driver status (quiet d) in
        (done ≡ ok tt) × (get_status ds driver w ≡ (ok status, w))
  get_status-set_status driver status d live named (inl e) =
      online_read driver status d live named (inl e)
  get_status-set_status driver status d live named (inr (inl e)) =
      online_read driver status d live named (inr e)
  get_status-set_status driver status d live named (inr (inr e)) =
      rw
        (
          e,
          set_status_offline driver d named,
          get_status_lem driver (del d (status_key ds driver)) named,
          get-del d (status_key ds driver),
        )
        (refl, refl)

  heartbeat_world :
      (driver : String) (d : Db)
      → ((heartbeat ds driver (quiet d)).1 ≡ quiet d)
        ⊎ ((heartbeat ds driver (quiet d)).1
            ≡ quiet (expire d (status_key ds driver) ds.default_ttl))
  unfolding heartbeat call ◌>>=◌ pure raise
  heartbeat_world driver d = elim (Bool-cases (is_blank driver)) [
    | inl blank ↦ inl (rw blank refl)
    | inr named ↦ inr (
        rw named (elim (Bool-cases (exists d (status_key ds driver))) [
          | inl there ↦ rw there refl
          | inr gone ↦ rw gone refl
        ]))
  ]

  -- A heartbeat keeps the status of every driver whose id is not blank: it never brings a driver that
  -- is offline back. The time to live is positive.
  pub heartbeat_revives_none :
      (driver other : String) (d : Db)
      → 0 < ds.default_ttl
      → is_blank other ≡ false
      → (get_status ds other (heartbeat ds driver (quiet d)).1).0
        ≡ (get_status ds other (quiet d)).0
  heartbeat_revives_none driver other d live named = elim (heartbeat_world driver d) [
    | inl same ↦ rw same refl
    | inr later ↦ rw (
      later,
      get_status_lem other d named,
      get_status_lem other (expire d (status_key ds driver) ds.default_ttl) named,
      R.get-expire d (status_key ds driver) ds.default_ttl (status_key ds other) live,
    )
  ]
