-- ===== src/Dispatcher/Locating.antt =====
-- internal/dispatch/dispatcher.go: `UpdateDriverLocation` brings a driver online.
use mathlib.Core.Path.{subst}
use geo_spatial_dispatch_ser.Prelude.{
  ℕ, ◌<◌, String, ◌≡◌, ◌∙◌, refl, true, false, Bool-cases, inl, inr, ◌⊎◌, is_blank, arith, ℤ, pos,
  negsuc, zero, suc, whole_seconds,
}
use geo_spatial_dispatch_ser.Result.{Result, redis, ok, err, driver_offline}
use geo_spatial_dispatch_ser.Redis.{Redis}
use geo_spatial_dispatch_ser.Float.{Float}
use geo_spatial_dispatch_ser.Client.{quiet, pure, raise, call, attempt, ◌>>=◌}
use geo_spatial_dispatch_ser.Client.Achieves.{
  Achieves, Achieves-pure, Achieves-call, Achieves-if, Achieves-bind,
}
use geo_spatial_dispatch_ser.Driver.{status_key, heartbeat, set_available, set_status}
use geo_spatial_dispatch_ser.Geo.{
  GeoIndex, Location, add_location, validate_coordinates, is_indexable,
}
use geo_spatial_dispatch_ser.Geo.Laws.{location_added, location_refused}
use geo_spatial_dispatch_ser.Lifecycle.Types.{driver_status_key, active_driver_key}
use geo_spatial_dispatch_ser.Lifecycle.Guards.{refresh-cases}
use geo_spatial_dispatch_ser.Lifecycle.Manager.{refresh_active_driver, refresh_command, refreshed}
use geo_spatial_dispatch_ser.Dispatcher.Types.{Dispatcher}
use geo_spatial_dispatch_ser.Dispatcher.Rides.{update_driver_location, revived}
use geo_spatial_dispatch_ser.Dispatcher.Wiring.{IsWired, status_key-eq}

refreshed-one : ⦃R : Redis⦄ ⦃F : Float⦄ (reply : ℤ) → refreshed reply ≡ true → reply ≡ pos 1
refreshed-one (pos zero) h = cc
refreshed-one (pos (suc zero)) h = refl
refreshed-one (pos (suc (suc n))) h = cc
refreshed-one (negsuc n) h = cc

module _ ⦃R : Redis⦄ ⦃F : Float⦄ ⦃G : GeoIndex R F⦄ (s : Dispatcher) (w : IsWired s)
    (driver : String) where
  open R use {Db, exists, set_ex}

  -- The driver has a status, so it is not offline.
  abbrev pub IsOnline : Db → Type 0
  IsOnline e = exists e (status_key s.driver_service driver) ≡ true

  abbrev Any : {A : Type 0} → Db → A → Type 0
  Any e a = Unit

  located :
      (lon lat : F.Float64) (d : Db)
      → is_blank driver ≡ false
      → validate_coordinates lon lat ≡ ok tt
      → is_indexable lon lat ≡ true
      → Achieves Any
          (add_location s.geo_service
            (record { id = driver; longitude = lon; latitude = lat; distance_km = F.constant 0 0 }))
          d
  located lon lat d named valid indexable = record {
    answer = tt;
    after = (G.geoadd d s.geo_service.key driver lon lat).1;
    outcome = location_added s.geo_service _ d named valid indexable;
    holds = tt;
  }

  busy-IsOnline :
      (d : Db) (n : ℕ) → 0 < n → IsOnline (set_ex d (driver_status_key s.lifecycle driver) "busy" n)
  busy-IsOnline d n live =
      subst (λ k. exists (set_ex d (driver_status_key s.lifecycle driver) "busy" n) k ≡ true)
        (status_key-eq s w driver)
        (R.exists-set_ex d (driver_status_key s.lifecycle driver) "busy" n live)

  refresh_command-IsOnline :
      (d : Db)
      → (refresh_command s.lifecycle driver d).0 ≡ pos 1
      → IsOnline (refresh_command s.lifecycle driver d).1
  refresh_command-IsOnline d h =
      elim (refresh-cases (active_driver_key s.lifecycle driver)
        (driver_status_key s.lifecycle driver) s.lifecycle.assignment_prefix driver
        (whole_seconds s.lifecycle.driver_status_ttl) d) [
          | inl (_, _, e) ↦ rw e (
              busy-IsOnline d (whole_seconds s.lifecycle.driver_status_ttl)
                w.configured.status_live)
          | inr (no_reply, _) ↦ absurd (no_reply h)
        ]

  -- A driver that the script finds on a ride is busy, so online.
  refresh-IsOnline :
      (d : Db)
      → Achieves (λ e held. held ≡ true → IsOnline e) (refresh_active_driver s.lifecycle driver) d
  unfolding refresh_active_driver
  refresh-IsOnline d =
      Achieves-bind (λ e reply. reply ≡ pos 1 → IsOnline e) _ _
        (Achieves-call _ (refresh_command-IsOnline d))
        (λ reply e q. Achieves-pure _ (λ h. q (refreshed-one reply h)))

  live : 0 < s.driver_service.default_ttl
  live = omega (arith, w.online)

  set_available-IsOnline :
      (d : Db)
      → is_blank driver ≡ false
      → Achieves (λ e _. IsOnline e) (set_available s.driver_service driver) d
  unfolding set_available set_status call
  set_available-IsOnline d named = record {
    answer = tt;
    after = set_ex d (status_key s.driver_service driver) "available" s.driver_service.default_ttl;
    outcome = rw named refl;
    holds =
        R.exists-set_ex d (status_key s.driver_service driver) "available"
          s.driver_service.default_ttl live;
  }

  -- The two ways in which a heartbeat ends.
  abbrev Beaten : Db → Result (Unit {0}) → Type 0
  Beaten e r = ((r ≡ ok tt) × IsOnline e) ⊎ (r ≡ err driver_offline)

  heartbeat-Beaten :
      (d : Db)
      → is_blank driver ≡ false
      → Achieves Beaten (attempt (heartbeat s.driver_service driver)) d
  unfolding heartbeat call ◌>>=◌ attempt pure raise
  heartbeat-Beaten d named =
      let key = status_key s.driver_service driver in
      let later = R.expire d key s.driver_service.default_ttl in
      elim (Bool-cases (exists d key)) [
        | inl there ↦ record {
          answer = ok tt;
          after = later;
          outcome = rw (named, there) refl;
          holds = inl (refl, R.exists-expire d key s.driver_service.default_ttl key live ∙ there);
        }
        | inr gone ↦ record {
          answer = err driver_offline;
          after = later;
          outcome = rw (named, gone) refl;
          holds = inr refl;
        }
      ]

  revived-IsOnline :
      (r : Result (Unit {0})) (d : Db)
      → is_blank driver ≡ false
      → Beaten d r
      → Achieves (λ e _. IsOnline e) (revived s driver r) d
  revived-IsOnline r d named (inl (e, h)) = rw e (Achieves-pure tt h)
  revived-IsOnline r d named (inr e) = rw e (set_available-IsOnline d named)

  -- A location update for an id that is not blank, with a position that both the validation and the
  -- index accept, succeeds and leaves the driver online, also when its status had expired, if no other
  -- client interferes and no call fails.
  pub update_driver_location-IsOnline :
      (lon lat : F.Float64) (d : Db)
      → is_blank driver ≡ false
      → validate_coordinates lon lat ≡ ok tt
      → is_indexable lon lat ≡ true
      → Achieves (λ e _. IsOnline e) (update_driver_location s driver lon lat) d
  unfolding update_driver_location
  update_driver_location-IsOnline lon lat d named valid indexable =
      Achieves-bind Any _ _ (located lon lat d named valid indexable) (λ _ d1 _.
        Achieves-bind (λ e held. held ≡ true → IsOnline e) _ _ (refresh-IsOnline d1)
          (λ held d2 q.
            Achieves-if held _ _ (λ h. Achieves-pure tt (q h))
              (λ _.
                Achieves-bind Beaten _ _ (heartbeat-Beaten d2 named)
                  (λ r d3. revived-IsOnline r d3 named))))

  -- A location update for an id that is not blank, with coordinates that pass the validation but that the
  -- index does not take (Redis ends at 85.05112878 degrees of latitude, the validation at 90), fails with
  -- the server's error and changes nothing, the driver's status and its time to live included. No other
  -- client interferes, and no call is lost.
  pub update_driver_location-refused :
      (lon lat : F.Float64) (d : Db)
      → is_blank driver ≡ false
      → validate_coordinates lon lat ≡ ok tt
      → is_indexable lon lat ≡ false
      → (error_text : String) × (update_driver_location s driver lon lat (quiet d)
          ≡ (err (redis error_text), quiet d))
  unfolding update_driver_location ◌>>=◌
  update_driver_location-refused lon lat d named valid beyond =
      let loc : Location = record {
        id = driver;
        longitude = lon;
        latitude = lat;
        distance_km = F.constant 0 0;
      } in
      let (error_text, e) = location_refused s.geo_service loc d named valid beyond in
      (error_text, rw e refl)
