-- ===== src/Server/Refusals/Operations.antt =====
-- The operations that leave the database alone when they fail with an error of the caller's: the checks come
-- before the first call that writes.
use geo_spatial_dispatch_ser.Prelude.{
  ◌⊎◌, String, ◌==◌, ◌≡◌, refl, Bool, true, false, not, ◌||◌, Option, none, some, is_blank,
  Bool-cases, inl, inr, if◌then◌else◌,
}
use geo_spatial_dispatch_ser.Result.{
  Error, redis, Result, ok, err, driver_offline, location_not_found,
}
use geo_spatial_dispatch_ser.Redis.{Redis}
use geo_spatial_dispatch_ser.Float.{Float}
use geo_spatial_dispatch_ser.Client.{pure, raise, attempt, ◌>>=◌}
use geo_spatial_dispatch_ser.Geo.{
  replied, GeoIndex, GeoService, Location, add_location, get_location, found_position, find_nearby,
}
use geo_spatial_dispatch_ser.Driver.{
  DriverService, DriverStatus, status_available, status_busy, status_offline, set_status, heartbeat,
  set_available,
}
use geo_spatial_dispatch_ser.Lifecycle.Manager.{refresh_active_driver}
use geo_spatial_dispatch_ser.Dispatcher.Types.{Dispatcher}
use geo_spatial_dispatch_ser.Dispatcher.Rides.{update_driver_location, revived}
use geo_spatial_dispatch_ser.Server.Refusals.{
  Refuses, Clean, Clean-Refuses, raise-Refuses, raise-Clean, pure-Clean, call-Clean, bind-Clean,
  then-Refuses, lift-Refuses, if-Refuses, attempt-Clean, raise-bind-Refuses,
}

module _ ⦃R : Redis⦄ (bad : Error → Bool) (soft : (text : String) → bad (redis text) ≡ false) where
  open R use {Db}

  pub set_status-Refuses :
      (ds : DriverService) (id : String) (status : DriverStatus)
      → Refuses bad (set_status ds id status)
  unfolding set_status
  set_status-Refuses ds id status = if-Refuses bad (is_blank id) _ _ (raise-Refuses bad _) (λ _.
      if-Refuses bad
        (not (status == status_available || status == status_busy || status == status_offline)) _ _
        (raise-Refuses bad _)
        (λ _.
          if-Refuses bad (status == status_offline) _ _
            (Clean-Refuses bad _ (call-Clean bad _ soft))
            (λ _. Clean-Refuses bad _ (call-Clean bad _ soft))))

  set_available-Clean :
      (ds : DriverService) (id : String) → is_blank id ≡ false → Clean bad (set_available ds id)
  unfolding set_available set_status
  set_available-Clean ds id named = rw named (call-Clean bad _ soft)

  was_online-Clean :
      (refreshed : Bool)
      → bad driver_offline ≡ false
      → Clean {D = Db} bad (if refreshed then pure tt else raise driver_offline)
  was_online-Clean true off = pure-Clean bad tt
  was_online-Clean false off = raise-Clean bad driver_offline off

  heartbeat-Clean :
      (ds : DriverService) (id : String)
      → is_blank id ≡ false
      → bad driver_offline ≡ false
      → Clean bad (heartbeat ds id)
  unfolding heartbeat
  heartbeat-Clean ds id named off =
      rw named (bind-Clean bad _ _ (call-Clean bad _ soft) (λ b. was_online-Clean b off))

  -- What follows a heartbeat, on each of its ends.
  revived-Clean :
      ⦃F : Float⦄ ⦃G : GeoIndex R F⦄ (s : Dispatcher) (id : String) (o : Result (Unit {0}))
      → is_blank id ≡ false
      → ((x : Error) → o ≡ err x → bad x ≡ false)
      → Clean bad (revived s id o)
  revived-Clean s id (ok done) named c = pure-Clean bad _
  revived-Clean s id (err driver_offline) named c = set_available-Clean s.driver_service id named
  revived-Clean s id (err e) named c = raise-Clean bad _ (c _ refl)

  revival-Clean :
      ⦃F : Float⦄ ⦃G : GeoIndex R F⦄ (s : Dispatcher) (id : String) (held : Bool)
      → is_blank id ≡ false
      → bad driver_offline ≡ false
      → Clean bad
          (if held then pure tt else (attempt (heartbeat s.driver_service id) >>= revived s id))
  revival-Clean s id true named off = pure-Clean bad _
  revival-Clean s id false named off =
      attempt-Clean bad _ _ (heartbeat-Clean s.driver_service id named off)
        (λ o c. revived-Clean s id o named c)

  replied-Clean : {A : Type 0} (reply : String ⊎ A) → Clean {D = Db} bad (replied reply)
  replied-Clean (inl error_text) = raise-Clean bad _ (soft error_text)
  replied-Clean (inr a) = pure-Clean bad _

  pub add_location-Refuses :
      ⦃F : Float⦄ ⦃G : GeoIndex R F⦄ (gs : GeoService) (loc : Location)
      → Refuses bad (add_location gs loc)
  unfolding add_location
  add_location-Refuses gs loc = if-Refuses bad (is_blank loc.id) _ _ (raise-Refuses bad _) (λ _.
      lift-Refuses bad _ _
        (λ _. Clean-Refuses bad _ (bind-Clean bad _ _ (call-Clean bad _ soft) replied-Clean)))

  refresh-Clean :
      ⦃F : Float⦄ (s : Dispatcher) (id : String) → Clean bad (refresh_active_driver s.lifecycle id)
  unfolding refresh_active_driver
  refresh-Clean s id = bind-Clean bad _ _ (call-Clean bad _ soft) (λ result. pure-Clean bad _)

  blank-Refuses :
      ⦃F : Float⦄ ⦃G : GeoIndex R F⦄ (s : Dispatcher) (id : String) (lon lat : F.Float64)
      → is_blank id ≡ true
      → Refuses bad (update_driver_location s id lon lat)
  unfolding update_driver_location add_location
  blank-Refuses s id lon lat blank = rw blank (raise-bind-Refuses bad _ _)

  named-Refuses :
      ⦃F : Float⦄ ⦃G : GeoIndex R F⦄ (s : Dispatcher) (id : String) (lon lat : F.Float64)
      → bad driver_offline ≡ false
      → is_blank id ≡ false
      → Refuses bad (update_driver_location s id lon lat)
  unfolding update_driver_location
  named-Refuses s id lon lat off named =
      then-Refuses bad _ _ (add_location-Refuses s.geo_service _)
        (λ t. bind-Clean bad _ _ (refresh-Clean s id) (λ held. revival-Clean s id held named off))

  pub update-Refuses :
      ⦃F : Float⦄ ⦃G : GeoIndex R F⦄ (s : Dispatcher) (id : String) (lon lat : F.Float64)
      → bad driver_offline ≡ false
      → Refuses bad (update_driver_location s id lon lat)
  update-Refuses s id lon lat off = elim (Bool-cases (is_blank id)) [
    | inl blank ↦ blank-Refuses s id lon lat blank
    | inr named ↦ named-Refuses s id lon lat off named
  ]

  position-Clean :
      ⦃F : Float⦄ ⦃G : GeoIndex R F⦄ (id : String) (o : Option (F.Float64 × F.Float64))
      → bad location_not_found ≡ false
      → Clean {D = Db} bad (found_position id o)
  position-Clean id none missing = raise-Clean bad _ missing
  position-Clean id (some (lon, lat)) missing = pure-Clean bad _

  -- A position is looked up and not changed; the one error that counts comes before the call.
  pub get_location-Refuses :
      ⦃F : Float⦄ ⦃G : GeoIndex R F⦄ (gs : GeoService) (id : String)
      → bad location_not_found ≡ false
      → Refuses bad (get_location gs id)
  unfolding get_location
  get_location-Refuses gs id missing = if-Refuses bad (is_blank id) _ _ (raise-Refuses bad _) (λ _.
      Clean-Refuses bad _
        (bind-Clean bad _ _ (call-Clean bad _ soft) (λ o. position-Clean id o missing)))

  pub find_nearby-Refuses :
      ⦃F : Float⦄ ⦃G : GeoIndex R F⦄ (gs : GeoService) (lon lat radius : F.Float64)
      → Refuses bad (find_nearby gs lon lat radius)
  unfolding find_nearby
  find_nearby-Refuses gs lon lat radius = lift-Refuses bad _ _ (λ _. lift-Refuses bad _ _ (λ _.
      Clean-Refuses bad _ (
        bind-Clean bad _ _ (call-Clean bad _ soft)
          (λ reply. bind-Clean bad _ _ (replied-Clean reply) (λ ls. pure-Clean bad _)))))
