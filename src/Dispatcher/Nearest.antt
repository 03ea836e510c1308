-- ===== src/Dispatcher/Nearest.antt =====
-- internal/dispatch/dispatcher.go: `FindAndAssign` takes the nearest driver that is available.
use mathlib.Core.List.{Memᴰ}
use geo_spatial_dispatch_ser.Prelude.{
  String, ◌≡◌, ◌≢◌, ◌∙◌, refl, ap, false, ◌==◌, Option, none, some, List, [], ◌∷◌, ◌++◌, map,
  Bool-cases, inl, inr, eq_iff,
}
use geo_spatial_dispatch_ser.Result.{ok}
use geo_spatial_dispatch_ser.Redis.{Redis}
use geo_spatial_dispatch_ser.Float.{Float}
use geo_spatial_dispatch_ser.Client.{quiet, call, ◌>>=◌, pure, attempt}
use geo_spatial_dispatch_ser.Driver.{
  DriverStatus, status_key, status_of, or_offline, get_statuses, note_statuses, mget,
  status_offline,
}
use geo_spatial_dispatch_ser.Driver.Statuses.{status_noted}
use geo_spatial_dispatch_ser.Geo.{GeoIndex, Location, NoneCloser, ByDistance, find_nearby}
use geo_spatial_dispatch_ser.Geo.Laws.{find_nearby-ByDistance}
use geo_spatial_dispatch_ser.Lifecycle.Manager.{active}
use geo_spatial_dispatch_ser.Dispatcher.Types.{Dispatcher, DispatchRequest, assigned, with_defaults}
use geo_spatial_dispatch_ser.Dispatcher.Assign.{try_assign_driver}
use geo_spatial_dispatch_ser.Dispatcher.Assigned.{
  IsFree, IsAssigned, try_assign_driver-free, try_assign_driver-quiet,
}
use geo_spatial_dispatch_ser.Dispatcher.Search.{
  assign_nearest, search_and_assign, find_with_defaults, find_and_assign, with_nearby,
}
use geo_spatial_dispatch_ser.Dispatcher.Wiring.{IsWired}

module _ ⦃R : Redis⦄ ⦃F : Float⦄ ⦃G : GeoIndex R F⦄ (s : Dispatcher) (d : R.Db) where
  open R use {Db, get}

  -- None of the drivers is available.
  abbrev pub Unavailable : List Location → Type 0
  Unavailable [] = Unit
  Unavailable (l ∷ ls) =
      (get d (status_key s.driver_service l.id) ≢ some "available") × Unavailable ls

  -- The statuses are those of the database for the drivers of a list.
  abbrev Known : List (String × DriverStatus) → List Location → Type 0
  Known statuses nearby =
      (x : String)
      → Memᴰ x (map (λ l. l.id) nearby)
      → status_of statuses x ≡ or_offline (get d (status_key s.driver_service x))

  available_only :
      (o : Option String) → o ≢ some "available" → (or_offline o == "available") ≡ false
  available_only none h = refl
  available_only (some status) h = elim (Bool-cases (status == "available")) [
    | inl same ↦ absurd (h (ap some ((eq_iff status "available").0 same)))
    | inr other ↦ other
  ]

  module _ (req : DispatchRequest) (loc : Location) (rest : List Location) where
    not_taken :
        (l : Location) (ls : List Location) (statuses : List (String × DriverStatus))
        → (status_of statuses l.id == "available") ≡ false
        → assign_nearest s req statuses (l ∷ ls) (quiet d)
          ≡ assign_nearest s req statuses ls (quiet d)
    unfolding assign_nearest
    not_taken l ls statuses h = rw h refl

    passed_over :
        (before : List Location) (statuses : List (String × DriverStatus))
        → Known statuses (before ++ loc ∷ rest)
        → Unavailable before
        → assign_nearest s req statuses (before ++ loc ∷ rest) (quiet d)
          ≡ assign_nearest s req statuses (loc ∷ rest) (quiet d)
    passed_over [] statuses known none_there = refl
    passed_over (l ∷ before) statuses known (busy, others) =
        not_taken l (before ++ loc ∷ rest) statuses
          (ap (λ v. v == "available") (known l.id (Memᴰ.head refl)) ∙ available_only _ busy)
        ∙ passed_over before statuses (λ x m. known x (Memᴰ.tail m)) others

    taken :
        (statuses : List (String × DriverStatus)) (w : IsWired s)
        → status_of statuses loc.id ≡ "available"
        → IsFree s req loc.id d
        → assign_nearest s req statuses (loc ∷ rest) (quiet d)
          ≡ (ok (assigned req loc "en_route"), (try_assign_driver s req loc.id (quiet d)).1)
    unfolding assign_nearest ◌>>=◌ attempt pure
    taken statuses w h free =
        rw
          (
            ap (λ v. v == "available") h,
            try_assign_driver-quiet s w req loc.id d free,
            free.named_rider,
          )
          refl

    in_middle : (before : List Location) → Memᴰ loc.id (map (λ l. l.id) (before ++ loc ∷ rest))
    in_middle [] = Memᴰ.head refl
    in_middle (l ∷ before) = Memᴰ.tail (in_middle before)

    -- What `GetStatuses` gives for a list of drivers.
    abbrev noted : List Location → List (String × DriverStatus)
    noted ls =
        note_statuses (map (λ l. l.id) ls)
          (mget d (map (status_key s.driver_service) (map (λ l. l.id) ls)))
          (map (λ i. (i, status_offline)) (map (λ l. l.id) ls))

    noted-Known : (ls : List Location) → Known (noted ls) ls
    noted-Known ls x m = status_noted s.driver_service d x (map (λ l. l.id) ls) m

    searched :
        (before : List Location)
        → with_nearby s req (ok (before ++ loc ∷ rest)) (quiet d)
          ≡ assign_nearest s req (noted (before ++ loc ∷ rest)) (before ++ loc ∷ rest) (quiet d)
    unfolding get_statuses ◌>>=◌ attempt call pure
    searched [] = refl
    searched (l ∷ before) = refl

    looked_up :
        (before : List Location)
        → IsWired s
        → Unavailable before
        → IsFree s req loc.id d
        → with_nearby s req (ok (before ++ loc ∷ rest)) (quiet d)
          ≡ (ok (assigned req loc "en_route"), (try_assign_driver s req loc.id (quiet d)).1)
    looked_up before w others free =
        let known = noted-Known (before ++ loc ∷ rest) in
        searched before
        ∙ passed_over before (noted (before ++ loc ∷ rest)) known others
        ∙ taken (noted (before ++ loc ∷ rest)) w
            (known loc.id (in_middle before) ∙ ap or_offline free.available) free

    search_steps :
        (before : List Location)
        → find_nearby s.geo_service req.longitude req.latitude req.radius_km (quiet d)
          ≡ (ok (before ++ loc ∷ rest), quiet d)
        → search_and_assign s req (quiet d)
          ≡ with_nearby s req (ok (before ++ loc ∷ rest)) (quiet d)
    unfolding search_and_assign ◌>>=◌ attempt
    search_steps before found = rw found refl

    rider_steps :
        (req.rider_id == "") ≡ false
        → active s.lifecycle req.rider_id (quiet d) ≡ (ok none, quiet d)
        → find_with_defaults s req (quiet d) ≡ search_and_assign s req (quiet d)
    unfolding ◌>>=◌ attempt
    rider_steps named idle = rw (named, idle) refl

  none-closer :
      (before rest : List Location) (loc : Location)
      → ByDistance (before ++ loc ∷ rest)
      → NoneCloser loc.distance_km (map (λ l. l.distance_km) rest)
  none-closer [] rest loc (closest, later) = closest
  none-closer (l ∷ before) rest loc (c, later) = none-closer before rest loc later

  -- `FindAndAssign` takes the nearest driver that is available. Let the rider have no ride, and let the
  -- search find some drivers that are not available, then a driver that can be taken, then others. A
  -- driver can be taken for the request if it is available, nobody has its lock and no request its active
  -- key, the request's id is new, the rider has a name and no ride, and the pickup point is in range.
  -- With no other client and no lost or refused call, `FindAndAssign` then answers with that driver, its
  -- distance and the status en_route, none of the others is closer, and the driver is locked, busy and
  -- assigned to the request, which has its default id and radius if it had none.
  pub find_and_assign-nearest :
      (w : IsWired s) (fresh : String) (req : DispatchRequest) (before : List Location)
      (loc : Location) (rest : List Location)
      → let r = with_defaults fresh req in
        active s.lifecycle r.rider_id (quiet d) ≡ (ok none, quiet d)
        → find_nearby s.geo_service r.longitude r.latitude r.radius_km (quiet d)
          ≡ (ok (before ++ loc ∷ rest), quiet d)
        → Unavailable before
        → IsFree s r loc.id d
        → let (result, v) = find_and_assign s fresh req (quiet d) in
          (result ≡ ok (assigned r loc "en_route"))
          × NoneCloser loc.distance_km (map (λ l. l.distance_km) rest)
          × IsAssigned s r loc.id v.db
  unfolding find_and_assign
  find_and_assign-nearest w fresh req before loc rest idle found others free =
      let r = with_defaults fresh req in
      let (_, done) = try_assign_driver-free s w r loc.id d free in
      rw
        (
          rider_steps r loc rest free.named_rider idle,
          search_steps r loc rest before found,
          looked_up r loc rest before w others free,
        )
        (
          refl,
          none-closer before rest loc (
              find_nearby-ByDistance s.geo_service r.longitude r.latitude r.radius_km d
                (before ++ loc ∷ rest) (ap (λ o. o.0) found)),
          done,
        )
