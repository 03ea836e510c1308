-- ===== src/Geo/Laws.antt =====
-- internal/geospatial/geo.go: a position that is stored is found.
use geo_spatial_dispatch_ser.Prelude.{
  String, ◌≡◌, refl, false, sym, ap, true, some, List, [], ◌∷◌, map, ◌⊎◌, is_blank, inl, inr,
}
use geo_spatial_dispatch_ser.Result.{Result, redis, ok, err}
use geo_spatial_dispatch_ser.Redis.{Redis}
use geo_spatial_dispatch_ser.Float.{Float}
use geo_spatial_dispatch_ser.Client.{quiet, reading, call, pure, raise, ◌>>=◌}
use geo_spatial_dispatch_ser.Geo.{
  GeoIndex, GeoService, GeoLocation, ByDistance, Location, is_indexable, Ascending, lift, replied,
  to_location, find_nearby, validate_radius, nearby_query, add_location, get_location,
  validate_coordinates,
}

module _ ⦃R : Redis⦄ ⦃F : Float⦄ ⦃G : GeoIndex R F⦄ (gs : GeoService) where
  open R use {Db}

  pub location_added :
      (loc : Location) (d : Db)
      → is_blank loc.id ≡ false
      → validate_coordinates loc.longitude loc.latitude ≡ ok tt
      → is_indexable loc.longitude loc.latitude ≡ true
      → add_location gs loc (quiet d)
        ≡ (ok tt, quiet (G.geoadd d gs.key loc.id loc.longitude loc.latitude).1)
  unfolding add_location call ◌>>=◌ pure
  location_added loc d named valid indexable =
      rw (named, valid, G.geoadd-valid d gs.key loc.id loc.longitude loc.latitude indexable) refl

  -- The server's error for a position that the index does not take.
  pub location_refused :
      (loc : Location) (d : Db)
      → is_blank loc.id ≡ false
      → validate_coordinates loc.longitude loc.latitude ≡ ok tt
      → is_indexable loc.longitude loc.latitude ≡ false
      → (error_text : String) × (add_location gs loc (quiet d) ≡ (err (redis error_text), quiet d))
  unfolding add_location call ◌>>=◌ raise
  location_refused loc d named valid beyond =
      let (error_text, e) = G.geoadd-invalid d gs.key loc.id loc.longitude loc.latitude beyond in
      (error_text, rw (named, valid, e) refl)

  location_read :
      (id : String) (d : Db) (lon lat : F.Float64)
      → is_blank id ≡ false
      → G.geopos d gs.key id ≡ some (lon, lat)
      → get_location gs id (quiet d) ≡ (
        ok (record { id = id; longitude = lon; latitude = lat; distance_km = F.constant 0 0 }),
        quiet d,
      )
  unfolding get_location call ◌>>=◌ pure
  location_read id d lon lat named there = rw (named, there) refl

  -- A location with an id that is not blank and a position that both the validation and the index accept
  -- is stored, and `GetLocation` then answers with that id and with the position that the index keeps for
  -- this longitude and latitude, if no other client interferes and no call fails.
  pub get_location-add_location :
      (loc : Location) (d : Db)
      → is_blank loc.id ≡ false
      → validate_coordinates loc.longitude loc.latitude ≡ ok tt
      → is_indexable loc.longitude loc.latitude ≡ true
      → let (done, w) = add_location gs loc (quiet d) in
        let (lon, lat) = G.cell loc.longitude loc.latitude in
        (done ≡ ok tt)
        × (get_location gs loc.id w ≡ (
          ok (record {
            id = loc.id;
            longitude = lon;
            latitude = lat;
            distance_km = F.constant 0 0;
          }),
          w,
        ))
  get_location-add_location loc d named valid indexable =
      let e = (G.geoadd d gs.key loc.id loc.longitude loc.latitude).1 in
      let (lon, lat) = G.cell loc.longitude loc.latitude in
      rw (location_added loc d named valid indexable) (
        refl,
        location_read loc.id e lon lat named
            (G.geopos-geoadd d gs.key loc.id loc.longitude loc.latitude indexable),
      )

  distances-eq :
      (gs' : List (GeoLocation F.Float64))
      → map (λ l. l.distance_km) (map to_location gs') ≡ map (λ g. g.dist) gs'
  distances-eq [] = refl
  distances-eq (g ∷ gs') = ap (λ ls. g.dist ∷ ls) (distances-eq gs')

  answered-ByDistance :
      (reply : String ⊎ List (GeoLocation F.Float64)) (ls : List Location) (d : Db)
      → ((found : List (GeoLocation F.Float64))
          → reply ≡ inr found
          → Ascending (map (λ g. g.dist) found))
      → ((replied {D = Db} reply >>= (λ found. pure (map to_location found))) (quiet d)).0 ≡ ok ls
      → ByDistance ls
  unfolding ◌>>=◌ pure raise
  answered-ByDistance (inl error_text) ls d asc h = cc
  answered-ByDistance (inr found) ls d asc h =
      let same : map to_location found ≡ ls = cc in
      rw (sym same, distances-eq found) (asc found refl)

  checked-ByDistance :
      (located sized : Result (Unit {0})) (lon lat radius : F.Float64) (d : Db) (ls : List Location)
      → ((lift {D = Db} located >>= (λ _. lift sized >>= (λ _.
            call (reading (λ e. G.georadius e gs.key lon lat (nearby_query radius)))
            >>= (λ reply. replied reply >>= (λ found. pure (map to_location found))))))
          (quiet d)).0
        ≡ ok ls
      → ByDistance ls
  unfolding call ◌>>=◌
  checked-ByDistance (err e) sized lon lat radius d ls h = cc
  checked-ByDistance (ok done) (err e) lon lat radius d ls h = cc
  checked-ByDistance (ok done) (ok fine) lon lat radius d ls h =
      answered-ByDistance (G.georadius d gs.key lon lat (nearby_query radius)) ls d
        (λ found e. G.georadius-ascends d gs.key lon lat (nearby_query radius) found refl e) h

  -- What `FindNearby` finds is in the order of distance.
  pub find_nearby-ByDistance :
      (lon lat radius : F.Float64) (d : Db) (ls : List Location)
      → (find_nearby gs lon lat radius (quiet d)).0 ≡ ok ls
      → ByDistance ls
  unfolding find_nearby
  find_nearby-ByDistance lon lat radius d ls h =
      checked-ByDistance (validate_coordinates lon lat) (validate_radius radius) lon lat radius d ls
        h
