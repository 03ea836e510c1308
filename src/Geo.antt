-- ===== src/Geo.antt =====
-- internal/geospatial/geo.go: positions in a Redis GEO index. The index commands are a parameter.
pub mod Memory
pub mod Frames
pub mod Laws
use geo_spatial_dispatch_ser.Prelude.{
  ℕ, String, ◌≡◌, ◌≢◌, Bool, true, false, ◌&&◌, ◌||◌, Option, none, some, List, [], ◌∷◌, map, ◌==◌,
  is_blank, if◌then◌else◌, ◌⊎◌, inl, inr,
}
use geo_spatial_dispatch_ser.Result.{
  Result, ok, err, redis, invalid_coordinates, invalid_radius, invalid_location_id,
  location_not_found,
}
use geo_spatial_dispatch_ser.Float.{Float}
use geo_spatial_dispatch_ser.Redis.{Redis}
use geo_spatial_dispatch_ser.Client.{Io, pure, raise, call, ◌>>=◌, ◌>>◌, reading, writing}

-- One answer of GEORADIUS WITHCOORD WITHDIST.
pub record GeoLocation (F : Type 0) : Type 0 where
  pub name : String
  pub longitude : F
  pub latitude : F
  pub dist : F

-- The options of GEORADIUS, which go-redis takes as `redis.GeoRadiusQuery`.
pub record GeoRadiusQuery (F : Type 0) : Type 0 where
  pub radius : F
  pub unit : String
  pub with_coord : Bool
  pub with_dist : Bool
  pub sort : String

module _ ⦃F : Float⦄ where
  open F use {Float64, constant, negate, lt, le}

  abbrev within : Float64 → Float64 → Bool
  within bound x = le (negate bound) x && le x bound

  -- The positions that Redis documents as valid: longitudes from -180 to 180 degrees, latitudes from
  -- -85.05112878 to 85.05112878 degrees.
  abbrev pub is_indexable : Float64 → Float64 → Bool
  is_indexable lon lat = within (constant 180 0) lon && within (constant 8505112878 8) lat

  -- No location of a list has a smaller distance.
  abbrev pub NoneCloser : Float64 → List Float64 → Type 0
  NoneCloser x [] = Unit
  NoneCloser x (y ∷ ys) = (lt y x ≡ false) × NoneCloser x ys

  abbrev pub Ascending : List Float64 → Type 0
  Ascending [] = Unit
  Ascending (x ∷ xs) = NoneCloser x xs × Ascending xs

-- The index commands on a database, each on the sorted set at a key. Those with a position answer with
-- an error text where it is not valid. GEOADD leaves the other keys alone, and gives its member the
-- position that the index keeps for the given one, a cell of its grid. GEORADIUS with the option ASC
-- answers by distance.
pub record GeoIndex (R : Redis) (F : Float) : Type 1 where
  pub geoadd : R.Db → String → String → F.Float64 → F.Float64 → (String ⊎ Unit {0}) × R.Db
  pub cell : F.Float64 → F.Float64 → F.Float64 × F.Float64
  pub geopos : R.Db → String → String → Option (F.Float64 × F.Float64)
  pub zrem : R.Db → String → String → Bool × R.Db
  -- GEORADIUS key longitude latitude
  pub georadius :
      R.Db
      → String
      → F.Float64
      → F.Float64
      → GeoRadiusQuery F.Float64
      → String ⊎ List (GeoLocation F.Float64)
  -- GEODIST in km, which is nil if one member is missing
  pub geodist : R.Db → String → String → String → Option F.Float64
  pub geoadd-valid :
      (d : R.Db) (k m : String) (lon lat : F.Float64)
      → is_indexable ⦃F = F⦄ lon lat ≡ true
      → (geoadd d k m lon lat).0 ≡ inr tt
  pub geoadd-invalid :
      (d : R.Db) (k m : String) (lon lat : F.Float64)
      → is_indexable ⦃F = F⦄ lon lat ≡ false
      → (error_text : String) × (geoadd d k m lon lat ≡ (inl error_text, d))
  pub geopos-geoadd :
      (d : R.Db) (k m : String) (lon lat : F.Float64)
      → is_indexable ⦃F = F⦄ lon lat ≡ true
      → geopos (geoadd d k m lon lat).1 k m ≡ some (cell lon lat)
  pub georadius-ascends :
      (d : R.Db) (k : String) (lon lat : F.Float64) (q : GeoRadiusQuery F.Float64)
      (found : List (GeoLocation F.Float64))
      → q.sort ≡ "ASC"
      → georadius d k lon lat q ≡ inr found
      → Ascending ⦃F = F⦄ (map (λ g. g.dist) found)
  pub get-geoadd_ne :
      (d : R.Db) (k m : String) (lon lat : F.Float64) (j : String)
      → k ≢ j
      → R.get (geoadd d k m lon lat).1 j ≡ R.get d j
  pub hget-geoadd_ne :
      (d : R.Db) (k m : String) (lon lat : F.Float64) (j f : String)
      → k ≢ j
      → R.hget (geoadd d k m lon lat).1 j f ≡ R.hget d j f
  pub exists-geoadd_ne :
      (d : R.Db) (k m : String) (lon lat : F.Float64) (j : String)
      → k ≢ j
      → R.exists (geoadd d k m lon lat).1 j ≡ R.exists d j

module _ ⦃F : Float⦄ where
  open F use {Float64, constant, negate, is_nan, is_inf, lt, le}

  pub record Location : Type 0 where
    pub id : String
    pub longitude : Float64
    pub latitude : Float64
    pub distance_km : Float64

  -- Nearest first.
  abbrev pub ByDistance : List Location → Type 0
  ByDistance ls = Ascending (map (λ l. l.distance_km) ls)

  out_of_range : ℕ → Float64 → Bool
  out_of_range bound x =
      is_nan x || is_inf x || lt x (negate (constant bound 0)) || lt (constant bound 0) x

  unfoldable pub validate_coordinates : Float64 → Float64 → Result (Unit {0})
  unfolding out_of_range
  validate_coordinates lon lat =
      if out_of_range 180 lon
      then err invalid_coordinates
      else if out_of_range 90 lat
      then err invalid_coordinates
      else ok tt

  unfoldable pub validate_radius : Float64 → Result (Unit {0})
  validate_radius radius_km =
      if is_nan radius_km || is_inf radius_km || le radius_km (constant 0 0)
      then err invalid_radius
      else ok tt

pub record GeoService : Type 0 where
  pub key : String

unfoldable pub new_geo_service : String → GeoService
new_geo_service key = record { key = if key == "" then "locations" else key }

-- A pure check inside a method.
abbrev pub lift : {D A : Type 0} → Result A → Io D A
lift r w = (r, w)

-- A reply of the server, which may be an error.
abbrev pub replied : {D A : Type 0} → String ⊎ A → Io D A
replied (inl error_text) = raise (redis error_text)
replied (inr a) = pure a

module _ ⦃R : Redis⦄ ⦃F : Float⦄ ⦃G : GeoIndex R F⦄ where
  open R use {Db}
  open F use {Float64, constant}
  open G use {geoadd, geopos, zrem, georadius, geodist}

  unfoldable pub add_location : GeoService → Location → Io Db Unit
  add_location gs loc = if is_blank loc.id then raise invalid_location_id else (do
    lift (validate_coordinates loc.longitude loc.latitude)
    reply ← call (λ d. geoadd d gs.key loc.id loc.longitude loc.latitude)
    replied reply)

  abbrev pub found_position : String → Option (Float64 × Float64) → Io Db Location
  found_position id none = raise location_not_found
  found_position id (some (lon, lat)) =
      pure (record { id = id; longitude = lon; latitude = lat; distance_km = constant 0 0 })

  unfoldable pub get_location : GeoService → String → Io Db Location
  get_location gs id =
      if is_blank id
      then raise invalid_location_id
      else (do position ← call (reading (λ d. geopos d gs.key id)); found_position id position)

  unfoldable pub remove_location : GeoService → String → Io Db Unit
  remove_location gs id = do
    removed ← call (λ d. zrem d gs.key id)
    if removed then pure tt else raise location_not_found

  abbrev pub to_location : GeoLocation Float64 → Location
  to_location g = record {
    id = g.name;
    longitude = g.longitude;
    latitude = g.latitude;
    distance_km = g.dist;
  }

  abbrev pub nearby_query : Float64 → GeoRadiusQuery Float64
  nearby_query radius_km = record {
    radius = radius_km;
    unit = "km";
    with_coord = true;
    with_dist = true;
    sort = "ASC";
  }

  unfoldable pub find_nearby : GeoService → Float64 → Float64 → Float64 → Io Db (List Location)
  find_nearby gs lon lat radius_km = do
    lift (validate_coordinates lon lat)
    lift (validate_radius radius_km)
    reply ← call (reading (λ d. georadius d gs.key lon lat (nearby_query radius_km)))
    results ← replied reply
    pure (map to_location results)

  unfoldable pub distance : GeoService → String → String → Io Db Float64
  distance gs id1 id2 = do
    dist ← call (reading (λ d. geodist d gs.key id1 id2))
    elim dist [ none ↦ raise (redis "redis: nil") | some km ↦ pure km ]
