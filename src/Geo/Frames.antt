-- ===== src/Geo/Frames.antt =====
-- internal/geospatial/geo.go: the operations change the index only, so they keep every property that
-- ignores its key.
use geo_spatial_dispatch_ser.Prelude.{String, ◌≢◌, Option, none, some, is_blank, ◌⊎◌, inl, inr}
use geo_spatial_dispatch_ser.Result.{Result, ok, err, invalid_location_id}
use geo_spatial_dispatch_ser.Redis.{Redis}
use geo_spatial_dispatch_ser.Redis.Frame.{SameAt, Ignores}
use geo_spatial_dispatch_ser.Float.{Float}
use geo_spatial_dispatch_ser.Client.Keeps.{
  Keeps, Keeps-call, Keeps-bind, Keeps-pure, Keeps-raise, Keeps-if,
}
use geo_spatial_dispatch_ser.Geo.{
  GeoIndex, GeoService, Location, lift, replied, add_location, found_position, get_location,
  find_nearby,
}

pub Keeps-lift : {D A : Type 0} {P : D → Type 0} (r : Result A) → Keeps P (lift {D = D} r)
Keeps-lift (ok a) = record { at = λ w h. h }
Keeps-lift (err e) = record { at = λ w h. h }

pub Keeps-replied :
    {D A : Type 0} {P : D → Type 0} (reply : String ⊎ A) → Keeps P (replied {D = D} reply)
Keeps-replied (inl error_text) = Keeps-raise _
Keeps-replied (inr a) = Keeps-pure a

module _ ⦃R : Redis⦄ ⦃F : Float⦄ ⦃G : GeoIndex R F⦄ where
  open R use {Db}
  open F use {Float64}
  open G use {geoadd}

  pub geoadd-SameAt :
      (d : Db) (k id : String) (lon lat : Float64) (j : String)
      → k ≢ j
      → SameAt j d (geoadd d k id lon lat).1
  geoadd-SameAt d k id lon lat j ne = record {
    gets = G.get-geoadd_ne d k id lon lat j ne;
    hgets = λ f. G.hget-geoadd_ne d k id lon lat j f ne;
    present = G.exists-geoadd_ne d k id lon lat j ne;
  }

  pub add_location-Keeps :
      (P : Db → Type 0) (gs : GeoService) (loc : Location)
      → Ignores P gs.key
      → Keeps P (add_location gs loc)
  unfolding add_location
  add_location-Keeps P gs loc ignores =
      Keeps-if (is_blank loc.id) _ _ (Keeps-raise invalid_location_id) (
        Keeps-bind _ _ (Keeps-lift _) (λ u.
          Keeps-bind _ _
            (Keeps-call _
              (λ d. ignores d _ (geoadd-SameAt d gs.key loc.id loc.longitude loc.latitude)))
            Keeps-replied))

  found_position-Keeps :
      (P : Db → Type 0) (id : String) (p : Option (Float64 × Float64))
      → Keeps P (found_position id p)
  found_position-Keeps P id none = Keeps-raise _
  found_position-Keeps P id (some (lon, lat)) = Keeps-pure _

  pub get_location-Keeps :
      (P : Db → Type 0) (gs : GeoService) (id : String) → Keeps P (get_location gs id)
  unfolding get_location
  get_location-Keeps P gs id =
      Keeps-if (is_blank id) _ _ (Keeps-raise invalid_location_id)
        (Keeps-bind _ _ (Keeps-call _ (λ d h. h)) (found_position-Keeps P id))

  pub find_nearby-Keeps :
      (P : Db → Type 0) (gs : GeoService) (lon lat radius : Float64)
      → Keeps P (find_nearby gs lon lat radius)
  unfolding find_nearby
  find_nearby-Keeps P gs lon lat radius = Keeps-bind _ _ (Keeps-lift _) (λ u.
      Keeps-bind _ _ (Keeps-lift _) (λ v.
        Keeps-bind _ _ (Keeps-call _ (λ d h. h))
          (λ reply. Keeps-bind _ _ (Keeps-replied reply) (λ found. Keeps-pure _))))
