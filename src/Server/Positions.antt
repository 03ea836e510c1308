-- ===== src/Server/Positions.antt =====
-- internal/server/geo_handlers.go
use geo_spatial_dispatch_ser.Prelude.{
  ℕ, zero, suc, ◌==◌, Option, none, some, List, [], ◌∷◌, if◌then◌else◌,
}
use geo_spatial_dispatch_ser.Result.{
  Error, Result, ok, err, message, invalid_coordinates, invalid_location_id, invalid_radius,
  location_not_found,
}
use geo_spatial_dispatch_ser.Redis.{Redis}
use geo_spatial_dispatch_ser.Float.{Float}
use geo_spatial_dispatch_ser.Geo.{
  GeoIndex, GeoService, Location, add_location, get_location, find_nearby,
}
use geo_spatial_dispatch_ser.Server.Http.{
  Request, Response, fields, location, nearby, Web, FindNearbyRequest, Serving, respond, answer,
  only, http_error, encoded,
}

abbrev pub add_location_code : Error → ℕ
add_location_code invalid_coordinates = 400
add_location_code invalid_location_id = 400
add_location_code e = 500

abbrev pub get_location_code : Error → ℕ
get_location_code invalid_location_id = 400
get_location_code location_not_found = 404
get_location_code e = 500

abbrev pub find_nearby_code : Error → ℕ
find_nearby_code invalid_coordinates = 400
find_nearby_code invalid_radius = 400
find_nearby_code e = 500

module _ ⦃F : Float⦄ where
  abbrev pub count : List Location → ℕ
  count [] = zero
  count (l ∷ ls) = suc (count ls)

  abbrev pub added : Result (Unit {0}) → Response
  added (ok done) = record { status = 201; body = fields (("status", "created") ∷ []) }
  added (err e) = http_error (add_location_code e) (message e)

  abbrev pub located : Result Location → Response
  located (ok loc) = encoded (location loc)
  located (err e) = http_error (get_location_code e) (message e)

  abbrev pub found_nearby : Result (List Location) → Response
  found_nearby (ok locations) = encoded (nearby (count locations) locations)
  found_nearby (err e) = http_error (find_nearby_code e) (message e)

module _ ⦃R : Redis⦄ ⦃F : Float⦄ ⦃G : GeoIndex R F⦄ ⦃W : Web⦄ (gs : GeoService) where
  open R use {Db}

  abbrev pub add_decoded : Option Location → Serving Db
  add_decoded none = respond (http_error 400 "Invalid request")
  add_decoded (some loc) = answer (add_location gs loc) added

  unfoldable pub handle_add_location : Request → Serving Db
  handle_add_location r = only "POST" r (add_decoded (W.decode_location r.body))

  unfoldable pub handle_get_location : Request → Serving Db
  handle_get_location r =
      let id = r.query "id" in
      only "GET" r (
        if id == ""
        then respond (http_error 400 "Missing id parameter")
        else answer (get_location gs id) located)

  abbrev pub nearby_decoded : Option FindNearbyRequest → Serving Db
  nearby_decoded none = respond (http_error 400 "Invalid request")
  nearby_decoded (some req) =
      answer (find_nearby gs req.longitude req.latitude req.radius_km) found_nearby

  unfoldable pub handle_find_nearby : Request → Serving Db
  handle_find_nearby r = only "POST" r (nearby_decoded (W.decode_nearby r.body))
