-- ===== src/Server/Dispatching.antt =====
-- internal/server/dispatch_handlers.go
use geo_spatial_dispatch_ser.Prelude.{
  ℕ, String, ◌==◌, Bool, true, false, Option, none, some, [], ◌∷◌, trim_space, if◌then◌else◌,
}
use geo_spatial_dispatch_ser.Result.{
  Error, Result, ok, err, message, active_assignment, request_already_exists, no_drivers_available,
  assignment_not_found, assignment_state_conflict, driver_ownership_conflict, driver_too_far,
  location_not_found, invalid_radius, invalid_status, driver_not_found, invalid_coordinates,
  invalid_location_id,
}
use geo_spatial_dispatch_ser.Redis.{Redis, or_else}
use geo_spatial_dispatch_ser.Float.{Float}
use geo_spatial_dispatch_ser.Client.{Io}
use geo_spatial_dispatch_ser.Geo.{GeoIndex, validate_coordinates}
use geo_spatial_dispatch_ser.Driver.{DriverStatus, get_status, set_status}
use geo_spatial_dispatch_ser.Lifecycle.Types.{Assignment}
use geo_spatial_dispatch_ser.Dispatcher.Types.{Dispatcher, DispatchRequest, DispatchResult}
use geo_spatial_dispatch_ser.Dispatcher.Search.{find_and_assign}
use geo_spatial_dispatch_ser.Dispatcher.Rides.{
  cancel_assignment, arrive_assignment, update_driver_location, get_stats,
}
use geo_spatial_dispatch_ser.Server.Http.{
  Request, Response, result, assignment, fields, driver_stats, unfinished, Web, DispatchRequestDto,
  DispatchLifecycleDto, DriverStatusDto, DriverLocationDto, Serving, respond, answer, only,
  http_error, not_allowed, encoded,
}

-- The text of a failed check.
abbrev pub problem : Result (Unit {0}) → Option String
problem (ok done) = none
problem (err e) = some (message e)

abbrev pub is_given : {A : Type 0} → Option A → Bool
is_given none = false
is_given (some a) = true

-- The status for an error of a lifecycle operation.
abbrev pub lifecycle_status : Error → ℕ
lifecycle_status assignment_not_found = 404
lifecycle_status assignment_state_conflict = 409
lifecycle_status driver_ownership_conflict = 409
lifecycle_status driver_too_far = 409
lifecycle_status location_not_found = 409
lifecycle_status e = 500

abbrev pub set_status_code : Error → ℕ
set_status_code invalid_status = 400
set_status_code driver_not_found = 400
set_status_code e = 500

abbrev pub update_location_code : Error → ℕ
update_location_code invalid_coordinates = 400
update_location_code invalid_location_id = 400
update_location_code driver_not_found = 400
update_location_code e = 500

abbrev pub is_conflict : Option Error → Bool
is_conflict (some active_assignment) = true
is_conflict (some request_already_exists) = true
is_conflict cause = false

module _ ⦃F : Float⦄ where
  open F use {Float64, lt, constant}

  abbrev pub pickup_problem : Option Float64 → Option Float64 → Option String
  pickup_problem none none = none
  pickup_problem (some lon) (some lat) = problem (validate_coordinates lon lat)
  pickup_problem lon lat = some "pickup_longitude and pickup_latitude must be provided together"

  -- The first check of the request that fails.
  unfoldable pub dispatch_problem : DispatchRequestDto → Option String
  dispatch_problem req = or_else (problem (validate_coordinates req.longitude req.latitude)) (
      or_else (pickup_problem req.pickup_longitude req.pickup_latitude)
        (if lt req.radius_km (constant 0 0) then some (message invalid_radius) else none))

  abbrev pub to_dispatch_request : DispatchRequestDto → DispatchRequest
  to_dispatch_request req = record {
    request_id = trim_space req.request_id;
    rider_id = trim_space req.rider_id;
    longitude = req.longitude;
    latitude = req.latitude;
    pickup_longitude = req.pickup_longitude;
    pickup_latitude = req.pickup_latitude;
    radius_km = req.radius_km;
  }

  unfoldable pub dispatch_status : DispatchResult → ℕ
  dispatch_status r =
      if r.success
      then 200
      else if is_conflict r.cause
      then 409
      else if r.error_text == message no_drivers_available
      then 404
      else 500

  -- `FindAndAssign` has a result in every case: see `find_and_assign-answers`.
  abbrev pub dispatched : Result DispatchResult → Response
  dispatched (ok r) = record { status = dispatch_status r; body = result r }
  dispatched (err e) = http_error 500 (message e)

  abbrev pub lifecycle_response : Result Assignment → Response
  lifecycle_response (ok a) = encoded (assignment a)
  lifecycle_response (err e) = http_error (lifecycle_status e) (message e)

  abbrev pub status_response : String → Result DriverStatus → Response
  status_response driver_id (ok status) =
      encoded (fields (("driver_id", driver_id) ∷ ("status", status) ∷ []))
  status_response driver_id (err e) = http_error 500 (message e)

  -- The response to an update, with the status for each error.
  abbrev pub updated : (Error → ℕ) → Result (Unit {0}) → Response
  updated code (ok done) = encoded (fields (("status", "updated") ∷ []))
  updated code (err e) = http_error (code e) (message e)

  abbrev pub stats_response : Result (Option (ℕ × ℕ)) → Response
  stats_response (ok (some stats)) = encoded (driver_stats stats)
  stats_response (ok none) = encoded unfinished
  stats_response (err e) = http_error 500 (message e)

module _ ⦃R : Redis⦄ ⦃F : Float⦄ ⦃G : GeoIndex R F⦄ ⦃W : Web⦄ (s : Dispatcher) where
  open R use {Db}

  abbrev pub dispatch_checked : String → DispatchRequestDto → Option String → Serving Db
  dispatch_checked fresh req (some wrong) = respond (http_error 400 wrong)
  dispatch_checked fresh req none =
      answer (find_and_assign s fresh (to_dispatch_request req)) dispatched

  abbrev pub dispatch_decoded : String → Option DispatchRequestDto → Serving Db
  dispatch_decoded fresh none = respond (http_error 400 "Invalid request")
  dispatch_decoded fresh (some req) = dispatch_checked fresh req (dispatch_problem req)

  unfoldable pub handle_dispatch_request : String → Request → Serving Db
  handle_dispatch_request fresh r =
      only "POST" r (dispatch_decoded fresh (W.decode_dispatch r.body))

  abbrev pub lifecycle_decoded :
      (String → Io Db Assignment) → Option DispatchLifecycleDto → Serving Db
  lifecycle_decoded transition none = respond (http_error 400 "Invalid request")
  lifecycle_decoded transition (some req) =
      let request_id = trim_space req.request_id in
      if request_id == ""
      then respond (http_error 400 "request_id is required")
      else answer (transition request_id) lifecycle_response

  unfoldable pub handle_dispatch_lifecycle : Request → (String → Io Db Assignment) → Serving Db
  handle_dispatch_lifecycle r transition =
      only "POST" r (lifecycle_decoded transition (W.decode_lifecycle r.body))

  unfoldable pub handle_dispatch_cancel : Request → Serving Db
  handle_dispatch_cancel r = handle_dispatch_lifecycle r (cancel_assignment s)

  unfoldable pub handle_dispatch_arrive : Request → Serving Db
  handle_dispatch_arrive r = handle_dispatch_lifecycle r (arrive_assignment s)

  unfoldable pub handle_get_driver_status : Request → Serving Db
  handle_get_driver_status r =
      let driver_id = r.query "driver_id" in
      if driver_id == ""
      then respond (http_error 400 "Missing driver_id")
      else answer (get_status s.driver_service driver_id) (status_response driver_id)

  abbrev pub set_status_decoded : Option DriverStatusDto → Serving Db
  set_status_decoded none = respond (http_error 400 "Invalid request")
  set_status_decoded (some req) =
      answer (set_status s.driver_service req.driver_id req.status) (updated set_status_code)

  unfoldable pub handle_set_driver_status : Request → Serving Db
  handle_set_driver_status r = set_status_decoded (W.decode_driver_status r.body)

  unfoldable pub handle_driver_status : Request → Serving Db
  handle_driver_status r =
      if r.method == "GET"
      then handle_get_driver_status r
      else if r.method == "POST"
      then handle_set_driver_status r
      else respond not_allowed

  abbrev pub location_decoded : Option DriverLocationDto → Serving Db
  location_decoded none = respond (http_error 400 "Invalid request")
  location_decoded (some req) =
      answer (update_driver_location s req.driver_id req.longitude req.latitude)
        (updated update_location_code)

  unfoldable pub handle_driver_location : Request → Serving Db
  handle_driver_location r = only "POST" r (location_decoded (W.decode_driver_location r.body))

  -- `fuel` bounds the pages of the scan.
  unfoldable pub handle_dispatch_stats : ℕ → Request → Serving Db
  handle_dispatch_stats fuel r = only "GET" r (answer (get_stats s fuel) stats_response)
