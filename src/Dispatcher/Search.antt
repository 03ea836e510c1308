-- ===== src/Dispatcher/Search.antt =====
-- internal/dispatch/dispatcher.go: `FindAndAssign`.
use geo_spatial_dispatch_ser.Prelude.{
  String, Bool, not, Option, none, some, List, [], ◌∷◌, map, ◌==◌, if◌then◌else◌,
}
use geo_spatial_dispatch_ser.Result.{
  Result, ok, err, message, active_assignment, no_drivers_available,
}
use geo_spatial_dispatch_ser.Redis.{Redis}
use geo_spatial_dispatch_ser.Float.{Float}
use geo_spatial_dispatch_ser.Client.{Io, pure, attempt, ◌>>=◌}
use geo_spatial_dispatch_ser.Driver.{DriverStatus, status_available, status_of, get_statuses}
use geo_spatial_dispatch_ser.Geo.{GeoIndex, Location, find_nearby}
use geo_spatial_dispatch_ser.Lifecycle.Types.{Assignment, AssignmentStatus, en_route}
use geo_spatial_dispatch_ser.Lifecycle.Manager.{active}
use geo_spatial_dispatch_ser.Dispatcher.Types.{
  Dispatcher, DispatchRequest, DispatchResult, failed, assigned, with_defaults,
}
use geo_spatial_dispatch_ser.Dispatcher.Assign.{try_assign_driver}

module _ ⦃R : Redis⦄ ⦃F : Float⦄ ⦃G : GeoIndex R F⦄ where
  open R use {Db}

  -- The status in the result: en_route only where an assignment was recorded.
  abbrev pub result_status : DispatchRequest → AssignmentStatus
  result_status req = if req.rider_id == "" then "" else en_route

  abbrev pub attempted :
      DispatchRequest → Location → Io Db DispatchResult → Result Bool → Io Db DispatchResult
  attempted req loc next (err e) = pure (failed req.request_id (message e) (some e))
  attempted req loc next (ok done) =
      if done then pure (assigned req loc (result_status req)) else next

  -- The loop of `FindAndAssign` over the nearby drivers, nearest first.
  unfoldable pub assign_nearest :
      Dispatcher
      → DispatchRequest
      → List (String × DriverStatus)
      → List Location
      → Io Db DispatchResult
  assign_nearest s req statuses [] =
      pure (failed req.request_id (message no_drivers_available) none)
  assign_nearest s req statuses (loc ∷ nearby) =
      let next = assign_nearest s req statuses nearby in
      if not (status_of statuses loc.id == status_available)
      then next
      else (do outcome ← attempt (try_assign_driver s req loc.id); attempted req loc next outcome)

  abbrev pub with_statuses :
      Dispatcher
      → DispatchRequest
      → List Location
      → Result (List (String × DriverStatus))
      → Io Db DispatchResult
  with_statuses s req nearby (err e) = pure (failed req.request_id (message e) none)
  with_statuses s req nearby (ok statuses) = assign_nearest s req statuses nearby

  abbrev pub with_nearby :
      Dispatcher → DispatchRequest → Result (List Location) → Io Db DispatchResult
  with_nearby s req (err e) = pure (failed req.request_id (message e) none)
  with_nearby s req (ok []) = pure (failed req.request_id (message no_drivers_available) none)
  with_nearby s req (ok (loc ∷ nearby)) = do
    statuses ← attempt (get_statuses s.driver_service (map (λ l. l.id) (loc ∷ nearby)))
    with_statuses s req (loc ∷ nearby) statuses

  -- From the search for drivers on.
  unfoldable pub search_and_assign : Dispatcher → DispatchRequest → Io Db DispatchResult
  search_and_assign s req = do
    nearby ← attempt (find_nearby s.geo_service req.longitude req.latitude req.radius_km)
    with_nearby s req nearby

  abbrev pub rider_checked :
      Dispatcher → DispatchRequest → Result (Option Assignment) → Io Db DispatchResult
  rider_checked s req (err e) = pure (failed req.request_id (message e) (some e))
  rider_checked s req (ok (some a)) =
      pure (failed req.request_id (message active_assignment) (some active_assignment))
  rider_checked s req (ok none) = search_and_assign s req

  abbrev pub find_with_defaults : Dispatcher → DispatchRequest → Io Db DispatchResult
  find_with_defaults s req =
      if req.rider_id == ""
      then search_and_assign s req
      else (do current ← attempt (active s.lifecycle req.rider_id); rider_checked s req current)

  unfoldable pub find_and_assign : Dispatcher → String → DispatchRequest → Io Db DispatchResult
  find_and_assign s fresh req = find_with_defaults s (with_defaults fresh req)
