-- ===== src/Dispatcher/Safety/Search.antt =====
-- internal/dispatch/dispatcher.go: `FindAndAssign` keeps the rides exclusive, in the same sense.
use geo_spatial_dispatch_ser.Prelude.{String, Bool, not, Option, none, some, List, [], ◌∷◌, ◌==◌}
use geo_spatial_dispatch_ser.Result.{Result, ok, err}
use geo_spatial_dispatch_ser.Redis.{Redis}
use geo_spatial_dispatch_ser.Float.{Float}
use geo_spatial_dispatch_ser.Client.{Io}
use geo_spatial_dispatch_ser.Client.Keeps.{Keeps, Keeps-bind, Keeps-pure, Keeps-if, Keeps-attempt}
use geo_spatial_dispatch_ser.Driver.{DriverStatus, status_available, status_of}
use geo_spatial_dispatch_ser.Driver.Frames.{get_statuses-Keeps}
use geo_spatial_dispatch_ser.Geo.{GeoIndex, Location}
use geo_spatial_dispatch_ser.Geo.Frames.{find_nearby-Keeps}
use geo_spatial_dispatch_ser.Lifecycle.Types.{Assignment}
use geo_spatial_dispatch_ser.Lifecycle.Exclusive.{Exclusive}
use geo_spatial_dispatch_ser.Lifecycle.Keeping.{active-Keeps}
use geo_spatial_dispatch_ser.Dispatcher.Types.{
  Dispatcher, DispatchRequest, DispatchResult, with_defaults,
}
use geo_spatial_dispatch_ser.Dispatcher.Search.{
  attempted, assign_nearest, with_statuses, with_nearby, search_and_assign, rider_checked,
  find_with_defaults, find_and_assign,
}
use geo_spatial_dispatch_ser.Dispatcher.Wiring.{IsWired}
use geo_spatial_dispatch_ser.Dispatcher.Safety.Assign.{try_assign_driver-Safe}

module _ ⦃R : Redis⦄ ⦃F : Float⦄ ⦃G : GeoIndex R F⦄ (s : Dispatcher) (w : IsWired s) where
  open R use {Db}
  open F use {Float64, lt}

  attempted-Safe :
      (req : DispatchRequest) (loc : Location) (next : Io Db DispatchResult) (r : Result Bool)
      → Keeps (Exclusive s.lifecycle) next
      → Keeps (Exclusive s.lifecycle) (attempted req loc next r)
  attempted-Safe req loc next (err e) k = Keeps-pure _
  attempted-Safe req loc next (ok done) k = Keeps-if done _ _ (Keeps-pure _) k

  assign_nearest-Safe :
      (req : DispatchRequest) (statuses : List (String × DriverStatus)) (nearby : List Location)
      → Keeps (Exclusive s.lifecycle) (assign_nearest s req statuses nearby)
  unfolding assign_nearest
  assign_nearest-Safe req statuses [] = Keeps-pure _
  assign_nearest-Safe req statuses (loc ∷ nearby) =
      let next = assign_nearest-Safe req statuses nearby in
      Keeps-if (not (status_of statuses loc.id == status_available)) _ _ next (
        Keeps-bind _ _ (Keeps-attempt _ (try_assign_driver-Safe s w req loc.id))
          (λ r. attempted-Safe req loc _ r next))

  with_statuses-Safe :
      (req : DispatchRequest) (nearby : List Location) (r : Result (List (String × DriverStatus)))
      → Keeps (Exclusive s.lifecycle) (with_statuses s req nearby r)
  with_statuses-Safe req nearby (err e) = Keeps-pure _
  with_statuses-Safe req nearby (ok statuses) = assign_nearest-Safe req statuses nearby

  with_nearby-Safe :
      (req : DispatchRequest) (r : Result (List Location))
      → Keeps (Exclusive s.lifecycle) (with_nearby s req r)
  with_nearby-Safe req (err e) = Keeps-pure _
  with_nearby-Safe req (ok []) = Keeps-pure _
  with_nearby-Safe req (ok (loc ∷ nearby)) =
      Keeps-bind _ _
        (Keeps-attempt _ (get_statuses-Keeps (Exclusive s.lifecycle) s.driver_service _))
        (with_statuses-Safe req (loc ∷ nearby))

  search_and_assign-Safe :
      (req : DispatchRequest) → Keeps (Exclusive s.lifecycle) (search_and_assign s req)
  unfolding search_and_assign
  search_and_assign-Safe req =
      Keeps-bind _ _
        (Keeps-attempt _ (
          find_nearby-Keeps (Exclusive s.lifecycle) s.geo_service req.longitude req.latitude
            req.radius_km))
        (with_nearby-Safe req)

  rider_checked-Safe :
      (req : DispatchRequest) (r : Result (Option Assignment))
      → Keeps (Exclusive s.lifecycle) (rider_checked s req r)
  rider_checked-Safe req (err e) = Keeps-pure _
  rider_checked-Safe req (ok (some a)) = Keeps-pure _
  rider_checked-Safe req (ok none) = search_and_assign-Safe req

  find_with_defaults-Safe :
      (req : DispatchRequest) → Keeps (Exclusive s.lifecycle) (find_with_defaults s req)
  find_with_defaults-Safe req = Keeps-if (req.rider_id == "") _ _ (search_and_assign-Safe req) (
      Keeps-bind _ _
        (Keeps-attempt _ (active-Keeps (Exclusive s.lifecycle) s.lifecycle req.rider_id))
        (rider_checked-Safe req))

  -- `FindAndAssign` keeps the rides exclusive: the active keys of the driver and the rider of every
  -- assignment that is en route name it afterwards, if they did before and whatever other clients do
  -- between the round trips keeps it so, wherever a round trip fails.
  pub find_and_assign-Safe :
      (fresh : String) (req : DispatchRequest)
      → Keeps (Exclusive s.lifecycle) (find_and_assign s fresh req)
  unfolding find_and_assign
  find_and_assign-Safe fresh req = find_with_defaults-Safe (with_defaults fresh req)
