-- ===== src/Dispatcher/Types.antt =====
-- internal/dispatch/dispatcher.go: the dispatcher, its requests and its results.
use geo_spatial_dispatch_ser.Prelude.{
  String, Bool, true, false, Option, none, some, List, [], ◌∷◌, ◌==◌, if◌then◌else◌,
}
use geo_spatial_dispatch_ser.Result.{Error}
use geo_spatial_dispatch_ser.Float.{Float}
use geo_spatial_dispatch_ser.Lock.{LockManager}
use geo_spatial_dispatch_ser.Driver.{DriverService}
use geo_spatial_dispatch_ser.Geo.{GeoService, Location}
use geo_spatial_dispatch_ser.Lifecycle.Types.{
  LifecycleManager, LifecycleConfig, Assignment, AssignmentStatus, en_route, new_lifecycle_manager,
}

module _ ⦃F : Float⦄ where
  open F use {Float64, constant}

  -- `error_text` is the field `Error`.
  pub record DispatchResult : Type 0 where
    pub success : Bool
    pub driver_id : String
    pub request_id : String
    pub distance : Float64
    pub status : AssignmentStatus
    pub error_text : String
    pub cause : Option Error

  pub record DispatchRequest : Type 0 where
    pub request_id : String
    pub rider_id : String
    pub longitude : Float64
    pub latitude : Float64
    pub pickup_longitude : Option Float64
    pub pickup_latitude : Option Float64
    pub radius_km : Float64

  pub record Dispatcher : Type 0 where
    pub geo_service : GeoService
    pub driver_service : DriverService
    pub lock_manager : LockManager
    pub lifecycle : LifecycleManager

  unfoldable pub new_dispatcher :
      GeoService → DriverService → LockManager → List LifecycleConfig → Dispatcher
  new_dispatcher geo_service driver_service lock_manager configs = record {
    geo_service = geo_service;
    driver_service = driver_service;
    lock_manager = lock_manager;
    lifecycle = new_lifecycle_manager lock_manager (elim configs [
      | [] ↦ record {
        assignment_prefix = "";
        rider_active_prefix = "";
        driver_active_prefix = "";
        driver_status_prefix = "";
        assignment_ttl = 0;
        driver_status_ttl = 0;
        arrival_threshold_km = constant 0 0;
      }
      | config ∷ others ↦ config
    ]);
  }

  -- A result that says only why there is no driver.
  abbrev pub failed : String → String → Option Error → DispatchResult
  failed request_id error_text cause = record {
    success = false;
    driver_id = "";
    request_id = request_id;
    distance = constant 0 0;
    status = "";
    error_text = error_text;
    cause = cause;
  }

  abbrev pub assigned : DispatchRequest → Location → AssignmentStatus → DispatchResult
  assigned req loc status = record {
    success = true;
    driver_id = loc.id;
    request_id = req.request_id;
    distance = loc.distance_km;
    status = status;
    error_text = "";
    cause = none;
  }

  -- The pickup point: the given one if both coordinates are given, else the request's position.
  abbrev pub pickup_of : DispatchRequest → Option Float64 → Option Float64 → Float64 × Float64
  pickup_of req (some lon) (some lat) = (lon, lat)
  pickup_of req lon lat = (req.longitude, req.latitude)

  unfoldable pub new_assignment : DispatchRequest → String → Assignment
  new_assignment req driver_id =
      let (lon, lat) = pickup_of req req.pickup_longitude req.pickup_latitude in
      record {
        request_id = req.request_id;
        rider_id = req.rider_id;
        driver_id = driver_id;
        pickup_longitude = lon;
        pickup_latitude = lat;
        status = en_route;
      }

  -- The defaults at the top of `FindAndAssign`; `fresh` is `uuid.New().String()`.
  unfoldable pub with_defaults : String → DispatchRequest → DispatchRequest
  with_defaults fresh req = record req {
    request_id = if req.request_id == "" then fresh else req.request_id;
    radius_km = if F.eq req.radius_km (constant 0 0) then constant 5 0 else req.radius_km;
  }
