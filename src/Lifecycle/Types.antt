-- ===== src/Lifecycle/Types.antt =====
-- internal/dispatch/lifecycle.go: assignments, the configuration with its defaults, and the keys.
use geo_spatial_dispatch_ser.Prelude.{
  ℕ, ◌*◌, String, ◌==◌, nat_eq, join_key, second, if◌then◌else◌, is_blank,
}
use geo_spatial_dispatch_ser.Result.{Result, ok, err, id_required}
use geo_spatial_dispatch_ser.Float.{Float}
use geo_spatial_dispatch_ser.Lock.{LockManager}
use geo_spatial_dispatch_ser.Geo.{validate_coordinates}

-- Go's `type AssignmentStatus string`
abbrev pub AssignmentStatus : Type 0
AssignmentStatus = String

abbrev pub en_route : AssignmentStatus
en_route = "en_route"

abbrev pub arrived : AssignmentStatus
arrived = "arrived"

abbrev pub cancelled : AssignmentStatus
cancelled = "cancelled"

module _ ⦃F : Float⦄ where
  open F use {Float64, constant, le, is_nan, is_inf, add, sub, mul, div, pi, sin, cos, sqrt, atan2}

  pub record LifecycleConfig : Type 0 where
    pub assignment_prefix : String
    pub rider_active_prefix : String
    pub driver_active_prefix : String
    pub driver_status_prefix : String
    pub assignment_ttl : ℕ
    pub driver_status_ttl : ℕ
    pub arrival_threshold_km : Float64

  pub record Assignment : Type 0 where
    pub request_id : String
    pub rider_id : String
    pub driver_id : String
    pub pickup_longitude : Float64
    pub pickup_latitude : Float64
    pub status : AssignmentStatus

  pub record LifecycleManager : Type 0 where
    pub lock_manager : LockManager
    pub assignment_prefix : String
    pub rider_active_prefix : String
    pub driver_active_prefix : String
    pub driver_status_prefix : String
    pub assignment_ttl : ℕ
    pub driver_status_ttl : ℕ
    pub arrival_threshold_km : Float64

  abbrev pub or_default : String → String → String
  or_default value default = if value == "" then default else value

  abbrev pub or_default_ttl : ℕ → ℕ → ℕ
  or_default_ttl value default = if nat_eq value 0 then default else value

  -- Durations are never negative in the model, so `<= 0` is `== 0`.
  unfoldable pub new_lifecycle_manager : LockManager → LifecycleConfig → LifecycleManager
  new_lifecycle_manager lock_manager config = record {
    lock_manager = lock_manager;
    assignment_prefix = or_default config.assignment_prefix "dispatch:assignment";
    rider_active_prefix = or_default config.rider_active_prefix "dispatch:rider-active";
    driver_active_prefix = or_default config.driver_active_prefix "dispatch:driver-active";
    driver_status_prefix = or_default config.driver_status_prefix "driver:status";
    assignment_ttl = or_default_ttl config.assignment_ttl (24 * 3600 * second);
    driver_status_ttl = or_default_ttl config.driver_status_ttl (30 * second);
    arrival_threshold_km =
        if le config.arrival_threshold_km (constant 0 0)
        then constant 5 2
        else config.arrival_threshold_km;
  }

  abbrev pub assignment_key : LifecycleManager → String → String
  assignment_key m request_id = join_key m.assignment_prefix request_id

  abbrev pub active_rider_key : LifecycleManager → String → String
  active_rider_key m rider_id = join_key m.rider_active_prefix rider_id

  abbrev pub driver_status_key : LifecycleManager → String → String
  driver_status_key m driver_id = join_key m.driver_status_prefix driver_id

  abbrev pub active_driver_key : LifecycleManager → String → String
  active_driver_key m driver_id = join_key m.driver_active_prefix driver_id

  unfoldable pub distance_km : Float64 → Float64 → Float64 → Float64 → Float64
  distance_km lon1 lat1 lon2 lat2 =
      let two = constant 2 0 in
      let earth_radius_km = constant 63710088 4 in
      let to_radians = λ (degrees : Float64). div (mul degrees pi) (constant 180 0) in
      let lat1_rad = to_radians lat1 in
      let lat2_rad = to_radians lat2 in
      let d_lat = sub lat2_rad lat1_rad in
      let d_lon = to_radians (sub lon2 lon1) in
      let a = add (mul (sin (div d_lat two)) (sin (div d_lat two))) (
        mul (mul (mul (cos lat1_rad) (cos lat2_rad)) (sin (div d_lon two)))
          (sin (div d_lon two))) in
      mul (mul earth_radius_km two) (atan2 (sqrt a) (sqrt (sub (constant 1 0) a)))

  unfoldable pub validate_pickup : Assignment → Result (Unit {0})
  validate_pickup assignment =
      validate_coordinates assignment.pickup_longitude assignment.pickup_latitude

unfoldable pub validate_lifecycle_id : String → Result (Unit {0})
validate_lifecycle_id value = if is_blank value then err id_required else ok tt
