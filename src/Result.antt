-- ===== src/Result.antt =====
-- Go's `error` values of internal/dispatch, internal/driver, internal/geospatial,
-- internal/ratelimiter and internal/realtime, and results that carry one.
use geo_spatial_dispatch_ser.Prelude.{String}

-- `redis` is an error of the connection, `invalid_field` a wrapped `strconv` error with its label.
-- `not_connected` is an error that realtime makes in place.
pub data Error : Type 0 where
  redis invalid_field unexpected_result : String → Error
  no_drivers_available lock_failed lock_not_held lock_expired : Error
  active_assignment assignment_not_found assignment_state_conflict request_already_exists : Error
  driver_ownership_conflict driver_too_far id_required : Error
  driver_not_found invalid_status status_conflict driver_offline : Error
  insufficient_budget invalid_amount invalid_key : Error
  client_buffer_full hub_closed : Error
  not_connected : String → Error
  invalid_coordinates invalid_location_id invalid_radius location_not_found : Error

-- `err.Error()`
unfoldable pub message : Error → String
message (redis text) = text
message (invalid_field text) = text
message (unexpected_result text) = text
message no_drivers_available = "no drivers available"
message lock_failed = "failed to acquire lock"
message lock_not_held = "lock not held"
message lock_expired = "lock expired"
message active_assignment = "rider already has an active assignment"
message assignment_not_found = "assignment not found"
message assignment_state_conflict = "assignment state conflict"
message request_already_exists = "request already exists"
message driver_ownership_conflict = "driver is owned by another request"
message driver_too_far = "driver is too far from pickup"
message id_required = "id is required"
message driver_not_found = "driver not found"
message invalid_status = "invalid status"
message status_conflict = "status conflict"
message driver_offline = "driver is offline"
message client_buffer_full = "client send buffer full"
message hub_closed = "hub is closed"
message (not_connected text) = text
message insufficient_budget = "insufficient budget"
message invalid_amount = "invalid amount"
message invalid_key = "invalid key"
message invalid_coordinates = "invalid coordinates"
message invalid_location_id = "invalid location id"
message invalid_radius = "invalid radius"
message location_not_found = "location not found"

pub data Result {ℓ} (A : Type ℓ) : Type ℓ where
  ok : A → Result A
  err : Error → Result A
