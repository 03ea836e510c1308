-- ===== src/Lifecycle/Manager.antt =====
-- internal/dispatch/lifecycle.go: the methods of `lifecycleManager`.
use geo_spatial_dispatch_ser.Prelude.{
  zero, suc, String, Bool, true, false, not, ◌||◌, Option, none, some, List, [], ◌∷◌, ◌==◌, ℤ, pos,
  negsuc, whole_seconds, if◌then◌else◌,
}
use geo_spatial_dispatch_ser.Result.{
  Result, ok, err, active_assignment, request_already_exists, driver_ownership_conflict,
  assignment_not_found, assignment_state_conflict, unexpected_result, invalid_field,
}
use geo_spatial_dispatch_ser.Redis.{Redis, lookup}
use geo_spatial_dispatch_ser.Float.{Float}
use geo_spatial_dispatch_ser.Client.{Io, pure, raise, attempt, call, ◌>>=◌, ◌>>◌, reading}
use geo_spatial_dispatch_ser.Lock.{lock_key}
use geo_spatial_dispatch_ser.Lifecycle.Types.{
  LifecycleManager, Assignment, assignment_key, active_rider_key, driver_status_key,
  active_driver_key, en_route, arrived, cancelled,
}
use geo_spatial_dispatch_ser.Lifecycle.Scripts.{
  create_assignment_script, cancel_assignment_script, arrive_assignment_script,
  refresh_active_driver_script, clear_active_assignment_script, clear_reset_assignment_script,
}

-- `values["field"]`
abbrev pub field : String → List (String × String) → String
field name values = elim (lookup name values) [ none ↦ "" | some v ↦ v ]

module _ ⦃R : Redis⦄ ⦃F : Float⦄ where
  open R use {Db, get, hgetall}
  open F use {Float64, format, parse}

  unfoldable pub driver_owner : LifecycleManager → String → Io Db String
  driver_owner m driver_id = do
    request_id ← call (reading (λ d. get d (active_driver_key m driver_id)))
    pure (elim request_id [ none ↦ "" | some r ↦ r ])

  abbrev pub refreshed : ℤ → Bool
  refreshed (pos (suc zero)) = true
  refreshed _ = false

  -- The command of `refreshActiveDriver`.
  abbrev pub refresh_command : LifecycleManager → String → Db → ℤ × Db
  refresh_command m driver_id =
      refresh_active_driver_script (active_driver_key m driver_id) (driver_status_key m driver_id)
        m.assignment_prefix driver_id (whole_seconds m.driver_status_ttl)

  unfoldable pub refresh_active_driver : LifecycleManager → String → Io Db Bool
  refresh_active_driver m driver_id = do
    result ← call (refresh_command m driver_id)
    pure (refreshed result)

  -- The command of `create`.
  abbrev pub create_command : LifecycleManager → Assignment → Db → ℤ × Db
  create_command m a =
      create_assignment_script (assignment_key m a.request_id) (active_rider_key m a.rider_id)
        (active_driver_key m a.driver_id) m.assignment_prefix a.request_id a.rider_id a.driver_id
        (format a.pickup_longitude) (format a.pickup_latitude) (whole_seconds m.assignment_ttl)

  abbrev pub created : ℤ → Io Db Unit
  created (pos (suc zero)) = pure tt
  created (pos zero) = raise active_assignment
  created (negsuc zero) = raise request_already_exists
  created (negsuc (suc zero)) = raise driver_ownership_conflict
  created _ = raise (unexpected_result "unexpected assignment create result")

  unfoldable pub create : LifecycleManager → Assignment → Io Db Unit
  create m assignment = do result ← call (create_command m assignment); created result

  abbrev pub parsed : String → Option Float64 → Io Db Float64
  parsed label none = raise (invalid_field label)
  parsed label (some x) = pure x

  abbrev pub read_assignment : List (String × String) → Io Db Assignment
  read_assignment values = do
    lon ← parsed "invalid assignment pickup longitude" (parse (field "pickup_longitude" values))
    lat ← parsed "invalid assignment pickup latitude" (parse (field "pickup_latitude" values))
    pure (record {
      request_id = field "request_id" values;
      rider_id = field "rider_id" values;
      driver_id = field "driver_id" values;
      pickup_longitude = lon;
      pickup_latitude = lat;
      status = field "status" values;
    })

  abbrev pub found : List (String × String) → Io Db Assignment
  found [] = raise assignment_not_found
  found (v ∷ values) = read_assignment (v ∷ values)

  unfoldable pub get_assignment : LifecycleManager → String → Io Db Assignment
  get_assignment m request_id = do
    values ← call (reading (λ d. hgetall d (assignment_key m request_id)))
    found values

  abbrev pub has_active_status : Assignment → Bool
  has_active_status a = a.status == en_route || a.status == arrived

  -- What `active` makes of the outcome of `get`.
  abbrev pub active_result : Result Assignment → Io Db (Option Assignment)
  active_result (err assignment_not_found) = pure none
  active_result (err e) = raise e
  active_result (ok a) = if has_active_status a then pure (some a) else pure none

  abbrev pub active_request : LifecycleManager → Option String → Io Db (Option Assignment)
  active_request m none = pure none
  active_request m (some request_id) = do
    outcome ← attempt (get_assignment m request_id)
    active_result outcome

  unfoldable pub active : LifecycleManager → String → Io Db (Option Assignment)
  active m rider_id = do
    request_id ← call (reading (λ d. get d (active_rider_key m rider_id)))
    active_request m request_id

  -- The command of `cancel`, for the assignment that was read.
  abbrev pub cancel_command : LifecycleManager → String → Assignment → Db → ℤ × Db
  cancel_command m request_id a =
      cancel_assignment_script (assignment_key m request_id) (driver_status_key m a.driver_id)
        (lock_key m.lock_manager a.driver_id) (active_rider_key m a.rider_id)
        (active_driver_key m a.driver_id) request_id a.driver_id a.rider_id
        (whole_seconds m.driver_status_ttl) (whole_seconds m.assignment_ttl)

  abbrev pub was_cancelled : Assignment → ℤ → Io Db Assignment
  was_cancelled a (pos (suc zero)) = pure (record a { status = cancelled })
  was_cancelled a (pos zero) = raise assignment_state_conflict
  was_cancelled a (negsuc zero) = raise assignment_not_found
  was_cancelled a (negsuc (suc zero)) = raise assignment_state_conflict
  was_cancelled a (negsuc (suc (suc zero))) = raise driver_ownership_conflict
  was_cancelled a (negsuc (suc (suc (suc zero)))) = raise driver_ownership_conflict
  was_cancelled a _ = raise (unexpected_result "assignment changed while cancelling")

  unfoldable pub cancel : LifecycleManager → String → Io Db Assignment
  cancel m request_id = do
    a ← get_assignment m request_id
    if not (a.status == en_route)
        then raise assignment_state_conflict
        else (do result ← call (cancel_command m request_id a); was_cancelled a result)

  -- The command of `arrive`.
  abbrev pub arrive_command : LifecycleManager → Assignment → Db → ℤ × Db
  arrive_command m a =
      arrive_assignment_script (assignment_key m a.request_id) (active_rider_key m a.rider_id)
        (active_driver_key m a.driver_id) (driver_status_key m a.driver_id) a.request_id
        (whole_seconds m.assignment_ttl) (whole_seconds m.driver_status_ttl)

  abbrev pub has_arrived : Assignment → ℤ → Io Db Assignment
  has_arrived a (pos (suc zero)) = pure (record a { status = arrived })
  has_arrived a (pos zero) = raise assignment_state_conflict
  has_arrived a (negsuc zero) = raise assignment_not_found
  has_arrived a (negsuc (suc zero)) = raise assignment_state_conflict
  has_arrived a _ = raise (unexpected_result "unexpected assignment arrival result")

  unfoldable pub arrive : LifecycleManager → Assignment → Io Db Assignment
  arrive m a = do result ← call (arrive_command m a); has_arrived a result

  unfoldable pub clear_active : LifecycleManager → String → String → Io Db Unit
  clear_active m rider_id request_id = do
    call (clear_active_assignment_script (active_rider_key m rider_id) request_id)
    pure tt

  abbrev pub clear_reset : LifecycleManager → String → String → Assignment → Io Db Unit
  clear_reset m rider_id request_id a = do
    call (
        clear_reset_assignment_script (active_rider_key m rider_id)
          (active_driver_key m a.driver_id) request_id)
    pure tt

  -- After a cancellation that was tried: only a state conflict goes on to clear the keys.
  abbrev pub after_cancel :
      LifecycleManager → String → String → Assignment → Result Assignment → Io Db Unit
  after_cancel m rider_id request_id a (ok done) = pure tt
  after_cancel m rider_id request_id a (err assignment_state_conflict) =
      clear_reset m rider_id request_id a
  after_cancel m rider_id request_id a (err e) = raise e

  abbrev pub reset_found : LifecycleManager → String → String → Result Assignment → Io Db Unit
  reset_found m rider_id request_id (err assignment_not_found) = clear_active m rider_id request_id
  reset_found m rider_id request_id (err e) = raise e
  reset_found m rider_id request_id (ok a) =
      if a.status == en_route
      then (do
        outcome ← attempt (cancel m request_id)
        after_cancel m rider_id request_id a outcome)
      else clear_reset m rider_id request_id a

  abbrev pub reset_request : LifecycleManager → String → Option String → Io Db Unit
  reset_request m rider_id none = pure tt
  reset_request m rider_id (some request_id) = do
    outcome ← attempt (get_assignment m request_id)
    reset_found m rider_id request_id outcome

  unfoldable pub reset_rider : LifecycleManager → String → Io Db Unit
  reset_rider m rider_id = do
    request_id ← call (reading (λ d. get d (active_rider_key m rider_id)))
    reset_request m rider_id request_id
