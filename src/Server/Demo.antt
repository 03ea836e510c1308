-- ===== src/Server/Demo.antt =====
-- internal/server/demo_handler.go: the demo page, and the lease that one browser session holds.
use geo_spatial_dispatch_ser.Prelude.{
  ℕ, ◌*◌, suc, zero, String, ◌==◌, concat, Bool, true, false, not, ◌&&◌, Option, none, some, List,
  [], ◌∷◌, map, ℤ, pos, trim_space, if◌then◌else◌,
}
use geo_spatial_dispatch_ser.Result.{Result, ok, err, message, unexpected_result}
use geo_spatial_dispatch_ser.Redis.{Redis}
use geo_spatial_dispatch_ser.Float.{Float}
use geo_spatial_dispatch_ser.Client.{Io, pure, call, ◌>>=◌, ◌>>◌}
use geo_spatial_dispatch_ser.Geo.{GeoIndex, lift}
use geo_spatial_dispatch_ser.Lifecycle.Scripts.{is_other}
use geo_spatial_dispatch_ser.Dispatcher.Types.{Dispatcher}
use geo_spatial_dispatch_ser.Dispatcher.Rides.{reset_rider_assignment}
use geo_spatial_dispatch_ser.Server.Http.{
  Request, Response, page, fields, demo_reset, Web, DemoResetRequest, Serving, respond, answer,
  only, http_error, encoded,
}

abbrev pub demo_driver_ids : List String
demo_driver_ids =
    "demo-driver-01" ∷ "demo-driver-02" ∷ "demo-driver-03" ∷ "demo-driver-04" ∷ "demo-driver-05"
    ∷ "demo-driver-06" ∷ "demo-driver-07" ∷ "demo-driver-08" ∷ []

abbrev pub demo_rider_ids : List String
demo_rider_ids = "demo-rider-01" ∷ "demo-rider-02" ∷ "demo-rider-03" ∷ []

abbrev pub demo_session_lease_key : String
demo_session_lease_key = "demo:session:lease"

-- 15 minutes, in milliseconds.
abbrev pub demo_session_lease_ttl : ℕ
demo_session_lease_ttl = 15 * 60 * 1000

-- The keys of the locks of the demo's drivers.
abbrev pub demo_lock_keys : List String
demo_lock_keys = map (concat "dispatch:lock:") demo_driver_ids

-- A reply of the server as go-redis gives it: an array of integers and texts, or something else with
-- the name of its Go type.
pub data Value : Type 0 where
  integer : ℤ → Value
  bulk : String → Value

pub data Reply : Type 0 where
  array : List Value → Reply
  other : String → Reply

abbrev pub type_name : Value → String
type_name (integer n) = "int64"
type_name (bulk s) = "string"

abbrev pub parsed_claim : Value → Value → Value → Result (Bool × String × ℤ)
parsed_claim (integer (pos (suc zero))) (bulk owner) (integer cleared) = ok (true, owner, cleared)
parsed_claim (integer n) (bulk owner) (integer cleared) = ok (false, owner, cleared)
parsed_claim (bulk s) owner cleared =
    err (unexpected_result (concat "unexpected demo reset claim result: " "string"))
parsed_claim (integer n) (integer k) cleared =
    err (unexpected_result (concat "unexpected demo reset owner result: " "int64"))
parsed_claim (integer n) (bulk owner) (bulk s) =
    err (unexpected_result (concat "unexpected demo reset cleared result: " "string"))

unfoldable pub parse_demo_reset_result : Reply → Result (Bool × String × ℤ)
parse_demo_reset_result (array (claimed ∷ owner ∷ cleared ∷ [])) =
    parsed_claim claimed owner cleared
parse_demo_reset_result (array values) =
    err (unexpected_result "unexpected demo reset result: []interface {}")
parse_demo_reset_result (other name) =
    err (unexpected_result (concat "unexpected demo reset result: " name))

module _ ⦃R : Redis⦄ where
  open R use {Db, get, set_ex, del, exists}

  -- The loop over the lock keys; `cleared` counts those that were there.
  unfoldable pub clear_locks : List String → ℕ → Db → ℕ × Db
  clear_locks [] cleared d = (cleared, d)
  clear_locks (key ∷ keys) cleared d =
      clear_locks keys (if exists d key then suc cleared else cleared) (del d key)

  -- The owner in the answer where the lease is refused.
  abbrev pub owner_of : Option String → String
  owner_of none = ""
  owner_of (some owner) = owner

  -- Times to live of the model are in nanoseconds; the script's are in milliseconds.
  unfoldable pub demo_reset_lease_script :
      String → List String → String → ℕ → Bool → Bool → Db → Reply × Db
  demo_reset_lease_script lease_key lock_keys requested ttl_ms force clear d =
      if is_other (get d lease_key) requested && not force
      then (array (integer (pos 0) ∷ bulk (owner_of (get d lease_key)) ∷ integer (pos 0) ∷ []), d)
      else (let leased = set_ex d lease_key requested (ttl_ms * 1000000) in
          let (cleared, d') = if clear then clear_locks lock_keys 0 leased else (0, leased) in
          (array (integer (pos 1) ∷ bulk requested ∷ integer (pos cleared) ∷ []), d'))

module _ ⦃F : Float⦄ where
  abbrev pub demo_response : Result (Bool × String × ℤ) → Response
  demo_response (ok (true, owner, cleared)) = encoded (demo_reset cleared owner)
  demo_response (ok (false, owner, cleared)) = record {
    status = 409;
    body = fields (("error", "demo session already claimed") ∷ ("owner_session_id", owner) ∷ []);
  }
  demo_response (err e) = http_error 500 (message e)

  -- `HandleDemo`; the page is an asset.
  unfoldable pub handle_demo : {D : Type 0} → Request → Serving D
  handle_demo r =
      if not (r.path == "/")
      then respond (http_error 404 "404 page not found")
      else only "GET" r (respond (encoded page))

abbrev pub flag_or : Bool → Option Bool → Bool
flag_or fallback none = fallback
flag_or fallback (some flag) = flag

module _ ⦃R : Redis⦄ ⦃F : Float⦄ ⦃G : GeoIndex R F⦄ (s : Dispatcher) where
  open R use {Db}

  unfoldable pub reset_each : List String → Io Db Unit
  reset_each [] = pure tt
  reset_each (rider ∷ riders) = reset_rider_assignment s rider >> reset_each riders

  -- From the script on.
  unfoldable pub demo_claim : String → Bool → Bool → Io Db (Bool × String × ℤ)
  demo_claim session force clear = do
    reply ← call (
        demo_reset_lease_script demo_session_lease_key demo_lock_keys session demo_session_lease_ttl
          force clear)
    claim ← lift (parse_demo_reset_result reply)
    if claim.0 && clear then reset_each demo_rider_ids else pure tt
    pure claim

  abbrev pub demo_decoded : Option DemoResetRequest → Serving Db
  demo_decoded none = respond (http_error 400 "invalid demo reset payload")
  demo_decoded (some req) =
      let session = trim_space req.session_id in
      if session == ""
      then respond (http_error 400 "session_id is required")
      else answer (demo_claim session req.force (flag_or true req.clear_locks)) demo_response

  unfoldable pub handle_demo_reset : ⦃W : Web⦄ → Request → Serving Db
  handle_demo_reset ⦃W⦄ r = only "POST" r (demo_decoded (W.decode_demo_reset r.body))
