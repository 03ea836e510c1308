-- ===== src/Server/Http.antt =====
-- internal/server: requests, responses and what the handlers share. The HTTP library, the decoding of
-- JSON and the WebSocket upgrade are parameters; a body is given as the value that is encoded.
use geo_spatial_dispatch_ser.Prelude.{
  ℕ, String, ◌≢◌, Bool, false, Option, none, List, ◌==◌, not, ℤ, if◌then◌else◌,
}
use geo_spatial_dispatch_ser.Result.{Result}
use geo_spatial_dispatch_ser.Float.{Float}
use geo_spatial_dispatch_ser.Client.{World, Io}
use geo_spatial_dispatch_ser.Geo.{Location}
use geo_spatial_dispatch_ser.Lifecycle.Types.{Assignment}
use geo_spatial_dispatch_ser.Dispatcher.Types.{DispatchResult}
use geo_spatial_dispatch_ser.Realtime.Systems.{HubStats}

-- `query` is r.URL.Query().Get, which gives "" for a parameter that is missing.
pub record Request : Type 0 where
  pub method : String
  pub path : String
  pub host : String
  pub origin : String
  pub query : String → String
  pub body : String

pub record DispatchLifecycleDto : Type 0 where
  pub request_id : String

pub record DriverStatusDto : Type 0 where
  pub driver_id : String
  pub status : String

pub record RateLimitRequest : Type 0 where
  pub key : String
  pub cost : ℤ

-- `clear_locks` is a pointer.
pub record DemoResetRequest : Type 0 where
  pub session_id : String
  pub force : Bool
  pub clear_locks : Option Bool

module _ ⦃F : Float⦄ where
  open F use {Float64}

  pub record DispatchRequestDto : Type 0 where
    pub request_id : String
    pub rider_id : String
    pub longitude : Float64
    pub latitude : Float64
    pub pickup_longitude : Option Float64
    pub pickup_latitude : Option Float64
    pub radius_km : Float64

  pub record DriverLocationDto : Type 0 where
    pub driver_id : String
    pub longitude : Float64
    pub latitude : Float64

  pub record FindNearbyRequest : Type 0 where
    pub longitude : Float64
    pub latitude : Float64
    pub radius_km : Float64

  -- A text of http.Error, the demo page, or a value that is encoded as JSON. `unfinished` stands for
  -- the answer of a SCAN loop that has run out of fuel.
  pub data Body : Type 0 where
    text : String → Body
    page unfinished : Body
    result : DispatchResult → Body
    assignment : Assignment → Body
    fields : List (String × String) → Body
    location : Location → Body
    nearby : ℕ → List Location → Body
    rate_limit : Bool → ℤ → Body
    budget : ℤ → Body
    driver_stats : ℕ × ℕ → Body
    hub_stats : HubStats → Body
    demo_reset : ℤ → String → Body

  pub record Response : Type 0 where
    pub status : ℕ
    pub body : Body

  -- What the handlers call: json.Decoder on a body, url.Parse with the host of the result,
  -- strings.EqualFold, and the upgrade of a connection after the check of its origin, which gives the
  -- library's response where it fails.
  pub record Web : Type 0 where
    pub decode_dispatch : String → Option DispatchRequestDto
    pub decode_lifecycle : String → Option DispatchLifecycleDto
    pub decode_driver_status : String → Option DriverStatusDto
    pub decode_driver_location : String → Option DriverLocationDto
    pub decode_location : String → Option Location
    pub decode_nearby : String → Option FindNearbyRequest
    pub decode_rate_limit : String → Option RateLimitRequest
    -- no unknown fields, and nothing after the value
    pub decode_demo_reset : String → Option DemoResetRequest
    pub url_host : String → Option String
    pub equal_fold : String → String → Bool
    pub upgrade : Request → Bool → Option Response
    pub upgrade-checks : (r : Request) → upgrade r false ≢ none

  -- http.Error
  abbrev pub http_error : ℕ → String → Response
  http_error status error_text = record { status = status; body = text error_text }

  abbrev pub not_allowed : Response
  not_allowed = http_error 405 "Method not allowed"

  abbrev pub encoded : Body → Response
  encoded body = record { status = 200; body = body }

module _ ⦃F : Float⦄ where
  -- A handler's run on the shared database.
  abbrev pub Serving : Type 0 → Type 0
  Serving D = World D → Response × World D

  module _ {D : Type 0} where
    -- A response without a call of the database.
    abbrev pub respond : Response → Serving D
    respond response w = (response, w)

    -- A call, and the response for each way in which it ends.
    abbrev pub answer : {A : Type 0} → Io D A → (Result A → Response) → Serving D
    answer m f w = let (r, w') = m w in (f r, w')

    abbrev pub only : String → Request → Serving D → Serving D
    only method r handler = if not (r.method == method) then respond not_allowed else handler
