-- ===== src/Tests/Setup.antt =====
-- The server's dispatcher over a server in memory, and databases for the runs.
use geo_spatial_dispatch_ser.Prelude.{String, none, some, List, [], ◌∷◌, pos}
use geo_spatial_dispatch_ser.Redis.Memory.{Store, Value, text, hash, put}
use geo_spatial_dispatch_ser.Float.Degrees.{degrees, whole}
use geo_spatial_dispatch_ser.Dispatcher.Types.{Dispatcher, DispatchRequest}
use geo_spatial_dispatch_ser.Lifecycle.Types.{Assignment}
use geo_spatial_dispatch_ser.Dispatcher.Wiring.{IsWired}
use geo_spatial_dispatch_ser.Server.{server_dispatcher}
use geo_spatial_dispatch_ser.Server.Wiring.{server_dispatcher-IsWired}

abbrev pub shop : Dispatcher
shop = server_dispatcher

-- A database that holds the given entries.
abbrev pub holding : List (String × Value) → Store
holding [] k = none
holding ((j, v) ∷ entries) k = put (holding entries) j (some v) k

abbrev pub empty : Store
empty = holding []

-- Two drivers on the map and online; "d1" is the nearer to longitude 10.
abbrev pub fleet : Store
fleet = holding (
    (
      "locations",
      hash (
          ("x:d2", "+11111111111111")
          ∷ ("y:d2", "+")
          ∷ ("x:d1", "+11111111111")
          ∷ ("y:d1", "+")
          ∷ []),
    )
    ∷ ("driver:status:d1", text "available")
    ∷ ("driver:status:d2", text "available")
    ∷ [])

abbrev pub request : String → String → DispatchRequest
request id rider = record {
  request_id = id;
  rider_id = rider;
  longitude = whole (pos 10);
  latitude = whole (pos 0);
  pickup_longitude = none;
  pickup_latitude = none;
  radius_km = whole (pos 5);
}

pub wired : IsWired shop
wired = server_dispatcher-IsWired

-- The nearer driver is busy.
abbrev pub half_busy : Store
half_busy = put fleet "driver:status:d1" (some (text "busy"))

abbrev pub ride : String → Assignment
ride status = record {
  request_id = "r1";
  rider_id = "rider1";
  driver_id = "d1";
  pickup_longitude = whole (pos 10);
  pickup_latitude = whole (pos 0);
  status = status;
}

-- The assignment of driver "d1" to request "r1", with a given status.
abbrev pub riding : String → Store
riding status = holding (
    (
      "dispatch:assignment:r1",
      hash (
          ("request_id", "r1")
          ∷ ("rider_id", "rider1")
          ∷ ("driver_id", "d1")
          ∷ ("pickup_longitude", "+1111111111")
          ∷ ("pickup_latitude", "+")
          ∷ ("status", status)
          ∷ []),
    )
    ∷ ("dispatch:rider-active:rider1", text "r1")
    ∷ ("dispatch:driver-active:d1", text "r1")
    ∷ ("driver:status:d1", text "busy")
    ∷ ("dispatch:lock:d1", text "r1")
    ∷ ("locations", hash (("x:d1", "+1111111111") ∷ ("y:d1", "+") ∷ []))
    ∷ [])
