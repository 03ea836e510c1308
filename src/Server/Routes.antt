-- ===== src/Server/Routes.antt =====
-- cmd/server/main.go: the routes and the environment. http.ServeMux matches a path that does not end
-- in "/" exactly, and "/" matches what no other pattern does; paths are taken as cleaned.
use geo_spatial_dispatch_ser.Prelude.{ℕ, String, ◌==◌, concat, Bool, List, [], ◌∷◌, if◌then◌else◌}
use geo_spatial_dispatch_ser.Result.{Result, ok, err, message}
use geo_spatial_dispatch_ser.Redis.{Redis}
use geo_spatial_dispatch_ser.Float.{Float}
use geo_spatial_dispatch_ser.Client.{call, reading}
use geo_spatial_dispatch_ser.Geo.{GeoIndex}
use geo_spatial_dispatch_ser.Dispatcher.Types.{Dispatcher}
use geo_spatial_dispatch_ser.Ratelimiter.Numbers.{ScriptNumbers}
use geo_spatial_dispatch_ser.Realtime.Systems.{System}
use geo_spatial_dispatch_ser.Server.Http.{
  Request, Response, text, Web, Serving, answer, http_error, encoded,
}
use geo_spatial_dispatch_ser.Server.Dispatching.{
  handle_dispatch_request, handle_dispatch_cancel, handle_dispatch_arrive, handle_dispatch_stats,
  handle_driver_status, handle_driver_location,
}
use geo_spatial_dispatch_ser.Server.Positions.{
  handle_add_location, handle_get_location, handle_find_nearby,
}
use geo_spatial_dispatch_ser.Server.Limits.{
  handle_rate_limit_check, handle_set_budget, handle_get_budget,
}
use geo_spatial_dispatch_ser.Server.Demo.{handle_demo, handle_demo_reset}
use geo_spatial_dispatch_ser.Server.Sockets.{
  handle_driver_web_socket, handle_rider_web_socket, handle_web_socket_stats,
}

pub data Route : Type 0 where
  demo demo_reset health ping check_limit set_budget get_budget add_location get_location : Route
  find_nearby dispatch_request dispatch_cancel dispatch_arrive dispatch_stats driver_status : Route
  driver_location driver_socket rider_socket socket_stats : Route

abbrev pub routes : List (String × Route)
routes =
    ("/demo/reset", demo_reset)
    ∷ ("/health", health)
    ∷ ("/ping", ping)
    ∷ ("/ratelimit/check", check_limit)
    ∷ ("/ratelimit/budget/set", set_budget)
    ∷ ("/ratelimit/budget/get", get_budget)
    ∷ ("/geo/add", add_location)
    ∷ ("/geo/get", get_location)
    ∷ ("/geo/nearby", find_nearby)
    ∷ ("/dispatch/request", dispatch_request)
    ∷ ("/dispatch/cancel", dispatch_cancel)
    ∷ ("/dispatch/arrive", dispatch_arrive)
    ∷ ("/dispatch/stats", dispatch_stats)
    ∷ ("/driver/status", driver_status)
    ∷ ("/driver/location", driver_location)
    ∷ ("/ws/driver", driver_socket)
    ∷ ("/ws/rider", rider_socket)
    ∷ ("/ws/stats", socket_stats)
    ∷ []

unfoldable pub match_route : String → List (String × Route) → Route
match_route path [] = demo
match_route path ((pattern, route) ∷ rest) =
    let later = match_route path rest in if pattern == path then route else later

-- What a request gets from outside: the choice of a select, a new uuid, and the fuel of a scan.
pub record Moment : Type 0 where
  pub pick : Bool
  pub fresh : String
  pub fuel : ℕ

module _ ⦃F : Float⦄ where
  -- internal/server/server.go: `HandleHealthCheck` and `HandlePing`, with the texts that they write.
  unfoldable pub handle_health_check : {D : Type 0} → Request → Serving D
  handle_health_check r w = (encoded (text "OK"), w)

  abbrev pub pinged : Result String → Response
  pinged (ok pong) = encoded (text (concat (concat "{\"Redis\":\"" pong) "\"}"))
  pinged (err e) = http_error 500 (message e)

  unfoldable pub handle_ping : {D : Type 0} → Request → Serving D
  handle_ping r = answer (call (reading (λ d. "PONG"))) pinged

  -- A handler that works on the database alone.
  abbrev pub on_database : {D : Type 0} → Serving D → System D → Response × System D
  on_database handler s = let (response, w) = handler s.world in (response, record s { world = w })

module _ ⦃R : Redis⦄ ⦃F : Float⦄ ⦃G : GeoIndex R F⦄ ⦃N : ScriptNumbers⦄ ⦃W : Web⦄ (s : Dispatcher)
    (now : Moment) where
  open R use {Db}

  abbrev pub handle : Route → Request → System Db → Response × System Db
  handle demo r = on_database (handle_demo r)
  handle demo_reset r = on_database (handle_demo_reset s r)
  handle health r = on_database (handle_health_check r)
  handle ping r = on_database (handle_ping r)
  handle check_limit r = on_database (handle_rate_limit_check r)
  handle set_budget r = on_database (handle_set_budget r)
  handle get_budget r = on_database (handle_get_budget r)
  handle add_location r = on_database (handle_add_location s.geo_service r)
  handle get_location r = on_database (handle_get_location s.geo_service r)
  handle find_nearby r = on_database (handle_find_nearby s.geo_service r)
  handle dispatch_request r = on_database (handle_dispatch_request s now.fresh r)
  handle dispatch_cancel r = on_database (handle_dispatch_cancel s r)
  handle dispatch_arrive r = on_database (handle_dispatch_arrive s r)
  handle dispatch_stats r = on_database (handle_dispatch_stats s now.fuel r)
  handle driver_status r = on_database (handle_driver_status s r)
  handle driver_location r = on_database (handle_driver_location s r)
  handle driver_socket r = handle_driver_web_socket now.pick r
  handle rider_socket r = handle_rider_web_socket now.pick r
  handle socket_stats r = handle_web_socket_stats r

  -- One request of `newHTTPMux`.
  unfoldable pub serve_http : Request → System Db → Response × System Db
  serve_http r = handle (match_route r.path routes) r

module _ (getenv : String → String) where
  unfoldable pub env_or_default : String → String → String
  env_or_default key fallback = if getenv key == "" then fallback else getenv key

  unfoldable pub http_addr_from_env : String
  http_addr_from_env =
      if getenv "HTTP_ADDR" == ""
      then (if getenv "PORT" == "" then ":8080" else concat ":" (getenv "PORT"))
      else getenv "HTTP_ADDR"
