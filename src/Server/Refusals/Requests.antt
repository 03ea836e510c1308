-- ===== src/Server/Refusals/Requests.antt =====
-- A request that is answered with 400 or 405 has changed nothing, on any path.
use geo_spatial_dispatch_ser.Prelude.{
  String, ◌==◌, ◌≡◌, arith, refl, ap, Bool, true, false, Option, none, some, Bool-cases, inl, inr,
}
use geo_spatial_dispatch_ser.Result.{Result, ok, err}
use geo_spatial_dispatch_ser.Redis.{Redis}
use geo_spatial_dispatch_ser.Float.{Float}
use geo_spatial_dispatch_ser.Client.{call, reading}
use geo_spatial_dispatch_ser.Geo.{GeoIndex}
use geo_spatial_dispatch_ser.Dispatcher.Types.{Dispatcher}
use geo_spatial_dispatch_ser.Dispatcher.Rides.{cancel_assignment, arrive_assignment}
use geo_spatial_dispatch_ser.Ratelimiter.Numbers.{ScriptNumbers}
use geo_spatial_dispatch_ser.Realtime.Clients.{ClientType}
use geo_spatial_dispatch_ser.Realtime.Systems.{System}
use geo_spatial_dispatch_ser.Server.Http.{Request, Response, Web, Serving}
use geo_spatial_dispatch_ser.Server.Dispatching.{
  handle_dispatch_request, handle_dispatch_cancel, handle_dispatch_arrive, handle_dispatch_stats,
  handle_driver_status, handle_driver_location,
}
use geo_spatial_dispatch_ser.Server.Positions.{
  handle_add_location, handle_get_location, handle_find_nearby,
}
use geo_spatial_dispatch_ser.Server.Limits.{
  handle_rate_limit_check, handle_set_budget, handle_get_budget,
}
use geo_spatial_dispatch_ser.Server.Demo.{handle_demo, handle_demo_reset}
use geo_spatial_dispatch_ser.Server.Sockets.{
  upgraded, open_socket, handle_driver_web_socket, handle_rider_web_socket, handle_web_socket_stats,
}
use geo_spatial_dispatch_ser.Server.Routes.{
  Route, demo, demo_reset, health, ping, check_limit, set_budget, get_location, add_location,
  find_nearby, dispatch_request, dispatch_cancel, dispatch_arrive, dispatch_stats, driver_status,
  driver_location, driver_socket, rider_socket, socket_stats, Moment, handle, serve_http, routes,
  match_route, pinged, handle_ping, handle_health_check, on_database,
}
use geo_spatial_dispatch_ser.Server.Refusals.{is_refusal, Refusing, respond-Refusing}
use geo_spatial_dispatch_ser.Server.Refusals.Responses.{fine-Refusing}
use geo_spatial_dispatch_ser.Server.Refusals.Handlers.{
  handle_dispatch_request-Refusing, handle_dispatch_lifecycle-Refusing,
  handle_driver_status-Refusing, handle_driver_location-Refusing, handle_dispatch_stats-Refusing,
  handle_demo_reset-Refusing, handle_demo-Refusing,
}
use geo_spatial_dispatch_ser.Server.Refusals.Services.{
  handle_add_location-Refusing, handle_get_location-Refusing, handle_find_nearby-Refusing,
  handle_rate_limit_check-Refusing, handle_set_budget-Refusing, handle_get_budget-Refusing,
}

pinged-fine : ⦃F : Float⦄ (o : Result String) → is_refusal (pinged o).status ≡ false
pinged-fine (ok pong) = refl
pinged-fine (err e) = refl

module _ ⦃F : Float⦄ {D : Type 0} where
  database-refuses :
      (h : Serving D) (t : System D)
      → Refusing h
      → is_refusal (on_database h t).0.status ≡ true
      → (on_database h t).1 ≡ t
  database-refuses h t c p = ap (λ w. record t { world = w }) (c.untouched t.world p)

  upgraded-refuses :
      ⦃W : Web⦄ (pick : Bool) (id : String) (kind : ClientType) (o : Option Response) (t : System D)
      → is_refusal (upgraded pick id kind o t).0.status ≡ true
      → (upgraded pick id kind o t).1 ≡ t
  upgraded-refuses pick id kind (some refused) t p = refl
  upgraded-refuses pick id kind none t p = absurd (cc p)

  socket-refuses :
      ⦃W : Web⦄ (pick : Bool) (id missing : String) (kind : ClientType) (r : Request) (t : System D)
      → is_refusal (open_socket pick id missing kind r t).0.status ≡ true
      → (open_socket pick id missing kind r t).1 ≡ t
  socket-refuses pick id missing kind r t p = elim (Bool-cases (id == "")) [
    | inl blank ↦ rw blank refl
    | inr named ↦ rw named (upgraded-refuses pick id kind _ t (rw named at p))
  ]

  health-Refusing : (r : Request) → Refusing {D = D} (handle_health_check r)
  unfolding handle_health_check
  health-Refusing r = respond-Refusing _

  ping-Refusing : (r : Request) → Refusing {D = D} (handle_ping r)
  unfolding handle_ping
  ping-Refusing r = fine-Refusing (call (reading (λ d. "PONG"))) pinged pinged-fine

module _ ⦃R : Redis⦄ ⦃F : Float⦄ ⦃G : GeoIndex R F⦄ ⦃N : ScriptNumbers⦄ ⦃W : Web⦄ (s : Dispatcher)
    (now : Moment) where
  open R use {Db}

  cancel-Refusing : (r : Request) → Refusing (handle_dispatch_cancel s r)
  unfolding handle_dispatch_cancel
  cancel-Refusing r = handle_dispatch_lifecycle-Refusing s r (cancel_assignment s)

  arrive-Refusing : (r : Request) → Refusing (handle_dispatch_arrive s r)
  unfolding handle_dispatch_arrive
  arrive-Refusing r = handle_dispatch_lifecycle-Refusing s r (arrive_assignment s)

  handle-refuses :
      (route : Route) (r : Request) (t : System Db)
      → is_refusal (handle s now route r t).0.status ≡ true
      → (handle s now route r t).1 ≡ t
  unfolding handle_driver_web_socket handle_rider_web_socket handle_web_socket_stats
  handle-refuses demo r t p = database-refuses (handle_demo r) t (handle_demo-Refusing r) p
  handle-refuses demo_reset r t p =
      database-refuses (handle_demo_reset s r) t (handle_demo_reset-Refusing s r) p
  handle-refuses health r t p = database-refuses (handle_health_check r) t (health-Refusing r) p
  handle-refuses ping r t p = database-refuses (handle_ping r) t (ping-Refusing r) p
  handle-refuses check_limit r t p =
      database-refuses (handle_rate_limit_check r) t (handle_rate_limit_check-Refusing r) p
  handle-refuses set_budget r t p =
      database-refuses (handle_set_budget r) t (handle_set_budget-Refusing r) p
  handle-refuses Route.get_budget r t p =
      database-refuses (handle_get_budget r) t (handle_get_budget-Refusing r) p
  handle-refuses add_location r t p =
      database-refuses (handle_add_location s.geo_service r) t
        (handle_add_location-Refusing s.geo_service r) p
  handle-refuses get_location r t p =
      database-refuses (handle_get_location s.geo_service r) t
        (handle_get_location-Refusing s.geo_service r) p
  handle-refuses find_nearby r t p =
      database-refuses (handle_find_nearby s.geo_service r) t
        (handle_find_nearby-Refusing s.geo_service r) p
  handle-refuses dispatch_request r t p =
      database-refuses (handle_dispatch_request s now.fresh r) t
        (handle_dispatch_request-Refusing s now.fresh r) p
  handle-refuses dispatch_cancel r t p =
      database-refuses (handle_dispatch_cancel s r) t (cancel-Refusing r) p
  handle-refuses dispatch_arrive r t p =
      database-refuses (handle_dispatch_arrive s r) t (arrive-Refusing r) p
  handle-refuses dispatch_stats r t p =
      database-refuses (handle_dispatch_stats s now.fuel r) t
        (handle_dispatch_stats-Refusing s now.fuel r) p
  handle-refuses driver_status r t p =
      database-refuses (handle_driver_status s r) t (handle_driver_status-Refusing s r) p
  handle-refuses driver_location r t p =
      database-refuses (handle_driver_location s r) t (handle_driver_location-Refusing s r) p
  handle-refuses driver_socket r t p = socket-refuses _ _ _ _ r t p
  handle-refuses rider_socket r t p = socket-refuses _ _ _ _ r t p
  handle-refuses socket_stats r t p = ground arith

  -- A request that is answered with 400 or 405 leaves the whole state as it was: the database, the turns of
  -- the other clients that are to come, and the hub with its connections. This holds on every path,
  -- whatever the body, and however the calls of the handler would end.
  pub serve_http-refuses :
      (r : Request) (t : System Db)
      → is_refusal (serve_http s now r t).0.status ≡ true
      → (serve_http s now r t).1 ≡ t
  unfolding serve_http
  serve_http-refuses r t p = handle-refuses (match_route r.path routes) r t p
