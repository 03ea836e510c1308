-- ===== src/Server/Safe.antt =====
-- The requests with the method GET only read.
use geo_spatial_dispatch_ser.Prelude.{
  ℕ, zero, suc, String, ◌==◌, ◌≡◌, refl, Bool, Option, none, some, List, [], ◌∷◌, ℤ, is_blank,
  Bool-cases, inl, inr, arith, nat_eq,
}
use geo_spatial_dispatch_ser.Result.{Result}
use geo_spatial_dispatch_ser.Redis.{Redis}
use geo_spatial_dispatch_ser.Float.{Float}
use geo_spatial_dispatch_ser.Client.{quiet}
use geo_spatial_dispatch_ser.Client.Reads.{Reads, Reads-pure, Reads-raise, Reads-call, Reads-bind}
use geo_spatial_dispatch_ser.Geo.{GeoIndex}
use geo_spatial_dispatch_ser.Driver.{
  DriverService, DriverStatus, get_status, page_values, scan_statuses, get_driver_stats,
}
use geo_spatial_dispatch_ser.Dispatcher.Types.{Dispatcher}
use geo_spatial_dispatch_ser.Dispatcher.Rides.{get_stats}
use geo_spatial_dispatch_ser.Dispatcher.Endings.{get_location-Reads}
use geo_spatial_dispatch_ser.Ratelimiter.Numbers.{ScriptNumbers}
use geo_spatial_dispatch_ser.Ratelimiter.{known, budget_key, read_amount, read_budget, get_budget}
use geo_spatial_dispatch_ser.Realtime.Systems.{System}
use geo_spatial_dispatch_ser.Realtime.Hub.{register, register_client}
use geo_spatial_dispatch_ser.Realtime.Systems.{at_client}
use geo_spatial_dispatch_ser.Realtime.Clients.{ClientType}
use geo_spatial_dispatch_ser.Realtime.Running.{connect}
use geo_spatial_dispatch_ser.Server.Http.{Request, Response, Web, Serving}
use geo_spatial_dispatch_ser.Server.Dispatching.{
  handle_dispatch_request, handle_dispatch_cancel, handle_dispatch_arrive,
  handle_dispatch_lifecycle, handle_dispatch_stats, handle_driver_status, handle_get_driver_status,
  handle_driver_location,
}
use geo_spatial_dispatch_ser.Server.Positions.{
  handle_add_location, handle_get_location, handle_find_nearby,
}
use geo_spatial_dispatch_ser.Server.Limits.{
  handle_rate_limit_check, handle_set_budget, handle_get_budget,
}
use geo_spatial_dispatch_ser.Server.Demo.{handle_demo, handle_demo_reset}
use geo_spatial_dispatch_ser.Server.Sockets.{
  welcome, upgraded, open_socket, handle_driver_web_socket, handle_rider_web_socket,
  handle_web_socket_stats,
}
use geo_spatial_dispatch_ser.Server.Routes.{
  Route, demo, demo_reset, health, ping, check_limit, set_budget, get_location, add_location,
  find_nearby, dispatch_request, dispatch_cancel, dispatch_arrive, dispatch_stats, driver_status,
  driver_location, driver_socket, rider_socket, socket_stats, Moment, handle, serve_http, routes,
  match_route, handle_ping, handle_health_check, on_database,
}

module _ ⦃R : Redis⦄ where
  open R use {Db}

  get_status-Reads : (ds : DriverService) (id : String) → Reads (get_status ds id)
  unfolding get_status
  get_status-Reads ds id d = elim (Bool-cases (is_blank id)) [
    | inl blank ↦ rw blank (Reads-raise _ _ d)
    | inr named ↦ rw named (Reads-bind _ _ (Reads-call _) (λ status. Reads-pure _) d)
  ]

  page_values-Reads : (keys : List String) → Reads (page_values keys)
  page_values-Reads [] = Reads-pure _
  page_values-Reads (key ∷ keys) = Reads-call _

  scan_statuses-Reads :
      {S : Type 0} (ds : DriverService) (visit : S → String → DriverStatus → S) (fuel cursor : ℕ)
      (s : S)
      → Reads (scan_statuses ds visit fuel cursor s)
  unfolding scan_statuses
  scan_statuses-Reads ds visit zero cursor s = Reads-pure _
  scan_statuses-Reads ds visit (suc fuel) cursor s = Reads-bind _ _ (Reads-call _) (λ page.
      Reads-bind _ _ (page_values-Reads page.0) (λ values d. elim (Bool-cases (nat_eq page.1 0)) [
        | inl last ↦ rw last (Reads-pure _ d)
        | inr more ↦ rw more (scan_statuses-Reads ds visit fuel page.1 _ d)
      ]))

  get_driver_stats-Reads : (ds : DriverService) (fuel : ℕ) → Reads (get_driver_stats ds fuel)
  unfolding get_driver_stats
  get_driver_stats-Reads ds fuel = scan_statuses-Reads ds _ fuel 0 (0, 0)

  module _ ⦃N : ScriptNumbers⦄ where
    known-Reads : {A : Type 0} (r : Result A) → Reads (known {D = Db} r)
    known-Reads r d = refl

    read_amount-Reads : (value : String) (o : Option ℤ) → Reads (read_amount value o)
    read_amount-Reads value none = Reads-raise _ _
    read_amount-Reads value (some amount) = Reads-pure _

    read_budget-Reads : (o : Option String) → Reads (read_budget o)
    read_budget-Reads none = Reads-pure _
    read_budget-Reads (some value) = read_amount-Reads value _

    get_budget-Reads : (key : String) → Reads (get_budget key)
    unfolding get_budget
    get_budget-Reads key =
        Reads-bind _ _ (known-Reads (budget_key key))
          (λ k. Reads-bind _ _ (Reads-call _) read_budget-Reads)

module _ ⦃F : Float⦄ {D : Type 0} where
  -- A handler that, run alone, leaves the database as it is.
  abbrev Harmless : Serving D → Type 0
  Harmless h = (d : D) → (h (quiet d)).1 ≡ quiet d

  database-Harmless :
      (h : Serving D) (s : System D) (d : D)
      → Harmless h
      → s.world ≡ quiet d
      → (on_database h s).1.world ≡ s.world
  database-Harmless h s d p e = rw e (p d)

  welcome-world :
      (pick : Bool) (id : String) (kind : ClientType) (s : System D)
      → (welcome pick id kind s).world ≡ s.world
  unfolding welcome register register_client connect at_client
  welcome-world pick id kind s = ground arith

  upgraded-world :
      ⦃W : Web⦄ (pick : Bool) (id : String) (kind : ClientType) (o : Option Response) (s : System D)
      → (upgraded pick id kind o s).1.world ≡ s.world
  upgraded-world pick id kind (some refused) s = refl
  upgraded-world pick id kind none s = welcome-world pick id kind s

  socket-world :
      ⦃W : Web⦄ (pick : Bool) (id missing : String) (kind : ClientType) (r : Request) (s : System D)
      → (open_socket pick id missing kind r s).1.world ≡ s.world
  socket-world pick id missing kind r s = elim (Bool-cases (id == "")) [
    | inl blank ↦ rw blank refl
    | inr named ↦ rw named (upgraded-world pick id kind _ s)
  ]

module _ ⦃R : Redis⦄ ⦃F : Float⦄ ⦃G : GeoIndex R F⦄ ⦃N : ScriptNumbers⦄ ⦃W : Web⦄ (s : Dispatcher)
    (now : Moment) where
  open R use {Db}

  status-Harmless : (r : Request) → r.method ≡ "GET" → Harmless (handle_driver_status s r)
  unfolding handle_driver_status handle_get_driver_status
  status-Harmless r get d = rw get (elim (Bool-cases (r.query "driver_id" == "")) [
    | inl blank ↦ rw blank refl
    | inr named ↦ rw named (get_status-Reads s.driver_service (r.query "driver_id") d)
  ])

  demo-Harmless : (r : Request) → r.method ≡ "GET" → Harmless {D = Db} (handle_demo r)
  unfolding handle_demo
  demo-Harmless r get d = rw get (elim (Bool-cases (r.path == "/")) [
    | inl root ↦ rw root refl
    | inr missing ↦ rw missing refl
  ])

  budget-Harmless : (r : Request) → r.method ≡ "GET" → Harmless (handle_get_budget r)
  unfolding handle_get_budget
  budget-Harmless r get d = rw get (elim (Bool-cases (r.query "key" == "")) [
    | inl blank ↦ rw blank refl
    | inr named ↦ rw named (get_budget-Reads (r.query "key") d)
  ])

  location-Harmless :
      (r : Request) → r.method ≡ "GET" → Harmless (handle_get_location s.geo_service r)
  unfolding handle_get_location
  location-Harmless r get d = rw get (elim (Bool-cases (r.query "id" == "")) [
    | inl blank ↦ rw blank refl
    | inr named ↦ rw named (get_location-Reads s.geo_service (r.query "id") d)
  ])

  stats-Harmless : (r : Request) → r.method ≡ "GET" → Harmless (handle_dispatch_stats s now.fuel r)
  unfolding handle_dispatch_stats get_stats
  stats-Harmless r get d = rw get (get_driver_stats-Reads s.driver_service now.fuel d)

  handle-Harmless :
      (route : Route) (r : Request) (t : System Db) (d : Db)
      → r.method ≡ "GET"
      → t.world ≡ quiet d
      → (handle s now route r t).1.world ≡ t.world
  unfolding handle_demo_reset handle_health_check handle_ping handle_rate_limit_check
      handle_set_budget handle_add_location handle_find_nearby handle_dispatch_request
      handle_dispatch_cancel handle_dispatch_arrive handle_dispatch_lifecycle handle_driver_location
      handle_driver_web_socket handle_rider_web_socket handle_web_socket_stats
  handle-Harmless demo r t d get e = database-Harmless (handle_demo r) t d (demo-Harmless r get) e
  handle-Harmless demo_reset r t d get e =
      database-Harmless (handle_demo_reset s r) t d (λ d'. rw get refl) e
  handle-Harmless health r t d get e = refl
  handle-Harmless ping r t d get e =
      database-Harmless (handle_ping r) t d (Reads-call {A = String} (λ _. "PONG")) e
  handle-Harmless check_limit r t d get e =
      database-Harmless (handle_rate_limit_check r) t d (λ d'. rw get refl) e
  handle-Harmless set_budget r t d get e =
      database-Harmless (handle_set_budget r) t d (λ d'. rw get refl) e
  handle-Harmless Route.get_budget r t d get e =
      database-Harmless (handle_get_budget r) t d (budget-Harmless r get) e
  handle-Harmless add_location r t d get e =
      database-Harmless (handle_add_location s.geo_service r) t d (λ d'. rw get refl) e
  handle-Harmless get_location r t d get e =
      database-Harmless (handle_get_location s.geo_service r) t d (location-Harmless r get) e
  handle-Harmless find_nearby r t d get e =
      database-Harmless (handle_find_nearby s.geo_service r) t d (λ d'. rw get refl) e
  handle-Harmless dispatch_request r t d get e =
      database-Harmless (handle_dispatch_request s now.fresh r) t d (λ d'. rw get refl) e
  handle-Harmless dispatch_cancel r t d get e =
      database-Harmless (handle_dispatch_cancel s r) t d (λ d'. rw get refl) e
  handle-Harmless dispatch_arrive r t d get e =
      database-Harmless (handle_dispatch_arrive s r) t d (λ d'. rw get refl) e
  handle-Harmless dispatch_stats r t d get e =
      database-Harmless (handle_dispatch_stats s now.fuel r) t d (stats-Harmless r get) e
  handle-Harmless driver_status r t d get e =
      database-Harmless (handle_driver_status s r) t d (status-Harmless r get) e
  handle-Harmless driver_location r t d get e =
      database-Harmless (handle_driver_location s r) t d (λ d'. rw get refl) e
  handle-Harmless driver_socket r t d get e = socket-world _ _ _ _ r t
  handle-Harmless rider_socket r t d get e = socket-world _ _ _ _ r t
  handle-Harmless socket_stats r t d get e = ground arith

  -- A request with the method GET, served while nobody else changes the database, leaves the database as
  -- it is, on every path that the server knows and on every other one, the upgrades included.
  pub serve_http-get :
      (r : Request) (t : System Db) (d : Db)
      → r.method ≡ "GET"
      → t.world ≡ quiet d
      → (serve_http s now r t).1.world ≡ t.world
  unfolding serve_http
  serve_http-get r t d get e = handle-Harmless (match_route r.path routes) r t d get e
