-- ===== src/Tests/Requests.antt =====
-- The HTTP server and the pool of workers at concrete requests.
use geo_spatial_dispatch_ser.Prelude.{
  arith, ℕ, suc, String, ◌==◌, eq_iff, ◌≡◌, ◌≢◌, refl, true, false, none, some, List, [], ◌∷◌, pos,
  nat_eq, if◌then◌else◌, trim_space, is_space,
}
use geo_spatial_dispatch_ser.Client.{quiet, ◌>>=◌}
use geo_spatial_dispatch_ser.Redis.Memory.{Store, memory}
use geo_spatial_dispatch_ser.Geo.{add_location, validate_coordinates}
use geo_spatial_dispatch_ser.Dispatcher.Rides.{update_driver_location}
use geo_spatial_dispatch_ser.Server.Dispatching.{handle_driver_location}
use geo_spatial_dispatch_ser.Float.Degrees.{degrees, whole}
use geo_spatial_dispatch_ser.Geo.Memory.{geo_memory}
use geo_spatial_dispatch_ser.Ratelimiter.Numbers.Decimals.{decimals}
use geo_spatial_dispatch_ser.Realtime.Clients.{new_client}
use geo_spatial_dispatch_ser.Realtime.Systems.{System}
use geo_spatial_dispatch_ser.Realtime.Running.{initial}
use geo_spatial_dispatch_ser.Server.{server_hub, server_dispatcher}
use geo_spatial_dispatch_ser.Server.Wiring.{server_dispatcher-IsApart}
use geo_spatial_dispatch_ser.Server.Http.{Request, Web, http_error}
use geo_spatial_dispatch_ser.Server.Demo.{handle_demo_reset}
use geo_spatial_dispatch_ser.Server.Leases.{claimed_by, handle_demo_reset-excludes}
use geo_spatial_dispatch_ser.Server.Routes.{Route, Moment, serve_http, routes, match_route}
use geo_spatial_dispatch_ser.Server.Safe.{serve_http-get}
use geo_spatial_dispatch_ser.Server.Refusals.{is_refusal}
use geo_spatial_dispatch_ser.Server.Refusals.Requests.{serve_http-refuses}
use geo_spatial_dispatch_ser.Server.Workers.{
  Job, JobResult, Event, starting, submitting, taking, finishing, putting, receiving,
  new_worker_pool, run_pool, start,
}
use geo_spatial_dispatch_ser.Server.Conserving.{accounted, tally_jobs, run_pool-accounts}
use geo_spatial_dispatch_ser.Server.Calls.{handing_next, finishing_job, calling, run_call}
use geo_spatial_dispatch_ser.Server.Finishing.{Returns, submit_and_wait-returns}
use geo_spatial_dispatch_ser.Tests.Setup.{shop, fleet, riding}

some-ne-none : {A : Type 0} (a : A) → some a ≢ none
some-ne-none a e = cc e

-- A codec for the runs: the text of a body is the id in it.
instance abbrev web : Web
web = record {
  decode_dispatch = λ body. none;
  decode_lifecycle = λ body. some (record { request_id = body });
  decode_driver_status = λ body. some (record { driver_id = body; status = "available" });
  decode_driver_location = λ body.
      some (record { driver_id = body; longitude = whole (pos 10); latitude = whole (pos 100) });
  decode_location = λ body. none;
  decode_nearby = λ body. none;
  decode_rate_limit = λ body. none;
  decode_demo_reset =
      λ body. some (record { session_id = body; force = false; clear_locks = none });
  url_host = λ url. some url;
  equal_fold = λ s t. s == t;
  upgrade = λ r good. if good then none else some (http_error 403 "Forbidden");
  upgrade-checks = λ r. some-ne-none _;
}

abbrev asking : String → String → String → Request
asking method path body = record {
  method = method;
  path = path;
  host = "localhost";
  origin = "";
  query = λ key. "d1";
  body = body;
}

abbrev now : Moment
now = record { pick = false; fresh = "u"; fuel = 9 }

found_stats : match_route "/driver/status" routes ≡ Route.driver_status
unfolding match_route
found_stats = refl

abbrev serving : System Store
serving = initial server_hub (new_client "" "") (quiet fleet)

serving-quiet : serving.world ≡ quiet fleet
unfolding initial
serving-quiet = refl

serve_http-get_example :
    (serve_http shop now (asking "GET" "/driver/status" "") serving).1.world ≡ serving.world
serve_http-get_example =
    serve_http-get shop now (asking "GET" "/driver/status" "") serving fleet refl serving-quiet

-- A latitude of 100 degrees.
abbrev far_north : Request
far_north = asking "POST" "/driver/location" "d1"

far_north-refused : is_refusal (serve_http shop now far_north serving).0.status ≡ true
unfolding serve_http match_route handle_driver_location update_driver_location add_location
    validate_coordinates trim_space is_space ◌>>=◌
far_north-refused = refl

serve_http-refuses_example : (serve_http shop now far_north serving).1 ≡ serving
serve_http-refuses_example = serve_http-refuses shop now far_north serving far_north-refused

other_session : trim_space "ann" ≢ trim_space " bob "
unfolding trim_space is_space
other_session e = cc ((eq_iff "ann" "bob").1 e)

handle_demo_reset-excludes_example :
    let e =
      (handle_demo_reset shop
        (asking "POST" "/demo/reset" "ann")
        (quiet (riding "en_route"))).1.db in
    handle_demo_reset shop (asking "POST" "/demo/reset" " bob ") (quiet e)
    ≡ (claimed_by (trim_space "ann"), quiet e)
unfolding server_dispatcher trim_space is_space
handle_demo_reset-excludes_example =
    handle_demo_reset-excludes shop (riding "en_route") (asking "POST" "/demo/reset" "ann")
      (asking "POST" "/demo/reset" " bob ")
      (record { session_id = "ann"; force = false; clear_locks = none })
      (record { session_id = " bob "; force = false; clear_locks = none }) (omega arith)
      server_dispatcher-IsApart refl refl refl refl refl refl refl other_session refl

abbrev doubled : Job ℕ → JobResult ℕ
doubled job = record { job_id = job.id; output = suc job.payload; error_value = none }

-- One worker takes one of two jobs and delivers its result.
abbrev working : List (Event ℕ)
working =
    starting
    ∷ submitting (record { id = "a"; payload = 1 })
    ∷ submitting (record { id = "b"; payload = 2 })
    ∷ taking 0
    ∷ finishing 0
    ∷ putting 0
    ∷ receiving
    ∷ []

run_pool-accounts_example :
    let wp = run_pool doubled working (new_worker_pool 1 4) in
    accounted doubled (λ r. nat_eq r.output 2) wp
    ≡ tally_jobs doubled (λ r. nat_eq r.output 2) wp.submitted
run_pool-accounts_example = run_pool-accounts doubled (λ r. nat_eq r.output 2) 1 4 working

abbrev two_jobs : List (Job ℕ)
two_jobs = record { id = "a"; payload = 1 } ∷ record { id = "b"; payload = 2 } ∷ []

-- The only worker has done the first job, whose result nobody has taken yet.
submit_and_wait-returns_example : Returns doubled two_jobs (
    run_call doubled
      (handing_next 0 ∷ finishing_job 0 ∷ [])
      (calling two_jobs (start (new_worker_pool 1 0))))
submit_and_wait-returns_example =
    submit_and_wait-returns doubled two_jobs 0 0 (handing_next 0 ∷ finishing_job 0 ∷ [])
