-- ===== src/Server/Refusals/Handlers.antt =====
-- internal/server/dispatch_handlers.go, demo_handler.go: these handlers change nothing when they answer
-- 400 or 405.
use geo_spatial_dispatch_ser.Prelude.{
  ℕ, String, ◌==◌, refl, true, not, Option, none, some, trim_space,
}
use geo_spatial_dispatch_ser.Redis.{Redis}
use geo_spatial_dispatch_ser.Float.{Float}
use geo_spatial_dispatch_ser.Client.{Io}
use geo_spatial_dispatch_ser.Geo.{GeoIndex}
use geo_spatial_dispatch_ser.Driver.{get_status, set_status}
use geo_spatial_dispatch_ser.Dispatcher.Search.{find_and_assign}
use geo_spatial_dispatch_ser.Dispatcher.Rides.{update_driver_location, get_stats}
use geo_spatial_dispatch_ser.Lifecycle.Types.{Assignment}
use geo_spatial_dispatch_ser.Dispatcher.Types.{Dispatcher}
use geo_spatial_dispatch_ser.Server.Http.{
  Request, Web, DispatchRequestDto, DispatchLifecycleDto, DriverStatusDto, DriverLocationDto,
  DemoResetRequest,
}
use geo_spatial_dispatch_ser.Server.Dispatching.{
  set_status_code, update_location_code, updated, dispatched, lifecycle_response, dispatch_problem,
  to_dispatch_request, dispatch_checked, dispatch_decoded, lifecycle_decoded, set_status_decoded,
  location_decoded, status_response, stats_response, handle_dispatch_request,
  handle_dispatch_lifecycle, handle_get_driver_status, handle_set_driver_status,
  handle_driver_status, handle_driver_location, handle_dispatch_stats,
}
use geo_spatial_dispatch_ser.Server.Demo.{
  demo_response, flag_or, demo_claim, demo_decoded, handle_demo, handle_demo_reset,
}
use geo_spatial_dispatch_ser.Server.Refusals.{
  is_refusal, Refusing, respond-Refusing, if-Refusing, answer-Refusing,
}
use geo_spatial_dispatch_ser.Server.Refusals.Operations.{set_status-Refuses, update-Refuses}
use geo_spatial_dispatch_ser.Server.Refusals.Responses.{
  lifecycle-fine, dispatched-fine, claim-fine, status-fine, stats-fine, only-Refusing,
  fine-Refusing, given-Refusing,
}

module _ ⦃R : Redis⦄ ⦃F : Float⦄ ⦃G : GeoIndex R F⦄ ⦃W : Web⦄ (s : Dispatcher) where
  open R use {Db}

  dispatch_checked-Refusing :
      (fresh : String) (req : DispatchRequestDto) (wrong : Option String)
      → Refusing (dispatch_checked s fresh req wrong)
  dispatch_checked-Refusing fresh req (some wrong) = respond-Refusing _
  dispatch_checked-Refusing fresh req none =
      fine-Refusing (find_and_assign s fresh (to_dispatch_request req)) dispatched dispatched-fine

  dispatch_decoded-Refusing :
      (fresh : String) (o : Option DispatchRequestDto) → Refusing (dispatch_decoded s fresh o)
  dispatch_decoded-Refusing fresh none = respond-Refusing _
  dispatch_decoded-Refusing fresh (some req) =
      dispatch_checked-Refusing fresh req (dispatch_problem req)

  pub handle_dispatch_request-Refusing :
      (fresh : String) (r : Request) → Refusing (handle_dispatch_request s fresh r)
  unfolding handle_dispatch_request
  handle_dispatch_request-Refusing fresh r =
      only-Refusing _ r _ (dispatch_decoded-Refusing fresh (W.decode_dispatch r.body))

  lifecycle_decoded-Refusing :
      (transition : String → Io Db Assignment) (o : Option DispatchLifecycleDto)
      → Refusing (lifecycle_decoded s transition o)
  lifecycle_decoded-Refusing transition none = respond-Refusing _
  lifecycle_decoded-Refusing transition (some req) =
      given-Refusing (trim_space req.request_id) _ _
        (fine-Refusing (transition (trim_space req.request_id)) lifecycle_response lifecycle-fine)

  pub handle_dispatch_lifecycle-Refusing :
      (r : Request) (transition : String → Io Db Assignment)
      → Refusing (handle_dispatch_lifecycle s r transition)
  unfolding handle_dispatch_lifecycle
  handle_dispatch_lifecycle-Refusing r transition =
      only-Refusing _ r _ (lifecycle_decoded-Refusing transition (W.decode_lifecycle r.body))

  set_status_decoded-Refusing : (o : Option DriverStatusDto) → Refusing (set_status_decoded s o)
  set_status_decoded-Refusing none = respond-Refusing _
  set_status_decoded-Refusing (some req) =
      answer-Refusing (λ e. is_refusal (set_status_code e)) (updated set_status_code) (λ a. refl)
        (λ e. refl) (set_status s.driver_service req.driver_id req.status)
        (set_status-Refuses _ (λ text. refl) s.driver_service _ _)

  pub handle_driver_status-Refusing : (r : Request) → Refusing (handle_driver_status s r)
  unfolding handle_driver_status handle_get_driver_status handle_set_driver_status
  handle_driver_status-Refusing r =
      if-Refusing (r.method == "GET") _ _
        (given-Refusing (r.query "driver_id") _ _ (
          fine-Refusing (get_status s.driver_service (r.query "driver_id"))
            (status_response (r.query "driver_id")) (status-fine _)))
        (if-Refusing (r.method == "POST") _ _
          (set_status_decoded-Refusing (W.decode_driver_status r.body)) (respond-Refusing _))

  location_decoded-Refusing : (o : Option DriverLocationDto) → Refusing (location_decoded s o)
  location_decoded-Refusing none = respond-Refusing _
  location_decoded-Refusing (some req) =
      answer-Refusing (λ e. is_refusal (update_location_code e)) (updated update_location_code)
        (λ a. refl) (λ e. refl) (update_driver_location s req.driver_id req.longitude req.latitude)
        (update-Refuses _ (λ text. refl) s _ _ _ refl)

  pub handle_driver_location-Refusing : (r : Request) → Refusing (handle_driver_location s r)
  unfolding handle_driver_location
  handle_driver_location-Refusing r =
      only-Refusing _ r _ (location_decoded-Refusing (W.decode_driver_location r.body))

  pub handle_dispatch_stats-Refusing :
      (fuel : ℕ) (r : Request) → Refusing (handle_dispatch_stats s fuel r)
  unfolding handle_dispatch_stats
  handle_dispatch_stats-Refusing fuel r =
      only-Refusing _ r _ (fine-Refusing (get_stats s fuel) stats_response stats-fine)

  demo_decoded-Refusing : (o : Option DemoResetRequest) → Refusing (demo_decoded s o)
  demo_decoded-Refusing none = respond-Refusing _
  demo_decoded-Refusing (some req) = given-Refusing (trim_space req.session_id) _ _ (
      fine-Refusing
        (demo_claim s (trim_space req.session_id) req.force (flag_or true req.clear_locks))
        demo_response claim-fine)

  pub handle_demo_reset-Refusing : (r : Request) → Refusing (handle_demo_reset s r)
  unfolding handle_demo_reset
  handle_demo_reset-Refusing r =
      only-Refusing _ r _ (demo_decoded-Refusing (W.decode_demo_reset r.body))

pub handle_demo-Refusing : ⦃F : Float⦄ {D : Type 0} (r : Request) → Refusing {D = D} (handle_demo r)
unfolding handle_demo
handle_demo-Refusing r =
    if-Refusing (not (r.path == "/")) _ _ (respond-Refusing _)
      (only-Refusing _ r _ (respond-Refusing _))
