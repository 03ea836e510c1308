-- ===== src/Server/Refusals/Services.antt =====
-- internal/server/geo_handlers.go, ratelimit_handlers.go: these handlers change nothing when they answer
-- 400 or 405.
use geo_spatial_dispatch_ser.Prelude.{String, refl, Option, none, some, ℤ}
use geo_spatial_dispatch_ser.Redis.{Redis}
use geo_spatial_dispatch_ser.Float.{Float}
use geo_spatial_dispatch_ser.Geo.{
  GeoIndex, GeoService, Location, add_location, get_location, find_nearby,
}
use geo_spatial_dispatch_ser.Ratelimiter.{allow_atomic, set_budget, get_budget}
use geo_spatial_dispatch_ser.Ratelimiter.Numbers.{ScriptNumbers}
use geo_spatial_dispatch_ser.Server.Http.{Request, Web, RateLimitRequest, FindNearbyRequest}
use geo_spatial_dispatch_ser.Server.Positions.{
  add_location_code, get_location_code, find_nearby_code, added, located, found_nearby, add_decoded,
  nearby_decoded, handle_add_location, handle_get_location, handle_find_nearby,
}
use geo_spatial_dispatch_ser.Server.Limits.{
  budget_code, get_budget_code, checked, budget_set, budget_got, check_decoded, set_parsed,
  handle_rate_limit_check, handle_set_budget, handle_get_budget,
}
use geo_spatial_dispatch_ser.Server.Refusals.{
  is_refusal, Refusing, respond-Refusing, answer-Refusing,
}
use geo_spatial_dispatch_ser.Server.Refusals.Operations.{
  add_location-Refuses, get_location-Refuses, find_nearby-Refuses,
}
use geo_spatial_dispatch_ser.Server.Refusals.Budgets.{
  set_budget-Refuses, get_budget-Refuses, allow_atomic-Refuses,
}
use geo_spatial_dispatch_ser.Server.Refusals.Responses.{only-Refusing, given-Refusing}

module _ ⦃R : Redis⦄ ⦃F : Float⦄ ⦃G : GeoIndex R F⦄ ⦃W : Web⦄ (gs : GeoService) where
  add_decoded-Refusing : (o : Option Location) → Refusing (add_decoded gs o)
  add_decoded-Refusing none = respond-Refusing _
  add_decoded-Refusing (some loc) =
      answer-Refusing (λ e. is_refusal (add_location_code e)) added (λ a. refl) (λ e. refl)
        (add_location gs loc) (add_location-Refuses _ (λ text. refl) gs loc)

  pub handle_add_location-Refusing : (r : Request) → Refusing (handle_add_location gs r)
  unfolding handle_add_location
  handle_add_location-Refusing r =
      only-Refusing _ r _ (add_decoded-Refusing (W.decode_location r.body))

  pub handle_get_location-Refusing : (r : Request) → Refusing (handle_get_location gs r)
  unfolding handle_get_location
  handle_get_location-Refusing r = only-Refusing _ r _ (
      given-Refusing (r.query "id") _ _ (
        answer-Refusing (λ e. is_refusal (get_location_code e)) located (λ a. refl) (λ e. refl)
          (get_location gs (r.query "id")) (get_location-Refuses _ (λ text. refl) gs _ refl)))

  nearby_decoded-Refusing : (o : Option FindNearbyRequest) → Refusing (nearby_decoded gs o)
  nearby_decoded-Refusing none = respond-Refusing _
  nearby_decoded-Refusing (some req) =
      answer-Refusing (λ e. is_refusal (find_nearby_code e)) found_nearby (λ a. refl) (λ e. refl)
        (find_nearby gs req.longitude req.latitude req.radius_km)
        (find_nearby-Refuses _ (λ text. refl) gs _ _ _)

  pub handle_find_nearby-Refusing : (r : Request) → Refusing (handle_find_nearby gs r)
  unfolding handle_find_nearby
  handle_find_nearby-Refusing r =
      only-Refusing _ r _ (nearby_decoded-Refusing (W.decode_nearby r.body))

module _ ⦃R : Redis⦄ ⦃F : Float⦄ ⦃N : ScriptNumbers⦄ where
  check_decoded-Refusing : (o : Option RateLimitRequest) → Refusing (check_decoded o)
  check_decoded-Refusing none = respond-Refusing _
  check_decoded-Refusing (some req) =
      answer-Refusing (λ e. is_refusal (budget_code e)) checked (λ a. refl) (λ e. refl)
        (allow_atomic req.key req.cost) (allow_atomic-Refuses _ (λ text. refl) _ _)

  pub handle_rate_limit_check-Refusing :
      ⦃W : Web⦄ (r : Request) → Refusing (handle_rate_limit_check r)
  unfolding handle_rate_limit_check
  handle_rate_limit_check-Refusing ⦃W⦄ r =
      only-Refusing _ r _ (check_decoded-Refusing (W.decode_rate_limit r.body))

  set_parsed-Refusing : (key : String) (o : Option ℤ) → Refusing (set_parsed key o)
  set_parsed-Refusing key none = respond-Refusing _
  set_parsed-Refusing key (some amount) =
      answer-Refusing (λ e. is_refusal (budget_code e)) budget_set (λ a. refl) (λ e. refl)
        (set_budget key amount) (set_budget-Refuses _ (λ text. refl) _ _)

  pub handle_set_budget-Refusing : (r : Request) → Refusing (handle_set_budget r)
  unfolding handle_set_budget
  handle_set_budget-Refusing r =
      only-Refusing _ r _ (set_parsed-Refusing _ (N.parse_int (r.query "amount")))

  pub handle_get_budget-Refusing : (r : Request) → Refusing (handle_get_budget r)
  unfolding handle_get_budget
  handle_get_budget-Refusing r = only-Refusing _ r _ (
      given-Refusing (r.query "key") _ _ (
        answer-Refusing (λ e. is_refusal (get_budget_code e)) budget_got (λ a. refl) (λ e. refl)
          (get_budget (r.query "key")) (get_budget-Refuses _ (λ text. refl) _ (λ text. refl))))
