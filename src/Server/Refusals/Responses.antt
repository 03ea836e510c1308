-- ===== src/Server/Refusals/Responses.antt =====
-- The responses that are never 400 or 405, and handlers that check a request first.
use geo_spatial_dispatch_ser.Prelude.{
  ℕ, String, ◌==◌, ◌≡◌, refl, Bool, true, false, not, Option, none, some, ℤ, arith, if◌then◌else◌,
}
use geo_spatial_dispatch_ser.Result.{
  Error, Result, ok, err, assignment_not_found, assignment_state_conflict,
  driver_ownership_conflict, driver_too_far, location_not_found,
}
use geo_spatial_dispatch_ser.Float.{Float}
use geo_spatial_dispatch_ser.Client.{Io}
use geo_spatial_dispatch_ser.Lifecycle.Types.{Assignment}
use geo_spatial_dispatch_ser.Dispatcher.Types.{DispatchResult}
use geo_spatial_dispatch_ser.Server.Http.{
  Request, Response, Serving, respond, answer, only, http_error, not_allowed,
}
use geo_spatial_dispatch_ser.Server.Dispatching.{
  dispatched, dispatch_status, lifecycle_response, lifecycle_status, status_response,
  stats_response,
}
use geo_spatial_dispatch_ser.Server.Demo.{demo_response}
use geo_spatial_dispatch_ser.Server.Refusals.{is_refusal, Refusing, respond-Refusing, if-Refusing}

-- The responses that are never 400 or 405.
module _ ⦃F : Float⦄ where
  lifecycle-code : (e : Error) → is_refusal (lifecycle_status e) ≡ false
  lifecycle-code assignment_not_found = refl
  lifecycle-code assignment_state_conflict = refl
  lifecycle-code driver_ownership_conflict = refl
  lifecycle-code driver_too_far = refl
  lifecycle-code location_not_found = refl
  lifecycle-code e = refl

  pub lifecycle-fine : (o : Result Assignment) → is_refusal (lifecycle_response o).status ≡ false
  lifecycle-fine (ok a) = refl
  lifecycle-fine (err e) = lifecycle-code e

  pub dispatched-fine : (o : Result DispatchResult) → is_refusal (dispatched o).status ≡ false
  unfolding dispatch_status
  dispatched-fine (ok r) = ground arith
  dispatched-fine (err e) = refl

  pub claim-fine : (o : Result (Bool × String × ℤ)) → is_refusal (demo_response o).status ≡ false
  claim-fine (ok (true, owner, cleared)) = refl
  claim-fine (ok (false, owner, cleared)) = refl
  claim-fine (err e) = refl

  pub status-fine :
      (id : String) (o : Result String) → is_refusal (status_response id o).status ≡ false
  status-fine id (ok status) = refl
  status-fine id (err e) = refl

  pub stats-fine : (o : Result (Option (ℕ × ℕ))) → is_refusal (stats_response o).status ≡ false
  stats-fine (ok none) = refl
  stats-fine (ok (some stats)) = refl
  stats-fine (err e) = refl

  module _ {D : Type 0} where
    pub only-Refusing :
        (method : String) (r : Request) (h : Serving D) → Refusing h → Refusing (only method r h)
    only-Refusing method r h p =
        if-Refusing (not (r.method == method)) _ _ (respond-Refusing not_allowed) p

    pub fine-Refusing :
        {A : Type 0} (m : Io D A) (f : Result A → Response)
        → ((o : Result A) → is_refusal (f o).status ≡ false)
        → Refusing (answer m f)
    fine-Refusing m f fine = record { untouched = λ w e. absurd (cc (fine (m w).0, e)) }

    -- A missing parameter, or a call.
    pub given-Refusing :
        (given missing : String) (h : Serving D)
        → Refusing h
        → Refusing (if given == "" then respond (http_error 400 missing) else h)
    given-Refusing given missing h p = if-Refusing (given == "") _ _ (respond-Refusing _) p
