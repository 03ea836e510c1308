-- ===== src/Lifecycle/Keeping.antt =====
-- internal/dispatch/lifecycle.go: the methods keep the rides exclusive, whatever happens between
-- their calls. `resetRider` is not among them, since it takes active keys away.
use geo_spatial_dispatch_ser.Prelude.{
  zero, suc, String, not, Option, none, some, List, [], ◌∷◌, ◌==◌, ℤ, pos, negsuc,
}
use geo_spatial_dispatch_ser.Result.{
  Result, ok, err, assignment_not_found, assignment_state_conflict,
}
use geo_spatial_dispatch_ser.Redis.{Redis}
use geo_spatial_dispatch_ser.Float.{Float}
use geo_spatial_dispatch_ser.Client.Keeps.{
  Keeps, Keeps-call, Keeps-bind, Keeps-pure, Keeps-raise, Keeps-if, Keeps-attempt,
}
use geo_spatial_dispatch_ser.Lifecycle.Types.{LifecycleManager, Assignment, en_route}
use geo_spatial_dispatch_ser.Lifecycle.Keys.{IsConfigured}
use geo_spatial_dispatch_ser.Lifecycle.Exclusive.{Exclusive}
use geo_spatial_dispatch_ser.Lifecycle.Commands.{
  create_command-Exclusive, cancel_command-Exclusive, arrive_command-Exclusive,
  refresh_command-Exclusive,
}
use geo_spatial_dispatch_ser.Lifecycle.Manager.{
  driver_owner, refresh_active_driver, create, created, parsed, found, get_assignment,
  has_active_status, active_result, active_request, active, was_cancelled, cancel, has_arrived,
  arrive,
}

-- What only reads keeps every property.
module _ ⦃R : Redis⦄ ⦃F : Float⦄ (P : R.Db → Type 0) (m : LifecycleManager) where
  open R use {Db}
  open F use {Float64}

  pub driver_owner-Keeps : (driver : String) → Keeps P (driver_owner m driver)
  unfolding driver_owner
  driver_owner-Keeps driver = Keeps-bind _ _ (Keeps-call _ (λ d h. h)) (λ r. Keeps-pure _)

  parsed-Keeps : (label : String) (x : Option Float64) → Keeps P (parsed label x)
  parsed-Keeps label none = Keeps-raise _
  parsed-Keeps label (some x) = Keeps-pure x

  found-Keeps : (values : List (String × String)) → Keeps P (found values)
  found-Keeps [] = Keeps-raise _
  found-Keeps (v ∷ values) =
      Keeps-bind _ _ (parsed-Keeps _ _)
        (λ lon. Keeps-bind _ _ (parsed-Keeps _ _) (λ lat. Keeps-pure _))

  pub get_assignment-Keeps : (request : String) → Keeps P (get_assignment m request)
  unfolding get_assignment
  get_assignment-Keeps request = Keeps-bind _ _ (Keeps-call _ (λ d h. h)) found-Keeps

  active_result-Keeps : (r : Result Assignment) → Keeps P (active_result r)
  active_result-Keeps (ok a) = Keeps-if (has_active_status a) _ _ (Keeps-pure _) (Keeps-pure _)
  active_result-Keeps (err assignment_not_found) = Keeps-pure _
  active_result-Keeps (err e) = Keeps-raise _

  active_request-Keeps : (o : Option String) → Keeps P (active_request m o)
  active_request-Keeps none = Keeps-pure _
  active_request-Keeps (some r) =
      Keeps-bind _ _ (Keeps-attempt _ (get_assignment-Keeps r)) active_result-Keeps

  pub active-Keeps : (rider : String) → Keeps P (active m rider)
  unfolding active
  active-Keeps rider = Keeps-bind _ _ (Keeps-call _ (λ d h. h)) active_request-Keeps

pub was_cancelled-Keeps :
    ⦃R : Redis⦄ ⦃F : Float⦄ (P : R.Db → Type 0) (a : Assignment) (r : ℤ)
    → Keeps P (was_cancelled a r)
was_cancelled-Keeps P a (pos zero) = Keeps-raise _
was_cancelled-Keeps P a (pos (suc zero)) = Keeps-pure _
was_cancelled-Keeps P a (pos (suc (suc n))) = Keeps-raise _
was_cancelled-Keeps P a (negsuc zero) = Keeps-raise _
was_cancelled-Keeps P a (negsuc (suc zero)) = Keeps-raise _
was_cancelled-Keeps P a (negsuc (suc (suc zero))) = Keeps-raise _
was_cancelled-Keeps P a (negsuc (suc (suc (suc zero)))) = Keeps-raise _
was_cancelled-Keeps P a (negsuc (suc (suc (suc (suc n))))) = Keeps-raise _

module _ ⦃R : Redis⦄ ⦃F : Float⦄ (m : LifecycleManager) (c : IsConfigured m) where
  pub refresh_active_driver-Keeps :
      (driver : String) → Keeps (Exclusive m) (refresh_active_driver m driver)
  unfolding refresh_active_driver
  refresh_active_driver-Keeps driver =
      Keeps-bind _ _ (Keeps-call _ (refresh_command-Exclusive m c driver)) (λ r. Keeps-pure _)

  created-Keeps : (r : ℤ) → Keeps (Exclusive m) (created r)
  created-Keeps (pos zero) = Keeps-raise _
  created-Keeps (pos (suc zero)) = Keeps-pure _
  created-Keeps (pos (suc (suc n))) = Keeps-raise _
  created-Keeps (negsuc zero) = Keeps-raise _
  created-Keeps (negsuc (suc zero)) = Keeps-raise _
  created-Keeps (negsuc (suc (suc n))) = Keeps-raise _

  pub create-Keeps : (a : Assignment) → Keeps (Exclusive m) (create m a)
  unfolding create
  create-Keeps a = Keeps-bind _ _ (Keeps-call _ (create_command-Exclusive m c a)) created-Keeps

  pub cancel-Keeps : (request : String) → Keeps (Exclusive m) (cancel m request)
  unfolding cancel
  cancel-Keeps request = Keeps-bind _ _ (get_assignment-Keeps (Exclusive m) m request) (λ a.
      Keeps-if (not (a.status == en_route)) _ _ (Keeps-raise assignment_state_conflict) (
        Keeps-bind _ _ (Keeps-call _ (cancel_command-Exclusive m c request a))
          (was_cancelled-Keeps (Exclusive m) a)))

  has_arrived-Keeps : (a : Assignment) (r : ℤ) → Keeps (Exclusive m) (has_arrived a r)
  has_arrived-Keeps a (pos zero) = Keeps-raise _
  has_arrived-Keeps a (pos (suc zero)) = Keeps-pure _
  has_arrived-Keeps a (pos (suc (suc n))) = Keeps-raise _
  has_arrived-Keeps a (negsuc zero) = Keeps-raise _
  has_arrived-Keeps a (negsuc (suc zero)) = Keeps-raise _
  has_arrived-Keeps a (negsuc (suc (suc n))) = Keeps-raise _

  pub arrive-Keeps : (a : Assignment) → Keeps (Exclusive m) (arrive m a)
  unfolding arrive
  arrive-Keeps a =
      Keeps-bind _ _ (Keeps-call _ (arrive_command-Exclusive m c a)) (has_arrived-Keeps a)
