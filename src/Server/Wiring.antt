-- ===== src/Server/Wiring.antt =====
-- internal/server/server.go: the prefixes that the server chooses, and those that the lifecycle manager
-- takes by default, keep the keys apart.
use geo_spatial_dispatch_ser.Prelude.{refl, arith, concat-ne}
use geo_spatial_dispatch_ser.Float.{Float}
use geo_spatial_dispatch_ser.Lifecycle.Keys.{IsConfigured}
use geo_spatial_dispatch_ser.Dispatcher.Wiring.{IsWired}
use geo_spatial_dispatch_ser.Lifecycle.Resetting.{IsApart}
use geo_spatial_dispatch_ser.Server.Demo.{demo_session_lease_key}
use geo_spatial_dispatch_ser.Server.{server_dispatcher}

pub server_dispatcher-IsConfigured : ⦃F : Float⦄ → IsConfigured server_dispatcher.lifecycle
unfolding server_dispatcher
server_dispatcher-IsConfigured = record {
  assignment_rider = refl;
  assignment_driver = refl;
  assignment_status = refl;
  assignment_lock = refl;
  rider_driver = refl;
  rider_status = refl;
  rider_lock = refl;
  driver_status = refl;
  driver_lock = refl;
  status_lock = refl;
  assignment_live = omega arith;
  status_live = omega arith;
  lock_live = omega arith;
}

pub server_dispatcher-IsWired : ⦃F : Float⦄ → IsWired server_dispatcher
unfolding server_dispatcher
server_dispatcher-IsWired = record {
  configured = server_dispatcher-IsConfigured;
  one_lock = refl;
  one_status = refl;
  online = omega arith;
  geo_assignment = refl;
  geo_rider = refl;
  geo_driver = refl;
  geo_status = refl;
  geo_lock = refl;
}

-- The lease of the demo is no key of the dispatcher.
pub server_dispatcher-IsApart :
    ⦃F : Float⦄ → IsApart server_dispatcher.lifecycle demo_session_lease_key
unfolding server_dispatcher
server_dispatcher-IsApart = record {
  not_assignment = λ id. concat-ne "dispatch:assignment:" "demo:session:lease" refl id "";
  not_rider = λ id. concat-ne "dispatch:rider-active:" "demo:session:lease" refl id "";
  not_driver = λ id. concat-ne "dispatch:driver-active:" "demo:session:lease" refl id "";
  not_status = λ id. concat-ne "driver:status:" "demo:session:lease" refl id "";
  not_lock = λ id. concat-ne "dispatch:lock:" "demo:session:lease" refl id "";
}
