-- ===== src/Tests/Lives.antt =====
-- The theorems on the life of an assignment, at concrete assignments.
use geo_spatial_dispatch_ser.Prelude.{◌≡◌, ◌≢◌, refl, none, some, List, [], ◌∷◌}
use geo_spatial_dispatch_ser.Result.{ok}
use geo_spatial_dispatch_ser.Redis.Memory.{memory}
use geo_spatial_dispatch_ser.Float.Degrees.{degrees}
use geo_spatial_dispatch_ser.Geo.Memory.{geo_memory}
use geo_spatial_dispatch_ser.Client
use geo_spatial_dispatch_ser.Client.{quiet}
use geo_spatial_dispatch_ser.Client.Decides.{Decides}
use geo_spatial_dispatch_ser.Lifecycle.Manager
use geo_spatial_dispatch_ser.Lifecycle.Scripts
use geo_spatial_dispatch_ser.Lifecycle.Types.{assignment_key, active_rider_key, active_driver_key}
use geo_spatial_dispatch_ser.Lifecycle.Records.{get_assignment-create, create_failed}
use geo_spatial_dispatch_ser.Lifecycle.Cancellation.{Cancellation}
use geo_spatial_dispatch_ser.Dispatcher.Rides.{cancel_assignment, arrive_assignment}
use geo_spatial_dispatch_ser.Dispatcher.Endings.{
  NearArrival, cancel_assignment-Decides, arrive_assignment-Decides,
}
use geo_spatial_dispatch_ser.Dispatcher.Commands.{
  Command, heartbeat, create, cancel, assignment_expires, perform, perform_all,
}
use geo_spatial_dispatch_ser.Dispatcher.Transitions.{perform-Move}
use geo_spatial_dispatch_ser.Dispatcher.Moves.{Move}
use geo_spatial_dispatch_ser.Lifecycle.Exclusive.{Exclusive}
use geo_spatial_dispatch_ser.Dispatcher.Interleaving.{perform-Exclusive}
use geo_spatial_dispatch_ser.Dispatcher.Settled.{Lasts, settled_for_good}
use geo_spatial_dispatch_ser.Server.{server_dispatcher}
use geo_spatial_dispatch_ser.Tests.Setup.{shop, wired, empty, ride, riding}

create_answers : (Manager.create shop.lifecycle (ride "en_route") (quiet empty)).0 ≡ ok tt
unfolding server_dispatcher Manager.create Scripts.create_assignment_script Scripts.create_writes
    Client.call Client.pure Client.◌>>=◌
create_answers = refl

get_assignment-create_example :
    let w = (Manager.create shop.lifecycle (ride "en_route") (quiet empty)).1 in
    (Manager.get_assignment shop.lifecycle "r1" w ≡ (ok (ride "en_route"), w))
    × (memory.get w.db (active_rider_key shop.lifecycle "rider1") ≡ some "r1")
    × (memory.get w.db (active_driver_key shop.lifecycle "d1") ≡ some "r1")
get_assignment-create_example =
    get_assignment-create shop.lifecycle wired.configured (ride "en_route") empty refl refl
      create_answers

create_refused :
    (Manager.create shop.lifecycle (ride "en_route") (quiet (riding "arrived"))).0 ≢ ok tt
unfolding server_dispatcher Manager.create Scripts.create_assignment_script Scripts.create_writes
    Client.call Client.raise Client.◌>>=◌
create_refused e = cc

create_failed_example :
    (Manager.create shop.lifecycle (ride "en_route") (quiet (riding "arrived"))).1
    ≡ quiet (riding "arrived")
create_failed_example =
    create_failed shop.lifecycle wired.configured (ride "en_route") (riding "arrived")
      create_refused

cancel_assignment-Decides_example :
    Decides
      (Cancellation shop.lifecycle "r1" (riding "en_route"))
      (cancel_assignment shop "r1")
      (riding "en_route")
cancel_assignment-Decides_example = cancel_assignment-Decides shop wired "r1" (riding "en_route")

arrive_assignment-Decides_example :
    Decides
      (NearArrival shop wired "r1" (riding "en_route"))
      (arrive_assignment shop "r1")
      (riding "en_route")
arrive_assignment-Decides_example = arrive_assignment-Decides shop wired "r1" (riding "en_route")

perform-Move_example :
    let command = cancel "r1" (ride "en_route") in
    Move
      (command ≡ assignment_expires "r1")
      (memory.hget (riding "en_route") (assignment_key shop.lifecycle "r1") "status")
      (memory.hget
        (perform shop command (riding "en_route"))
        (assignment_key shop.lifecycle "r1")
        "status")
perform-Move_example =
    perform-Move shop wired (cancel "r1" (ride "en_route")) (riding "en_route") "r1"

abbrev later : List Command
later = heartbeat "d1" ∷ cancel "r1" (ride "en_route") ∷ create (ride "en_route") ∷ []

there : memory.hget (riding "arrived") (assignment_key shop.lifecycle "r1") "status" ≢ none
unfolding server_dispatcher
there e = cc

settled :
    memory.hget (riding "arrived") (assignment_key shop.lifecycle "r1") "status" ≢ some "en_route"
unfolding server_dispatcher
settled e = cc

lasts : Lasts "r1" later
lasts = ((λ e. cc), ((λ e. cc), ((λ e. cc), tt)))

settled_for_good_example :
    memory.hget
      (perform_all shop later (riding "arrived"))
      (assignment_key shop.lifecycle "r1")
      "status"
    ≡ memory.hget (riding "arrived") (assignment_key shop.lifecycle "r1") "status"
settled_for_good_example =
    settled_for_good shop wired later (riding "arrived") "r1" there settled lasts

empty-Exclusive : Exclusive shop.lifecycle empty
empty-Exclusive = record { owned = λ r driver e v. cc; riding = λ r rider e v. cc }

perform-Exclusive_example : Exclusive shop.lifecycle (perform shop (create (ride "en_route")) empty)
perform-Exclusive_example =
    perform-Exclusive shop wired (create (ride "en_route")) empty empty-Exclusive
