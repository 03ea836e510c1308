-- ===== src/Dispatcher/Runs.antt =====
-- internal/dispatch/dispatcher.go: any sequence of the dispatcher's operations, each with any commands of
-- other clients and any failures between its round trips.
use geo_spatial_dispatch_ser.Prelude.{
  String, ◌≡◌, ◌≢◌, sym, ◌∙◌, some, List, [], ◌∷◌, map, some-inj,
}
use geo_spatial_dispatch_ser.Redis.{Redis}
use geo_spatial_dispatch_ser.Float.{Float}
use geo_spatial_dispatch_ser.Client.{Fault, Turn, World}
use geo_spatial_dispatch_ser.Client.Keeps.{IsSafe, Respect}
use geo_spatial_dispatch_ser.Geo.{GeoIndex}
use geo_spatial_dispatch_ser.Lifecycle.Types.{assignment_key}
use geo_spatial_dispatch_ser.Lifecycle.Exclusive.{Exclusive}
use geo_spatial_dispatch_ser.Dispatcher.Types.{Dispatcher, DispatchRequest}
use geo_spatial_dispatch_ser.Dispatcher.Assign.{release_driver}
use geo_spatial_dispatch_ser.Dispatcher.Search.{find_and_assign}
use geo_spatial_dispatch_ser.Dispatcher.Rides.{
  cancel_assignment, arrive_assignment, update_driver_location,
}
use geo_spatial_dispatch_ser.Dispatcher.Safety.Assign.{release_driver-Safe}
use geo_spatial_dispatch_ser.Dispatcher.Safety.Search.{find_and_assign-Safe}
use geo_spatial_dispatch_ser.Dispatcher.Safety.Rides.{
  cancel_assignment-Safe, arrive_assignment-Safe, update_driver_location-Safe,
}
use geo_spatial_dispatch_ser.Dispatcher.Wiring.{IsWired}
use geo_spatial_dispatch_ser.Dispatcher.Commands.{Command, perform_all}
use geo_spatial_dispatch_ser.Dispatcher.Interleaving.{perform_all-Exclusive}

-- The operations; `find_and_assign` has the id that `uuid.New` would give.
pub data Operation ⦃F : Float⦄ : Type 0 where
  find : String → DispatchRequest → Operation
  cancel arrive : String → Operation
  release : String → String → Operation
  locate : String → F.Float64 → F.Float64 → Operation

-- What others do before a round trip of an operation, and how that round trip ends.
pub record Gap ⦃F : Float⦄ : Type 0 where
  pub commands : List Command
  pub fault : Fault

-- An operation with the gaps before its round trips.
pub record Task ⦃F : Float⦄ : Type 0 where
  pub operation : Operation
  pub gaps : List Gap

module _ ⦃R : Redis⦄ ⦃F : Float⦄ ⦃G : GeoIndex R F⦄ (s : Dispatcher) where
  open R use {Db, hget}

  abbrev pub turn_of : Gap → Turn Db
  turn_of gap = record { others = perform_all s gap.commands; fault = gap.fault }

  unfoldable pub perform_operation : Operation → World Db → Db
  perform_operation (find fresh req) w = (find_and_assign s fresh req w).1.db
  perform_operation (cancel request) w = (cancel_assignment s request w).1.db
  perform_operation (arrive request) w = (arrive_assignment s request w).1.db
  perform_operation (release driver request) w = (release_driver s driver request w).1.db
  perform_operation (locate driver lon lat) w = (update_driver_location s driver lon lat w).1.db

  unfoldable pub run : List Task → Db → Db
  unfolding perform_operation
  run [] d = d
  run (task ∷ tasks) d =
      run tasks
        (perform_operation task.operation (record { db = d; turns = map turn_of task.gaps }))

  -- No ride is under way.
  abbrev pub IsIdle : Db → Type 0
  IsIdle d = (r : String) → hget d (assignment_key s.lifecycle r) "status" ≢ some "en_route"

  -- A request whose assignment is en route with a driver, or for a rider.
  abbrev pub Rides : Db → String → String → String → Type 0
  Rides d field r value =
      (hget d (assignment_key s.lifecycle r) "status" ≡ some "en_route")
      × (hget d (assignment_key s.lifecycle r) field ≡ some value)

module _ ⦃R : Redis⦄ ⦃F : Float⦄ ⦃G : GeoIndex R F⦄ (s : Dispatcher) (w : IsWired s) where
  open R use {Db, hget}

  turns-Respect : (gaps : List Gap) → Respect (Exclusive s.lifecycle) (map (turn_of s) gaps)
  turns-Respect [] = tt
  turns-Respect (gap ∷ gaps) = (perform_all-Exclusive s w gap.commands, turns-Respect gaps)

  perform_operation-Exclusive :
      (operation : Operation) (v : World Db)
      → IsSafe (Exclusive s.lifecycle) v
      → Exclusive s.lifecycle (perform_operation s operation v)
  unfolding perform_operation
  perform_operation-Exclusive (find fresh req) v h =
      ((find_and_assign-Safe s w fresh req).at v h).holds
  perform_operation-Exclusive (cancel request) v h =
      ((cancel_assignment-Safe s w request).at v h).holds
  perform_operation-Exclusive (arrive request) v h =
      ((arrive_assignment-Safe s w request).at v h).holds
  perform_operation-Exclusive (release driver request) v h =
      ((release_driver-Safe s w driver request).at v h).holds
  perform_operation-Exclusive (locate driver lon lat) v h =
      ((update_driver_location-Safe s w driver lon lat).at v h).holds

  run-Exclusive :
      (tasks : List Task) (d : Db) → Exclusive s.lifecycle d → Exclusive s.lifecycle (run s tasks d)
  unfolding run
  run-Exclusive [] d h = h
  run-Exclusive (task ∷ tasks) d h = run-Exclusive tasks _ (
      perform_operation-Exclusive task.operation _
        (record { holds = h; respected = turns-Respect task.gaps }))

  IsIdle-Exclusive : (d : Db) → IsIdle s d → Exclusive s.lifecycle d
  IsIdle-Exclusive d idle = record {
    owned = λ r driver e v. absurd (idle r e);
    riding = λ r rider e v. absurd (idle r e);
  }

  -- Start with no ride under way, and run any searches, cancellations, arrivals, releases and location
  -- updates, with commands of such operations by other clients, expiries and failed round trips in
  -- between, where an active key does not expire before the assignment that it names, while that is en
  -- route. Then no two requests are en route with one driver.
  pub one_ride_per_driver :
      (tasks : List Task) (d : Db) (r q driver : String)
      → IsIdle s d
      → Rides s (run s tasks d) "driver_id" r driver
      → Rides s (run s tasks d) "driver_id" q driver
      → r ≡ q
  one_ride_per_driver tasks d r q driver idle a b =
      let h = run-Exclusive tasks d (IsIdle-Exclusive d idle) in
      some-inj (sym (h.owned r driver a.0 a.1) ∙ h.owned q driver b.0 b.1)

  -- Start with no ride under way, and run any searches, cancellations, arrivals, releases and location
  -- updates, with commands of such operations by other clients, expiries and failed round trips in
  -- between, where an active key does not expire before the assignment that it names, while that is en
  -- route. Then no two requests are en route for one rider.
  pub one_ride_per_rider :
      (tasks : List Task) (d : Db) (r q rider : String)
      → IsIdle s d
      → Rides s (run s tasks d) "rider_id" r rider
      → Rides s (run s tasks d) "rider_id" q rider
      → r ≡ q
  one_ride_per_rider tasks d r q rider idle a b =
      let h = run-Exclusive tasks d (IsIdle-Exclusive d idle) in
      some-inj (sym (h.riding r rider a.0 a.1) ∙ h.riding q rider b.0 b.1)
