-- ===== src/Dispatcher/Endings.antt =====
-- internal/dispatch/dispatcher.go: `CancelAssignment`, and `ArriveAssignment` with the check that the driver
-- is close enough.
use geo_spatial_dispatch_ser.Prelude.{
  String, ◌≡◌, refl, false, not, ◌==◌, Bool-cases, inl, inr, is_blank, Option, none, some,
}
use geo_spatial_dispatch_ser.Result.{ok}
use geo_spatial_dispatch_ser.Redis.{Redis}
use geo_spatial_dispatch_ser.Float.{Float}
use geo_spatial_dispatch_ser.Client.{quiet}
use geo_spatial_dispatch_ser.Client.Reads.{Reads, Reads-pure, Reads-raise, Reads-call, Reads-bind}
use geo_spatial_dispatch_ser.Client.Decides.{
  Decides, Decides-raise, Decides-if, Decides-bind, Decides-from,
}
use geo_spatial_dispatch_ser.Geo.{GeoIndex, GeoService, Location, get_location, found_position}
use geo_spatial_dispatch_ser.Lifecycle.Types.{Assignment, en_route, arrived, distance_km}
use geo_spatial_dispatch_ser.Lifecycle.Records.{get_assignment-Reads}
use geo_spatial_dispatch_ser.Lifecycle.Arrival.{Arrival, arrive_one, arrive-Arrival, arrive_refused}
use geo_spatial_dispatch_ser.Lifecycle.Manager.{arrive, cancel, get_assignment}
use geo_spatial_dispatch_ser.Dispatcher.Types.{Dispatcher}
use geo_spatial_dispatch_ser.Lifecycle.Cancellation.{
  Cancellation, cancel-Cancellation, cancel_failed,
}
use geo_spatial_dispatch_ser.Dispatcher.Rides.{arrive_assignment, cancel_assignment}
use geo_spatial_dispatch_ser.Dispatcher.Wiring.{IsWired}

module _ ⦃R : Redis⦄ ⦃F : Float⦄ ⦃G : GeoIndex R F⦄ where
  open R use {Db}
  open F use {Float64, lt}

  found_position-Reads :
      (id : String) (p : Option (Float64 × Float64)) → Reads (found_position id p)
  found_position-Reads id none = Reads-raise _ _
  found_position-Reads id (some (lon, lat)) = Reads-pure _

  pub get_location-Reads : (gs : GeoService) (id : String) → Reads (get_location gs id)
  unfolding get_location
  get_location-Reads gs id d = elim (Bool-cases (is_blank id)) [
    | inl blank ↦ rw blank (Reads-raise _ _ d)
    | inr named ↦ rw named (Reads-bind _ _ (Reads-call _) (found_position-Reads id) d)
  ]

  -- The stored position of the driver is no farther from the pickup point than the threshold.
  abbrev pub IsNear : Dispatcher → Db → Assignment → Type 0
  IsNear s d a =
      (p : Location) × ((get_location s.geo_service a.driver_id (quiet d)).0 ≡ ok p)
      × (lt s.lifecycle.arrival_threshold_km
            (distance_km p.longitude p.latitude a.pickup_longitude a.pickup_latitude)
          ≡ false)

  module _ (s : Dispatcher) (w : IsWired s) (request : String) (d : Db) where
    -- The arrival of the assignment that is stored under the request's id, with the driver near enough.
    pub record NearArrival (e : Db) (b : Assignment) : Type 0 where
      pub stored : Assignment
      pub was_read : (get_assignment s.lifecycle request (quiet d)).0 ≡ ok stored
      pub answers : b ≡ record stored { status = arrived }
      pub arrival : Arrival s.lifecycle d e b
      pub near : IsNear s d stored

    arrive-near :
        (a : Assignment) (p : Location)
        → (get_assignment s.lifecycle request (quiet d)).0 ≡ ok a
        → (get_location s.geo_service a.driver_id (quiet d)).0 ≡ ok p
        → lt s.lifecycle.arrival_threshold_km
            (distance_km p.longitude p.latitude a.pickup_longitude a.pickup_latitude)
          ≡ false
        → Decides NearArrival (arrive s.lifecycle a) d
    arrive-near a p read there close =
        Decides-from (arrive s.lifecycle a)
          (λ b h. record {
            stored = a;
            was_read = read;
            answers = (arrive_one s.lifecycle w.configured a d b h).1;
            arrival = arrive-Arrival s.lifecycle w.configured a d b h;
            near = (p, there, close);
          })
          (λ x h. arrive_refused s.lifecycle w.configured a d x h)

    -- `ArriveAssignment`, with no other client and no lost or refused call, either succeeds or leaves the
    -- database as it was. It succeeds only where the assignment that `get` reads for the request's id is
    -- en route, its driver busy with it, its rider's and its driver's active keys name it, and its
    -- driver's stored position is within the threshold of its pickup point; then it answers with that
    -- assignment, arrived, which is stored as arrived and still held by its driver and its rider, and
    -- every other key reads as before.
    pub arrive_assignment-Decides : Decides NearArrival (arrive_assignment s request) d
    unfolding arrive_assignment
    arrive_assignment-Decides =
        Decides-bind _ _ (λ e. refl)
          (λ done _. Decides-bind _ _ (get_assignment-Reads s.lifecycle request) (λ a read.
            Decides-if (not (a.status == en_route)) _ _ (λ _. Decides-raise _)
              (λ running.
                Decides-bind _ _ (get_location-Reads s.geo_service a.driver_id) (λ p there.
                  Decides-if
                    (lt s.lifecycle.arrival_threshold_km
                      (distance_km p.longitude p.latitude a.pickup_longitude a.pickup_latitude))
                    _ _ (λ _. Decides-raise _) (arrive-near a p read there)))))

    -- `CancelAssignment`, with no other client and no lost or refused call, either succeeds or leaves the
    -- database as it was. It succeeds only for an assignment that is en route and that its driver's active
    -- key names, and answers with the driver and the rider that are stored with it; then it is cancelled,
    -- the driver has no ride and no lock and is available again if it was busy, the rider's active key
    -- no longer names it, and every other assignment is as before.
    pub cancel_assignment-Decides :
        Decides (Cancellation s.lifecycle request d) (cancel_assignment s request) d
    unfolding cancel_assignment
    cancel_assignment-Decides =
        Decides-bind _ _ (λ e. refl)
          (λ done _.
            Decides-from (cancel s.lifecycle request)
              (cancel-Cancellation s.lifecycle w.configured request d)
              (cancel_failed s.lifecycle w.configured request d))
