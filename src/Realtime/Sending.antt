-- ===== src/Realtime/Sending.antt =====
-- Broadcasts and messages to one client leave alone who is connected.
use geo_spatial_dispatch_ser.Prelude.{
  ℕ, String, ◌≡◌, refl, Bool, Option, none, some, List, [], ◌∷◌, arith,
}
use geo_spatial_dispatch_ser.Result.{Result, ok, err}
use geo_spatial_dispatch_ser.Float.{Float}
use geo_spatial_dispatch_ser.Realtime.Messages.{Message, LocationPayload, Json}
use geo_spatial_dispatch_ser.Realtime.Registry.{Ref}
use geo_spatial_dispatch_ser.Realtime.Systems.{System}
use geo_spatial_dispatch_ser.Realtime.Hub.{
  broadcast_frame, handle_location_broadcast, send_to, send_to_driver, send_to_rider,
}
use geo_spatial_dispatch_ser.Realtime.Running.{counted, taken_location, broadcast}
use geo_spatial_dispatch_ser.Realtime.Tame.{Tame-refl, fan_out-Tame, send_message-Tame}
use geo_spatial_dispatch_ser.Realtime.Quiet.{
  Quiet, Quiet-refl, Quiet-trans, heap-Quiet, at_client-Quiet,
}

module _ ⦃F : Float⦄ ⦃J : Json⦄ {D : Type 0} where
  module _ (pick : Ref → Bool) (now : ℕ) where
    frame-Quiet :
        (id : String) (o : Result String) (s : System D) → Quiet s (broadcast_frame pick id o s)
    unfolding broadcast_frame
    frame-Quiet id (ok frame) s = heap-Quiet s _ (fan_out-Tame pick id frame s.hub.riders s.clients)
    frame-Quiet id (err e) s = Quiet-refl s

    counted-Quiet : (s : System D) → Quiet s (counted s)
    unfolding counted
    counted-Quiet s = record {
      drivers = refl;
      riders = refl;
      total_drivers = refl;
      total_riders = refl;
      closed = refl;
      stopped = refl;
      next = refl;
      clients = λ x. Tame-refl (s.clients x);
      queue = λ h. h;
    }

    taken-Quiet :
        (locations : List LocationPayload) (s : System D)
        → s.hub.broadcast_location ≡ locations
        → Quiet s (taken_location pick now locations s)
    unfolding taken_location handle_location_broadcast
    taken-Quiet [] s e = Quiet-refl s
    taken-Quiet (location ∷ rest) s e =
        let t : System D = record s { hub = record s.hub { broadcast_location = rest } } in
        Quiet-trans s t _
          (record {
            drivers = refl;
            riders = refl;
            total_drivers = refl;
            total_riders = refl;
            closed = refl;
            stopped = refl;
            next = refl;
            clients = λ x. Tame-refl (s.clients x);
            queue = λ h. ground (arith, e);
          })
          (Quiet-trans t _ _ (frame-Quiet _ _ t) (counted-Quiet _))

    pub broadcast-Quiet : (s : System D) → Quiet s (broadcast pick now s)
    unfolding broadcast
    broadcast-Quiet s = taken-Quiet _ s refl

  module _ (pick : Bool) (msg : Message) where
    send_to-Quiet :
        (missing : String) (o : Option Ref) (s : System D)
        → Quiet s (send_to pick msg missing o s).1
    unfolding send_to
    send_to-Quiet missing none s = Quiet-refl s
    send_to-Quiet missing (some r) s = at_client-Quiet r _ s (send_message-Tame pick msg _)

    pub send_to_driver-Quiet :
        (id : String) (s : System D) → Quiet s (send_to_driver pick id msg s).1
    unfolding send_to_driver
    send_to_driver-Quiet id s = send_to-Quiet _ _ s

    pub send_to_rider-Quiet : (id : String) (s : System D) → Quiet s (send_to_rider pick id msg s).1
    unfolding send_to_rider
    send_to_rider-Quiet id s = send_to-Quiet _ _ s
