-- ===== src/Realtime/Bounds.antt =====
-- The buffers of internal/realtime never hold more than their capacity.
use Prim.Native.Nat.{◌≤◌}
use geo_spatial_dispatch_ser.Prelude.{String, ◌≡◌, Option, List, [], ◌∷◌, arith, if-holds}
use geo_spatial_dispatch_ser.Float.{Float}
use geo_spatial_dispatch_ser.Client.{World, Io}
use geo_spatial_dispatch_ser.Realtime.Messages.{Json, LocationPayload}
use geo_spatial_dispatch_ser.Realtime.Clients.{
  ClientType, close, new_client, is_driver, length, send_capacity,
}
use geo_spatial_dispatch_ser.Realtime.Registry.{Ref, find}
use geo_spatial_dispatch_ser.Realtime.Systems.{
  System, modify, is_current, broadcast_capacity, new_hub,
}
use geo_spatial_dispatch_ser.Realtime.Hub.{
  register_client, unregister_client, close_all_clients, stop,
}
use geo_spatial_dispatch_ser.Realtime.Running.{Event, step, run, connect, shut_down, initial}
use geo_spatial_dispatch_ser.Realtime.Tame.{
  Tame-refl, TameHeap, TameHeap-trans, modify-Tame, close-Tame, close_old-Tame, close_each-Tame,
}
use geo_spatial_dispatch_ser.Realtime.Steps.{
  Loud, quiet, connected, registered, unregistered, stopped, shut, step-Loud,
}

module _ ⦃F : Float⦄ {D : Type 0} where
  pub record IsBounded (s : System D) : Type 0 where
    pub queue : length s.hub.broadcast_location ≤ broadcast_capacity
    pub sends : (r : Ref) → length (s.clients r).send ≤ send_capacity

  tame-IsBounded :
      (s t : System D)
      → TameHeap s.clients t.clients
      → (length s.hub.broadcast_location ≤ broadcast_capacity
          → length t.hub.broadcast_location ≤ broadcast_capacity)
      → IsBounded s
      → IsBounded t
  tame-IsBounded s t tame queue h = record {
    queue = queue h.queue;
    sends = λ r. let it = tame r in it.bounded (h.sends r);
  }

  -- No step does to an existing client what Tame excludes.
  pub register_client-Tame :
      (r : Ref) (s : System D) → TameHeap s.clients (register_client r s).clients
  unfolding register_client
  register_client-Tame r s =
      if-holds (λ (t : System D). TameHeap s.clients t.clients) (is_driver (s.clients r)) _ _
        (λ _. close_old-Tame _ s.clients) (λ _. close_old-Tame _ s.clients)

  pub unregister_client-Tame :
      (r : Ref) (s : System D) → TameHeap s.clients (unregister_client r s).clients
  unfolding unregister_client
  unregister_client-Tame r s =
      let P : System D → Type 0 = λ t. TameHeap s.clients t.clients in
      let closing = modify-Tame r close s.clients (close-Tame _) in
      let same : P s = λ x. Tame-refl (s.clients x) in
      if-holds P (is_driver (s.clients r)) _ _
        (λ _.
          if-holds P (is_current r (find (s.clients r).id s.hub.drivers)) _ s (λ _. closing)
            (λ _. same))
        (λ _.
          if-holds P (is_current r (find (s.clients r).id s.hub.riders)) _ s (λ _. closing)
            (λ _. same))

  pub shut_down-Tame : (s : System D) → TameHeap s.clients (shut_down s).clients
  unfolding shut_down close_all_clients
  shut_down-Tame s =
      TameHeap-trans s.clients _ _ (close_each-Tame s.hub.drivers s.clients)
        (close_each-Tame s.hub.riders _)

  register_client-queue :
      (r : Ref) (s : System D)
      → (register_client r s).hub.broadcast_location ≡ s.hub.broadcast_location
  unfolding register_client
  register_client-queue r s = ground arith

  unregister_client-queue :
      (r : Ref) (s : System D)
      → (unregister_client r s).hub.broadcast_location ≡ s.hub.broadcast_location
  unfolding unregister_client
  unregister_client-queue r s = ground arith

  connect-IsBounded :
      (id : String) (kind : ClientType) (s : System D) → IsBounded s → IsBounded (connect id kind s)
  unfolding connect modify new_client
  connect-IsBounded id kind s h = record { queue = h.queue; sends = λ r. ground (arith, h.sends r) }

  Loud-IsBounded : (s t : System D) → Loud s t → IsBounded s → IsBounded t
  unfolding stop shut_down close_all_clients
  Loud-IsBounded s t (quiet _ q) h = tame-IsBounded s t q.clients q.queue h
  Loud-IsBounded s t (connected id kind _ e) h = rw e (connect-IsBounded id kind s h)
  Loud-IsBounded s t (registered r _ bound running e) h = rw e (
      tame-IsBounded s (register_client r s) (register_client-Tame r s)
        (λ q. rw (register_client-queue r s) q) h)
  Loud-IsBounded s t (unregistered r _ bound e) h = rw e (
      tame-IsBounded s (unregister_client r s) (unregister_client-Tame r s)
        (λ q. rw (unregister_client-queue r s) q) h)
  Loud-IsBounded s t (stopped _ e) h =
      rw e (tame-IsBounded s (stop s) (λ x. Tame-refl _) (λ q. q) h)
  Loud-IsBounded s t (shut _ closed e) h =
      rw e (tame-IsBounded s (shut_down s) (shut_down-Tame s) (λ q. q) h)

  -- In every run of the goroutines, in any order, from a state in which it is so: at most 256 locations
  -- wait for the broadcast, and at most 256 frames wait for the writer of each connection.
  pub run-IsBounded :
      ⦃J : Json⦄ (events : List Event) (s : System D) → IsBounded s → IsBounded (run events s)
  unfolding run
  run-IsBounded [] s h = h
  run-IsBounded (e ∷ events) s h =
      run-IsBounded events (step e s) (Loud-IsBounded s (step e s) (step-Loud e s) h)

  pub initial-IsBounded :
      (location_handler : Option (LocationPayload → Io D (Unit {0})))
      (heartbeat_handler : Option (String → Io D (Unit {0}))) (id : String) (kind : ClientType)
      (world : World D)
      → IsBounded
          (initial (new_hub D location_handler heartbeat_handler) (new_client id kind) world)
  unfolding initial new_hub new_client
  initial-IsBounded l h id kind w = record { queue = omega arith; sends = λ r. omega arith }
