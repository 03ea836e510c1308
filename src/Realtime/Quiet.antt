-- ===== src/Realtime/Quiet.antt =====
-- The steps that leave alone who is connected: reading messages, replies, positions and broadcasts.
use Prim.Native.Nat.{◌≤◌, ◌<◌}
use geo_spatial_dispatch_ser.Prelude.{
  String, ◌≡◌, refl, ◌∙◌, Bool, true, false, not, ◌&&◌, Option, none, some, List, [], ◌∷◌, ◌++◌,
  arith, if◌then◌else◌, ltb,
}
use geo_spatial_dispatch_ser.Result.{Result, ok, err}
use geo_spatial_dispatch_ser.Float.{Float}
use geo_spatial_dispatch_ser.Client.{World, Io}
use geo_spatial_dispatch_ser.Realtime.Messages.{LocationPayload}
use geo_spatial_dispatch_ser.Realtime.Clients.{Client, length}
use geo_spatial_dispatch_ser.Realtime.Registry.{Ref}
use geo_spatial_dispatch_ser.Realtime.Systems.{System, at_client, broadcast_capacity}
use geo_spatial_dispatch_ser.Realtime.Hub.{
  queue_location, persisted, persist, publish_location, beat, heartbeat_driver,
}
use geo_spatial_dispatch_ser.Realtime.Running.{tick, take_frame}
use geo_spatial_dispatch_ser.Realtime.Tame.{
  Tame, Tame-refl, TameHeap, TameHeap-trans, modify-Tame, length-append,
}

pub take_frame-Tame : (c : Client) → Tame c (take_frame c)
unfolding take_frame
take_frame-Tame c = record { id = refl; kind = refl; done = λ h. h; bounded = ground arith }

module _ ⦃F : Float⦄ {D : Type 0} where
  pub record Quiet (s t : System D) : Type 0 where
    pub drivers : t.hub.drivers ≡ s.hub.drivers
    pub riders : t.hub.riders ≡ s.hub.riders
    pub total_drivers : t.hub.stats.total_drivers ≡ s.hub.stats.total_drivers
    pub total_riders : t.hub.stats.total_riders ≡ s.hub.stats.total_riders
    pub closed : t.hub.closed ≡ s.hub.closed
    pub stopped : t.hub.stopped ≡ s.hub.stopped
    pub next : t.next ≡ s.next
    pub clients : TameHeap s.clients t.clients
    pub queue :
        length s.hub.broadcast_location ≤ broadcast_capacity
        → length t.hub.broadcast_location ≤ broadcast_capacity

  pub Quiet-refl : (s : System D) → Quiet s s
  Quiet-refl s = record {
    drivers = refl;
    riders = refl;
    total_drivers = refl;
    total_riders = refl;
    closed = refl;
    stopped = refl;
    next = refl;
    clients = λ x. Tame-refl (s.clients x);
    queue = λ h. h;
  }

  pub Quiet-trans : (s t u : System D) → Quiet s t → Quiet t u → Quiet s u
  Quiet-trans s t u f g = record {
    drivers = g.drivers ∙ f.drivers;
    riders = g.riders ∙ f.riders;
    total_drivers = g.total_drivers ∙ f.total_drivers;
    total_riders = g.total_riders ∙ f.total_riders;
    closed = g.closed ∙ f.closed;
    stopped = g.stopped ∙ f.stopped;
    next = g.next ∙ f.next;
    clients = TameHeap-trans s.clients t.clients u.clients f.clients g.clients;
    queue = λ h. g.queue (f.queue h);
  }

  pub heap-Quiet :
      (s : System D) (h : _) → TameHeap s.clients h → Quiet s (record s { clients = h })
  heap-Quiet s h tame = record {
    drivers = refl;
    riders = refl;
    total_drivers = refl;
    total_riders = refl;
    closed = refl;
    stopped = refl;
    next = refl;
    clients = tame;
    queue = λ q. q;
  }

  pub at_client-Quiet :
      (r : Ref) (f : Client → Client) (s : System D)
      → Tame (s.clients r) (f (s.clients r))
      → Quiet s (at_client r f s)
  unfolding at_client
  at_client-Quiet r f s tame = heap-Quiet s _ (modify-Tame r f s.clients tame)

  -- Changes that neither the hub nor the clients see.
  pub world-Quiet : (s : System D) (w : World D) → Quiet s (record s { world = w })
  world-Quiet s w = record {
    drivers = refl;
    riders = refl;
    total_drivers = refl;
    total_riders = refl;
    closed = refl;
    stopped = refl;
    next = refl;
    clients = λ x. Tame-refl (s.clients x);
    queue = λ h. h;
  }

  pub waiting-Quiet :
      (s : System D) (waiting : List (Ref × LocationPayload))
      → Quiet s (record s { waiting = waiting })
  waiting-Quiet s waiting = record {
    drivers = refl;
    riders = refl;
    total_drivers = refl;
    total_riders = refl;
    closed = refl;
    stopped = refl;
    next = refl;
    clients = λ x. Tame-refl (s.clients x);
    queue = λ h. h;
  }

  pub tick-Quiet : (s : System D) → Quiet s (tick s)
  unfolding tick
  tick-Quiet s = record {
    drivers = refl;
    riders = refl;
    total_drivers = refl;
    total_riders = refl;
    closed = refl;
    stopped = refl;
    next = refl;
    clients = λ x. Tame-refl (s.clients x);
    queue = λ h. h;
  }

  pub if-Quiet :
      (b : Bool) (s x y : System D)
      → (b ≡ true → Quiet s x)
      → (b ≡ false → Quiet s y)
      → Quiet s (if b then x else y)
  if-Quiet true s x y p q = p refl
  if-Quiet false s x y p q = q refl

  pub pair-Quiet :
      {A : Type 0} (b : Bool) (s : System D) (x y : A × System D)
      → (b ≡ true → Quiet s x.1)
      → (b ≡ false → Quiet s y.1)
      → Quiet s (if b then x else y).1
  pair-Quiet true s x y p q = p refl
  pair-Quiet false s x y p q = q refl

  pub queued-Quiet :
      (location : LocationPayload) (s : System D)
      → length s.hub.broadcast_location < broadcast_capacity
      → Quiet s (record s {
        hub = record s.hub { broadcast_location = s.hub.broadcast_location ++ (location ∷ []) };
      })
  queued-Quiet location s room = record {
    drivers = refl;
    riders = refl;
    total_drivers = refl;
    total_riders = refl;
    closed = refl;
    stopped = refl;
    next = refl;
    clients = λ x. Tame-refl (s.clients x);
    queue = λ h. omega (arith, length-append s.hub.broadcast_location location);
  }

  module _ (pick : Bool) where
    pub queue_location-Quiet :
        (location : LocationPayload) (s : System D) → Quiet s (queue_location pick location s).1
    unfolding queue_location
    queue_location-Quiet location s =
        pair-Quiet
          (ltb (length s.hub.broadcast_location) broadcast_capacity && not (s.hub.closed && pick)) s
          _ _ (λ e. queued-Quiet location s (ground arith))
          (λ _. pair-Quiet s.hub.closed s _ _ (λ _. Quiet-refl s) (λ _. Quiet-refl s))

    pub persisted-Quiet :
        (location : LocationPayload) (s : System D) (o : Result (Unit {0}) × World D)
        → Quiet s (persisted pick location s o).1
    unfolding persisted
    persisted-Quiet location s (ok u, w) =
        Quiet-trans s (record s { world = w }) _ (world-Quiet s w)
          (queue_location-Quiet location (record s { world = w }))
    persisted-Quiet location s (err e, w) = world-Quiet s w

    pub persist-Quiet :
        (location : LocationPayload) (handler : Option (LocationPayload → Io D (Unit {0})))
        (s : System D)
        → Quiet s (persist pick location handler s).1
    unfolding persist
    persist-Quiet location none s = queue_location-Quiet location s
    persist-Quiet location (some handler) s = persisted-Quiet location s (handler location s.world)

    pub publish_location-Quiet :
        (location : LocationPayload) (s : System D) → Quiet s (publish_location pick location s).1
    unfolding publish_location
    publish_location-Quiet location s = persist-Quiet location s.hub.location_handler s

  pub beat-Quiet :
      (id : String) (handler : Option (String → Io D (Unit {0}))) (s : System D)
      → Quiet s (beat id handler s).1
  unfolding beat
  beat-Quiet id none s = Quiet-refl s
  beat-Quiet id (some handler) s =
      pair-Quiet s.hub.closed s _ _ (λ _. Quiet-refl s) (λ _. world-Quiet s _)

  pub heartbeat_driver-Quiet : (id : String) (s : System D) → Quiet s (heartbeat_driver id s).1
  unfolding heartbeat_driver
  heartbeat_driver-Quiet id s = beat-Quiet id s.hub.heartbeat_handler s
