-- ===== src/Realtime/Hub.antt =====
-- internal/realtime/hub.go: the hub, on the state of all connections. A select between a case that is
-- ready and the closed context may take either; `pick` says that it takes the context.
use geo_spatial_dispatch_ser.Prelude.{
  ℕ, String, Bool, true, not, ◌&&◌, Option, none, some, [], ◌∷◌, ◌++◌, ltb, if◌then◌else◌,
}
use geo_spatial_dispatch_ser.Result.{Result, ok, err, hub_closed, not_connected}
use geo_spatial_dispatch_ser.Float.{Float}
use geo_spatial_dispatch_ser.Client.{World, Io}
use geo_spatial_dispatch_ser.Realtime.Messages.{
  Message, LocationPayload, DriverLocationPayload, Json, type_driver_location,
}
use geo_spatial_dispatch_ser.Realtime.Clients.{
  Client, is_driver, close, is_subscribed_to, send_bytes, send_message, length,
}
use geo_spatial_dispatch_ser.Realtime.Systems.{
  System, HubStats, Heap, modify, close_each, close_old, is_current, broadcast_capacity, at_client,
}
use geo_spatial_dispatch_ser.Realtime.Registry.{Ref, Registry, find, put, delete}

-- The loop over the riders; `pick r` is the choice of the send to `r`.
unfoldable pub fan_out : (Ref → Bool) → String → String → Registry → Heap → Heap
fan_out pick driver_id frame [] heap = heap
fan_out pick driver_id frame ((id, r) ∷ rest) heap =
    let sent = λ (c : Client). (send_bytes (pick r) frame c).1 in
    fan_out pick driver_id frame rest
      (if is_subscribed_to driver_id (heap r) then modify r sent heap else heap)

module _ ⦃F : Float⦄ ⦃J : Json⦄ where
  open F use {constant}

  -- The message that subscribers get; `now` is time.Now().UnixMilli().
  unfoldable pub location_message : ℕ → LocationPayload → Message
  location_message now location =
      let payload : DriverLocationPayload = record {
        driver_id = location.driver_id;
        longitude = location.longitude;
        latitude = location.latitude;
        heading = location.heading;
        speed = location.speed;
        eta = constant 0 0;
      } in
      record {
        kind = type_driver_location;
        payload = J.encode_driver_location payload;
        timestamp = now;
      }

module _ ⦃F : Float⦄ {D : Type 0} where
  unfoldable pub register_client : Ref → System D → System D
  register_client r s =
      let c = s.clients r in
      let h = s.hub in
      if is_driver c
      then record s {
        clients = close_old (find c.id h.drivers) s.clients;
        hub = record h {
          drivers = put c.id r h.drivers;
          stats = record h.stats { total_drivers = length (put c.id r h.drivers) };
        };
      }
      else record s {
        clients = close_old (find c.id h.riders) s.clients;
        hub = record h {
          riders = put c.id r h.riders;
          stats = record h.stats { total_riders = length (put c.id r h.riders) };
        };
      }

  unfoldable pub unregister_client : Ref → System D → System D
  unregister_client r s =
      let c = s.clients r in
      let h = s.hub in
      if is_driver c
      then if is_current r (find c.id h.drivers)
        then record s {
          clients = modify r close s.clients;
          hub = record h {
            drivers = delete c.id h.drivers;
            stats = record h.stats { total_drivers = length (delete c.id h.drivers) };
          };
        }
        else s
      else if is_current r (find c.id h.riders)
      then record s {
        clients = modify r close s.clients;
        hub = record h {
          riders = delete c.id h.riders;
          stats = record h.stats { total_riders = length (delete c.id h.riders) };
        };
      }
      else s

  unfoldable pub close_all_clients : System D → System D
  close_all_clients s =
      let h = s.hub in
      record s {
        clients = close_each h.riders (close_each h.drivers s.clients);
        hub = record h {
          drivers = [];
          riders = [];
          stats = record h.stats { total_drivers = 0; total_riders = 0 };
        };
      }

  -- `Register` and `Unregister`: `Run` takes the client, or the context is closed, or both can happen.
  -- Where neither can the caller waits.
  unfoldable pub register : Bool → Ref → System D → System D
  register pick r s =
      let taken = register_client r s in
      if not s.hub.stopped && not (s.hub.closed && pick)
      then taken
      else if s.hub.closed
      then at_client r close s
      else s

  unfoldable pub unregister : Bool → Ref → System D → System D
  unregister pick r s =
      let taken = unregister_client r s in
      if not s.hub.stopped && not (s.hub.closed && pick)
      then taken
      else if s.hub.closed
      then at_client r close s
      else s

  -- The last part of `PublishLocation`; `none` where the caller waits for room in the queue.
  unfoldable pub queue_location :
      Bool → LocationPayload → System D → Option (Result (Unit {0})) × System D
  queue_location pick location s =
      let h = s.hub in
      let room = ltb (length h.broadcast_location) broadcast_capacity in
      if room && not (h.closed && pick)
      then (
        some (ok tt),
        record s {
          hub = record h { broadcast_location = h.broadcast_location ++ (location ∷ []) };
        },
      )
      else if h.closed
      then (some (err hub_closed), s)
      else (none, s)

  unfoldable pub persisted :
      Bool
      → LocationPayload
      → System D
      → Result (Unit {0}) × World D
      → Option (Result (Unit {0})) × System D
  persisted pick location s (ok u, w) = queue_location pick location (record s { world = w })
  persisted pick location s (err e, w) = (some (err e), record s { world = w })

  unfoldable pub persist :
      Bool
      → LocationPayload
      → Option (LocationPayload → Io D (Unit {0}))
      → System D
      → Option (Result (Unit {0})) × System D
  persist pick location none s = queue_location pick location s
  persist pick location (some handler) s = persisted pick location s (handler location s.world)

  unfoldable pub publish_location :
      Bool → LocationPayload → System D → Option (Result (Unit {0})) × System D
  publish_location pick location s = persist pick location s.hub.location_handler s

  unfoldable pub beat :
      String → Option (String → Io D (Unit {0})) → System D → Result (Unit {0}) × System D
  beat driver_id none s = (ok tt, s)
  beat driver_id (some handler) s =
      if s.hub.closed
      then (err hub_closed, s)
      else let (r, w) = handler driver_id s.world in (r, record s { world = w })

  unfoldable pub heartbeat_driver : String → System D → Result (Unit {0}) × System D
  heartbeat_driver driver_id s = beat driver_id s.hub.heartbeat_handler s

  unfoldable pub stop : System D → System D
  stop s = record s { hub = record s.hub { closed = true } }

  unfoldable pub get_stats : System D → HubStats
  get_stats s = s.hub.stats

  unfoldable pub get_driver_count : System D → ℕ
  get_driver_count s = length s.hub.drivers

  unfoldable pub get_rider_count : System D → ℕ
  get_rider_count s = length s.hub.riders

  module _ ⦃J : Json⦄ where
    unfoldable pub broadcast_frame : (Ref → Bool) → String → Result String → System D → System D
    broadcast_frame pick driver_id (err e) s = s
    broadcast_frame pick driver_id (ok frame) s = record s {
      clients = fan_out pick driver_id frame s.hub.riders s.clients;
    }

    unfoldable pub handle_location_broadcast :
        (Ref → Bool) → ℕ → LocationPayload → System D → System D
    handle_location_broadcast pick now location s =
        broadcast_frame pick location.driver_id (J.encode_message (location_message now location)) s

    unfoldable pub send_to :
        Bool → Message → String → Option Ref → System D → Result (Unit {0}) × System D
    send_to pick msg missing none s = (err (not_connected missing), s)
    send_to pick msg missing (some r) s =
        let (result, c) = send_message pick msg (s.clients r) in (result, at_client r (λ _. c) s)

    unfoldable pub send_to_driver :
        Bool → String → Message → System D → Result (Unit {0}) × System D
    send_to_driver pick driver_id msg s =
        send_to pick msg "driver not connected" (find driver_id s.hub.drivers) s

    unfoldable pub send_to_rider : Bool → String → Message → System D → Result (Unit {0}) × System D
    send_to_rider pick rider_id msg s =
        send_to pick msg "rider not connected" (find rider_id s.hub.riders) s
