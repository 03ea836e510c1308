-- ===== src/Realtime/Running.antt =====
-- The goroutines of internal/realtime as steps on one state: `Hub.Run`, the readers and writers of the
-- connections, and the callers of the hub. Each step is one case of a select, or one critical section;
-- any order of the steps is a run.
use geo_spatial_dispatch_ser.Prelude.{
  ℕ, suc, ◌+◌, String, Bool, true, not, ◌&&◌, List, [], ◌∷◌, ltb, if◌then◌else◌,
}
use geo_spatial_dispatch_ser.Float.{Float}
use geo_spatial_dispatch_ser.Client.{World}
use geo_spatial_dispatch_ser.Realtime.Messages.{Message, LocationPayload, Json}
use geo_spatial_dispatch_ser.Realtime.Clients.{Client, ClientType, new_client, close}
use geo_spatial_dispatch_ser.Realtime.Registry.{Ref}
use geo_spatial_dispatch_ser.Realtime.Systems.{Hub, System, modify, at_client}
use geo_spatial_dispatch_ser.Realtime.Hub.{
  register, unregister, handle_location_broadcast, close_all_clients, stop, send_to_driver,
  send_to_rider,
}
use geo_spatial_dispatch_ser.Realtime.Handling.{read_message, resume_publish}

pub data Event : Type 0 where
  connecting : String → ClientType → Event
  registering unregistering : Bool → Ref → Event
  reading : Bool → ℕ → Ref → String → Event
  resuming : Bool → ℕ → Ref → Event
  writing closing : Ref → Event
  broadcasting : (Ref → Bool) → ℕ → Event
  ticking stopping shutting_down : Event
  sending_driver sending_rider : Bool → String → Message → Event

-- The writer takes a frame from `send`.
unfoldable pub take_frame : Client → Client
take_frame c = record c { send = elim c.send [ [] ↦ [] | frame ∷ rest ↦ rest ] }

module _ ⦃F : Float⦄ {D : Type 0} where
  -- `NewClient`, at a new pointer.
  unfoldable pub connect : String → ClientType → System D → System D
  connect id kind s = record s {
    clients = modify s.next (λ _. new_client id kind) s.clients;
    next = suc s.next;
  }

  unfoldable pub tick : System D → System D
  tick s =
      let h = s.hub in
      record s {
        hub = record h {
          stats = record h.stats { messages_per_sec = h.messages_this_second };
          messages_this_second = 0;
        };
      }

  -- The case of `ctx.Done()`, with which `Run` returns.
  unfoldable pub shut_down : System D → System D
  shut_down s = let t = close_all_clients s in record t { hub = record t.hub { stopped = true } }

  unfoldable pub counted : System D → System D
  counted s =
      let h = s.hub in
      record s {
        hub = record h {
          stats = record h.stats { total_messages = h.stats.total_messages + 1 };
          messages_this_second = h.messages_this_second + 1;
        };
      }

  module _ ⦃J : Json⦄ where
    unfoldable pub taken_location : (Ref → Bool) → ℕ → List LocationPayload → System D → System D
    taken_location pick now [] s = s
    taken_location pick now (location ∷ rest) s = counted (
        handle_location_broadcast pick now location
          (record s { hub = record s.hub { broadcast_location = rest } }))

    -- `Run` takes a location from the queue.
    unfoldable pub broadcast : (Ref → Bool) → ℕ → System D → System D
    broadcast pick now s = taken_location pick now s.hub.broadcast_location s

    -- Only clients that exist take steps, and `Run` takes steps until it returns.
    unfoldable pub step : Event → System D → System D
    step (connecting id kind) s = connect id kind s
    step (registering pick r) s = if ltb r s.next then register pick r s else s
    step (unregistering pick r) s = if ltb r s.next then unregister pick r s else s
    step (reading pick now r text) s = if ltb r s.next then read_message pick now r text s else s
    step (resuming pick now r) s = if ltb r s.next then resume_publish pick now r s else s
    step (writing r) s = at_client r take_frame s
    step (closing r) s = at_client r close s
    step (broadcasting pick now) s = if s.hub.stopped then s else broadcast pick now s
    step ticking s = if s.hub.stopped then s else tick s
    step stopping s = stop s
    step shutting_down s = if s.hub.closed && not s.hub.stopped then shut_down s else s
    step (sending_driver pick id msg) s = (send_to_driver pick id msg s).1
    step (sending_rider pick id msg) s = (send_to_rider pick id msg s).1

    unfoldable pub run : List Event → System D → System D
    run [] s = s
    run (e ∷ events) s = run events (step e s)

  -- A new hub and no connections.
  unfoldable pub initial : Hub D → Client → World D → System D
  initial hub no_client world = record {
    hub = hub;
    clients = λ _. no_client;
    next = 0;
    waiting = [];
    world = world;
  }
