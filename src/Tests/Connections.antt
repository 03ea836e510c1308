-- ===== src/Tests/Connections.antt =====
-- The hub of the connections at concrete runs.
use geo_spatial_dispatch_ser.Prelude.{
  if◌then◌else◌, String, ◌==◌, eq_iff, ◌≡◌, refl, sym, Bool, true, false, some, List, [], ◌∷◌, ◌++◌,
  arith, pos, nat_eq, ◌&&◌, join_key,
}
use geo_spatial_dispatch_ser.Result.{ok}
use geo_spatial_dispatch_ser.Client.{quiet}
use geo_spatial_dispatch_ser.Redis.Memory.{Store, memory}
use geo_spatial_dispatch_ser.Float.Degrees.{degrees, whole}
use geo_spatial_dispatch_ser.Realtime.Messages.{Json, LocationPayload}
use geo_spatial_dispatch_ser.Realtime.Clients.{Client, new_client, is_driver}
use geo_spatial_dispatch_ser.Realtime.Registry.{find, Ref}
use geo_spatial_dispatch_ser.Geo.Memory.{geo_memory}
use geo_spatial_dispatch_ser.Realtime.Systems.{System, new_hub}
use geo_spatial_dispatch_ser.Realtime.Hub.{
  register_client, unregister_client, location_message, handle_location_broadcast,
}
use geo_spatial_dispatch_ser.Realtime.Handling.{read_message}
use geo_spatial_dispatch_ser.Realtime.Running.{
  Event, registering, reading, broadcasting, stopping, shutting_down, run, initial,
}
use geo_spatial_dispatch_ser.Realtime.Sound.{IsSound}
use geo_spatial_dispatch_ser.Realtime.Steps.{run-IsSound, initial-IsSound}
use geo_spatial_dispatch_ser.Realtime.Bounds.{IsBounded, run-IsBounded, initial-IsBounded}
use geo_spatial_dispatch_ser.Realtime.Kept.{IsConnected, IsClosed, IsKept}
use geo_spatial_dispatch_ser.Realtime.Lasting.{registering-IsKept}
use geo_spatial_dispatch_ser.Realtime.Replacing.{register_client-replaces}
use geo_spatial_dispatch_ser.Realtime.Broadcast.{receives, broadcast-receives}
use geo_spatial_dispatch_ser.Realtime.Publishing.{Publishes, read_message-Publishes}
use geo_spatial_dispatch_ser.Realtime.Book.{view, replay, run_refines}
use geo_spatial_dispatch_ser.Server.{server_hub}
use geo_spatial_dispatch_ser.Tests.Setup.{empty}

point : String → LocationPayload
point id = record {
  driver_id = id;
  longitude = whole (pos 10);
  latitude = whole (pos 0);
  heading = whole (pos 0);
  speed = whole (pos 0);
  accuracy = whole (pos 0);
}

-- A codec for the runs: a text is a message of that kind about driver "d1".
instance abbrev json : Json
json = record {
  encode_driver_location = λ p. p.driver_id;
  encode_error = λ p. p.code;
  encode_ack = λ p. p.status;
  encode_message = λ m. ok (join_key m.kind m.payload);
  decode_message = λ text. some (record { kind = text; payload = "d1"; timestamp = 0 });
  decode_location = λ text. some (point text);
  decode_subscribe = λ text. some (record { driver_id = text });
}

-- The server's hub before any connection.
abbrev start : System Store
start = initial server_hub (new_client "" "") (quiet empty)

-- Client 0 is driver "d1", client 1 is rider "u1" who follows the driver, and client 2 is a second
-- connection of the driver that the hub has not taken yet.
abbrev person : String → String → Bool → Client
person id kind follows = record {
  id = id;
  kind = kind;
  send = [];
  done = false;
  subscribed = λ driver. follows && driver == "d1";
}

abbrev opened : System Store
opened = record {
  hub = record (server_hub) {
    drivers = ("d1", 0) ∷ [];
    riders = ("u1", 1) ∷ [];
    stats = record {
      total_drivers = 1;
      total_riders = 1;
      messages_per_sec = 0;
      total_messages = 0;
    };
  };
  clients = λ r. if nat_eq r 1 then person "u1" "rider" true else person "d1" "driver" false;
  next = 3;
  waiting = [];
  world = quiet empty;
}

find-single : (k id : String) (q r : Ref) → find id ((k, q) ∷ []) ≡ some r → (k ≡ id) × (q ≡ r)
unfolding find
find-single k id q r e = ground (arith, eq_iff k id)

opened-IsSound : IsSound opened
unfolding find is_driver server_hub new_hub
opened-IsSound = record {
  drivers_counted = refl;
  riders_counted = refl;
  drivers_once = (refl, tt);
  riders_once = (refl, tt);
  drivers_named =
      λ id r e. let (same, it) = find-single "d1" id 0 r e in rw (sym it) (same, refl, omega arith);
  riders_named =
      λ id r e. let (same, it) = find-single "u1" id 1 r e in rw (sym it) (same, refl, omega arith);
  emptied = λ e. absurd (cc e);
}

-- The driver sends its position, and the hub passes it on.
abbrev opening : List Event
opening =
    registering false 2
    ∷ reading false 0 2 "location_update"
    ∷ broadcasting (λ _. false) 0
    ∷ stopping
    ∷ shutting_down
    ∷ []

start-IsSound : IsSound start
unfolding server_hub
start-IsSound = initial-IsSound _ _ (new_client "" "") (quiet empty)

start-IsBounded : IsBounded start
unfolding server_hub
start-IsBounded = initial-IsBounded _ _ "" "" (quiet empty)

run-IsSound_example : IsSound (run opening start)
run-IsSound_example = run-IsSound opening start start-IsSound

run-IsBounded_example : IsBounded (run opening start)
run-IsBounded_example = run-IsBounded opening start start-IsBounded

registering-IsKept_example :
    IsKept 2 (run (registering false 2 ∷ stopping ∷ shutting_down ∷ []) opened)
registering-IsKept_example =
    registering-IsKept false 2 (stopping ∷ shutting_down ∷ []) opened opened-IsSound (omega arith)

register_client-replaces_example :
    let t = register_client 2 opened in IsClosed 0 t × IsConnected 2 t × (unregister_client 0 t ≡ t)
unfolding find is_driver
register_client-replaces_example =
    register_client-replaces 2 0 opened (λ e. omega (arith, e)) refl refl refl

broadcast-receives_example :
    (handle_location_broadcast (λ _. false) 0 (point "d1") opened).clients 1 ≡ (
      let c = opened.clients 1 in
      if receives (λ _. false) 0 1 "d1" opened
      then record c { send = c.send ++ ("driver_location:d1" ∷ []) }
      else c)
unfolding location_message point
broadcast-receives_example =
    broadcast-receives (λ _. false) 0 (point "d1") "driver_location:d1" opened opened-IsSound refl 1

read_message-Publishes_example :
    Publishes 0 opened (read_message false 0 0 "location_update" opened)
read_message-Publishes_example = read_message-Publishes false 0 0 "location_update" opened

run_refines_example : view (run opening start) ≡ replay opening (view start)
run_refines_example = run_refines opening start
