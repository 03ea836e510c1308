-- ===== src/Realtime/Clients.antt =====
-- internal/realtime/client.go: one connection. The channel `done` is closed or not; `send` holds the
-- frames that wait for the writer. The socket, its deadlines and its pings are left out.
use geo_spatial_dispatch_ser.Prelude.{
  ℕ, suc, String, ◌==◌, Bool, true, false, not, ◌&&◌, ◌||◌, List, [], ◌∷◌, ◌++◌, ltb, if◌then◌else◌,
}
use geo_spatial_dispatch_ser.Result.{Result, ok, err, hub_closed, client_buffer_full}
use geo_spatial_dispatch_ser.Float.{Float}
use geo_spatial_dispatch_ser.Realtime.Messages.{type_error, type_ack, Message, Json}

abbrev pub ClientType : Type 0
ClientType = String

abbrev pub client_type_driver : ClientType
client_type_driver = "driver"

abbrev pub client_type_rider : ClientType
client_type_rider = "rider"

-- `kind` is the field `Type`; `subscribed` is a map from ids of drivers.
pub record Client : Type 0 where
  pub id : String
  pub kind : ClientType
  pub send : List String
  pub done : Bool
  pub subscribed : String → Bool

-- The capacity of `send`.
abbrev pub send_capacity : ℕ
send_capacity = 256

abbrev pub length {ℓ} : {A : Type ℓ} → List A → ℕ
length [] = 0
length (x ∷ xs) = suc (length xs)

unfoldable pub new_client : String → ClientType → Client
new_client id kind = record {
  id = id;
  kind = kind;
  send = [];
  done = false;
  subscribed = λ _. false;
}

unfoldable pub is_driver : Client → Bool
is_driver c = c.kind == client_type_driver

unfoldable pub is_rider : Client → Bool
is_rider c = c.kind == client_type_rider

unfoldable pub close : Client → Client
close c = record c { done = true }

unfoldable pub is_subscribed_to : String → Client → Bool
is_subscribed_to driver_id c = c.subscribed driver_id

-- `subscribed[driver_id]` set or deleted.
unfoldable pub set_subscribed : String → Bool → Client → Client
set_subscribed driver_id flag c = record c {
  subscribed = λ other. if other == driver_id then flag else c.subscribed other;
}

-- `SendBytes`. Where the client is closed and has room, Go takes either case; `pick` says which.
unfoldable pub send_bytes : Bool → String → Client → Result (Unit {0}) × Client
send_bytes pick frame c =
    let room = ltb (length c.send) send_capacity in
    if c.done && (not room || pick)
    then (err hub_closed, c)
    else if room
    then (ok tt, record c { send = c.send ++ (frame ∷ []) })
    else (err client_buffer_full, c)

module _ ⦃F : Float⦄ ⦃J : Json⦄ where
  unfoldable pub send_encoded : Bool → Result String → Client → Result (Unit {0}) × Client
  send_encoded pick (ok frame) c = send_bytes pick frame c
  send_encoded pick (err e) c = (err e, c)

  -- `Send`
  unfoldable pub send_message : Bool → Message → Client → Result (Unit {0}) × Client
  send_message pick msg c = send_encoded pick (J.encode_message msg) c

  -- `now` is time.Now().UnixMilli().
  unfoldable pub send_error : Bool → ℕ → String → String → Client → Client
  send_error pick now code text c =
      let msg : Message = record {
        kind = type_error;
        payload = J.encode_error record { code = code; text = text };
        timestamp = now;
      } in
      (send_message pick msg c).1

  unfoldable pub send_ack : Bool → ℕ → String → Client → Client
  send_ack pick now status c =
      let msg : Message = record {
        kind = type_ack;
        payload = J.encode_ack record { message_id = ""; status = status };
        timestamp = now;
      } in
      (send_message pick msg c).1
