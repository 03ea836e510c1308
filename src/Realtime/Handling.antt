-- ===== src/Realtime/Handling.antt =====
-- internal/realtime/client.go: what a connection does with the messages that it reads. `pick` is the
-- choice of the selects on the way, `now` is time.Now().UnixMilli().
use geo_spatial_dispatch_ser.Prelude.{
  ℕ, String, ◌==◌, Bool, true, false, not, Option, none, some, List, [], ◌∷◌, nat_eq, if◌then◌else◌,
}
use geo_spatial_dispatch_ser.Result.{Result, ok, err, message}
use geo_spatial_dispatch_ser.Float.{Float}
use geo_spatial_dispatch_ser.Realtime.Messages.{
  Message, LocationPayload, SubscribePayload, Json, type_location_update, type_subscribe,
  type_unsubscribe, type_heartbeat,
}
use geo_spatial_dispatch_ser.Realtime.Clients.{
  is_driver, is_rider, set_subscribed, send_error, send_ack,
}
use geo_spatial_dispatch_ser.Realtime.Registry.{Ref}
use geo_spatial_dispatch_ser.Realtime.Systems.{System, at_client}
use geo_spatial_dispatch_ser.Realtime.Hub.{publish_location, queue_location, heartbeat_driver}

module _ ⦃F : Float⦄ where
  -- The location with which the reader of `r` waits in `PublishLocation`.
  unfoldable pub waiting_location : Ref → List (Ref × LocationPayload) → Option LocationPayload
  waiting_location r [] = none
  waiting_location r ((q, location) ∷ rest) =
      let other = waiting_location r rest in if nat_eq q r then some location else other

  unfoldable pub stop_waiting : Ref → List (Ref × LocationPayload) → List (Ref × LocationPayload)
  stop_waiting r [] = []
  stop_waiting r ((q, location) ∷ rest) =
      let others = stop_waiting r rest in if nat_eq q r then others else (q, location) ∷ others

module _ ⦃F : Float⦄ ⦃J : Json⦄ {D : Type 0} (pick : Bool) (now : ℕ) (r : Ref) where
  unfoldable pub error_reply : String → String → System D → System D
  error_reply code text s = at_client r (send_error pick now code text) s

  unfoldable pub ack_reply : String → System D → System D
  ack_reply status s = at_client r (send_ack pick now status) s

  -- After `PublishLocation`; without a result the reader waits in it.
  unfoldable pub after_publish : LocationPayload → Option (Result (Unit {0})) × System D → System D
  after_publish location (none, s) = record s { waiting = (r, location) ∷ s.waiting }
  after_publish location (some (ok u), s) = s
  after_publish location (some (err e), s) = error_reply "location_update_failed" (message e) s

  unfoldable pub own_location : Option LocationPayload → System D → System D
  own_location none s = error_reply "invalid_payload" "Invalid location payload" s
  own_location (some payload) s =
      let location = record payload { driver_id = (s.clients r).id } in
      after_publish location (publish_location pick location s)

  unfoldable pub handle_location_update : Message → System D → System D
  handle_location_update msg s =
      if not (is_driver (s.clients r))
      then error_reply "permission_denied" "Only drivers can send location updates" s
      else own_location (J.decode_location msg.payload) s

  unfoldable pub subscription :
      Bool → String → String → Option SubscribePayload → System D → System D
  subscription flag status invalid none s = error_reply "invalid_payload" invalid s
  subscription flag status invalid (some payload) s =
      ack_reply status (at_client r (set_subscribed payload.driver_id flag) s)

  unfoldable pub handle_subscribe : Message → System D → System D
  handle_subscribe msg s =
      if not (is_rider (s.clients r))
      then error_reply "permission_denied" "Only riders can subscribe" s
      else subscription true "subscribed" "Invalid subscribe payload"
          (J.decode_subscribe msg.payload) s

  unfoldable pub handle_unsubscribe : Message → System D → System D
  handle_unsubscribe msg s =
      if not (is_rider (s.clients r))
      then error_reply "permission_denied" "Only riders can unsubscribe" s
      else subscription false "unsubscribed" "Invalid unsubscribe payload"
          (J.decode_subscribe msg.payload) s

  unfoldable pub after_heartbeat : Result (Unit {0}) × System D → System D
  after_heartbeat (ok u, s) = ack_reply "heartbeat" s
  after_heartbeat (err e, s) = error_reply "heartbeat_failed" (message e) s

  unfoldable pub handle_heartbeat : System D → System D
  handle_heartbeat s =
      if not (is_driver (s.clients r))
      then error_reply "permission_denied" "Only drivers can send heartbeats" s
      else after_heartbeat (heartbeat_driver (s.clients r).id s)

  unfoldable pub handle_message : Message → System D → System D
  handle_message msg s =
      if msg.kind == type_location_update
      then handle_location_update msg s
      else if msg.kind == type_subscribe
      then handle_subscribe msg s
      else if msg.kind == type_unsubscribe
      then handle_unsubscribe msg s
      else if msg.kind == type_heartbeat
      then handle_heartbeat s
      else s

  unfoldable pub decoded : Option Message → System D → System D
  decoded none s = s
  decoded (some msg) s = handle_message msg s

  unfoldable pub idle_read : Option LocationPayload → String → System D → System D
  idle_read none text s = decoded (J.decode_message text) s
  idle_read (some location) text s = s

  -- One round of `ReadPump`, which takes no message while it waits in `PublishLocation`.
  unfoldable pub read_message : String → System D → System D
  read_message text s = idle_read (waiting_location r s.waiting) text s

  unfoldable pub resumed : Option LocationPayload → System D → System D
  resumed none s = s
  resumed (some location) s =
      after_publish location
        (queue_location pick location (record s { waiting = stop_waiting r s.waiting }))

  -- The reader that waits in `PublishLocation` tries once more.
  unfoldable pub resume_publish : System D → System D
  resume_publish s = resumed (waiting_location r s.waiting) s
