-- ===== src/Realtime/Publishing.antt =====
-- What reading a message can put into the queue of the broadcast.
use geo_spatial_dispatch_ser.Prelude.{
  ℕ, String, ◌≡◌, refl, Bool, true, not, Option, none, some, [], ◌∷◌, ◌++◌, arith, if-holds, ltb,
  ◌==◌, ◌&&◌,
}
use geo_spatial_dispatch_ser.Result.{Result, ok, err}
use geo_spatial_dispatch_ser.Float.{Float}
use geo_spatial_dispatch_ser.Client.{World, Io}
use geo_spatial_dispatch_ser.Realtime.Messages.{
  Message, LocationPayload, SubscribePayload, Json, type_location_update, type_subscribe,
  type_unsubscribe, type_heartbeat,
}
use geo_spatial_dispatch_ser.Realtime.Clients.{is_driver, is_rider, length}
use geo_spatial_dispatch_ser.Realtime.Registry.{Ref}
use geo_spatial_dispatch_ser.Realtime.Systems.{System, at_client, broadcast_capacity}
use geo_spatial_dispatch_ser.Realtime.Hub.{
  queue_location, persisted, persist, publish_location, beat, heartbeat_driver,
}
use geo_spatial_dispatch_ser.Realtime.Handling.{
  error_reply, ack_reply, after_publish, own_location, handle_location_update, subscription,
  handle_subscribe, handle_unsubscribe, after_heartbeat, handle_heartbeat, handle_message, decoded,
  idle_read, read_message,
}

module _ ⦃F : Float⦄ {D : Type 0} where
  -- The location handler, if there is one, has taken the location.
  abbrev HasAccepted :
      Option (LocationPayload → Io D (Unit {0})) → LocationPayload → World D → Type 0
  HasAccepted none location w = Unit
  HasAccepted (some handler) location w = (handler location w).0 ≡ ok tt

  -- From `s` to `t` the queue and the waiting readers are the same, or they have one more location.
  pub data Publishes (r : Ref) (s : System D) : System D → Type 0 where
    nothing :
        (t : System D)
        → t.hub.broadcast_location ≡ s.hub.broadcast_location
        → t.waiting ≡ s.waiting
        → Publishes r s t
    queued :
        (location : LocationPayload) (t : System D)
        → is_driver (s.clients r) ≡ true
        → location.driver_id ≡ (s.clients r).id
        → HasAccepted s.hub.location_handler location s.world
        → t.hub.broadcast_location ≡ s.hub.broadcast_location ++ (location ∷ [])
        → t.waiting ≡ s.waiting
        → Publishes r s t
    delayed :
        (location : LocationPayload) (t : System D)
        → is_driver (s.clients r) ≡ true
        → location.driver_id ≡ (s.clients r).id
        → HasAccepted s.hub.location_handler location s.world
        → t.hub.broadcast_location ≡ s.hub.broadcast_location
        → t.waiting ≡ (r, location) ∷ s.waiting
        → Publishes r s t

module _ ⦃F : Float⦄ ⦃J : Json⦄ {D : Type 0} (pick : Bool) (now : ℕ) (r : Ref) where
  reply-nothing :
      (code text : String) (s : System D) → Publishes r s (error_reply pick now r code text s)
  unfolding error_reply at_client
  reply-nothing code text s = nothing _ refl refl

  -- A location of the driver `r` that has been accepted, on its way into the queue of `t`.
  after-Publishes :
      (location : LocationPayload) (s t : System D)
      → is_driver (s.clients r) ≡ true
      → location.driver_id ≡ (s.clients r).id
      → HasAccepted s.hub.location_handler location s.world
      → t.hub.broadcast_location ≡ s.hub.broadcast_location
      → t.waiting ≡ s.waiting
      → Publishes r s (after_publish pick now r location (queue_location pick location t))
  unfolding queue_location after_publish error_reply at_client
  after-Publishes location s t kind own accepted queue wait =
      let P : Option (Result (Unit {0})) × System D → Type 0 =
        λ o. Publishes r s (after_publish pick now r location o) in
      if-holds P
        (ltb (length t.hub.broadcast_location) broadcast_capacity && not (t.hub.closed && pick)) _ _
        (λ _. queued location _ kind own accepted (rw queue refl) wait)
        (λ _.
          if-holds P t.hub.closed _ _ (λ _. nothing _ queue wait)
            (λ _. delayed location _ kind own accepted queue (rw wait refl)))

  persisted-Publishes :
      (location : LocationPayload) (s : System D) (handler : LocationPayload → Io D (Unit {0}))
      (o : Result (Unit {0}) × World D)
      → s.hub.location_handler ≡ some handler
      → handler location s.world ≡ o
      → is_driver (s.clients r) ≡ true
      → location.driver_id ≡ (s.clients r).id
      → Publishes r s (after_publish pick now r location (persisted pick location s o))
  unfolding persisted after_publish error_reply at_client
  persisted-Publishes location s handler (ok u, w) h e kind own =
      after-Publishes location s (record s { world = w }) kind own (rw (h, e) refl) refl refl
  persisted-Publishes location s handler (err x, w) h e kind own = nothing _ refl refl

  persist-Publishes :
      (location : LocationPayload) (s : System D) (o : Option (LocationPayload → Io D (Unit {0})))
      → s.hub.location_handler ≡ o
      → is_driver (s.clients r) ≡ true
      → location.driver_id ≡ (s.clients r).id
      → Publishes r s (after_publish pick now r location (persist pick location o s))
  unfolding persist
  persist-Publishes location s none h kind own =
      after-Publishes location s s kind own (rw h tt) refl refl
  persist-Publishes location s (some handler) h kind own =
      persisted-Publishes location s handler (handler location s.world) h refl kind own

  own-Publishes :
      (o : Option LocationPayload) (s : System D)
      → is_driver (s.clients r) ≡ true
      → Publishes r s (own_location pick now r o s)
  unfolding own_location publish_location
  own-Publishes none s kind = reply-nothing _ _ s
  own-Publishes (some payload) s kind =
      persist-Publishes (record payload { driver_id = (s.clients r).id }) s s.hub.location_handler
        refl kind refl

  location-Publishes :
      (msg : Message) (s : System D) → Publishes r s (handle_location_update pick now r msg s)
  unfolding handle_location_update
  location-Publishes msg s =
      if-holds (Publishes r s) (not (is_driver (s.clients r))) _ _ (λ _. reply-nothing _ _ s)
        (λ e. own-Publishes _ s (ground arith))

  subscription-nothing :
      (flag : Bool) (status invalid : String) (o : Option SubscribePayload) (s : System D)
      → Publishes r s (subscription pick now r flag status invalid o s)
  unfolding subscription ack_reply error_reply at_client
  subscription-nothing flag status invalid none s = nothing _ refl refl
  subscription-nothing flag status invalid (some payload) s = nothing _ refl refl

  subscribe-nothing :
      (msg : Message) (s : System D) → Publishes r s (handle_subscribe pick now r msg s)
  unfolding handle_subscribe
  subscribe-nothing msg s =
      if-holds (Publishes r s) (not (is_rider (s.clients r))) _ _ (λ _. reply-nothing _ _ s)
        (λ _. subscription-nothing _ _ _ _ s)

  unsubscribe-nothing :
      (msg : Message) (s : System D) → Publishes r s (handle_unsubscribe pick now r msg s)
  unfolding handle_unsubscribe
  unsubscribe-nothing msg s =
      if-holds (Publishes r s) (not (is_rider (s.clients r))) _ _ (λ _. reply-nothing _ _ s)
        (λ _. subscription-nothing _ _ _ _ s)

  replied-nothing :
      (s : System D) (o : Result (Unit {0}) × System D)
      → o.1.hub.broadcast_location ≡ s.hub.broadcast_location
      → o.1.waiting ≡ s.waiting
      → Publishes r s (after_heartbeat pick now r o)
  unfolding after_heartbeat ack_reply error_reply at_client
  replied-nothing s (ok u, t) q w = nothing _ q w
  replied-nothing s (err e, t) q w = nothing _ q w

  beat-nothing :
      (id : String) (o : Option (String → Io D (Unit {0}))) (s : System D)
      → Publishes r s (after_heartbeat pick now r (beat id o s))
  unfolding beat
  beat-nothing id none s = replied-nothing s _ refl refl
  beat-nothing id (some handler) s =
      if-holds (λ (o : Result (Unit {0}) × System D). Publishes r s (after_heartbeat pick now r o))
        s.hub.closed _ _ (λ _. replied-nothing s _ refl refl) (λ _. replied-nothing s _ refl refl)

  heartbeat-nothing : (s : System D) → Publishes r s (handle_heartbeat pick now r s)
  unfolding handle_heartbeat heartbeat_driver
  heartbeat-nothing s =
      if-holds (Publishes r s) (not (is_driver (s.clients r))) _ _ (λ _. reply-nothing _ _ s)
        (λ _. beat-nothing _ _ s)

  message-Publishes :
      (msg : Message) (s : System D) → Publishes r s (handle_message pick now r msg s)
  unfolding handle_message
  message-Publishes msg s =
      if-holds (Publishes r s) (msg.kind == type_location_update) _ _
        (λ _. location-Publishes msg s)
        (λ _.
          if-holds (Publishes r s) (msg.kind == type_subscribe) _ _ (λ _. subscribe-nothing msg s)
            (λ _.
              if-holds (Publishes r s) (msg.kind == type_unsubscribe) _ _
                (λ _. unsubscribe-nothing msg s)
                (λ _.
                  if-holds (Publishes r s) (msg.kind == type_heartbeat) _ s
                    (λ _. heartbeat-nothing s) (λ _. nothing s refl refl))))

  decoded-Publishes : (o : Option Message) (s : System D) → Publishes r s (decoded pick now r o s)
  unfolding decoded
  decoded-Publishes none s = nothing s refl refl
  decoded-Publishes (some msg) s = message-Publishes msg s

  idle-Publishes :
      (o : Option LocationPayload) (text : String) (s : System D)
      → Publishes r s (idle_read pick now r o text s)
  unfolding idle_read
  idle-Publishes none text s = decoded-Publishes _ s
  idle-Publishes (some location) text s = nothing s refl refl

  -- Whatever text a connection reads: the queue of the broadcast and the readers that wait to fill it
  -- stay as they are, or one location is added to one of the two, and then the connection is a driver's,
  -- the location is under the driver's own id, and the handler, where there is one, has accepted exactly
  -- this location in the database as it was.
  pub read_message-Publishes :
      (text : String) (s : System D) → Publishes r s (read_message pick now r text s)
  unfolding read_message
  read_message-Publishes text s = idle-Publishes _ text s
