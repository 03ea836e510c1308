-- ===== src/Realtime/Reading.antt =====
-- Reading messages and answering them leaves alone who is connected.
use geo_spatial_dispatch_ser.Prelude.{ℕ, String, Bool, Option, none, some}
use geo_spatial_dispatch_ser.Result.{Result, ok, err}
use geo_spatial_dispatch_ser.Float.{Float}
use geo_spatial_dispatch_ser.Realtime.Messages.{Message, LocationPayload, SubscribePayload, Json}
use geo_spatial_dispatch_ser.Realtime.Registry.{Ref}
use geo_spatial_dispatch_ser.Realtime.Systems.{System}
use geo_spatial_dispatch_ser.Realtime.Hub.{heartbeat_driver}
use geo_spatial_dispatch_ser.Realtime.Handling.{
  error_reply, ack_reply, after_publish, own_location, handle_location_update, subscription,
  handle_subscribe, handle_unsubscribe, after_heartbeat, handle_heartbeat, handle_message, decoded,
  idle_read, read_message, resumed, resume_publish, stop_waiting,
}
use geo_spatial_dispatch_ser.Realtime.Tame.{send_error-Tame, send_ack-Tame, set_subscribed-Tame}
use geo_spatial_dispatch_ser.Realtime.Quiet.{
  Quiet, Quiet-refl, Quiet-trans, at_client-Quiet, waiting-Quiet, if-Quiet, queue_location-Quiet,
  publish_location-Quiet, heartbeat_driver-Quiet,
}

module _ ⦃F : Float⦄ ⦃J : Json⦄ {D : Type 0} where
  module _ (pick : Bool) (now : ℕ) (r : Ref) where
    error_reply-Quiet :
        (code text : String) (s : System D) → Quiet s (error_reply pick now r code text s)
    unfolding error_reply
    error_reply-Quiet code text s = at_client-Quiet r _ s (send_error-Tame pick now code text _)

    ack_reply-Quiet : (status : String) (s : System D) → Quiet s (ack_reply pick now r status s)
    unfolding ack_reply
    ack_reply-Quiet status s = at_client-Quiet r _ s (send_ack-Tame pick now status _)

    after_publish-Quiet :
        (location : LocationPayload) (o : Option (Result (Unit {0})) × System D)
        → Quiet o.1 (after_publish pick now r location o)
    unfolding after_publish
    after_publish-Quiet location (none, s) = waiting-Quiet s _
    after_publish-Quiet location (some (ok u), s) = Quiet-refl s
    after_publish-Quiet location (some (err e), s) = error_reply-Quiet _ _ s

    own_location-Quiet :
        (o : Option LocationPayload) (s : System D) → Quiet s (own_location pick now r o s)
    unfolding own_location
    own_location-Quiet none s = error_reply-Quiet _ _ s
    own_location-Quiet (some payload) s =
        Quiet-trans s _ _ (publish_location-Quiet pick _ s) (after_publish-Quiet _ _)

    location-Quiet :
        (msg : Message) (s : System D) → Quiet s (handle_location_update pick now r msg s)
    unfolding handle_location_update
    location-Quiet msg s = search (if-Quiet, error_reply-Quiet, own_location-Quiet)

    subscription-Quiet :
        (flag : Bool) (status invalid : String) (o : Option SubscribePayload) (s : System D)
        → Quiet s (subscription pick now r flag status invalid o s)
    unfolding subscription
    subscription-Quiet flag status invalid none s = error_reply-Quiet _ _ s
    subscription-Quiet flag status invalid (some payload) s =
        Quiet-trans s _ _ (at_client-Quiet r _ s (set_subscribed-Tame payload.driver_id flag _))
          (ack_reply-Quiet status _)

    subscribe-Quiet : (msg : Message) (s : System D) → Quiet s (handle_subscribe pick now r msg s)
    unfolding handle_subscribe
    subscribe-Quiet msg s = search (if-Quiet, error_reply-Quiet, subscription-Quiet)

    unsubscribe-Quiet :
        (msg : Message) (s : System D) → Quiet s (handle_unsubscribe pick now r msg s)
    unfolding handle_unsubscribe
    unsubscribe-Quiet msg s = search (if-Quiet, error_reply-Quiet, subscription-Quiet)

    after_heartbeat-Quiet :
        (o : Result (Unit {0}) × System D) → Quiet o.1 (after_heartbeat pick now r o)
    unfolding after_heartbeat
    after_heartbeat-Quiet (ok u, s) = ack_reply-Quiet _ s
    after_heartbeat-Quiet (err e, s) = error_reply-Quiet _ _ s

    beaten-Quiet :
        (id : String) (s : System D) → Quiet s (after_heartbeat pick now r (heartbeat_driver id s))
    beaten-Quiet id s = Quiet-trans s _ _ (heartbeat_driver-Quiet id s) (after_heartbeat-Quiet _)

    heartbeat-Quiet : (s : System D) → Quiet s (handle_heartbeat pick now r s)
    unfolding handle_heartbeat
    heartbeat-Quiet s = search (if-Quiet, error_reply-Quiet, beaten-Quiet)

    handle_message-Quiet :
        (msg : Message) (s : System D) → Quiet s (handle_message pick now r msg s)
    unfolding handle_message
    handle_message-Quiet msg s =
        search (
          if-Quiet, location-Quiet, subscribe-Quiet, unsubscribe-Quiet, heartbeat-Quiet, Quiet-refl,
        )

    decoded-Quiet : (o : Option Message) (s : System D) → Quiet s (decoded pick now r o s)
    unfolding decoded
    decoded-Quiet none s = Quiet-refl s
    decoded-Quiet (some msg) s = handle_message-Quiet msg s

    idle_read-Quiet :
        (o : Option LocationPayload) (text : String) (s : System D)
        → Quiet s (idle_read pick now r o text s)
    unfolding idle_read
    idle_read-Quiet none text s = decoded-Quiet _ s
    idle_read-Quiet (some location) text s = Quiet-refl s

    pub read_message-Quiet :
        (text : String) (s : System D) → Quiet s (read_message pick now r text s)
    unfolding read_message
    read_message-Quiet text s = idle_read-Quiet _ text s

    resumed-Quiet : (o : Option LocationPayload) (s : System D) → Quiet s (resumed pick now r o s)
    unfolding resumed
    resumed-Quiet none s = Quiet-refl s
    resumed-Quiet (some location) s =
        let t : System D = record s { waiting = stop_waiting r s.waiting } in
        Quiet-trans s t _ (waiting-Quiet s _) (
          Quiet-trans t _ _ (queue_location-Quiet pick location t) (after_publish-Quiet location _))

    pub resume_publish-Quiet : (s : System D) → Quiet s (resume_publish pick now r s)
    unfolding resume_publish
    resume_publish-Quiet s = resumed-Quiet _ s
