-- ===== src/Realtime/Messages.antt =====
-- internal/realtime/messages.go: the messages of a WebSocket connection, with encoding/json as a
-- parameter. Encoded text is a text; a nil slice of bytes is the empty one.
use geo_spatial_dispatch_ser.Prelude.{ℕ, String, Option}
use geo_spatial_dispatch_ser.Result.{Result}
use geo_spatial_dispatch_ser.Float.{Float}

abbrev pub MessageType : Type 0
MessageType = String

abbrev pub type_location_update : MessageType
type_location_update = "location_update"

abbrev pub type_subscribe : MessageType
type_subscribe = "subscribe"

abbrev pub type_unsubscribe : MessageType
type_unsubscribe = "unsubscribe"

abbrev pub type_heartbeat : MessageType
type_heartbeat = "heartbeat"

abbrev pub type_driver_location : MessageType
type_driver_location = "driver_location"

abbrev pub type_error : MessageType
type_error = "error"

abbrev pub type_ack : MessageType
type_ack = "ack"

-- `kind` is the field `Type`.
pub record Message : Type 0 where
  pub kind : MessageType
  pub payload : String
  pub timestamp : ℕ

pub record SubscribePayload : Type 0 where
  pub driver_id : String

-- `text` is the field `Message`.
pub record ErrorPayload : Type 0 where
  pub code : String
  pub text : String

pub record AckPayload : Type 0 where
  pub message_id : String
  pub status : String

module _ ⦃F : Float⦄ where
  open F use {Float64}

  pub record LocationPayload : Type 0 where
    pub driver_id : String
    pub longitude : Float64
    pub latitude : Float64
    pub heading : Float64
    pub speed : Float64
    pub accuracy : Float64

  pub record DriverLocationPayload : Type 0 where
    pub driver_id : String
    pub longitude : Float64
    pub latitude : Float64
    pub heading : Float64
    pub speed : Float64
    pub eta : Float64

  -- json.Marshal and json.Unmarshal at the types that the connections use.
  pub record Json : Type 0 where
    pub encode_driver_location : DriverLocationPayload → String
    pub encode_error : ErrorPayload → String
    pub encode_ack : AckPayload → String
    pub encode_message : Message → Result String
    pub decode_message : String → Option Message
    pub decode_location : String → Option LocationPayload
    pub decode_subscribe : String → Option SubscribePayload
