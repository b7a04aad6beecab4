-- ===== src/Receive/Messages.antt =====
-- What a JetStream message is, its metadata for the handler, and its subscription.
use service_mesh_nats_go.Prelude.{ℕ, String, Option}
use service_mesh_nats_go.Prelude.Int.{ℤ}
use service_mesh_nats_go.Go.Platform.{Platform}
use service_mesh_nats_go.Go.Decimal.{format_uint}
use service_mesh_nats_go.Go.Map.{Map, put}
use service_mesh_nats_go.Mesh.{Target, Payload, Header, Contract}
use service_mesh_nats_go.Errors.{Error, Result}
use service_mesh_nats_go.JetStream.{JsSettings}
use service_mesh_nats_go.Runtime.{SubscriberHandler}

-- The keys that the transport adds.
abbrev pub stream_metadata_key : String
stream_metadata_key = "Mesh-Nats-Stream"

abbrev pub consumer_metadata_key : String
consumer_metadata_key = "Mesh-Nats-Consumer"

abbrev pub stream_sequence_metadata_key : String
stream_sequence_metadata_key = "Mesh-Nats-Stream-Sequence"

abbrev pub consumer_sequence_metadata_key : String
consumer_sequence_metadata_key = "Mesh-Nats-Consumer-Sequence"

abbrev pub num_pending_metadata_key : String
num_pending_metadata_key = "Mesh-Nats-Num-Pending"

abbrev pub timestamp_metadata_key : String
timestamp_metadata_key = "Mesh-Nats-Timestamp"

-- jetstream.MsgMetadata
pub record MsgMetadata : Type 0 where
  pub num_delivered : ℕ
  pub stream : String
  pub consumer : String
  pub stream_sequence : ℕ
  pub consumer_sequence : ℕ
  pub num_pending : ℕ
  pub timestamp : ℤ

unfoldable pub delivery_metadata : Platform → Contract → Map String → MsgMetadata → Map String
delivery_metadata go mesh md meta =
    let a = put md mesh.delivery_attempt_key (format_uint meta.num_delivered) in
    let b = put a stream_metadata_key meta.stream in
    let c = put b consumer_metadata_key meta.consumer in
    let d = put c stream_sequence_metadata_key (format_uint meta.stream_sequence) in
    let e = put d consumer_sequence_metadata_key (format_uint meta.consumer_sequence) in
    let f = put e num_pending_metadata_key (format_uint meta.num_pending) in
    put f timestamp_metadata_key (go.format_time meta.timestamp)

-- A jetstream.Msg, with what its calls answer.
pub record Msg : Type 0 where
  pub header : Option Header
  pub payload : Payload
  pub metadata : Result MsgMetadata
  pub ack_error : Option Error
  pub nak_error : Option Error

-- A subscription of a JetStream subscriber.
pub record JsSubscription : Type 0 where
  pub subject : String
  pub target : Target
  pub handler : SubscriberHandler
  pub js : JsSettings
