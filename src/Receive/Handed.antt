-- ===== src/Receive/Handed.antt =====
-- serveJetStream up to the call of the handler: what the handler is given.
use service_mesh_nats_go.Prelude.{String, List, [], ◌∷◌, Option, none, some, if◌then◌else◌}
use service_mesh_nats_go.Prelude.Int.{ℤ, ltb_ℤ}
use service_mesh_nats_go.Go.Platform.{Platform}
use service_mesh_nats_go.Go.Time.{sub_time}
use service_mesh_nats_go.Go.Map.{Map, get, put}
use service_mesh_nats_go.Mesh.{Message, Contract}
use service_mesh_nats_go.Errors.{ok, err}
use service_mesh_nats_go.Header.{incoming_metadata}
use service_mesh_nats_go.Config.{text_of}
use service_mesh_nats_go.Consumer.{JsConsumer, deadline}
use service_mesh_nats_go.Receive.Messages.{MsgMetadata, delivery_metadata, Msg, JsSubscription}
use service_mesh_nats_go.Receive.Logs.{Log, warn, log_late_start, text, error}

-- What the handler of a delivery is given, with what was logged before.
pub record Given : Type 0 where
  pub message : Message
  pub deadline : Option ℤ
  pub meta : Option MsgMetadata
  pub consumer : JsConsumer
  pub logs : List Log

abbrev pub message_of : JsSubscription → Msg → Map String → Message
message_of b m md = record { target = b.target; metadata = some md; payload = m.payload }

-- A late start is logged, when `now` is after the deadline.
abbrev pub late :
    Contract
    → JsSubscription
    → JsConsumer
    → MsgMetadata
    → Map String
    → ℤ
    → ℤ
    → JsConsumer × List Log
late mesh b c meta md now d =
    if ltb_ℤ d now
    then log_late_start b c meta (text_of (get md mesh.message_id_key)) now (sub_time now d)
    else (c, [])

-- A delivery with a deadline.
abbrev pub given_deadline :
    Platform
    → Contract
    → JsSubscription
    → JsConsumer
    → Msg
    → ℤ
    → MsgMetadata
    → Map String
    → ℤ
    → Given
given_deadline go mesh b c m now meta md d =
    let md' = put md mesh.deadline_key (go.format_time d) in
    let (c', logs) = late mesh b c meta md' now d in
    record {
      message = message_of b m md';
      deadline = some d;
      meta = some meta;
      consumer = c';
      logs = logs;
    }

-- With metadata: a consumer that acks has a deadline, unless its choice panics.
abbrev pub given_acking :
    Platform
    → Contract
    → JsSubscription
    → JsConsumer
    → Msg
    → ℤ
    → MsgMetadata
    → Map String
    → Option ℤ
    → Option Given
given_acking go mesh b c m now meta md none = none
given_acking go mesh b c m now meta md (some d) = some (given_deadline go mesh b c m now meta md d)

abbrev pub given_ok :
    Platform
    → Contract
    → JsSubscription
    → JsConsumer
    → Msg
    → ℤ
    → ℤ
    → MsgMetadata
    → Map String
    → Option Given
given_ok go mesh b c m arrival now meta md =
    if c.acks
    then given_acking go mesh b c m now meta md (deadline c arrival meta.num_delivered)
    else some (record {
      message = message_of b m md;
      deadline = none;
      meta = some meta;
      consumer = c;
      logs = [];
    })

-- serveJetStream up to the call of the handler. `none` is the panic of an index out of range.
unfoldable pub given :
    Platform → Contract → JsSubscription → JsConsumer → Msg → ℤ → ℤ → Option Given
unfolding delivery_metadata log_late_start
given go mesh b c m arrival now =
    let md = incoming_metadata mesh m.header in
    elim m.metadata [
      | err e ↦ some (record {
        message = message_of b m md;
        deadline = none;
        meta = none;
        consumer = c;
        logs =
            warn "nats: message has no JetStream metadata"
              (("subject", text b.subject) ∷ ("error", error e) ∷ [])
            ∷ [];
      })
      | ok meta ↦ given_ok go mesh b c m arrival now meta (delivery_metadata go mesh md meta)
    ]
