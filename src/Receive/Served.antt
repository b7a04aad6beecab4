-- ===== src/Receive/Served.antt =====
-- serveJetStream, from the call of the handler on, and abandon.
use service_mesh_nats_go.Prelude.{
  true, false, String, Bool, not, List, [], ◌∷◌, ◌++◌, Option, none, some, if◌then◌else◌,
}
use service_mesh_nats_go.Prelude.Int.{ℤ, pos, ltb_ℤ}
use service_mesh_nats_go.Go.Platform.{Platform}
use service_mesh_nats_go.Go.Map.{entries, get}
use service_mesh_nats_go.Mesh.{Message, Contract}
use service_mesh_nats_go.Errors.{Error, Result, ok, err}
use service_mesh_nats_go.Header.{incoming_metadata}
use service_mesh_nats_go.Config.{text_of}
use service_mesh_nats_go.JetStream.{AckPolicy, ack_double}
use service_mesh_nats_go.Consumer.{JsConsumer, last_delivery}
use service_mesh_nats_go.Delivery.{DeliveryState, begin, settle}
use service_mesh_nats_go.Serve.{call_subscriber}
use service_mesh_nats_go.Receive.Messages.{MsgMetadata, Msg, JsSubscription}
use service_mesh_nats_go.Receive.Logs.{
  Value, Log, warn, log_error, with_message_id, log_final_failure, text, number, flag, error,
}
use service_mesh_nats_go.Receive.Handed.{Given, given}

pub data Effect : Type 0 where
  -- the handler is called with the deadline of its context
  called : Option ℤ → Message → Effect
  logged : Log → Effect
  untracked : Effect
  acked : Effect
  -- with a timeout of its own
  double_acked : ℤ → Effect
  nacked : Effect
  nacked_with_delay : ℤ → Effect

abbrev pub attempt_attr : Option MsgMetadata → List (String × Value) → List (String × Value)
attempt_attr none rest = rest
attempt_attr (some meta) rest = ("delivery_attempt", number meta.num_delivered) ∷ rest

abbrev pub failure_logs : JsSubscription → Option MsgMetadata → Option String → List Effect
failure_logs b meta none = []
failure_logs b meta (some failed) =
    logged (
      log_error "nats: subscriber handler failed" (
        ("subject", text b.subject)
        ∷ ("stream", text b.js.stream)
        ∷ attempt_attr meta (("error", text failed) ∷ [])))
    ∷ []

-- Ack, DoubleAck or Nak failed.
abbrev pub reply_failed : JsSubscription → String → Option Error → List Effect
reply_failed b message none = []
reply_failed b message (some e) =
    logged (
      log_error message
        (("subject", text b.subject) ∷ ("stream", text b.js.stream) ∷ ("error", error e) ∷ []))
    ∷ []

unfoldable pub nak : JsSubscription → Effect
nak b = if ltb_ℤ (pos 0) b.js.nak_delay then nacked_with_delay b.js.nak_delay else nacked

abbrev pub final_failure : JsSubscription → JsConsumer → Option MsgMetadata → String → List Effect
final_failure b c none id = []
final_failure b c (some meta) id =
    if last_delivery c meta.num_delivered then logged (log_final_failure b c meta id) ∷ [] else []

abbrev pub ack_of : ℤ → AckPolicy → Effect
ack_of timeout ack_double = double_acked timeout
ack_of timeout _ = acked

-- The end of serveJetStream, for a delivery that this call settled. `timeout` is the client's
-- request timeout.
unfoldable pub reply_result :
    JsSubscription
    → ℤ
    → Msg
    → Option MsgMetadata
    → JsConsumer
    → String
    → Option String
    → List Effect
unfolding nak log_final_failure
reply_result b timeout m meta c id (some failed) =
    untracked ∷ nak b ∷ (reply_failed b "nats: nak failed" m.nak_error ++ final_failure b c meta id)
reply_result b timeout m meta c id none =
    untracked ∷ ack_of timeout b.js.ack ∷ reply_failed b "nats: ack failed" m.ack_error

pub record Served : Type 0 where
  pub state : DeliveryState
  pub consumer : JsConsumer
  pub effects : List Effect

abbrev pub log_all : List Log → List Effect
log_all [] = []
log_all (l ∷ ls) = logged l ∷ log_all ls

abbrev pub message_id : Contract → Given → String
message_id mesh g = text_of (get (entries g.message.metadata) mesh.message_id_key)

-- What happens to a delivery after its handler returned. `meanwhile` is what Stop made of its state
-- while the handler ran.
unfoldable pub settle_result :
    Contract
    → JsSubscription
    → ℤ
    → Msg
    → Given
    → DeliveryState
    → Option String
    → DeliveryState × List Effect
unfolding settle reply_result
settle_result mesh b timeout m g meanwhile herr =
    let id = message_id mesh g in
    if not g.consumer.acks
    then (meanwhile, [])
    else if (settle meanwhile).2
    then ((settle meanwhile).0, reply_result b timeout m g.meta g.consumer id herr)
    else ((settle meanwhile).0, [])

abbrev pub serve_given :
    Contract
    → JsSubscription
    → ℤ
    → Msg
    → (DeliveryState → DeliveryState)
    → DeliveryState
    → Given
    → Served
serve_given mesh b timeout m meanwhile s g =
    let herr = call_subscriber (b.handler g.deadline g.message) in
    let (s', replies) = settle_result mesh b timeout m g (meanwhile s) herr in
    record {
      state = s';
      consumer = g.consumer;
      effects =
          log_all g.logs ++ (called g.deadline g.message ∷ (failure_logs b g.meta herr ++ replies));
    }

abbrev pub serve_handed :
    Contract
    → JsSubscription
    → ℤ
    → Msg
    → (DeliveryState → DeliveryState)
    → DeliveryState
    → Option Given
    → Option Served
serve_handed mesh b timeout m meanwhile s none = none
serve_handed mesh b timeout m meanwhile s (some g) =
    some (serve_given mesh b timeout m meanwhile s g)

-- After d.begin(), given its result.
abbrev pub serve_begun :
    Platform
    → Contract
    → JsSubscription
    → JsConsumer
    → ℤ
    → Msg
    → ℤ
    → ℤ
    → (DeliveryState → DeliveryState)
    → DeliveryState × Bool
    → Option Served
serve_begun go mesh b c timeout m arrival now meanwhile (s, false) =
    some (record { state = s; consumer = c; effects = [] })
serve_begun go mesh b c timeout m arrival now meanwhile (s, true) =
    serve_handed mesh b timeout m meanwhile s (given go mesh b c m arrival now)

-- The delivery is in state `s` when a handler slot is free, and `meanwhile` is what Stop does to
-- its state while the handler runs.
unfoldable pub serve_jetstream :
    Platform
    → Contract
    → JsSubscription
    → JsConsumer
    → ℤ
    → Msg
    → ℤ
    → ℤ
    → (DeliveryState → DeliveryState)
    → DeliveryState
    → Option Served
unfolding begin given settle_result
serve_jetstream go mesh b c timeout m arrival now meanwhile s =
    serve_begun go mesh b c timeout m arrival now meanwhile (if c.acks then begin s else (s, true))

abbrev pub metadata_attrs : Result MsgMetadata → List (String × Value) → List (String × Value)
metadata_attrs (err e) rest = rest
metadata_attrs (ok meta) rest =
    ("consumer", text meta.consumer) ∷ ("stream_sequence", number meta.stream_sequence) ∷ rest

abbrev pub error_attr : Option Error → List (String × Value)
error_attr none = []
error_attr (some e) = ("error", error e) ∷ []

-- abandon, of a delivery that it settles.
abbrev pub abandoned : Contract → JsSubscription → Msg → Bool → List Effect
abandoned mesh b m running =
    let id = text_of (get (incoming_metadata mesh m.header) mesh.message_id_key) in
    untracked
    ∷ nak b
    ∷ logged (
        warn "nats: nacked a message at the end of the drain" (
          ("subject", text b.subject)
          ∷ ("stream", text b.js.stream)
          ∷ metadata_attrs m.metadata
              (with_message_id id (("handler_running", flag running) ∷ error_attr m.nak_error))))
    ∷ []

unfoldable pub abandon :
    Contract → JsSubscription → Msg → DeliveryState → DeliveryState × List Effect
unfolding settle
abandon mesh b m s =
    let (s', running, settled_now) = settle s in
    if settled_now then (s', abandoned mesh b m running) else (s', [])
