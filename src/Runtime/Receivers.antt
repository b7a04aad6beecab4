-- ===== src/Runtime/Receivers.antt =====
-- nats/runtime_receivers.go, and checkEndpointStreams of nats/jetstream.go: what Start opens.
use service_mesh_nats_go.Prelude.{
  String, Bool, ◌||◌, List, [], ◌∷◌, ◌++◌, Option, none, some, ◌==◌, if◌then◌else◌,
}
use service_mesh_nats_go.Errors.{
  covered, stream_covers_route, stream_not_found, no_responders, jetstream_not_enabled,
  jetstream_not_enabled_for_account, Error, wrapped, is, Result, ok, err, ◌>>=◌, guard, ◌>>◌,
}
use service_mesh_nats_go.JetStream.{JsSettings, PullOption, consume_opts}
use service_mesh_nats_go.Consumer.{JsConsumer, Streams, open_consumer}
use service_mesh_nats_go.Serve.{Handler, endpoint, subscriber}
use service_mesh_nats_go.Runtime.{Subscription}

-- What the server and nats.go answer to Start. Two receivers of one subject may get different
-- answers, so the receiver is an argument too.
pub record Server : Type 0 where
  -- js.StreamNameBySubject
  pub stream_by_subject : String → Result String
  -- nc.Subscribe, and nc.QueueSubscribe with a queue group
  pub subscribe : Subscription → String → Option Error
  pub queue_subscribe : Subscription → String → String → Option Error
  pub streams : Subscription → Streams
  -- Consume of a consumer, with the pull options
  pub consume : Subscription → JsConsumer → List PullOption → Option Error
  -- nc.FlushWithContext
  pub flush : Option Error

-- A server that answers so has no JetStream.
abbrev pub without_jetstream : Error → Bool
without_jetstream e =
    is e no_responders || is e jetstream_not_enabled || is e jetstream_not_enabled_for_account

-- The branches of the switch for an endpoint, given what the rest of the loop returns.
abbrev pub judge : String → Result String → Option Error → Option Error
judge subject (ok name) rest = some (wrapped stream_covers_route (covered subject name))
judge subject (err e) rest =
    if is e stream_not_found then rest else if without_jetstream e then none else some e

abbrev pub check_handler : Handler → String → (String → Result String) → Option Error → Option Error
check_handler (subscriber h) subject lookup rest = rest
check_handler (endpoint h) subject lookup rest = judge subject (lookup subject) rest

unfoldable pub check_endpoint_streams : (String → Result String) → List Subscription → Option Error
check_endpoint_streams lookup [] = none
check_endpoint_streams lookup (b ∷ subs) =
    check_handler b.handler b.subject lookup (check_endpoint_streams lookup subs)

unfoldable pub subscribe : Server → Subscription → Option Error
subscribe server b =
    if b.queue == ""
    then server.subscribe b b.subject
    else server.queue_subscribe b b.subject b.queue

unfoldable pub consume : Server → Subscription → JsSettings → Result JsConsumer
consume server b s = do
  c ← open_consumer (server.streams b) b.subject s
  guard (server.consume b c (consume_opts s.pull))
  ok c

pub record Opened : Type 0 where
  pub subs : List Subscription
  pub consumers : List JsConsumer

abbrev pub with_sub : Opened → Subscription → Opened
with_sub o b = record o { subs = o.subs ++ (b ∷ []) }

abbrev pub with_consumer : Opened → JsConsumer → Opened
with_consumer o c = record o { consumers = o.consumers ++ (c ∷ []) }

-- One receiver: what is open after it, and the error.
unfoldable pub open_one : Server → Subscription → Option JsSettings → Opened → Opened × Option Error
open_one server b (some s) o = elim (consume server b s) [
  | err e ↦ (o, some e)
  | ok c ↦ (with_consumer o c, none)
]
open_one server b none o = elim (subscribe server b) [
  | some e ↦ (o, some e)
  | none ↦ (with_sub o b, none)
]

-- The loop of openReceivers. The rest of the loop has no effect but what it returns, so it
-- may be computed first.
unfoldable pub open_each : Server → List Subscription → Opened → Opened × Option Error
open_each server [] o = (o, none)
open_each server (b ∷ subs) o =
    let (opened, e) = open_one server b b.js o in
    let rest = open_each server subs opened in elim e [ some f ↦ (opened, some f) | none ↦ rest ]

abbrev pub nothing : Opened
nothing = record { subs = []; consumers = [] }

unfoldable pub open_receivers : Server → List Subscription → Opened × Option Error
open_receivers server subs = elim (check_endpoint_streams server.stream_by_subject subs) [
  | some e ↦ (nothing, some e)
  | none ↦ open_each server subs nothing
]
