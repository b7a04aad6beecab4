-- ===== src/Runtime.antt =====
-- nats/runtime.go: the runtime and New. Its children model Start and Stop.
pub mod Made
pub mod Receivers
pub mod Lifecycle
pub mod Opened
pub mod Missing
pub mod Accessors
pub mod Waits
pub mod Stopping
use service_mesh_nats_go.Prelude.{
  ℕ, String, Bool, true, false, List, [], ◌∷◌, ◌++◌, Option, none, some, ◌==◌, if◌then◌else◌,
}
use service_mesh_nats_go.Prelude.Int.{ℤ}
use service_mesh_nats_go.Go.Platform.{Platform}
use service_mesh_nats_go.Go.Map.{Map, get}
use service_mesh_nats_go.Mesh.{route, topic, Target, Message, Endpoint, Contract}
use service_mesh_nats_go.Errors.{
  bad_setting, nil_client, nil_handler, Error, wrapped, plain, bad_config, Result, ok, err, guard,
  ◌>>=◌, ◌>>◌,
}
use service_mesh_nats_go.Target.{prepare_subscription, merge_settings}
use service_mesh_nats_go.Config.{
  Options, RuntimeSettings, parse_runtime_settings, stream_key, text_of,
}
use service_mesh_nats_go.JetStream.{JsSettings, parse_jetstream}
use service_mesh_nats_go.Client.{Client}
use service_mesh_nats_go.Consumer.{JsConsumer}
use service_mesh_nats_go.Serve.{Ran, Handler}

pub record Subscription : Type 0 where
  pub subject : String
  pub queue : String
  pub target : Target
  pub handler : Handler
  pub js : Option JsSettings

pub data RuntimeState : Type 0 where
  created running stopped : RuntimeState

pub record Runtime : Type 0 where
  pub client : Client
  pub logger : ℕ
  pub subscriptions : List Subscription
  -- the capacity of sem
  pub slots : ℤ
  pub state : RuntimeState
  pub subs : List Subscription
  pub consumers : List JsConsumer
  -- the atomic flag that Running reads
  pub is_running : Bool
  pub accepting : Bool
  -- is the handler context of the latest Start cancelled?
  pub cancelled : Bool

abbrev pub EndpointHandler : Type 0
EndpointHandler = Option ℤ → Message → Ran Message

abbrev pub SubscriberHandler : Type 0
SubscriberHandler = Option ℤ → Message → Ran (Unit {0})

-- A handler that may be nil.
abbrev pub present {ℓ} : {H : Type ℓ} → String → Option H → Result H
present subject none = err (plain (nil_handler subject))
present subject (some h) = ok h

-- The loop of New over the endpoints.
unfoldable pub endpoint_subscription :
    Platform → Contract → RuntimeSettings → Endpoint EndpointHandler → Result Subscription
endpoint_subscription go mesh s e = do
  b ← prepare_subscription go mesh e.target route "Endpoint" e.consumer_group s.deployment_group
  handler ← present b.subject e.handler
  let v = text_of (get (merge_settings e.target.metadata e.metadata) stream_key)
  guard (if v == "" then none else some (wrapped bad_config (bad_setting stream_key v)))
  ok (record {
    subject = b.subject;
    queue = b.queue;
    target = b.target;
    handler = Handler.endpoint handler;
    js = none;
  })

-- The loop of New over the subscribers.
unfoldable pub subscriber_subscription :
    Platform → Contract → RuntimeSettings → Endpoint SubscriberHandler → Result Subscription
subscriber_subscription go mesh s e = do
  b ← prepare_subscription go mesh e.target topic "Subscriber" e.consumer_group s.deployment_group
  handler ← present b.subject e.handler
  let md = merge_settings e.target.metadata e.metadata
  js ← parse_jetstream go md b.subject b.queue s.max_deliver s.pull
  ok (record {
    subject = b.subject;
    queue = b.queue;
    target = b.target;
    handler = Handler.subscriber handler;
    js = js;
  })

-- A loop that appends what it makes of each entry, and returns the first error.
unfoldable pub each {ℓ κ} : {A : Type ℓ} {B : Type κ} → (A → Result B) → List A → Result (List B)
each f [] = ok []
each f (x ∷ xs) = do y ← f x; ys ← each f xs; ok (y ∷ ys)

abbrev pub made : Client → RuntimeSettings → List Subscription → Runtime
made c s subscriptions = record {
  client = c;
  logger = s.logger;
  subscriptions = subscriptions;
  slots = s.concurrency;
  state = created;
  subs = [];
  consumers = [];
  is_running = false;
  accepting = false;
  cancelled = false;
}

unfoldable pub new :
    Platform
    → Contract
    → Option Client
    → Map String
    → List (Endpoint EndpointHandler)
    → List (Endpoint SubscriberHandler)
    → List (Options → Options)
    → Result Runtime
new go mesh none cfg endpoints subscribers opts = err (plain nil_client)
new go mesh (some c) cfg endpoints subscribers opts = do
  s ← parse_runtime_settings go mesh cfg opts
  served ← each (endpoint_subscription go mesh s) endpoints
  subscribed ← each (subscriber_subscription go mesh s) subscribers
  ok (made c s (served ++ subscribed))
