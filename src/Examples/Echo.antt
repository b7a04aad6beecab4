-- ===== src/Examples/Echo.antt =====
-- examples/echo/main.go: an endpoint and a subscriber that are called through the runtime's client.
use service_mesh_nats_go.Prelude.{
  String, Bool, true, false, [], ◌∷◌, Option, none, some, if◌then◌else◌,
}
use service_mesh_nats_go.Prelude.Int.{ℤ}
use service_mesh_nats_go.Go.Platform.{Platform}
use service_mesh_nats_go.Go.Map.{Map}
use service_mesh_nats_go.Mesh.{Target, Message, Payload, Contract}
use service_mesh_nats_go.Errors.{Error, Result, ok, err}
use service_mesh_nats_go.Header.{Outcome, returned, panic}
use service_mesh_nats_go.Config.{url_key}
use service_mesh_nats_go.Client.{Client, Network, Context, request, publish}
use service_mesh_nats_go.Client.Made.{Dialer, new_client}
use service_mesh_nats_go.Serve.{value}
use service_mesh_nats_go.Runtime.{Runtime, EndpointHandler, new}
use service_mesh_nats_go.Runtime.Receivers.{Server}
use service_mesh_nats_go.Runtime.Lifecycle.{start, stop}
use service_mesh_nats_go.Runtime.Lifecycle as Lifecycle
use service_mesh_nats_go.Examples.{echo_target, created_target}
use service_mesh_nats_go.Examples.Server.{
  echo_reply, echo_endpoint, created_handler, created_subscriber,
}

abbrev pub echo_config : Contract → String → Map String
echo_config mesh url = (url_key, url) ∷ (mesh.deployment_group_key, "demo") ∷ []

-- What the process runs on. The context of ten seconds has a deadline, and an error at the publish
-- when it has ended by then; `now` and `later` are the clock's readings of the request; `arrives`
-- is what the subscriber receives before the context ends.
pub record Process : Type 0 where
  pub go : Platform
  pub mesh : Contract
  pub dialer : Dialer
  pub server : Server
  pub network : Network
  pub bytes : String → Payload
  pub nowhere : Target
  pub deadline : ℤ
  pub context_error : Option Error
  pub now : ℤ
  pub later : ℤ
  pub arrives : Option Message
  pub start_error : Option Error
  pub late : Option Error

abbrev pub echo_context : Process → Context
echo_context p = record { deadline = some p.deadline; error = p.context_error }

abbrev pub hello : Process → Message
hello p = record {
  target = echo_target;
  metadata = some (("Request-Id", "1") ∷ []);
  payload = p.bytes "hello";
}

abbrev pub order_event : Process → Message
order_event p = record { target = created_target; metadata = none; payload = p.bytes "order 42" }

-- A publish to the target of a route.
abbrev pub misdirected : Message
misdirected = record { target = echo_target; metadata = none; payload = [] }

-- How main ends. A log.Fatal skips the deferred Stop.
pub data Ended : Type 0 where
  connect_failed new_failed start_failed request_failed publish_failed : Error → Ended
  not_received crashed : Ended
  -- the reply, the event, and what the misdirected publish returned
  finished : Message → Message → Outcome (Result (Unit {0})) → Ended

abbrev pub after_event : Process → Client → Message → Option Message → Ended
after_event p c reply none = not_received
after_event p c reply (some event) =
    finished reply event
      (publish p.go p.mesh p.network c (echo_context p) p.now p.later misdirected []).outcome

abbrev pub after_publish : Process → Client → Message → Outcome (Result (Unit {0})) → Ended
after_publish p c reply panic = crashed
after_publish p c reply (returned (err e)) = publish_failed e
after_publish p c reply (returned (ok u)) = after_event p c reply p.arrives

abbrev pub after_request : Process → Client → Outcome (Result Message) → Ended
after_request p c panic = crashed
after_request p c (returned (err e)) = request_failed e
after_request p c (returned (ok reply)) =
    after_publish p c reply
      (publish p.go p.mesh p.network c (echo_context p) p.now p.later (order_event p) []).outcome

-- Does main reach its deferred calls? A panic runs them too.
abbrev pub reaches_end : Ended → Bool
reaches_end (finished reply event misused) = true
reaches_end crashed = true
reaches_end _ = false

-- Also the runtime at the end, if one was made.
pub record EchoRun : Type 0 where
  pub ended : Ended
  pub runtime : Option Runtime

abbrev pub calls_of : Process → Runtime → Ended
calls_of p r =
    after_request p r.client
      (request p.go p.mesh p.network r.client (echo_context p) p.now p.later (hello p) []).outcome

abbrev pub with_deferred : Process → Runtime → Ended → EchoRun
with_deferred p r ended = record {
  ended = ended;
  runtime = some (if reaches_end ended then (stop p.late r).runtime else r);
}

abbrev pub after_start : Process → Lifecycle.Outcome → Option Error → EchoRun
after_start p o (some e) = record { ended = start_failed e; runtime = some o.runtime }
after_start p o none = with_deferred p o.runtime (calls_of p o.runtime)

abbrev pub with_runtime : Process → Result Runtime → EchoRun
with_runtime p (err e) = record { ended = new_failed e; runtime = none }
with_runtime p (ok r) = let o = start p.server p.start_error r in after_start p o o.error

-- The handler of its endpoint.
abbrev pub demo_handler : Process → EndpointHandler
demo_handler p d m = value (echo_reply p.bytes p.nowhere "demo" m)

abbrev pub with_client : Process → Map String → Result Client → EchoRun
with_client p cfg (err e) = record { ended = connect_failed e; runtime = none }
with_client p cfg (ok c) = with_runtime p (
    new p.go p.mesh (some c) cfg (echo_endpoint (demo_handler p) ∷ [])
      (created_subscriber created_handler ∷ []) [])

-- main, given NATS_URL
unfoldable pub echo_main : Process → String → EchoRun
echo_main p url =
    let cfg = echo_config p.mesh url in
    with_client p cfg (new_client p.go p.mesh p.dialer cfg).outcome
