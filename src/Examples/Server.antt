-- ===== src/Examples/Server.antt =====
-- examples/server/main.go: its configuration, its two handlers, and the way from NewClient to Stop.
use service_mesh_nats_go.Prelude.{
  String, Bool, List, [], ◌∷◌, ◌++◌, Option, none, some, if◌then◌else◌,
}
use service_mesh_nats_go.Prelude.Int.{ℤ, ltb_ℤ}
use service_mesh_nats_go.Go.Platform.{Platform}
use service_mesh_nats_go.Go.Map.{Map}
use service_mesh_nats_go.Mesh.{Target, Message, Endpoint, Payload, Contract}
use service_mesh_nats_go.Errors.{Error, Result, ok, err}
use service_mesh_nats_go.Config.{url_key, name_key}
use service_mesh_nats_go.Client.{Client}
use service_mesh_nats_go.Client.Made.{Dialer, new_client}
use service_mesh_nats_go.Serve.{Ran, value, error}
use service_mesh_nats_go.Runtime.{Runtime, EndpointHandler, SubscriberHandler, new}
use service_mesh_nats_go.Runtime.Receivers.{Server}
use service_mesh_nats_go.Runtime.Lifecycle.{Action, start, stop}
use service_mesh_nats_go.Runtime.Lifecycle as Lifecycle
use service_mesh_nats_go.Examples.{echo_target, created_target, or_default, payload_eq}

-- NATS_URL, INSTANCE and DEPLOYMENT
pub record Environment : Type 0 where
  pub url : String
  pub instance_name : String
  pub deployment : String

abbrev pub instance_of : Environment → String
instance_of env = or_default env.instance_name "server"

abbrev pub server_config : Contract → Environment → Map String
server_config mesh env =
    (url_key, env.url)
    ∷ (name_key, instance_of env)
    ∷ (mesh.deployment_group_key, or_default env.deployment "demo")
    ∷ []

-- One call of the slow handler: when its timer of five seconds fires, when Stop cancels its context
-- if it does, and which of two cases a select takes that finds both ready.
pub record Wait : Type 0 where
  pub timer : ℤ
  pub cancelled : Option ℤ
  pub prefers_context : Bool

-- When a context ends, and the text of its error.
abbrev pub context_end : Option ℤ → Option ℤ → Option (ℤ × String)
context_end none none = none
context_end (some d) none = some (d, "context deadline exceeded")
context_end none (some c) = some (c, "context canceled")
context_end (some d) (some c) =
    if ltb_ℤ c d then some (c, "context canceled") else some (d, "context deadline exceeded")

-- The select: the error's text when the context's case is taken.
abbrev pub select_wait : Wait → Option (ℤ × String) → Option String
select_wait w none = none
select_wait w (some (t, text)) =
    if ltb_ℤ t w.timer
    then some text
    else if ltb_ℤ w.timer t
    then none
    else if w.prefers_context
    then some text
    else none

-- Echoed-By and "echo: " in front of the payload. `nowhere` is the zero Target.
abbrev pub echo_reply : (String → Payload) → Target → String → Message → Message
echo_reply bytes nowhere by m = record {
  target = nowhere;
  metadata = some (("Echoed-By", by) ∷ []);
  payload = bytes "echo: " ++ m.payload;
}

abbrev pub after_wait : Option String → Message → Ran Message
after_wait none reply = value reply
after_wait (some text) reply = error text

-- The endpoint's handler. The text is that of os.ErrInvalid.
unfoldable pub echo_handler : (String → Payload) → Target → String → Wait → EndpointHandler
echo_handler bytes nowhere by w d m =
    if payload_eq m.payload (bytes "fail")
    then error "invalid argument"
    else if payload_eq m.payload (bytes "slow")
    then after_wait (select_wait w (context_end d w.cancelled)) (echo_reply bytes nowhere by m)
    else value (echo_reply bytes nowhere by m)

-- The subscriber's handler, which only logs.
abbrev pub created_handler : SubscriberHandler
created_handler d m = value tt

abbrev pub echo_endpoint : EndpointHandler → Endpoint EndpointHandler
echo_endpoint h = record {
  target = echo_target;
  consumer_group = "";
  metadata = [];
  handler = some h;
}

abbrev pub created_subscriber : SubscriberHandler → Endpoint SubscriberHandler
created_subscriber h = record {
  target = created_target;
  consumer_group = "";
  metadata = [];
  handler = some h;
}

-- How main ends: log.Fatal after a call that failed, or with what Stop returned.
pub data Ended : Type 0 where
  connect_failed new_failed start_failed : Error → Ended
  stopped_with : Option Error → Ended

-- Also the runtime at the end, if one was made, and what was done to its receivers.
pub record ServerRun : Type 0 where
  pub ended : Ended
  pub runtime : Option Runtime
  pub actions : List Action

-- `late` is as in Stop: the error of its context when that ends before the drain.
abbrev pub after_start : Option Error → Lifecycle.Outcome → Option Error → ServerRun
after_start late o (some e) = record {
  ended = start_failed e;
  runtime = some o.runtime;
  actions = o.actions;
}
after_start late o none =
    let s = stop late o.runtime in
    record {
      ended = stopped_with s.error;
      runtime = some s.runtime;
      actions = o.actions ++ s.actions;
    }

abbrev pub with_runtime : Server → Option Error → Result Runtime → ServerRun
with_runtime server late (err e) = record { ended = new_failed e; runtime = none; actions = [] }
with_runtime server late (ok r) = let o = start server none r in after_start late o o.error

abbrev pub with_client :
    Platform
    → Contract
    → Server
    → Option Error
    → Map String
    → EndpointHandler
    → SubscriberHandler
    → Result Client
    → ServerRun
with_client go mesh server late cfg echo created (err e) = record {
  ended = connect_failed e;
  runtime = none;
  actions = [];
}
with_client go mesh server late cfg echo created (ok c) =
    with_runtime server late
      (new go mesh (some c) cfg (echo_endpoint echo ∷ []) (created_subscriber created ∷ []) [])

-- main, with its handlers
unfoldable pub server_main :
    Platform → Contract → Dialer → Server → Option Error → Environment → EndpointHandler → ServerRun
server_main go mesh dialer server late env echo =
    let cfg = server_config mesh env in
    with_client go mesh server late cfg echo created_handler (new_client go mesh dialer cfg).outcome
