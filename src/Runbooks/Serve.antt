-- ===== src/Runbooks/Serve.antt =====
-- docs/runbooks/cmd/serve/main.go: the way of main from NewClient to Stop.
pub mod Closed
use service_mesh_nats_go.Prelude.{String, List, [], ◌∷◌, ◌++◌, Option, none, some, if◌then◌else◌}
use service_mesh_nats_go.Go.Platform.{Platform}
use service_mesh_nats_go.Go.Map.{Map}
use service_mesh_nats_go.Mesh.{Kind, route, topic, Target, Endpoint, Contract}
use service_mesh_nats_go.Errors.{Error, Result, ok, err}
use service_mesh_nats_go.Client.{Client, close}
use service_mesh_nats_go.Client.Made.{Dialer, new_client}
use service_mesh_nats_go.Serve.{error}
use service_mesh_nats_go.Runtime.{Runtime, EndpointHandler, SubscriberHandler, new}
use service_mesh_nats_go.Runtime.Receivers.{Server}
use service_mesh_nats_go.Runtime.Lifecycle.{Action, start, stop}
use service_mesh_nats_go.Runtime.Lifecycle as Lifecycle
use service_mesh_nats_go.Runbooks.Flags.{flag_target}
use service_mesh_nats_go.Runbooks.ServeHandler.{ServeFlags, serve_config}

-- How main ends: log.Fatal after a call that failed, or with what Stop returned.
pub data Ended : Type 0 where
  client_failed new_failed start_failed : Error → Ended
  stopped_with : Option Error → Ended

-- Also the client at the end, if one was made, and what was done to the runtime's receivers.
pub record ServeRun : Type 0 where
  pub ended : Ended
  pub client : Option Client
  pub actions : List Action

abbrev pub after_start : Option Error → Lifecycle.Outcome → Option Error → ServeRun
after_start late o (some e) = record {
  ended = start_failed e;
  client = some (close o.runtime.client);
  actions = o.actions;
}
after_start late o none =
    let s = stop late o.runtime in
    record {
      ended = stopped_with s.error;
      client = some s.runtime.client;
      actions = o.actions ++ s.actions;
    }

abbrev pub with_runtime : Server → Option Error → Client → Result Runtime → ServeRun
with_runtime server late c (err e) = record {
  ended = new_failed e;
  client = some (close c);
  actions = [];
}
with_runtime server late c (ok r) = let o = start server none r in after_start late o o.error

-- The one endpoint or the one subscriber, by the kind of the target.
abbrev pub served : {H : Type 0} → ServeFlags → Target → H → Endpoint H
served f target h = record {
  target = target;
  consumer_group = f.group;
  metadata = f.set;
  handler = some h;
}

abbrev pub endpoints_of :
    ServeFlags → Target → Kind → EndpointHandler → List (Endpoint EndpointHandler)
endpoints_of f target route h = served f target h ∷ []
endpoints_of f target topic h = []

abbrev pub subscribers_of :
    ServeFlags → Target → Kind → SubscriberHandler → List (Endpoint SubscriberHandler)
subscribers_of f target route h = []
subscribers_of f target topic h = served f target h ∷ []

abbrev pub with_client :
    Platform
    → Contract
    → Server
    → Option Error
    → ServeFlags
    → Map String
    → EndpointHandler
    → SubscriberHandler
    → Result Client
    → ServeRun
with_client go mesh server late f cfg answers receives (err e) = record {
  ended = client_failed e;
  client = none;
  actions = [];
}
with_client go mesh server late f cfg answers receives (ok c) =
    let t = flag_target f.kind f.subject f.target in
    with_runtime server late c (
      new go mesh (some c) cfg (endpoints_of f t t.kind answers)
        (subscribers_of f t t.kind receives) [])

-- main, with its handlers. `late` is as in Stop.
unfoldable pub serve_main :
    Platform
    → Contract
    → Dialer
    → Server
    → Option Error
    → ServeFlags
    → String
    → EndpointHandler
    → SubscriberHandler
    → ServeRun
unfolding serve_config
serve_main go mesh dialer server late f url answers receives =
    let cfg = serve_config mesh f url in
    with_client go mesh server late f cfg answers receives (new_client go mesh dialer cfg).outcome
