-- ===== src/Examples/Finished.antt =====
-- How examples/echo/main.go ends when every call before the last has succeeded.
use service_mesh_nats_go.Prelude.{String, true, ◌≡◌, refl, [], Option, none, some}
use service_mesh_nats_go.Go.Map.{Map}
use service_mesh_nats_go.Mesh.{route, topic, Message}
use service_mesh_nats_go.Errors.{wrong_kind, kind_mismatch, Error, wrapped, Result, ok, err}
use service_mesh_nats_go.Header.{Outcome, returned, panic}
use service_mesh_nats_go.Target.{check_kind}
use service_mesh_nats_go.Client.{Client, prepare_publish, publish}
use service_mesh_nats_go.Runtime.{Runtime, running, stopped}
use service_mesh_nats_go.Runtime.Lifecycle.{start, stop, stop_at}
use service_mesh_nats_go.Runtime.Lifecycle as Lifecycle
use service_mesh_nats_go.Runtime.Lifecycle.Closed.{stop-running}
use service_mesh_nats_go.Runtime.Lifecycle.Started.{start-IsStarted}
use service_mesh_nats_go.Examples.Echo.{
  Process, echo_context, misdirected, Ended, finished, after_event, after_publish, after_request,
  calls_of, EchoRun, with_deferred, after_start, with_runtime, with_client, echo_main,
}

-- What a publish to the target of a route returns.
abbrev pub refused_kind : Outcome (Result (Unit {0}))
refused_kind = returned (err (wrapped kind_mismatch (wrong_kind "Publish" topic route)))

publish-misdirected :
    (p : Process) (c : Client)
    → (publish p.go p.mesh p.network c (echo_context p) p.now p.later misdirected []).outcome
      ≡ refused_kind
unfolding publish prepare_publish check_kind
publish-misdirected p c = refl

abbrev EndsRefused : Ended → Type 0
EndsRefused (finished reply event misused) = misused ≡ refused_kind
EndsRefused _ = Unit

after_event-EndsRefused :
    (p : Process) (c : Client) (reply : Message) (o : Option Message)
    → EndsRefused (after_event p c reply o)
after_event-EndsRefused p c reply none = tt
after_event-EndsRefused p c reply (some event) = publish-misdirected p c

after_publish-EndsRefused :
    (p : Process) (c : Client) (reply : Message) (o : Outcome (Result (Unit {0})))
    → EndsRefused (after_publish p c reply o)
after_publish-EndsRefused p c reply panic = tt
after_publish-EndsRefused p c reply (returned (err e)) = tt
after_publish-EndsRefused p c reply (returned (ok u)) = after_event-EndsRefused p c reply p.arrives

after_request-EndsRefused :
    (p : Process) (c : Client) (o : Outcome (Result Message)) → EndsRefused (after_request p c o)
after_request-EndsRefused p c panic = tt
after_request-EndsRefused p c (returned (err e)) = tt
after_request-EndsRefused p c (returned (ok reply)) = after_publish-EndsRefused p c reply _

-- The end of a run that finishes.
abbrev pub Finishes : EchoRun → Type 0
Finishes run =
    (reply event : Message) (misused : Outcome (Result (Unit {0})))
    → run.ended ≡ finished reply event misused
    → (misused ≡ refused_kind)
      × ((r : Runtime) × (run.runtime ≡ some r) × (r.state ≡ stopped) × (r.client.closed ≡ true))

with_deferred-Finishes :
    (p : Process) (r : Runtime) (ended : Ended)
    → r.state ≡ running
    → EndsRefused ended
    → Finishes (with_deferred p r ended)
with_deferred-Finishes p r (finished a b m) h refused = λ reply event misused e.
    let (s, c) = stop-running p.late r h in (cc, ((stop p.late r).runtime, refl, s, c))
with_deferred-Finishes p r (Ended.connect_failed x) h u = λ reply event misused e. cc
with_deferred-Finishes p r (Ended.new_failed x) h u = λ reply event misused e. cc
with_deferred-Finishes p r (Ended.start_failed x) h u = λ reply event misused e. cc
with_deferred-Finishes p r (Ended.request_failed x) h u = λ reply event misused e. cc
with_deferred-Finishes p r (Ended.publish_failed x) h u = λ reply event misused e. cc
with_deferred-Finishes p r Ended.not_received h u = λ reply event misused e. cc
with_deferred-Finishes p r Ended.crashed h u = λ reply event misused e. cc

after_start-Finishes :
    (p : Process) (o : Lifecycle.Outcome) (e : Option Error)
    → (e ≡ none → o.runtime.state ≡ running)
    → Finishes (after_start p o e)
after_start-Finishes p o (some x) h = λ reply event misused e. cc
after_start-Finishes p o none h =
    with_deferred-Finishes p o.runtime (calls_of p o.runtime) (h refl)
      (after_request-EndsRefused p o.runtime.client _)

with_runtime-Finishes : (p : Process) (r : Result Runtime) → Finishes (with_runtime p r)
with_runtime-Finishes p (err x) = λ reply event misused e. cc
with_runtime-Finishes p (ok r) =
    let o = start p.server p.start_error r in
    after_start-Finishes p o o.error (λ h. (start-IsStarted p.server p.start_error r h).state)

with_client-Finishes :
    (p : Process) (cfg : Map String) (c : Result Client) → Finishes (with_client p cfg c)
with_client-Finishes p cfg (err x) = λ reply event misused e. cc
with_client-Finishes p cfg (ok c) = with_runtime-Finishes p _

-- When the example echo gets as far as its last call, that publish to the target of a route is
-- refused as a mismatch of kinds, and the runtime is stopped and its client closed at the end.
pub echo_main-Finishes : (p : Process) (url : String) → Finishes (echo_main p url)
unfolding echo_main
echo_main-Finishes p url = with_client-Finishes p _ _
