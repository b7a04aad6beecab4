-- ===== src/Tests/Runtimes.antt =====
-- A runtime with an endpoint, and its life.
use service_mesh_nats_go.Client.{check_open}
use service_mesh_nats_go.Go.Text.{is_space, is_print, join}
use service_mesh_nats_go.Target.{prepare_subscription, check_segments, merge_settings}
use service_mesh_nats_go.Prelude.{◌≡◌, refl, String, [], ◌∷◌, List, Option, none, some}
use service_mesh_nats_go.Prelude.Int.{pos}
use service_mesh_nats_go.Go.Duration.{exact}
use service_mesh_nats_go.Go.Map.{Map, get}
use service_mesh_nats_go.Mesh.{Endpoint}
use service_mesh_nats_go.Errors.{Error, sentinel, stream_not_found, no_responders, ok, err}
use service_mesh_nats_go.Errors
use service_mesh_nats_go.Config.{RuntimeSettings, unset_pull, parse_runtime_settings}
use service_mesh_nats_go.JetStream.{zero_config}
use service_mesh_nats_go.Serve.{value, Handler}
use service_mesh_nats_go.Runtime.{
  Subscription, stopped, Runtime, EndpointHandler, made, new, each, endpoint_subscription,
}
use service_mesh_nats_go.Runtime.Made.{IsNew, new-IsNew}
use service_mesh_nats_go.Runtime.Receivers.{
  Server, open_receivers, check_endpoint_streams, open_each, open_one, subscribe,
}
use service_mesh_nats_go.Runtime.Lifecycle.{
  Event, starts, stops, client_closes, start, after_all, check_startable, finish_start,
}
use service_mesh_nats_go.Runtime.Lifecycle.Started.{IsStarted, start-IsStarted}
use service_mesh_nats_go.Runtime.Lifecycle.Undone.{IsUntouched, IsUndone, start-IsUndone}
use service_mesh_nats_go.Runtime.Lifecycle.Reachable.{
  IsConsistent, after_all-IsConsistent, stopped_for_good,
}
use service_mesh_nats_go.Tests.Fixtures.{contract, create_order, open_client}

abbrev echo : EndpointHandler
echo d m = value m

abbrev endpoints : List (Endpoint EndpointHandler)
endpoints =
    record { target = create_order; consumer_group = ""; metadata = []; handler = some echo } ∷ []

abbrev config : Map String
config = ("deployment_group", "billing") ∷ []

-- What the endpoint becomes.
abbrev pub served : Subscription
served = record {
  subject = "orders.create";
  queue = "billing";
  target = create_order;
  handler = Handler.endpoint echo;
  js = none;
}

abbrev settings : RuntimeSettings
settings = record {
  deployment_group = "billing";
  concurrency = pos 8;
  max_deliver = pos 5;
  pull = unset_pull;
  logger = 0;
}

abbrev pub plain_runtime : Runtime
plain_runtime = made open_client settings (served ∷ [])

served_made : new exact contract (some open_client) config endpoints [] [] ≡ ok plain_runtime
unfolding new parse_runtime_settings get each endpoint_subscription prepare_subscription
    check_segments is_space is_print merge_settings join
served_made = refl

new-IsNew_example : IsNew exact contract (some open_client) config endpoints [] [] plain_runtime
new-IsNew_example =
    new-IsNew exact contract (some open_client) config endpoints [] [] plain_runtime served_made

-- A server without streams, whose queue subscriptions may fail.
abbrev server : Option Error → Server
server e = record {
  stream_by_subject = λ s. err (sentinel stream_not_found);
  subscribe = λ b s. none;
  queue_subscribe = λ b s q. e;
  streams = λ b. record { stream = λ s. ok tt; call = λ s c. ok zero_config };
  consume = λ b c opts. none;
  flush = none;
}

starts_well : (start (server none) none plain_runtime).error ≡ none
unfolding start check_startable check_open finish_start open_receivers check_endpoint_streams
    Errors.is open_each open_one subscribe
starts_well = refl

start-IsStarted_example :
    IsStarted (server none) plain_runtime (start (server none) none plain_runtime).runtime
start-IsStarted_example = start-IsStarted (server none) none plain_runtime starts_well

abbrev lost : Error
lost = sentinel no_responders

starts_badly : (start (server (some lost)) none plain_runtime).error ≡ some lost
unfolding start check_startable check_open finish_start open_receivers check_endpoint_streams
    Errors.is open_each open_one subscribe
starts_badly = refl

start-IsUndone_example :
    IsUntouched plain_runtime (start (server (some lost)) none plain_runtime).runtime
    × IsUndone (server (some lost)) plain_runtime (start (server (some lost)) none plain_runtime)
start-IsUndone_example = start-IsUndone (server (some lost)) none plain_runtime lost starts_badly

-- A failed Start, one that succeeds, a Stop whose context is done first, and a Close.
abbrev events : List Event
events =
    starts (server (some lost)) none
    ∷ starts (server none) none
    ∷ stops (some lost)
    ∷ client_closes
    ∷ []

after_all-IsConsistent_example : IsConsistent (after_all events plain_runtime)
after_all-IsConsistent_example =
    after_all-IsConsistent open_client settings (served ∷ []) events refl

abbrev stopped_runtime : Runtime
stopped_runtime = record plain_runtime { state = stopped }

stopped_for_good_example :
    ((after_all events stopped_runtime).state ≡ stopped)
    × (start (server none) none (after_all events stopped_runtime) ≡ record {
      runtime = after_all events stopped_runtime;
      actions = [];
      error = some (sentinel Errors.stopped);
    })
stopped_for_good_example = stopped_for_good stopped_runtime events (server none) none refl
