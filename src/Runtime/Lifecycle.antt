-- ===== src/Runtime/Lifecycle.antt =====
-- nats/runtime.go and nats/runtime_receivers.go: Start, Stop and Running. A call returns what it
-- did to the receivers besides the runtime.
pub mod Started
pub mod Closed
pub mod Undone
pub mod Reachable
use service_mesh_nats_go.Prelude.{
  Bool, true, false, List, [], ◌∷◌, ◌++◌, map, is_empty, Option, none, some, or_else, if◌then◌else◌,
}
use service_mesh_nats_go.Errors.{Error, sentinel, already_started}
use service_mesh_nats_go.Errors
use service_mesh_nats_go.Client.{Client, check_open, close}
use service_mesh_nats_go.Consumer.{JsConsumer}
use service_mesh_nats_go.Runtime.{Subscription, RuntimeState, created, running, stopped, Runtime}
use service_mesh_nats_go.Runtime.Receivers.{Server, Opened, open_receivers}

pub data Action : Type 0 where
  accepts : Bool → Action
  unsubscribed : Subscription → Action
  consumer_stopped : JsConsumer → Action
  handlers_cancelled : Action
  watches_missing : Action
  drained : Subscription → Action
  consumer_drained : JsConsumer → Action
  pending_abandoned : Action
  flushed : Action
  client_closed : Action

-- The runtime after a call, what was done, and the error.
pub record Outcome : Type 0 where
  pub runtime : Runtime
  pub actions : List Action
  pub error : Option Error

-- ctx.Err() is the second argument.
unfoldable pub check_startable : RuntimeState → Option Error → Option Error
check_startable running ctx_error = some (sentinel already_started)
check_startable stopped ctx_error = some (sentinel Errors.stopped)
check_startable created ctx_error = ctx_error

unfoldable pub abort_start : Opened → List Action
abort_start o =
    map unsubscribed o.subs
    ++ (map consumer_stopped o.consumers ++ (handlers_cancelled ∷ accepts false ∷ []))

-- The end of Start, once the receivers are opened and the connection is flushed, or one failed.
unfoldable pub finish_start : Runtime → Opened → Option Error → Outcome
finish_start r o (some e) = record {
  runtime = record r { accepting = false; cancelled = true };
  actions = accepts true ∷ abort_start o;
  error = some e;
}
finish_start r o none = record {
  runtime = record r {
    state = running;
    subs = o.subs;
    consumers = o.consumers;
    is_running = true;
    accepting = true;
    cancelled = false;
  };
  actions = accepts true ∷ (if is_empty o.consumers then [] else watches_missing ∷ []);
  error = none;
}

unfoldable pub start : Server → Option Error → Runtime → Outcome
start server ctx_error r =
    elim (or_else (check_startable r.state ctx_error) (check_open r.client)) [
      | some e ↦ record { runtime = r; actions = []; error = some e }
      | none ↦
          let (o, e) = open_receivers server r.subscriptions in
          finish_start r o (or_else e server.flush)
    ]

-- flushOnStop, which skips a client that was closed.
abbrev flush_on_stop : Option Error → List Action
flush_on_stop none = flushed ∷ []
flush_on_stop (some e) = []

-- The end of Stop, after its drain, or its context when that was done first.
abbrev end_drain : Runtime → Option Error → List Action
end_drain r none = accepts false ∷ handlers_cancelled ∷ flush_on_stop (check_open r.client)
end_drain r (some e) = handlers_cancelled ∷ accepts false ∷ pending_abandoned ∷ []

-- `late` is ctx.Err() when the context is done before the drain.
abbrev pub stop_running : Option Error → Runtime → Outcome
stop_running late r = record {
  runtime = record r {
    client = close r.client;
    state = stopped;
    subs = [];
    consumers = [];
    is_running = false;
    accepting = false;
    cancelled = true;
  };
  actions =
      map drained r.subs
      ++ (map consumer_drained r.consumers ++ (end_drain r late ++ (client_closed ∷ [])));
  error = late;
}

abbrev pub stop_at : Option Error → Runtime → RuntimeState → Outcome
stop_at late r running = stop_running late r
stop_at late r created = record { runtime = r; actions = []; error = none }
stop_at late r stopped = record { runtime = r; actions = []; error = none }

unfoldable pub stop : Option Error → Runtime → Outcome
stop late r = stop_at late r r.state

-- What may happen to a runtime.
pub data Event : Type 0 where
  starts : Server → Option Error → Event
  stops : Option Error → Event
  -- Close on its client
  client_closes : Event

abbrev pub after : Event → Runtime → Runtime
after (starts server ctx_error) r = (start server ctx_error r).runtime
after (stops late) r = (stop late r).runtime
after client_closes r = record r { client = close r.client }

abbrev pub after_all : List Event → Runtime → Runtime
after_all [] r = r
after_all (e ∷ es) r = after_all es (after e r)
