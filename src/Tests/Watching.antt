-- ===== src/Tests/Watching.antt =====
-- Consumers that are lost and come back, and what is told of receivers and clients.
use service_mesh_nats_go.Prelude.{
  refl, ℕ, ◌≡◌, ◌↔◌, true, false, String, List, [], ◌∷◌, Option, none, some, contains, arith,
}
use service_mesh_nats_go.Go.Duration.{exact}
use service_mesh_nats_go.Go.Map.{Map}
use service_mesh_nats_go.Errors.{
  Error, sentinel, consumer_deleted, consumer_not_found, canceled, ok,
}
use service_mesh_nats_go.Config.{parse_client_settings}
use service_mesh_nats_go.Client.Made.{Dialer, Outcomes, new_client, new_client-Outcomes}
use service_mesh_nats_go.Runtime.Missing.{
  Watched, Found, Event, reported, checked, missing_after, IsLost,
}
use service_mesh_nats_go.Runtime.Missing.Kept.{missing-IsLost}
use service_mesh_nats_go.Runtime.Stopping.{Drain, drained, StopContext, Stopped, stop_ends}
use service_mesh_nats_go.Runtime.Stopping.Ends.{IsStoppedBy, stop_ends-IsStoppedBy}
use service_mesh_nats_go.Runtime.Stopping.Drained.{last_of, drained-last_of}
use service_mesh_nats_go.Tests.Fixtures.{contract}

abbrev watched : ℕ → Watched
watched c = record {
  subject = "orders.created";
  stream = "ORDERS";
  is_ordered = false;
  name = "billing";
}

abbrev found : Option Error → Found
found e = record { stopped = false; connected = true; info = e }

-- It was deleted, and is not there yet.
abbrev events : List Event
events =
    checked 0 (found (some (sentinel consumer_not_found)))
    ∷ reported 0 (sentinel consumer_deleted)
    ∷ []

missing-IsLost_example :
    (contains (missing_after watched events) 0 ≡ true) ↔ IsLost watched 0 events
missing-IsLost_example = missing-IsLost watched 0 events

-- A server whose JetStream context cannot be made.
abbrev dialer : Dialer
dialer = record { connect = λ call. ok 4; jetstream = λ nc. some (sentinel canceled) }

abbrev config : Map String
config = ("url", "nats://broker:4222") ∷ []

new_client-Outcomes_example :
    Outcomes dialer
      (parse_client_settings exact contract config)
      (new_client exact contract dialer config)
new_client-Outcomes_example = new_client-Outcomes exact contract dialer config

-- A subscription that is through at once, a consumer that takes a while, and a handler that hangs.
abbrev drain : Drain
drain = record { connection = none; subs = some 0 ∷ []; consumers = some 20 ∷ []; handlers = none }

abbrev patience : StopContext
patience = record { has_deadline = true; done = some 10 }

stop_ends-IsStoppedBy_example :
    (s : Stopped) × (stop_ends true 5 drain patience false none ≡ some s)
    × IsStoppedBy 5 (drained drain) 10 s
stop_ends-IsStoppedBy_example =
    stop_ends-IsStoppedBy true 5 drain patience false none 10 (omega arith) refl

drained-last_of_example : drained drain ≡ last_of (some 0 ∷ some 20 ∷ none ∷ [])
drained-last_of_example = drained-last_of drain refl
