-- ===== src/Tests/Consumers.antt =====
-- Consumers: what is asked of the server, ack deadlines and warnings.
use service_mesh_nats_go.Prelude.{◌+◌, ◌-◌, ◌≡◌, refl, true, List, [], ◌∷◌, some, arith, length}
use service_mesh_nats_go.Prelude.Int.{ℤ, pos}
use service_mesh_nats_go.Go.Time.{add_time, zero_time}
use service_mesh_nats_go.Errors.{ok}
use service_mesh_nats_go.Config.{unset_pull}
use service_mesh_nats_go.JetStream.{
  ack_explicit, explicit_policy, deliver_all, ConsumerConfig, JsSettings, ordered,
}
use service_mesh_nats_go.Consumer.{JsConsumer, Streams, open_consumer, made_consumer, deadline}
use service_mesh_nats_go.Consumer.Deadlines.{in_turn, deadline-in_turn}
use service_mesh_nats_go.Consumer.LateStarts.{warnings, total_skipped, Spaced, warnings-account}

abbrev durable_config : ConsumerConfig
durable_config = record {
  durable = "billing";
  filter_subject = "orders.created";
  deliver_policy = deliver_all;
  ack_policy = explicit_policy;
  inactive_threshold = pos 0;
  ack_wait = pos 30;
  max_deliver = pos 5;
  backoff = pos 1 ∷ pos 5 ∷ [];
  max_ack_pending = pos 0;
}

abbrev pub settings : JsSettings
settings = record {
  stream = "ORDERS";
  group = "billing";
  create = true;
  ack = ack_explicit;
  nak_delay = pos 0;
  config = durable_config;
  pull = unset_pull;
}

-- A server with every stream, on which each consumer has the same settings.
abbrev server : Streams
server = record { stream = λ s. ok tt; call = λ s c. ok durable_config }

abbrev pub opened : JsConsumer
opened = record {
  acks = true;
  ack_wait = pos 30;
  backoff = pos 1 ∷ pos 5 ∷ [];
  max_deliver = pos 5;
  last_late_log = zero_time;
  late_skipped = 0;
}

settings-opened : open_consumer server "orders.created" settings ≡ ok opened
unfolding open_consumer made_consumer ordered
settings-opened = refl

deadline-in_turn_example :
    (opened.backoff ≡ [] → deadline opened (pos 100) 3 ≡ some (add_time (pos 100) opened.ack_wait))
    × ((d : ℤ) (ds : List ℤ)
        → opened.backoff ≡ d ∷ ds
        → deadline opened (pos 100) 3 ≡ some (add_time (pos 100) (in_turn d ds (3 - 1))))
deadline-in_turn_example = deadline-in_turn opened (pos 100) 3 (omega arith) (omega arith)

-- Three late starts within a minute, and one after it.
abbrev late_starts : List ℤ
late_starts = pos 10 ∷ pos 20 ∷ pos 30 ∷ pos 90_000_000_000 ∷ []

warnings-account_example :
    (opened.late_skipped + length late_starts
      ≡ length (warnings opened late_starts).1
        + total_skipped (warnings opened late_starts).1
        + (warnings opened late_starts).0.late_skipped)
    × Spaced opened.last_late_log (warnings opened late_starts).1
warnings-account_example = warnings-account opened late_starts
