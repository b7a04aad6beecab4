-- ===== src/Tests/Settings.antt =====
-- What concrete configurations and subscriber options are read as.
use service_mesh_nats_go.Go.Decimal.{parse_int, unsigned, scan}
use service_mesh_nats_go.Prelude.{String, ◌≡◌, ◌≢◌, ◌⊎◌, refl, true, List, [], ◌∷◌, none, some}
use service_mesh_nats_go.Prelude.Int.{pos}
use service_mesh_nats_go.Go.Duration.{exact, parse_duration, term, terms, size}
use service_mesh_nats_go.Go.Map.{Map, get}
use service_mesh_nats_go.Errors.{ok}
use service_mesh_nats_go.Go.Text.{split, trim_space, extend, is_space, trim_left, trim_right}
use service_mesh_nats_go.Config.{
  duration_setting, positive_int_setting, read_pull_settings, Options, ClientSettings,
  RuntimeSettings, unset_pull, with_logger, text_of, parse_client_settings, parse_runtime_settings,
  stream_key, default_connect_timeout,
}
use service_mesh_nats_go.Config.Values.{IsBadConfig}
use service_mesh_nats_go.Config.Constructors.{ReadsRuntime, parse_runtime_settings-ReadsRuntime}
use service_mesh_nats_go.JetStream.{
  parse_named, create_consumer_setting, ack_policy_setting, consumer_config, deliver_policy_setting,
  ack_settings, backoff_setting, build_config, backoff_parts, default_inactive_threshold, ordered,
  JsSettings, parse_jetstream, ack_double, explicit_policy, deliver_new, named_inactive_threshold,
}
use service_mesh_nats_go.JetStream.Parsed.{ReadsSubscriber, parse_jetstream-ReadsSubscriber}
use service_mesh_nats_go.JetStream.Errors.{parse_jetstream-IsBadConfig}
use service_mesh_nats_go.Tests.Fixtures.{contract}

abbrev config : Map String
config =
    ("url", "nats://mesh:4222")
    ∷ ("request_timeout", "2s")
    ∷ ("deployment_group", "billing")
    ∷ ("concurrency", "3")
    ∷ []

abbrev other_config : Map String
other_config = ("color", "red") ∷ config

abbrev client_settings : ClientSettings
client_settings = record {
  url = "nats://mesh:4222";
  name = "";
  connect_timeout = default_connect_timeout;
  request_timeout = pos 2_000_000_000;
}

config_client : parse_client_settings exact contract config ≡ ok client_settings
unfolding parse_client_settings get parse_duration term
config_client = refl

abbrev options : List (Options → Options)
options = with_logger (some 4) ∷ []

abbrev runtime_settings : RuntimeSettings
runtime_settings = record {
  deployment_group = "billing";
  concurrency = pos 3;
  max_deliver = pos 5;
  pull = unset_pull;
  logger = 4;
}

config_runtime : parse_runtime_settings exact contract config options ≡ ok runtime_settings
unfolding parse_runtime_settings get parse_int unsigned with_logger
config_runtime = refl

parse_runtime_settings-ReadsRuntime_example : ReadsRuntime exact contract config runtime_settings
parse_runtime_settings-ReadsRuntime_example =
    parse_runtime_settings-ReadsRuntime exact contract config options runtime_settings
      config_runtime

abbrev subscriber : Map String
subscriber =
    ("stream", "ORDERS")
    ∷ ("backoff", "1s, 5s")
    ∷ ("ack_wait", "10s")
    ∷ ("deliver_policy", "new")
    ∷ []

abbrev read_settings : JsSettings
read_settings = record {
  stream = "ORDERS";
  group = "billing";
  create = true;
  ack = ack_double;
  nak_delay = pos 0;
  config = record {
    durable = "billing";
    filter_subject = "orders.created";
    deliver_policy = deliver_new;
    ack_policy = explicit_policy;
    inactive_threshold = named_inactive_threshold;
    ack_wait = pos 10_000_000_000;
    max_deliver = pos 5;
    backoff = pos 1_000_000_000 ∷ pos 5_000_000_000 ∷ [];
    max_ack_pending = pos 0;
  };
  pull = unset_pull;
}

subscriber_read :
    parse_jetstream exact subscriber "orders.created" "billing" (pos 5) unset_pull
    ≡ ok (some read_settings)
unfolding parse_jetstream text_of get parse_named create_consumer_setting ack_policy_setting
    duration_setting consumer_config deliver_policy_setting ack_settings parse_duration term
    positive_int_setting backoff_setting split trim_space build_config read_pull_settings parse_int
    scan unsigned size terms extend is_space trim_left trim_right backoff_parts
    default_inactive_threshold ordered
subscriber_read = refl

parse_jetstream-ReadsSubscriber_example :
    ((text_of (get subscriber stream_key) ≡ "") × (some read_settings ≡ none))
    ⊎ ((s : JsSettings) × (some read_settings ≡ some s)
        × (get subscriber stream_key ≡ some s.stream)
        × (s.stream ≢ "")
        × ReadsSubscriber exact subscriber "orders.created" "billing" (pos 5) unset_pull s)
parse_jetstream-ReadsSubscriber_example =
    parse_jetstream-ReadsSubscriber exact subscriber "orders.created" "billing" (pos 5) unset_pull
      (some read_settings) subscriber_read

parse_jetstream-IsBadConfig_example :
    IsBadConfig (parse_jetstream exact subscriber "orders.created" "billing" (pos 2) unset_pull)
parse_jetstream-IsBadConfig_example =
    parse_jetstream-IsBadConfig exact subscriber "orders.created" "billing" (pos 2) unset_pull
