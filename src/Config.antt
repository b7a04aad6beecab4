-- ===== src/Config.antt =====
-- nats/config.go: the configuration keys, and what NewClient and New read.
pub mod Values
pub mod Constructors
use service_mesh_nats_go.Prelude.{
  ℕ, ◌*◌, String, Bool, true, false, not, ◌||◌, ◌&&◌, List, [], ◌∷◌, ◌++◌, Option, none, some, ◌==◌,
  if◌then◌else◌,
}
use service_mesh_nats_go.Prelude.Int.{ℤ, pos, leb_ℤ}
use service_mesh_nats_go.Go.Platform.{Platform}
use service_mesh_nats_go.Go.Decimal.{parse_int}
use service_mesh_nats_go.Go.Duration.{parse_duration}
use service_mesh_nats_go.Go.Map.{Map, get}
use service_mesh_nats_go.Mesh.{Contract}
use service_mesh_nats_go.Errors.{
  bad_setting, Error, sentinel, wrapped, bad_config, no_deployment_group, Result, ok, err, ◌>>=◌,
  ◌>>◌, guard,
}

abbrev pub url_key : String
url_key = "url"

abbrev pub name_key : String
name_key = "name"

abbrev pub connect_timeout_key : String
connect_timeout_key = "connect_timeout"

abbrev pub request_timeout_key : String
request_timeout_key = "request_timeout"

abbrev pub concurrency_key : String
concurrency_key = "concurrency"

abbrev pub max_deliver_key : String
max_deliver_key = "max_deliver"

abbrev pub stream_key : String
stream_key = "stream"

abbrev pub create_consumer_key : String
create_consumer_key = "create_consumer"

abbrev pub ack_policy_key : String
ack_policy_key = "ack_policy"

abbrev pub ack_wait_key : String
ack_wait_key = "ack_wait"

abbrev pub backoff_key : String
backoff_key = "backoff"

abbrev pub nak_delay_key : String
nak_delay_key = "nak_delay"

abbrev pub max_ack_pending_key : String
max_ack_pending_key = "max_ack_pending"

abbrev pub deliver_policy_key : String
deliver_policy_key = "deliver_policy"

abbrev pub consumer_inactive_threshold_key : String
consumer_inactive_threshold_key = "consumer_inactive_threshold"

abbrev pub pull_max_messages_key : String
pull_max_messages_key = "pull_max_messages"

abbrev pub pull_max_bytes_key : String
pull_max_bytes_key = "pull_max_bytes"

abbrev pub pull_threshold_messages_key : String
pull_threshold_messages_key = "pull_threshold_messages"

abbrev pub pull_expiry_key : String
pull_expiry_key = "pull_expiry"

abbrev pub pull_heartbeat_key : String
pull_heartbeat_key = "pull_heartbeat"

abbrev pub second : ℕ
second = 1_000_000_000

-- 5 * time.Second
abbrev pub default_connect_timeout : ℤ
default_connect_timeout = pos (5 * second)

-- 30 * time.Second
abbrev pub default_request_timeout : ℤ
default_request_timeout = pos (30 * second)

abbrev pub default_max_deliver : ℤ
default_max_deliver = pos 5

abbrev pub bad_value {ℓ} : {A : Type ℓ} → String → String → Result A
bad_value key v = err (wrapped bad_config (bad_setting key v))

-- A value that must parse and be positive.
abbrev pub positive : String → String → Option ℤ → Result ℤ
positive key v none = bad_value key v
positive key v (some d) = if leb_ℤ d (pos 0) then bad_value key v else ok d

unfoldable pub duration_setting : Platform → Map String → String → ℤ → Result ℤ
duration_setting go cfg key fallback = elim (get cfg key) [
  | none ↦ ok fallback
  | some v ↦ positive key v (parse_duration go v)
]

unfoldable pub positive_int_setting : Map String → String → ℤ → Result ℤ
positive_int_setting cfg key fallback = elim (get cfg key) [
  | none ↦ ok fallback
  | some v ↦ positive key v (parse_int v)
]

pub record ClientSettings : Type 0 where
  pub url : String
  pub name : String
  pub connect_timeout : ℤ
  pub request_timeout : ℤ

-- A missing key reads as the empty text.
unfoldable pub text_of : Option String → String
text_of none = ""
text_of (some v) = v

unfoldable pub parse_client_settings : Platform → Contract → Map String → Result ClientSettings
unfolding duration_setting text_of
parse_client_settings go mesh cfg = do
  let v = text_of (get cfg url_key)
  connect_timeout ← duration_setting go cfg connect_timeout_key default_connect_timeout
  request_timeout ← duration_setting go cfg request_timeout_key default_request_timeout
  ok (record {
    url = if v == "" then mesh.default_url else v;
    name = text_of (get cfg name_key);
    connect_timeout = connect_timeout;
    request_timeout = request_timeout;
  })

-- The options of natsio.Connect.
pub data ConnectOption : Type 0 where
  timeout : ℤ → ConnectOption
  name : String → ConnectOption

-- What connect passes to natsio.Connect.
unfoldable pub connect_call : ClientSettings → String × List ConnectOption
connect_call s = (
  s.url,
  timeout s.connect_timeout ∷ (if s.name == "" then [] else ConnectOption.name s.name ∷ []),
)

pub record PullSettings : Type 0 where
  pub max_messages : ℤ
  pub max_bytes : ℤ
  pub threshold_messages : ℤ
  pub expiry : ℤ
  pub heartbeat : ℤ

abbrev pub unset_pull : PullSettings
unset_pull = record {
  max_messages = pos 0;
  max_bytes = pos 0;
  threshold_messages = pos 0;
  expiry = pos 0;
  heartbeat = pos 0;
}

-- jetstream.go
unfoldable pub read_pull_settings : Platform → Map String → PullSettings → Result PullSettings
unfolding duration_setting positive_int_setting
read_pull_settings go md p = do
  max_messages ← positive_int_setting md pull_max_messages_key p.max_messages
  max_bytes ← positive_int_setting md pull_max_bytes_key p.max_bytes
  threshold_messages ← positive_int_setting md pull_threshold_messages_key p.threshold_messages
  expiry ← duration_setting go md pull_expiry_key p.expiry
  heartbeat ← duration_setting go md pull_heartbeat_key p.heartbeat
  ok (record {
    max_messages = max_messages;
    max_bytes = max_bytes;
    threshold_messages = threshold_messages;
    expiry = expiry;
    heartbeat = heartbeat;
  })

-- A logger is known by a number; 0 is slog.Default().
pub record Options : Type 0 where
  pub logger : Option ℕ

-- WithLogger, the one Option: a nil logger is none.
unfoldable pub with_logger : Option ℕ → Options → Options
with_logger l o = record o { logger = l }

-- The loop of applyOptions.
unfoldable pub apply_each : Options → List (Options → Options) → Options
apply_each o [] = o
apply_each o (opt ∷ opts) = apply_each (opt o) opts

unfoldable pub apply_options : List (Options → Options) → Options
unfolding apply_each
apply_options opts = apply_each (record { logger = none }) opts

pub record RuntimeSettings : Type 0 where
  pub deployment_group : String
  pub concurrency : ℤ
  pub max_deliver : ℤ
  pub pull : PullSettings
  pub logger : ℕ

unfoldable pub logger_or_default : Option ℕ → ℕ
logger_or_default none = 0
logger_or_default (some l) = l

unfoldable pub parse_runtime_settings :
    Platform → Contract → Map String → List (Options → Options) → Result RuntimeSettings
unfolding positive_int_setting read_pull_settings apply_options text_of logger_or_default
parse_runtime_settings go mesh cfg opts = do
  let deployment_group = text_of (get cfg mesh.deployment_group_key)
  guard (if deployment_group == "" then some (sentinel no_deployment_group) else none)
  concurrency ← positive_int_setting cfg concurrency_key (pos go.num_cpu)
  max_deliver ← positive_int_setting cfg max_deliver_key default_max_deliver
  pull ← read_pull_settings go cfg unset_pull
  ok (record {
    deployment_group = deployment_group;
    concurrency = concurrency;
    max_deliver = max_deliver;
    pull = pull;
    logger = logger_or_default (apply_options opts).logger;
  })
