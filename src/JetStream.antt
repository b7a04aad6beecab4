-- ===== src/JetStream.antt =====
-- The settings of nats/jetstream.go: a subscriber's JetStream options and its consumer's settings.
pub mod Consumers
pub mod Parsed
pub mod Errors
use service_mesh_nats_go.Prelude.{
  ℕ, zero, suc, ◌+◌, ◌*◌, String, Bool, true, false, not, ◌||◌, ◌&&◌, List, [], ◌∷◌, ◌++◌, Option,
  none, some, ◌==◌, if◌then◌else◌, length,
}
use service_mesh_nats_go.Prelude.Int.{ℤ, pos, leb_ℤ, ltb_ℤ}
use service_mesh_nats_go.Go.Platform.{Platform}
use service_mesh_nats_go.Go.Text.{split, trim_space}
use service_mesh_nats_go.Go.Duration.{parse_duration}
use service_mesh_nats_go.Go.Map.{Map, get}
use service_mesh_nats_go.Errors.{
  few_deliveries, Error, wrapped, bad_config, Result, ok, err, ◌>>=◌, ◌>>◌, guard,
}
use service_mesh_nats_go.Config.{
  stream_key, create_consumer_key, ack_policy_key, ack_wait_key, backoff_key, nak_delay_key,
  max_ack_pending_key, deliver_policy_key, consumer_inactive_threshold_key, max_deliver_key, second,
  bad_value, positive, duration_setting, positive_int_setting, text_of, PullSettings, unset_pull,
  read_pull_settings,
}

-- 7 * 24 * time.Hour
abbrev pub named_inactive_threshold : ℤ
named_inactive_threshold = pos (7 * 24 * 3600 * second)

-- 5 * time.Minute
abbrev pub ordered_inactive_threshold : ℤ
ordered_inactive_threshold = pos (5 * 60 * second)

pub data AckPolicy : Type 0 where
  ack_double ack_explicit ack_none : AckPolicy

abbrev pub acks : AckPolicy → Bool
acks ack_none = false
acks _ = true

-- The policies of jetstream that the program sends or compares with; a server may have others.
pub data DeliverPolicy : Type 0 where
  deliver_all deliver_new : DeliverPolicy

pub data ServerAckPolicy : Type 0 where
  none_policy explicit_policy all_policy : ServerAckPolicy

-- jetstream.ConsumerConfig, with the fields that the program sets or reads.
pub record ConsumerConfig : Type 0 where
  pub durable : String
  pub filter_subject : String
  pub deliver_policy : DeliverPolicy
  pub ack_policy : ServerAckPolicy
  pub inactive_threshold : ℤ
  pub ack_wait : ℤ
  pub max_deliver : ℤ
  pub backoff : List ℤ
  pub max_ack_pending : ℤ

abbrev pub zero_config : ConsumerConfig
zero_config = record {
  durable = "";
  filter_subject = "";
  deliver_policy = deliver_all;
  ack_policy = none_policy;
  inactive_threshold = pos 0;
  ack_wait = pos 0;
  max_deliver = pos 0;
  backoff = [];
  max_ack_pending = pos 0;
}

pub record JsSettings : Type 0 where
  pub stream : String
  pub group : String
  pub create : Bool
  pub ack : AckPolicy
  pub nak_delay : ℤ
  pub config : ConsumerConfig
  pub pull : PullSettings

unfoldable pub ordered : JsSettings → Bool
ordered s = s.group == "" && not (acks s.ack)

abbrev create_of : String → String → Result Bool
create_of group v =
    if v == "true"
    then ok true
    else if v == "false"
    then (if group == "" then bad_value create_consumer_key v else ok false)
    else bad_value create_consumer_key v

unfoldable pub create_consumer_setting : Map String → String → Result Bool
create_consumer_setting md group = elim (get md create_consumer_key) [
  | none ↦ ok true
  | some v ↦ create_of group v
]

abbrev ack_policy_of : String → Result AckPolicy
ack_policy_of v =
    if v == "double"
    then ok ack_double
    else if v == "explicit"
    then ok ack_explicit
    else if v == "none"
    then ok ack_none
    else bad_value ack_policy_key v

unfoldable pub ack_policy_setting : Map String → Result AckPolicy
ack_policy_setting md = elim (get md ack_policy_key) [
  | none ↦ ok ack_double
  | some v ↦ ack_policy_of v
]

abbrev deliver_policy_of : String → Result DeliverPolicy
deliver_policy_of v =
    if v == "all"
    then ok deliver_all
    else if v == "new"
    then ok deliver_new
    else bad_value deliver_policy_key v

unfoldable pub deliver_policy_setting : Map String → Result DeliverPolicy
deliver_policy_setting md = elim (get md deliver_policy_key) [
  | none ↦ ok deliver_all
  | some v ↦ deliver_policy_of v
]

unfoldable pub default_inactive_threshold : JsSettings → ℤ
unfolding ordered
default_inactive_threshold s =
    if ordered s
    then ordered_inactive_threshold
    else if s.group == ""
    then pos 0
    else named_inactive_threshold

-- The loop of backoffSetting over the parts of the value `v`.
unfoldable pub backoff_parts : Platform → String → List String → Result (List ℤ)
backoff_parts go v [] = ok []
backoff_parts go v (p ∷ ps) = do
  d ← positive backoff_key v (parse_duration go (trim_space p))
  ds ← backoff_parts go v ps
  ok (d ∷ ds)

unfoldable pub backoff_setting : Platform → Map String → Result (List ℤ)
unfolding backoff_parts
backoff_setting go md = elim (get md backoff_key) [
  | none ↦ ok []
  | some v ↦ backoff_parts go v (split b',' v)
]

pub record AckSettingValues : Type 0 where
  pub wait : ℤ
  pub max_deliver : ℤ
  pub max_ack_pending : ℤ
  pub backoff : List ℤ

unfoldable pub ack_settings : Platform → Map String → ℤ → Result AckSettingValues
ack_settings go md max_deliver = do
  wait ← duration_setting go md ack_wait_key (pos 0)
  limit ← positive_int_setting md max_deliver_key max_deliver
  pending ← positive_int_setting md max_ack_pending_key (pos 0)
  backoff ← backoff_setting go md
  ok (record { wait = wait; max_deliver = limit; max_ack_pending = pending; backoff = backoff })

-- The ack settings go into the consumer's settings only when it acks.
abbrev with_acks : AckPolicy → AckSettingValues → ConsumerConfig → ConsumerConfig
with_acks ack_none ack cfg = cfg
with_acks _ ack cfg = record cfg {
  ack_policy = explicit_policy;
  ack_wait = ack.wait;
  max_deliver = ack.max_deliver;
  backoff = ack.backoff;
  max_ack_pending = ack.max_ack_pending;
}

-- The end of consumerConfig, with all that it has read.
unfoldable pub build_config :
    String → JsSettings → DeliverPolicy → ℤ → AckSettingValues → Result ConsumerConfig
build_config subj s deliver inactive ack = do
  guard (
      if s.create && acks s.ack && leb_ℤ ack.max_deliver (pos (length ack.backoff))
      then some (wrapped bad_config (few_deliveries ack.max_deliver (length ack.backoff)))
      else none)
  ok (
      with_acks s.ack ack (record {
        durable = s.group;
        filter_subject = subj;
        deliver_policy = deliver;
        ack_policy = none_policy;
        inactive_threshold = inactive;
        ack_wait = pos 0;
        max_deliver = pos 0;
        backoff = [];
        max_ack_pending = pos 0;
      }))

unfoldable pub consumer_config :
    Platform → Map String → String → JsSettings → ℤ → Result ConsumerConfig
consumer_config go md subj s max_deliver = do
  deliver ← deliver_policy_setting md
  inactive ← duration_setting go md consumer_inactive_threshold_key (default_inactive_threshold s)
  ack ← ack_settings go md max_deliver
  build_config subj s deliver inactive ack

-- What parseJetStream does when the settings name a stream.
unfoldable pub parse_named :
    Platform → Map String → String → String → String → ℤ → PullSettings → Result JsSettings
parse_named go md stream subj group max_deliver pull = do
  create ← create_consumer_setting md group
  ack ← ack_policy_setting md
  nak_delay ← duration_setting go md nak_delay_key (pos 0)
  let s : JsSettings = record {
    stream = stream;
    group = group;
    create = create;
    ack = ack;
    nak_delay = nak_delay;
    config = zero_config;
    pull = unset_pull;
  }
  config ← consumer_config go md subj s max_deliver
  pulled ← read_pull_settings go md pull
  ok (record s { config = config; pull = pulled })

unfoldable pub parse_jetstream :
    Platform → Map String → String → String → ℤ → PullSettings → Result (Option JsSettings)
parse_jetstream go md subj group max_deliver pull =
    let stream = text_of (get md stream_key) in
    let parsed = do s ← parse_named go md stream subj group max_deliver pull; ok (some s)
    in if stream == "" then ok none else parsed

-- The options of Consume for the pull settings.
pub data PullOption : Type 0 where
  max_messages_with_bytes_limit : ℤ → ℤ → PullOption
  max_messages max_bytes threshold_messages expiry heartbeat : ℤ → PullOption

abbrev is_set : ℤ → Bool
is_set n = ltb_ℤ (pos 0) n

abbrev when : ℤ → (ℤ → PullOption) → List PullOption
when n o = if is_set n then o n ∷ [] else []

unfoldable pub consume_opts : PullSettings → List PullOption
consume_opts p =
    (if is_set p.max_messages && is_set p.max_bytes
      then max_messages_with_bytes_limit p.max_messages p.max_bytes ∷ []
      else if is_set p.max_messages
      then PullOption.max_messages p.max_messages ∷ []
      else if is_set p.max_bytes
      then PullOption.max_bytes p.max_bytes ∷ []
      else [])
    ++ (when p.threshold_messages threshold_messages
        ++ (when p.expiry expiry ++ when p.heartbeat heartbeat))
