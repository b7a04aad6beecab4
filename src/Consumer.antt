-- ===== src/Consumer.antt =====
-- nats/consumers.go: a subscriber's consumer, its ack deadlines and its late-start warnings.
pub mod Deadlines
pub mod LateStarts
pub mod Opening
use service_mesh_nats_go.Prelude.{
  ℕ, suc, ◌+◌, ◌-◌, ◌*◌, ◌<◌, String, Bool, true, false, not, ◌&&◌, Option, none, some, List, [],
  ◌∷◌, leb, ltb, length, get_elem?, ◌==◌, if◌then◌else◌,
}
use service_mesh_nats_go.Prelude.Int.{
  ℤ, pos, ◌-ℤ◌, min_ℤ, max_ℤ, ltb_ℤ, pos_part, of_bits, to_bits, wrap_i64,
}
use service_mesh_nats_go.Go.Time.{sub_time, add_time, zero_time}
use service_mesh_nats_go.Errors.{Result, ok, err, ◌>>=◌}
use service_mesh_nats_go.Config.{second}
use service_mesh_nats_go.JetStream.{
  acks as asks_acks, ServerAckPolicy, none_policy, explicit_policy, all_policy, DeliverPolicy,
  ConsumerConfig, JsSettings, ordered,
}

-- time.Minute
abbrev pub late_start_log_interval : ℤ
late_start_log_interval = pos (60 * second)

-- A jsConsumer, with the settings that the server returned.
pub record JsConsumer : Type 0 where
  pub acks : Bool
  pub ack_wait : ℤ
  pub backoff : List ℤ
  pub max_deliver : ℤ
  pub last_late_log : ℤ
  pub late_skipped : ℕ

-- What openConsumer asks of a stream.
pub data ConsumerCall : Type 0 where
  ordered_consumer : String → DeliverPolicy → ℤ → ConsumerCall
  consumer : String → ConsumerCall
  create_consumer : ConsumerConfig → ConsumerCall
  create_or_update_consumer : ConsumerConfig → ConsumerCall

-- The branches of the switch in openConsumer, for a subscriber of a subject.
unfoldable pub consumer_call : String → JsSettings → ConsumerCall
consumer_call subject s =
    if ordered s
    then ordered_consumer subject s.config.deliver_policy s.config.inactive_threshold
    else if not s.create
    then consumer s.group
    else if s.group == ""
    then create_consumer s.config
    else create_or_update_consumer s.config

abbrev pub server_acks : ServerAckPolicy → Bool
server_acks none_policy = false
server_acks _ = true

-- The jsConsumer of a consumer, given the settings that CachedInfo holds.
unfoldable pub made_consumer : JsSettings → ConsumerConfig → JsConsumer
made_consumer s cfg =
    if ordered s
    then record {
      acks = false;
      ack_wait = pos 0;
      backoff = [];
      max_deliver = pos 0;
      last_late_log = zero_time;
      late_skipped = 0;
    }
    else record {
      acks = asks_acks s.ack && server_acks cfg.ack_policy;
      ack_wait = cfg.ack_wait;
      backoff = cfg.backoff;
      max_deliver = cfg.max_deliver;
      last_late_log = zero_time;
      late_skipped = 0;
    }

-- The server's answers: a stream by its name, and a consumer of a stream.
pub record Streams : Type 0 where
  pub stream : String → Result (Unit {0})
  pub call : String → ConsumerCall → Result ConsumerConfig

unfoldable pub open_consumer : Streams → String → JsSettings → Result JsConsumer
open_consumer server subject s = do
  found ← server.stream s.stream
  cfg ← server.call s.stream (consumer_call subject s)
  ok (made_consumer s cfg)

-- The consumer, how many late starts were skipped, and whether this one is logged.
unfoldable pub late_start_logged : JsConsumer → ℤ → JsConsumer × ℕ × Bool
late_start_logged c now =
    if ltb_ℤ (sub_time now c.last_late_log) late_start_log_interval
    then (record c { late_skipped = suc c.late_skipped }, 0, false)
    else (record c { last_late_log = now; late_skipped = 0 }, c.late_skipped, true)

-- min(max(int(delivered)-1, 0), n-1), with the conversions of a uint64 to an int of 64 bits
unfoldable pub backoff_index : ℕ → ℕ → ℕ
backoff_index delivered n =
    pos_part (min_ℤ (max_ℤ (wrap_i64 (of_bits delivered -ℤ pos 1)) (pos 0)) (pos n -ℤ pos 1))

-- `none` is an index out of range.
unfoldable pub wait_of : JsConsumer → ℕ → Option ℤ
unfolding backoff_index
wait_of c delivered =
    let n = length c.backoff in
    if ltb 0 n then get_elem? c.backoff (backoff_index delivered n) else some c.ack_wait

unfoldable pub deadline : JsConsumer → ℤ → ℕ → Option ℤ
deadline c arrival delivered = elim (wait_of c delivered) [
  | none ↦ none
  | some wait ↦ some (add_time arrival wait)
]

-- delivered >= uint64(c.maxDeliver)
unfoldable pub last_delivery : JsConsumer → ℕ → Bool
last_delivery c delivered = leb (to_bits c.max_deliver) delivered
