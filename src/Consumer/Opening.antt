-- ===== src/Consumer/Opening.antt =====
-- What openConsumer asks of the server, and which consumers ack.
use service_mesh_nats_go.Prelude.{
  String, ◌≡◌, ◌≢◌, ◌⊎◌, sym, ap, ◌∙◌, true, false, ◌&&◌, arith, eq_iff,
}
use service_mesh_nats_go.Errors.{ok, >>=-eq-ok, ok-injective}
use service_mesh_nats_go.JetStream.{acks as asks_acks, ConsumerConfig, JsSettings, ordered}
use service_mesh_nats_go.Consumer.{
  JsConsumer, ConsumerCall, ordered_consumer, consumer, create_consumer, create_or_update_consumer,
  consumer_call, made_consumer, server_acks, Streams, open_consumer,
}

-- The call that fits a subscriber: an ordered consumer for one with no group that acks nothing;
-- else a lookup by the group's name when the runtime may not create it; else a new consumer when
-- there is no group, and a new or updated one named by the group.
pub record Asks (subject : String) (s : JsSettings) (call : ConsumerCall) : Type 0 where
  pub ordered_only :
      s.group ≡ ""
      → asks_acks s.ack ≡ false
      → call ≡ ordered_consumer subject s.config.deliver_policy s.config.inactive_threshold
  pub lookup_only :
      (s.group ≢ "") ⊎ (asks_acks s.ack ≡ true) → s.create ≡ false → call ≡ consumer s.group
  pub unnamed :
      s.group ≡ "" → asks_acks s.ack ≡ true → s.create ≡ true → call ≡ create_consumer s.config
  pub named : s.group ≢ "" → s.create ≡ true → call ≡ create_or_update_consumer s.config

consumer_call-Asks : (subject : String) (s : JsSettings) → Asks subject s (consumer_call subject s)
unfolding consumer_call ordered
consumer_call-Asks subject s = record {
  ordered_only = λ e a. ground (arith, eq_iff s.group "");
  lookup_only = λ o c. ground (arith, eq_iff s.group "");
  unnamed = λ e a c. ground (arith, eq_iff s.group "");
  named = λ n c. ground (arith, eq_iff s.group "");
}

made_consumer-acks :
    (s : JsSettings) (cfg : ConsumerConfig)
    → (made_consumer s cfg).acks ≡ (asks_acks s.ack && server_acks cfg.ack_policy)
unfolding made_consumer ordered
made_consumer-acks s cfg = ground (arith, eq_iff s.group "")

-- A consumer that was opened was found or made on the subscriber's stream by the one call that
-- fits the subscriber, and it acks exactly when the subscriber does and the server's policy is not
-- to ack nothing.
pub open_consumer-Asks :
    (server : Streams) (subject : String) (s : JsSettings) (c : JsConsumer)
    → open_consumer server subject s ≡ ok c
    → (call : ConsumerCall) × (cfg : ConsumerConfig) × Asks subject s call
      × (server.stream s.stream ≡ ok tt)
      × (server.call s.stream call ≡ ok cfg)
      × (c.acks ≡ (asks_acks s.ack && server_acks cfg.ack_policy))
unfolding open_consumer
open_consumer-Asks server subject s c h =
    let (u, eu, hu) = >>=-eq-ok (server.stream s.stream) _ h in
    let (cfg, ec, hc) = >>=-eq-ok (server.call s.stream (consumer_call subject s)) _ hu in
    (
      consumer_call subject s,
      cfg,
      consumer_call-Asks subject s,
      eu,
      ec,
      ap (λ (x : JsConsumer). x.acks) (sym (ok-injective hc)) ∙ made_consumer-acks s cfg,
    )
