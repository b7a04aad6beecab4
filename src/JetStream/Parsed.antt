-- ===== src/JetStream/Parsed.antt =====
-- What a subscriber's JetStream options are when New accepts them.
use mathlib.Core.Path.{subst}
use service_mesh_nats_go.Prelude.{
  String, Bool, true, false, ◌≡◌, ◌≢◌, ◌⊎◌, inl, inr, refl, sym, ap, ◌∙◌, Option, none, some, arith,
  ◌==◌, eq_iff, Bool-cases, Option-cases, [], ◌∷◌,
}
use service_mesh_nats_go.Prelude.Int.{ℤ, pos}
use service_mesh_nats_go.Go.Platform.{Platform}
use service_mesh_nats_go.Go.Duration.{parse_duration}
use service_mesh_nats_go.Go.Map.{Map, get}
use service_mesh_nats_go.Errors.{ok, >>=-eq-ok, ok-injective}
use service_mesh_nats_go.Config.{
  create_consumer_key, ack_policy_key, stream_key, nak_delay_key, duration_setting, text_of,
  PullSettings, unset_pull, read_pull_settings,
}
use service_mesh_nats_go.Config.Values.{
  Chosen, unset, named, ReadsPull, read_pull_settings-ReadsPull, Source, duration_setting-Source,
}
use service_mesh_nats_go.JetStream.{
  AckPolicy, ack_double, ack_explicit, ack_none, ConsumerConfig, JsSettings, zero_config,
  default_inactive_threshold, create_consumer_setting, ack_policy_setting, consumer_config,
  parse_named, parse_jetstream,
}
use service_mesh_nats_go.JetStream.Consumers.{ReadsConsumer, consumer_config-ReadsConsumer}

-- What New reads of a subscriber that names a stream.
pub record ReadsSubscriber (go : Platform) (md : Map String) (subj group : String) (max_deliver : ℤ)
    (pull : PullSettings) (s : JsSettings) : Type 0 where
  pub group_kept : s.group ≡ group
  pub created_if_unnamed : group ≡ "" → s.create ≡ true
  pub create :
      Chosen true (("true", true) ∷ ("false", false) ∷ []) s.create (get md "create_consumer")
  pub ack :
      Chosen ack_double
        (("double", ack_double) ∷ ("explicit", ack_explicit) ∷ ("none", ack_none) ∷ [])
        s.ack
        (get md "ack_policy")
  pub nak_delay : Source (parse_duration go) (pos 0) s.nak_delay (get md "nak_delay")
  pub consumer : ReadsConsumer go md subj s max_deliver s.config
  pub pulled : ReadsPull go md pull s.pull

create_consumer_setting-named :
    (md : Map String) (group : String) (b : Bool)
    → create_consumer_setting md group ≡ ok b
    → group ≡ ""
    → b ≡ true
unfolding create_consumer_setting
create_consumer_setting-named md group b h e = ground (arith, eq_iff group "")

create_consumer_setting-Chosen :
    (md : Map String) (group : String) (b : Bool)
    → create_consumer_setting md group ≡ ok b
    → Chosen true (("true", true) ∷ ("false", false) ∷ []) b (get md create_consumer_key)
unfolding create_consumer_setting get
create_consumer_setting-Chosen md group b h = elim (Option-cases (get md create_consumer_key)) [
  | inl e ↦ unset e (ground arith)
  | inr (v, e) ↦
      named v e
        (ground (arith, eq_iff v "true", eq_iff v "false", eq_iff "true" v, eq_iff "false" v))
]

ack_policy_setting-Chosen :
    (md : Map String) (p : AckPolicy)
    → ack_policy_setting md ≡ ok p
    → Chosen ack_double
        (("double", ack_double) ∷ ("explicit", ack_explicit) ∷ ("none", ack_none) ∷ [])
        p
        (get md ack_policy_key)
unfolding ack_policy_setting get
ack_policy_setting-Chosen md p h = elim (Option-cases (get md ack_policy_key)) [
  | inl e ↦ unset e (ground arith)
  | inr (v, e) ↦ named v e (
      ground (
        arith,
        eq_iff v "double",
        eq_iff v "explicit",
        eq_iff v "none",
        eq_iff "double" v,
        eq_iff "explicit" v,
        eq_iff "none" v,
      ))
]

-- The consumer's settings depend on the options that are read before them.
ReadsConsumer-record :
    (go : Platform) (md : Map String) (subj : String) (s : JsSettings) (max_deliver : ℤ)
    (cfg : ConsumerConfig) (p : PullSettings)
    → ReadsConsumer go md subj s max_deliver cfg
    → ReadsConsumer go md subj (record s { config = cfg; pull = p }) max_deliver cfg
unfolding default_inactive_threshold
ReadsConsumer-record go md subj s max_deliver cfg p r = record {
  durable = r.durable;
  filter_subject = r.filter_subject;
  deliver_policy = r.deliver_policy;
  inactive = r.inactive;
  inactive_named = r.inactive_named;
  inactive_ordered = r.inactive_ordered;
  inactive_other = r.inactive_other;
  ack = r.ack;
  reads = r.reads;
  sends = r.sends;
  enough = r.enough;
}

parse_named-ReadsSubscriber :
    (go : Platform) (md : Map String) (stream subj group : String) (max_deliver : ℤ)
    (pull : PullSettings) (s : JsSettings)
    → parse_named go md stream subj group max_deliver pull ≡ ok s
    → (s.stream ≡ stream) × ReadsSubscriber go md subj group max_deliver pull s
unfolding parse_named
parse_named-ReadsSubscriber go md stream subj group max_deliver pull s h =
    let (c, ec, hc) = >>=-eq-ok (create_consumer_setting md group) _ h in
    let (a, ea, ha) = >>=-eq-ok (ack_policy_setting md) _ hc in
    let (n, en, hn) = >>=-eq-ok (duration_setting go md nak_delay_key (pos 0)) _ ha in
    let t : JsSettings = record {
      stream = stream;
      group = group;
      create = c;
      ack = a;
      nak_delay = n;
      config = zero_config;
      pull = unset_pull;
    } in
    let (cfg, ef, hf) = >>=-eq-ok (consumer_config go md subj t max_deliver) _ hn in
    let (p, ep, hp) = >>=-eq-ok (read_pull_settings go md pull) _ hf in
    subst (λ r. (r.stream ≡ stream) × ReadsSubscriber go md subj group max_deliver pull r)
      (ok-injective hp)
      (
        refl,
        record {
          group_kept = refl;
          created_if_unnamed = create_consumer_setting-named md group c ec;
          create = create_consumer_setting-Chosen md group c ec;
          ack = ack_policy_setting-Chosen md a ea;
          nak_delay = duration_setting-Source go md _ _ n en;
          consumer =
              ReadsConsumer-record go md subj t max_deliver cfg p
                (consumer_config-ReadsConsumer go md subj t max_deliver cfg ef);
          pulled = read_pull_settings-ReadsPull go md pull p ep;
        },
      )

text_of-named :
    (v : Option String) → (text_of v == "") ≡ false → (v ≡ some (text_of v)) × (text_of v ≢ "")
unfolding text_of
text_of-named none h = cc
text_of-named (some v) h = (refl, λ e. ground (arith, eq_iff v ""))

-- A subscriber whose settings are accepted uses JetStream exactly when they name a stream. It then
-- consumes from that stream; its group names the consumer, which the runtime creates when there is
-- no group; create_consumer, ack_policy, deliver_policy, nak_delay, consumer_inactive_threshold,
-- the ack settings and the pull settings are each what their key's value says, or their default
-- where the key is not set; the ack settings are sent exactly when it acks; and a consumer that the
-- runtime creates allows more deliveries than it has backoffs.
pub parse_jetstream-ReadsSubscriber :
    (go : Platform) (md : Map String) (subj group : String) (max_deliver : ℤ) (pull : PullSettings)
    (r : Option JsSettings)
    → parse_jetstream go md subj group max_deliver pull ≡ ok r
    → ((text_of (get md "stream") ≡ "") × (r ≡ none))
      ⊎ ((s : JsSettings) × (r ≡ some s)
          × (get md "stream" ≡ some s.stream)
          × (s.stream ≢ "")
          × ReadsSubscriber go md subj group max_deliver pull s)
unfolding parse_jetstream
parse_jetstream-ReadsSubscriber go md subj group max_deliver pull r h =
    elim (Bool-cases (text_of (get md stream_key) == "")) [
      | inl unnamed ↦ inl ((eq_iff _ "").0 unnamed, ground arith)
      | inr is_set ↦
          let (s, es, hs) =
            >>=-eq-ok (parse_named go md (text_of (get md stream_key)) subj group max_deliver pull)
              (λ (x : JsSettings). ok (some x)) (ground arith) in
          let (e, reads) =
            parse_named-ReadsSubscriber go md (text_of (get md stream_key)) subj group max_deliver
              pull s es in
          let (there, full) = text_of-named (get md stream_key) is_set in
          inr (s, sym (ok-injective hs), there ∙ ap some (sym e), λ z. full (sym e ∙ z), reads)
    ]
