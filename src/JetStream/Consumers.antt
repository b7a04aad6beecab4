-- ===== src/JetStream/Consumers.antt =====
-- What a subscriber's consumer configuration and ack settings are when New accepts them.
use mathlib.Core.Path.{subst}
use service_mesh_nats_go.Prelude.{
  ◌≢◌, eq_iff, String, true, ◌≡◌, inl, inr, refl, List, [], ◌∷◌, Option, none, some, arith,
  Option-cases, length,
}
use service_mesh_nats_go.Prelude.Int.{ℤ, pos, ◌<ℤ◌}
use service_mesh_nats_go.Go.Platform.{Platform}
use service_mesh_nats_go.Go.Text.{split, trim_space}
use service_mesh_nats_go.Go.Decimal.{parse_int}
use service_mesh_nats_go.Go.Duration.{parse_duration}
use service_mesh_nats_go.Go.Map.{Map, get}
use service_mesh_nats_go.Errors.{ok, >>=-eq-ok, ok-injective}
use service_mesh_nats_go.Config.{
  deliver_policy_key, ack_wait_key, backoff_key, max_ack_pending_key,
  consumer_inactive_threshold_key, max_deliver_key, positive, duration_setting,
  positive_int_setting,
}
use service_mesh_nats_go.Config.Values.{
  Chosen, unset, named, Source, IsPositive, duration_setting-Source, positive_int_setting-Source,
  positive-ok,
}
use service_mesh_nats_go.JetStream.{
  AckPolicy, ack_double, ack_explicit, ack_none, acks, none_policy, explicit_policy, ConsumerConfig,
  JsSettings, default_inactive_threshold, deliver_policy_setting, DeliverPolicy, deliver_all,
  deliver_new, ordered, backoff_parts, backoff_setting, AckSettingValues, ack_settings,
  consumer_config, build_config,
}

-- The waits of a backoff list are the parts between its commas, each a positive duration.
pub data Waits (go : Platform) : List String → List ℤ → Type 0 where
  nil : Waits go [] []
  cons :
      {p : String} {ps : List String} {d : ℤ} {ds : List ℤ}
      → parse_duration go (trim_space p) ≡ some d
      → IsPositive d
      → Waits go ps ds
      → Waits go (p ∷ ps) (d ∷ ds)

backoff_parts-Waits :
    (go : Platform) (v : String) (ps : List String) (ds : List ℤ)
    → backoff_parts go v ps ≡ ok ds
    → Waits go ps ds
unfolding backoff_parts
backoff_parts-Waits go v [] ds h = subst (Waits go []) (ok-injective h) nil
backoff_parts-Waits go v (p ∷ ps) ds h =
    let (d, ed, hd) = >>=-eq-ok (positive backoff_key v (parse_duration go (trim_space p))) _ h in
    let (r, er, hr) = >>=-eq-ok (backoff_parts go v ps) _ hd in
    let (parsed, above) = positive-ok backoff_key v _ d ed in
    subst (Waits go (p ∷ ps)) (ok-injective hr)
      (cons parsed above (backoff_parts-Waits go v ps r er))

-- The backoff list that is read, from the value of its key.
pub data Backoff (go : Platform) (ds : List ℤ) (v : Option String) : Type 0 where
  unlisted : v ≡ none → ds ≡ [] → Backoff go ds v
  listed : (t : String) → v ≡ some t → Waits go (split b',' t) ds → Backoff go ds v

backoff_setting-Backoff :
    (go : Platform) (md : Map String) (ds : List ℤ)
    → backoff_setting go md ≡ ok ds
    → Backoff go ds (get md backoff_key)
unfolding backoff_setting
backoff_setting-Backoff go md ds h = elim (Option-cases (get md backoff_key)) [
  | inl e ↦ unlisted e (ground arith)
  | inr (v, e) ↦ listed v e (backoff_parts-Waits go v (split b',' v) ds (ground arith))
]

-- What the ack settings are, whatever the ack policy.
pub record ReadsAcks (go : Platform) (md : Map String) (max_deliver : ℤ) (a : AckSettingValues)
    : Type 0 where
  pub wait : Source (parse_duration go) (pos 0) a.wait (get md "ack_wait")
  pub limit : Source parse_int max_deliver a.max_deliver (get md "max_deliver")
  pub pending : Source parse_int (pos 0) a.max_ack_pending (get md "max_ack_pending")
  pub backoff : Backoff go a.backoff (get md "backoff")

ack_settings-ReadsAcks :
    (go : Platform) (md : Map String) (max_deliver : ℤ) (a : AckSettingValues)
    → ack_settings go md max_deliver ≡ ok a
    → ReadsAcks go md max_deliver a
unfolding ack_settings
ack_settings-ReadsAcks go md max_deliver a h =
    let (w, ew, hw) = >>=-eq-ok (duration_setting go md ack_wait_key (pos 0)) _ h in
    let (l, el, hl) = >>=-eq-ok (positive_int_setting md max_deliver_key max_deliver) _ hw in
    let (p, ep, hp) = >>=-eq-ok (positive_int_setting md max_ack_pending_key (pos 0)) _ hl in
    let (b, eb, hb) = >>=-eq-ok (backoff_setting go md) _ hp in
    subst (ReadsAcks go md max_deliver) (ok-injective hb) (record {
      wait = duration_setting-Source go md _ _ w ew;
      limit = positive_int_setting-Source md _ _ l el;
      pending = positive_int_setting-Source md _ _ p ep;
      backoff = backoff_setting-Backoff go md b eb;
    })

-- The consumer's settings of a subscriber that acks, and of one that does not.
abbrev pub SendsAcks : AckPolicy → ConsumerConfig → AckSettingValues → Type 0
SendsAcks ack_none cfg a =
    (cfg.ack_policy ≡ none_policy)
    × (cfg.ack_wait ≡ pos 0)
    × (cfg.max_deliver ≡ pos 0)
    × (cfg.backoff ≡ [])
    × (cfg.max_ack_pending ≡ pos 0)
SendsAcks _ cfg a =
    (cfg.ack_policy ≡ explicit_policy)
    × (cfg.ack_wait ≡ a.wait)
    × (cfg.max_deliver ≡ a.max_deliver)
    × (cfg.backoff ≡ a.backoff)
    × (cfg.max_ack_pending ≡ a.max_ack_pending)

pub record ReadsConsumer (go : Platform) (md : Map String) (subj : String) (s : JsSettings)
    (max_deliver : ℤ) (cfg : ConsumerConfig) : Type 0 where
  pub durable : cfg.durable ≡ s.group
  pub filter_subject : cfg.filter_subject ≡ subj
  pub deliver_policy :
      Chosen deliver_all
        (("all", deliver_all) ∷ ("new", deliver_new) ∷ [])
        cfg.deliver_policy
        (get md "deliver_policy")
  pub inactive :
      Source
        (parse_duration go)
        (default_inactive_threshold s)
        cfg.inactive_threshold
        (get md "consumer_inactive_threshold")
  -- seven days for a named consumer, five minutes for an ordered one, and the server's own default
  -- for the others
  pub inactive_named : s.group ≢ "" → default_inactive_threshold s ≡ pos 604_800_000_000_000
  pub inactive_ordered :
      s.group ≡ "" → s.ack ≡ ack_none → default_inactive_threshold s ≡ pos 300_000_000_000
  pub inactive_other : s.group ≡ "" → s.ack ≢ ack_none → default_inactive_threshold s ≡ pos 0
  pub ack : AckSettingValues
  pub reads : ReadsAcks go md max_deliver ack
  pub sends : SendsAcks s.ack cfg ack
  pub enough : s.create ≡ true → s.ack ≢ ack_none → pos (length ack.backoff) <ℤ ack.max_deliver

acks-of_ne : (p : AckPolicy) → p ≢ ack_none → acks p ≡ true
acks-of_ne ack_double n = refl
acks-of_ne ack_explicit n = refl
acks-of_ne ack_none n = absurd (n refl)

deliver_policy_setting-Chosen :
    (md : Map String) (p : DeliverPolicy)
    → deliver_policy_setting md ≡ ok p
    → Chosen deliver_all
        (("all", deliver_all) ∷ ("new", deliver_new) ∷ [])
        p
        (get md deliver_policy_key)
unfolding deliver_policy_setting get
deliver_policy_setting-Chosen md p h = elim (Option-cases (get md deliver_policy_key)) [
  | inl e ↦ unset e (ground arith)
  | inr (v, e) ↦
      named v e (ground (arith, eq_iff v "all", eq_iff v "new", eq_iff "all" v, eq_iff "new" v))
]

module _ (s : JsSettings) where
  default_inactive_threshold-named :
      s.group ≢ "" → default_inactive_threshold s ≡ pos 604_800_000_000_000
  unfolding default_inactive_threshold ordered
  default_inactive_threshold-named n = ground (arith, eq_iff s.group "")

  default_inactive_threshold-ordered :
      s.group ≡ "" → s.ack ≡ ack_none → default_inactive_threshold s ≡ pos 300_000_000_000
  unfolding default_inactive_threshold ordered
  default_inactive_threshold-ordered e a = rw (e, a) refl

  default_inactive_threshold-other :
      s.group ≡ "" → s.ack ≢ ack_none → default_inactive_threshold s ≡ pos 0
  unfolding default_inactive_threshold ordered
  default_inactive_threshold-other e a = rw (e, acks-of_ne s.ack a) refl

build_config-sends :
    (subj : String) (s : JsSettings) (deliver : DeliverPolicy) (inactive : ℤ) (a : AckSettingValues)
    (cfg : ConsumerConfig)
    → build_config subj s deliver inactive a ≡ ok cfg
    → (cfg.durable ≡ s.group)
      × (cfg.filter_subject ≡ subj)
      × (cfg.deliver_policy ≡ deliver)
      × (cfg.inactive_threshold ≡ inactive)
      × (s.create ≡ true → s.ack ≢ ack_none → pos (length a.backoff) <ℤ a.max_deliver)
unfolding build_config
build_config-sends subj s deliver inactive a cfg h =
    let named = acks-of_ne s.ack in ground (arith, named)

build_config-SendsAcks :
    (subj : String) (s : JsSettings) (p : AckPolicy) (deliver : DeliverPolicy) (inactive : ℤ)
    (a : AckSettingValues) (cfg : ConsumerConfig)
    → s.ack ≡ p
    → build_config subj s deliver inactive a ≡ ok cfg
    → SendsAcks p cfg a
unfolding build_config
build_config-SendsAcks subj s ack_none deliver inactive a cfg e h = ground arith
build_config-SendsAcks subj s ack_double deliver inactive a cfg e h = ground arith
build_config-SendsAcks subj s ack_explicit deliver inactive a cfg e h = ground arith

pub consumer_config-ReadsConsumer :
    (go : Platform) (md : Map String) (subj : String) (s : JsSettings) (max_deliver : ℤ)
    (cfg : ConsumerConfig)
    → consumer_config go md subj s max_deliver ≡ ok cfg
    → ReadsConsumer go md subj s max_deliver cfg
unfolding consumer_config
consumer_config-ReadsConsumer go md subj s max_deliver cfg h =
    let (d, ed, hd) = >>=-eq-ok (deliver_policy_setting md) _ h in
    let (i, ei, hi) =
      >>=-eq-ok
        (duration_setting go md consumer_inactive_threshold_key (default_inactive_threshold s)) _
        hd in
    let (a, ea, ha) = >>=-eq-ok (ack_settings go md max_deliver) _ hi in
    let (durable, filter, policy, inactive, enough) = build_config-sends subj s d i a cfg ha in
    record {
      durable = durable;
      filter_subject = filter;
      deliver_policy = rw policy (deliver_policy_setting-Chosen md d ed);
      inactive = rw inactive (duration_setting-Source go md _ _ i ei);
      inactive_named = default_inactive_threshold-named s;
      inactive_ordered = default_inactive_threshold-ordered s;
      inactive_other = default_inactive_threshold-other s;
      ack = a;
      reads = ack_settings-ReadsAcks go md max_deliver a ea;
      sends = build_config-SendsAcks subj s s.ack d i a cfg refl ha;
      enough = enough;
    }
