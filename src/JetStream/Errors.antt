-- ===== src/JetStream/Errors.antt =====
-- Every refusal of a subscriber's JetStream options is ErrBadConfig.
use service_mesh_nats_go.Prelude.{String, List, [], ◌∷◌, Option-cases, inl, inr}
use service_mesh_nats_go.Prelude.Int.{ℤ}
use service_mesh_nats_go.Go.Platform.{Platform}
use service_mesh_nats_go.Go.Text.{split, trim_space}
use service_mesh_nats_go.Go.Map.{Map, get}
use service_mesh_nats_go.Go.Duration.{parse_duration}
use service_mesh_nats_go.Errors.{ok, ◌>>=◌}
use service_mesh_nats_go.Config.{
  positive, backoff_key, create_consumer_key, ack_policy_key, deliver_policy_key, PullSettings,
}
use service_mesh_nats_go.Config.Values.{
  IsBadConfig, IsBadConfig-ok, IsBadConfig-bad_config, IsBadConfig-if, IsBadConfig-bind,
  IsBadConfig-guard_if, IsBadConfig-positive, IsBadConfig-duration_setting,
  IsBadConfig-positive_int_setting, IsBadConfig-read_pull_settings,
}
use service_mesh_nats_go.JetStream.{
  JsSettings, DeliverPolicy, AckSettingValues, create_consumer_setting, ack_policy_setting,
  deliver_policy_setting, backoff_parts, backoff_setting, ack_settings, build_config,
  consumer_config, parse_named, parse_jetstream,
}

ruleset choices = (IsBadConfig-ok, IsBadConfig-bad_config, IsBadConfig-if)

ruleset chain = (
  IsBadConfig-ok, IsBadConfig-bind, IsBadConfig-duration_setting, IsBadConfig-positive_int_setting,
  IsBadConfig-positive,
)

module _ (md : Map String) where
  IsBadConfig-create : (group : String) → IsBadConfig (create_consumer_setting md group)
  unfolding create_consumer_setting
  IsBadConfig-create group = elim (Option-cases (get md create_consumer_key)) [
    | inl e ↦ rw (e, create_consumer_setting) (IsBadConfig-ok _)
    | inr (v, e) ↦ rw (e, create_consumer_setting) (search choices)
  ]

  IsBadConfig-ack : IsBadConfig (ack_policy_setting md)
  unfolding ack_policy_setting
  IsBadConfig-ack = elim (Option-cases (get md ack_policy_key)) [
    | inl e ↦ rw (e, ack_policy_setting) (IsBadConfig-ok _)
    | inr (v, e) ↦ rw (e, ack_policy_setting) (search choices)
  ]

  IsBadConfig-deliver : IsBadConfig (deliver_policy_setting md)
  unfolding deliver_policy_setting
  IsBadConfig-deliver = elim (Option-cases (get md deliver_policy_key)) [
    | inl e ↦ rw (e, deliver_policy_setting) (IsBadConfig-ok _)
    | inr (v, e) ↦ rw (e, deliver_policy_setting) (search choices)
  ]

IsBadConfig-backoff_parts :
    (go : Platform) (v : String) (ps : List String) → IsBadConfig (backoff_parts go v ps)
unfolding backoff_parts
IsBadConfig-backoff_parts go v [] = IsBadConfig-ok []
IsBadConfig-backoff_parts go v (p ∷ ps) =
    IsBadConfig-bind (positive backoff_key v (parse_duration go (trim_space p)))
      (λ d. backoff_parts go v ps >>= λ ds. ok (d ∷ ds))
      (IsBadConfig-positive backoff_key v (parse_duration go (trim_space p)))
      λ d.
        IsBadConfig-bind (backoff_parts go v ps) (λ ds. ok (d ∷ ds))
          (IsBadConfig-backoff_parts go v ps) λ ds. IsBadConfig-ok (d ∷ ds)

module _ (go : Platform) (md : Map String) where
  IsBadConfig-backoff : IsBadConfig (backoff_setting go md)
  unfolding backoff_setting
  IsBadConfig-backoff = elim (Option-cases (get md backoff_key)) [
    | inl e ↦ rw (e, backoff_setting) (IsBadConfig-ok [])
    | inr (v, e) ↦ rw (e, backoff_setting) (IsBadConfig-backoff_parts go v (split b',' v))
  ]

  IsBadConfig-ack_settings : (max_deliver : ℤ) → IsBadConfig (ack_settings go md max_deliver)
  unfolding ack_settings
  IsBadConfig-ack_settings max_deliver = search (chain, IsBadConfig-backoff) depth 10

IsBadConfig-build :
    (subj : String) (s : JsSettings) (d : DeliverPolicy) (i : ℤ) (a : AckSettingValues)
    → IsBadConfig (build_config subj s d i a)
unfolding build_config
IsBadConfig-build subj s d i a =
    IsBadConfig-bind _ _ (IsBadConfig-guard_if _ _) (λ u. IsBadConfig-ok _)

IsBadConfig-consumer_config :
    (go : Platform) (md : Map String) (subj : String) (s : JsSettings) (max_deliver : ℤ)
    → IsBadConfig (consumer_config go md subj s max_deliver)
unfolding consumer_config
IsBadConfig-consumer_config go md subj s max_deliver =
    search (chain, IsBadConfig-deliver, IsBadConfig-ack_settings, IsBadConfig-build) depth 8

IsBadConfig-parse_named :
    (go : Platform) (md : Map String) (stream subj group : String) (max_deliver : ℤ)
    (pull : PullSettings)
    → IsBadConfig (parse_named go md stream subj group max_deliver pull)
unfolding parse_named
IsBadConfig-parse_named go md stream subj group max_deliver pull =
    search
      (
        chain, IsBadConfig-create, IsBadConfig-ack, IsBadConfig-consumer_config,
        IsBadConfig-read_pull_settings,
      )
      depth 12

-- Whatever is wrong with a subscriber's JetStream options, the error is ErrBadConfig.
pub parse_jetstream-IsBadConfig :
    (go : Platform) (md : Map String) (subj group : String) (max_deliver : ℤ) (pull : PullSettings)
    → IsBadConfig (parse_jetstream go md subj group max_deliver pull)
unfolding parse_jetstream
parse_jetstream-IsBadConfig go md subj group max_deliver pull =
    search (chain, IsBadConfig-if, IsBadConfig-parse_named) depth 8
