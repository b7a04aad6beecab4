-- ===== src/Config/Constructors.antt =====
-- What NewClient and New read from a configuration.
use service_mesh_nats_go.Prelude.{
  String, ◌≡◌, ◌≢◌, ◌⊎◌, refl, List, [], ◌∷◌, Option, none, some, arith, All, ◌==◌, eq_iff,
  if◌then◌else◌,
}
use service_mesh_nats_go.Prelude.Int.{pos, ◌≤ℤ◌}
use mathlib.Core.Path.{subst}
use service_mesh_nats_go.Go.Platform.{Platform}
use service_mesh_nats_go.Go.Decimal.{parse_int}
use service_mesh_nats_go.Go.Duration.{parse_duration}
use service_mesh_nats_go.Go.Map.{Map, get}
use service_mesh_nats_go.Mesh.{Contract}
use service_mesh_nats_go.Errors.{no_deployment_group, ok, guard, >>=-eq-ok, ok-injective, sentinel}
use service_mesh_nats_go.Config.{
  duration_setting, positive_int_setting, PullSettings, read_pull_settings, ClientSettings,
  parse_client_settings, RuntimeSettings, parse_runtime_settings, Options, url_key, name_key,
  connect_timeout_key, request_timeout_key, concurrency_key, max_deliver_key, pull_max_messages_key,
  pull_max_bytes_key, pull_threshold_messages_key, pull_expiry_key, pull_heartbeat_key, unset_pull,
  text_of, default_connect_timeout, default_request_timeout, default_max_deliver,
}
use service_mesh_nats_go.Config.Values.{
  Source, Source-nonneg, duration_setting-Source, positive_int_setting-Source,
  duration_setting-eq_of_get, positive_int_setting-eq_of_get,
}

-- What NewClient reads.
pub record ReadsClient (go : Platform) (mesh : Contract) (cfg : Map String) (s : ClientSettings)
    : Type 0 where
  pub connect_timeout :
      Source
        (parse_duration go)
        default_connect_timeout
        s.connect_timeout
        (get cfg connect_timeout_key)
  pub request_timeout :
      Source
        (parse_duration go)
        default_request_timeout
        s.request_timeout
        (get cfg request_timeout_key)
  pub name : s.name ≡ text_of (get cfg name_key)
  pub url :
      ((text_of (get cfg url_key) ≡ "") × (s.url ≡ mesh.default_url))
      ⊎ ((text_of (get cfg url_key) ≢ "") × (s.url ≡ text_of (get cfg url_key)))

text_or_default :
    (v d : String)
    → ((v ≡ "") × ((if v == "" then d else v) ≡ d)) ⊎ ((v ≢ "") × ((if v == "" then d else v) ≡ v))
text_or_default v d = ground (arith, eq_iff v "")

-- The client's settings: each timeout is its key's positive duration or its default, and an absent
-- or empty url is the default one.
pub parse_client_settings-ReadsClient :
    (go : Platform) (mesh : Contract) (cfg : Map String) (s : ClientSettings)
    → parse_client_settings go mesh cfg ≡ ok s
    → ReadsClient go mesh cfg s
unfolding parse_client_settings
parse_client_settings-ReadsClient go mesh cfg s h =
    let (c, ec, hc) =
      >>=-eq-ok (duration_setting go cfg connect_timeout_key default_connect_timeout) _ h in
    let (r, er, hr) =
      >>=-eq-ok (duration_setting go cfg request_timeout_key default_request_timeout) _ hc in
    subst (ReadsClient go mesh cfg) (ok-injective hr) (record {
      connect_timeout = duration_setting-Source go cfg connect_timeout_key _ c ec;
      request_timeout = duration_setting-Source go cfg request_timeout_key _ r er;
      name = refl;
      url = text_or_default (text_of (get cfg url_key)) mesh.default_url;
    })

-- NewClient ignores every key but its four: configurations that agree on these give one result.
pub parse_client_settings-eq_of_agree :
    (go : Platform) (mesh : Contract) (c d : Map String)
    → get c url_key ≡ get d url_key
    → get c name_key ≡ get d name_key
    → get c connect_timeout_key ≡ get d connect_timeout_key
    → get c request_timeout_key ≡ get d request_timeout_key
    → parse_client_settings go mesh c ≡ parse_client_settings go mesh d
unfolding parse_client_settings
parse_client_settings-eq_of_agree go mesh c d u n ct rt = rw (
  u,
  n,
  duration_setting-eq_of_get go c d connect_timeout_key default_connect_timeout ct,
  duration_setting-eq_of_get go c d request_timeout_key default_request_timeout rt,
)

-- Limits on pulling that were read are not negative when the defaults are not.
pub record IsPull (p : PullSettings) : Type 0 where
  pub messages : pos 0 ≤ℤ p.max_messages
  pub bytes : pos 0 ≤ℤ p.max_bytes
  pub threshold : pos 0 ≤ℤ p.threshold_messages
  pub expiry : pos 0 ≤ℤ p.expiry
  pub heartbeat : pos 0 ≤ℤ p.heartbeat

pub read_pull_settings-IsPull :
    (go : Platform) (md : Map String) (p q : PullSettings)
    → IsPull p
    → read_pull_settings go md p ≡ ok q
    → IsPull q
unfolding read_pull_settings
read_pull_settings-IsPull go md p q v h =
    let (m, em, hm) =
      >>=-eq-ok (positive_int_setting md pull_max_messages_key p.max_messages) _ h in
    let (b, eb, hb) = >>=-eq-ok (positive_int_setting md pull_max_bytes_key p.max_bytes) _ hm in
    let (t, et, ht) =
      >>=-eq-ok (positive_int_setting md pull_threshold_messages_key p.threshold_messages) _ hb in
    let (x, ex, hx) = >>=-eq-ok (duration_setting go md pull_expiry_key p.expiry) _ ht in
    let (y, ey, hy) = >>=-eq-ok (duration_setting go md pull_heartbeat_key p.heartbeat) _ hx in
    subst IsPull (ok-injective hy) (record {
      messages = Source-nonneg v.messages (positive_int_setting-Source md _ _ m em);
      bytes = Source-nonneg v.bytes (positive_int_setting-Source md _ _ b eb);
      threshold = Source-nonneg v.threshold (positive_int_setting-Source md _ _ t et);
      expiry = Source-nonneg v.expiry (duration_setting-Source go md _ _ x ex);
      heartbeat = Source-nonneg v.heartbeat (duration_setting-Source go md _ _ y ey);
    })

-- What New reads from its configuration.
pub record ReadsRuntime (go : Platform) (mesh : Contract) (cfg : Map String) (s : RuntimeSettings)
    : Type 0 where
  pub deployment_group : get cfg mesh.deployment_group_key ≡ some s.deployment_group
  pub deployment_named : s.deployment_group ≢ ""
  pub concurrency : Source parse_int (pos go.num_cpu) s.concurrency (get cfg concurrency_key)
  pub max_deliver : Source parse_int default_max_deliver s.max_deliver (get cfg max_deliver_key)
  pub pull : read_pull_settings go cfg unset_pull ≡ ok s.pull
  pub pull_valid : IsPull s.pull

group_present :
    (v : Option String) (u : Unit {0})
    → guard (if text_of v == "" then some (sentinel no_deployment_group) else none) ≡ ok u
    → (v ≡ some (text_of v)) × (text_of v ≢ "")
unfolding text_of
group_present none u h = cc
group_present (some v) u h = (refl, λ e. ground (arith, eq_iff v ""))

-- The runtime's settings: the deployment group is there and not empty, the concurrency and the
-- delivery limit are their keys' positive integers or the defaults, and no pull limit is negative.
pub parse_runtime_settings-ReadsRuntime :
    (go : Platform) (mesh : Contract) (cfg : Map String) (opts : List (Options → Options))
    (s : RuntimeSettings)
    → parse_runtime_settings go mesh cfg opts ≡ ok s
    → ReadsRuntime go mesh cfg s
unfolding parse_runtime_settings
parse_runtime_settings-ReadsRuntime go mesh cfg opts s h =
    let (u, eu, hu) = >>=-eq-ok (guard _) _ h in
    let (c, ec, hc) = >>=-eq-ok (positive_int_setting cfg concurrency_key (pos go.num_cpu)) _ hu in
    let (m, em, hm) =
      >>=-eq-ok (positive_int_setting cfg max_deliver_key default_max_deliver) _ hc in
    let (p, ep, hp) = >>=-eq-ok (read_pull_settings go cfg unset_pull) _ hm in
    let g = group_present (get cfg mesh.deployment_group_key) u eu in
    subst (ReadsRuntime go mesh cfg) (ok-injective hp) (record {
      deployment_group = g.0;
      deployment_named = g.1;
      concurrency = positive_int_setting-Source cfg _ _ c ec;
      max_deliver = positive_int_setting-Source cfg _ _ m em;
      pull = ep;
      pull_valid = read_pull_settings-IsPull go cfg unset_pull p (omega arith) ep;
    })

-- The keys that New reads.
abbrev pub runtime_keys : Contract → List String
runtime_keys mesh =
    mesh.deployment_group_key ∷ concurrency_key ∷ max_deliver_key ∷ pull_max_messages_key
    ∷ pull_max_bytes_key ∷ pull_threshold_messages_key ∷ pull_expiry_key ∷ pull_heartbeat_key ∷ []

-- New ignores every key but its own: configurations that agree on these give one result.
pub parse_runtime_settings-eq_of_agree :
    (go : Platform) (mesh : Contract) (c d : Map String) (opts : List (Options → Options))
    → All (λ key. get c key ≡ get d key) (runtime_keys mesh)
    → parse_runtime_settings go mesh c opts ≡ parse_runtime_settings go mesh d opts
unfolding parse_runtime_settings read_pull_settings
parse_runtime_settings-eq_of_agree go mesh c d opts (g, (n, (m, (p, (q, (t, (x, (y, _)))))))) = rw (
  g,
  positive_int_setting-eq_of_get c d _ _ n,
  positive_int_setting-eq_of_get c d _ _ m,
  positive_int_setting-eq_of_get c d _ _ p,
  positive_int_setting-eq_of_get c d _ _ q,
  positive_int_setting-eq_of_get c d _ _ t,
  duration_setting-eq_of_get go c d _ _ x,
  duration_setting-eq_of_get go c d _ _ y,
)
