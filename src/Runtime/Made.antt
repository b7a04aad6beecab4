-- ===== src/Runtime/Made.antt =====
-- What New makes of its endpoints and subscribers.
use service_mesh_nats_go.Prelude.{
  String, ◌≡◌, refl, ap, List, [], ◌∷◌, ◌++◌, Option, none, some, arith, eq_iff, ◌==◌,
  if◌then◌else◌,
}
use mathlib.Core.Path.{subst}
use service_mesh_nats_go.Go.Platform.{Platform}
use service_mesh_nats_go.Go.Map.{Map, get}
use service_mesh_nats_go.Mesh.{route, topic, Endpoint, Contract}
use service_mesh_nats_go.Errors.{
  bad_setting, wrapped, bad_config, Result, ok, guard, >>=-eq-ok, ok-injective,
}
use service_mesh_nats_go.Target.{subject, consumer_group, prepare_subscription, merge_settings}
use service_mesh_nats_go.Target.Settings.{prepare_subscription-ok}
use service_mesh_nats_go.Config.{
  Options, RuntimeSettings, parse_runtime_settings, stream_key, text_of,
}
use service_mesh_nats_go.JetStream.{parse_jetstream}
use service_mesh_nats_go.Client.{Client}
use service_mesh_nats_go.Serve.{Handler}
use service_mesh_nats_go.Runtime.{
  Subscription, created, Runtime, EndpointHandler, SubscriberHandler, present,
  endpoint_subscription, subscriber_subscription, each, new,
}

-- One list is made of another, entry by entry.
pub data Pairs {ℓ κ μ} {A : Type ℓ} {B : Type κ} (R : A → B → Type μ)
    : List A → List B → Type (ℓ ⊔ κ ⊔ μ) where
  nil : Pairs R [] []
  cons :
      {x : A} {y : B} {xs : List A} {ys : List B}
      → R x y
      → Pairs R xs ys
      → Pairs R (x ∷ xs) (y ∷ ys)

each-Pairs {ℓ κ μ} :
    {A : Type ℓ} {B : Type κ} (R : A → B → Type μ) (f : A → Result B)
    → ((x : A) (y : B) → f x ≡ ok y → R x y)
    → (xs : List A) (ys : List B) → each f xs ≡ ok ys
    → Pairs R xs ys
unfolding each
each-Pairs R f r [] ys h = subst (Pairs R []) (ok-injective h) nil
each-Pairs R f r (x ∷ xs) ys h =
    let (y, ey, hy) = >>=-eq-ok (f x) _ h in
    let (zs, ez, hz) = >>=-eq-ok (each f xs) _ hy in
    subst (Pairs R (x ∷ xs)) (ok-injective hz) (cons (r x y ey) (each-Pairs R f r xs zs ez))

module _ (go : Platform) (mesh : Contract) (s : RuntimeSettings) where
  -- What an endpoint becomes.
  pub record Serves (e : Endpoint EndpointHandler) (b : Subscription) : Type 0 where
    pub kind : e.target.kind ≡ route
    pub subject_of : subject go e.target ≡ ok b.subject
    pub queue : b.queue ≡ consumer_group mesh e.consumer_group s.deployment_group
    pub target : b.target ≡ e.target
    pub handler : (h : EndpointHandler) × (e.handler ≡ some h) × (b.handler ≡ Handler.endpoint h)
    pub no_stream : text_of (get (merge_settings e.target.metadata e.metadata) stream_key) ≡ ""
    pub js : b.js ≡ none

  -- What a subscriber becomes.
  pub record Subscribes (e : Endpoint SubscriberHandler) (b : Subscription) : Type 0 where
    pub kind : e.target.kind ≡ topic
    pub subject_of : subject go e.target ≡ ok b.subject
    pub queue : b.queue ≡ consumer_group mesh e.consumer_group s.deployment_group
    pub target : b.target ≡ e.target
    pub handler :
        (h : SubscriberHandler) × (e.handler ≡ some h) × (b.handler ≡ Handler.subscriber h)
    pub js :
        parse_jetstream go
          (merge_settings e.target.metadata e.metadata)
          b.subject
          b.queue
          s.max_deliver
          s.pull
        ≡ ok b.js

  present-ok {ℓ} :
      {H : Type ℓ} (name : String) (o : Option H) (h : H) → present name o ≡ ok h → o ≡ some h
  present-ok name none h e = cc
  present-ok name (some x) h e = ap some (ok-injective e)

  no_stream-ok :
      (v : String) (u : Unit {0})
      → guard (if v == "" then none else some (wrapped bad_config (bad_setting stream_key v)))
        ≡ ok u
      → v ≡ ""
  no_stream-ok v u h = ground (arith, eq_iff v "")

  endpoint_subscription-Serves :
      (e : Endpoint EndpointHandler) (b : Subscription)
      → endpoint_subscription go mesh s e ≡ ok b
      → Serves e b
  unfolding endpoint_subscription
  endpoint_subscription-Serves e b h =
      let (p, ep, hp) =
        >>=-eq-ok
          (prepare_subscription go mesh e.target route "Endpoint" e.consumer_group
            s.deployment_group)
          _ h in
      let (f, ef, hf) = >>=-eq-ok (present p.subject e.handler) _ hp in
      let (u, eu, hu) = >>=-eq-ok (guard _) _ hf in
      let (k, sub, q, t) = prepare_subscription-ok go mesh e.target route "Endpoint" _ _ p ep in
      subst (Serves e) (ok-injective hu) (record {
        kind = k;
        subject_of = sub;
        queue = q;
        target = t;
        handler = (f, present-ok p.subject e.handler f ef, refl);
        no_stream = no_stream-ok _ u eu;
        js = refl;
      })

  subscriber_subscription-Subscribes :
      (e : Endpoint SubscriberHandler) (b : Subscription)
      → subscriber_subscription go mesh s e ≡ ok b
      → Subscribes e b
  unfolding subscriber_subscription
  subscriber_subscription-Subscribes e b h =
      let (p, ep, hp) =
        >>=-eq-ok
          (prepare_subscription go mesh e.target topic "Subscriber" e.consumer_group
            s.deployment_group)
          _ h in
      let (f, ef, hf) = >>=-eq-ok (present p.subject e.handler) _ hp in
      let (js, ej, hj) =
        >>=-eq-ok
          (parse_jetstream go (merge_settings e.target.metadata e.metadata) p.subject p.queue
            s.max_deliver s.pull)
          _ hf in
      let (k, sub, q, t) = prepare_subscription-ok go mesh e.target topic "Subscriber" _ _ p ep in
      subst (Subscribes e) (ok-injective hj) (record {
        kind = k;
        subject_of = sub;
        queue = q;
        target = t;
        handler = (f, present-ok p.subject e.handler f ef, refl);
        js = ej;
      })

-- What New returns: a runtime on the client that was passed, which has not started, with one
-- subscription for each endpoint and then one for each subscriber, in their order.
pub record IsNew (go : Platform) (mesh : Contract) (client : Option Client) (cfg : Map String)
    (endpoints : List (Endpoint EndpointHandler)) (subscribers : List (Endpoint SubscriberHandler))
    (opts : List (Options → Options)) (r : Runtime) : Type 0 where
  pub settings : RuntimeSettings
  pub read : parse_runtime_settings go mesh cfg opts ≡ ok settings
  pub owner : client ≡ some r.client
  pub served : List Subscription
  pub subscribed : List Subscription
  pub in_order : r.subscriptions ≡ served ++ subscribed
  pub endpoints_served : Pairs (Serves go mesh settings) endpoints served
  pub subscribers_subscribed : Pairs (Subscribes go mesh settings) subscribers subscribed
  pub slots : r.slots ≡ settings.concurrency
  pub not_started : r.state ≡ created

-- A runtime that New makes has a subscription for each endpoint and each subscriber, in order. Each
-- one has the subject and the queue group of its target, a handler that is not nil, and, for a
-- subscriber, its JetStream settings; no endpoint names a stream.
pub new-IsNew :
    (go : Platform) (mesh : Contract) (client : Option Client) (cfg : Map String)
    (endpoints : List (Endpoint EndpointHandler)) (subscribers : List (Endpoint SubscriberHandler))
    (opts : List (Options → Options)) (r : Runtime)
    → new go mesh client cfg endpoints subscribers opts ≡ ok r
    → IsNew go mesh client cfg endpoints subscribers opts r
unfolding new
new-IsNew go mesh none cfg es ss opts r h = cc
new-IsNew go mesh (some c) cfg es ss opts r h =
    let (s, e, hs) = >>=-eq-ok (parse_runtime_settings go mesh cfg opts) _ h in
    let (a, ea, ha) = >>=-eq-ok (each (endpoint_subscription go mesh s) es) _ hs in
    let (b, eb, hb) = >>=-eq-ok (each (subscriber_subscription go mesh s) ss) _ ha in
    subst (IsNew go mesh (some c) cfg es ss opts) (ok-injective hb) (record {
      settings = s;
      read = e;
      owner = refl;
      served = a;
      subscribed = b;
      in_order = refl;
      endpoints_served = each-Pairs _ _ (endpoint_subscription-Serves go mesh s) es a ea;
      subscribers_subscribed =
          each-Pairs _ _ (subscriber_subscription-Subscribes go mesh s) ss b eb;
      slots = refl;
      not_started = refl;
    })
