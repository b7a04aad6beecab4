-- ===== src/Runtime/Opened.antt =====
-- What is open after openReceivers, and what the boot check says of the streams.
use service_mesh_nats_go.Prelude.{
  String, Bool, true, false, Bool-cases, ◌≡◌, ◌⊎◌, inl, inr, refl, sym, ap, ◌∙◌, List, [], ◌∷◌,
  ◌++◌, Option, Option-cases, none, some, arith, All, if◌then◌else◌,
}
use mathlib.Core.Path.{subst}
use mathlib.Core.List.{append_assoc, append-nil}
use service_mesh_nats_go.Errors.{Error, stream_not_found, is, Result, ok, err}
use service_mesh_nats_go.JetStream.{JsSettings}
use service_mesh_nats_go.Consumer.{JsConsumer}
use service_mesh_nats_go.Serve.{Handler, endpoint, subscriber}
use service_mesh_nats_go.Runtime.{Subscription}
use service_mesh_nats_go.Runtime.Made.{Pairs, nil, cons}
use service_mesh_nats_go.Runtime.Receivers.{
  Server, without_jetstream, judge, check_handler, check_endpoint_streams, subscribe, consume,
  Opened, with_sub, with_consumer, open_one, open_each, nothing, open_receivers,
}

-- No stream covers the subject, if it is an endpoint's.
abbrev pub IsUncovered : (String → Result String) → Handler → String → Type 0
IsUncovered lookup (subscriber h) subject = Unit
IsUncovered lookup (endpoint h) subject =
    (e : Error) × (lookup subject ≡ err e) × (is e stream_not_found ≡ true)

-- A lookup tells that the server has no JetStream.
abbrev pub LacksJetStream : (String → Result String) → Type 0
LacksJetStream lookup =
    (subject : String) × (e : Error) × (lookup subject ≡ err e) × (without_jetstream e ≡ true)

judge-none :
    (lookup : String → Result String) (subject : String) (answer : Result String)
    (rest : Option Error)
    → lookup subject ≡ answer
    → judge subject answer rest ≡ none
    → (((e : Error) × (lookup subject ≡ err e) × (is e stream_not_found ≡ true)) × (rest ≡ none))
      ⊎ LacksJetStream lookup
judge-none lookup subject (ok name) rest a h = cc
judge-none lookup subject (err e) rest a h = elim (Bool-cases (is e stream_not_found)) [
  | inl f ↦ inl ((e, a, f), ground arith)
  | inr f ↦ elim (Bool-cases (without_jetstream e)) [
    | inl w ↦ inr (subject, e, a, w)
    | inr w ↦ absurd (ground arith)
  ]
]

check_handler-none :
    (lookup : String → Result String) (k : Handler) (subject : String) (rest : Option Error)
    → check_handler k subject lookup rest ≡ none
    → (IsUncovered lookup k subject × (rest ≡ none)) ⊎ LacksJetStream lookup
check_handler-none lookup (subscriber f) subject rest h = inl (tt, h)
check_handler-none lookup (endpoint f) subject rest h =
    judge-none lookup subject (lookup subject) rest refl h

-- When the boot check passes, no stream covers the subject of an endpoint, or the server has no
-- JetStream.
pub check_endpoint_streams-IsUncovered :
    (lookup : String → Result String) (subs : List Subscription)
    → check_endpoint_streams lookup subs ≡ none
    → All (λ (b : Subscription). IsUncovered lookup b.handler b.subject) subs
      ⊎ LacksJetStream lookup
unfolding check_endpoint_streams
check_endpoint_streams-IsUncovered lookup [] h = inl tt
check_endpoint_streams-IsUncovered lookup (b ∷ subs) h =
    elim (check_handler-none lookup b.handler b.subject (check_endpoint_streams lookup subs) h) [
      | inl (u, rest) ↦ elim (check_endpoint_streams-IsUncovered lookup subs rest) [
        | inl a ↦ inl (u, a)
        | inr l ↦ inr l
      ]
      | inr l ↦ inr l
    ]

-- The subscriptions that are core ones, and those that consume from a stream.
unfoldable is_core : Option JsSettings → Bool
is_core none = true
is_core (some s) = false

unfoldable pub core : List Subscription → List Subscription
unfolding is_core
core [] = []
core (b ∷ subs) = if is_core b.js then b ∷ core subs else core subs

unfoldable pub durable : List Subscription → List Subscription
unfolding is_core
durable [] = []
durable (b ∷ subs) = if is_core b.js then durable subs else b ∷ durable subs

-- A consumer that was opened for a subscription.
abbrev pub Consumes : Server → Subscription → JsConsumer → Type 0
Consumes server b c = (s : JsSettings) × (b.js ≡ some s) × (consume server b s ≡ ok c)

-- What was opened since `o`: every core subscription, with a success of the server, and a consumer
-- for every other.
pub record OpensAll (server : Server) (subs : List Subscription) (o p : Opened) : Type 0 where
  pub since : List JsConsumer
  pub subs_opened : p.subs ≡ o.subs ++ core subs
  pub consumers_opened : p.consumers ≡ o.consumers ++ since
  pub subscribed : All (λ (b : Subscription). subscribe server b ≡ none) (core subs)
  pub consumed : Pairs (Consumes server) (durable subs) since

open_one-core :
    (server : Server) (b : Subscription) (o p : Opened)
    → open_one server b none o ≡ (p, none)
    → (subscribe server b ≡ none) × (p ≡ with_sub o b)
unfolding open_one
open_one-core server b o p h = ground arith

open_one-durable :
    (server : Server) (b : Subscription) (s : JsSettings) (o p : Opened)
    → open_one server b (some s) o ≡ (p, none)
    → (c : JsConsumer) × (consume server b s ≡ ok c) × (p ≡ with_consumer o c)
unfolding open_one
open_one-durable server b s o p h = at (consume server b s) refl h
  where
    at :
        (r : Result JsConsumer)
        → consume server b s ≡ r
        → open_one server b (some s) o ≡ (p, none)
        → (c : JsConsumer) × (consume server b s ≡ ok c) × (p ≡ with_consumer o c)
    at (ok c) e h = (c, e, ground arith)
    at (err x) e h = absurd (ground arith)

open_each-cons :
    (server : Server) (b : Subscription) (subs : List Subscription) (o p : Opened)
    → open_each server (b ∷ subs) o ≡ (p, none)
    → (q : Opened) × (open_one server b b.js o ≡ (q, none)) × (open_each server subs q ≡ (p, none))
unfolding open_each
open_each-cons server b subs o p h = ((open_one server b b.js o).0, ground arith, ground arith)

core-cons :
    (b : Subscription) (subs : List Subscription)
    → b.js ≡ none
    → (core (b ∷ subs) ≡ b ∷ core subs) × (durable (b ∷ subs) ≡ durable subs)
unfolding core durable is_core
core-cons b subs e = (
  ap (λ k. if is_core k then b ∷ core subs else core subs) e,
  ap (λ k. if is_core k then durable subs else b ∷ durable subs) e,
)

durable-cons :
    (b : Subscription) (subs : List Subscription) (s : JsSettings)
    → b.js ≡ some s
    → (core (b ∷ subs) ≡ core subs) × (durable (b ∷ subs) ≡ b ∷ durable subs)
unfolding core durable is_core
durable-cons b subs s e = (
  ap (λ k. if is_core k then b ∷ core subs else core subs) e,
  ap (λ k. if is_core k then durable subs else b ∷ durable subs) e,
)

module _ (server : Server) (b : Subscription) (subs : List Subscription) (o p : Opened) where
  OpensAll-core :
      b.js ≡ none
      → subscribe server b ≡ none
      → OpensAll server subs (with_sub o b) p
      → OpensAll server (b ∷ subs) o p
  OpensAll-core e s r =
      let (ec, ed) = core-cons b subs e in
      record {
        since = r.since;
        subs_opened = rw ec (r.subs_opened ∙ append_assoc o.subs (b ∷ []) (core subs));
        consumers_opened = r.consumers_opened;
        subscribed = rw ec (s, r.subscribed);
        consumed = rw ed r.consumed;
      }

  OpensAll-durable :
      (s : JsSettings) (c : JsConsumer)
      → b.js ≡ some s
      → consume server b s ≡ ok c
      → OpensAll server subs (with_consumer o c) p
      → OpensAll server (b ∷ subs) o p
  OpensAll-durable s c e k r =
      let (ec, ed) = durable-cons b subs s e in
      record {
        since = c ∷ r.since;
        subs_opened = rw ec r.subs_opened;
        consumers_opened = r.consumers_opened ∙ append_assoc o.consumers (c ∷ []) r.since;
        subscribed = rw ec r.subscribed;
        consumed = rw ed (cons (s, e, k) r.consumed);
      }

OpensAll-nil : (server : Server) (o : Opened) → OpensAll server [] o o
unfolding core durable
OpensAll-nil server o = record {
  since = [];
  subs_opened = sym (append-nil o.subs);
  consumers_opened = sym (append-nil o.consumers);
  subscribed = tt;
  consumed = nil;
}

open_each-OpensAll :
    (server : Server) (subs : List Subscription) (o p : Opened)
    → open_each server subs o ≡ (p, none)
    → OpensAll server subs o p
unfolding open_each core durable
open_each-OpensAll server [] o p h =
    subst (OpensAll server [] o) (ap (λ (x : Opened × Option Error). x.0) h) (OpensAll-nil server o)
open_each-OpensAll server (b ∷ subs) o p h =
    let (q, e, t) = open_each-cons server b subs o p h in
    let rest = open_each-OpensAll server subs q p t in
    elim (Option-cases b.js) [
      | inl n ↦
          let (s, eq) =
            open_one-core server b o q (subst (λ k. open_one server b k o ≡ (q, none)) n e) in
          OpensAll-core server b subs o p n s (subst (λ x. OpensAll server subs x p) eq rest)
      | inr (s, j) ↦
          let (c, k, eq) =
            open_one-durable server b s o q (subst (λ k. open_one server b k o ≡ (q, none)) j e) in
          OpensAll-durable server b subs o p s c j k (subst (λ x. OpensAll server subs x p) eq rest)
    ]

-- What is open when openReceivers returns no error.
pub open_receivers-OpensAll :
    (server : Server) (subs : List Subscription) (p : Opened)
    → open_receivers server subs ≡ (p, none)
    → (check_endpoint_streams server.stream_by_subject subs ≡ none) × OpensAll server subs nothing p
unfolding open_receivers
open_receivers-OpensAll server subs p h =
    let c = check_endpoint_streams server.stream_by_subject subs in
    elim (Option-cases c) [
      | inl e ↦ (e, open_each-OpensAll server subs nothing p (ground arith))
      | inr (x, e) ↦ absurd (ground arith)
    ]
