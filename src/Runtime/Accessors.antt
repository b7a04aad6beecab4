-- ===== src/Runtime/Accessors.antt =====
-- nats/runtime_public.go: what a runtime tells of its receivers.
use service_mesh_nats_go.Prelude.{
  ℕ, suc, ◌+◌, String, Bool, true, false, ◌≡◌, ◌≢◌, ◌⊎◌, inl, inr, refl, ap, sym, ◌∙◌, List, [],
  ◌∷◌, ◌++◌, Option, none, some, Bool-cases, All, length, eqb, eq_iff, ◌==◌, if◌then◌else◌, arith,
}
use service_mesh_nats_go.Mesh.{Target, Contract}
use service_mesh_nats_go.Errors.{Result, ok, guard, ◌>>=◌, ◌>>◌}
use service_mesh_nats_go.Target.{consumer_group}
use service_mesh_nats_go.JetStream.{JsSettings}
use service_mesh_nats_go.Client.{Client, check_open}
use service_mesh_nats_go.Consumer.{JsConsumer}
use service_mesh_nats_go.Runtime.{Subscription, RuntimeState, created, running, stopped, Runtime}

pub record Receiver : Type 0 where
  pub client : Client
  pub sub : Subscription
  pub consumer : Option JsConsumer

-- The loop over r.consumers, which come with the positions of the subscriptions that they are of.
unfoldable pub consumer_of : ℕ → List (ℕ × JsConsumer) → Option JsConsumer → Option JsConsumer
consumer_of i [] found = found
consumer_of i ((j, c) ∷ owned) found = consumer_of i owned (if eqb j i then some c else found)

-- The loop over r.subscriptions, from position `i` on.
unfoldable pub find_receiver :
    Contract → Client → List (ℕ × JsConsumer) → Target → ℕ → List Subscription → Option Receiver
find_receiver mesh client owned target i [] = none
find_receiver mesh client owned target i (b ∷ subs) =
    let rest = find_receiver mesh client owned target (suc i) subs in
    if mesh.target_equal b.target target
    then some (record { client = client; sub = b; consumer = consumer_of i owned none })
    else rest

abbrev pub receiver_at :
    Contract → Runtime → List (ℕ × JsConsumer) → Target → RuntimeState → Option Receiver
receiver_at mesh r owned target running = find_receiver mesh r.client owned target 0 r.subscriptions
receiver_at mesh r owned target created = none
receiver_at mesh r owned target stopped = none

-- `owned` is r.consumers with their subscriptions' positions.
unfoldable pub receiver : Contract → Runtime → List (ℕ × JsConsumer) → Target → Option Receiver
receiver mesh r owned target = receiver_at mesh r owned target r.state

-- ConsumerGroup of a receiver, from the queue of its subscription
unfoldable pub receiver_group : Contract → String → String
receiver_group mesh queue = if queue == "" then mesh.consumer_group_none else queue

abbrev pub stream_at :
    (String → Result String) → Client → Option JsSettings → Result (Option String)
stream_at lookup client none = ok none
stream_at lookup client (some s) = do
  guard (check_open client)
  found ← lookup s.stream
  ok (some found)

-- Stream of a receiver, given js.Stream
unfoldable pub receiver_stream : (String → Result String) → Receiver → Result (Option String)
receiver_stream lookup rc = stream_at lookup rc.client rc.sub.js

-- What a runtime has for a target.
pub record IsReceiverOf (mesh : Contract) (client : Client) (owned : List (ℕ × JsConsumer))
    (target : Target) (i : ℕ) (subs : List Subscription) (rc : Receiver) : Type 0 where
  pub before : List Subscription
  pub after : List Subscription
  pub among : subs ≡ before ++ (rc.sub ∷ after)
  pub of_target : mesh.target_equal rc.sub.target target ≡ true
  pub first : All (λ (b : Subscription). mesh.target_equal b.target target ≡ false) before
  pub of_client : rc.client ≡ client
  pub consumer : rc.consumer ≡ consumer_of (i + length before) owned none

module _ (mesh : Contract) (client : Client) (owned : List (ℕ × JsConsumer)) (target : Target) where
  abbrev NoneOf : List Subscription → Type 0
  NoneOf subs = All (λ (b : Subscription). mesh.target_equal b.target target ≡ false) subs

  IsReceiverOf-later :
      (i : ℕ) (b : Subscription) (subs : List Subscription) (rc : Receiver)
      → mesh.target_equal b.target target ≡ false
      → IsReceiverOf mesh client owned target (suc i) subs rc
      → IsReceiverOf mesh client owned target i (b ∷ subs) rc
  IsReceiverOf-later i b subs rc e f = record {
    before = b ∷ f.before;
    after = f.after;
    among = ap (λ xs. b ∷ xs) f.among;
    of_target = f.of_target;
    first = (e, f.first);
    of_client = f.of_client;
    consumer = f.consumer ∙ ap (λ n. consumer_of n owned none) (shifts (length f.before));
  }
    where
      shifts : (n : ℕ) → suc i + n ≡ i + suc n
      shifts n = omega arith

  find_receiver-cases :
      (i : ℕ) (subs : List Subscription)
      → ((find_receiver mesh client owned target i subs ≡ none) × NoneOf subs)
        ⊎ ((rc : Receiver) × (find_receiver mesh client owned target i subs ≡ some rc)
            × IsReceiverOf mesh client owned target i subs rc)
  unfolding find_receiver
  find_receiver-cases i [] = inl (refl, tt)
  find_receiver-cases i (b ∷ subs) = elim (Bool-cases (mesh.target_equal b.target target)) [
    | inl e ↦
        let rc : Receiver = record {
          client = client;
          sub = b;
          consumer = consumer_of i owned none;
        } in
        inr (
          rc,
          ap (λ x. if x then some rc else find_receiver mesh client owned target (suc i) subs) e,
          record {
            before = [];
            after = subs;
            among = refl;
            of_target = e;
            first = tt;
            of_client = refl;
            consumer = ap (λ n. consumer_of n owned none) (omega arith);
          },
        )
    | inr e ↦
        let skipped : find_receiver mesh client owned target i (b ∷ subs)
            ≡ find_receiver mesh client owned target (suc i) subs =
          ap
            (λ x.
              if x
              then some (record { client = client; sub = b; consumer = consumer_of i owned none })
              else find_receiver mesh client owned target (suc i) subs)
            e in
        elim (find_receiver-cases (suc i) subs) [
          | inl (n, all) ↦ inl (skipped ∙ n, (e, all))
          | inr (rc, s, f) ↦ inr (rc, skipped ∙ s, IsReceiverOf-later i b subs rc e f)
        ]
  ]

-- Receiver finds the first endpoint or subscriber whose target equals the given one, with the
-- consumer that belongs to it, while the runtime runs; and it finds nothing exactly when the
-- runtime does not run or no target equals it.
pub receiver-cases :
    (mesh : Contract) (r : Runtime) (owned : List (ℕ × JsConsumer)) (target : Target)
    → ((receiver mesh r owned target ≡ none)
        × ((r.state ≢ running)
            ⊎ All
                (λ (b : Subscription). mesh.target_equal b.target target ≡ false)
                r.subscriptions))
      ⊎ ((rc : Receiver) × (receiver mesh r owned target ≡ some rc)
          × (r.state ≡ running)
          × IsReceiverOf mesh r.client owned target 0 r.subscriptions rc)
unfolding receiver
receiver-cases mesh r owned target = by_state r.state refl
  where
    by_state :
        (s : RuntimeState)
        → r.state ≡ s
        → ((receiver_at mesh r owned target s ≡ none)
            × ((r.state ≢ running)
                ⊎ All
                    (λ (b : Subscription). mesh.target_equal b.target target ≡ false)
                    r.subscriptions))
          ⊎ ((rc : Receiver) × (receiver_at mesh r owned target s ≡ some rc)
              × (r.state ≡ running)
              × IsReceiverOf mesh r.client owned target 0 r.subscriptions rc)
    by_state created e = inl (refl, inl (λ h. cc))
    by_state stopped e = inl (refl, inl (λ h. cc))
    by_state running e = elim (find_receiver-cases mesh r.client owned target 0 r.subscriptions) [
      | inl (n, all) ↦ inl (n, inr all)
      | inr (rc, s, f) ↦ inr (rc, s, e, f)
    ]

receiver_group-named :
    (mesh : Contract) (queue : String) → queue ≢ "" → receiver_group mesh queue ≡ queue
unfolding receiver_group
receiver_group-named mesh queue n = ground (arith, eq_iff queue "")

-- A receiver's ConsumerGroup is its own group as it was asked for, or the deployment group when
-- that is empty, although its subscription holds the group of no group as an empty queue. The
-- deployment group is taken not to be empty.
pub receiver_group-consumer_group :
    (mesh : Contract) (group deployment : String)
    → deployment ≢ ""
    → receiver_group mesh (consumer_group mesh group deployment)
      ≡ (if group == "" then deployment else group)
unfolding receiver_group consumer_group
receiver_group-consumer_group mesh group deployment n =
    by_tests (group == "") (group == mesh.consumer_group_none) (eq_iff group "").0
      (eq_iff group "").1 (eq_iff group mesh.consumer_group_none).0
  where
    differ : true ≢ false
    differ h = cc

    by_tests :
        (empty none_asked : Bool)
        → (empty ≡ true → group ≡ "")
        → (group ≡ "" → empty ≡ true)
        → (none_asked ≡ true → group ≡ mesh.consumer_group_none)
        → receiver_group mesh (if empty then deployment else if none_asked then "" else group)
          ≡ (if empty then deployment else group)
    by_tests true none_asked e f g = receiver_group-named mesh deployment n
    by_tests false true e f g = sym (g refl)
    by_tests false false e f g = receiver_group-named mesh group (λ h. differ (sym (f h)))
