-- ===== src/Runtime/Lifecycle/Undone.antt =====
-- What a Start that fails leaves.
use service_mesh_nats_go.Prelude.{
  true, false, ◌≡◌, ◌⊎◌, inl, inr, refl, sym, ap, ◌∙◌, List, [], ◌∷◌, ◌++◌, map, Option,
  Option-cases, none, some, or_else, All,
}
use service_mesh_nats_go.Errors.{Error}
use service_mesh_nats_go.Client.{check_open}
use service_mesh_nats_go.Consumer.{JsConsumer}
use service_mesh_nats_go.Runtime.{Subscription, Runtime}
use service_mesh_nats_go.Runtime.Receivers.{Server, Opened, open_receivers}
use service_mesh_nats_go.Runtime.Lifecycle.{
  Action, accepts, unsubscribed, consumer_stopped, handlers_cancelled, Outcome, check_startable,
  abort_start, finish_start, start,
}
use service_mesh_nats_go.Runtime.Lifecycle.Started.{start-open, start-refused}

-- What a failed Start does not touch.
pub record IsUntouched (r s : Runtime) : Type 0 where
  pub state : s.state ≡ r.state
  pub subs : s.subs ≡ r.subs
  pub consumers : s.consumers ≡ r.consumers
  pub running_flag : s.is_running ≡ r.is_running
  pub client : s.client ≡ r.client
  pub subscriptions : s.subscriptions ≡ r.subscriptions

-- An action is one of those done.
abbrev pub Does : List Action → Action → Type 0
Does [] a = ⊥
Does (b ∷ bs) a = (b ≡ a) ⊎ Does bs a

-- A Start that failed before it opened anything did nothing; a later failure undid what was opened.
pub data IsUndone (server : Server) (r : Runtime) (out : Outcome) : Type 0 where
  refused : out.runtime ≡ r → out.actions ≡ [] → IsUndone server r out
  undone :
      All
        (λ (b : Subscription). Does out.actions (unsubscribed b))
        (open_receivers server r.subscriptions).0.subs
      → All
          (λ (c : JsConsumer). Does out.actions (consumer_stopped c))
          (open_receivers server r.subscriptions).0.consumers
      → Does out.actions handlers_cancelled
      → Does out.actions (accepts false)
      → out.runtime.accepting ≡ false
      → out.runtime.cancelled ≡ true
      → IsUndone server r out

Does-append : (before bs : List Action) (a : Action) → Does bs a → Does (before ++ bs) a
Does-append [] bs a d = d
Does-append (x ∷ before) bs a d = inr (Does-append before bs a d)

All-weaken {ℓ κ μ} :
    {A : Type ℓ} {P : A → Type κ} {Q : A → Type μ}
    → ((x : A) → P x → Q x)
    → (xs : List A) → All P xs
    → All Q xs
All-weaken f [] h = tt
All-weaken f (x ∷ xs) h = (f x h.0, All-weaken f xs h.1)

Does-map {ℓ} :
    {A : Type ℓ} (f : A → Action) (xs : List A) (rest : List Action)
    → All (λ x. Does (map f xs ++ rest) (f x)) xs
Does-map f [] rest = tt
Does-map f (x ∷ xs) rest = (inl refl, All-weaken (λ y d. inr d) xs (Does-map f xs rest))

module _ (o : Opened) where
  abort_start-subs :
      All (λ (b : Subscription). Does (accepts true ∷ abort_start o) (unsubscribed b)) o.subs
  unfolding abort_start
  abort_start-subs = All-weaken (λ b d. inr d) o.subs (Does-map unsubscribed o.subs _)

  abort_start-consumers :
      All (λ (c : JsConsumer). Does (accepts true ∷ abort_start o) (consumer_stopped c)) o.consumers
  unfolding abort_start
  abort_start-consumers =
      All-weaken (λ c d. inr (Does-append (map unsubscribed o.subs) _ _ d)) o.consumers
        (Does-map consumer_stopped o.consumers _)

  abort_start-end :
      (a : Action)
      → Does (handlers_cancelled ∷ accepts false ∷ []) a
      → Does (accepts true ∷ abort_start o) a
  unfolding abort_start
  abort_start-end a d = inr (
      Does-append (map unsubscribed o.subs) _ a
        (Does-append (map consumer_stopped o.consumers) _ a d))

finish_start-some :
    (server : Server) (r : Runtime) (x : Option Error) (e : Error)
    → (finish_start r (open_receivers server r.subscriptions).0 x).error ≡ some e
    → IsUntouched r (finish_start r (open_receivers server r.subscriptions).0 x).runtime
      × IsUndone server r (finish_start r (open_receivers server r.subscriptions).0 x)
unfolding finish_start
finish_start-some server r none e h = cc
finish_start-some server r (some x) e h = (
  record {
    state = refl;
    subs = refl;
    consumers = refl;
    running_flag = refl;
    client = refl;
    subscriptions = refl;
  },
  undone (abort_start-subs (open_receivers server r.subscriptions).0)
      (abort_start-consumers (open_receivers server r.subscriptions).0)
      (abort_start-end (open_receivers server r.subscriptions).0 handlers_cancelled (inl refl))
      (abort_start-end (open_receivers server r.subscriptions).0 (accepts false) (inr (inl refl)))
      refl refl,
)

-- A Start that returns an error leaves the runtime's state, its receivers and its client as they
-- were. Either it did nothing, or it unsubscribed every subscription and stopped every consumer
-- that it had opened, cancelled the handlers' context and stopped accepting messages.
pub start-IsUndone :
    (server : Server) (ctx_error : Option Error) (r : Runtime) (e : Error)
    → (start server ctx_error r).error ≡ some e
    → IsUntouched r (start server ctx_error r).runtime
      × IsUndone server r (start server ctx_error r)
start-IsUndone server ctx_error r e h =
    elim (Option-cases (or_else (check_startable r.state ctx_error) (check_open r.client))) [
      | inr (f, x) ↦ rw (start-refused server ctx_error r f x) (
        record {
          state = refl;
          subs = refl;
          consumers = refl;
          running_flag = refl;
          client = refl;
          subscriptions = refl;
        },
        refused refl refl,
      )
      | inl x ↦
          let eq = start-open server ctx_error r x in
          rw eq (
            finish_start-some server r
              (or_else (open_receivers server r.subscriptions).1 server.flush) e
              (ap (λ (o : Outcome). o.error) (sym eq) ∙ h))
    ]
