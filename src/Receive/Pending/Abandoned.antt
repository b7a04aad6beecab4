-- ===== src/Receive/Pending/Abandoned.antt =====
-- What abandonPending does to the pending deliveries.
use service_mesh_nats_go.Prelude.{
  ℕ, Bool, true, false, not, ◌&&◌, ◌||◌, ◌≡◌, refl, List, [], ◌∷◌, ◌++◌, eqb, contains,
  contains-without, if◌then◌else◌, arith, ap, ◌∙◌,
}
use service_mesh_nats_go.Mesh.{Contract}
use service_mesh_nats_go.Delivery.{DeliveryState, waiting, running, settled, settle, Reply}
use service_mesh_nats_go.Receive.Messages.{Msg, JsSubscription}
use service_mesh_nats_go.Receive.Served.{abandon}
use service_mesh_nats_go.Receive.Effects.{replies_of, nak-sends}
use service_mesh_nats_go.Receive.Pending.{
  Held, Deliveries, untrack, store, untracks, abandon_at, abandon_each, abandon_pending, is_settled,
  sent_for, nak_if,
}

-- abandon on each state.
module _ (mesh : Contract) (b : JsSubscription) (m : Msg) where
  abandon-state : (s : DeliveryState) → (abandon mesh b m s).0 ≡ settled
  unfolding abandon settle
  abandon-state waiting = refl
  abandon-state running = refl
  abandon-state settled = refl

  abandon-untracks : (s : DeliveryState) → untracks (abandon mesh b m s).1 ≡ not (is_settled s)
  unfolding abandon settle
  abandon-untracks waiting = refl
  abandon-untracks running = refl
  abandon-untracks settled = refl

  abandon-sends :
      (s : DeliveryState) → replies_of (abandon mesh b m s).1 ≡ nak_if (not (is_settled s))
  unfolding abandon settle
  abandon-sends waiting = nak-sends b _ refl
  abandon-sends running = nak-sends b _ refl
  abandon-sends settled = refl

untracked-held :
    (d : ℕ) (t : Deliveries) (u : Bool) (e : ℕ)
    → ((if u then untrack d t else t).held e).state ≡ (t.held e).state
unfolding untrack
untracked-held d t true e = refl
untracked-held d t false e = refl

untracked-pending :
    (d : ℕ) (t : Deliveries) (u : Bool) (e : ℕ)
    → contains (if u then untrack d t else t).pending e
      ≡ (not (eqb d e && u) && contains t.pending e)
unfolding untrack
untracked-pending d t true e = ground (arith, contains-without t.pending d e)
untracked-pending d t false e = ground arith

store-state :
    (d : ℕ) (s : DeliveryState) (held : ℕ → Held) (e : ℕ)
    → (store d s held e).state ≡ (if eqb d e then s else (held e).state)
store-state d s held e = by_test (eqb d e)
  where
    by_test :
        (same : Bool)
        → (if same then record (held e) { state = s } else held e).state
          ≡ (if same then s else (held e).state)
    by_test true = refl
    by_test false = refl

-- What the deliveries and the sent replies are, at one address, after some of them were abandoned.
pub record IsAbandoned (t : Deliveries) (e : ℕ) (given_up : Bool) (t' : Deliveries)
    (sent : List Reply) : Type 0 where
  pub state : (t'.held e).state ≡ (if given_up then settled else (t.held e).state)
  pub pending :
      contains t'.pending e
      ≡ (contains t.pending e && (not given_up || is_settled (t.held e).state))
  pub replies : sent ≡ nak_if (given_up && not (is_settled (t.held e).state))

module _ (mesh : Contract) where
  abandon_at-IsAbandoned :
      (d : ℕ) (t : Deliveries) (e : ℕ)
      → IsAbandoned t e
          (eqb d e)
          (abandon_at mesh d t).0
          (if eqb d e then replies_of (abandon_at mesh d t).1 else [])
  unfolding abandon_at
  abandon_at-IsAbandoned d t e =
      let was = (t.held d).state in
      let (s, es) = abandon mesh (t.held d).sub (t.held d).msg was in
      let stored : Deliveries = record t { held = store d s t.held } in
      let u = abandon-untracks mesh (t.held d).sub (t.held d).msg was in
      let same : eqb d e ≡ true → was ≡ (t.held e).state =
        λ h. ap (λ x. (t.held x).state) (eqb→≡ d e h) in
      record {
        state =
            untracked-held d stored (untracks es) e
            ∙ store-state d s t.held e
            ∙ ap (λ x. if eqb d e then x else (t.held e).state)
                (abandon-state mesh (t.held d).sub (t.held d).msg was);
        pending =
            untracked-pending d stored (untracks es) e
            ∙ by_test (eqb d e) (untracks es) (contains t.pending e) u same;
        replies = sends (eqb d e) same (abandon-sends mesh (t.held d).sub (t.held d).msg was);
      }
    where
      eqb→≡ : (a b : ℕ) → eqb a b ≡ true → a ≡ b
      eqb→≡ a b h = ground arith

      by_test :
          (same u p : Bool) {x y : DeliveryState}
          → u ≡ not (is_settled x)
          → (same ≡ true → x ≡ y)
          → (not (same && u) && p) ≡ (p && (not same || is_settled y))
      by_test same u p h k = ground arith

      sends :
          (same : Bool) {x y : DeliveryState} {rs : List Reply}
          → (same ≡ true → x ≡ y)
          → rs ≡ nak_if (not (is_settled x))
          → (if same then rs else []) ≡ nak_if (same && not (is_settled y))
      sends true k h = h ∙ ap (λ x. nak_if (not (is_settled x))) (k refl)
      sends false k h = refl

  abandon_each-IsAbandoned :
      (ds : List ℕ) (t : Deliveries) (e : ℕ)
      → let (t', sent) = abandon_each mesh ds t in
        IsAbandoned t e (contains ds e) t' (sent_for e sent)
  unfolding abandon_each
  abandon_each-IsAbandoned [] t e = record { state = refl; pending = ground arith; replies = refl }
  abandon_each-IsAbandoned (d ∷ ds) t e =
      let one = abandon_at-IsAbandoned d t e in
      let t' = (abandon_at mesh d t).0 in
      let more = abandon_each-IsAbandoned ds t' e in
      record {
        state =
            more.state
            ∙ states (eqb d e) (contains ds e) (t.held e).state (t'.held e).state one.state;
        pending =
            pendings (eqb d e) (contains ds e) (t.held e).state (t'.held e).state _ _ _ one.state
              one.pending more.pending;
        replies =
            ap (λ rs. rs ++ sent_for e (abandon_each mesh ds t').1) one.replies
            ∙ ap (λ rs. nak_if (eqb d e && not (is_settled (t.held e).state)) ++ rs) more.replies
            ∙ naks (eqb d e) (contains ds e) (t.held e).state (t'.held e).state one.state;
      }
    where
      states :
          (a b : Bool) (x y : DeliveryState)
          → y ≡ (if a then settled else x)
          → (if b then settled else y) ≡ (if a || b then settled else x)
      states a b x y h = ground arith

      pendings :
          (a b : Bool) (x y : DeliveryState) (p q r : Bool)
          → y ≡ (if a then settled else x)
          → q ≡ (p && (not a || is_settled x))
          → r ≡ (q && (not b || is_settled y))
          → r ≡ (p && (not (a || b) || is_settled x))
      pendings a b x y p q r h k l = ground arith

      naks :
          (a b : Bool) (x y : DeliveryState)
          → y ≡ (if a then settled else x)
          → (nak_if (a && not (is_settled x)) ++ nak_if (b && not (is_settled y)))
            ≡ nak_if ((a || b) && not (is_settled x))
      naks a b x y h = ground arith

  -- abandonPending settles every pending delivery, sends one nak for each of them that was not
  -- settled yet and nothing for the others, and takes those that it naks out of the pending ones; a
  -- pending delivery that was settled already is left for the thread that settled it to untrack.
  -- What is not pending is left as it was.
  pub abandon_pending-IsAbandoned :
      (t : Deliveries) (e : ℕ)
      → let (t', sent) = abandon_pending mesh t in
        IsAbandoned t e (contains t.pending e) t' (sent_for e sent)
  unfolding abandon_pending
  abandon_pending-IsAbandoned t e = abandon_each-IsAbandoned t.pending t e
