-- ===== src/Receive/Pending.antt =====
-- The pending deliveries of a runtime, r.pending, and abandonPending over them.
pub mod Abandoned
use service_mesh_nats_go.Prelude.{
  ℕ, Bool, true, false, not, ◌&&◌, ◌||◌, ◌≡◌, refl, List, [], ◌∷◌, ◌++◌, eqb, contains, without,
  contains-without, if◌then◌else◌, arith, ap, ◌∙◌,
}
use service_mesh_nats_go.Mesh.{Contract}
use service_mesh_nats_go.Delivery.{
  DeliveryState, waiting, running, settled, settle, Reply, nak as nak_sent,
}
use service_mesh_nats_go.Receive.Messages.{Msg, JsSubscription}
use service_mesh_nats_go.Receive.Served.{Effect, abandon}
use service_mesh_nats_go.Receive.Effects.{replies_of, nak-sends}

-- A *delivery: its subscription, its message and its state.
pub record Held : Type 0 where
  pub sub : JsSubscription
  pub msg : Msg
  pub state : DeliveryState

-- The deliveries by their addresses, and the addresses in r.pending. The order of the addresses is
-- the order in which a range over the map takes them, which may be any.
pub record Deliveries : Type 0 where
  pub held : ℕ → Held
  pub pending : List ℕ

-- r.pending[d] = struct{}{}
unfoldable pub track : ℕ → Deliveries → Deliveries
track d t = record t { pending = if contains t.pending d then t.pending else d ∷ t.pending }

unfoldable pub untrack : ℕ → Deliveries → Deliveries
untrack d t = record t { pending = without t.pending d }

abbrev pub store : ℕ → DeliveryState → (ℕ → Held) → ℕ → Held
store d s held e = if eqb d e then record (held e) { state = s } else held e

-- Is the first of the effects the untracking?
abbrev pub untracks : List Effect → Bool
untracks (Effect.untracked ∷ es) = true
untracks _ = false

-- abandon of the delivery at an address.
unfoldable pub abandon_at : Contract → ℕ → Deliveries → Deliveries × List Effect
unfolding abandon untrack
abandon_at mesh d t =
    let (s, es) = abandon mesh (t.held d).sub (t.held d).msg (t.held d).state in
    let stored : Deliveries = record t { held = store d s t.held } in
    (if untracks es then untrack d stored else stored, es)

-- The loop of abandonPending over the deliveries that it copied. Each effect is given with the
-- address of its delivery.
unfoldable pub abandon_each : Contract → List ℕ → Deliveries → Deliveries × List (ℕ × List Effect)
unfolding abandon_at
abandon_each mesh [] t = (t, [])
abandon_each mesh (d ∷ ds) t =
    let (t', es) = abandon_at mesh d t in
    let (t'', rest) = abandon_each mesh ds t' in (t'', (d, es) ∷ rest)

unfoldable pub abandon_pending : Contract → Deliveries → Deliveries × List (ℕ × List Effect)
unfolding abandon_each
abandon_pending mesh t = abandon_each mesh t.pending t

abbrev pub is_settled : DeliveryState → Bool
is_settled settled = true
is_settled _ = false

-- What is sent to the server for the delivery at an address.
abbrev pub sent_for : ℕ → List (ℕ × List Effect) → List Reply
sent_for e [] = []
sent_for e ((d, es) ∷ rest) = (if eqb d e then replies_of es else []) ++ sent_for e rest

abbrev pub nak_if : Bool → List Reply
nak_if true = nak_sent ∷ []
nak_if false = []
