-- ===== src/Tests/Deliveries.antt =====
-- Deliveries that are acked, and that Stop takes over.
use service_mesh_nats_go.Prelude.{◌≤◌, ◌≡◌, ◌⊎◌, refl, true, false, [], ◌∷◌, length}
use service_mesh_nats_go.Delivery.{
  DeliveryState, running, settled, begin, settle, Reply, ack, Callback, handling, handled, won,
  closed, Stopper, idle, Delivery, arrived, track, dispatched, begin_true, handler_returns,
  settle_result, untrack, reply, Step, Steps, here, next,
}
use service_mesh_nats_go.Delivery.Progress.{count, runs_end_answered}
use service_mesh_nats_go.Delivery.Race.{IsFinished, answered_once, Passes, ack_needs_success}

abbrev delivery : DeliveryState → Callback → Stopper → Delivery
delivery state callback stopper = record {
  state = state;
  tracked = true;
  callback = callback;
  stopper = stopper;
  replies = [];
}

abbrev acked : Delivery
acked = record {
  state = settled;
  tracked = false;
  callback = closed;
  stopper = idle;
  replies = ack ∷ [];
}

until_handling : Steps arrived (delivery running handling idle)
unfolding begin
until_handling =
    next (next (next here (track refl refl)) (dispatched refl refl)) (begin_true refl refl refl)

until_won : Steps arrived (delivery settled (won false) idle)
unfolding settle
until_won =
    next (next until_handling (handler_returns false refl refl))
      (settle_result false refl refl refl)

until_acked : Steps arrived acked
until_acked = next (next until_won (untrack false refl refl)) (reply false refl refl)

answered_once_example :
    (length acked.replies ≤ 1)
    × (IsFinished acked
        → (acked.state ≡ settled)
          × (acked.tracked ≡ false)
          × ((r : Reply) × (acked.replies ≡ r ∷ [])))
answered_once_example = answered_once acked until_acked

ack_needs_success_example : Passes (λ x. x.callback ≡ handled false) until_acked
ack_needs_success_example = ack_needs_success acked until_acked refl

runs_end_answered_example :
    (count until_acked ≤ 11)
    × (((f : Delivery) × Step acked f)
        ⊎ (IsFinished acked × (acked.tracked ≡ false) × ((r : Reply) × (acked.replies ≡ r ∷ []))))
runs_end_answered_example = runs_end_answered acked until_acked
