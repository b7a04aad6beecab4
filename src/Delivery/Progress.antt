-- ===== src/Delivery/Progress.antt =====
-- How a run of a delivery goes on and ends.
use service_mesh_nats_go.Prelude.{
  ℕ, suc, ◌+◌, ◌≤◌, ◌<◌, false, Bool-cases, ◌≡◌, ◌⊎◌, inl, inr, refl, [], ◌∷◌, arith,
}
use service_mesh_nats_go.Delivery.{
  begin, settle, Reply, Callback, arriving, dispatching, serving, handling, handled, abandoning,
  won, sending, closed, Stopper, idle, taken, owns, nacking, gone, Delivery, arrived, Step, track,
  dispatched, refused, begin_true, begin_false, handler_returns, settle_result, settle_result_late,
  abandon, abandon_late, untrack, reply, stop_takes, stop_settles, stop_late, stop_untracks,
  stop_naks, Steps, here, next,
}
use service_mesh_nats_go.Delivery.Race.{IsFinished, answered_once}

-- How many steps are left at most.
abbrev left_of_callback : Callback → ℕ
left_of_callback arriving = 7
left_of_callback dispatching = 6
left_of_callback serving = 5
left_of_callback handling = 4
left_of_callback (handled b) = 3
left_of_callback abandoning = 3
left_of_callback (won b) = 2
left_of_callback (sending b) = 1
left_of_callback closed = 0

abbrev left_of_stopper : Stopper → ℕ
left_of_stopper idle = 4
left_of_stopper taken = 3
left_of_stopper owns = 2
left_of_stopper nacking = 1
left_of_stopper gone = 0

abbrev pub steps_left : Delivery → ℕ
steps_left d = left_of_callback d.callback + left_of_stopper d.stopper

Step-steps_left : {d e : Delivery} → Step d e → steps_left e < steps_left d
Step-steps_left (track c e) = ground arith
Step-steps_left (dispatched c e) = ground arith
Step-steps_left (refused c e) = ground arith
Step-steps_left (begin_true c b e) = ground arith
Step-steps_left (begin_false c b e) = ground arith
Step-steps_left (handler_returns f c e) = ground arith
Step-steps_left (settle_result f c s e) = ground arith
Step-steps_left (settle_result_late f c s e) = ground arith
Step-steps_left (abandon c s e) = ground arith
Step-steps_left (abandon_late c s e) = ground arith
Step-steps_left (untrack f c e) = ground arith
Step-steps_left (reply f c e) = ground arith
Step-steps_left (stop_takes s t e) = ground arith
Step-steps_left (stop_settles s t e) = ground arith
Step-steps_left (stop_late s t e) = ground arith
Step-steps_left (stop_untracks s e) = ground arith
Step-steps_left (stop_naks s e) = ground arith

-- The length of a path.
abbrev pub count : {d e : Delivery} → Steps d e → ℕ
count here = 0
count (next s t) = suc (count s)

count-steps_left : {d e : Delivery} (s : Steps d e) → count s + steps_left e ≤ steps_left d
count-steps_left here = omega arith
count-steps_left (next s t) = omega (arith, count-steps_left s, Step-steps_left t)

-- The next step of the callback's thread.
callback_step :
    (d : Delivery) (k : Callback) → d.callback ≡ k → (k ≡ closed) ⊎ ((e : Delivery) × Step d e)
callback_step d arriving h = inr (_, track h refl)
callback_step d dispatching h = inr (_, dispatched h refl)
callback_step d serving h = elim (Bool-cases (begin d.state).1) [
  | inl b ↦ inr (_, begin_true h b refl)
  | inr b ↦ inr (_, begin_false h b refl)
]
callback_step d handling h = inr (_, handler_returns false h refl)
callback_step d (handled f) h = elim (Bool-cases (settle d.state).2) [
  | inl b ↦ inr (_, settle_result f h b refl)
  | inr b ↦ inr (_, settle_result_late f h b refl)
]
callback_step d abandoning h = elim (Bool-cases (settle d.state).2) [
  | inl b ↦ inr (_, abandon h b refl)
  | inr b ↦ inr (_, abandon_late h b refl)
]
callback_step d (won f) h = inr (_, untrack f h refl)
callback_step d (sending f) h = inr (_, reply f h refl)
callback_step d closed h = inl refl

stopper_step :
    (d : Delivery) (k : Stopper)
    → d.stopper ≡ k
    → ((k ≡ idle) ⊎ (k ≡ gone)) ⊎ ((e : Delivery) × Step d e)
stopper_step d idle h = inl (inl refl)
stopper_step d taken h = elim (Bool-cases (settle d.state).2) [
  | inl b ↦ inr (_, stop_settles h b refl)
  | inr b ↦ inr (_, stop_late h b refl)
]
stopper_step d owns h = inr (_, stop_untracks h refl)
stopper_step d nacking h = inr (_, stop_naks h refl)
stopper_step d gone h = inl (inr refl)

-- A delivery is finished, or can go on.
callback_then_stop : (d : Delivery) → IsFinished d ⊎ ((e : Delivery) × Step d e)
callback_then_stop d = elim (callback_step d d.callback refl) [
  | inr s ↦ inr s
  | inl c ↦ elim (stopper_step d d.stopper refl) [ inr s ↦ inr s | inl p ↦ inl (c, p) ]
]

-- Every run of a delivery ends, after eleven steps at most, of which the return of its handler is
-- one, and it ends only when the delivery has been answered exactly once: a delivery that can take
-- no further step is settled, not pending, and has one reply.
pub runs_end_answered :
    (e : Delivery) (s : Steps arrived e)
    → (count s ≤ 11)
      × (((f : Delivery) × Step e f)
          ⊎ (IsFinished e × (e.tracked ≡ false) × ((r : Reply) × (e.replies ≡ r ∷ []))))
runs_end_answered e s = (
  omega (arith, count-steps_left s),
  elim (callback_then_stop e) [
    | inr step ↦ inl step
    | inl f ↦ let (_, t, r) = (answered_once e s).1 f in inr (f, t, r)
  ],
)
