-- ===== src/Delivery/Race.antt =====
-- However the callback and Stop interleave, a delivery is settled once and answered once.
use service_mesh_nats_go.Prelude.{
  ℕ, ◌+◌, ◌≤◌, Bool, true, false, ◌≡◌, ◌≢◌, ◌⊎◌, inl, inr, List, [], ◌∷◌, arith, length, refl,
}
use service_mesh_nats_go.Delivery.{
  DeliveryState, waiting, running, settled, begin, settle, Reply, ack, nak, Callback, arriving,
  dispatching, serving, handling, handled, abandoning, won, sending, closed, Stopper, idle, owns,
  nacking, gone, Delivery, arrived, Step, track, dispatched, refused, begin_true, begin_false,
  handler_returns, settle_result, settle_result_late, abandon, abandon_late, untrack, reply,
  stop_takes, stop_settles, stop_late, stop_untracks, stop_naks, Steps, here, next,
}

-- Does the thread own the delivery, and has it untracked it?
abbrev callback_owns : Callback → ℕ
callback_owns (won b) = 1
callback_owns (sending b) = 1
callback_owns _ = 0

abbrev callback_keeps : Callback → ℕ
callback_keeps (won b) = 1
callback_keeps _ = 0

abbrev stopper_owns : Stopper → ℕ
stopper_owns owns = 1
stopper_owns nacking = 1
stopper_owns _ = 0

abbrev stopper_keeps : Stopper → ℕ
stopper_keeps owns = 1
stopper_keeps _ = 0

abbrev times_settled : DeliveryState → ℕ
times_settled settled = 1
times_settled _ = 0

-- What the place of the callback's thread says of the state.
abbrev Fits : Callback → Delivery → Type 0
Fits arriving d = (d.state ≡ waiting) × (d.tracked ≡ false) × (d.stopper ≡ idle)
Fits dispatching d = d.state ≢ running
Fits serving d = d.state ≢ running
Fits abandoning d = d.state ≢ running
Fits handling d = d.state ≢ waiting
Fits (handled b) d = d.state ≢ waiting
Fits _ d = d.state ≡ settled

pub record Inv (d : Delivery) : Type 0 where
  pub once :
      callback_owns d.callback + stopper_owns d.stopper + length d.replies ≡ times_settled d.state
  pub fits : Fits d.callback d
  pub stopped : d.stopper ≡ gone → d.state ≡ settled
  pub pending :
      d.tracked ≡ true → d.state ≡ settled → callback_keeps d.callback + stopper_keeps d.stopper ≡ 1

pub arrived-Inv : Inv arrived
arrived-Inv = ground arith

Step-Inv : {d e : Delivery} → Step d e → Inv d → Inv e
unfolding begin settle
Step-Inv (track c e) v = ground arith
Step-Inv (dispatched c e) v = ground arith
Step-Inv (refused c e) v = ground arith
Step-Inv (begin_true c b e) v = ground arith
Step-Inv (begin_false c b e) v = ground arith
Step-Inv (handler_returns f c e) v = ground arith
Step-Inv (settle_result f c s e) v = ground arith
Step-Inv (settle_result_late f c s e) v = ground arith
Step-Inv (abandon c s e) v = ground arith
Step-Inv (abandon_late c s e) v = ground arith
Step-Inv (untrack f c e) v = ground arith
Step-Inv (reply f c e) v = ground arith
Step-Inv (stop_takes s t e) v = ground arith
Step-Inv (stop_settles s t e) v = ground arith
Step-Inv (stop_late s t e) v = ground arith
Step-Inv (stop_untracks s e) v = ground arith
Step-Inv (stop_naks s e) v = ground arith

pub Steps-Inv : {d e : Delivery} → Inv d → Steps d e → Inv e
Steps-Inv v here = v
Steps-Inv v (next s t) = Step-Inv t (Steps-Inv v s)

at_most_one : (xs : List Reply) → length xs ≤ 1 → (xs ≡ []) ⊎ ((r : Reply) × (xs ≡ r ∷ []))
at_most_one [] h = inl refl
at_most_one (r ∷ []) h = inr (r, refl)
at_most_one (r ∷ s ∷ xs) h = absurd (omega arith)

-- The callback's thread has nothing left to do, and Stop is not at work on the delivery.
abbrev pub IsFinished : Delivery → Type 0
IsFinished d = (d.callback ≡ closed) × ((d.stopper ≡ idle) ⊎ (d.stopper ≡ gone))

-- At every moment a delivery has been answered at most once. When both threads are through with
-- it, it has been answered exactly once, it is settled, and it is no longer pending.
pub answered_once :
    (e : Delivery)
    → Steps arrived e
    → (length e.replies ≤ 1)
      × (IsFinished e
          → (e.state ≡ settled) × (e.tracked ≡ false) × ((r : Reply) × (e.replies ≡ r ∷ [])))
answered_once e s = let v = Steps-Inv arrived-Inv s in (few e v, λ f. finished e v f)
  where
    few : (e : Delivery) → Inv e → length e.replies ≤ 1
    few e v = ground arith

    finished :
        (e : Delivery)
        → Inv e
        → IsFinished e
        → (e.state ≡ settled) × (e.tracked ≡ false) × ((r : Reply) × (e.replies ≡ r ∷ []))
    finished e v f = elim (at_most_one e.replies (few e v)) [
      | inl n ↦ absurd (ground arith)
      | inr (r, x) ↦ (ground arith, ground arith, (r, x))
    ]

-- A path of steps goes through a state.
abbrev pub Passes : (Delivery → Type 0) → {d e : Delivery} → Steps d e → Type 0
Passes P {d} here = P d
Passes P (next {f = f} s t) = Passes P s ⊎ P f

abbrev pub has_ack : List Reply → Bool
has_ack [] = false
has_ack (ack ∷ rs) = true
has_ack (nak ∷ rs) = has_ack rs

-- An ack has been sent or is about to be.
abbrev IsAcking : Delivery → Type 0
IsAcking d = (d.callback ≡ won false) ⊎ (d.callback ≡ sending false) ⊎ (has_ack d.replies ≡ true)

Step-IsAcking : {d e : Delivery} → Step d e → IsAcking e → IsAcking d ⊎ (d.callback ≡ handled false)
Step-IsAcking (track c e) a = ground arith
Step-IsAcking (dispatched c e) a = ground arith
Step-IsAcking (refused c e) a = ground arith
Step-IsAcking (begin_true c b e) a = ground arith
Step-IsAcking (begin_false c b e) a = ground arith
Step-IsAcking (handler_returns f c e) a = ground arith
Step-IsAcking (settle_result f c s e) a = ground arith
Step-IsAcking (settle_result_late f c s e) a = ground arith
Step-IsAcking (abandon c s e) a = ground arith
Step-IsAcking (abandon_late c s e) a = ground arith
Step-IsAcking (untrack f c e) a = ground arith
Step-IsAcking (reply f c e) a = ground arith
Step-IsAcking (stop_takes s t e) a = ground arith
Step-IsAcking (stop_settles s t e) a = ground arith
Step-IsAcking (stop_late s t e) a = ground arith
Step-IsAcking (stop_untracks s e) a = ground arith
Step-IsAcking (stop_naks s e) a = ground arith

Passes-last : (P : Delivery → Type 0) {d e : Delivery} (s : Steps d e) → P e → Passes P s
Passes-last P here p = p
Passes-last P (next s t) p = inr p

IsAcking-Passes :
    {e : Delivery} (s : Steps arrived e) → IsAcking e → Passes (λ x. x.callback ≡ handled false) s
IsAcking-Passes here a = ground arith
IsAcking-Passes (next s t) a = elim (Step-IsAcking t a) [
  | inl b ↦ inl (IsAcking-Passes s b)
  | inr h ↦ inl (Passes-last (λ x. x.callback ≡ handled false) s h)
]

-- An ack is sent only after the handler returned without an error.
pub ack_needs_success :
    (e : Delivery) (s : Steps arrived e)
    → has_ack e.replies ≡ true
    → Passes (λ x. x.callback ≡ handled false) s
ack_needs_success e s h = IsAcking-Passes s (inr (inr h))

-- The handler has not begun, or never will.
abbrev pub NotBegun : Callback → Type 0
NotBegun handling = ⊥
NotBegun (handled b) = ⊥
NotBegun _ = Unit

Step-NotBegun :
    {d e : Delivery}
    → Step d e
    → (d.state ≡ settled) × NotBegun d.callback
    → (e.state ≡ settled) × NotBegun e.callback
unfolding begin settle
Step-NotBegun (track c e) v = ground arith
Step-NotBegun (dispatched c e) v = ground arith
Step-NotBegun (refused c e) v = ground arith
Step-NotBegun (begin_true c b e) v = ground arith
Step-NotBegun (begin_false c b e) v = ground arith
Step-NotBegun (handler_returns f c e) v = ground arith
Step-NotBegun (settle_result f c s e) v = ground arith
Step-NotBegun (settle_result_late f c s e) v = ground arith
Step-NotBegun (abandon c s e) v = ground arith
Step-NotBegun (abandon_late c s e) v = ground arith
Step-NotBegun (untrack f c e) v = ground arith
Step-NotBegun (reply f c e) v = ground arith
Step-NotBegun (stop_takes s t e) v = ground arith
Step-NotBegun (stop_settles s t e) v = ground arith
Step-NotBegun (stop_late s t e) v = ground arith
Step-NotBegun (stop_untracks s e) v = ground arith
Step-NotBegun (stop_naks s e) v = ground arith

-- A delivery that is settled before its handler has begun, as by Stop, never reaches its handler.
pub settled_never_begins :
    (d e : Delivery)
    → d.state ≡ settled
    → NotBegun d.callback
    → Steps d e
    → (e.state ≡ settled) × NotBegun e.callback
settled_never_begins d d' s n here = (s, n)
settled_never_begins d e s n (next {e = m} r t) = Step-NotBegun t (settled_never_begins d m s n r)
