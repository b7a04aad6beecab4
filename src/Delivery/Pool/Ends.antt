-- ===== src/Delivery/Pool/Ends.antt =====
-- How many steps abandonPending of nats/runtime_jetstream.go takes.
use service_mesh_nats_go.Prelude.{
  ℕ, suc, ◌+◌, ◌*◌, ◌≤◌, ◌<◌, Bool, true, false, ◌≡◌, ◌⊎◌, inl, inr, refl, sym, ap, ◌∙◌, List, [],
  ◌∷◌, contains, arith, Bool-cases, length,
}
use mathlib.Core.Path.{subst}
use service_mesh_nats_go.Delivery.{
  settle, Stopper, idle, taken, owns, nacking, gone, Delivery, Step, track, dispatched, refused,
  begin_true, begin_false, handler_returns, settle_result, settle_result_late, abandon,
  abandon_late, untrack, reply, stop_takes, stop_settles, stop_late, stop_untracks, stop_naks,
}
use service_mesh_nats_go.Delivery.Pool.{
  stop_thread, thread_of, is_at_work, Stopping, before, abandoning, through, Pool, new_pool, put_at,
  left_after, PoolStep, callback, copies, abandons, returns, PoolSteps, still, then_step,
}
use service_mesh_nats_go.Delivery.Pool.Reached.{
  IsReached, Phase, put_at-same, callback-stopper, PoolSteps-IsReached, pool-IsReached,
}

-- The steps of abandon that are left of one delivery: settle, untrack, nak.
abbrev pub stops_left : Stopper → ℕ
stops_left taken = 3
stops_left owns = 2
stops_left nacking = 1
stops_left _ = 0

abbrev all_left : (ℕ → Delivery) → List ℕ → ℕ
all_left at [] = 0
all_left at (i ∷ ds) = stops_left (at i).stopper + all_left at ds

-- With the return itself.
abbrev until_through : (ℕ → Delivery) → Stopping → ℕ
until_through at before = 0
until_through at (abandoning ds) = suc (all_left at ds)
until_through at through = 0

-- Stop's steps of a path, its return included.
abbrev pub stop_steps_of : {p q : Pool} → PoolStep p q → ℕ
stop_steps_of (abandons i ds d s b t e) = 1
stop_steps_of (returns b e) = 1
stop_steps_of _ = 0

abbrev pub stop_steps : {p q : Pool} → PoolSteps p q → ℕ
stop_steps still = 0
stop_steps (then_step s t) = stop_steps_of t + stop_steps s

stop-stops_left :
    {d e : Delivery} (s : Step d e)
    → thread_of s ≡ stop_thread
    → stops_left e.stopper < stops_left d.stopper
stop-stops_left (stop_settles s t e) h = ground arith
stop-stops_left (stop_late s t e) h = ground arith
stop-stops_left (stop_untracks s e) h = ground arith
stop-stops_left (stop_naks s e) h = ground arith
stop-stops_left (stop_takes s t e) h = cc
stop-stops_left (track c e) h = cc
stop-stops_left (dispatched c e) h = cc
stop-stops_left (refused c e) h = cc
stop-stops_left (begin_true c b e) h = cc
stop-stops_left (begin_false c b e) h = cc
stop-stops_left (handler_returns f c e) h = cc
stop-stops_left (settle_result f c s e) h = cc
stop-stops_left (settle_result_late f c s e) h = cc
stop-stops_left (abandon c s e) h = cc
stop-stops_left (abandon_late c s e) h = cc
stop-stops_left (untrack f c e) h = cc
stop-stops_left (reply f c e) h = cc

stops_left-le : (k : Stopper) → stops_left k ≤ 3
stops_left-le k = ground arith

all_left-le : (at : ℕ → Delivery) (ds : List ℕ) → all_left at ds ≤ 3 * length ds
all_left-le at [] = omega arith
all_left-le at (i ∷ ds) = omega (arith, stops_left-le (at i).stopper, all_left-le at ds)

all_left-same :
    (at at' : ℕ → Delivery) (ds : List ℕ)
    → ((j : ℕ) → (at' j).stopper ≡ (at j).stopper)
    → all_left at' ds ≡ all_left at ds
all_left-same at at' [] h = refl
all_left-same at at' (i ∷ ds) h = omega (arith, ap stops_left (h i), all_left-same at at' ds h)

all_left-put_at :
    (at : ℕ → Delivery) (i : ℕ) (d : Delivery) (ds : List ℕ)
    → contains ds i ≡ false
    → all_left (put_at at i d) ds ≡ all_left at ds
all_left-put_at at i d [] h = refl
all_left-put_at at i d (j ∷ ds) h = ground (arith, all_left-put_at at i d ds)

until_through-same :
    (at at' : ℕ → Delivery) (stop : Stopping)
    → ((j : ℕ) → (at' j).stopper ≡ (at j).stopper)
    → until_through at' stop ≡ until_through at stop
until_through-same at at' before h = refl
until_through-same at at' (abandoning ds) h = omega (arith, all_left-same at at' ds h)
until_through-same at at' through h = refl

-- abandonPending has been called.
abbrev is_called : Stopping → Bool
is_called before = false
is_called _ = true

left_after-until_through :
    (at : ℕ → Delivery) (i : ℕ) (d : Delivery) (ds : List ℕ)
    → contains ds i ≡ false
    → stops_left d.stopper < stops_left (at i).stopper
    → (suc (until_through (put_at at i d) (left_after d i ds))
        ≤ until_through at (abandoning (i ∷ ds)))
      × (is_called (left_after d i ds) ≡ true)
left_after-until_through at i d ds f h = ground (arith, all_left-put_at at i d ds f)

-- A step after abandonPending has been called takes one of the steps that are left, if it is
-- Stop's.
PoolStep-until_through :
    {p q : Pool} (t : PoolStep p q)
    → Phase p.at p.stop
    → is_called p.stop ≡ true
    → (stop_steps_of t + until_through q.at q.stop ≤ until_through p.at p.stop)
      × (is_called q.stop ≡ true)
PoolStep-until_through {p} (callback i d s t e) v c =
    let same : until_through (put_at p.at i d) p.stop ≡ until_through p.at p.stop =
      until_through-same p.at (put_at p.at i d) p.stop
        (put_at-same (λ x. x.stopper) p.at i d (callback-stopper s t)) in
    let left = ap (λ x. until_through x.at x.stop) e in
    (omega (arith, left, same), ap (λ x. is_called x.stop) e ∙ c)
PoolStep-until_through (copies ds b n k e) v c = cc
PoolStep-until_through {p} (abandons i ds d s b t e) v c =
    let ((fresh, _), _) : Phase p.at (abandoning (i ∷ ds)) = subst (Phase p.at) b v in
    let (less, called) = left_after-until_through p.at i d ds fresh (stop-stops_left s t) in
    let left = ap (λ x. until_through x.at x.stop) e in
    (omega (arith, left, ap (until_through p.at) b, less), ap (λ x. is_called x.stop) e ∙ called)
PoolStep-until_through {p} (returns b e) v c =
    let left = ap (λ x. until_through x.at x.stop) e in
    (omega (arith, left, ap (until_through p.at) b), ap (λ x. is_called x.stop) e)

PoolSteps-until_through :
    {p q : Pool} (s : PoolSteps p q)
    → IsReached p
    → is_called p.stop ≡ true
    → (stop_steps s + until_through q.at q.stop ≤ until_through p.at p.stop)
      × (is_called q.stop ≡ true)
PoolSteps-until_through still r c = (omega arith, c)
PoolSteps-until_through (then_step s t) r c =
    let (less, called) = PoolSteps-until_through s r c in
    let (once, still_called) = PoolStep-until_through t (PoolSteps-IsReached s r).phase called in
    (omega (arith, less, once), still_called)

-- The next step of abandon.
stop_step :
    (d : Delivery) (k : Stopper)
    → d.stopper ≡ k
    → is_at_work k ≡ true
    → (e : Delivery) × (s : Step d e) × (thread_of s ≡ stop_thread)
stop_step d taken h w = elim (Bool-cases (settle d.state).2) [
  | inl b ↦ (_, stop_settles h b refl, refl)
  | inr b ↦ (_, stop_late h b refl, refl)
]
stop_step d owns h w = (_, stop_untracks h refl, refl)
stop_step d nacking h w = (_, stop_naks h refl, refl)
stop_step d idle h w = cc
stop_step d gone h w = cc

next_of_stop :
    (q : Pool) (k : Stopping)
    → q.stop ≡ k
    → Phase q.at k
    → is_called k ≡ true
    → (k ≡ through) ⊎ ((r : Pool) × (t : PoolStep q r) × (stop_steps_of t ≡ 1))
next_of_stop q before h v c = cc
next_of_stop q (abandoning []) h v c = inr (_, returns h refl, refl)
next_of_stop q (abandoning (i ∷ ds)) h (n, w) c =
    let (d, s, t) = stop_step (q.at i) (q.at i).stopper refl (sym (w i) ∙ ground arith) in
    inr (_, abandons i ds d s h t refl, refl)
next_of_stop q through h v c = inl refl

-- abandonPending is never blocked and returns after at most three steps for each delivery that it
-- copied and one more, however many steps the callbacks take in between: on every path after the
-- copy, Stop has taken no more steps than that, and it is through or can take its next one.
pub abandon_pending-ends :
    (u q : Pool) (ds : List ℕ)
    → PoolSteps new_pool u
    → u.stop ≡ abandoning ds
    → (s : PoolSteps u q)
    → (stop_steps s ≤ 3 * length ds + 1)
      × ((q.stop ≡ through) ⊎ ((r : Pool) × (t : PoolStep q r) × (stop_steps_of t ≡ 1)))
abandon_pending-ends u q ds v b s =
    let r = pool-IsReached u v in
    let (less, called) = PoolSteps-until_through s r (ap is_called b) in
    (
      omega (arith, less, ap (until_through u.at) b, all_left-le u.at ds),
      next_of_stop q q.stop refl (PoolSteps-IsReached s r).phase called,
    )
