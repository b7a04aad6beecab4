-- ===== src/Delivery/Pool/Settled.antt =====
-- What abandonPending of nats/runtime_jetstream.go has done when it returns, and how long it takes.
use service_mesh_nats_go.Prelude.{
  ℕ, ◌≤◌, Bool, true, false, ◌≡◌, ◌⊎◌, inl, inr, refl, sym, ap, ◌∙◌, List, [], ◌∷◌, contains, eqb,
  if◌then◌else◌, length,
}
use mathlib.Core.Path.{subst}
use service_mesh_nats_go.Delivery.{
  settled, Reply, closed, Stopper, idle, taken, owns, nacking, gone, Delivery, Step, track,
  dispatched, refused, begin_true, begin_false, handler_returns, settle_result, settle_result_late,
  abandon, abandon_late, untrack, reply, stop_takes, stop_settles, stop_late, stop_untracks,
  stop_naks,
}
use service_mesh_nats_go.Delivery.Race.{Steps-Inv, arrived-Inv, answered_once}
use service_mesh_nats_go.Delivery.Pool.{
  is_at_work, before, abandoning, through, Pool, new_pool, put_at, take_all, PoolStep, callback,
  copies, abandons, returns, PoolSteps, still, then_step,
}
use service_mesh_nats_go.Delivery.Pool.Reached.{
  IsReached, Phase, eqb→≡, PoolSteps-IsReached, pool-IsReached,
}

-- Stop has taken it.
abbrev is_taken : Stopper → Bool
is_taken idle = false
is_taken _ = true

Step-is_taken : {d e : Delivery} → Step d e → is_taken d.stopper ≡ true → is_taken e.stopper ≡ true
Step-is_taken (track c e) h = ap (λ x. is_taken x.stopper) e ∙ h
Step-is_taken (dispatched c e) h = ap (λ x. is_taken x.stopper) e ∙ h
Step-is_taken (refused c e) h = ap (λ x. is_taken x.stopper) e ∙ h
Step-is_taken (begin_true c b e) h = ap (λ x. is_taken x.stopper) e ∙ h
Step-is_taken (begin_false c b e) h = ap (λ x. is_taken x.stopper) e ∙ h
Step-is_taken (handler_returns f c e) h = ap (λ x. is_taken x.stopper) e ∙ h
Step-is_taken (settle_result f c s e) h = ap (λ x. is_taken x.stopper) e ∙ h
Step-is_taken (settle_result_late f c s e) h = ap (λ x. is_taken x.stopper) e ∙ h
Step-is_taken (abandon c s e) h = ap (λ x. is_taken x.stopper) e ∙ h
Step-is_taken (abandon_late c s e) h = ap (λ x. is_taken x.stopper) e ∙ h
Step-is_taken (untrack f c e) h = ap (λ x. is_taken x.stopper) e ∙ h
Step-is_taken (reply f c e) h = ap (λ x. is_taken x.stopper) e ∙ h
Step-is_taken (stop_takes s t e) h = ap (λ x. is_taken x.stopper) e
Step-is_taken (stop_settles s t e) h = ap (λ x. is_taken x.stopper) e
Step-is_taken (stop_late s t e) h = ap (λ x. is_taken x.stopper) e
Step-is_taken (stop_untracks s e) h = ap (λ x. is_taken x.stopper) e
Step-is_taken (stop_naks s e) h = ap (λ x. is_taken x.stopper) e

put_at-keeps :
    (at : ℕ → Delivery) (i : ℕ) (d : Delivery)
    → (is_taken (at i).stopper ≡ true → is_taken d.stopper ≡ true)
    → (j : ℕ) → is_taken (at j).stopper ≡ true
    → is_taken (put_at at i d j).stopper ≡ true
put_at-keeps at i d k j = by_test (eqb i j) refl
  where
    by_test :
        (b : Bool)
        → eqb i j ≡ b
        → is_taken (at j).stopper ≡ true
        → is_taken (if b then d else at j).stopper ≡ true
    by_test true e h = k (ap (λ n. is_taken (at n).stopper) (eqb→≡ i j e) ∙ h)
    by_test false e h = h

take_all-keeps :
    (ds : List ℕ) (at : ℕ → Delivery) (j : ℕ)
    → is_taken (at j).stopper ≡ true
    → is_taken (take_all ds at j).stopper ≡ true
take_all-keeps ds at j h = by_test (contains ds j)
  where
    by_test :
        (b : Bool) → is_taken (if b then record (at j) { stopper = taken } else at j).stopper ≡ true
    by_test true = refl
    by_test false = h

PoolSteps-keeps :
    {p q : Pool} (j : ℕ)
    → PoolSteps p q
    → is_taken (p.at j).stopper ≡ true
    → is_taken (q.at j).stopper ≡ true
PoolSteps-keeps j still h = h
PoolSteps-keeps j (then_step {q = m} s t) h = last t (PoolSteps-keeps j s h)
  where
    last :
        {p q : Pool}
        → PoolStep p q
        → is_taken (p.at j).stopper ≡ true
        → is_taken (q.at j).stopper ≡ true
    last {p} (callback i d s t e) h =
        ap (λ x. is_taken (x.at j).stopper) e ∙ put_at-keeps p.at i d (Step-is_taken s) j h
    last {p} (copies ds b n k e) h =
        ap (λ x. is_taken (x.at j).stopper) e ∙ take_all-keeps ds p.at j h
    last {p} (abandons i ds d s b t e) h =
        ap (λ x. is_taken (x.at j).stopper) e ∙ put_at-keeps p.at i d (Step-is_taken s) j h
    last {p} (returns b e) h = ap (λ x. is_taken (x.at j).stopper) e ∙ h

-- What Stop has taken and is no longer at work on, it is through with.
through-gone : (k : Stopper) → is_taken k ≡ true → is_at_work k ≡ false → k ≡ gone
through-gone idle t w = cc
through-gone taken t w = cc
through-gone owns t w = cc
through-gone nacking t w = cc
through-gone gone t w = refl

is_at_work-taken : (k : Stopper) → is_at_work k ≡ true → is_taken k ≡ true
is_at_work-taken idle w = cc
is_at_work-taken taken w = refl
is_at_work-taken owns w = refl
is_at_work-taken nacking w = refl
is_at_work-taken gone w = cc

-- Stop is at work on each delivery that is left.
at_work_on :
    (u : Pool) (ds : List ℕ)
    → PoolSteps new_pool u
    → u.stop ≡ abandoning ds
    → (i : ℕ) → contains ds i ≡ is_at_work (u.at i).stopper
at_work_on u ds s h i = (subst (Phase u.at) h (pool-IsReached u s).phase).1 i

-- The copy of the keys holds what is pending.
copied :
    (p u : Pool) (ds : List ℕ)
    → PoolStep p u
    → p.stop ≡ before
    → u.stop ≡ abandoning ds
    → (i : ℕ) → contains ds i ≡ (p.at i).tracked
copied p u ds (callback i d s t e) b h = cc (ap (λ x. x.stop) e)
copied p u ds (copies es c n k e) b h =
    λ i. ap (λ x. contains x i) (same es (sym h ∙ ap (λ x. x.stop) e)) ∙ k i
  where
    same : (es : List ℕ) → abandoning ds ≡ abandoning es → ds ≡ es
    same es p = cc
copied p u ds (abandons i es d s c t e) b h = cc
copied p u ds (returns c e) b h = cc

-- When Stop has gone through the deliveries that it copied, each of those that were pending is
-- settled, whatever their callbacks have done meanwhile. No delivery has been answered more than
-- once; those whose callbacks are over are no longer pending, and have been answered exactly once.
pub abandon_pending-settles :
    (p u q : Pool) (ds : List ℕ)
    → PoolSteps new_pool p
    → p.stop ≡ before
    → PoolStep p u
    → u.stop ≡ abandoning ds
    → PoolSteps u q
    → q.stop ≡ through
    → (i : ℕ)
    → ((p.at i).tracked ≡ true → (q.at i).state ≡ settled)
      × (length (q.at i).replies ≤ 1)
      × ((q.at i).callback ≡ closed
          → ((q.at i).state ≡ settled)
            × ((q.at i).tracked ≡ false)
            × ((r : Reply) × ((q.at i).replies ≡ r ∷ [])))
abandon_pending-settles p u q ds s b c h t e i =
    let su : PoolSteps new_pool u = then_step s c in
    let r : IsReached q = PoolSteps-IsReached t (pool-IsReached u su) in
    let idle_or_gone : is_at_work (q.at i).stopper ≡ false = (subst (Phase q.at) e r.phase) i in
    let (few, finished) = answered_once (q.at i) (r.each i) in
    (
      λ k. (Steps-Inv arrived-Inv (r.each i)).stopped (
          through-gone (q.at i).stopper
            (PoolSteps-keeps i t (
              is_at_work-taken (u.at i).stopper
                (sym (at_work_on u ds su h i) ∙ copied p u ds c b h i ∙ k)))
            idle_or_gone),
      few,
      λ k. finished (k, rest_of (q.at i).stopper idle_or_gone),
    )
  where
    rest_of : (k : Stopper) → is_at_work k ≡ false → (k ≡ idle) ⊎ (k ≡ gone)
    rest_of idle h = inl refl
    rest_of gone h = inr refl
    rest_of taken h = cc
    rest_of owns h = cc
    rest_of nacking h = cc
