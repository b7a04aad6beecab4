-- ===== src/Delivery/Pool/Reached.antt =====
-- Each delivery of a pool on its own.
use service_mesh_nats_go.Prelude.{
  ℕ, Bool, true, false, not, ◌||◌, ◌≡◌, refl, sym, ap, ◌∙◌, List, [], ◌∷◌, contains, eqb,
  if◌then◌else◌, arith,
}
use mathlib.Core.Path.{subst}
use service_mesh_nats_go.Delivery.{
  idle, taken, Delivery, arrived, Step, track, dispatched, refused, begin_true, begin_false,
  handler_returns, settle_result, settle_result_late, abandon, abandon_late, untrack, reply,
  stop_takes, stop_settles, stop_late, stop_untracks, stop_naks, Steps, here, next,
}
use service_mesh_nats_go.Delivery.Pool.{
  callback_thread, stop_thread, thread_of, is_at_work, is_gone, Stopping, before, abandoning,
  through, Pool, new_pool, put_at, IsDistinct, take_all, left_after, PoolStep, callback, copies,
  abandons, returns, PoolSteps, still, then_step,
}

-- A callback's step leaves Stop's place alone.
pub callback-stopper :
    {d e : Delivery} (s : Step d e) → thread_of s ≡ callback_thread → e.stopper ≡ d.stopper
callback-stopper (track c e) t = ap (λ x. x.stopper) e
callback-stopper (dispatched c e) t = ap (λ x. x.stopper) e
callback-stopper (refused c e) t = ap (λ x. x.stopper) e
callback-stopper (begin_true c b e) t = ap (λ x. x.stopper) e
callback-stopper (begin_false c b e) t = ap (λ x. x.stopper) e
callback-stopper (handler_returns f c e) t = ap (λ x. x.stopper) e
callback-stopper (settle_result f c s e) t = ap (λ x. x.stopper) e
callback-stopper (settle_result_late f c s e) t = ap (λ x. x.stopper) e
callback-stopper (abandon c s e) t = ap (λ x. x.stopper) e
callback-stopper (abandon_late c s e) t = ap (λ x. x.stopper) e
callback-stopper (untrack f c e) t = ap (λ x. x.stopper) e
callback-stopper (reply f c e) t = ap (λ x. x.stopper) e
callback-stopper (stop_takes s t e) h = cc
callback-stopper (stop_settles s t e) h = cc
callback-stopper (stop_late s t e) h = cc
callback-stopper (stop_untracks s e) h = cc
callback-stopper (stop_naks s e) h = cc

-- Stop's step leaves it at work or through, never where it was not.
pub stop-is_at_work :
    {d e : Delivery} (s : Step d e)
    → thread_of s ≡ stop_thread
    → is_at_work e.stopper ≡ not (is_gone e.stopper)
stop-is_at_work (stop_settles s t e) h =
    ap (λ x. is_at_work x.stopper) e ∙ sym (ap (λ x. not (is_gone x.stopper)) e)
stop-is_at_work (stop_late s t e) h =
    ap (λ x. is_at_work x.stopper) e ∙ sym (ap (λ x. not (is_gone x.stopper)) e)
stop-is_at_work (stop_untracks s e) h =
    ap (λ x. is_at_work x.stopper) e ∙ sym (ap (λ x. not (is_gone x.stopper)) e)
stop-is_at_work (stop_naks s e) h =
    ap (λ x. is_at_work x.stopper) e ∙ sym (ap (λ x. not (is_gone x.stopper)) e)
stop-is_at_work (stop_takes s t e) h = cc
stop-is_at_work (track c e) h = cc
stop-is_at_work (dispatched c e) h = cc
stop-is_at_work (refused c e) h = cc
stop-is_at_work (begin_true c b e) h = cc
stop-is_at_work (begin_false c b e) h = cc
stop-is_at_work (handler_returns f c e) h = cc
stop-is_at_work (settle_result f c s e) h = cc
stop-is_at_work (settle_result_late f c s e) h = cc
stop-is_at_work (abandon c s e) h = cc
stop-is_at_work (abandon_late c s e) h = cc
stop-is_at_work (untrack f c e) h = cc
stop-is_at_work (reply f c e) h = cc

-- Which deliveries Stop is at work on.
abbrev pub Phase : (ℕ → Delivery) → Stopping → Type 0
Phase at before = (i : ℕ) → (at i).stopper ≡ idle
Phase at (abandoning ds) = IsDistinct ds × ((i : ℕ) → contains ds i ≡ is_at_work (at i).stopper)
Phase at through = (i : ℕ) → is_at_work (at i).stopper ≡ false

pub record IsReached (p : Pool) : Type 0 where
  pub each : (i : ℕ) → Steps arrived (p.at i)
  pub phase : Phase p.at p.stop

pub put_at-each :
    (P : Delivery → Type 0) (at : ℕ → Delivery) (i : ℕ) (d : Delivery)
    → ((j : ℕ) → P (at j))
    → P d
    → (j : ℕ) → P (put_at at i d j)
put_at-each P at i d h k j = elim (eqb i j) as (λ b. P (if b then d else at j)) [
  | true ↦ k
  | false ↦ h j
]

pub eqb→≡ : (a b : ℕ) → eqb a b ≡ true → a ≡ b
eqb→≡ a b h = ground arith

pub put_at-same {ℓ} :
    {A : Type ℓ} (f : Delivery → A) (at : ℕ → Delivery) (i : ℕ) (d : Delivery)
    → f d ≡ f (at i)
    → (j : ℕ) → f (put_at at i d j) ≡ f (at j)
put_at-same f at i d e j = by_test (eqb i j) refl
  where
    by_test : (b : Bool) → eqb i j ≡ b → f (if b then d else at j) ≡ f (at j)
    by_test true h = e ∙ ap (λ k. f (at k)) (eqb→≡ i j h)
    by_test false h = refl

-- A step on one delivery that keeps Stop's place keeps the phase.
Phase-put_at :
    (at : ℕ → Delivery) (stop : Stopping) (i : ℕ) (d : Delivery)
    → d.stopper ≡ (at i).stopper
    → Phase at stop
    → Phase (put_at at i d) stop
Phase-put_at at before i d e h = λ j. put_at-same (λ x. x.stopper) at i d e j ∙ h j
Phase-put_at at (abandoning ds) i d e (n, h) =
    (n, λ j. h j ∙ sym (ap is_at_work (put_at-same (λ x. x.stopper) at i d e j)))
Phase-put_at at through i d e h = λ j. ap is_at_work (put_at-same (λ x. x.stopper) at i d e j) ∙ h j

-- The deliveries that Stop takes are those that it is at work on then.
take_all-is_at_work :
    (ds : List ℕ) (at : ℕ → Delivery)
    → ((i : ℕ) → (at i).stopper ≡ idle)
    → (i : ℕ) → contains ds i ≡ is_at_work (take_all ds at i).stopper
take_all-is_at_work ds at h i = by_test (contains ds i)
  where
    by_test :
        (b : Bool) → b ≡ is_at_work (if b then record (at i) { stopper = taken } else at i).stopper
    by_test true = refl
    by_test false = sym (ap is_at_work (h i))

-- Stop's step on the first of the deliveries that are left.
left_after-Phase :
    (at : ℕ → Delivery) (i : ℕ) (ds : List ℕ) (d : Delivery) (s : Step (at i) d)
    → thread_of s ≡ stop_thread
    → Phase at (abandoning (i ∷ ds))
    → Phase (put_at at i d) (left_after d i ds)
left_after-Phase at i ds d s t ((fresh, n), h) = by_gone (is_gone d.stopper) (stop-is_at_work s t)
  where
    at_j :
        (g : Bool)
        → is_at_work d.stopper ≡ not g
        → (j : ℕ)
        → (if g then contains ds j else contains (i ∷ ds) j) ≡ is_at_work (put_at at i d j).stopper
    at_j g w j = first_or_later (eqb i j) g refl w
      where
        first_or_later :
            (b g : Bool)
            → eqb i j ≡ b
            → is_at_work d.stopper ≡ not g
            → (if g then contains ds j else (b || contains ds j))
              ≡ is_at_work (if b then d else at j).stopper
        first_or_later true true e w = ap (contains ds) (sym (eqb→≡ i j e)) ∙ fresh ∙ sym w
        first_or_later true false e w = sym w
        first_or_later false true e w = ap (λ b. b || contains ds j) (sym e) ∙ h j
        first_or_later false false e w = ap (λ b. b || contains ds j) (sym e) ∙ h j

    by_gone :
        (g : Bool)
        → is_at_work d.stopper ≡ not g
        → Phase (put_at at i d) (if g then abandoning ds else abandoning (i ∷ ds))
    by_gone true w = (n, at_j true w)
    by_gone false w = ((fresh, n), at_j false w)

PoolStep-IsReached : {p q : Pool} → PoolStep p q → IsReached p → IsReached q
PoolStep-IsReached {p} (callback i d s t e) r = subst IsReached (sym e) (record {
  each = put_at-each (Steps arrived) p.at i d r.each (next (r.each i) s);
  phase = Phase-put_at p.at p.stop i d (callback-stopper s t) r.phase;
})
PoolStep-IsReached {p} (copies ds b n k e) r =
    let idles : (i : ℕ) → (p.at i).stopper ≡ idle = subst (Phase p.at) b r.phase in
    subst IsReached (sym e) (record {
      each = λ i. taken_if (contains ds i) (p.at i) (r.each i) (idles i) (k i);
      phase = (n, take_all-is_at_work ds p.at idles);
    })
  where
    taken_if :
        (b : Bool) (d : Delivery)
        → Steps arrived d
        → d.stopper ≡ idle
        → b ≡ d.tracked
        → Steps arrived (if b then record d { stopper = taken } else d)
    taken_if true d s h k = next s (stop_takes h (sym k) refl)
    taken_if false d s h k = s
PoolStep-IsReached {p} (abandons i ds d s b t e) r = subst IsReached (sym e) (record {
  each = put_at-each (Steps arrived) p.at i d r.each (next (r.each i) s);
  phase = left_after-Phase p.at i ds d s t (subst (Phase p.at) b r.phase);
})
PoolStep-IsReached {p} (returns b e) r =
    let (n, h) : Phase p.at (abandoning []) = subst (Phase p.at) b r.phase in
    subst IsReached (sym e) (record { each = r.each; phase = λ i. sym (h i) })

new_pool-IsReached : IsReached new_pool
new_pool-IsReached = record { each = λ i. here; phase = λ i. refl }

pub PoolSteps-IsReached : {p q : Pool} → PoolSteps p q → IsReached p → IsReached q
PoolSteps-IsReached still r = r
PoolSteps-IsReached (then_step s t) r = PoolStep-IsReached t (PoolSteps-IsReached s r)

-- Each delivery of a pool takes the steps of one delivery, whatever happens to the others.
pub pool-IsReached : (p : Pool) → PoolSteps new_pool p → IsReached p
pool-IsReached p s = PoolSteps-IsReached s new_pool-IsReached
