-- ===== src/Runtime/Stopping/Ends.antt =====
-- How long Stop takes.
use service_mesh_nats_go.Prelude.{
  ◌||◌, ◌&&◌, eqb, ℕ, ◌+◌, ◌≤◌, ◌<◌, ◌≡◌, refl, ap, ◌∙◌, map, Option, none, some, Bool, true, false,
  ltb, if◌then◌else◌, arith,
}
use service_mesh_nats_go.Runtime.Waits.{max_of, wait_consumers_closed-latest}
use service_mesh_nats_go.Runtime.Stopping.{
  Drain, min_of, wait_for, drained, StopContext, earlier, flush_ends, flush_on_stop_ends, since,
  Stopped, on_time, given_up, select_done, stop_ends,
}

-- A wait for an answer or for a time.
IsBy : ℕ → Option ℕ → Type 0
IsBy c o = (t : ℕ) × (o ≡ some t) × (t ≤ c)

limit-IsBy :
    (ctx : StopContext) (c n : ℕ)
    → ctx.done ≡ some c
    → IsBy c (if ctx.has_deadline then ctx.done else earlier ctx.done (some n))
unfolding IsBy
limit-IsBy ctx c n e = rw e (by_deadline ctx.has_deadline)
  where
    by_deadline : (has : Bool) → IsBy c (if has then some c else some (min_of c n))
    by_deadline true = (c, refl, omega arith)
    by_deadline false = (min_of c n, refl, ground arith)

wait_for-IsBy :
    (c now : ℕ) (answer limit : Option ℕ)
    → now ≤ c
    → IsBy c limit
    → IsBy c (wait_for now (earlier answer limit))
unfolding IsBy
wait_for-IsBy c now none limit l (m, e, b) = rw e (max_of now m, refl, ground arith)
wait_for-IsBy c now (some a) limit l (m, e, b) = rw e (max_of now (min_of a m), refl, ground arith)

-- flushOnStop returns when its context is done, at the latest.
flush_on_stop_ends-IsBy :
    (budget : ℕ) (ctx : StopContext) (now : ℕ) (closed : Bool) (answer : Option ℕ) (c : ℕ)
    → ctx.done ≡ some c
    → now ≤ c
    → IsBy c (flush_on_stop_ends budget ctx now closed answer)
unfolding flush_on_stop_ends flush_ends IsBy
flush_on_stop_ends-IsBy budget ctx now true answer c e l = (now, refl, omega arith)
flush_on_stop_ends-IsBy budget ctx now false answer c e l =
    wait_for-IsBy c now answer _ l (limit-IsBy ctx c (now + budget) e)

-- What Stop comes to, with a context that is done at a time.
pub record IsStoppedBy (budget : ℕ) (drain : Option ℕ) (c : ℕ) (s : Stopped) : Type 0 where
  pub bounded : s.returns ≤ c + budget
  pub in_time : (t : ℕ) → drain ≡ some t → t < c → (s.late ≡ false) × (s.returns ≤ c)
  pub too_late : (t : ℕ) → drain ≡ some t → c < t → (s.late ≡ true) × (c ≤ s.returns)
  pub never : drain ≡ none → (s.late ≡ true) × (c ≤ s.returns)

module _ (choice : Bool) (budget : ℕ) (d : Drain) (ctx : StopContext) (closed : Bool)
    (answer : Option ℕ) (c : ℕ) where
  given_up-IsStoppedBy :
      (drain : Option ℕ)
      → 0 < budget
      → ((t : ℕ) → drain ≡ some t → c ≤ t)
      → IsStoppedBy budget drain c (given_up budget d c)
  given_up-IsStoppedBy drain b h = record {
    bounded = omega (arith, (wait_consumers_closed-latest budget (map (since c) d.consumers) b).1);
    in_time = λ t e l. absurd (omega (arith, h t e, l));
    too_late = λ t e l. (refl, omega arith);
    never = λ e. (refl, omega arith);
  }

  on_time-IsStoppedBy :
      (t : ℕ)
      → ctx.done ≡ some c
      → t ≤ c
      → (s : Stopped) × (on_time (flush_on_stop_ends budget ctx t closed answer) ≡ some s)
        × IsStoppedBy budget (some t) c s
  unfolding IsBy
  on_time-IsStoppedBy t e l =
      let (u, eu, b) = flush_on_stop_ends-IsBy budget ctx t closed answer c e l in
      (
        record { late = false; returns = u },
        ap on_time eu,
        record {
          bounded = omega arith;
          in_time = λ v x y. (refl, b);
          too_late = λ v x y. ground arith;
          never = λ x. cc;
        },
      )

  select_done-IsStoppedBy :
      (t : ℕ) (b : Bool)
      → (ltb t c || (eqb t c && choice)) ≡ b
      → 0 < budget
      → ctx.done ≡ some c
      → (s : Stopped) × ((if b
            then on_time (flush_on_stop_ends budget ctx t closed answer)
            else some (given_up budget d c))
          ≡ some s)
        × IsStoppedBy budget (some t) c s
  select_done-IsStoppedBy t true l b e = on_time-IsStoppedBy t e (ground arith)
  select_done-IsStoppedBy t false l b e =
      (given_up budget d c, refl, given_up-IsStoppedBy (some t) b (λ u h. ground arith))

  -- How Stop ends, with a context that is done at some time. Whatever the subscriptions, the
  -- consumers, the handlers and the server do, and whichever channel Stop's select takes when both
  -- are ready, Stop returns, no later than the flush budget after that time. When the drain ends
  -- before that time Stop returns no error, and no later than the context is done; when the drain
  -- ends after it, or never, Stop returns its context's error, and not before the context is done.
  pub stop_ends-IsStoppedBy :
      0 < budget
      → ctx.done ≡ some c
      → (s : Stopped) × (stop_ends choice budget d ctx closed answer ≡ some s)
        × IsStoppedBy budget (drained d) c s
  unfolding stop_ends
  stop_ends-IsStoppedBy b e =
      let (s, es, i) = by_drain (drained d) in
      (s, ap (select_done choice budget d ctx closed answer (drained d)) e ∙ es, i)
    where
      by_drain :
          (drain : Option ℕ)
          → (s : Stopped) × (select_done choice budget d ctx closed answer drain (some c) ≡ some s)
            × IsStoppedBy budget drain c s
      by_drain none = (given_up budget d c, refl, given_up-IsStoppedBy none b (λ t h. cc))
      by_drain (some t) = select_done-IsStoppedBy t (ltb t c || (eqb t c && choice)) refl b e
