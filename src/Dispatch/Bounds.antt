-- ===== src/Dispatch/Bounds.antt =====
-- At most `slots` handlers run at once: the semaphore and the wait group count their threads.
use service_mesh_nats_go.Prelude.{ℕ, ◌+◌, ◌≤◌, ◌≡◌, ap, ◌∙◌, List, [], ◌∷◌, arith}
use service_mesh_nats_go.Dispatch.{
  Pc, running, Thread, Gate, at, holds, counted, total, Move, pass_first, fail_first, take_slot,
  context_done, pass_second, fail_second, unlock, free_unused, register, free, done, Step, call,
  move, set_accepting, cancel_handlers, Steps, here, next, new_gate,
}

pub total-at :
    (f : Pc → ℕ) (before : List Thread) (start : ℕ) (p : Pc) (after : List Thread)
    → total f (at before start p after) ≡ total f before + f p + total f after
total-at f [] start p after = omega arith
total-at f (t ∷ ts) start p after = omega (arith, total-at f ts start p after)

pub record Inv (slots : ℕ) (g : Gate) : Type 0 where
  pub size : g.slots ≡ slots
  pub bounded : g.taken ≤ slots
  pub held : g.taken ≡ total holds g.threads
  pub waited : g.wg ≡ total counted g.threads

-- What a move changes is what its thread holds.
Move-counts :
    {g k : Gate} {start : ℕ} {p q : Pc}
    → Move g start p k q
    → holds p ≤ g.taken
    → counted p ≤ g.wg
    → g.taken ≤ g.slots
    → (k.taken + holds p ≡ g.taken + holds q)
      × (k.wg + counted p ≡ g.wg + counted q)
      × (k.slots ≡ g.slots)
      × (k.taken ≤ k.slots)
Move-counts (pass_first a c) t w b = ground arith
Move-counts (fail_first a) t w b = ground arith
Move-counts (take_slot l) t w b = ground arith
Move-counts (context_done c) t w b = ground arith
Move-counts (pass_second a c) t w b = ground arith
Move-counts (fail_second a) t w b = ground arith
Move-counts unlock t w b = ground arith
Move-counts free_unused t w b = ground arith
Move-counts register t w b = ground arith
Move-counts free t w b = ground arith
Move-counts done t w b = ground arith

pub Step-Inv : {slots : ℕ} {g h : Gate} → Step g h → Inv slots g → Inv slots h
Step-Inv {g} (call start e) v = ground arith
Step-Inv {g} (move before after start p q k e m f) v =
    let th = ap (total holds) e ∙ total-at holds before start p after in
    let tc = ap (total counted) e ∙ total-at counted before start p after in
    let (hk, wk, sk, bk) =
      Move-counts m (omega (arith, v, th)) (omega (arith, v, tc)) (omega (arith, v)) in
    ground (arith, total-at holds before start q after, total-at counted before start q after)
Step-Inv {g} (set_accepting on w) v = let e = w.sets in ground arith
Step-Inv {g} (cancel_handlers start e) v = ground arith

-- From a new runtime on, whatever the steps.
pub Steps-Inv : {slots : ℕ} {g h : Gate} → Inv slots g → Steps g h → Inv slots h
Steps-Inv v here = v
Steps-Inv v (next s t) = Step-Inv t (Steps-Inv v s)

pub new_gate-Inv : (slots : ℕ) → Inv slots (new_gate slots)
new_gate-Inv slots = omega arith

-- Does a thread run a handler?
abbrev pub runs : Pc → ℕ
runs running = 1
runs _ = 0

runs-le-holds : (ts : List Thread) → total runs ts ≤ total holds ts
runs-le-holds [] = omega arith
runs-le-holds (t ∷ ts) = omega (arith, runs-le-holds ts, one t.pc)
  where
    one : (p : Pc) → runs p ≤ holds p
    one running = omega arith
    one _ = omega arith

-- At most as many handlers as the semaphore has slots run at once, however the calls, the handlers
-- and the lifecycle methods interleave, and the semaphore never holds more values than it has
-- slots.
pub running-le-slots :
    (slots : ℕ) (h : Gate)
    → Steps (new_gate slots) h
    → (total runs h.threads ≤ slots) × (h.taken ≤ slots)
running-le-slots slots h s =
    omega (arith, Steps-Inv (new_gate-Inv slots) s, runs-le-holds h.threads)
