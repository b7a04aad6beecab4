-- ===== src/Dispatch/Stale.antt =====
-- nats/runtime_dispatch.go: the threads of a Start whose context abortStart of
-- nats/runtime_receivers.go has cancelled.
use service_mesh_nats_go.Prelude.{
  ℕ, ◌+◌, ◌≤◌, ◌≡◌, refl, sym, ap, ◌∙◌, Bool, true, false, List, [], ◌∷◌, arith, eqb, if◌then◌else◌,
}
use service_mesh_nats_go.Dispatch.{
  Pc, entered, Thread, Gate, at, reads, total, Move, pass_first, fail_first, take_slot,
  context_done, pass_second, fail_second, unlock, free_unused, register, free, done, Step, call,
  move, SetsAccepting, set_accepting, cancel_handlers, Steps, here, next,
}
use service_mesh_nats_go.Dispatch.Bounds.{runs}
use service_mesh_nats_go.Dispatch.Drain.{enters}

-- The count over the threads of one Start.
abbrev pub total_of : ℕ → (Pc → ℕ) → List Thread → ℕ
total_of n f [] = 0
total_of n f (t ∷ ts) = (if eqb n t.start then f t.pc else 0) + total_of n f ts

total_of-at :
    (n : ℕ) (f : Pc → ℕ) (before : List Thread) (start : ℕ) (p : Pc) (after : List Thread)
    → total_of n f (at before start p after)
      ≡ total_of n f before + (if eqb n start then f p else 0) + total_of n f after
total_of-at n f [] start p after = omega arith
total_of-at n f (t ∷ ts) start p after = omega (arith, total_of-at n f ts start p after)

total_of-le-reads : (n : ℕ) (ts : List Thread) → total_of n enters ts ≤ total reads ts
total_of-le-reads n [] = omega arith
total_of-le-reads n (t ∷ ts) = ground (arith, total_of-le-reads n ts, one t.pc)
  where
    one : (p : Pc) → enters p ≤ reads p
    one entered = omega arith
    one _ = omega arith

-- The context of a Start is cancelled, and none of its threads is about to register.
record IsStale (n : ℕ) (g : Gate) : Type 0 where
  pub cancelled : g.cancelled n ≡ true
  pub nobody : total_of n enters g.threads ≡ 0

-- abortStart: cancelHandlers, any steps of others, and setAccepting(false), which waits for
-- readers.
SetsAccepting-IsStale :
    (n : ℕ) (g h : Gate) → g.cancelled n ≡ true → SetsAccepting false g h → IsStale n h
SetsAccepting-IsStale n g h c w =
    let r = w.unread in let e = w.sets in ground (arith, total_of-le-reads n g.threads)

-- A thread of the Start that moves does not come to run.
Move-stale :
    {g k : Gate} {start : ℕ} {p q : Pc}
    → Move g start p k q
    → (n : ℕ) → g.cancelled n ≡ true
    → (k.cancelled n ≡ true)
      × (eqb n start ≡ true → (enters q ≤ enters p) × (enters p ≡ 0 → runs q ≤ runs p))
Move-stale (pass_first a c) n s = ground arith
Move-stale (fail_first a) n s = ground arith
Move-stale (take_slot l) n s = ground arith
Move-stale (context_done c) n s = ground arith
Move-stale {g} {start = m} (pass_second a c) n s = ground (arith, ap g.cancelled)
Move-stale (fail_second a) n s = ground arith
Move-stale unlock n s = ground arith
Move-stale free_unused n s = ground arith
Move-stale register n s = ground arith
Move-stale free n s = ground arith
Move-stale done n s = ground arith

-- The counts around a thread, of this Start or of another.
counts_around :
    (b : Bool) (eb ea ep eq rb ra rp rq : ℕ)
    → (b ≡ true → (eq ≤ ep) × (ep ≡ 0 → rq ≤ rp))
    → eb + (if b then ep else 0) + ea ≡ 0
    → (eb + (if b then eq else 0) + ea ≡ 0)
      × (rb + (if b then rq else 0) + ra ≤ rb + (if b then rp else 0) + ra)
counts_around false eb ea ep eq rb ra rp rq f h = omega arith
counts_around true eb ea ep eq rb ra rp rq f h =
    let (le, falls) = f refl in let less = falls (omega arith) in omega arith

Move-IsStale :
    {g k : Gate} (n : ℕ) (before after : List Thread) (start : ℕ) (p q : Pc)
    → g.threads ≡ at before start p after
    → Move g start p k q
    → IsStale n g
    → (k.cancelled n ≡ true)
      × (total_of n enters (at before start q after) ≡ 0)
      × (total_of n runs (at before start q after) ≤ total_of n runs g.threads)
Move-IsStale {g} n before after start p q e m v =
    let te = ap (total_of n enters) e ∙ total_of-at n enters before start p after in
    let tr = ap (total_of n runs) e ∙ total_of-at n runs before start p after in
    let (c, falls) = Move-stale m n v.cancelled in
    let (none_enters, runs_fall) =
      counts_around (eqb n start) (total_of n enters before) (total_of n enters after) (enters p)
        (enters q) (total_of n runs before) (total_of n runs after) (runs p) (runs q) falls
        (sym te ∙ v.nobody) in
    (
      c,
      total_of-at n enters before start q after ∙ none_enters,
      rw (total_of-at n runs before start q after, tr) runs_fall,
    )

Step-IsStale :
    {g h : Gate} (n : ℕ)
    → Step g h
    → IsStale n g
    → IsStale n h × (total_of n runs h.threads ≤ total_of n runs g.threads)
Step-IsStale n (call start e) v = ground arith
Step-IsStale {g} n (move before after start p q k e m f) v =
    let (c, nobody, le) = Move-IsStale n before after start p q e m v in
    rw f (record { cancelled = c; nobody = nobody }, le)
Step-IsStale n (set_accepting on w) v =
    rw w.sets (record { cancelled = v.cancelled; nobody = v.nobody }, omega arith)
Step-IsStale {g} n (cancel_handlers start e) v =
    rw e (record { cancelled = ground arith; nobody = v.nobody }, omega arith)

-- Along any steps the number of its handlers that run does not grow.
Steps-IsStale :
    (n : ℕ) (g h : Gate)
    → IsStale n g
    → Steps g h
    → IsStale n h × (total_of n runs h.threads ≤ total_of n runs g.threads)
Steps-IsStale n g g' v here = (v, omega arith)
Steps-IsStale n g h v (next {h = m} s t) =
    let (w, le) = Steps-IsStale n g m v s in let (x, le') = Step-IsStale n t w in (x, omega arith)

-- An aborted Start. The context of a Start is cancelled, and setAccepting then shuts the gate.
-- After that no step, a later Start's included, lets a handler of that Start begin: between any two
-- later states the number of them that run does not grow, and the context stays cancelled.
pub no_handler_after_abort :
    (n : ℕ) (f g h k : Gate)
    → f.cancelled n ≡ true
    → SetsAccepting false f g
    → Steps g h
    → Steps h k
    → (total_of n runs k.threads ≤ total_of n runs h.threads) × (k.cancelled n ≡ true)
no_handler_after_abort n f g h k c a s t =
    let (v, _) = Steps-IsStale n g h (SetsAccepting-IsStale n f g c a) s in
    let (w, le) = Steps-IsStale n h k v t in (le, w.cancelled)
