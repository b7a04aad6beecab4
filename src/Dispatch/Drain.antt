-- ===== src/Dispatch/Drain.antt =====
-- nats/runtime_dispatch.go: the gate after setAccepting(false), while Stop of nats/runtime.go waits
-- for the handlers.
use service_mesh_nats_go.Prelude.{ℕ, ◌≤◌, ◌≡◌, ap, ◌∙◌, false, List, [], ◌∷◌, arith}
use service_mesh_nats_go.Dispatch.{
  Pc, entered, running, Thread, Gate, reads, counted, total, Move, pass_first, fail_first,
  take_slot, context_done, pass_second, fail_second, unlock, free_unused, register, free, done,
  SetsAccepting, Step, call, move, set_accepting, cancel_handlers, Steps, next, new_gate,
}
use service_mesh_nats_go.Dispatch.Bounds.{total-at, Inv, Step-Inv, Steps-Inv, new_gate-Inv, runs}

-- Is a thread between its second test and wg.Add?
abbrev pub enters : Pc → ℕ
enters entered = 1
enters _ = 0

-- The gate is shut, and no thread that found it open has yet to register.
record IsShut (g : Gate) : Type 0 where
  pub shut : g.accepting ≡ false
  pub nobody : total enters g.threads ≡ 0

enters-le-reads : (ts : List Thread) → total enters ts ≤ total reads ts
enters-le-reads [] = omega arith
enters-le-reads (t ∷ ts) = omega (arith, enters-le-reads ts, one t.pc)
  where
    one : (p : Pc) → enters p ≤ reads p
    one entered = omega arith
    one _ = omega arith

-- setAccepting(false) waits for the readers, so it leaves the gate shut in this sense.
SetsAccepting-IsShut : (g h : Gate) → SetsAccepting false g h → IsShut h
SetsAccepting-IsShut g h w =
    let r = w.unread in let e = w.sets in ground (arith, enters-le-reads g.threads)

-- Steps along which nothing opens the gate.
pub data Quietly (g : Gate) : Gate → Type 0 where
  stay : Quietly g g
  more : {h k : Gate} → Quietly g h → Step h k → k.accepting ≡ false → Quietly g k

Move-shut :
    {g k : Gate} {start : ℕ} {p q : Pc}
    → Move g start p k q
    → g.accepting ≡ false
    → (enters q ≤ enters p) × (k.accepting ≡ false) × (enters p ≡ 0 → counted q ≤ counted p)
Move-shut (pass_first a c) s = ground arith
Move-shut (fail_first a) s = ground arith
Move-shut (take_slot l) s = ground arith
Move-shut (context_done c) s = ground arith
Move-shut (pass_second a c) s = cc
Move-shut (fail_second a) s = ground arith
Move-shut unlock s = ground arith
Move-shut free_unused s = ground arith
Move-shut register s = ground arith
Move-shut free s = ground arith
Move-shut done s = ground arith

-- Shut, the gate stays shut, and the wait group's count only falls.
Step-IsShut :
    {g h : Gate}
    → Step g h
    → h.accepting ≡ false
    → IsShut g
    → IsShut h × (total counted h.threads ≤ total counted g.threads)
Step-IsShut (call start e) a v = ground arith
Step-IsShut {g} (move before after start p q k e m f) a v =
    let te = ap (total enters) e ∙ total-at enters before start p after in
    let tc = ap (total counted) e ∙ total-at counted before start p after in
    let (le, shut, falls) = Move-shut m v.shut in
    let fewer = falls (omega (arith, v, te)) in
    ground (arith, total-at enters before start q after, total-at counted before start q after)
Step-IsShut (set_accepting on w) a v = let e = w.sets in ground arith
Step-IsShut (cancel_handlers start e) a v = ground arith

Quietly-IsShut :
    {g h : Gate}
    → IsShut g
    → Quietly g h
    → IsShut h × (total counted h.threads ≤ total counted g.threads)
Quietly-IsShut v stay = (v, omega arith)
Quietly-IsShut v (more s t a) =
    let (w, le) = Quietly-IsShut v s in let (x, le') = Step-IsShut t a w in (x, omega arith)

Quietly-Inv : {slots : ℕ} {g h : Gate} → Inv slots g → Quietly g h → Inv slots h
Quietly-Inv v stay = v
Quietly-Inv v (more s t a) = Step-Inv t (Quietly-Inv v s)

runs-le-counted : (ts : List Thread) → total runs ts ≤ total counted ts
runs-le-counted [] = omega arith
runs-le-counted (t ∷ ts) = omega (arith, runs-le-counted ts, one t.pc)
  where
    one : (p : Pc) → runs p ≤ counted p
    one running = omega arith
    one _ = omega arith

-- Stop's drain. In a state that a new runtime reaches by any steps, setAccepting shuts the gate.
-- From there, while nothing opens the gate, other steps lead to a state in which wg.Wait returns
-- because the count is 0. Then no handler is running in any later state, as long as nothing opens
-- the gate, and the count stays 0.
pub no_handler_after_wait :
    (slots : ℕ) (f g h k : Gate)
    → Steps (new_gate slots) f
    → SetsAccepting false f g
    → Quietly g h
    → h.wg ≡ 0
    → Quietly h k
    → (total runs k.threads ≡ 0) × (k.wg ≡ 0)
no_handler_after_wait slots f g h k s a q w r =
    let vh = Quietly-Inv (Steps-Inv (new_gate-Inv slots) (next s (set_accepting false a))) q in
    let (xh, _) = Quietly-IsShut (SetsAccepting-IsShut f g a) q in
    let (xk, le) = Quietly-IsShut xh r in
    omega (arith, vh, Quietly-Inv vh r, runs-le-counted k.threads)
