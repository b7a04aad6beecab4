-- ===== src/Dispatch/Progress.antt =====
-- How the threads of dispatch of nats/runtime_dispatch.go go on, and what is left when none can
-- move.
use service_mesh_nats_go.Prelude.{
  ℕ, suc, ◌+◌, ◌*◌, ◌≤◌, ◌<◌, true, false, Bool-cases, ◌≡◌, ◌⊎◌, inl, inr, refl, ap, ◌∙◌, List, [],
  ◌∷◌, arith, ltb, length,
}
use service_mesh_nats_go.Dispatch.{
  Pc, called, waiting, admitted, entered, turned_away, giving_up, running, returning, finished,
  refused, Thread, Gate, at, holds, counted, total, Move, pass_first, fail_first, take_slot,
  context_done, pass_second, fail_second, unlock, free_unused, register, free, done, move, Steps,
  new_gate,
}
use service_mesh_nats_go.Dispatch.Bounds.{total-at, Inv, Step-Inv, Steps-Inv, new_gate-Inv}

-- How many moves a thread has left at most.
abbrev pub moves_left : Pc → ℕ
moves_left called = 6
moves_left waiting = 5
moves_left admitted = 4
moves_left entered = 3
moves_left turned_away = 2
moves_left giving_up = 1
moves_left running = 2
moves_left returning = 1
moves_left finished = 0
moves_left refused = 0

-- Moves of the threads there are, in any order: no call comes in, and no lifecycle method runs.
pub data Moves (g : Gate) : Gate → Type 0 where
  rest : Moves g g
  then_move :
      {h k : Gate} (before after : List Thread) (start : ℕ) (p q : Pc) (m : Gate)
      → Moves g h
      → h.threads ≡ at before start p after
      → Move h start p m q
      → k ≡ record m { threads = at before start q after }
      → Moves g k

abbrev pub count : {g h : Gate} → Moves g h → ℕ
count rest = 0
count (then_move before after start p q m s e v f) = suc (count s)

Move-moves_left :
    {g k : Gate} {start : ℕ} {p q : Pc} → Move g start p k q → moves_left q < moves_left p
Move-moves_left (pass_first a c) = omega arith
Move-moves_left (fail_first a) = omega arith
Move-moves_left (take_slot l) = omega arith
Move-moves_left (context_done c) = omega arith
Move-moves_left (pass_second a c) = omega arith
Move-moves_left (fail_second a) = omega arith
Move-moves_left unlock = omega arith
Move-moves_left free_unused = omega arith
Move-moves_left register = omega arith
Move-moves_left free = omega arith
Move-moves_left done = omega arith

count-moves_left :
    {g h : Gate} (s : Moves g h) → count s + total moves_left h.threads ≤ total moves_left g.threads
count-moves_left rest = omega arith
count-moves_left (then_move before after start p q m s e v f) =
    let less = ap (total moves_left) e ∙ total-at moves_left before start p after in
    let now =
      ap (λ (x : Gate). total moves_left x.threads) f ∙ total-at moves_left before start q after in
    omega (arith, less, now, count-moves_left s, Move-moves_left v)

-- A count that is not 0 has a thread that it counts.
find :
    (f : Pc → ℕ) (ts : List Thread)
    → (total f ts ≡ 0)
      ⊎ ((before : List Thread) × (start : ℕ) × (p : Pc) × (after : List Thread) × (ts
            ≡ at before start p after)
          × (0 < f p))
find f [] = inl refl
find f (t ∷ ts) = elim (Bool-cases (ltb 0 (f t.pc))) [
  | inl l ↦ inr ([], t.start, t.pc, ts, refl, ground arith)
  | inr l ↦ elim (find f ts) [
    | inl n ↦ inl (ground arith)
    | inr (before, start, p, after, e, l) ↦ inr (t ∷ before, start, p, after, ap (◌∷◌ t) e, l)
  ]
]

-- A thread can pass or fails a test of dispatch.
test :
    (g : Gate) (start : ℕ)
    → ((g.accepting ≡ true) × (g.cancelled start ≡ false))
      ⊎ ((g.accepting ≡ false) ⊎ (g.cancelled start ≡ true))
test g start = elim (Bool-cases g.accepting) [
  | inr a ↦ inr (inl a)
  | inl a ↦ elim (Bool-cases (g.cancelled start)) [ inl c ↦ inr (inr c) | inr c ↦ inl (a, c) ]
]

abbrev CanMove : Gate → ℕ → Pc → Type 0
CanMove g start p = (k : Gate) × (q : Pc) × Move g start p k q

called_moves : (g : Gate) (start : ℕ) → CanMove g start called
called_moves g start = elim (test g start) [
  | inl (a, c) ↦ (_, _, pass_first a c)
  | inr f ↦ (_, _, fail_first f)
]

-- Who holds a slot waits for nobody.
holder_moves : (g : Gate) (start : ℕ) (p : Pc) → 0 < holds p → CanMove g start p
holder_moves g start admitted h = elim (test g start) [
  | inl (a, c) ↦ (_, _, pass_second a c)
  | inr f ↦ (_, _, fail_second f)
]
holder_moves g start entered h = (_, _, register)
holder_moves g start turned_away h = (_, _, unlock)
holder_moves g start giving_up h = (_, _, free_unused)
holder_moves g start running h = (_, _, free)
holder_moves g start called h = absurd (omega arith)
holder_moves g start waiting h = absurd (omega arith)
holder_moves g start returning h = absurd (omega arith)
holder_moves g start finished h = absurd (omega arith)
holder_moves g start refused h = absurd (omega arith)

-- Only a thread that waits for a slot may be unable to move.
unfinished_moves :
    (g : Gate) (start : ℕ) (p : Pc)
    → 0 < moves_left p
    → ((p ≡ waiting) × (g.slots ≤ g.taken)) ⊎ CanMove g start p
unfinished_moves g start called h = inr (called_moves g start)
unfinished_moves g start waiting h = elim (Bool-cases (ltb g.taken g.slots)) [
  | inl l ↦ inr (_, _, take_slot (ground arith))
  | inr l ↦ inl (refl, ground arith)
]
unfinished_moves g start admitted h = inr (holder_moves g start admitted (omega arith))
unfinished_moves g start entered h = inr (holder_moves g start entered (omega arith))
unfinished_moves g start turned_away h = inr (holder_moves g start turned_away (omega arith))
unfinished_moves g start giving_up h = inr (holder_moves g start giving_up (omega arith))
unfinished_moves g start running h = inr (holder_moves g start running (omega arith))
unfinished_moves g start returning h = inr (_, _, done)
unfinished_moves g start finished h = absurd (omega arith)
unfinished_moves g start refused h = absurd (omega arith)

-- Some thread can move.
abbrev pub IsLive : Gate → Type 0
IsLive g =
    (before : List Thread) × (start : ℕ) × (p : Pc) × (after : List Thread) × (g.threads
      ≡ at before start p after)
    × ((k : Gate) × (q : Pc) × Move g start p k q)

some_holder_moves :
    {slots : ℕ} (g : Gate) → 0 < slots → Inv slots g → IsLive g ⊎ (total moves_left g.threads ≡ 0)
some_holder_moves g s v = elim (find moves_left g.threads) [
  | inl n ↦ inr n
  | inr (before, start, p, after, e, l) ↦ elim (unfinished_moves g start p l) [
    | inr m ↦ inl (before, start, p, after, e, m)
    | inl (w, full) ↦ elim (find holds g.threads) [
      | inl n ↦ absurd (omega (arith, v))
      | inr (before', start', p', after', e', l') ↦
          inl (before', start', p', after', e', holder_moves g start' p' l')
    ]
  ]
]

nobody_left :
    (ts : List Thread) → total moves_left ts ≡ 0 → (total holds ts ≡ 0) × (total counted ts ≡ 0)
nobody_left [] h = (refl, refl)
nobody_left (t ∷ ts) h =
    let (a, b) = nobody_left ts (omega arith) in
    let (c, d) = one t.pc (omega arith) in (omega arith, omega arith)
  where
    one : (p : Pc) → moves_left p ≡ 0 → (holds p ≡ 0) × (counted p ≡ 0)
    one finished h = (refl, refl)
    one refused h = (refl, refl)
    one called h = absurd (omega arith)
    one waiting h = absurd (omega arith)
    one admitted h = absurd (omega arith)
    one entered h = absurd (omega arith)
    one turned_away h = absurd (omega arith)
    one giving_up h = absurd (omega arith)
    one running h = absurd (omega arith)
    one returning h = absurd (omega arith)

six_each : (ts : List Thread) → total moves_left ts ≤ 6 * length ts
six_each [] = omega arith
six_each (t ∷ ts) = omega (arith, six_each ts, one t.pc)
  where
    one : (p : Pc) → moves_left p ≤ 6
    one called = omega arith
    one _ = omega arith

Moves-Inv : {slots : ℕ} {g h : Gate} → Inv slots g → Moves g h → Inv slots h
Moves-Inv v rest = v
Moves-Inv v (then_move before after start p q m s e mv f) =
    Step-Inv (move before after start p q m e mv f) (Moves-Inv v s)

-- With a handler slot or more, no call of dispatch waits for ever once no more calls come in: every
-- run of moves ends, after six moves for each thread at most, the return of its handler included,
-- and a state in which no thread can move has an empty semaphore and an empty wait group.
pub dispatch_drains :
    (slots : ℕ) (g h : Gate)
    → 0 < slots
    → Steps (new_gate slots) g
    → (s : Moves g h) → (count s ≤ 6 * length g.threads) × (IsLive h ⊎ ((h.taken ≡ 0) × (h.wg ≡ 0)))
dispatch_drains slots g h p r s =
    let v = Moves-Inv (Steps-Inv (new_gate-Inv slots) r) s in
    (
      omega (arith, count-moves_left s, six_each g.threads),
      elim (some_holder_moves h p v) [
        | inl l ↦ inl l
        | inr n ↦ let (a, b) = nobody_left h.threads n in inr (omega (arith, v), omega (arith, v))
      ],
    )
