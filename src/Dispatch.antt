-- ===== src/Dispatch.antt =====
-- nats/runtime_dispatch.go: handler goroutines under a semaphore, a wait group and a gate. Each
-- call of dispatch, with the goroutine it starts, is a thread; the steps of all threads interleave,
-- and those of Start, abortStart and Stop on the gate come between them at any point.
pub mod Bounds
pub mod Drain
pub mod Stale
pub mod Progress
use service_mesh_nats_go.Prelude.{
  ℕ, suc, ◌+◌, ◌-◌, ◌<◌, Bool, true, false, ◌≡◌, ◌⊎◌, List, [], ◌∷◌, ◌++◌, ◌||◌, eqb,
}

-- Where a call of dispatch stands.
pub data Pc : Type 0 where
  -- before the first test
  called : Pc
  -- before `r.sem <- struct{}{}` or `<-ctx.Done()`
  waiting : Pc
  -- with a slot, before acceptMu.RLock
  admitted : Pc
  -- with a slot and the read lock, the second test passed
  entered : Pc
  -- with a slot and the read lock, the second test failed
  turned_away : Pc
  -- with a slot, the read lock given back, before `<-r.sem` and `return false`
  giving_up : Pc
  -- counted by wg, with the lock given back: fn may run
  running : Pc
  -- fn has returned and the slot is free, before wg.Done
  returning : Pc
  -- wg.Done has run
  finished : Pc
  -- dispatch has returned false
  refused : Pc

-- A thread, with the Start whose handler context it was given.
pub record Thread : Type 0 where
  pub start : ℕ
  pub pc : Pc

pub record Gate : Type 0 where
  pub accepting : Bool
  -- the Starts whose handler context is cancelled
  pub cancelled : ℕ → Bool
  -- how many values r.sem holds, and how many it can hold
  pub taken : ℕ
  pub slots : ℕ
  -- the counter of r.wg
  pub wg : ℕ
  pub threads : List Thread

-- `pc` moves on in the thread between two lists of threads.
abbrev pub at : List Thread → ℕ → Pc → List Thread → List Thread
at before start pc after = before ++ (record { start = start; pc = pc } ∷ after)

-- Does a thread hold the read lock of acceptMu?
abbrev pub reads : Pc → ℕ
reads entered = 1
reads turned_away = 1
reads _ = 0

abbrev pub holds : Pc → ℕ
holds admitted = 1
holds entered = 1
holds turned_away = 1
holds giving_up = 1
holds running = 1
holds _ = 0

abbrev pub counted : Pc → ℕ
counted running = 1
counted returning = 1
counted _ = 0

abbrev pub total : (Pc → ℕ) → List Thread → ℕ
total f [] = 0
total f (t ∷ ts) = f t.pc + total f ts

-- A context that is cancelled stays so.
abbrev pub cancel : ℕ → (ℕ → Bool) → ℕ → Bool
cancel n c k = eqb n k || c k

-- One step of one thread, at its place among the others.
pub data Move (g : Gate) (start : ℕ) : Pc → Gate → Pc → Type 0 where
  pass_first : g.accepting ≡ true → g.cancelled start ≡ false → Move g start called g waiting
  fail_first : (g.accepting ≡ false) ⊎ (g.cancelled start ≡ true) → Move g start called g refused
  take_slot : g.taken < g.slots → Move g start waiting (record g { taken = suc g.taken }) admitted
  context_done : g.cancelled start ≡ true → Move g start waiting g refused
  pass_second : g.accepting ≡ true → g.cancelled start ≡ false → Move g start admitted g entered
  fail_second :
      (g.accepting ≡ false) ⊎ (g.cancelled start ≡ true) → Move g start admitted g turned_away
  unlock : Move g start turned_away g giving_up
  free_unused : Move g start giving_up (record g { taken = g.taken - 1 }) refused
  register : Move g start entered (record g { wg = suc g.wg }) running
  free : Move g start running (record g { taken = g.taken - 1 }) returning
  done : Move g start returning (record g { wg = g.wg - 1 }) finished

-- setAccepting takes the write lock of acceptMu, so no thread holds the read lock.
pub record SetsAccepting (on : Bool) (g h : Gate) : Type 0 where
  pub unread : total reads g.threads ≡ 0
  pub sets : h ≡ record g { accepting = on }

pub data Step (g : Gate) (h : Gate) : Type 0 where
  -- a callback calls dispatch with the context of a Start
  call :
      (start : ℕ)
      → h ≡ record g { threads = record { start = start; pc = called } ∷ g.threads }
      → Step g h
  -- a thread moves
  move :
      (before after : List Thread) (start : ℕ) (p q : Pc) (k : Gate)
      → g.threads ≡ at before start p after
      → Move g start p k q
      → h ≡ record k { threads = at before start q after }
      → Step g h
  -- setAccepting
  set_accepting : (on : Bool) → SetsAccepting on g h → Step g h
  -- cancelHandlers
  cancel_handlers : (start : ℕ) → h ≡ record g { cancelled = cancel start g.cancelled } → Step g h

pub data Steps (g : Gate) : Gate → Type 0 where
  here : Steps g g
  next : {h k : Gate} → Steps g h → Step h k → Steps g k

-- A runtime before its first Start, with a semaphore of the given size.
abbrev pub new_gate : ℕ → Gate
new_gate slots = record {
  accepting = false;
  cancelled = λ n. false;
  taken = 0;
  slots = slots;
  wg = 0;
  threads = [];
}
