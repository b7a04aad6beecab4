-- ===== src/Tests/Gates.antt =====
-- Runs of dispatch with one handler slot.
use service_mesh_nats_go.Prelude.{
  ℕ, ◌≤◌, ◌≡◌, ◌*◌, ◌⊎◌, length, inl, inr, refl, Bool, true, false, List, [], ◌∷◌, arith,
}
use service_mesh_nats_go.Dispatch.{
  Pc, called, waiting, admitted, turned_away, running, returning, finished, refused, Thread, Gate,
  total, cancel, pass_first, fail_first, take_slot, pass_second, fail_second, register, entered,
  free, done, call, move, SetsAccepting, set_accepting, Steps, here, next, new_gate,
}
use service_mesh_nats_go.Dispatch.Bounds.{runs, running-le-slots}
use service_mesh_nats_go.Dispatch.Drain.{Quietly, stay, more, no_handler_after_wait}
use service_mesh_nats_go.Dispatch.Progress.{Moves, rest, then_move, count, IsLive, dispatch_drains}
use service_mesh_nats_go.Dispatch.Stale.{total_of, no_handler_after_abort}

abbrev thread : Pc → Thread
thread pc = record { start = 0; pc = pc }

-- A gate with one slot, and no context cancelled.
abbrev gate : Bool → ℕ → ℕ → List Thread → Gate
gate accepting taken wg threads = record {
  accepting = accepting;
  cancelled = λ n. false;
  taken = taken;
  slots = 1;
  wg = wg;
  threads = threads;
}

-- The same after the context of Start 0 is cancelled.
abbrev aborted : Bool → ℕ → List Thread → Gate
aborted accepting taken threads = record {
  accepting = accepting;
  cancelled = cancel 0 (λ n. false);
  taken = taken;
  slots = 1;
  wg = 0;
  threads = threads;
}

abbrev one : Bool → ℕ → ℕ → Pc → Gate
one accepting taken wg pc = gate accepting taken wg (thread pc ∷ [])

until_admitted : Steps (new_gate 1) (one true 1 0 admitted)
until_admitted =
    next
      (next
        (next (next here (set_accepting true (record { unread = refl; sets = refl })))
          (call 0 refl))
        (move [] [] 0 called waiting (one true 0 0 called) refl (pass_first refl refl) refl))
      (move [] [] 0 waiting admitted (one true 1 0 waiting) refl (take_slot (omega arith)) refl)

until_running : Steps (new_gate 1) (one true 1 1 running)
until_running =
    next
      (next until_admitted
        (move [] [] 0 admitted entered (one true 1 0 admitted) refl (pass_second refl refl) refl))
      (move [] [] 0 entered running (one true 1 1 entered) refl register refl)

running-le-slots_example :
    (total runs (one true 1 1 running).threads ≤ 1) × ((one true 1 1 running).taken ≤ 1)
running-le-slots_example = running-le-slots 1 (one true 1 1 running) until_running

shut : SetsAccepting false (one true 1 1 running) (one false 1 1 running)
shut = record { unread = refl; sets = refl }

until_waited : Quietly (one false 1 1 running) (one false 0 0 finished)
until_waited =
    more (more stay (move [] [] 0 running returning (one false 0 1 running) refl free refl) refl)
      (move [] [] 0 returning finished (one false 0 0 returning) refl done refl) refl

-- A message that comes too late.
abbrev late : Gate
late = gate false 0 0 (thread refused ∷ thread finished ∷ [])

until_late : Quietly (one false 0 0 finished) late
until_late =
    more (more stay (call 0 refl) refl)
      (move [] (thread finished ∷ []) 0 called refused
        (gate false 0 0 (thread called ∷ thread finished ∷ [])) refl (fail_first (inl refl)) refl)
      refl

no_handler_after_wait_example : (total runs late.threads ≡ 0) × (late.wg ≡ 0)
no_handler_after_wait_example =
    no_handler_after_wait 1 (one true 1 1 running) (one false 1 1 running) (one false 0 0 finished)
      late until_running shut until_waited refl until_late

-- A callback of an aborted Start that got its slot before, when a later Start accepts again.
abbrev left_over : Bool → Gate
left_over accepting = aborted accepting 1 (thread admitted ∷ [])

abbrev accepting_again : Gate
accepting_again = aborted true 1 (thread turned_away ∷ [])

shut_again : SetsAccepting false (left_over true) (left_over false)
shut_again = record { unread = refl; sets = refl }

until_turned_away : Steps (left_over false) accepting_again
until_turned_away =
    next (next here (set_accepting true (record { unread = refl; sets = refl })))
      (move [] [] 0 admitted turned_away (left_over true) refl (fail_second (inr refl)) refl)

no_handler_after_abort_example :
    (total_of 0 runs accepting_again.threads ≤ total_of 0 runs (left_over false).threads)
    × (accepting_again.cancelled 0 ≡ true)
no_handler_after_abort_example =
    no_handler_after_abort 0 (left_over true) (left_over false) (left_over false) accepting_again
      refl shut_again here until_turned_away

-- A handler that returns, and leaves.
until_drained : Moves (one true 1 1 running) (one true 0 0 finished)
until_drained =
    then_move [] [] 0 returning finished (one true 0 0 returning)
      (then_move [] [] 0 running returning (one true 0 1 running) rest refl free refl) refl done
      refl

dispatch_drains_example :
    (count until_drained ≤ 6 * length (one true 1 1 running).threads)
    × (IsLive (one true 0 0 finished)
        ⊎ (((one true 0 0 finished).taken ≡ 0) × ((one true 0 0 finished).wg ≡ 0)))
dispatch_drains_example =
    dispatch_drains 1 (one true 1 1 running) (one true 0 0 finished) (omega arith) until_running
      until_drained
