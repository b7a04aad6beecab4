-- ===== src/Runbooks/ServeHandler/Calls.antt =====
-- How the handler of the command serve behaves over its calls.
use service_mesh_nats_go.Prelude.{
  ℕ, zero, suc, ◌+◌, ◌<◌, String, Bool, true, false, ◌≡◌, some, ltb, leb, if◌then◌else◌, arith,
}
use service_mesh_nats_go.Prelude.Int.{ℤ, pos, ◌≤ℤ◌, max_ℤ}
use service_mesh_nats_go.Go.Time.{add_time}
use service_mesh_nats_go.Serve.{Ran, value}
use service_mesh_nats_go.Runbooks.ServeHandler.{ServeFlags, two_31, call_number, handle, work_end}

abbrev pub is_failure : Ran (Unit {0}) → ℕ
is_failure (value u) = 0
is_failure _ = 1

-- How many of the first calls fail.
abbrev pub failures : (ℤ → ℤ → String) → ServeFlags → ℕ → ℕ
failures failing f zero = 0
failures failing f (suc n) = is_failure (handle failing f n) + failures failing f n

abbrev pub min : ℕ → ℕ → ℕ
min a b = if leb a b then a else b

is_failure-handle :
    (failing : ℤ → ℤ → String) (f : ServeFlags) (fail n : ℕ)
    → f.fail ≡ pos fail
    → suc n < two_31
    → is_failure (handle failing f n) ≡ (if ltb n fail then 1 else 0)
unfolding handle call_number
is_failure-handle failing f fail n e h = ground arith

-- Of the first calls of the handler, as many fail as -fail asks for, and no more, as long as the
-- calls' number fits an int32.
pub failures-min :
    (failing : ℤ → ℤ → String) (f : ServeFlags) (fail n : ℕ)
    → f.fail ≡ pos fail
    → n < two_31
    → failures failing f n ≡ min n fail
failures-min failing f fail zero e h = ground arith
failures-min failing f fail (suc n) e h =
    ground (arith, failures-min failing f fail n e, is_failure-handle failing f fail n e h)

-- Without -ignore-ctx a call ends by the end of its context, or at once if that was over before,
-- and never after its work; with it, never before its work is done.
pub work_end-bounds :
    (f : ServeFlags) (begun : ℤ) (work : ℕ) (ends : ℤ) (prefers : Bool)
    → f.work ≡ pos (suc work)
    → (f.ignore_ctx ≡ false
        → (work_end f begun (some ends, prefers) ≤ℤ max_ℤ begun ends)
          × (work_end f begun (some ends, prefers) ≤ℤ add_time begun (pos (suc work))))
      × (f.ignore_ctx ≡ true
          → add_time begun (pos (suc work)) ≤ℤ work_end f begun (some ends, prefers))
unfolding work_end
work_end-bounds f begun work ends prefers e = ground arith
