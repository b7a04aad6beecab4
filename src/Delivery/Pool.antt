-- ===== src/Delivery/Pool.antt =====
-- Every delivery of a runtime at once, of nats/runtime_jetstream.go: the callbacks' threads, and
-- Stop's thread in abandonPending, which takes the pending deliveries in one step and then goes
-- through them while the callbacks go on.
pub mod Reached
pub mod Settled
pub mod Ends
use service_mesh_nats_go.Prelude.{
  ℕ, Bool, true, false, ◌≡◌, List, [], ◌∷◌, contains, eqb, if◌then◌else◌,
}
use service_mesh_nats_go.Delivery.{
  Stopper, idle, taken, owns, nacking, gone, Delivery, arrived, Step, track, dispatched, refused,
  begin_true, begin_false, handler_returns, settle_result, settle_result_late, abandon,
  abandon_late, untrack, reply, stop_takes, stop_settles, stop_late, stop_untracks, stop_naks,
}

pub data Role : Type 0 where
  callback_thread stop_takes_it stop_thread : Role

-- Whose step it is.
abbrev pub thread_of : {d e : Delivery} → Step d e → Role
thread_of (stop_takes s t e) = stop_takes_it
thread_of (stop_settles s t e) = stop_thread
thread_of (stop_late s t e) = stop_thread
thread_of (stop_untracks s e) = stop_thread
thread_of (stop_naks s e) = stop_thread
thread_of _ = callback_thread

-- Stop has taken the delivery, and is not through with it.
abbrev pub is_at_work : Stopper → Bool
is_at_work taken = true
is_at_work owns = true
is_at_work nacking = true
is_at_work _ = false

abbrev pub is_gone : Stopper → Bool
is_gone gone = true
is_gone _ = false

-- Where abandonPending stands: not called yet, with these deliveries left, done.
pub data Stopping : Type 0 where
  before : Stopping
  abandoning : List ℕ → Stopping
  through : Stopping

-- The deliveries by their addresses. One that has not come yet is as it is when it arrives.
pub record Pool : Type 0 where
  pub at : ℕ → Delivery
  pub stop : Stopping

abbrev pub new_pool : Pool
new_pool = record { at = λ i. arrived; stop = before }

abbrev pub put_at : (ℕ → Delivery) → ℕ → Delivery → ℕ → Delivery
put_at at i d j = if eqb i j then d else at j

-- The keys of r.pending are distinct.
abbrev pub IsDistinct : List ℕ → Type 0
IsDistinct [] = Unit
IsDistinct (i ∷ ds) = (contains ds i ≡ false) × IsDistinct ds

abbrev pub take_all : List ℕ → (ℕ → Delivery) → ℕ → Delivery
take_all ds at i = if contains ds i then record (at i) { stopper = taken } else at i

-- What is left after a step of Stop on the first of the deliveries.
abbrev pub left_after : Delivery → ℕ → List ℕ → Stopping
left_after d i ds = if is_gone d.stopper then abandoning ds else abandoning (i ∷ ds)

pub data PoolStep (p q : Pool) : Type 0 where
  -- a callback's thread moves on
  callback :
      (i : ℕ) (d : Delivery) (s : Step (p.at i) d)
      → thread_of s ≡ callback_thread
      → q ≡ record p { at = put_at p.at i d }
      → PoolStep p q
  -- abandonPending copies the keys of r.pending, in any order
  copies :
      (ds : List ℕ)
      → p.stop ≡ before
      → IsDistinct ds
      → ((i : ℕ) → contains ds i ≡ (p.at i).tracked)
      → q ≡ record { at = take_all ds p.at; stop = abandoning ds }
      → PoolStep p q
  -- abandon, of the first one that is left
  abandons :
      (i : ℕ) (ds : List ℕ) (d : Delivery) (s : Step (p.at i) d)
      → p.stop ≡ abandoning (i ∷ ds)
      → thread_of s ≡ stop_thread
      → q ≡ record { at = put_at p.at i d; stop = left_after d i ds }
      → PoolStep p q
  returns : p.stop ≡ abandoning [] → q ≡ record p { stop = through } → PoolStep p q

pub data PoolSteps (p : Pool) : Pool → Type 0 where
  still : PoolSteps p p
  then_step : {q r : Pool} → PoolSteps p q → PoolStep q r → PoolSteps p r
