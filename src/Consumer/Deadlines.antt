-- ===== src/Consumer/Deadlines.antt =====
-- The ack deadline and the last delivery, for every delivery count that a uint64 holds.
use service_mesh_nats_go.Prelude.{
  ℕ, zero, suc, ◌-◌, ◌≤◌, ◌<◌, ◌≡◌, ◌↔◌, ◌∙◌, refl, ap, Bool-cases, inl, inr, true, some, List, [],
  ◌∷◌, arith, length, get_elem?, leb, if◌then◌else◌,
}
use service_mesh_nats_go.Prelude.Int.{ℤ, pos, negsuc, max_i64, two_64}
use service_mesh_nats_go.Go.Time.{add_time}
use service_mesh_nats_go.Consumer.{JsConsumer, backoff_index, wait_of, deadline, last_delivery}

-- The wait of a delivery, counted from 0: the entries in turn, and the last one from then on.
abbrev pub in_turn : ℤ → List ℤ → ℕ → ℤ
in_turn d [] k = d
in_turn d (e ∷ ds) zero = d
in_turn d (e ∷ ds) (suc k) = in_turn e ds k

-- Which entry a delivery count takes.
backoff_index_bounds :
    (delivered n : ℕ) → delivered < two_64 → 0 < n → backoff_index delivered n < n
unfolding backoff_index
backoff_index_bounds delivered n h p = ground arith

backoff_index_exact :
    (delivered n : ℕ)
    → 0 < delivered
    → delivered ≤ max_i64
    → 0 < n
    → backoff_index delivered n ≡ (if leb delivered n then delivered - 1 else n - 1)
unfolding backoff_index
backoff_index_exact delivered n p h q = ground arith

get_elem?-in_turn :
    (d : ℤ) (ds : List ℤ) (k : ℕ) → k ≤ length ds → get_elem? (d ∷ ds) k ≡ some (in_turn d ds k)
get_elem?-in_turn d [] zero h = refl
get_elem?-in_turn d [] (suc k) h = absurd (omega arith)
get_elem?-in_turn d (e ∷ ds) zero h = refl
get_elem?-in_turn d (e ∷ ds) (suc k) h = get_elem?-in_turn e ds k (omega arith)

in_turn_past :
    (d : ℤ) (ds : List ℤ) (k : ℕ) → length ds ≤ k → in_turn d ds (length ds) ≡ in_turn d ds k
in_turn_past d [] k h = refl
in_turn_past d (e ∷ ds) zero h = absurd (omega arith)
in_turn_past d (e ∷ ds) (suc k) h = in_turn_past e ds k (omega arith)

wait_of-backoff :
    (c : JsConsumer) (d : ℤ) (ds : List ℤ) (delivered i : ℕ)
    → c.backoff ≡ d ∷ ds
    → backoff_index delivered (suc (length ds)) ≡ i
    → i ≤ length ds
    → wait_of c delivered ≡ some (in_turn d ds i)
unfolding wait_of
wait_of-backoff c d ds delivered i e x h =
    rw (e, wait_of) (rw x (ground (arith, get_elem?-in_turn d ds i h)))

wait_of-in_turn :
    (c : JsConsumer) (d : ℤ) (ds : List ℤ) (delivered : ℕ)
    → c.backoff ≡ d ∷ ds
    → 0 < delivered
    → delivered ≤ max_i64
    → wait_of c delivered ≡ some (in_turn d ds (delivered - 1))
wait_of-in_turn c d ds delivered e p h = elim (Bool-cases (leb delivered (suc (length ds)))) [
  | inl within ↦
      wait_of-backoff c d ds delivered (delivered - 1) e
        (backoff_index_exact delivered (suc (length ds)) p h (omega arith) ∙ rw within)
        (ground arith)
  | inr past ↦
      wait_of-backoff c d ds delivered (length ds) e
        (backoff_index_exact delivered (suc (length ds)) p h (omega arith) ∙ rw past (omega arith))
        (omega arith)
      ∙ ap some (in_turn_past d ds (delivered - 1) (ground arith))
]

wait_of-plain :
    (c : JsConsumer) (delivered : ℕ) → c.backoff ≡ [] → wait_of c delivered ≡ some c.ack_wait
unfolding wait_of
wait_of-plain c delivered e = rw (e, wait_of)

deadline-wait :
    (c : JsConsumer) (arrival : ℤ) (delivered : ℕ) (w : ℤ)
    → wait_of c delivered ≡ some w
    → deadline c arrival delivered ≡ some (add_time arrival w)
unfolding deadline
deadline-wait c arrival delivered w e = rw (e, deadline)

wait_of-total :
    (c : JsConsumer) (delivered : ℕ) (bs : List ℤ)
    → c.backoff ≡ bs
    → delivered < two_64
    → (w : ℤ) × (wait_of c delivered ≡ some w)
wait_of-total c delivered [] e h = (c.ack_wait, wait_of-plain c delivered e)
wait_of-total c delivered (d ∷ ds) e h =
    let i = backoff_index delivered (suc (length ds)) in
    (
      in_turn d ds i,
      wait_of-backoff c d ds delivered i e refl
          (omega (arith, backoff_index_bounds delivered (suc (length ds)) h (omega arith))),
    )

-- For a delivery count from 1 to the largest int64: a delivery's deadline is its arrival plus the
-- consumer's ack wait, or, when the consumer has backoffs, plus the entry for this delivery, the
-- last entry serving every later one.
pub deadline-in_turn :
    (c : JsConsumer) (arrival : ℤ) (delivered : ℕ)
    → 0 < delivered
    → delivered ≤ max_i64
    → (c.backoff ≡ [] → deadline c arrival delivered ≡ some (add_time arrival c.ack_wait))
      × ((d : ℤ) (ds : List ℤ)
          → c.backoff ≡ d ∷ ds
          → deadline c arrival delivered ≡ some (add_time arrival (in_turn d ds (delivered - 1))))
deadline-in_turn c arrival delivered p h = (
  λ e. deadline-wait c arrival delivered c.ack_wait (wait_of-plain c delivered e),
  λ d ds e.
      deadline-wait c arrival delivered (in_turn d ds (delivered - 1))
        (wait_of-in_turn c d ds delivered e p h),
)

-- For no delivery count that a uint64 holds does the choice of a backoff go out of the list's
-- range.
pub deadline-total :
    (c : JsConsumer) (arrival : ℤ) (delivered : ℕ)
    → delivered < two_64
    → (t : ℤ) × (deadline c arrival delivered ≡ some t)
deadline-total c arrival delivered h =
    let (w, e) = wait_of-total c delivered c.backoff refl h in
    (add_time arrival w, deadline-wait c arrival delivered w e)

-- For a delivery count that a uint64 holds: with a limit that is not negative, a delivery is the
-- last exactly from the limit on; with -1, no limit, none is but the one numbered by the largest
-- uint64.
pub last_delivery-limit :
    (c : JsConsumer) (delivered : ℕ)
    → delivered < two_64
    → ((n : ℕ)
        → c.max_deliver ≡ pos n
        → n ≤ max_i64
        → (last_delivery c delivered ≡ true) ↔ (n ≤ delivered))
      × (c.max_deliver ≡ negsuc 0 → (last_delivery c delivered ≡ true) ↔ (delivered ≡ two_64 - 1))
unfolding last_delivery
last_delivery-limit c delivered h = (λ n e b. ground arith, λ e. ground arith)
