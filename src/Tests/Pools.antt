-- ===== src/Tests/Pools.antt =====
-- Stop takes over one delivery of two.
use service_mesh_nats_go.Prelude.{
  ℕ, ◌+◌, ◌*◌, ◌≤◌, Bool, true, false, ◌≡◌, ◌⊎◌, refl, List, [], ◌∷◌, length, arith,
}
use service_mesh_nats_go.Delivery.{
  settled, settle, Reply, nak, dispatching, closed, Stopper, owns, nacking, gone, Delivery, arrived,
  track, stop_settles, stop_untracks, stop_naks,
}
use service_mesh_nats_go.Delivery.Pool.{
  Stopping, before, abandoning, through, Pool, new_pool, put_at, take_all, PoolStep, callback,
  copies, abandons, returns, PoolSteps, still, then_step,
}
use service_mesh_nats_go.Delivery.Pool.Settled.{abandon_pending-settles}
use service_mesh_nats_go.Delivery.Pool.Ends.{stop_steps, stop_steps_of, abandon_pending-ends}

abbrev tracked_delivery : Delivery
tracked_delivery = record arrived { tracked = true; callback = dispatching }

-- Delivery 3 waits for a handler slot when Stop copies the keys.
abbrev waiting_pool : Pool
waiting_pool = record { at = put_at new_pool.at 3 tracked_delivery; stop = before }

until_waiting : PoolSteps new_pool waiting_pool
until_waiting = then_step still (callback 3 tracked_delivery (track refl refl) refl refl)

abbrev copied_pool : Pool
copied_pool = record { at = take_all (3 ∷ []) waiting_pool.at; stop = abandoning (3 ∷ []) }

copy_step : PoolStep waiting_pool copied_pool
copy_step = copies (3 ∷ []) refl (refl, tt) (λ i. ground arith) refl

abbrev nacked : Stopper → Bool → List Reply → Delivery
nacked stopper tracked replies = record {
  state = settled;
  tracked = tracked;
  callback = dispatching;
  stopper = stopper;
  replies = replies;
}

abbrev pool_with : Pool → Delivery → Stopping → Pool
pool_with p d stop = record { at = put_at p.at 3 d; stop = stop }

abbrev settled_pool : Pool
settled_pool = pool_with copied_pool (nacked owns true []) (abandoning (3 ∷ []))

abbrev untracked_pool : Pool
untracked_pool = pool_with settled_pool (nacked nacking false []) (abandoning (3 ∷ []))

abbrev nacked_pool : Pool
nacked_pool = pool_with untracked_pool (nacked gone false (nak ∷ [])) (abandoning [])

abbrev through_pool : Pool
through_pool = record nacked_pool { stop = through }

stop_path : PoolSteps copied_pool through_pool
unfolding settle
stop_path =
    then_step
      (then_step
        (then_step
          (then_step still
            (abandons 3 [] (nacked owns true []) (stop_settles refl refl refl) refl refl refl))
          (abandons 3 [] (nacked nacking false []) (stop_untracks refl refl) refl refl refl))
        (abandons 3 [] (nacked gone false (nak ∷ [])) (stop_naks refl refl) refl refl refl))
      (returns refl refl)

abandon_pending-settles_example :
    ((waiting_pool.at 3).tracked ≡ true → (through_pool.at 3).state ≡ settled)
    × (length (through_pool.at 3).replies ≤ 1)
    × ((through_pool.at 3).callback ≡ closed
        → ((through_pool.at 3).state ≡ settled)
          × ((through_pool.at 3).tracked ≡ false)
          × ((r : Reply) × ((through_pool.at 3).replies ≡ r ∷ [])))
abandon_pending-settles_example =
    abandon_pending-settles waiting_pool copied_pool through_pool (3 ∷ []) until_waiting refl
      copy_step refl stop_path refl 3

abandon_pending-ends_example :
    (stop_steps stop_path ≤ 3 * length {A = ℕ} (3 ∷ []) + 1)
    × ((through_pool.stop ≡ through)
        ⊎ ((r : Pool) × (t : PoolStep through_pool r) × (stop_steps_of t ≡ 1)))
abandon_pending-ends_example =
    abandon_pending-ends copied_pool through_pool (3 ∷ []) (then_step until_waiting copy_step) refl
      stop_path
