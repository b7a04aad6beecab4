-- ===== src/Delivery.antt =====
-- A JetStream delivery of nats/jetstream.go and nats/runtime_jetstream.go: its state under its
-- mutex, and how the callback's thread and Stop race to settle it.
pub mod Race
pub mod Progress
pub mod Pool
use service_mesh_nats_go.Prelude.{ℕ, Bool, true, false, ◌≡◌, ◌⊎◌, List, [], ◌∷◌}

pub data DeliveryState : Type 0 where
  waiting running settled : DeliveryState

-- The new state, and whether the handler may run.
unfoldable pub begin : DeliveryState → DeliveryState × Bool
begin settled = (settled, false)
begin _ = (running, true)

-- The new state, whether the handler had begun, and whether this call settled the delivery.
unfoldable pub settle : DeliveryState → DeliveryState × Bool × Bool
settle settled = (settled, false, false)
settle waiting = (settled, false, true)
settle running = (settled, true, true)

-- What is sent to the server for a delivery.
pub data Reply : Type 0 where
  ack nak : Reply

-- Where receive and serveJetStream stand with a delivery of an acking consumer. The argument says
-- whether a nak follows.
pub data Callback : Type 0 where
  -- before `r.pending[d] = struct{}{}`
  arriving : Callback
  -- in dispatch
  dispatching : Callback
  -- in serveJetStream, before d.begin()
  serving : Callback
  -- in the handler
  handling : Callback
  -- the handler has returned; before d.settle()
  handled : Bool → Callback
  -- dispatch returned false: in abandon, before d.settle()
  abandoning : Callback
  -- settled by this thread, before untrack
  won : Bool → Callback
  -- untracked, before the ack or the nak
  sending : Bool → Callback
  closed : Callback

-- Where Stop stands with the delivery: not taken from the pending ones yet, in abandon before
-- d.settle(), before untrack, before the nak, done.
pub data Stopper : Type 0 where
  idle taken owns nacking gone : Stopper

pub record Delivery : Type 0 where
  pub state : DeliveryState
  -- is the delivery in r.pending?
  pub tracked : Bool
  pub callback : Callback
  pub stopper : Stopper
  -- what has been sent, latest first
  pub replies : List Reply

abbrev pub arrived : Delivery
arrived = record {
  state = waiting;
  tracked = false;
  callback = arriving;
  stopper = idle;
  replies = [];
}

abbrev pub reply_of : Bool → Reply
reply_of true = nak
reply_of false = ack

pub data Step (d e : Delivery) : Type 0 where
  track : d.callback ≡ arriving → e ≡ record d { tracked = true; callback = dispatching } → Step d e
  dispatched : d.callback ≡ dispatching → e ≡ record d { callback = serving } → Step d e
  refused : d.callback ≡ dispatching → e ≡ record d { callback = abandoning } → Step d e
  begin_true :
      d.callback ≡ serving
      → (begin d.state).1 ≡ true
      → e ≡ record d { state = (begin d.state).0; callback = handling }
      → Step d e
  begin_false :
      d.callback ≡ serving
      → (begin d.state).1 ≡ false
      → e ≡ record d { callback = closed }
      → Step d e
  handler_returns :
      (failed : Bool)
      → d.callback ≡ handling
      → e ≡ record d { callback = handled failed }
      → Step d e
  settle_result :
      (failed : Bool)
      → d.callback ≡ handled failed
      → (settle d.state).2 ≡ true
      → e ≡ record d { state = (settle d.state).0; callback = won failed }
      → Step d e
  settle_result_late :
      (failed : Bool)
      → d.callback ≡ handled failed
      → (settle d.state).2 ≡ false
      → e ≡ record d { callback = closed }
      → Step d e
  abandon :
      d.callback ≡ abandoning
      → (settle d.state).2 ≡ true
      → e ≡ record d { state = (settle d.state).0; callback = won true }
      → Step d e
  abandon_late :
      d.callback ≡ abandoning
      → (settle d.state).2 ≡ false
      → e ≡ record d { callback = closed }
      → Step d e
  untrack :
      (nacks : Bool)
      → d.callback ≡ won nacks
      → e ≡ record d { tracked = false; callback = sending nacks }
      → Step d e
  reply :
      (nacks : Bool)
      → d.callback ≡ sending nacks
      → e ≡ record d { callback = closed; replies = reply_of nacks ∷ d.replies }
      → Step d e
  -- abandonPending copies the pending deliveries and abandons each
  stop_takes : d.stopper ≡ idle → d.tracked ≡ true → e ≡ record d { stopper = taken } → Step d e
  stop_settles :
      d.stopper ≡ taken
      → (settle d.state).2 ≡ true
      → e ≡ record d { state = (settle d.state).0; stopper = owns }
      → Step d e
  stop_late :
      d.stopper ≡ taken → (settle d.state).2 ≡ false → e ≡ record d { stopper = gone } → Step d e
  stop_untracks : d.stopper ≡ owns → e ≡ record d { tracked = false; stopper = nacking } → Step d e
  stop_naks :
      d.stopper ≡ nacking → e ≡ record d { stopper = gone; replies = nak ∷ d.replies } → Step d e

pub data Steps (d : Delivery) : Delivery → Type 0 where
  here : Steps d d
  next : {e f : Delivery} → Steps d e → Step e f → Steps d f
