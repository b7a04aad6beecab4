-- ===== src/Runtime/Stopping.antt =====
-- How long Stop of nats/runtime.go takes: its drain with waitSubscriptionsDrained of
-- nats/runtime_receivers.go, the select between the drain and its context, flushOnStop and
-- abandonDrain. Times are counted from the call of Stop, and `none` is never.
pub mod Ends
pub mod Drained
use service_mesh_nats_go.Prelude.{
  ℕ, ◌+◌, ◌-◌, ◌≤◌, ◌<◌, ◌≡◌, ◌↔◌, ◌⊎◌, inl, inr, refl, ap, ◌∙◌, sym, List, [], ◌∷◌, map, Option,
  none, some, Bool, true, false, ◌&&◌, Bool-cases, Option-cases, ◌||◌, ltb, leb, eqb, if◌then◌else◌,
  arith,
}
use service_mesh_nats_go.Errors.{Error}
use service_mesh_nats_go.Runtime.Waits.{max_of, wait_consumers_closed, wait_consumers_closed-latest}

-- When things end after the call of Stop.
pub record Drain : Type 0 where
  -- the connection is closed
  pub connection : Option ℕ
  -- each subscription has delivered its messages, and is closed
  pub subs : List (Option ℕ)
  -- each consumer is closed
  pub consumers : List (Option ℕ)
  -- the last handler has returned
  pub handlers : Option ℕ

abbrev pub min_of : ℕ → ℕ → ℕ
min_of a b = if leb a b then a else b

-- A wait that begins at a time, for something that ends.
abbrev pub wait_for : ℕ → Option ℕ → Option ℕ
wait_for now none = none
wait_for now (some t) = some (max_of now t)

abbrev pub and_then : Option ℕ → (ℕ → Option ℕ) → Option ℕ
and_then none rest = none
and_then (some t) rest = rest t

-- One round of waitSubscriptionsDrained, given what the rest of the loop does from a time on. When
-- both channels of the select are ready it is the subscription's that is taken.
abbrev pub sub_wait : Option ℕ → ℕ → Option ℕ → (ℕ → Option ℕ) → Option ℕ
sub_wait connection now none rest = wait_for now connection
sub_wait none now (some t) rest = rest (max_of now t)
sub_wait (some c) now (some t) rest =
    let closes = rest (max_of now t) in if leb t now || leb t c then closes else some (max_of now c)

unfoldable pub subs_wait : Option ℕ → ℕ → List (Option ℕ) → Option ℕ
subs_wait connection now [] = some now
subs_wait connection now (s ∷ ss) = sub_wait connection now s (λ t. subs_wait connection t ss)

-- The loop of `<-c.cc.Closed()`
unfoldable pub consumers_closed : ℕ → List (Option ℕ) → Option ℕ
consumers_closed now [] = some now
consumers_closed now (none ∷ cs) = none
consumers_closed now (some t ∷ cs) = consumers_closed (max_of now t) cs

-- When Stop's goroutine closes `done`.
unfoldable pub drained : Drain → Option ℕ
unfolding subs_wait consumers_closed
drained d =
    and_then (subs_wait d.connection 0 d.subs)
      (λ t. and_then (consumers_closed t d.consumers) (λ u. wait_for u d.handlers))

-- The context of Stop: whether it has a deadline, and when it is done.
pub record StopContext : Type 0 where
  pub has_deadline : Bool
  pub done : Option ℕ

abbrev pub earlier : Option ℕ → Option ℕ → Option ℕ
earlier none b = b
earlier (some a) none = some a
earlier (some a) (some b) = some (min_of a b)

-- When flush returns that begins at a time, given when the server answers. FlushWithContext waits
-- for the answer or for its context.
unfoldable pub flush_ends : ℕ → StopContext → ℕ → Option ℕ → Option ℕ
flush_ends budget ctx now answer =
    let limit = if ctx.has_deadline then ctx.done else earlier ctx.done (some (now + budget)) in
    wait_for now (earlier answer limit)

-- flushOnStop, of a client that may have been closed directly.
unfoldable pub flush_on_stop_ends : ℕ → StopContext → ℕ → Bool → Option ℕ → Option ℕ
unfolding flush_ends
flush_on_stop_ends budget ctx now closed answer =
    let flush = flush_ends budget ctx now answer in if closed then some now else flush

-- A time of another clock, which began at `start`.
abbrev pub since : ℕ → Option ℕ → Option ℕ
since start none = none
since start (some t) = some (t - start)

-- How Stop ends: when it returns, and whether it returns the error of its context.
pub record Stopped : Type 0 where
  pub late : Bool
  pub returns : ℕ

abbrev pub on_time : Option ℕ → Option Stopped
on_time none = none
on_time (some t) = some (record { late = false; returns = t })

-- Stop after its context is done, with abandonDrain.
abbrev pub given_up : ℕ → Drain → ℕ → Stopped
given_up budget d c = record {
  late = true;
  returns = c + wait_consumers_closed budget (map (since c) d.consumers);
}

-- The select between the drain and the context. When both are ready it takes either of them: the
-- first argument is its choice, true for the drain.
abbrev pub select_done :
    Bool → ℕ → Drain → StopContext → Bool → Option ℕ → Option ℕ → Option ℕ → Option Stopped
select_done choice budget d ctx closed answer none none = none
select_done choice budget d ctx closed answer none (some c) = some (given_up budget d c)
select_done choice budget d ctx closed answer (some t) none =
    on_time (flush_on_stop_ends budget ctx t closed answer)
select_done choice budget d ctx closed answer (some t) (some c) =
    if ltb t c || (eqb t c && choice)
    then on_time (flush_on_stop_ends budget ctx t closed answer)
    else some (given_up budget d c)

unfoldable pub stop_ends : Bool → ℕ → Drain → StopContext → Bool → Option ℕ → Option Stopped
unfolding drained flush_on_stop_ends
stop_ends choice budget d ctx closed answer =
    select_done choice budget d ctx closed answer (drained d) ctx.done
