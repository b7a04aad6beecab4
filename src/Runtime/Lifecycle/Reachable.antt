-- ===== src/Runtime/Lifecycle/Reachable.antt =====
-- Every runtime that calls of Start, Stop and Close can reach.
use service_mesh_nats_go.Prelude.{
  true, false, ◌≡◌, ◌≢◌, ◌↔◌, inl, inr, refl, List, [], ◌∷◌, Option, Option-cases, or_else, sym, ap,
  ◌∙◌, none, some,
}
use mathlib.Core.Path.{subst}
use service_mesh_nats_go.Errors.{Error, sentinel}
use service_mesh_nats_go.Errors
use service_mesh_nats_go.Client.{Client, check_open}
use service_mesh_nats_go.Client.Timeouts.{IsOwner, close-IsOwner}
use service_mesh_nats_go.Config.{RuntimeSettings}
use service_mesh_nats_go.Runtime.{
  Subscription, RuntimeState, created, running, stopped, Runtime, made,
}
use service_mesh_nats_go.Runtime.Receivers.{Server, Opened}
use service_mesh_nats_go.Runtime.Lifecycle.Started.{
  or_else-none, startable, start-open, start-refused,
}
use service_mesh_nats_go.Runtime.Lifecycle.{
  Outcome, stop_at, Event, starts, stops, client_closes, check_startable, finish_start, start, stop,
  stop_running, after, after_all,
}

-- The flag, the gate and the receivers agree with the state, and a stopped runtime has closed its
-- client, which closes its connection once.
pub record IsConsistent (r : Runtime) : Type 0 where
  pub flag : (r.is_running ≡ true) ↔ (r.state ≡ running)
  pub gate : (r.accepting ≡ true) ↔ (r.state ≡ running)
  pub handlers : r.state ≡ running → r.cancelled ≡ false
  pub idle : r.state ≢ running → (r.subs ≡ []) × (r.consumers ≡ [])
  pub owner : IsOwner r.client
  pub closed : r.state ≡ stopped → r.client.closed ≡ true

made-IsConsistent :
    (c : Client) (s : RuntimeSettings) (subscriptions : List Subscription)
    → IsOwner c
    → IsConsistent (made c s subscriptions)
made-IsConsistent c s subscriptions v = record {
  flag = (λ e. cc, λ e. cc);
  gate = (λ e. cc, λ e. cc);
  handlers = λ e. cc;
  idle = λ n. (refl, refl);
  owner = v;
  closed = λ e. cc;
}

stop_running-IsConsistent :
    (late : Option Error) (r : Runtime)
    → IsConsistent r
    → IsConsistent (stop_running late r).runtime
stop_running-IsConsistent late r v =
    let (owner, closed, _, _) = close-IsOwner r.client v.owner in
    record {
      flag = (λ e. cc, λ e. cc);
      gate = (λ e. cc, λ e. cc);
      handlers = λ e. cc;
      idle = λ n. (refl, refl);
      owner = owner;
      closed = λ e. closed;
    }

stop_at-IsConsistent :
    (late : Option Error) (r : Runtime) (s : RuntimeState)
    → IsConsistent r
    → IsConsistent (stop_at late r s).runtime
stop_at-IsConsistent late r running v = stop_running-IsConsistent late r v
stop_at-IsConsistent late r created v = v
stop_at-IsConsistent late r stopped v = v

-- A Start that passes its checks was called on a runtime that is created.
finish_start-IsConsistent :
    (r : Runtime) (o : Opened) (x : Option Error)
    → r.state ≡ created
    → IsConsistent r
    → IsConsistent (finish_start r o x).runtime
unfolding finish_start
finish_start-IsConsistent r o none c v = record {
  flag = (λ e. refl, λ e. refl);
  gate = (λ e. refl, λ e. refl);
  handlers = λ e. refl;
  idle = λ n. absurd (n refl);
  owner = v.owner;
  closed = λ e. cc;
}
finish_start-IsConsistent r o (some e) c v = record {
  flag = v.flag;
  gate = (λ h. cc, λ h. cc);
  handlers = λ h. cc;
  idle = v.idle;
  owner = v.owner;
  closed = λ h. cc;
}

start-IsConsistent :
    (server : Server) (ctx_error : Option Error) (r : Runtime)
    → IsConsistent r
    → IsConsistent (start server ctx_error r).runtime
start-IsConsistent server ctx_error r v =
    elim (Option-cases (or_else (check_startable r.state ctx_error) (check_open r.client))) [
      | inr (e, x) ↦ rw (start-refused server ctx_error r e x) v
      | inl x ↦
          rw (start-open server ctx_error r x)
            (finish_start-IsConsistent r _ _ (startable r.state ctx_error (or_else-none _ _ x).0) v)
    ]

after-IsConsistent : (e : Event) (r : Runtime) → IsConsistent r → IsConsistent (after e r)
unfolding stop
after-IsConsistent (starts server ctx_error) r v = start-IsConsistent server ctx_error r v
after-IsConsistent (stops late) r v = stop_at-IsConsistent late r r.state v
after-IsConsistent client_closes r v =
    let (owner, closed, _, _) = close-IsOwner r.client v.owner in
    record {
      flag = v.flag;
      gate = v.gate;
      handlers = v.handlers;
      idle = v.idle;
      owner = owner;
      closed = λ e. closed;
    }

after_all-keeps : (es : List Event) (r : Runtime) → IsConsistent r → IsConsistent (after_all es r)
after_all-keeps [] r v = v
after_all-keeps (e ∷ es) r v = after_all-keeps es (after e r) (after-IsConsistent e r v)

-- From a runtime that New made on a client that owns its connection, any calls of Start and Stop,
-- with any outcome, and of Close on its client, in any order, lead to a consistent runtime: Running
-- and the gate say whether it runs, a running one has a live handler context, one that does not run
-- has no receivers, and a stopped one has closed its client. The connection is never closed twice.
pub after_all-IsConsistent :
    (c : Client) (s : RuntimeSettings) (subscriptions : List Subscription) (es : List Event)
    → IsOwner c
    → IsConsistent (after_all es (made c s subscriptions))
after_all-IsConsistent c s subscriptions es v =
    after_all-keeps es (made c s subscriptions) (made-IsConsistent c s subscriptions v)

stopped_refuses :
    (r : Runtime) (ctx_error : Option Error)
    → r.state ≡ stopped
    → or_else (check_startable r.state ctx_error) (check_open r.client)
      ≡ some (sentinel Errors.stopped)
unfolding check_startable
stopped_refuses r ctx_error h =
    ap (λ s. or_else (check_startable s ctx_error) (check_open r.client)) h

after-stopped : (e : Event) (r : Runtime) → r.state ≡ stopped → (after e r).state ≡ stopped
unfolding stop
after-stopped (starts server ctx_error) r h =
    ap (λ (o : Outcome). o.runtime.state)
      (start-refused server ctx_error r (sentinel Errors.stopped) (stopped_refuses r ctx_error h))
    ∙ h
after-stopped (stops late) r h = subst (λ s. (stop_at late r s).runtime.state ≡ stopped) (sym h) h
after-stopped client_closes r h = h

-- A runtime is not restartable: once it is stopped it stays so, whatever is called, and a Start
-- then returns ErrStopped and does nothing.
pub stopped_for_good :
    (r : Runtime) (es : List Event) (server : Server) (ctx_error : Option Error)
    → r.state ≡ stopped
    → ((after_all es r).state ≡ stopped)
      × (start server ctx_error (after_all es r) ≡ record {
        runtime = after_all es r;
        actions = [];
        error = some (sentinel Errors.stopped);
      })
stopped_for_good r [] server ctx_error h =
    (h, start-refused server ctx_error r (sentinel Errors.stopped) (stopped_refuses r ctx_error h))
stopped_for_good r (e ∷ es) server ctx_error h =
    stopped_for_good (after e r) es server ctx_error (after-stopped e r h)
