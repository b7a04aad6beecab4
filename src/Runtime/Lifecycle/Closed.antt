-- ===== src/Runtime/Lifecycle/Closed.antt =====
-- What Stop of nats/runtime.go leaves of a runtime that runs.
use service_mesh_nats_go.Prelude.{true, ◌≡◌, ◌∙◌, ap, Option, arith}
use service_mesh_nats_go.Errors.{Error}
use service_mesh_nats_go.Client.{Client, close}
use service_mesh_nats_go.Runtime.{Runtime, running, stopped}
use service_mesh_nats_go.Runtime.Lifecycle.{stop, stop_at}

pub close-closed : (c : Client) → (close c).closed ≡ true
unfolding close
close-closed c = ground arith

pub stop-running :
    (late : Option Error) (r : Runtime)
    → r.state ≡ running
    → ((stop late r).runtime.state ≡ stopped) × ((stop late r).runtime.client.closed ≡ true)
unfolding stop
stop-running late r h = (
  ap (λ s. (stop_at late r s).runtime.state) h,
  ap (λ s. (stop_at late r s).runtime.client.closed) h ∙ close-closed r.client,
)
