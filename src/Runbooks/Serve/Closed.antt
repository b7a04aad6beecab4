-- ===== src/Runbooks/Serve/Closed.antt =====
-- The client of the command serve, from NewClient to the end of main.
use service_mesh_nats_go.Prelude.{String, true, ◌≡◌, ◌⊎◌, inl, inr, refl, Option, none, some}
use service_mesh_nats_go.Go.Platform.{Platform}
use service_mesh_nats_go.Mesh.{Contract}
use service_mesh_nats_go.Errors.{Error, Result, ok, err}
use service_mesh_nats_go.Client.{Client, close}
use service_mesh_nats_go.Client.Made.{Dialer, new_client}
use service_mesh_nats_go.Runtime.{Runtime, running, EndpointHandler, SubscriberHandler}
use service_mesh_nats_go.Runtime.Receivers.{Server}
use service_mesh_nats_go.Runtime.Lifecycle.{start, stop, stop_at}
use service_mesh_nats_go.Runtime.Lifecycle as Lifecycle
use service_mesh_nats_go.Runtime.Lifecycle.Closed.{close-closed, stop-running}
use service_mesh_nats_go.Runtime.Lifecycle.Started.{start-IsStarted}
use service_mesh_nats_go.Runbooks.ServeHandler.{ServeFlags, serve_config}
use service_mesh_nats_go.Runbooks.Serve.{
  ServeRun, client_failed, after_start, with_runtime, with_client, serve_main,
}

-- The client at the end is closed.
abbrev pub Closes : ServeRun → Type 0
Closes run = (c : Client) × (run.client ≡ some c) × (c.closed ≡ true)

after_start-Closes :
    (late : Option Error) (o : Lifecycle.Outcome) (e : Option Error)
    → (e ≡ none → o.runtime.state ≡ running)
    → Closes (after_start late o e)
after_start-Closes late o (some e) h = (close o.runtime.client, refl, close-closed o.runtime.client)
after_start-Closes late o none h = (_, refl, (stop-running late o.runtime (h refl)).1)

with_runtime-Closes :
    (server : Server) (late : Option Error) (c : Client) (r : Result Runtime)
    → Closes (with_runtime server late c r)
with_runtime-Closes server late c (err e) = (close c, refl, close-closed c)
with_runtime-Closes server late c (ok r) =
    let o = start server none r in
    after_start-Closes late o o.error (λ h. (start-IsStarted server none r h).state)

-- Whichever of New, Start and Stop fails, the command serve leaves the client that it made closed.
-- If NewClient fails there is none.
pub serve_main-Closes :
    (go : Platform) (mesh : Contract) (dialer : Dialer) (server : Server) (late : Option Error)
    (f : ServeFlags) (url : String) (answers : EndpointHandler) (receives : SubscriberHandler)
    → let run = serve_main go mesh dialer server late f url answers receives in
      let made = (new_client go mesh dialer (serve_config mesh f url)).outcome in
      ((e : Error) × (made ≡ err e) × (run.ended ≡ client_failed e) × (run.client ≡ none))
      ⊎ (((c : Client) × (made ≡ ok c)) × Closes run)
unfolding serve_main
serve_main-Closes go mesh dialer server late f url answers receives =
    by_client (new_client go mesh dialer (serve_config mesh f url)).outcome
  where
    by_client :
        (made : Result Client)
        → let run =
            with_client go mesh server late f (serve_config mesh f url) answers receives made in
          ((e : Error) × (made ≡ err e) × (run.ended ≡ client_failed e) × (run.client ≡ none))
          ⊎ (((c : Client) × (made ≡ ok c)) × Closes run)
    by_client (err e) = inl (e, refl, refl, refl)
    by_client (ok c) = inr ((c, refl), with_runtime-Closes server late c _)
