-- ===== src/Examples/Asked.antt =====
-- What the client of examples/client makes of a request to the echo endpoint of examples/server, as
-- docs/e2e.md walks through them.
use service_mesh_nats_go.Prelude.{
  ℕ, ◌*◌, ◌/◌, String, Bool, true, false, ◌≡◌, ◌∙◌, refl, sym, ap, inl, inr, List, [], ◌∷◌, ◌++◌,
  Option, none, some, ◌==◌, if◌then◌else◌,
}
use service_mesh_nats_go.Prelude.Int.{ℤ, ◌<ℤ◌, ◌≤ℤ◌}
use service_mesh_nats_go.Go.Text.{join, is_space, is_print}
use service_mesh_nats_go.Go.Map.{Map, entries, get, put, put_all}
use service_mesh_nats_go.Mesh.{Target, Message, Payload}
use service_mesh_nats_go.Errors.{Result, ok, err, sentinel, timed_out, is, ok-injective}
use service_mesh_nats_go.Header.{Outcome, returned}
use service_mesh_nats_go.Target.{check_kind, subject, check_segments, merge_settings}
use service_mesh_nats_go.Config.{stream_key, request_timeout_key, duration_setting, text_of}
use service_mesh_nats_go.Client.{Client, Sent, check_open, prepare_request}
use service_mesh_nats_go.Client.Made.{new_client, new_client-Outcomes}
use service_mesh_nats_go.Serve.{call_endpoint}
use service_mesh_nats_go.Serve.Replies.{Conveys}
use service_mesh_nats_go.Examples.Reports.{handler_failed, request_timed_out, report, report_chain}
use service_mesh_nats_go.Examples.Client.{
  Process, Environment, ClientRun, reported, replied, client_config, client_options, request_of,
  after_request,
}
use service_mesh_nats_go.Examples.Server.{Wait, echo_reply, after_wait}
use service_mesh_nats_go.Examples.Echoed.{IsSlow, FailsWith}

-- What the client's process ends with: the echo, with who echoed it, and its connection closed; or
-- the handler's error.
abbrev pub IsAnswered : Payload → String → Option String → ClientRun → Type 0
IsAnswered payload by none run =
    (back : Message) × (run.ended ≡ replied back)
    × (back.payload ≡ payload)
    × ((j : String) → get (entries back.metadata) j ≡ get (("Echoed-By", by) ∷ []) j)
    × (run.closes ≡ true)
IsAnswered payload by (some text) run = run.ended ≡ reported (handler_failed text)

merge_settings-client_options :
    (env : Environment) → merge_settings [] (client_options env) ≡ client_options env
unfolding merge_settings put_all put
merge_settings-client_options env = by_test (env.timeout == "")
  where
    by_test :
        (b : Bool)
        → let opts : Map String = if b then [] else (request_timeout_key, env.timeout) ∷ [] in
          merge_settings [] opts ≡ opts
    by_test true = refl
    by_test false = refl

client_options-no_stream : (env : Environment) → text_of (get (client_options env) stream_key) ≡ ""
unfolding get text_of
client_options-no_stream env = by_test (env.timeout == "")
  where
    by_test :
        (b : Bool)
        → let opts : Map String = if b then [] else (request_timeout_key, env.timeout) ∷ [] in
          text_of (get opts stream_key) ≡ ""
    by_test true = refl
    by_test false = refl

-- The example's client passes the checks of Request, if its TIMEOUT can be read.
pub prepare_request-request_of :
    (p : Process) (env : Environment) (c : Client) (payload : String) (timeout : ℤ)
    → c.closed ≡ false
    → duration_setting p.go (client_options env) request_timeout_key c.request_timeout ≡ ok timeout
    → prepare_request p.go c (request_of p payload) (client_options env) ≡ ok ("demo.echo", timeout)
unfolding prepare_request check_kind subject check_segments is_space is_print check_open join
prepare_request-request_of p env c payload timeout o t =
    rw (merge_settings-client_options env, client_options-no_stream env, t, o) refl

-- What is made of the outcome of a request.
abbrev pub run_of : List Sent → Outcome (Result Message) → ClientRun
run_of sent o = record { ended = (after_request o).0; sent = sent; closes = (after_request o).1 }

pub run_of-IsAnswered :
    (bytes : String → Payload) (nowhere : Target) (by : String) (msg given : Message)
    (sent : List Sent) (f : Option String) (r : Result Message)
    → Conveys msg (call_endpoint (after_wait f (echo_reply bytes nowhere by given))) r
    → IsAnswered (bytes "echo: " ++ given.payload) by f (run_of sent (returned r))
unfolding call_endpoint report
run_of-IsAnswered bytes nowhere by msg given sent none r (back, e, t, payload, metadata) = (
  back,
  ap (λ x. (after_request (returned x)).0) e,
  payload,
  metadata,
  ap (λ x. (after_request (returned x)).1) e,
)
run_of-IsAnswered bytes nowhere by msg given sent (some text) r e =
    ap (λ x. (after_request (returned x)).0) e

pub run_of-timed_out :
    (sent : List Sent) (o : Outcome (Result Message))
    → o ≡ returned (err (sentinel timed_out))
    → (run_of sent o).ended ≡ reported request_timed_out
unfolding report report_chain is
run_of-timed_out sent o e = ap (λ x. (after_request x).0) e

-- What the client's process ends with, given when its context expires and when the reply is back.
pub record Ends (bytes : String → Payload) (payload : Payload) (by : String) (w : Wait) (wait : ℕ)
    (expires deadline back : ℤ) (run : ClientRun) : Type 0 where
  pub in_time :
      back <ℤ expires
      → (f : Option String) × FailsWith bytes w deadline payload f
        × IsAnswered (bytes "echo: " ++ payload) by f run
  pub too_late : expires <ℤ back → run.ended ≡ reported request_timed_out
  -- a slow call that Stop does not cancel, of a client that waits for whole milliseconds and for
  -- less than the handler's timer
  pub slow :
      IsSlow bytes payload
      → w.cancelled ≡ none
      → wait / 1_000_000 * 1_000_000 ≡ wait
      → deadline ≤ℤ w.timer
      → run.ended ≡ reported request_timed_out

-- A client that NewClient has just made is open.
pub new_client-is_open :
    (p : Process) (env : Environment) (c : Client)
    → (new_client p.go p.mesh p.dialer (client_config env)).outcome ≡ ok c
    → c.closed ≡ false
new_client-is_open p env c h = elim (new_client-Outcomes p.go p.mesh p.dialer (client_config env)) [
  | inl (s, r, made) ↦ ap (λ x. x.closed) (ok-injective (sym h ∙ made.outcome)) ∙ made.is_open
  | inr (e, made, _, _) ↦ cc
]
