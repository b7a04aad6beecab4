-- ===== src/Examples/EndToEnd.antt =====
-- examples/client and examples/server together, as docs/e2e.md walks through them: what the
-- client's process ends with, given what it asks the echo endpoint.
use service_mesh_nats_go.Prelude.{
  ℕ, ◌*◌, ◌/◌, ◌≤◌, String, true, ◌≡◌, ◌≢◌, refl, sym, ap, List, [], ◌∷◌, ◌++◌, Option, none, some,
}
use mathlib.Core.Path.{subst}
use service_mesh_nats_go.Prelude.Int.{ℤ, pos, ◌<ℤ◌, ◌≤ℤ◌, max_i64}
use service_mesh_nats_go.Go.Platform.{Platform}
use service_mesh_nats_go.Go.Time.{add_time}
use service_mesh_nats_go.Go.Map.{get}
use service_mesh_nats_go.Mesh.{Target, Message, Payload, IsLawful}
use service_mesh_nats_go.Errors.{Result, ok}
use service_mesh_nats_go.Header.{Outcome}
use service_mesh_nats_go.Config.{request_timeout_key, duration_setting}
use service_mesh_nats_go.Client.{Client, Sent, Bounded, bound_context, request}
use service_mesh_nats_go.Client.Made.{new_client}
use service_mesh_nats_go.Serve.{Ran, call_endpoint, serve_endpoint}
use service_mesh_nats_go.Serve.Replies.{Conveys, IsSendable}
use service_mesh_nats_go.Exchange.{Delivers, IsReturned, request-Conveys}
use service_mesh_nats_go.Examples.{echo_target}
use service_mesh_nats_go.Examples.Client.{
  Process, Environment, background, client_config, client_options, request_of, with_client,
  client_main,
}
use service_mesh_nats_go.Examples.Server.{Wait, echo_handler}
use service_mesh_nats_go.Examples.Echoed.{
  failure_of, failure_of-FailsWith, echo_handler-failure_of, handler_ends, handler_ends-slow,
  expires-before_deadline, echo-IsSendable,
}
use service_mesh_nats_go.Examples.Asked.{
  IsAnswered, prepare_request-request_of, run_of, run_of-IsAnswered, run_of-timed_out, Ends,
  new_client-is_open,
}

module _ (p : Process) (env : Environment) (go : Platform) (publish : Sent → Option String)
    (nowhere : Target) (by : String) (w : Wait) (inbox : String) (arrival back : ℤ) where
  abbrev pub handler : Option ℤ → Message → Ran Message
  handler = echo_handler p.bytes nowhere by w

  sendable :
      p.mesh.handler_error_key ≢ "Echoed-By"
      → (d : Option ℤ) (m : Message) → IsSendable p.mesh (call_endpoint (handler d m))
  sendable k d m =
      subst (λ x. IsSendable p.mesh (call_endpoint x))
        (sym (echo_handler-failure_of p.bytes nowhere by w d m))
        (echo-IsSendable p.mesh p.bytes nowhere by k (failure_of p.bytes w d m.payload) m)

  -- What the process makes of a request whose outcome is known.
  run_of-Ends :
      (payload : Payload) (msg given : Message) (wait : ℕ) (bound : Bounded) (deadline : ℤ)
      (sent : List Sent) (o : Outcome (Result Message))
      → bound.expires ≡ add_time p.later (pos wait)
      → bound.by_timeout ≡ true
      → given.payload ≡ payload
      → deadline ≡ add_time arrival (pos (wait / 1_000_000 * 1_000_000))
      → p.later <ℤ arrival
      → handler_ends p.bytes w arrival deadline payload ≤ℤ back
      → IsReturned msg (call_endpoint (handler (some deadline) given)) bound back o
      → Ends p.bytes payload by w wait (add_time p.later (pos wait)) deadline back (run_of sent o)
  run_of-Ends payload msg given wait bound deadline sent o x t g e l b v =
      let late = λ (h : add_time p.later (pos wait) <ℤ back).
        run_of-timed_out sent o (v.too_late (rw x h) t) in
      record {
        in_time = λ h.
            let (r, c, q) = v.in_time (rw x h) in
            let conveyed =
              subst (λ y. Conveys msg (call_endpoint y) r)
                (echo_handler-failure_of p.bytes nowhere by w (some deadline) given) c in
            let answered =
              run_of-IsAnswered p.bytes nowhere by msg given sent
                (failure_of p.bytes w (some deadline) given.payload) r conveyed in
            let failure = λ (y : Payload). failure_of p.bytes w (some deadline) y in
            (
              failure payload,
              failure_of-FailsWith p.bytes w deadline payload,
              subst (λ y. IsAnswered (p.bytes "echo: " ++ y) by (failure y) (run_of sent o)) g
                  (subst
                    (λ y.
                      IsAnswered (p.bytes "echo: " ++ given.payload) by (failure given.payload)
                        (run_of sent y))
                    (sym q) answered),
            );
        too_late = late;
        slow = λ q c whole d. late (
            expires-before_deadline p.later arrival deadline back wait l e whole
              (rw (sym (handler_ends-slow p.bytes w arrival deadline payload q c d)) b));
      }

  -- The example's client asks the example's server for an echo; the network brings its request
  -- there, and the reply back at some time after the handler has returned. When that is before the
  -- client's context expires, the process ends with the payload after "echo: ", with the server's
  -- name, and closes its connection; for the payload "fail" it reports the server's "invalid
  -- argument", and for "slow" the error of the handler's context if its deadline or Stop ends the
  -- call before the timer fires.
  -- When the context expires before, it reports that the request timed out. It always does so for
  -- "slow" when the client waits for whole milliseconds, the handler's deadline is no later than
  -- its timer, and Stop does not cancel the call. Taken for granted: the request arrives after the
  -- client's context is made, the timeout can be read and fits an int64, the reply has a subject,
  -- and the keys differ.
  pub client_main-IsAnswered :
      (program payload : String) (c : Client) (wait : ℕ)
      → IsLawful p.mesh
      → (new_client p.go p.mesh p.dialer (client_config env)).outcome ≡ ok c
      → duration_setting p.go (client_options env) request_timeout_key c.request_timeout
        ≡ ok (pos wait)
      → wait ≤ max_i64
      → p.mesh.timeout_key ≢ p.mesh.message_id_key
      → p.mesh.handler_error_key ≢ "Echoed-By"
      → inbox ≢ ""
      → p.later <ℤ arrival
      → handler_ends p.bytes w arrival
          (add_time arrival (pos (wait / 1_000_000 * 1_000_000)))
          (p.bytes payload)
        ≤ℤ back
      → Delivers p.network
          (bound_context none (pos wait) p.now p.later)
          inbox
          back
          (λ m. serve_endpoint go p.mesh publish echo_target handler m arrival)
      → Ends p.bytes
          (p.bytes payload)
          by
          w
          wait
          (add_time p.later (pos wait))
          (add_time arrival (pos (wait / 1_000_000 * 1_000_000)))
          back
          (client_main p env (program ∷ "request" ∷ payload ∷ []))
  unfolding client_main bound_context get
  client_main-IsAnswered program payload c wait law made t l n k i sent_first ended net_delivers =
      let msg = request_of p payload in
      let bound = bound_context none (pos wait) p.now p.later in
      let deadline = add_time arrival (pos (wait / 1_000_000 * 1_000_000)) in
      let call =
        request p.go p.mesh p.network c background p.now p.later msg (client_options env) in
      let (d, given, g, v) =
        request-Conveys go p.mesh p.network publish echo_target handler inbox arrival back p.go c
          background p.now p.later msg (client_options env) "demo.echo" (pos wait) wait law
          (refl, tt)
          (prepare_request-request_of p env c payload (pos wait) (new_client-is_open p env c made)
            t)
          refl l n i (sendable k) net_delivers in
      let at_deadline =
        subst (λ x. IsReturned msg (call_endpoint (handler x given)) bound back call.outcome)
          g.deadline v in
      subst
        (λ x.
          Ends p.bytes (p.bytes payload) by w wait (add_time p.later (pos wait)) deadline back x)
        (ap (λ x. with_client p env x "request" payload) (sym made))
        (run_of-Ends (p.bytes payload) msg given wait bound deadline call.sent call.outcome refl
          refl g.payload refl sent_first ended at_deadline)
