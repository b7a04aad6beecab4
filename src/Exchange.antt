-- ===== src/Exchange.antt =====
-- nats/client.go and nats/runtime_serve.go together: a Request of the client that a runtime's
-- endpoint serves.
pub mod Published
use service_mesh_nats_go.Prelude.{
  ℕ, ◌≤◌, String, ◌≡◌, ◌≢◌, refl, ap, ◌∙◌, List, [], ◌∷◌, ◌++◌, Option, none, some, true, eq_iff,
  arith,
}
use service_mesh_nats_go.Prelude.Int.{ℤ, pos, ◌<ℤ◌, max_i64}
use service_mesh_nats_go.Go.Platform.{Platform}
use service_mesh_nats_go.Go.Map.{Map, IsMap, entries, get}
use service_mesh_nats_go.Mesh.{Target, Message, Contract, IsLawful}
use service_mesh_nats_go.Errors.{
  Result, ok, err, sentinel, deadline_exceeded, request_timeout, timed_out, is,
}
use service_mesh_nats_go.Header.{Outcome, returned, outgoing_header, incoming_metadata}
use service_mesh_nats_go.Header.RoundTrip.{outgoing_returns}
use service_mesh_nats_go.Client.{
  Client, Sent, Bounded, Network, Context, Failure, answered, failed, timeout_error, caused,
  bound_context, prepare_request, read_answer, request_message, send_request, request,
}
use service_mesh_nats_go.Serve.{
  Ran, Incoming, Called, Effect, handled, replied, failure, log_error, call_endpoint, reply_message,
  send_reply, request_deadline, with_deadline, serve_endpoint,
}
use service_mesh_nats_go.Serve.Deadlines.{IsGiven, serve_endpoint-IsGiven}
use service_mesh_nats_go.Serve.Replies.{Conveys, IsSendable, received, read_reply-reply_message}

-- The reply that a caller waits for.
abbrev pub first_reply : List Effect → Option Sent
first_reply [] = none
first_reply (replied m ∷ es) = some m
first_reply (_ ∷ es) = first_reply es

-- A request, as a subscription of its subject gets it.
abbrev pub incoming : String → Sent → Incoming
incoming inbox m = record { header = m.header; payload = m.payload; reply = inbox }

-- The failure of a call whose context has expired by the request timeout.
abbrev pub expiry : Failure
expiry = record { error = sentinel deadline_exceeded; cause = some (sentinel request_timeout) }

-- A network that takes a request to an endpoint, with an inbox for the reply, and brings the reply
-- back at a time. The caller gets it if its context has not expired before that. Nothing is said of
-- a reply that is back just when the context expires.
abbrev pub Delivers : Network → Bounded → String → ℤ → (Incoming → List Effect) → Type 0
Delivers net bound inbox back serves =
    (m r : Sent)
    → first_reply (serves (incoming inbox m)) ≡ some r
    → (back <ℤ bound.expires → net.request bound m ≡ answered (received r))
      × (bound.expires <ℤ back → bound.by_timeout ≡ true → net.request bound m ≡ failed expiry)

-- What a request returns, given what its handler returned and when the reply is back.
pub record IsReturned (msg : Message) (out : Called) (bound : Bounded) (back : ℤ)
    (o : Outcome (Result Message)) : Type 0 where
  pub in_time : back <ℤ bound.expires → (r : Result Message) × Conveys msg out r × (o ≡ returned r)
  pub too_late :
      bound.expires <ℤ back → bound.by_timeout ≡ true → o ≡ returned (err (sentinel timed_out))

read_answer-expiry :
    (mesh : Contract) (msg : Message)
    → read_answer mesh msg (failed expiry) ≡ err (sentinel timed_out)
unfolding read_answer timeout_error caused is
read_answer-expiry mesh msg = refl

first_reply-log_error :
    (what : String) (o : Option String) (es : List Effect)
    → first_reply (log_error what o ++ es) ≡ first_reply es
first_reply-log_error what none es = refl
first_reply-log_error what (some text) es = refl

first_reply-send_reply :
    (mesh : Contract) (publish : Sent → Option String) (inbox : String) (out : Called)
    → inbox ≢ ""
    → first_reply (send_reply mesh publish inbox out) ≡ some (reply_message mesh inbox out)
unfolding send_reply
first_reply-send_reply mesh publish inbox out n = ground (arith, eq_iff inbox "")

-- The reply to a request is made of what its handler returned.
first_reply-serve_endpoint :
    (go : Platform) (mesh : Contract) (publish : Sent → Option String) (target : Target)
    (handler : Option ℤ → Message → Ran Message) (m : Incoming) (arrival : ℤ) (d : Option ℤ)
    (given : Message) (rest : List Effect)
    → m.reply ≢ ""
    → serve_endpoint go mesh publish target handler m arrival ≡ handled d given ∷ rest
    → first_reply (serve_endpoint go mesh publish target handler m arrival)
      ≡ some (reply_message mesh m.reply (call_endpoint (handler d given)))
unfolding serve_endpoint
first_reply-serve_endpoint go mesh publish target handler m arrival d given rest n h =
    let md = incoming_metadata mesh m.header in
    let d' = request_deadline (get md mesh.timeout_key) arrival in
    let given' : Message = record {
      target = target;
      metadata = some (with_deadline go mesh md d');
      payload = m.payload;
    } in
    let out = call_endpoint (handler d' given') in
    first_reply-log_error "nats: endpoint handler failed" (failure out)
      (send_reply mesh publish m.reply out)
    ∙ first_reply-send_reply mesh publish m.reply out n
    ∙ same h
  where
    same :
        {d' : Option ℤ} {given' : Message} {rest' : List Effect}
        → (handled d' given' ∷ rest') ≡ (handled d given ∷ rest)
        → some (reply_message mesh m.reply (call_endpoint (handler d' given')))
          ≡ some (reply_message mesh m.reply (call_endpoint (handler d given)))
    same e = cc

module _ (go : Platform) (mesh : Contract) (net : Network) (publish : Sent → Option String)
    (target : Target) (handler : Option ℤ → Message → Ran Message) (inbox : String)
    (arrival back : ℤ) where
  abbrev pub serves : Incoming → List Effect
  serves m = serve_endpoint go mesh publish target handler m arrival

  send_request-Conveys :
      (msg : Message) (subj : String) (bound : Bounded) (wait : ℕ)
      → IsLawful mesh
      → IsMap (entries msg.metadata)
      → bound.wait ≡ pos wait
      → wait ≤ max_i64
      → mesh.timeout_key ≢ mesh.message_id_key
      → inbox ≢ ""
      → ((d : Option ℤ) (m : Message) → IsSendable mesh (call_endpoint (handler d m)))
      → Delivers net bound inbox back serves
      → (d : Option ℤ) × (given : Message) × IsGiven go mesh target msg wait arrival d given
        × IsReturned msg
            (call_endpoint (handler d given))
            bound
            back
            (send_request mesh net msg subj bound (outgoing_header mesh msg.metadata)).outcome
  unfolding request_message read_answer
  send_request-Conveys msg subj bound wait law mp w l n i s net_delivers =
      let (h, out, _) = outgoing_returns mesh law msg.metadata mp in
      let m = request_message mesh subj msg (pos wait) h in
      let (d, given, rest, e, g) =
        serve_endpoint-IsGiven mesh law msg subj wait h out mp go publish target handler inbox
          arrival l n in
      let replies =
        first_reply-serve_endpoint go mesh publish target handler (incoming inbox m) arrival d given
          rest i e in
      let (answers, expires) = net_delivers m _ replies in
      let sent =
        ap (λ o. (send_request mesh net msg subj bound o).outcome) out
        ∙ ap
            (λ v.
              returned
                (read_answer mesh msg (net.request bound (request_message mesh subj msg v h))))
            w in
      (
        d,
        given,
        g,
        record {
          in_time = λ t. (
            _,
            read_reply-reply_message mesh msg inbox (call_endpoint (handler d given)) law
                (s d given),
            sent ∙ ap (λ a. returned (read_answer mesh msg a)) (answers t),
          );
          too_late = λ t b.
              sent
              ∙ ap (λ a. returned (read_answer mesh msg a)) (expires t b)
              ∙ ap returned (read_answer-expiry mesh msg);
        },
      )

  -- A request that passes the client's checks, with some time left, over a network that takes it to
  -- an endpoint and brings the reply back at some time. The endpoint's handler is given the
  -- request's payload, and as its deadline the caller's remaining time, cut to milliseconds, after
  -- the arrival. It is given the request's metadata: a message id under either of its keys is there
  -- under both, Mesh-Timeout and Mesh-Deadline carry the time and the deadline, and every other key
  -- is as it was. When the reply is back before the call's context expires, the request returns
  -- what that call of the handler returned: its message, or its error. When the request timeout
  -- expires first, it returns ErrTimeout. Taken for granted: the keys differ, and what the handler
  -- returns can be sent.
  pub request-Conveys :
      (client : Platform) (c : Client) (ctx : Context) (now later : ℤ) (msg : Message)
      (opts : Map String) (subj : String) (timeout : ℤ) (wait : ℕ)
      → IsLawful mesh
      → IsMap (entries msg.metadata)
      → prepare_request client c msg opts ≡ ok (subj, timeout)
      → (bound_context ctx.deadline timeout now later).wait ≡ pos wait
      → wait ≤ max_i64
      → mesh.timeout_key ≢ mesh.message_id_key
      → inbox ≢ ""
      → ((d : Option ℤ) (m : Message) → IsSendable mesh (call_endpoint (handler d m)))
      → Delivers net (bound_context ctx.deadline timeout now later) inbox back serves
      → (d : Option ℤ) × (given : Message) × IsGiven go mesh target msg wait arrival d given
        × IsReturned msg
            (call_endpoint (handler d given))
            (bound_context ctx.deadline timeout now later)
            back
            (request client mesh net c ctx now later msg opts).outcome
  unfolding request
  request-Conveys client c ctx now later msg opts subj timeout wait law mp p w l n i s dl =
      let (d, given, g, v) =
        send_request-Conveys msg subj (bound_context ctx.deadline timeout now later) wait law mp w l
          n i s dl in
      (d, given, g, rw (p, request) v)
