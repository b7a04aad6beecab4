-- ===== src/Client/Requests.antt =====
-- What a request sends, and how its answer is read.
use service_mesh_nats_go.Prelude.{
  String, ◌≡◌, ◌≢◌, ◌⊎◌, inl, inr, ◌∙◌, refl, ap, false, List, [], ◌∷◌, Option, none, some, or_else,
  arith, ◌==◌, eq_iff, if◌then◌else◌,
}
use mathlib.Core.Path.{subst}
use service_mesh_nats_go.Prelude.Int.{ℤ}
use service_mesh_nats_go.Go.Platform.{Platform}
use service_mesh_nats_go.Go.Decimal.{format_int}
use service_mesh_nats_go.Go.Duration.{parse_duration}
use service_mesh_nats_go.Go.Map.{Map, IsMap, entries, get}
use service_mesh_nats_go.Mesh.{route, Message, Header, Contract, IsLawful}
use service_mesh_nats_go.Errors.{
  bad_setting, Error, wrapped, bad_config, handler_error, Result, ok, err, guard, >>=-eq-ok,
  ok-injective,
}
use service_mesh_nats_go.Target.{check_kind, subject, merge_settings}
use service_mesh_nats_go.Header.{returned, from_header}
use service_mesh_nats_go.Header.RoundTrip.{outgoing_returns, single}
use service_mesh_nats_go.Config.{stream_key, request_timeout_key, duration_setting, text_of}
use service_mesh_nats_go.Config.Values.{Source, duration_setting-Source}
use service_mesh_nats_go.Client.{
  Client, Sent, Reply, Bounded, Network, Context, Call, milliseconds, bound_context, check_open,
  prepare_request, first_text, header_or_new, read_reply, read_answer, request_message,
  send_request, request,
}

-- What holds of a request that passes the checks.
pub record Passes (go : Platform) (c : Client) (msg : Message) (opts : Map String) (subj : String)
    (timeout : ℤ) : Type 0 where
  pub kind : msg.target.kind ≡ route
  pub named : subject go msg.target ≡ ok subj
  pub no_stream : text_of (get (merge_settings msg.target.metadata opts) stream_key) ≡ ""
  pub bound :
      Source
        (parse_duration go)
        c.request_timeout
        timeout
        (get (merge_settings msg.target.metadata opts) request_timeout_key)
  pub is_open : c.closed ≡ false

check_kind-ok :
    (msg : Message) (use_name : String) (u : Unit {0})
    → guard (check_kind msg.target route use_name) ≡ ok u
    → msg.target.kind ≡ route
unfolding check_kind
check_kind-ok msg use_name u h = ground arith

check_open-ok : (c : Client) (u : Unit {0}) → guard (check_open c) ≡ ok u → c.closed ≡ false
unfolding check_open
check_open-ok c u h = ground arith

no_stream-ok :
    (v : String) (u : Unit {0})
    → guard (if v == "" then none else some (wrapped bad_config (bad_setting stream_key v))) ≡ ok u
    → v ≡ ""
no_stream-ok v u h = ground (arith, eq_iff v "")

prepare_request-Passes :
    (go : Platform) (c : Client) (msg : Message) (opts : Map String) (subj : String) (timeout : ℤ)
    → prepare_request go c msg opts ≡ ok (subj, timeout)
    → Passes go c msg opts subj timeout
unfolding prepare_request
prepare_request-Passes go c msg opts subj timeout h =
    let settings = merge_settings msg.target.metadata opts in
    let (k, ek, hk) = >>=-eq-ok (guard (check_kind msg.target route "Request")) _ h in
    let (s, es, hs) = >>=-eq-ok (subject go msg.target) _ hk in
    let (v, ev, hv) =
      >>=-eq-ok
        (guard (
          if text_of (get settings stream_key) == ""
          then none
          else some
              (wrapped bad_config (bad_setting stream_key (text_of (get settings stream_key))))))
        _ hs in
    let (t, et, ht) =
      >>=-eq-ok (duration_setting go settings request_timeout_key c.request_timeout) _ hv in
    let (o, eo, ho) = >>=-eq-ok (guard (check_open c)) _ ht in
    let e = ok-injective ho in
    record {
      kind = check_kind-ok msg "Request" k ek;
      named = es ∙ ap (λ (p : String × ℤ). ok p.0) e;
      no_stream = no_stream-ok _ v ev;
      bound =
          subst
            (λ x. Source (parse_duration go) c.request_timeout x (get settings request_timeout_key))
            (ap (λ (p : String × ℤ). p.1) e)
            (duration_setting-Source go settings request_timeout_key c.request_timeout t et);
      is_open = check_open-ok c o eo;
    }

-- What is sent for a request, and what its result is.
pub record Exchanges (mesh : Contract) (net : Network) (msg : Message) (subj : String) (b : Bounded)
    (call : Call Message) : Type 0 where
  pub message : Sent
  pub only : call.sent ≡ message ∷ []
  pub subject : message.subject ≡ subj
  pub payload : message.payload ≡ msg.payload
  pub timeout :
      get (header_or_new message.header) mesh.timeout_key
      ≡ some (format_int (milliseconds b.wait) ∷ [])
  pub metadata :
      (j : String)
      → j ≢ mesh.timeout_key
      → j ≢ mesh.msg_id_header
      → get (header_or_new message.header) j ≡ single (get (entries msg.metadata) j)
  pub id :
      mesh.msg_id_header ≢ mesh.timeout_key
      → get (header_or_new message.header) mesh.msg_id_header
        ≡ single (
            or_else
              (get (entries msg.metadata) mesh.message_id_key)
              (get (entries msg.metadata) mesh.msg_id_header))
  pub result : call.outcome ≡ returned (read_answer mesh msg (net.request b message))

module _ (mesh : Contract) (law : IsLawful mesh) (net : Network) (msg : Message) where
  get-header_or_new : (h : Option Header) (j : String) → get (header_or_new h) j ≡ get (entries h) j
  get-header_or_new none j = refl
  get-header_or_new (some h) j = refl

  request_message-Exchanges :
      (subj : String) (b : Bounded) (h : Option Header) (call : Call Message)
      → ((j : String)
          → get (entries h) j
            ≡ single (
                or_else
                  (if mesh.msg_id_header == j
                    then get (entries msg.metadata) mesh.message_id_key
                    else none)
                  (get (entries msg.metadata) j)))
      → call ≡ send_request mesh net msg subj b (returned h)
      → Exchanges mesh net msg subj b call
  unfolding request_message
  request_message-Exchanges subj b h call g e =
      let set = λ (j : String).
        law.get-header_set (header_or_new h) mesh.timeout_key j
          (format_int (milliseconds b.wait)) in
      record {
        message = request_message mesh subj msg b.wait h;
        only = ap (λ (x : Call Message). x.sent) e;
        subject = refl;
        payload = refl;
        timeout = ground (arith, set mesh.timeout_key, eq_iff mesh.timeout_key mesh.timeout_key);
        metadata = λ j n k. ground (
          arith,
          set j,
          eq_iff mesh.timeout_key j,
          eq_iff mesh.msg_id_header j,
          get-header_or_new h j,
          g j,
        );
        id = λ n. ground (
          arith,
          set mesh.msg_id_header,
          eq_iff mesh.timeout_key mesh.msg_id_header,
          eq_iff mesh.msg_id_header mesh.msg_id_header,
          get-header_or_new h mesh.msg_id_header,
          g mesh.msg_id_header,
        );
        result = ap (λ (x : Call Message). x.outcome) e;
      }

-- A request that fails a check sends nothing and returns that check's error. One that passes sends
-- exactly one message: to its target's subject, with its payload, with the milliseconds left in
-- Mesh-Timeout and with its metadata, the message id as Nats-Msg-Id; its result is read from the
-- answer to that message.
pub request-Exchanges :
    (go : Platform) (mesh : Contract) (net : Network) (c : Client) (ctx : Context) (now later : ℤ)
    (msg : Message) (opts : Map String)
    → IsLawful mesh
    → IsMap (entries msg.metadata)
    → let call = request go mesh net c ctx now later msg opts in
      ((e : Error) × (prepare_request go c msg opts ≡ err e)
        × (call ≡ record { sent = []; outcome = returned (err e) }))
      ⊎ ((subj : String) × (timeout : ℤ) × Passes go c msg opts subj timeout
          × Exchanges mesh net msg subj (bound_context ctx.deadline timeout now later) call)
unfolding request
request-Exchanges go mesh net c ctx now later msg opts law m =
    go_on (prepare_request go c msg opts) refl
  where
    go_on :
        (r : Result (String × ℤ))
        → prepare_request go c msg opts ≡ r
        → let call = request go mesh net c ctx now later msg opts in
          ((e : Error) × (prepare_request go c msg opts ≡ err e)
            × (call ≡ record { sent = []; outcome = returned (err e) }))
          ⊎ ((subj : String) × (timeout : ℤ) × Passes go c msg opts subj timeout
              × Exchanges mesh net msg subj (bound_context ctx.deadline timeout now later) call)
    go_on (err e) p = inl (e, p, rw (p, request))
    go_on (ok (subj, timeout)) p =
        let (h, out, g) = outgoing_returns mesh law msg.metadata m in
        inr (
          subj,
          timeout,
          prepare_request-Passes go c msg opts subj timeout p,
          request_message-Exchanges mesh law net msg subj
              (bound_context ctx.deadline timeout now later) h _ g (rw (p, request) (rw out refl)),
        )

-- A reply is a handler's failure exactly when its header has the key of handler errors, and then
-- the error is the key's first value; any other reply is a message with the reply's metadata and
-- payload, for the target of the request.
pub read_reply-branches :
    (mesh : Contract) (msg : Message) (reply : Reply)
    → ((texts : List String)
        → get (header_or_new reply.header) mesh.handler_error_key ≡ some texts
        → read_reply mesh msg reply ≡ err (handler_error (first_text texts)))
      × ((out : Message)
          → read_reply mesh msg reply ≡ ok out
          → (get (header_or_new reply.header) mesh.handler_error_key ≡ none)
            × (out.target ≡ msg.target)
            × (out.metadata ≡ from_header reply.header)
            × (out.payload ≡ reply.payload))
unfolding read_reply
read_reply-branches mesh msg reply = (λ texts e. rw (e, read_reply), λ out h. ground arith)
