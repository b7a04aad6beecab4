-- ===== src/Client/Publishes.antt =====
-- What a publish sends, and how it ends.
use service_mesh_nats_go.Prelude.{
  String, ◌≡◌, ◌≢◌, ◌⊎◌, inl, inr, ◌∙◌, refl, ap, false, [], ◌∷◌, Option, none, some, or_else,
  arith, ◌==◌, eq_iff, if◌then◌else◌, Bool-cases,
}
use mathlib.Core.Path.{subst}
use service_mesh_nats_go.Prelude.Int.{ℤ}
use service_mesh_nats_go.Go.Platform.{Platform}
use service_mesh_nats_go.Go.Duration.{parse_duration}
use service_mesh_nats_go.Go.Map.{Map, IsMap, entries, get}
use service_mesh_nats_go.Mesh.{topic, Message, Header, Contract, IsLawful}
use service_mesh_nats_go.Errors.{Error, Result, ok, err, guard, >>=-eq-ok, ok-injective}
use service_mesh_nats_go.Target.{check_kind, subject, merge_settings}
use service_mesh_nats_go.Header.{returned}
use service_mesh_nats_go.Header.RoundTrip.{outgoing_returns, single}
use service_mesh_nats_go.Config.{stream_key, request_timeout_key, duration_setting, text_of}
use service_mesh_nats_go.Config.Values.{Source, duration_setting-Source}
use service_mesh_nats_go.Client.{
  Client, Sent, Bounded, Network, Context, Call, bound_context, check_open, prepare_publish,
  result_of, published, publish_message, send_publish, publish,
}

-- What holds of a publish that passes the checks.
pub record Passes (go : Platform) (c : Client) (ctx : Context) (msg : Message) (opts : Map String)
    (subj stream : String) (timeout : ℤ) : Type 0 where
  pub kind : msg.target.kind ≡ topic
  pub named : subject go msg.target ≡ ok subj
  pub stream_set : stream ≡ text_of (get (merge_settings msg.target.metadata opts) stream_key)
  -- the timeout is read for a JetStream publish only
  pub bound :
      ((stream ≡ "") × (timeout ≡ c.request_timeout))
      ⊎ ((stream ≢ "")
          × Source
              (parse_duration go)
              c.request_timeout
              timeout
              (get (merge_settings msg.target.metadata opts) request_timeout_key))
  pub is_open : c.closed ≡ false
  pub not_done : ctx.error ≡ none

check_kind-ok :
    (msg : Message) (use_name : String) (u : Unit {0})
    → guard (check_kind msg.target topic use_name) ≡ ok u
    → msg.target.kind ≡ topic
unfolding check_kind
check_kind-ok msg use_name u h = ground arith

check_open-ok : (c : Client) (u : Unit {0}) → guard (check_open c) ≡ ok u → c.closed ≡ false
unfolding check_open
check_open-ok c u h = ground arith

guard-ok : (o : Option Error) (u : Unit {0}) → guard o ≡ ok u → o ≡ none
guard-ok none u h = refl
guard-ok (some e) u h = cc

bound-ok :
    (go : Platform) (settings : Map String) (stream : String) (own t : ℤ)
    → (if stream == "" then ok own else duration_setting go settings request_timeout_key own) ≡ ok t
    → ((stream ≡ "") × (t ≡ own))
      ⊎ ((stream ≢ "") × Source (parse_duration go) own t (get settings request_timeout_key))
bound-ok go settings stream own t h = elim (Bool-cases (stream == "")) [
  | inl e ↦ inl (ground (arith, eq_iff stream ""), ground arith)
  | inr n ↦ inr (
    λ e. ground (arith, eq_iff stream ""),
    duration_setting-Source go settings request_timeout_key own t (ground arith),
  )
]

prepare_publish-Passes :
    (go : Platform) (c : Client) (ctx : Context) (msg : Message) (opts : Map String)
    (subj stream : String) (timeout : ℤ)
    → prepare_publish go c ctx msg opts ≡ ok (subj, stream, timeout)
    → Passes go c ctx msg opts subj stream timeout
unfolding prepare_publish
prepare_publish-Passes go c ctx msg opts subj stream timeout h =
    let settings = merge_settings msg.target.metadata opts in
    let named = text_of (get settings stream_key) in
    let (k, ek, hk) = >>=-eq-ok (guard (check_kind msg.target topic "Publish")) _ h in
    let (s, es, hs) = >>=-eq-ok (subject go msg.target) _ hk in
    let (t, et, ht) =
      >>=-eq-ok
        (if named == ""
          then ok c.request_timeout
          else duration_setting go settings request_timeout_key c.request_timeout)
        _ hs in
    let (o, eo, ho) = >>=-eq-ok (guard (check_open c)) _ ht in
    let (d, ed, hd) = >>=-eq-ok (guard ctx.error) _ ho in
    let e = ok-injective hd in
    subst (λ (p : String × String × ℤ). Passes go c ctx msg opts p.0 p.1 p.2) e
      (record {
        kind = check_kind-ok msg "Publish" k ek;
        named = es;
        stream_set = refl;
        bound = bound-ok go settings named c.request_timeout t et;
        is_open = check_open-ok c o eo;
        not_done = guard-ok ctx.error d ed;
      })

-- What is sent for a publish, and what its result is.
pub record Sends (mesh : Contract) (net : Network) (msg : Message) (subj stream : String)
    (b : Bounded) (call : Call (Unit {0})) : Type 0 where
  pub message : Sent
  pub only : call.sent ≡ message ∷ []
  pub subject : message.subject ≡ subj
  pub payload : message.payload ≡ msg.payload
  pub metadata :
      (j : String)
      → get (entries message.header) j
        ≡ single (
            or_else
              (if mesh.msg_id_header == j
                then get (entries msg.metadata) mesh.message_id_key
                else none)
              (get (entries msg.metadata) j))
  pub plain :
      stream ≡ ""
      → (message.expected_stream ≡ none)
        × (call.outcome ≡ returned (result_of (net.publish message)))
  pub stored :
      stream ≢ ""
      → (message.expected_stream ≡ some stream)
        × (call.outcome ≡ returned (published (net.jetstream_publish b message)))

send_publish-Sends :
    (mesh : Contract) (net : Network) (msg : Message) (subj stream : String) (b : Bounded)
    (h : Option Header) (call : Call (Unit {0}))
    → ((j : String)
        → get (entries h) j
          ≡ single (
              or_else
                (if mesh.msg_id_header == j
                  then get (entries msg.metadata) mesh.message_id_key
                  else none)
                (get (entries msg.metadata) j)))
    → call ≡ send_publish net msg subj stream b (returned h)
    → Sends mesh net msg subj stream b call
unfolding publish_message
send_publish-Sends mesh net msg subj stream b h call g e = record {
  message = publish_message subj msg stream h;
  only = ap (λ (x : Call (Unit {0})). x.sent) e;
  subject = refl;
  payload = refl;
  metadata = g;
  plain = λ p. (
    ground (arith, eq_iff stream ""),
    ap (λ (x : Call (Unit {0})). x.outcome) e ∙ ground (arith, eq_iff stream ""),
  );
  stored = λ p. (
    ground (arith, eq_iff stream ""),
    ap (λ (x : Call (Unit {0})). x.outcome) e ∙ ground (arith, eq_iff stream ""),
  );
}

-- A publish that fails a check sends nothing and returns that check's error. One that passes sends
-- exactly one message, to its target's subject with its payload and metadata, the message id as
-- Nats-Msg-Id. Without a stream it is a plain publish and returns its error; with one it expects
-- that stream, and its result is read from the ack.
pub publish-Sends :
    (go : Platform) (mesh : Contract) (net : Network) (c : Client) (ctx : Context) (now later : ℤ)
    (msg : Message) (opts : Map String)
    → IsLawful mesh
    → IsMap (entries msg.metadata)
    → let call = publish go mesh net c ctx now later msg opts in
      ((e : Error) × (prepare_publish go c ctx msg opts ≡ err e)
        × (call ≡ record { sent = []; outcome = returned (err e) }))
      ⊎ ((subj : String) × (stream : String) × (timeout : ℤ) × Passes go c ctx msg opts subj stream
            timeout
          × Sends mesh net msg subj stream (bound_context ctx.deadline timeout now later) call)
unfolding publish
publish-Sends go mesh net c ctx now later msg opts law m =
    go_on (prepare_publish go c ctx msg opts) refl
  where
    go_on :
        (r : Result (String × String × ℤ))
        → prepare_publish go c ctx msg opts ≡ r
        → let call = publish go mesh net c ctx now later msg opts in
          ((e : Error) × (prepare_publish go c ctx msg opts ≡ err e)
            × (call ≡ record { sent = []; outcome = returned (err e) }))
          ⊎ ((subj : String) × (stream : String) × (timeout : ℤ) × Passes go c ctx msg opts subj
                stream timeout
              × Sends mesh net msg subj stream (bound_context ctx.deadline timeout now later) call)
    go_on (err e) p = inl (e, p, rw (p, publish))
    go_on (ok (subj, stream, timeout)) p =
        let (h, out, g) = outgoing_returns mesh law msg.metadata m in
        inr (
          subj,
          stream,
          timeout,
          prepare_publish-Passes go c ctx msg opts subj stream timeout p,
          send_publish-Sends mesh net msg subj stream (bound_context ctx.deadline timeout now later)
              h _ g (rw (p, publish) (rw out refl)),
        )
