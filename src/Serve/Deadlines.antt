-- ===== src/Serve/Deadlines.antt =====
-- The deadline of a request, from the caller's wait to the handler's context.
use service_mesh_nats_go.Prelude.{
  ℕ, ◌*◌, ◌/◌, ◌≤◌, ◌≡◌, ◌≢◌, ◌↔◌, ◌∙◌, refl, ap, sym, String, List, ◌∷◌, Option, some, arith,
  eq_iff, eq_refl,
}
use service_mesh_nats_go.Prelude.Int.{ℤ, pos, negsuc, max_i64}
use service_mesh_nats_go.Go.Platform.{Platform}
use service_mesh_nats_go.Go.Time.{add_time}
use service_mesh_nats_go.Go.Decimal.{format_int}
use service_mesh_nats_go.Go.Decimal.RoundTrip.{parse_int-format_int}
use service_mesh_nats_go.Go.Map.{Map, IsMap, entries, get, get-put}
use service_mesh_nats_go.Mesh.{Target, Message, Header, Contract, IsLawful}
use service_mesh_nats_go.Header.{returned, outgoing_header, incoming_metadata}
use service_mesh_nats_go.Client.{Sent, milliseconds, request_message}
use service_mesh_nats_go.Client.Arrives.{
  given_id, added-arrives, others-arrive, message_id-arrives, msg_id-arrives,
}
use service_mesh_nats_go.Serve.{
  Ran, Incoming, Effect, handled, of_milliseconds, request_deadline, with_deadline, serve_endpoint,
}

add_time-injective : (t d e : ℤ) → add_time t d ≡ add_time t e → d ≡ e
add_time-injective (pos t) (pos d) (pos e) h = ground arith
add_time-injective (pos t) (pos d) (negsuc e) h = ground arith
add_time-injective (pos t) (negsuc d) (pos e) h = ground arith
add_time-injective (pos t) (negsuc d) (negsuc e) h = ground arith
add_time-injective (negsuc t) (pos d) (pos e) h = ground arith
add_time-injective (negsuc t) (pos d) (negsuc e) h = ground arith
add_time-injective (negsuc t) (negsuc d) (pos e) h = ground arith
add_time-injective (negsuc t) (negsuc d) (negsuc e) h = ground arith

request_deadline-format_int :
    (ms : ℕ) (arrival : ℤ)
    → ms ≤ max_i64
    → request_deadline (some (format_int (pos ms))) arrival
      ≡ some (add_time arrival (of_milliseconds ms))
unfolding request_deadline
request_deadline-format_int ms arrival h = rw (parse_int-format_int (pos ms) (omega arith)) refl

of_milliseconds-exact :
    (ms : ℕ) → ms ≤ max_i64 → (of_milliseconds ms ≡ pos (ms * 1_000_000)) ↔ (ms ≤ 9_223_372_036_854)
of_milliseconds-exact ms h = (λ e. ground arith, λ l. ground arith)

-- A Mesh-Timeout of a number of milliseconds that an int64 holds is that long after the arrival
-- exactly when it is no more than 9223372036854; a longer one wraps around.
pub request_deadline-exact :
    (ms : ℕ) (arrival : ℤ)
    → ms ≤ max_i64
    → (request_deadline (some (format_int (pos ms))) arrival
        ≡ some (add_time arrival (pos (ms * 1_000_000))))
      ↔ (ms ≤ 9_223_372_036_854)
request_deadline-exact ms arrival h =
    let e = request_deadline-format_int ms arrival h in
    let exactly = of_milliseconds-exact ms h in
    (
      λ f. exactly.0 (add_time-injective arrival _ _ (some-injective (sym e ∙ f))),
      λ l. e ∙ ap (λ d. some (add_time arrival d)) (exactly.1 l),
    )
  where
    some-injective : {a b : ℤ} → some a ≡ some b → a ≡ b
    some-injective p = cc

-- What the handler of a request is given: the request's payload and metadata, and a deadline that
-- is the caller's wait, cut to milliseconds, after the arrival, in its context and in its metadata.
pub record IsGiven (go : Platform) (mesh : Contract) (target : Target) (msg : Message) (wait : ℕ)
    (arrival : ℤ) (d : Option ℤ) (given : Message) : Type 0 where
  pub deadline : d ≡ some (add_time arrival (pos (wait / 1_000_000 * 1_000_000)))
  pub stamped :
      get (entries given.metadata) mesh.deadline_key
      ≡ some (go.format_time (add_time arrival (pos (wait / 1_000_000 * 1_000_000))))
  pub of_target : given.target ≡ target
  pub payload : given.payload ≡ msg.payload
  pub kept :
      (j : String)
      → j ≢ mesh.deadline_key
      → j ≢ mesh.timeout_key
      → j ≢ mesh.message_id_key
      → j ≢ mesh.msg_id_header
      → get (entries given.metadata) j ≡ get (entries msg.metadata) j
  pub timeout :
      mesh.timeout_key ≢ mesh.deadline_key
      → get (entries given.metadata) mesh.timeout_key ≡ some (format_int (pos (wait / 1_000_000)))
  -- the message id, under either of its keys, is there under both
  pub id :
      mesh.message_id_key ≢ mesh.deadline_key
      → mesh.timeout_key ≢ mesh.msg_id_header
      → get (entries given.metadata) mesh.message_id_key ≡ given_id mesh msg
  pub header_id :
      mesh.msg_id_header ≢ mesh.deadline_key
      → mesh.timeout_key ≢ mesh.msg_id_header
      → get (entries given.metadata) mesh.msg_id_header ≡ given_id mesh msg

deadline_of_wait :
    (wait : ℕ) (arrival : ℤ)
    → wait ≤ max_i64
    → request_deadline (some (format_int (milliseconds (pos wait)))) arrival
      ≡ some (add_time arrival (pos (wait / 1_000_000 * 1_000_000)))
unfolding milliseconds
deadline_of_wait wait arrival h =
    (request_deadline-exact (wait / 1_000_000) arrival (omega arith)).1 (omega arith)

with_deadline-kept :
    (go : Platform) (mesh : Contract) (md : Map String) (t : ℤ) (j : String) (w : Option String)
    → j ≢ mesh.deadline_key
    → get md j ≡ w
    → get (with_deadline go mesh md (some t)) j ≡ w
unfolding with_deadline
with_deadline-kept go mesh md t j w n e =
    ground (arith, get-put md mesh.deadline_key j (go.format_time t), eq_iff mesh.deadline_key j)

module _ (mesh : Contract) (law : IsLawful mesh) (msg : Message) (subj : String) (wait : ℕ) where
  module _ (h : Option Header) (out : outgoing_header mesh msg.metadata ≡ returned h)
      (m : IsMap (entries msg.metadata)) where
    abbrev sent_header : Option Header
    sent_header = (request_message mesh subj msg (pos wait) h).header

    abbrev sent_timeout : String
    sent_timeout = format_int (milliseconds (pos wait))

    -- A request that the client sends with some time left, and that serve receives. The handler is
    -- called first, with that time in whole milliseconds after the arrival as its deadline, in the
    -- context and as Mesh-Deadline, and with the request's payload and metadata. The keys of the
    -- specification are taken to differ.
    pub serve_endpoint-IsGiven :
        (go : Platform) (publish : Sent → Option String) (target : Target)
        (handler : Option ℤ → Message → Ran Message) (reply : String) (arrival : ℤ)
        → wait ≤ max_i64
        → mesh.timeout_key ≢ mesh.message_id_key
        → let arrived : Incoming = record {
          header = sent_header;
          payload = msg.payload;
          reply = reply;
        } in
          (d : Option ℤ) × (given : Message) × (rest : List Effect) × (serve_endpoint go mesh
              publish target handler arrived arrival
            ≡ handled d given ∷ rest)
          × IsGiven go mesh target msg wait arrival d given
    unfolding serve_endpoint with_deadline milliseconds request_message
    serve_endpoint-IsGiven go publish target handler reply arrival l n =
        let arrived_timeout = added-arrives mesh law msg h out m mesh.timeout_key sent_timeout n in
        let at =
          ap (λ v. request_deadline v arrival) arrived_timeout ∙ deadline_of_wait wait arrival l in
        let t = add_time arrival (pos (wait / 1_000_000 * 1_000_000)) in
        let md = incoming_metadata mesh sent_header in
        let left : (j : String) (w : Option String)
            → j ≢ mesh.deadline_key
            → get md j ≡ w
            → get (with_deadline go mesh md (request_deadline (get md mesh.timeout_key) arrival)) j
              ≡ w =
          λ j w a e. rw at (with_deadline-kept go mesh md t j w a e) in
        (
          request_deadline (get md mesh.timeout_key) arrival,
          _,
          _,
          refl,
          record {
            deadline = at;
            stamped =
                rw (at, with_deadline)
                  (get-put md mesh.deadline_key mesh.deadline_key (go.format_time t)
                    ∙ rw (eq_refl mesh.deadline_key) refl);
            of_target = refl;
            payload = refl;
            kept = λ j a b c k.
                left j _ a
                  (others-arrive mesh law msg h out m mesh.timeout_key sent_timeout j b c k);
            timeout = λ a. left mesh.timeout_key _ a arrived_timeout;
            id = λ a b.
                left mesh.message_id_key _ a
                  (message_id-arrives mesh law msg h out m mesh.timeout_key sent_timeout n b);
            header_id = λ a b.
                left mesh.msg_id_header _ a
                  (msg_id-arrives mesh law msg h out m mesh.timeout_key sent_timeout b);
          },
        )
