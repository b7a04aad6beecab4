-- ===== src/Tests/Serving.antt =====
-- A request that is served, and its reply.
use service_mesh_nats_go.Prelude.{
  ap, ◌≡◌, ◌↔◌, ◌≤◌, ◌*◌, refl, String, [], ◌∷◌, Option, none, some, arith,
}
use service_mesh_nats_go.Prelude.Int.{ℤ, pos}
use service_mesh_nats_go.Go.Duration.{exact}
use service_mesh_nats_go.Go.Decimal.{format_int}
use service_mesh_nats_go.Go.Time.{add_time}
use service_mesh_nats_go.Go.Text.{is_space, is_print, join}
use service_mesh_nats_go.Go.Map.{get}
use service_mesh_nats_go.Target.{check_kind, subject, check_segments, merge_settings}
use service_mesh_nats_go.Config.{duration_setting, text_of}
use service_mesh_nats_go.Mesh.{Message}
use service_mesh_nats_go.Client.{
  Sent, Reply, Answer, answered, failed, Network, check_open, bound_context, prepare_request,
  request,
}
use service_mesh_nats_go.Serve.{
  Ran, value, call_endpoint, panics, Handler, endpoint, Incoming, request_deadline, serve_endpoint,
  serve,
}
use service_mesh_nats_go.Serve.Deadlines.{request_deadline-exact, IsGiven}
use service_mesh_nats_go.Exchange.{first_reply, incoming, IsReturned, request-Conveys}
use service_mesh_nats_go.Errors.{ok, sentinel, no_responders}
use service_mesh_nats_go.Serve.Replies.{
  IsSendable, received, calls, replies, replies_due, serve-replies_due,
}
use service_mesh_nats_go.Tests.Fixtures.{
  contract, contract-IsLawful, create_order, create_message, open_client, background,
}

-- The longest timeout that does not wrap around.
request_deadline-exact_example :
    (request_deadline (some (format_int (pos 9_223_372_036_854))) (pos 5)
      ≡ some (add_time (pos 5) (pos (9_223_372_036_854 * 1_000_000))))
    ↔ (9_223_372_036_854 ≤ 9_223_372_036_854)
request_deadline-exact_example = request_deadline-exact 9_223_372_036_854 (pos 5) (omega arith)

-- A server that takes every reply.
abbrev take_reply : Sent → Option String
take_reply m = none

abbrev arrived : Incoming
arrived = record {
  header = some (("Mesh-Timeout", "1500" ∷ []) ∷ []);
  payload = create_message.payload;
  reply = "_INBOX.1";
}

abbrev crash : Handler
crash = endpoint (λ d m. panics "nil map")

serve-replies_due_example :
    (calls (serve exact contract take_reply create_order crash arrived (pos 100)) ≡ 1)
    × (replies (serve exact contract take_reply create_order crash arrived (pos 100))
        ≡ replies_due crash "_INBOX.1")
serve-replies_due_example =
    serve-replies_due exact contract take_reply create_order crash arrived (pos 100)

-- A handler that confirms every order.
abbrev confirmation : Message
confirmation = record {
  target = create_order;
  metadata = some (("tenant", "acme") ∷ []);
  payload = 1 ∷ [];
}

abbrev confirm : Option ℤ → Message → Ran Message
confirm d m = value confirmation

abbrev by_reply : Option Sent → Answer Reply
by_reply (some r) = answered (received r)
by_reply none = failed (record { error = sentinel no_responders; cause = none })

-- The network to an endpoint with this handler.
abbrev to_endpoint : Network
to_endpoint = record {
  request = λ b m. by_reply (
      first_reply (
        serve_endpoint exact contract take_reply create_order confirm (incoming "_INBOX.1" m)
          (pos 100)));
  publish = λ m. none;
  jetstream_publish = λ b m. answered tt;
}

checked :
    prepare_request exact open_client create_message [] ≡ ok ("orders.create", pos 5_000_000_000)
unfolding prepare_request check_kind subject check_segments is_space is_print text_of get
    merge_settings duration_setting check_open join
checked = refl

confirm-IsSendable :
    (d : Option ℤ) (m : Message) → IsSendable contract (call_endpoint (confirm d m))
unfolding call_endpoint get
confirm-IsSendable d m = ((refl, tt), refl)

request-Conveys_example :
    (d : Option ℤ) × (given : Message) × IsGiven exact contract create_order create_message
      5_000_000_000
      (pos 100)
      d
      given
    × IsReturned create_message
        (call_endpoint (confirm d given))
        (bound_context none (pos 5_000_000_000) (pos 90) (pos 91))
        (pos 110)
        (request exact contract to_endpoint open_client background
          (pos 90)
          (pos 91)
          create_message
          []).outcome
unfolding get bound_context
request-Conveys_example =
    request-Conveys exact contract to_endpoint take_reply create_order confirm "_INBOX.1" (pos 100)
      (pos 110) exact open_client background (pos 90) (pos 91) create_message [] "orders.create"
      (pos 5_000_000_000) 5_000_000_000 contract-IsLawful (refl, (refl, tt)) checked refl
      (omega arith) (λ e. cc) (λ e. cc) confirm-IsSendable
      (λ m r e. (λ t. ap by_reply e, λ t b. absurd (omega (arith, t))))
