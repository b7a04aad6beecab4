-- ===== src/Tests/Receiving.antt =====
-- JetStream messages on their way to a handler, and pending deliveries.
use service_mesh_nats_go.Prelude.{
  ℕ, String, ◌==◌, eq_iff, ◌≢◌, ◌<◌, ◌≡◌, refl, true, false, [], ◌∷◌, none, some, eqb,
  if◌then◌else◌, arith,
}
use mathlib.Core.Path.{subst}
use service_mesh_nats_go.Prelude.Int.{pos, two_64}
use service_mesh_nats_go.Go.Text.{is_space, is_print, join}
use service_mesh_nats_go.Go.Map.{get, put}
use service_mesh_nats_go.Target.{check_kind, subject, check_segments, merge_settings}
use service_mesh_nats_go.Config.{duration_setting, text_of}
use service_mesh_nats_go.Go.Duration.{exact}
use service_mesh_nats_go.Errors.{ok, ok-injective, sentinel, no_responders}
use service_mesh_nats_go.Serve.{error}
use service_mesh_nats_go.Delivery.{
  DeliveryState, waiting, running, settled, serving, idle, Delivery, Steps,
}
use service_mesh_nats_go.Receive.Messages.{MsgMetadata, Msg, JsSubscription}
use service_mesh_nats_go.Receive.Handed.{Given, given}
use service_mesh_nats_go.Receive.Served.{Served, serve_jetstream}
use service_mesh_nats_go.Receive.Metadata.{IsApart}
use service_mesh_nats_go.Receive.Sequence.{meanwhile, IsLeft}
use service_mesh_nats_go.Receive.Returned.{serve_jetstream-refines}
use service_mesh_nats_go.Receive.Pending.{Held, Deliveries, abandon_pending, sent_for}
use service_mesh_nats_go.Receive.Pending.Abandoned.{IsAbandoned, abandon_pending-IsAbandoned}
use service_mesh_nats_go.Tests.Fixtures.{
  contract, contract-IsLawful, order_created, created_message, open_client, background,
}
use service_mesh_nats_go.Client.{
  Sent, Network, answered, failed, check_open, prepare_publish, publish,
}
use service_mesh_nats_go.Exchange.Published.{delivered, IsPublished, publish-IsPublished}
use service_mesh_nats_go.Tests.Consumers.{settings, opened}

abbrev billing : JsSubscription
billing = record {
  subject = "orders.created";
  target = order_created;
  handler = λ d m. error "no stock";
  js = settings;
}

-- The second delivery of a message.
abbrev details : MsgMetadata
details = record {
  num_delivered = 2;
  stream = "ORDERS";
  consumer = "billing";
  stream_sequence = 7;
  consumer_sequence = 9;
  num_pending = 0;
  timestamp = pos 50;
}

abbrev message : Msg
message = record {
  header = some (("Mesh-Message-Id", "m-1" ∷ []) ∷ []);
  payload = 7 ∷ [];
  metadata = ok details;
  ack_error = none;
  nak_error = none;
}

abbrev waits : Delivery
waits = record { state = waiting; tracked = true; callback = serving; stopper = idle; replies = [] }

serve_jetstream-refines_example :
    (out : Served) × (serve_jetstream exact contract billing opened
        (pos 30)
        message
        (pos 100)
        (pos 200)
        (meanwhile false)
        waiting
      ≡ some out)
    × ((e : Delivery) × Steps waits e × IsLeft waits out e)
serve_jetstream-refines_example =
    serve_jetstream-refines exact contract billing opened (pos 30) message (pos 100) (pos 200) false
      waits refl (λ meta e. subst (λ x. x.num_delivered < two_64) (ok-injective e) (omega arith))
      refl (λ e. cc)

differ : {a b : String} → (a == b) ≡ false → a ≢ b
differ {a} {b} e h = cc (e, (eq_iff a b).1 h)

contract-IsApart : IsApart contract
contract-IsApart = record {
  attempt =
      (differ refl, (differ refl, (differ refl, (differ refl, (differ refl, (differ refl, tt))))));
  deadline_own =
      (differ refl, (differ refl, (differ refl, (differ refl, (differ refl, (differ refl, tt))))));
  deadline_attempt = differ refl;
}

abbrev held : DeliveryState → Held
held s = record { sub = billing; msg = message; state = s }

abbrev state_of : ℕ → DeliveryState
state_of d = if eqb d 0 then waiting else if eqb d 1 then running else settled

-- One waits, one runs, and one is settled and about to be untracked.
abbrev three : Deliveries
three = record { held = λ d. held (state_of d); pending = 0 ∷ 1 ∷ 2 ∷ [] }

abandon_pending-IsAbandoned_example :
    IsAbandoned three 1 true
      (abandon_pending contract three).0
      (sent_for 1 (abandon_pending contract three).1)
abandon_pending-IsAbandoned_example = abandon_pending-IsAbandoned contract three 1

-- A server that stores every message.
abbrev server : Network
server = record {
  request = λ b m. failed (record { error = sentinel no_responders; cause = none });
  publish = λ m. none;
  jetstream_publish = λ b m. answered tt;
}

checked :
    prepare_publish exact open_client background created_message []
    ≡ ok ("orders.created", "ORDERS", pos 5_000_000_000)
unfolding prepare_publish check_kind subject check_segments is_space is_print text_of get
    merge_settings put duration_setting check_open join
checked = refl

publish-IsPublished_example :
    (m : Sent) × (g : Given) × ((publish exact contract server open_client background
        (pos 90)
        (pos 91)
        created_message
        []).sent
      ≡ m ∷ [])
    × (given exact contract billing opened
          (delivered contract details none none m)
          (pos 100)
          (pos 200)
        ≡ some g)
    × IsPublished contract billing created_message "ORDERS" g
unfolding get
publish-IsPublished_example =
    publish-IsPublished exact contract billing opened details none none (pos 100) (pos 200) exact
      server open_client background (pos 90) (pos 91) created_message [] "orders.created" "ORDERS"
      (pos 5_000_000_000) contract-IsLawful contract-IsApart (λ e. cc) (λ e. cc) (refl, (refl, tt))
      (omega arith) checked
