-- ===== src/Exchange/Published.antt =====
-- Publish of nats/client.go and serveJetStream of nats/runtime_jetstream.go together: a message
-- that is published to a stream and delivered to a subscriber.
use service_mesh_nats_go.Prelude.{
  none, ◌⊎◌, ◌<◌, String, ◌≡◌, ◌≢◌, refl, Bool-cases, inl, inr, eq_iff, arith, ◌∙◌, [], ◌∷◌, Option,
  some, ◌==◌,
}
use service_mesh_nats_go.Prelude.Int.{ℤ, two_64}
use service_mesh_nats_go.Go.Platform.{Platform}
use service_mesh_nats_go.Go.Map.{Map, IsMap, entries, get}
use service_mesh_nats_go.Mesh.{Message, Header, Contract, IsLawful}
use service_mesh_nats_go.Errors.{Error, ok}
use service_mesh_nats_go.Header.{returned, outgoing_header, incoming_metadata}
use service_mesh_nats_go.Header.RoundTrip.{outgoing_returns}
use service_mesh_nats_go.Client.Arrives.{
  given_id, added-arrives, others-arrive, message_id-arrives, msg_id-arrives, others-return,
  message_id-returns, msg_id-returns,
}
use service_mesh_nats_go.Client.{
  Client, Sent, header_or_new, Network, Context, prepare_publish, publish_message, publish,
}
use service_mesh_nats_go.Consumer.{JsConsumer}
use service_mesh_nats_go.Receive.Messages.{MsgMetadata, Msg, JsSubscription}
use service_mesh_nats_go.Receive.Handed.{Given, given}
use service_mesh_nats_go.Receive.Details.{own_keys, IsOther}
use service_mesh_nats_go.Receive.Metadata.{IsApart, given-IsHanded}

-- The header of a message that is sent: jetstream.PublishMsg puts the expected stream in it.
abbrev pub stored_header : Contract → Option Header → Option String → Option Header
stored_header mesh h none = h
stored_header mesh h (some s) =
    some (mesh.header_set (header_or_new h) mesh.expected_stream_header s)

-- A delivery of a stored message, with its details. The server keeps the header and the payload.
abbrev pub delivered : Contract → MsgMetadata → Option Error → Option Error → Sent → Msg
delivered mesh meta ack_error nak_error m = record {
  header = stored_header mesh m.header m.expected_stream;
  payload = m.payload;
  metadata = ok meta;
  ack_error = ack_error;
  nak_error = nak_error;
}

-- A key that the transport and the deadline leave to the message.
pub record IsFree (mesh : Contract) (j : String) : Type 0 where
  pub deadline : j ≢ mesh.deadline_key
  pub attempt : j ≢ mesh.delivery_attempt_key
  pub own : IsOther own_keys j

-- What a subscriber's handler sees of a message that is published, to a stream where one is named.
pub record IsPublished (mesh : Contract) (b : JsSubscription) (msg : Message) (stream : String)
    (g : Given) : Type 0 where
  pub target : g.message.target ≡ b.target
  pub payload : g.message.payload ≡ msg.payload
  -- the message id, under either of its keys, is there under both
  pub id :
      IsFree mesh mesh.message_id_key
      → get (entries g.message.metadata) mesh.message_id_key ≡ given_id mesh msg
  pub header_id :
      IsFree mesh mesh.msg_id_header
      → get (entries g.message.metadata) mesh.msg_id_header ≡ given_id mesh msg
  pub expected :
      stream ≢ ""
      → IsFree mesh mesh.expected_stream_header
      → get (entries g.message.metadata) mesh.expected_stream_header ≡ some stream
  pub metadata :
      (j : String)
      → IsFree mesh j
      → j ≢ mesh.message_id_key
      → j ≢ mesh.msg_id_header
      → (stream ≡ "") ⊎ (j ≢ mesh.expected_stream_header)
      → get (entries g.message.metadata) j ≡ get (entries msg.metadata) j

-- What arrives of a message, before the transport's keys are added.
record Stored (mesh : Contract) (msg : Message) (stream : String) (md : Map String) : Type 0 where
  pub id : get md mesh.message_id_key ≡ given_id mesh msg
  pub header_id : get md mesh.msg_id_header ≡ given_id mesh msg
  pub expected : stream ≢ "" → get md mesh.expected_stream_header ≡ some stream
  pub metadata :
      (j : String)
      → j ≢ mesh.message_id_key
      → j ≢ mesh.msg_id_header
      → (stream ≡ "") ⊎ (j ≢ mesh.expected_stream_header)
      → get md j ≡ get (entries msg.metadata) j

module _ (mesh : Contract) (law : IsLawful mesh) (msg : Message) (h : Option Header)
    (out : outgoing_header mesh msg.metadata ≡ returned h) (im : IsMap (entries msg.metadata))
    (n : mesh.expected_stream_header ≢ mesh.message_id_key)
    (o : mesh.expected_stream_header ≢ mesh.msg_id_header) where
  Stored-to_stream :
      (stream : String)
      → stream ≢ ""
      → Stored mesh msg stream (incoming_metadata mesh (stored_header mesh h (some stream)))
  Stored-to_stream stream named =
      let k = mesh.expected_stream_header in
      record {
        id = message_id-arrives mesh law msg h out im k stream n o;
        header_id = msg_id-arrives mesh law msg h out im k stream o;
        expected = λ _. added-arrives mesh law msg h out im k stream n;
        metadata =
            λ j i l either. others-arrive mesh law msg h out im k stream j (apart j either) i l;
      }
    where
      apart :
          (j : String)
          → (stream ≡ "") ⊎ (j ≢ mesh.expected_stream_header)
          → j ≢ mesh.expected_stream_header
      apart j (inl e) = absurd (named e)
      apart j (inr d) = d

  Stored-to_subject :
      (stream : String)
      → stream ≡ ""
      → Stored mesh msg stream (incoming_metadata mesh (stored_header mesh h none))
  Stored-to_subject stream e = record {
    id = message_id-returns mesh law msg h out im;
    header_id = msg_id-returns mesh law msg h out im;
    expected = λ named. absurd (named e);
    metadata = λ j i l either. others-return mesh law msg h out im j i l;
  }

  Stored-publish_message :
      (subj stream : String)
      → let m = publish_message subj msg stream h in
        Stored mesh msg stream (incoming_metadata mesh (stored_header mesh h m.expected_stream))
  unfolding publish_message
  Stored-publish_message subj stream = elim (Bool-cases (stream == "")) [
    | inl e ↦ rw e (Stored-to_subject stream ((eq_iff stream "").0 e))
    | inr e ↦ rw e (Stored-to_stream stream (λ z. ground (arith, eq_iff stream "")))
  ]

module _ (go : Platform) (mesh : Contract) (b : JsSubscription) (k : JsConsumer)
    (meta : MsgMetadata) (ack_error nak_error : Option Error) (arrival now : ℤ) where
  -- A message that passes the checks of Publish is sent once, and every delivery of it to a
  -- JetStream subscriber hands its payload and its metadata to the handler: the message id, given
  -- under either of its keys, under both; Nats-Expected-Stream with the stream, where it is
  -- published to one; and every other key as it was, but those that the transport or the deadline
  -- takes. The keys of mesh are taken to differ from those of the transport, Nats-Expected-Stream
  -- from the two keys of the message id, and the delivery count is one that a uint64 holds.
  pub publish-IsPublished :
      (client : Platform) (net : Network) (c : Client) (ctx : Context) (at later : ℤ)
      (msg : Message) (opts : Map String) (subj stream : String) (timeout : ℤ)
      → IsLawful mesh
      → IsApart mesh
      → mesh.expected_stream_header ≢ mesh.message_id_key
      → mesh.expected_stream_header ≢ mesh.msg_id_header
      → IsMap (entries msg.metadata)
      → meta.num_delivered < two_64
      → prepare_publish client c ctx msg opts ≡ ok (subj, stream, timeout)
      → (m : Sent) × (g : Given) × ((publish client mesh net c ctx at later msg opts).sent ≡ m ∷ [])
        × (given go mesh b k (delivered mesh meta ack_error nak_error m) arrival now ≡ some g)
        × IsPublished mesh b msg stream g
  unfolding publish publish_message
  publish-IsPublished client net c ctx at later msg opts subj stream timeout law apart n o im l p =
      let (h, out, _) = outgoing_returns mesh law msg.metadata im in
      let m = publish_message subj msg stream h in
      let stored = Stored-publish_message mesh law msg h out im n o subj stream in
      let (g, eg, handed) =
        given-IsHanded go mesh b k (delivered mesh meta ack_error nak_error m) arrival now meta refl
          apart l in
      let kept =
        λ (j : String) (f : IsFree mesh j). handed.details.kept j f.deadline f.attempt f.own in
      (
        m,
        g,
        rw (p, publish) (rw out refl),
        eg,
        record {
          target = handed.target;
          payload = handed.payload;
          id = λ f. kept mesh.message_id_key f ∙ stored.id;
          header_id = λ f. kept mesh.msg_id_header f ∙ stored.header_id;
          expected = λ s f. kept mesh.expected_stream_header f ∙ stored.expected s;
          metadata = λ j f i q either. kept j f ∙ stored.metadata j i q either;
        },
      )
