-- ===== src/Receive/Metadata.antt =====
-- What the handler of a JetStream message is given.
use service_mesh_nats_go.Prelude.{
  ◌<◌, String, Bool, true, false, ◌≡◌, ◌≢◌, refl, sym, ap, ◌∙◌, inl, inr, [], Option, Bool-cases,
  none, some, arith, eq_iff, eq_refl, if◌then◌else◌,
}
use service_mesh_nats_go.Prelude.Int.{ℤ, two_64}
use service_mesh_nats_go.Go.Platform.{Platform}
use service_mesh_nats_go.Go.Map.{Map, entries, get, put, get-put}
use service_mesh_nats_go.Mesh.{Contract}
use service_mesh_nats_go.Errors.{ok}
use service_mesh_nats_go.Header.{incoming_metadata}
use service_mesh_nats_go.Consumer.{JsConsumer, deadline}
use service_mesh_nats_go.Consumer.Deadlines.{deadline-total}
use service_mesh_nats_go.Receive.Messages.{
  MsgMetadata, Msg, JsSubscription, delivery_metadata, stream_metadata_key, consumer_metadata_key,
  stream_sequence_metadata_key, consumer_sequence_metadata_key, num_pending_metadata_key,
  timestamp_metadata_key,
}
use service_mesh_nats_go.Receive.Handed.{
  Given, given, given_deadline, given_acking, given_ok, message_of,
}
use service_mesh_nats_go.Receive.Details.{
  own_keys, IsOther, HasDetails, delivery_metadata-HasDetails,
}

-- The keys of mesh are not those of the transport, and differ.
pub record IsApart (mesh : Contract) : Type 0 where
  pub attempt : IsOther own_keys mesh.delivery_attempt_key
  pub deadline_own : IsOther own_keys mesh.deadline_key
  pub deadline_attempt : mesh.deadline_key ≢ mesh.delivery_attempt_key

get-put_other :
    (m : Map String) (k j v : String) (w : Option String)
    → k ≢ j
    → get m j ≡ w
    → get (put m k v) j ≡ w
get-put_other m k j v w n e = ground (arith, get-put m k j v, eq_iff k j)

HasDetails-put :
    (go : Platform) (mesh : Contract) (meta : MsgMetadata) (before after : Map String) (v : String)
    → IsApart mesh
    → HasDetails go mesh meta before after
    → HasDetails go mesh meta before (put after mesh.deadline_key v)
HasDetails-put go mesh meta before after v a h =
    let k = mesh.deadline_key in
    let (o1, o2, o3, o4, o5, o6, _) = own a.deadline_own in
    record {
      attempt = get-put_other after k mesh.delivery_attempt_key v _ a.deadline_attempt h.attempt;
      stream = get-put_other after k stream_metadata_key v _ o1 h.stream;
      consumer = get-put_other after k consumer_metadata_key v _ o2 h.consumer;
      stream_sequence = get-put_other after k stream_sequence_metadata_key v _ o3 h.stream_sequence;
      consumer_sequence =
          get-put_other after k consumer_sequence_metadata_key v _ o4 h.consumer_sequence;
      num_pending = get-put_other after k num_pending_metadata_key v _ o5 h.num_pending;
      timestamp = get-put_other after k timestamp_metadata_key v _ o6 h.timestamp;
      kept = λ j d n o. get-put_other after k j v _ (λ e. d (sym e)) (h.kept j d n o);
    }
  where
    own :
        IsOther own_keys mesh.deadline_key
        → (mesh.deadline_key ≢ stream_metadata_key)
          × (mesh.deadline_key ≢ consumer_metadata_key)
          × (mesh.deadline_key ≢ stream_sequence_metadata_key)
          × (mesh.deadline_key ≢ consumer_sequence_metadata_key)
          × (mesh.deadline_key ≢ num_pending_metadata_key)
          × (mesh.deadline_key ≢ timestamp_metadata_key)
          × Unit {0}
    own o = (o.0, o.1.0, o.1.1.0, o.1.1.1.0, o.1.1.1.1.0, o.1.1.1.1.1.0, tt)

-- What the handler of a message with JetStream metadata is given.
pub record IsHanded (go : Platform) (mesh : Contract) (b : JsSubscription) (c : JsConsumer)
    (m : Msg) (arrival : ℤ) (meta : MsgMetadata) (g : Given) : Type 0 where
  pub target : g.message.target ≡ b.target
  pub payload : g.message.payload ≡ m.payload
  pub details :
      HasDetails go mesh meta (incoming_metadata mesh m.header) (entries g.message.metadata)
  pub acking :
      c.acks ≡ true
      → (t : ℤ) × (deadline c arrival meta.num_delivered ≡ some t)
        × (g.deadline ≡ some t)
        × (get (entries g.message.metadata) mesh.deadline_key ≡ some (go.format_time t))
  pub plain : c.acks ≡ false → g.deadline ≡ none

module _ (go : Platform) (mesh : Contract) (b : JsSubscription) (c : JsConsumer) (m : Msg)
    (arrival now : ℤ) (meta : MsgMetadata) where
  abbrev detailed : Map String
  detailed = delivery_metadata go mesh (incoming_metadata mesh m.header) meta

  pub given-meta :
      m.metadata ≡ ok meta
      → given go mesh b c m arrival now ≡ given_ok go mesh b c m arrival now meta detailed
  unfolding given
  given-meta e = rw (e, given) refl

  deadline-IsHanded :
      (t : ℤ)
      → IsApart mesh
      → c.acks ≡ true
      → deadline c arrival meta.num_delivered ≡ some t
      → IsHanded go mesh b c m arrival meta (given_deadline go mesh b c m now meta detailed t)
  deadline-IsHanded t a k e = record {
    target = refl;
    payload = refl;
    details =
        HasDetails-put go mesh meta (incoming_metadata mesh m.header) detailed (go.format_time t) a
          (delivery_metadata-HasDetails go mesh (incoming_metadata mesh m.header) meta a.attempt);
    acking = λ x. (
      t,
      e,
      refl,
      get-put detailed mesh.deadline_key mesh.deadline_key (go.format_time t)
          ∙ rw (eq_refl mesh.deadline_key) refl,
    );
    plain = λ x. cc (k, x);
  }

  pub given-IsHanded :
      m.metadata ≡ ok meta
      → IsApart mesh
      → meta.num_delivered < two_64
      → (g : Given) × (given go mesh b c m arrival now ≡ some g)
        × IsHanded go mesh b c m arrival meta g
  given-IsHanded e a l = elim (Bool-cases c.acks) [
    | inl k ↦
        let (t, et) = deadline-total c arrival meta.num_delivered l in
        (
          given_deadline go mesh b c m now meta detailed t,
          given-meta e ∙ acking_path k ∙ ap (given_acking go mesh b c m now meta detailed) et,
          deadline-IsHanded t a k et,
        )
    | inr k ↦ (
      plain_given,
      given-meta e ∙ plain_path k,
      record {
        target = refl;
        payload = refl;
        details =
            delivery_metadata-HasDetails go mesh (incoming_metadata mesh m.header) meta a.attempt;
        acking = λ x. cc (k, x);
        plain = λ x. refl;
      },
    )
  ]
    where
      plain_given : Given
      plain_given = record {
        message = message_of b m detailed;
        deadline = none;
        meta = some meta;
        consumer = c;
        logs = [];
      }

      acks_then : Bool → Option Given
      acks_then k =
          if k
          then given_acking go mesh b c m now meta detailed (deadline c arrival meta.num_delivered)
          else some plain_given

      acking_path :
          c.acks ≡ true
          → given_ok go mesh b c m arrival now meta detailed
            ≡ given_acking go mesh b c m now meta detailed (deadline c arrival meta.num_delivered)
      acking_path k = ap acks_then k

      plain_path :
          c.acks ≡ false → given_ok go mesh b c m arrival now meta detailed ≡ some plain_given
      plain_path k = ap acks_then k
