-- ===== src/Receive/Returned.antt =====
-- How serveJetStream of nats/runtime_jetstream.go comes to an end.
use service_mesh_nats_go.Prelude.{
  ◌<◌, ◌≡◌, refl, ap, ◌∙◌, Bool, true, false, Option, some, if◌then◌else◌,
}
use service_mesh_nats_go.Prelude.Int.{ℤ, two_64}
use service_mesh_nats_go.Go.Platform.{Platform}
use service_mesh_nats_go.Mesh.{Contract}
use service_mesh_nats_go.Errors.{Error, Result, ok, err}
use service_mesh_nats_go.Header.{incoming_metadata}
use service_mesh_nats_go.Consumer.{JsConsumer}
use service_mesh_nats_go.Consumer.Deadlines.{deadline-total}
use service_mesh_nats_go.Delivery.{DeliveryState, begin, serving, taken, Delivery, Steps}
use service_mesh_nats_go.Receive.Messages.{MsgMetadata, Msg, JsSubscription, delivery_metadata}
use service_mesh_nats_go.Receive.Handed.{Given, given_acking, given_ok, given}
use service_mesh_nats_go.Receive.Metadata.{given-meta}
use service_mesh_nats_go.Receive.Served.{
  Served, serve_given, serve_handed, serve_begun, serve_jetstream,
}
use service_mesh_nats_go.Receive.Sequence.{meanwhile, IsLeft}
use service_mesh_nats_go.Receive.Settled.{serve_jetstream-begin, serve_jetstream-IsLeft}

-- A message without metadata.
given-without :
    (go : Platform) (mesh : Contract) (b : JsSubscription) (c : JsConsumer) (m : Msg)
    (arrival now : ℤ) (fault : Error)
    → m.metadata ≡ err fault
    → (g : Given) × (given go mesh b c m arrival now ≡ some g)
unfolding given
given-without go mesh b c m arrival now fault e = rw (e, given) (_, refl)

module _ (go : Platform) (mesh : Contract) (b : JsSubscription) (c : JsConsumer) (timeout : ℤ)
    (m : Msg) (arrival now : ℤ) where
  given_ok-total :
      (meta : MsgMetadata)
      → meta.num_delivered < two_64
      → (g : Given) × (given_ok go mesh b c m arrival now meta
            (delivery_metadata go mesh (incoming_metadata mesh m.header) meta)
          ≡ some g)
  given_ok-total meta l =
      let md = delivery_metadata go mesh (incoming_metadata mesh m.header) meta in
      let (t, e) = deadline-total c arrival meta.num_delivered l in
      by_acks c.acks (_, ap (given_acking go mesh b c m now meta md) e) (_, refl)
    where
      by_acks :
          (acks : Bool) {x y : Option Given}
          → ((g : Given) × (x ≡ some g))
          → ((g : Given) × (y ≡ some g))
          → (g : Given) × ((if acks then x else y) ≡ some g)
      by_acks true e f = e
      by_acks false e f = f

  given-total :
      ((meta : MsgMetadata) → m.metadata ≡ ok meta → meta.num_delivered < two_64)
      → (g : Given) × (given go mesh b c m arrival now ≡ some g)
  given-total l = by_metadata m.metadata refl
    where
      by_metadata :
          (r : Result MsgMetadata)
          → m.metadata ≡ r
          → (g : Given) × (given go mesh b c m arrival now ≡ some g)
      by_metadata (ok meta) e =
          let (g, eg) = given_ok-total meta (l meta e) in
          (g, given-meta go mesh b c m arrival now meta e ∙ eg)
      by_metadata (err fault) e = given-without go mesh b c m arrival now fault e

  serve_jetstream-total :
      (mw : DeliveryState → DeliveryState) (s : DeliveryState)
      → c.acks ≡ true
      → ((meta : MsgMetadata) → m.metadata ≡ ok meta → meta.num_delivered < two_64)
      → (out : Served) × (serve_jetstream go mesh b c timeout m arrival now mw s ≡ some out)
  serve_jetstream-total mw s a l =
      let (g, eg) = given-total l in
      let (out, e) = begun (begin s) g eg in
      (out, serve_jetstream-begin go mesh b c timeout m arrival now mw s a ∙ e)
    where
      begun :
          (p : DeliveryState × Bool) (g : Given)
          → given go mesh b c m arrival now ≡ some g
          → (out : Served) × (serve_begun go mesh b c timeout m arrival now mw p ≡ some out)
      begun (s', false) g e = (_, refl)
      begun (s', true) g e =
          (serve_given mesh b timeout m mw s' g, ap (serve_handed mesh b timeout m mw s') e)

  -- serveJetStream on a delivery of an acking consumer comes to an end, and refines the steps of
  -- the delivery: there is a path of steps from the delivery, with Stop's settling as one of them
  -- if that happens while the handler runs, to one whose callback is through, with the state that
  -- serveJetStream leaves, with the replies that it sent added, and tracked unless it untracked it.
  -- The message's delivery count is one that a uint64 holds.
  pub serve_jetstream-refines :
      (by_stop : Bool) (d : Delivery)
      → c.acks ≡ true
      → ((meta : MsgMetadata) → m.metadata ≡ ok meta → meta.num_delivered < two_64)
      → d.callback ≡ serving
      → (by_stop ≡ true → d.stopper ≡ taken)
      → (out : Served) × (serve_jetstream go mesh b c timeout m arrival now
            (meanwhile by_stop)
            d.state
          ≡ some out)
        × ((e : Delivery) × Steps d e × IsLeft d out e)
  serve_jetstream-refines by_stop d a l k t =
      let (out, e) = serve_jetstream-total (meanwhile by_stop) d.state a l in
      (out, e, serve_jetstream-IsLeft go mesh b c timeout m arrival now by_stop d out a k t e)
