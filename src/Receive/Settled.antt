-- ===== src/Receive/Settled.antt =====
-- serveJetStream of nats/runtime_jetstream.go against the steps of a delivery.
use service_mesh_nats_go.Prelude.{
  some-injective, Bool, true, false, ◌≡◌, refl, sym, ap, ◌∙◌, Option, none, some, if◌then◌else◌,
}
use mathlib.Core.Path.{subst}
use service_mesh_nats_go.Prelude.Int.{ℤ}
use service_mesh_nats_go.Go.Platform.{Platform}
use service_mesh_nats_go.Mesh.{Contract}
use service_mesh_nats_go.Consumer.{JsConsumer}
use service_mesh_nats_go.Delivery.{
  DeliveryState, waiting, running, settled, begin, serving, handling, closed, taken, Delivery,
  begin_true, begin_false, Steps, here, next,
}
use service_mesh_nats_go.Receive.Messages.{Msg, JsSubscription}
use service_mesh_nats_go.Receive.Handed.{Given, given}
use service_mesh_nats_go.Receive.Served.{
  Served, serve_given, serve_handed, serve_begun, serve_jetstream,
}
use service_mesh_nats_go.Receive.Effects.{given-acks}
use service_mesh_nats_go.Receive.Sequence.{
  meanwhile, IsLeft, serve_given-alone, serve_given-stopped,
}

Steps-append : {d e f : Delivery} → Steps d e → Steps e f → Steps d f
Steps-append s here = s
Steps-append s (next t u) = next (Steps-append s t) u

IsLeft-begun :
    (d e : Delivery) (out : Served)
    → IsLeft (record d { state = running; callback = handling }) out e
    → IsLeft d out e
IsLeft-begun d e out l = record {
  callback = l.callback;
  state = l.state;
  replies = l.replies;
  tracked = l.tracked;
}

module _ (go : Platform) (mesh : Contract) (b : JsSubscription) (c : JsConsumer) (timeout : ℤ)
    (m : Msg) (arrival now : ℤ) where
  pub serve_jetstream-begin :
      (mw : DeliveryState → DeliveryState) (s : DeliveryState)
      → c.acks ≡ true
      → serve_jetstream go mesh b c timeout m arrival now mw s
        ≡ serve_begun go mesh b c timeout m arrival now mw (begin s)
  unfolding serve_jetstream
  serve_jetstream-begin mw s a =
      ap
        (λ (acks : Bool).
          serve_begun go mesh b c timeout m arrival now mw (if acks then begin s else (s, true)))
        a

  serve_handed-some :
      (mw : DeliveryState → DeliveryState) (s : DeliveryState) (o : Option Given) (out : Served)
      → serve_handed mesh b timeout m mw s o ≡ some out
      → (g : Given) × (o ≡ some g) × (serve_given mesh b timeout m mw s g ≡ out)
  serve_handed-some mw s none out h = cc
  serve_handed-some mw s (some g) out h = (g, refl, cc h)

  -- From a delivery whose handler may begin.
  begun-IsLeft :
      (by_stop : Bool) (d : Delivery) (out : Served)
      → c.acks ≡ true
      → d.callback ≡ handling
      → d.state ≡ running
      → (by_stop ≡ true → d.stopper ≡ taken)
      → serve_handed mesh b timeout m (meanwhile by_stop) running (given go mesh b c m arrival now)
        ≡ some out
      → (e : Delivery) × Steps d e × IsLeft d out e
  begun-IsLeft by_stop d out a k s t h =
      let (g, eg, eo) = serve_handed-some (meanwhile by_stop) running _ out h in
      let acks = given-acks go mesh b c m arrival now g eg ∙ a in
      let path : (e : Delivery) × Steps d e
          × IsLeft d (serve_given mesh b timeout m (meanwhile by_stop) running g) e =
        by_bool by_stop g acks t in
      (path.0, path.1, subst (λ x. IsLeft d x path.0) eo path.2)
    where
      by_bool :
          (by_stop : Bool) (g : Given)
          → g.consumer.acks ≡ true
          → (by_stop ≡ true → d.stopper ≡ taken)
          → (e : Delivery) × Steps d e
            × IsLeft d (serve_given mesh b timeout m (meanwhile by_stop) running g) e
      by_bool false g acks t = serve_given-alone mesh b timeout m g d acks k s
      by_bool true g acks t = serve_given-stopped mesh b timeout m g d acks k s (t refl)

  -- From a delivery that may begin.
  unsettled-IsLeft :
      (by_stop : Bool) (d : Delivery) (out : Served)
      → c.acks ≡ true
      → d.callback ≡ serving
      → begin d.state ≡ (running, true)
      → (by_stop ≡ true → d.stopper ≡ taken)
      → serve_handed mesh b timeout m (meanwhile by_stop) running (given go mesh b c m arrival now)
        ≡ some out
      → (e : Delivery) × Steps d e × IsLeft d out e
  unsettled-IsLeft by_stop d out a k e t h =
      let d' : Delivery = record d { state = running; callback = handling } in
      let step = begin_true k (ap (λ (p : DeliveryState × Bool). p.1) e) (
        ap (λ (p : DeliveryState × Bool). record d { state = p.0; callback = handling }) (sym e)) in
      let (f, path, left) = begun-IsLeft by_stop d' out a refl refl t h in
      (f, Steps-append (next here step) path, IsLeft-begun d f out left)

  serve_begun-IsLeft :
      (by_stop : Bool) (d : Delivery) (s : DeliveryState) (out : Served)
      → c.acks ≡ true
      → d.callback ≡ serving
      → d.state ≡ s
      → (by_stop ≡ true → d.stopper ≡ taken)
      → serve_begun go mesh b c timeout m arrival now (meanwhile by_stop) (begin s) ≡ some out
      → (e : Delivery) × Steps d e × IsLeft d out e
  unfolding begin
  serve_begun-IsLeft by_stop d settled out a k e t h = (
    record d { callback = closed },
    next here (begin_false k (ap (λ x. (begin x).1) e) refl),
    subst (λ x. IsLeft d x (record d { callback = closed })) (some-injective h)
        (record { callback = refl; state = e; replies = refl; tracked = refl }),
  )
  serve_begun-IsLeft by_stop d waiting out a k e t h =
      unsettled-IsLeft by_stop d out a k (ap begin e) t h
  serve_begun-IsLeft by_stop d running out a k e t h =
      unsettled-IsLeft by_stop d out a k (ap begin e) t h

  -- serveJetStream on a delivery of an acking consumer refines the steps of the delivery. There is
  -- a path of steps from the delivery, with Stop's settling as one of them if that happens while
  -- the handler runs, to one whose callback is through, with the state that serveJetStream leaves,
  -- with the replies that it sent added, and tracked unless it untracked it.
  pub serve_jetstream-IsLeft :
      (by_stop : Bool) (d : Delivery) (out : Served)
      → c.acks ≡ true
      → d.callback ≡ serving
      → (by_stop ≡ true → d.stopper ≡ taken)
      → serve_jetstream go mesh b c timeout m arrival now (meanwhile by_stop) d.state ≡ some out
      → (e : Delivery) × Steps d e × IsLeft d out e
  serve_jetstream-IsLeft by_stop d out a k t h =
      serve_begun-IsLeft by_stop d d.state out a k refl t
        (sym (serve_jetstream-begin (meanwhile by_stop) d.state a) ∙ h)
