-- ===== src/Receive/Sequence.antt =====
-- What serveJetStream does from the call of the handler on, as steps of a delivery.
use service_mesh_nats_go.Prelude.{
  String, Bool, true, false, not, ◌≡◌, refl, sym, ap, ◌∙◌, List, [], ◌∷◌, ◌++◌, Option, is_some,
  if◌then◌else◌,
}
use service_mesh_nats_go.Prelude.Int.{ℤ}
use service_mesh_nats_go.Mesh.{Contract}
use service_mesh_nats_go.Delivery.{
  DeliveryState, running, settled, settle, handling, handled, won, sending, closed, taken, owns,
  Delivery, reply_of, handler_returns, settle_result as settles, settle_result_late, untrack, reply,
  stop_settles, Steps, here, next,
}
use service_mesh_nats_go.Serve.{call_subscriber}
use service_mesh_nats_go.Receive.Messages.{Msg, JsSubscription}
use service_mesh_nats_go.Receive.Handed.{Given}
use service_mesh_nats_go.Receive.Served.{
  Effect, called, failure_logs, reply_result, Served, log_all, message_id, settle_result,
  serve_given,
}
use service_mesh_nats_go.Receive.Effects.{
  replies_of, tracked_after, quiet-append, log_all-IsQuiet, failure_logs-IsQuiet,
  reply_result-sends,
}

-- What Stop does to the state while the handler runs: nothing, or it settles the delivery.
abbrev pub meanwhile : Bool → DeliveryState → DeliveryState
meanwhile false s = s
meanwhile true s = (settle s).0

-- A delivery that is left as serveJetStream leaves it.
pub record IsLeft (d : Delivery) (out : Served) (e : Delivery) : Type 0 where
  pub callback : e.callback ≡ closed
  pub state : e.state ≡ out.state
  pub replies : e.replies ≡ replies_of out.effects ++ d.replies
  pub tracked : e.tracked ≡ tracked_after d.tracked out.effects

module _ (mesh : Contract) (b : JsSubscription) (timeout : ℤ) (m : Msg) (g : Given) where
  abbrev pub herr : Option String
  herr = call_subscriber (b.handler g.deadline g.message)

  pub settle_result-won :
      (h : Option String)
      → g.consumer.acks ≡ true
      → settle_result mesh b timeout m g running h
        ≡ (settled, reply_result b timeout m g.meta g.consumer (message_id mesh g) h)
  unfolding settle_result settle
  settle_result-won h a =
      let won : DeliveryState × List Effect =
        (settled, reply_result b timeout m g.meta g.consumer (message_id mesh g) h) in
      ap (λ (acks : Bool). if not acks then (running, []) else won) a

  pub settle_result-lost :
      (h : Option String)
      → g.consumer.acks ≡ true
      → settle_result mesh b timeout m g settled h ≡ (settled, [])
  unfolding settle_result settle
  settle_result-lost h a =
      let lost : DeliveryState × List Effect = (settled, []) in
      ap (λ (acks : Bool). if not acks then lost else lost) a

  -- What the effects up to the settling come to.
  pub serve_given-quiet :
      (es : List Effect) (was : Bool)
      → (replies_of
            (log_all g.logs ++ (called g.deadline g.message ∷ (failure_logs b g.meta herr ++ es)))
          ≡ replies_of es)
        × (tracked_after was
              (log_all g.logs ++ (called g.deadline g.message ∷ (failure_logs b g.meta herr ++ es)))
            ≡ tracked_after was es)
  serve_given-quiet es was =
      let rest = failure_logs b g.meta herr ++ es in
      let (r, t) =
        quiet-append (log_all g.logs) (called g.deadline g.message ∷ rest) was
          (log_all-IsQuiet g.logs) in
      let (r', t') =
        quiet-append (failure_logs b g.meta herr) es was (failure_logs-IsQuiet b g.meta herr) in
      (r ∙ r', t ∙ t')

  -- From the handler on, when nothing else settles the delivery.
  pub serve_given-alone :
      (d : Delivery)
      → g.consumer.acks ≡ true
      → d.callback ≡ handling
      → d.state ≡ running
      → (e : Delivery) × Steps d e
        × IsLeft d (serve_given mesh b timeout m (meanwhile false) running g) e
  unfolding settle
  serve_given-alone d a c s =
      let failed = is_some herr in
      let won_result = settle_result-won herr a in
      let es = (settle_result mesh b timeout m g running herr).1 in
      let sent = ap (λ (p : DeliveryState × List Effect). p.1) won_result in
      let (quiet, tracks) = serve_given-quiet es d.tracked in
      let (sends, untracks) =
        reply_result-sends b timeout m g.meta g.consumer (message_id mesh g) herr d.tracked in
      let d1 : Delivery = record d { callback = handled failed } in
      let d2 : Delivery = record d1 { state = settled; callback = won failed } in
      let d3 : Delivery = record d2 { tracked = false; callback = sending failed } in
      let d4 : Delivery = record d3 { callback = closed; replies = reply_of failed ∷ d.replies } in
      (
        d4,
        next
            (next
              (next (next here (handler_returns failed c refl)) (
                settles failed refl (ap (λ x. (settle x).2) s)
                  (ap (λ x. record d1 { state = (settle x).0; callback = won failed }) (sym s))))
              (untrack failed refl refl))
            (reply failed refl refl),
        record {
          callback = refl;
          state = sym (ap (λ (p : DeliveryState × List Effect). p.0) won_result);
          replies = ap (λ rs. rs ++ d.replies) (sym (quiet ∙ ap replies_of sent ∙ sends));
          tracked = sym (tracks ∙ ap (tracked_after d.tracked) sent ∙ untracks);
        },
      )

  -- The same, when Stop has taken the delivery and settles it meanwhile.
  pub serve_given-stopped :
      (d : Delivery)
      → g.consumer.acks ≡ true
      → d.callback ≡ handling
      → d.state ≡ running
      → d.stopper ≡ taken
      → (e : Delivery) × Steps d e
        × IsLeft d (serve_given mesh b timeout m (meanwhile true) running g) e
  unfolding settle
  serve_given-stopped d a c s t =
      let failed = is_some herr in
      let lost_result = settle_result-lost herr a in
      let es = (settle_result mesh b timeout m g settled herr).1 in
      let none_sent = ap (λ (p : DeliveryState × List Effect). p.1) lost_result in
      let (quiet, tracks) = serve_given-quiet es d.tracked in
      let d1 : Delivery = record d { state = settled; stopper = owns } in
      let d2 : Delivery = record d1 { callback = handled failed } in
      let d3 : Delivery = record d2 { callback = closed } in
      (
        d3,
        next
            (next
              (next here (
                stop_settles t (ap (λ x. (settle x).2) s)
                  (ap (λ x. record d { state = (settle x).0; stopper = owns }) (sym s))))
              (handler_returns failed c refl))
            (settle_result_late failed refl refl refl),
        record {
          callback = refl;
          state = sym (ap (λ (p : DeliveryState × List Effect). p.0) lost_result);
          replies = ap (λ rs. rs ++ d.replies) (sym (quiet ∙ ap replies_of none_sent));
          tracked = sym (tracks ∙ ap (tracked_after d.tracked) none_sent);
        },
      )
