-- ===== src/Receive/Effects.antt =====
-- What the effects of serveJetStream send to the server.
use service_mesh_nats_go.Prelude.{
  String, Bool, false, Bool-cases, ◌≡◌, refl, ap, ◌∙◌, inl, inr, List, [], ◌∷◌, ◌++◌, Option, none,
  some, is_some, arith,
}
use service_mesh_nats_go.Prelude.Int.{ℤ, pos, ltb_ℤ}
use service_mesh_nats_go.Go.Platform.{Platform}
use service_mesh_nats_go.Mesh.{Contract}
use service_mesh_nats_go.Errors.{Error}
use service_mesh_nats_go.Consumer.{JsConsumer, late_start_logged}
use service_mesh_nats_go.Delivery.{Reply, ack, nak as nak_sent, reply_of}
use service_mesh_nats_go.JetStream.{AckPolicy, ack_double, ack_explicit, ack_none}
use service_mesh_nats_go.Receive.Messages.{Msg, MsgMetadata, JsSubscription}
use service_mesh_nats_go.Receive.Logs.{Log, log_late_start}
use service_mesh_nats_go.Receive.Handed.{Given, given}
use service_mesh_nats_go.Receive.Served.{
  Effect, called, logged, untracked, acked, double_acked, nacked, nacked_with_delay, nak,
  failure_logs, reply_failed, final_failure, ack_of, reply_result, log_all,
}

-- What is sent to the server, latest first.
abbrev pub replies_of : List Effect → List Reply
replies_of [] = []
replies_of (called d m ∷ es) = replies_of es
replies_of (logged l ∷ es) = replies_of es
replies_of (untracked ∷ es) = replies_of es
replies_of (acked ∷ es) = replies_of es ++ (ack ∷ [])
replies_of (double_acked t ∷ es) = replies_of es ++ (ack ∷ [])
replies_of (nacked ∷ es) = replies_of es ++ (nak_sent ∷ [])
replies_of (nacked_with_delay t ∷ es) = replies_of es ++ (nak_sent ∷ [])

-- Is the delivery still tracked?
abbrev pub tracked_after : Bool → List Effect → Bool
tracked_after b [] = b
tracked_after b (untracked ∷ es) = false
tracked_after b (e ∷ es) = tracked_after b es

-- Effects that only log.
abbrev pub IsQuiet : List Effect → Type 0
IsQuiet [] = Unit
IsQuiet (logged l ∷ es) = IsQuiet es
IsQuiet (_ ∷ es) = ⊥

pub quiet-append :
    (ls es : List Effect) (b : Bool)
    → IsQuiet ls
    → (replies_of (ls ++ es) ≡ replies_of es) × (tracked_after b (ls ++ es) ≡ tracked_after b es)
quiet-append [] es b q = (refl, refl)
quiet-append (logged l ∷ ls) es b q = quiet-append ls es b q
quiet-append (called d m ∷ ls) es b q = absurd q
quiet-append (untracked ∷ ls) es b q = absurd q
quiet-append (acked ∷ ls) es b q = absurd q
quiet-append (double_acked t ∷ ls) es b q = absurd q
quiet-append (nacked ∷ ls) es b q = absurd q
quiet-append (nacked_with_delay t ∷ ls) es b q = absurd q

pub log_all-IsQuiet : (ls : List Log) → IsQuiet (log_all ls)
log_all-IsQuiet [] = tt
log_all-IsQuiet (l ∷ ls) = log_all-IsQuiet ls

pub failure_logs-IsQuiet :
    (b : JsSubscription) (meta : Option MsgMetadata) (herr : Option String)
    → IsQuiet (failure_logs b meta herr)
failure_logs-IsQuiet b meta none = tt
failure_logs-IsQuiet b meta (some f) = tt

pub reply_failed-IsQuiet :
    (b : JsSubscription) (message : String) (e : Option Error) → IsQuiet (reply_failed b message e)
reply_failed-IsQuiet b message none = tt
reply_failed-IsQuiet b message (some e) = tt

pub final_failure-IsQuiet :
    (b : JsSubscription) (c : JsConsumer) (meta : Option MsgMetadata) (id : String)
    → IsQuiet (final_failure b c meta id)
final_failure-IsQuiet b c none id = tt
final_failure-IsQuiet b c (some meta) id = ground arith

pub quiet-none : (es : List Effect) → IsQuiet es → replies_of es ≡ []
quiet-none [] q = refl
quiet-none (logged l ∷ es) q = quiet-none es q
quiet-none (called d m ∷ es) q = absurd q
quiet-none (untracked ∷ es) q = absurd q
quiet-none (acked ∷ es) q = absurd q
quiet-none (double_acked t ∷ es) q = absurd q
quiet-none (nacked ∷ es) q = absurd q
quiet-none (nacked_with_delay t ∷ es) q = absurd q

pub nak-sends :
    (b : JsSubscription) (es : List Effect)
    → replies_of es ≡ []
    → replies_of (nak b ∷ es) ≡ nak_sent ∷ []
unfolding nak
nak-sends b es e = elim (Bool-cases (ltb_ℤ (pos 0) b.js.nak_delay)) [
  | inl l ↦ rw (l, nak) (ap (λ rs. rs ++ (nak_sent ∷ [])) e)
  | inr l ↦ rw (l, nak) (ap (λ rs. rs ++ (nak_sent ∷ [])) e)
]

pub ack_of-sends :
    (timeout : ℤ) (p : AckPolicy) (es : List Effect)
    → replies_of es ≡ []
    → replies_of (ack_of timeout p ∷ es) ≡ ack ∷ []
ack_of-sends timeout ack_double es e = ap (λ rs. rs ++ (ack ∷ [])) e
ack_of-sends timeout ack_explicit es e = ap (λ rs. rs ++ (ack ∷ [])) e
ack_of-sends timeout ack_none es e = ap (λ rs. rs ++ (ack ∷ [])) e

-- What a settled result sends: an ack, or a nak when the handler failed.
pub reply_result-sends :
    (b : JsSubscription) (timeout : ℤ) (m : Msg) (meta : Option MsgMetadata) (c : JsConsumer)
    (id : String) (herr : Option String) (was : Bool)
    → (replies_of (reply_result b timeout m meta c id herr) ≡ reply_of (is_some herr) ∷ [])
      × (tracked_after was (reply_result b timeout m meta c id herr) ≡ false)
unfolding reply_result
reply_result-sends b timeout m meta c id none was = (
  ack_of-sends timeout b.js.ack (reply_failed b "nats: ack failed" m.ack_error) (
      quiet-none (reply_failed b "nats: ack failed" m.ack_error)
        (reply_failed-IsQuiet b "nats: ack failed" m.ack_error)),
  refl,
)
reply_result-sends b timeout m meta c id (some failed) was = (
  nak-sends b (reply_failed b "nats: nak failed" m.nak_error ++ final_failure b c meta id) (
      (quiet-append (reply_failed b "nats: nak failed" m.nak_error) (final_failure b c meta id) was
        (reply_failed-IsQuiet b "nats: nak failed" m.nak_error)).0
      ∙ quiet-none (final_failure b c meta id) (final_failure-IsQuiet b c meta id)),
  refl,
)

-- serveJetStream leaves the consumer's ack setting as it is.
pub given-acks :
    (go : Platform) (mesh : Contract) (b : JsSubscription) (c : JsConsumer) (m : Msg)
    (arrival now : ℤ) (g : Given)
    → given go mesh b c m arrival now ≡ some g
    → g.consumer.acks ≡ c.acks
unfolding given log_late_start late_start_logged
given-acks go mesh b c m arrival now g h = ground arith
