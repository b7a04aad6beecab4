-- ===== src/Client.antt =====
-- nats/client.go: requests, publishes and the connection they go over. What nats.go answers is an
-- argument; a call returns what it sent besides its result.
pub mod Requests
pub mod Publishes
pub mod Timeouts
pub mod Made
pub mod Arrives
use service_mesh_nats_go.Prelude.{
  ℕ, suc, ◌+◌, ◌/◌, String, Bool, true, false, not, ◌&&◌, List, [], ◌∷◌, Option, none, some, ◌==◌,
  if◌then◌else◌,
}
use service_mesh_nats_go.Prelude.Int.{ℤ, pos, negsuc, sub_ℕ, min_ℤ, max_ℤ, ltb_ℤ}
use service_mesh_nats_go.Go.Platform.{Platform}
use service_mesh_nats_go.Go.Time.{sub_time, add_time}
use service_mesh_nats_go.Go.Decimal.{format_int}
use service_mesh_nats_go.Go.Map.{Map, get}
use service_mesh_nats_go.Mesh.{route, topic, Target, Message, Payload, Header, Contract}
use service_mesh_nats_go.Errors.{
  bad_setting, Error, sentinel, wrapped, handler_error, bad_config, timed_out, deadline_exceeded,
  request_timeout, is, Result, ok, err, ◌>>=◌, ◌>>◌, guard,
}
use service_mesh_nats_go.Errors
use service_mesh_nats_go.Target.{check_kind, subject, merge_settings}
use service_mesh_nats_go.Header.{Outcome, returned, panic, from_header, outgoing_header}
use service_mesh_nats_go.Config.{stream_key, request_timeout_key, duration_setting, text_of}

pub record Client : Type 0 where
  pub request_timeout : ℤ
  pub closed : Bool
  -- how often the connection's Close was called
  pub closes : ℕ

-- A message on the wire, with the stream that a JetStream publish expects.
pub record Sent : Type 0 where
  pub subject : String
  pub header : Option Header
  pub payload : Payload
  pub expected_stream : Option String

pub record Reply : Type 0 where
  pub header : Option Header
  pub payload : Payload

-- An error of a call on a bounded context, with the context's cause then.
pub record Failure : Type 0 where
  pub error : Error
  pub cause : Option Error

pub data Answer {ℓ} (A : Type ℓ) : Type ℓ where
  answered : A → Answer A
  failed : Failure → Answer A

-- What boundContext makes: when the bounded context expires, whether by the request timeout, and
-- how long it has left.
pub record Bounded : Type 0 where
  pub expires : ℤ
  pub by_timeout : Bool
  pub wait : ℤ

-- nats.go on an open connection. A request and a JetStream publish take the bounded context.
pub record Network : Type 0 where
  pub request : Bounded → Sent → Answer Reply
  pub publish : Sent → Option Error
  pub jetstream_publish : Bounded → Sent → Answer (Unit {0})

-- A context.Context at a call: its deadline, and its error when it is done.
pub record Context : Type 0 where
  pub deadline : Option ℤ
  pub error : Option Error

-- What a call sent, and how it ended.
pub record Call {ℓ} (A : Type ℓ) : Type ℓ where
  pub sent : List Sent
  pub outcome : Outcome (Result A)

-- d.Milliseconds()
unfoldable pub milliseconds : ℤ → ℤ
milliseconds (pos n) = pos (n / 1_000_000)
milliseconds (negsuc n) = sub_ℕ 0 (suc n / 1_000_000)

-- time.Until reads the clock at `now`, and context.WithTimeoutCause at `later`. The latter keeps
-- the deadline of `ctx` when that is sooner.
unfoldable pub bound_context : Option ℤ → ℤ → ℤ → ℤ → Bounded
bound_context none timeout now later = record {
  expires = add_time later timeout;
  by_timeout = true;
  wait = timeout;
}
bound_context (some d) timeout now later =
    let own = add_time later timeout in
    record {
      expires = if ltb_ℤ d own then d else own;
      by_timeout = not (ltb_ℤ d own);
      wait = min_ℤ timeout (max_ℤ (sub_time d now) (pos 0));
    }

unfoldable pub caused : Option Error → Bool
unfolding is
caused none = false
caused (some e) = is e request_timeout

unfoldable pub timeout_error : Failure → Error
timeout_error f =
    if is f.error deadline_exceeded && caused f.cause then sentinel timed_out else f.error

-- connections: ErrClosed after Close
unfoldable pub check_open : Client → Option Error
check_open c = if c.closed then some (sentinel Errors.closed) else none

-- The checks of Request: the subject and the timeout of the call.
unfoldable pub prepare_request : Platform → Client → Message → Map String → Result (String × ℤ)
prepare_request go c msg opts = do
  guard (check_kind msg.target route "Request")
  subj ← subject go msg.target
  let settings = merge_settings msg.target.metadata opts
  let v = text_of (get settings stream_key)
  guard (if v == "" then none else some (wrapped bad_config (bad_setting stream_key v)))
  timeout ← duration_setting go settings request_timeout_key c.request_timeout
  guard (check_open c)
  ok (subj, timeout)

-- The text of a handler's error in a reply.
abbrev pub first_text : List String → String
first_text [] = ""
first_text (t ∷ ts) = t

-- A nil header is made before a value is set.
abbrev pub header_or_new : Option Header → Header
header_or_new none = []
header_or_new (some h) = h

unfoldable pub read_reply : Contract → Message → Reply → Result Message
read_reply mesh msg reply = elim (get (header_or_new reply.header) mesh.handler_error_key) [
  | some texts ↦ err (handler_error (first_text texts))
  | none ↦
      ok (record {
        target = msg.target;
        metadata = from_header reply.header;
        payload = reply.payload;
      })
]

unfoldable pub read_answer : Contract → Message → Answer Reply → Result Message
unfolding read_reply timeout_error
read_answer mesh msg (answered reply) = read_reply mesh msg reply
read_answer mesh msg (failed f) = err (timeout_error f)

-- The message of a request that has `wait` left.
unfoldable pub request_message : Contract → String → Message → ℤ → Option Header → Sent
request_message mesh subj msg wait h = record {
  subject = subj;
  header =
      some (mesh.header_set (header_or_new h) mesh.timeout_key (format_int (milliseconds wait)));
  payload = msg.payload;
  expected_stream = none;
}

abbrev pub send_request :
    Contract → Network → Message → String → Bounded → Outcome (Option Header) → Call Message
send_request mesh net msg subj bound panic = record { sent = []; outcome = panic }
send_request mesh net msg subj bound (returned h) =
    let m = request_message mesh subj msg bound.wait h in
    record { sent = m ∷ []; outcome = returned (read_answer mesh msg (net.request bound m)) }

unfoldable pub request :
    Platform → Contract → Network → Client → Context → ℤ → ℤ → Message → Map String → Call Message
request go mesh net c ctx now later msg opts = elim (prepare_request go c msg opts) [
  | err e ↦ record { sent = []; outcome = returned (err e) }
  | ok (subj, timeout) ↦
      send_request mesh net msg subj (bound_context ctx.deadline timeout now later)
        (outgoing_header mesh msg.metadata)
]

-- The checks of Publish: the subject, and the stream and the timeout of a JetStream publish.
unfoldable pub prepare_publish :
    Platform → Client → Context → Message → Map String → Result (String × String × ℤ)
prepare_publish go c ctx msg opts = do
  guard (check_kind msg.target topic "Publish")
  subj ← subject go msg.target
  let settings = merge_settings msg.target.metadata opts
  let stream = text_of (get settings stream_key)
  timeout ←
      (if stream == ""
        then ok c.request_timeout
        else duration_setting go settings request_timeout_key c.request_timeout)
  guard (check_open c)
  guard ctx.error
  ok (subj, stream, timeout)

abbrev pub result_of : Option Error → Result (Unit {0})
result_of none = ok tt
result_of (some e) = err e

abbrev pub published : Answer (Unit {0}) → Result (Unit {0})
published (answered u) = ok tt
published (failed f) = err (timeout_error f)

unfoldable pub publish_message : String → Message → String → Option Header → Sent
publish_message subj msg stream h = record {
  subject = subj;
  header = h;
  payload = msg.payload;
  expected_stream = if stream == "" then none else some stream;
}

abbrev pub send_publish :
    Network → Message → String → String → Bounded → Outcome (Option Header) → Call (Unit {0})
send_publish net msg subj stream bound panic = record { sent = []; outcome = panic }
send_publish net msg subj stream bound (returned h) =
    let m = publish_message subj msg stream h in
    record {
      sent = m ∷ [];
      outcome = returned (
          if stream == ""
          then result_of (net.publish m)
          else published (net.jetstream_publish bound m));
    }

unfoldable pub publish :
    Platform
    → Contract
    → Network
    → Client
    → Context
    → ℤ
    → ℤ
    → Message
    → Map String
    → Call (Unit {0})
publish go mesh net c ctx now later msg opts = elim (prepare_publish go c ctx msg opts) [
  | err e ↦ record { sent = []; outcome = returned (err e) }
  | ok (subj, stream, timeout) ↦
      send_publish net msg subj stream (bound_context ctx.deadline timeout now later)
        (outgoing_header mesh msg.metadata)
]

-- Stream, given js.Stream
unfoldable pub stream_of : (String → Result String) → Client → Target → Result (Option String)
stream_of lookup c target =
    let name = text_of (get target.metadata stream_key) in
    let found = do guard (check_open c); s ← lookup name; ok (some s)
    in if name == "" then ok none else found

unfoldable pub close : Client → Client
close c = if c.closed then c else record c { closed = true; closes = suc c.closes }
