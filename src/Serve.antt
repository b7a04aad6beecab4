-- ===== src/Serve.antt =====
-- nats/runtime_serve.go: how a message from a core subscription reaches its handler, and the reply.
pub mod Deadlines
pub mod Replies
use service_mesh_nats_go.Prelude.{
  ℕ, ◌*◌, String, Bool, List, [], ◌∷◌, ◌++◌, Option, none, some, ◌==◌, if◌then◌else◌,
}
use service_mesh_nats_go.Prelude.Int.{ℤ, pos, negsuc, wrap_i64}
use service_mesh_nats_go.Go.Platform.{Platform}
use service_mesh_nats_go.Go.Text.{append}
use service_mesh_nats_go.Go.Time.{add_time}
use service_mesh_nats_go.Go.Decimal.{parse_int}
use service_mesh_nats_go.Go.Map.{Map, get, put}
use service_mesh_nats_go.Mesh.{Target, Message, Payload, Header, Contract}
use service_mesh_nats_go.Header.{to_header, incoming_metadata}
use service_mesh_nats_go.Client.{Sent}

-- How a handler ends: with a value, with an error of a text, or with a panic of a value that prints
-- as a text.
pub data Ran {ℓ} (T : Type ℓ) : Type ℓ where
  value : T → Ran T
  error : String → Ran T
  panics : String → Ran T

-- A handler is given the deadline that serve puts on the context of its Start, and the message. New
-- refuses a nil handler, so a subscription has one of the two.
pub data Handler : Type 0 where
  endpoint : (Option ℤ → Message → Ran Message) → Handler
  subscriber : (Option ℤ → Message → Ran (Unit {0})) → Handler

-- What a call of an endpoint's handler returns: the message, or the text of the error.
pub data Called : Type 0 where
  succeeded : Message → Called
  failed_with : String → Called

unfoldable pub call_endpoint : Ran Message → Called
call_endpoint (value out) = succeeded out
call_endpoint (error text) = failed_with text
call_endpoint (panics p) = failed_with (append "panic: " p)

-- The error's text, or none.
unfoldable pub call_subscriber : Ran (Unit {0}) → Option String
call_subscriber (value u) = none
call_subscriber (error text) = some text
call_subscriber (panics p) = some (append "panic: " p)

-- A natsio.Msg.
pub record Incoming : Type 0 where
  pub header : Option Header
  pub payload : Payload
  pub reply : String

pub data Effect : Type 0 where
  -- the handler is called with a deadline
  handled : Option ℤ → Message → Effect
  -- logger.Error, with the error's text
  logged : String → String → Effect
  -- nc.PublishMsg
  replied : Sent → Effect

-- time.Duration(ms) * time.Millisecond
abbrev pub of_milliseconds : ℕ → ℤ
of_milliseconds ms = wrap_i64 (pos (ms * 1_000_000))

abbrev deadline_after : Option ℤ → ℤ → Option ℤ
deadline_after none arrival = none
deadline_after (some (negsuc n)) arrival = none
deadline_after (some (pos ms)) arrival = some (add_time arrival (of_milliseconds ms))

-- The deadline that Mesh-Timeout asks for.
unfoldable pub request_deadline : Option String → ℤ → Option ℤ
request_deadline none arrival = none
request_deadline (some v) arrival = deadline_after (parse_int v) arrival

unfoldable pub with_deadline : Platform → Contract → Map String → Option ℤ → Map String
with_deadline go mesh md none = md
with_deadline go mesh md (some d) = put md mesh.deadline_key (go.format_time d)

unfoldable pub reply_message : Contract → String → Called → Sent
reply_message mesh to (succeeded out) = record {
  subject = to;
  header = to_header mesh out.metadata;
  payload = out.payload;
  expected_stream = none;
}
reply_message mesh to (failed_with text) = record {
  subject = to;
  header = some (mesh.header_set [] mesh.handler_error_key text);
  payload = [];
  expected_stream = none;
}

abbrev pub log_error : String → Option String → List Effect
log_error what none = []
log_error what (some text) = logged what text ∷ []

abbrev pub failure : Called → Option String
failure (succeeded out) = none
failure (failed_with text) = some text

-- The reply, when one is asked for. `publish` is PublishMsg, with the text of its error.
unfoldable pub send_reply : Contract → (Sent → Option String) → String → Called → List Effect
send_reply mesh publish to out =
    let m = reply_message mesh to out in
    if to == "" then [] else replied m ∷ log_error "nats: reply failed" (publish m)

unfoldable pub serve_endpoint :
    Platform
    → Contract
    → (Sent → Option String)
    → Target
    → (Option ℤ → Message → Ran Message)
    → Incoming
    → ℤ
    → List Effect
serve_endpoint go mesh publish target handler m arrival =
    let md = incoming_metadata mesh m.header in
    let d = request_deadline (get md mesh.timeout_key) arrival in
    let msg : Message = record {
      target = target;
      metadata = some (with_deadline go mesh md d);
      payload = m.payload;
    } in
    let out = call_endpoint (handler d msg) in
    handled d msg
    ∷ (log_error "nats: endpoint handler failed" (failure out)
        ++ send_reply mesh publish m.reply out)

unfoldable pub serve :
    Platform → Contract → (Sent → Option String) → Target → Handler → Incoming → ℤ → List Effect
unfolding serve_endpoint call_subscriber
serve go mesh publish target (endpoint handler) m arrival =
    serve_endpoint go mesh publish target handler m arrival
serve go mesh publish target (subscriber handler) m arrival =
    let msg : Message = record {
      target = target;
      metadata = some (incoming_metadata mesh m.header);
      payload = m.payload;
    } in
    handled none msg
    ∷ log_error "nats: subscriber handler failed" (call_subscriber (handler none msg))
