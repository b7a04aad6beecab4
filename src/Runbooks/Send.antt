-- ===== src/Runbooks/Send.antt =====
-- docs/runbooks/cmd/send/main.go: the command that sends numbered messages and prints each result.
pub mod Numbers
use service_mesh_nats_go.Prelude.{
  ℕ, zero, suc, ◌+◌, String, Bool, true, false, ◌≡◌, refl, ap, ◌∙◌, List, [], ◌∷◌, ◌++◌, Option,
  none, some, length, if◌then◌else◌, arith,
}
use service_mesh_nats_go.Prelude.Int.{ℤ, pos, ltb_ℤ}
use service_mesh_nats_go.Go.Platform.{Platform}
use service_mesh_nats_go.Go.Text.{append}
use service_mesh_nats_go.Go.Time.{add_time}
use service_mesh_nats_go.Go.Decimal.{format_uint}
use service_mesh_nats_go.Go.Map.{Map, IsMap, entries}
use service_mesh_nats_go.Mesh.{Kind, route, topic, Target, Message, Payload, Contract, IsLawful}
use service_mesh_nats_go.Errors.{Error, Result, ok, err}
use service_mesh_nats_go.Header.{Outcome, returned, panic}
use service_mesh_nats_go.Header.RoundTrip.{outgoing_returns}
use service_mesh_nats_go.Client.{
  Client, Sent, Network, Context, Call, bound_context, prepare_publish, publish_message,
  send_publish, request, publish,
}

-- What the command is given.
pub record SendFlags : Type 0 where
  pub target : Target
  pub set : Map String
  pub md : Map String
  pub payload : String
  -- -deadline
  pub deadline : ℤ

-- A line of the output, with the number of its message. A panic ends the command.
pub data Line : Type 0 where
  replied : ℕ → Message → Line
  published : ℕ → Line
  failed : ℕ → Error → Line
  crashed : Line

-- fmt.Sprintf("%s %d", payload, i)
unfoldable pub numbered : String → ℕ → String
numbered payload i = append payload (append " " (format_uint i))

-- The context of a call that begins at a time.
unfoldable pub call_context : ℤ → ℤ → Context
call_context deadline start = record {
  deadline = if ltb_ℤ (pos 0) deadline then some (add_time start deadline) else none;
  error = none;
}

-- `bytes` gives the bytes of a text.
unfoldable pub numbered_message : (String → Payload) → SendFlags → ℕ → Message
unfolding numbered
numbered_message bytes f i = record {
  target = f.target;
  metadata = some f.md;
  payload = bytes (numbered f.payload i);
}

abbrev pub request_line : ℕ → Outcome (Result Message) → Line
request_line i panic = crashed
request_line i (returned (ok reply)) = replied i reply
request_line i (returned (err e)) = failed i e

abbrev pub publish_line : ℕ → Outcome (Result (Unit {0})) → Line
publish_line i panic = crashed
publish_line i (returned (ok u)) = published i
publish_line i (returned (err e)) = failed i e

-- One round: what it sends, and its line. The clock is read at `now` and at `later`.
abbrev pub send_as :
    Kind
    → Platform
    → Contract
    → Network
    → Client
    → (String → Payload)
    → SendFlags
    → ℕ
    → ℤ
    → ℤ
    → List Sent × Line
send_as route go mesh net c bytes f i now later =
    let call =
      request go mesh net c (call_context f.deadline now) now later (numbered_message bytes f i)
        f.set in
    (call.sent, request_line i call.outcome)
send_as topic go mesh net c bytes f i now later =
    let call =
      publish go mesh net c (call_context f.deadline now) now later (numbered_message bytes f i)
        f.set in
    (call.sent, publish_line i call.outcome)

abbrev pub after_line : Line → List Sent × List Line → List Sent × List Line
after_line crashed rest = ([], [])
after_line l rest = rest

-- The loop from message `i` on, over `n` messages. `clock` gives the times of each round.
unfoldable pub send_each :
    Platform
    → Contract
    → Network
    → Client
    → (String → Payload)
    → SendFlags
    → (ℕ → ℤ × ℤ)
    → ℕ
    → ℕ
    → List Sent × List Line
unfolding call_context numbered_message
send_each go mesh net c bytes f clock i zero = ([], [])
send_each go mesh net c bytes f clock i (suc n) =
    let (sent, line) = send_as f.target.kind go mesh net c bytes f i (clock i).0 (clock i).1 in
    let rest = send_each go mesh net c bytes f clock (suc i) n in
    let (more, lines) = after_line line rest in (sent ++ more, line ∷ lines)
