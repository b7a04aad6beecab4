-- ===== src/Examples/Client.antt =====
-- examples/client/main.go: one request or one publish from its own process.
use service_mesh_nats_go.Prelude.{
  String, Bool, true, false, List, [], ◌∷◌, none, some, ◌==◌, if◌then◌else◌,
}
use service_mesh_nats_go.Prelude.Int.{ℤ}
use service_mesh_nats_go.Go.Platform.{Platform}
use service_mesh_nats_go.Go.Map.{Map}
use service_mesh_nats_go.Mesh.{Message, Payload, Contract}
use service_mesh_nats_go.Errors.{Error, Result, ok, err}
use service_mesh_nats_go.Header.{Outcome, returned, panic}
use service_mesh_nats_go.Config.{url_key, name_key, request_timeout_key}
use service_mesh_nats_go.Client.{Client, Sent, Network, Context, request, publish}
use service_mesh_nats_go.Client.Made.{Dialer, new_client}
use service_mesh_nats_go.Examples.{echo_target, created_target}
use service_mesh_nats_go.Examples.Reports.{Report, report}

-- NATS_URL and TIMEOUT
pub record Environment : Type 0 where
  pub url : String
  pub timeout : String

abbrev pub client_config : Environment → Map String
client_config env = (url_key, env.url) ∷ (name_key, "client") ∷ []

abbrev pub client_options : Environment → Map String
client_options env = if env.timeout == "" then [] else (request_timeout_key, env.timeout) ∷ []

-- How the process ends: the usage or a failed connection, a report of an error, or a result.
pub data Ended : Type 0 where
  usage : Ended
  connect_failed : Error → Ended
  reported : Report → Ended
  replied : Message → Ended
  published : Ended
  crashed : Ended

-- Also what was sent, and whether the deferred Close was reached: os.Exit skips it.
pub record ClientRun : Type 0 where
  pub ended : Ended
  pub sent : List Sent
  pub closes : Bool

abbrev pub after_request : Outcome (Result Message) → Ended × Bool
after_request panic = (crashed, true)
after_request (returned (ok reply)) = (replied reply, true)
after_request (returned (err e)) = (reported (report e), false)

abbrev pub after_publish : Outcome (Result (Unit {0})) → Ended × Bool
after_publish panic = (crashed, true)
after_publish (returned (ok u)) = (published, true)
after_publish (returned (err e)) = (reported (report e), false)

-- What the process runs on: the clock is read at `begun` for Sent-At and at `now` and `later` by
-- the call, and `bytes` gives the bytes of a text.
pub record Process : Type 0 where
  pub go : Platform
  pub mesh : Contract
  pub dialer : Dialer
  pub network : Network
  pub bytes : String → Payload
  pub begun : ℤ
  pub now : ℤ
  pub later : ℤ

abbrev pub background : Context
background = record { deadline = none; error = none }

-- The message, but for its target.
abbrev pub sent_metadata : Process → Map String
sent_metadata p = ("Sent-At", p.go.format_time p.begun) ∷ []

abbrev pub request_of : Process → String → Message
request_of p payload = record {
  target = echo_target;
  metadata = some (sent_metadata p);
  payload = p.bytes payload;
}

abbrev pub event_of : Process → String → Message
event_of p payload = record {
  target = created_target;
  metadata = some (sent_metadata p);
  payload = p.bytes payload;
}

-- The switch on the verb.
unfoldable pub send_verb : Process → Environment → Client → String → String → ClientRun
send_verb p env c verb payload =
    let asked =
      request p.go p.mesh p.network c background p.now p.later (request_of p payload)
        (client_options env) in
    let told =
      publish p.go p.mesh p.network c background p.now p.later (event_of p payload)
        (client_options env) in
    if verb == "request"
    then record {
      ended = (after_request asked.outcome).0;
      sent = asked.sent;
      closes = (after_request asked.outcome).1;
    }
    else if verb == "publish"
    then record {
      ended = (after_publish told.outcome).0;
      sent = told.sent;
      closes = (after_publish told.outcome).1;
    }
    else record { ended = usage; sent = []; closes = false }

abbrev pub with_client : Process → Environment → Result Client → String → String → ClientRun
with_client p env (err e) verb payload = record {
  ended = connect_failed e;
  sent = [];
  closes = false;
}
with_client p env (ok c) verb payload = send_verb p env c verb payload

-- main, given os.Args
unfoldable pub client_main : Process → Environment → List String → ClientRun
unfolding send_verb
client_main p env (program ∷ verb ∷ payload ∷ []) =
    with_client p env (new_client p.go p.mesh p.dialer (client_config env)).outcome verb payload
client_main p env _ = record { ended = usage; sent = []; closes = false }
