-- ===== src/Tests/Commands.antt =====
-- The commands and the examples on concrete inputs.
use service_mesh_nats_go.Prelude.{
  if◌then◌else◌, ◌*◌, ◌/◌, String, code, false, ◌≡◌, ◌⊎◌, refl, [], ◌∷◌, Option, none, some, arith,
}
use service_mesh_nats_go.Prelude.Int.{ℤ, pos, ltb_ℤ}
use service_mesh_nats_go.Go.Duration.{exact, parse_duration, term}
use service_mesh_nats_go.Go.Time.{add_time}
use service_mesh_nats_go.Go.Map.{Map, IsMap, get}
use service_mesh_nats_go.Go.Unordered.{GoMap, no_entries}
use service_mesh_nats_go.Mesh.{route, Target, Payload}
use service_mesh_nats_go.Errors.{ok, sentinel, no_responders, stream_not_found, err}
use service_mesh_nats_go.Target.Merged.{merged, merged-laws}
use service_mesh_nats_go.Config.{request_timeout_key, duration_setting, parse_client_settings}
use service_mesh_nats_go.Client.{
  bound_context, Client, Sent, Reply, Answer, answered, failed, Network, prepare_request,
  prepare_publish, request, publish,
}
use service_mesh_nats_go.Client.Made.{Dialer, new_client}
use service_mesh_nats_go.Serve.{serve_endpoint}
use service_mesh_nats_go.Serve.Replies.{received}
use service_mesh_nats_go.Exchange.{first_reply, incoming, expiry}
use service_mesh_nats_go.Examples.{echo_target}
use service_mesh_nats_go.Examples.Client.{
  Process, Environment, background, client_config, client_options, client_main,
}
use service_mesh_nats_go.Examples.Server.{Wait, echo_handler}
use service_mesh_nats_go.Examples.Asked.{Ends}
use service_mesh_nats_go.Examples.EndToEnd.{client_main-IsAnswered}
use service_mesh_nats_go.Examples.Misuse.{IsRefused, calls-IsRefused}
use service_mesh_nats_go.Runbooks.Streams.{JetStream, out_of_range, run_verb}
use service_mesh_nats_go.Runbooks.Streams.Arguments.{Obeys, run_verb-Obeys}
use service_mesh_nats_go.Tests.Fixtures.{contract, contract-IsLawful, open_client, created_message}
use mathlib.Core.Quot

-- The bytes of a text in ASCII.
abbrev codes : String → Payload
codes String.[] = []
codes (String.◌∷◌ c s) = code c ∷ codes s

-- Settings without an order.
abbrev ack_entries : Map String
ack_entries = ("ack-policy", "explicit") ∷ ("stream", "ORDERS") ∷ []

ack_entries-IsMap : IsMap ack_entries
unfolding get
ack_entries-IsMap = (refl, (refl, tt))

abbrev acks : GoMap String
acks = Quot.mk (ack_entries, ack_entries-IsMap)

merged-laws_example :
    (merged acks (merged no_entries acks) ≡ merged (merged acks no_entries) acks)
    × (merged no_entries acks ≡ acks)
    × (merged acks no_entries ≡ acks)
    × (merged acks (merged no_entries acks) ≡ merged no_entries acks)
merged-laws_example = merged-laws acks no_entries acks

abbrev dialer : Dialer
dialer = record { connect = λ call. ok 1; jetstream = λ nc. none }

abbrev take_reply : Sent → Option String
take_reply m = none

abbrev nowhere : Target
nowhere = record { segments = []; kind = route; metadata = [] }

-- The timer of a slow call fires after its context has ended.
abbrev slow_call : Wait
slow_call = record { timer = pos 5_000_000_200; cancelled = none; prefers_context = false }

abbrev by_reply : Option Sent → Answer Reply
by_reply (some r) = answered (received r)
by_reply none = failed (record { error = sentinel no_responders; cause = none })

-- The network to the example's server. The reply of the slow call is back after the client's
-- context has expired.
abbrev to_server : Network
to_server = record {
  request = λ b m.
      let answer = by_reply (
        first_reply (
          serve_endpoint exact contract take_reply echo_target
            (echo_handler codes nowhere "alpha" slow_call) (incoming "_INBOX.1" m) (pos 100))) in
      if ltb_ℤ (pos 2_000_000_200) b.expires then answer else failed expiry;
  publish = λ m. none;
  jetstream_publish = λ b m. answered tt;
}

abbrev process : Process
process = record {
  go = exact;
  mesh = contract;
  dialer = dialer;
  network = to_server;
  bytes = codes;
  begun = pos 80;
  now = pos 90;
  later = pos 91;
}

abbrev environment : Environment
environment = record { url = ""; timeout = "2s" }

abbrev made_client : Client
made_client = record { request_timeout = pos 30_000_000_000; closed = false; closes = 0 }

makes_client :
    (new_client exact contract dialer (client_config environment)).outcome ≡ ok made_client
unfolding new_client parse_client_settings get
makes_client = refl

reads_timeout :
    duration_setting exact
      (client_options environment)
      request_timeout_key
      made_client.request_timeout
    ≡ ok (pos 2_000_000_000)
unfolding duration_setting get parse_duration term
reads_timeout = refl

client_main-IsAnswered_example :
    Ends codes
      (codes "slow")
      "alpha"
      slow_call
      2_000_000_000
      (add_time (pos 91) (pos 2_000_000_000))
      (add_time (pos 100) (pos (2_000_000_000 / 1_000_000 * 1_000_000)))
      (pos 2_000_000_200)
      (client_main process environment ("client" ∷ "request" ∷ "slow" ∷ []))
unfolding bound_context
client_main-IsAnswered_example =
    client_main-IsAnswered process environment exact take_reply nowhere "alpha" slow_call "_INBOX.1"
      (pos 100) (pos 2_000_000_200) "client" "slow" made_client 2_000_000_000 contract-IsLawful
      makes_client reads_timeout (omega arith) (λ e. cc) (λ e. cc) (λ e. cc) (omega arith)
      (omega arith) (λ m r e. (λ t. absurd (omega (arith, t)), λ t b. refl))

calls-IsRefused_example :
    (((subj : String) × (timeout : ℤ) × (prepare_request exact open_client created_message []
          ≡ ok (subj, timeout)))
      ⊎ IsRefused open_client (
          request exact contract to_server open_client background
            (pos 90)
            (pos 91)
            created_message
            []))
    × (((checked : String × String × ℤ) × (prepare_publish exact open_client background
              created_message []
            ≡ ok checked))
        ⊎ IsRefused open_client (
            publish exact contract to_server open_client background
              (pos 90)
              (pos 91)
              created_message
              []))
calls-IsRefused_example =
    calls-IsRefused exact contract to_server open_client (pos 90) (pos 91) created_message []

-- A server that finds no stream.
abbrev empty_server : JetStream
empty_server = record {
  created = λ cfg. ok (cfg.name, cfg.retention);
  found = λ name. some (sentinel stream_not_found);
  info = λ name. err (sentinel stream_not_found);
  listed = λ name. ([], none);
  made = λ stream cfg. ok cfg.durable;
  deleted = λ name. none;
}

run_verb-Obeys_example : Obeys "add" [] (run_verb empty_server "add" "DEMO_CREATED" [])
run_verb-Obeys_example = run_verb-Obeys empty_server "add" "DEMO_CREATED" []

-- The subject of add is missing.
add_without_subject : (run_verb empty_server "add" "DEMO_CREATED" []).ended ≡ out_of_range
unfolding run_verb
add_without_subject = refl
