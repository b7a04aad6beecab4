-- ===== src/Runbooks/SendMain.antt =====
-- docs/runbooks/cmd/send/main.go: main around its loop, and what -stream-info prints.
use service_mesh_nats_go.Prelude.{
  ℕ, String, Bool, true, false, List, [], ◌∷◌, Option, none, some, if◌then◌else◌,
}
use service_mesh_nats_go.Prelude.Int.{ℤ}
use service_mesh_nats_go.Go.Platform.{Platform}
use service_mesh_nats_go.Go.Map.{Map}
use service_mesh_nats_go.Mesh.{Target, Payload, Contract}
use service_mesh_nats_go.Errors.{Error, Result, ok, err}
use service_mesh_nats_go.Client.{Client, Sent, Network, close, stream_of}
use service_mesh_nats_go.Client.Made.{Dialer, new_client}
use service_mesh_nats_go.Runbooks.Flags.{with_url}
use service_mesh_nats_go.Runbooks.Send.{SendFlags, Line, crashed, send_each}

-- What is printed of the target's stream, with `Info` of it as the server answers.
pub data StreamLine (Info : Type 0) : Type 0 where
  stream_failed : Error → StreamLine Info
  no_stream : StreamLine Info
  info_failed : Error → StreamLine Info
  stream_shown : Info → StreamLine Info

-- js.Stream, which returns a stream by its name, and Info of that stream.
pub record Streams (Info : Type 0) : Type 0 where
  pub look_up : String → Result String
  pub info : String → Result Info

abbrev pub info_line : {Info : Type 0} → Result Info → StreamLine Info
info_line (err e) = info_failed e
info_line (ok i) = stream_shown i

abbrev pub found_line : {Info : Type 0} → Streams Info → Result (Option String) → StreamLine Info
found_line s (err e) = stream_failed e
found_line s (ok none) = no_stream
found_line s (ok (some stream)) = info_line (s.info stream)

unfoldable pub stream_line : {Info : Type 0} → Streams Info → Client → Target → StreamLine Info
unfolding stream_of
stream_line s c t = found_line s (stream_of s.look_up c t)

-- A panic of the loop ends the command.
abbrev pub ends_early : List Line → Bool
ends_early [] = false
ends_early (crashed ∷ lines) = true
ends_early (_ ∷ lines) = ends_early lines

-- What was sent and printed, and the client after the deferred Close.
pub record SendRun (Info : Type 0) : Type 0 where
  pub client : Result Client
  pub sent : List Sent
  pub lines : List Line
  pub stream : Option (StreamLine Info)

abbrev pub after_loop :
    {Info : Type 0} → Bool → Streams Info → Client → Target → List Sent × List Line → SendRun Info
after_loop shows s c t (sent, lines) = record {
  client = ok (close c);
  sent = sent;
  lines = lines;
  stream = if ends_early lines then none else if shows then some (stream_line s c t) else none;
}

abbrev pub with_client :
    {Info : Type 0}
    → Platform
    → Contract
    → Network
    → (String → Payload)
    → SendFlags
    → Bool
    → (ℕ → ℤ × ℤ)
    → ℕ
    → Streams Info
    → Result Client
    → SendRun Info
with_client go mesh net bytes f shows clock n s (err e) = record {
  client = err e;
  sent = [];
  lines = [];
  stream = none;
}
with_client go mesh net bytes f shows clock n s (ok c) =
    after_loop shows s c f.target (send_each go mesh net c bytes f clock 1 n)

-- main: `cfg` is that of -cfg, `url` NATS_URL, `shows` -stream-info and `n` the rounds of -n.
unfoldable pub send_main :
    {Info : Type 0}
    → Platform
    → Contract
    → Dialer
    → Network
    → (String → Payload)
    → SendFlags
    → Bool
    → (ℕ → ℤ × ℤ)
    → ℕ
    → Streams Info
    → Map String
    → String
    → SendRun Info
unfolding with_url send_each
send_main go mesh dialer net bytes f shows clock n s cfg url =
    with_client go mesh net bytes f shows clock n s
      (new_client go mesh dialer (with_url cfg url)).outcome
