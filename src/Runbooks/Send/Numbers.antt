-- ===== src/Runbooks/Send/Numbers.antt =====
-- What the command send publishes.
use service_mesh_nats_go.Prelude.{
  ℕ, zero, suc, String, ◌≡◌, refl, ap, ◌∙◌, List, [], ◌∷◌, ◌++◌, map, length,
}
use service_mesh_nats_go.Prelude.Int.{ℤ}
use service_mesh_nats_go.Go.Platform.{Platform}
use service_mesh_nats_go.Go.Map.{IsMap}
use service_mesh_nats_go.Mesh.{topic, Payload, Contract, IsLawful}
use service_mesh_nats_go.Errors.{Result, ok, err}
use service_mesh_nats_go.Header.{returned}
use service_mesh_nats_go.Header.RoundTrip.{outgoing_returns}
use service_mesh_nats_go.Client.{
  Client, Sent, Network, Call, bound_context, prepare_publish, send_publish, publish_message,
  publish,
}
use service_mesh_nats_go.Runbooks.Send.{
  SendFlags, Line, numbered, call_context, numbered_message, publish_line, send_as, after_line,
  send_each,
}

-- The numbered payloads from `i` on.
abbrev pub payloads : (String → Payload) → String → ℕ → ℕ → List Payload
payloads bytes payload i zero = []
payloads bytes payload i (suc n) = bytes (numbered payload i) ∷ payloads bytes payload (suc i) n

goes_on :
    (i : ℕ) (r : Result (Unit {0})) (rest : List Sent × List Line)
    → after_line (publish_line i (returned r)) rest ≡ rest
goes_on i (ok u) rest = refl
goes_on i (err e) rest = refl

module _ (go : Platform) (mesh : Contract) (law : IsLawful mesh) (net : Network) (c : Client)
    (bytes : String → Payload) (f : SendFlags) (subj stream : String) (timeout : ℤ) (m : IsMap f.md)
    (checked : (i : ℕ) (now : ℤ)
      → prepare_publish go c (call_context f.deadline now) (numbered_message bytes f i) f.set
        ≡ ok (subj, stream, timeout)) where
  -- One message is sent, and the loop goes on.
  send_as-one :
      (i : ℕ) (now later : ℤ)
      → (s : Sent) × (r : Result (Unit {0})) × (send_as topic go mesh net c bytes f i now later
          ≡ (s ∷ [], publish_line i (returned r)))
        × (s.payload ≡ bytes (numbered f.payload i))
  unfolding publish publish_message numbered_message
  send_as-one i now later =
      let msg = numbered_message bytes f i in
      let ctx = call_context f.deadline now in
      let (h, out, _) = outgoing_returns mesh law msg.metadata m in
      let call = send_publish net msg subj stream (bound_context ctx.deadline timeout now later) in
      let sends : publish go mesh net c ctx now later msg f.set ≡ call (returned h) =
        rw (checked i now, publish) (ap call out) in
      (
        publish_message subj msg stream h,
        _,
        ap (λ (x : Call (Unit {0})). (x.sent, publish_line i x.outcome)) sends,
        refl,
      )

  -- With a topic as its target and settings that pass the checks of Publish, the command sends as
  -- many messages as it is asked for, in order, each with the payload and its number, and prints a
  -- line for each, whether the server takes them or not.
  pub send_each-payloads :
      (clock : ℕ → ℤ × ℤ) (i n : ℕ)
      → f.target.kind ≡ topic
      → (map (λ (s : Sent). s.payload) (send_each go mesh net c bytes f clock i n).0
          ≡ payloads bytes f.payload i n)
        × (length (send_each go mesh net c bytes f clock i n).1 ≡ n)
  unfolding send_each
  send_each-payloads clock i zero k = (refl, refl)
  send_each-payloads clock i (suc n) k =
      let (s, r, one, p) = send_as-one i (clock i).0 (clock i).1 in
      let rest = send_each go mesh net c bytes f clock (suc i) n in
      let round : List Sent × Line → List Sent × List Line =
        λ x. (x.0 ++ (after_line x.1 rest).0, x.1 ∷ (after_line x.1 rest).1) in
      let all : send_each go mesh net c bytes f clock i (suc n)
          ≡ (s ∷ rest.0, publish_line i (returned r) ∷ rest.1) =
        ap (λ t. round (send_as t go mesh net c bytes f i (clock i).0 (clock i).1)) k
        ∙ ap round one
        ∙ ap (λ (x : List Sent × List Line). (s ∷ x.0, publish_line i (returned r) ∷ x.1))
            (goes_on i r rest) in
      let (payloads_of_rest, lines_of_rest) = send_each-payloads clock (suc i) n k in
      (
        ap (λ (x : List Sent × List Line). map (λ (s : Sent). s.payload) x.0) all
            ∙ ap (λ q. q ∷ map (λ (s : Sent). s.payload) rest.0) p
            ∙ ap (λ ps. bytes (numbered f.payload i) ∷ ps) payloads_of_rest,
        ap (λ (x : List Sent × List Line). length x.1) all ∙ ap suc lines_of_rest,
      )
