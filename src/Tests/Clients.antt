-- ===== src/Tests/Clients.antt =====
-- Requests, publishes and timeouts of a concrete client.
use service_mesh_nats_go.Prelude.{arith, String, ◌≡◌, ◌⊎◌, refl, [], ◌∷◌, none, some}
use service_mesh_nats_go.Prelude.Int.{ℤ, pos}
use service_mesh_nats_go.Go.Duration.{exact}
use service_mesh_nats_go.Go.Map.{get}
use service_mesh_nats_go.Errors.{Error, err}
use service_mesh_nats_go.Header.{returned}
use service_mesh_nats_go.Client.{
  Reply, Network, answered, prepare_request, prepare_publish, request, publish, bound_context,
}
use service_mesh_nats_go.Client.Requests
use service_mesh_nats_go.Client.Publishes
use service_mesh_nats_go.Client.Timeouts.{IsBounded, bound_context-IsBounded}
use service_mesh_nats_go.Tests.Fixtures.{
  contract, contract-IsLawful, create_message, created_message, open_client, background,
}

abbrev echo : Reply
echo = record { header = some (("tenant", "acme" ∷ []) ∷ []); payload = 9 ∷ [] }

-- A server that answers every request and stores every message.
abbrev server : Network
server = record {
  request = λ b m. answered echo;
  publish = λ m. none;
  jetstream_publish = λ b m. answered tt;
}

request-Exchanges_example :
    ((e : Error) × (prepare_request exact open_client create_message [] ≡ err e)
      × (request exact contract server open_client background (pos 100) (pos 101) create_message []
          ≡ record { sent = []; outcome = returned (err e) }))
    ⊎ ((subj : String) × (timeout : ℤ) × Requests.Passes exact open_client create_message [] subj
          timeout
        × Requests.Exchanges contract server create_message subj
            (bound_context background.deadline timeout (pos 100) (pos 101))
            (request exact contract server open_client background
              (pos 100)
              (pos 101)
              create_message
              []))
unfolding get
request-Exchanges_example =
    Requests.request-Exchanges exact contract server open_client background (pos 100) (pos 101)
      create_message [] contract-IsLawful (refl, (refl, tt))

publish-Sends_example :
    ((e : Error) × (prepare_publish exact open_client background created_message [] ≡ err e)
      × (publish exact contract server open_client background (pos 100) (pos 101) created_message []
          ≡ record { sent = []; outcome = returned (err e) }))
    ⊎ ((subj : String) × (stream : String) × (timeout : ℤ) × Publishes.Passes exact open_client
          background created_message [] subj stream timeout
        × Publishes.Sends contract server created_message subj stream
            (bound_context background.deadline timeout (pos 100) (pos 101))
            (publish exact contract server open_client background
              (pos 100)
              (pos 101)
              created_message
              []))
unfolding get
publish-Sends_example =
    Publishes.publish-Sends exact contract server open_client background (pos 100) (pos 101)
      created_message [] contract-IsLawful (refl, (refl, tt))

bound_context-IsBounded_example :
    IsBounded
      (some (pos 150))
      (pos 80)
      (pos 100)
      (pos 101)
      (bound_context (some (pos 150)) (pos 80) (pos 100) (pos 101))
bound_context-IsBounded_example =
    bound_context-IsBounded (some (pos 150)) (pos 80) (pos 100) (pos 101) (omega arith)
