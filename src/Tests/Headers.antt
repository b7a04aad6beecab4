-- ===== src/Tests/Headers.antt =====
-- Metadata on its way through a header.
use service_mesh_nats_go.Prelude.{
  String, ◌≡◌, refl, [], ◌∷◌, Option, some, or_else, ◌==◌, if◌then◌else◌,
}
use service_mesh_nats_go.Go.Map.{get}
use service_mesh_nats_go.Mesh.{Header}
use service_mesh_nats_go.Header.{returned, outgoing_header, incoming_metadata}
use service_mesh_nats_go.Header.RoundTrip.{incoming-outgoing}
use service_mesh_nats_go.Tests.Fixtures.{contract, contract-IsLawful, order_metadata}

incoming-outgoing_example :
    (h : Option Header) × (outgoing_header contract (some order_metadata) ≡ returned h)
    × ((j : String)
        → get (incoming_metadata contract h) j ≡ (
            if "Mesh-Message-Id" == j
            then or_else (get order_metadata "Mesh-Message-Id") (get order_metadata "Nats-Msg-Id")
            else if "Nats-Msg-Id" == j
            then or_else (get order_metadata "Mesh-Message-Id") (get order_metadata "Nats-Msg-Id")
            else get order_metadata j))
unfolding get
incoming-outgoing_example =
    incoming-outgoing contract contract-IsLawful (some order_metadata) (refl, (refl, tt))

-- A message of a publisher that knows nothing of mesh.
abbrev plain_header : Header
plain_header = ("Nats-Msg-Id", "p-9" ∷ []) ∷ ("trace", "t" ∷ "u" ∷ []) ∷ []
