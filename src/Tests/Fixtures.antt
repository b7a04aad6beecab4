-- ===== src/Tests/Fixtures.antt =====
-- The names and functions of mesh and nats.go as their documentation gives them, and the messages
-- and settings that the tests share.
use service_mesh_nats_go.Prelude.{
  String, ◌≡◌, refl, Bool, true, false, ◌&&◌, [], ◌∷◌, none, some, ◌==◌,
}
use service_mesh_nats_go.Prelude.Int.{pos}
use service_mesh_nats_go.Go.Text.{join}
use service_mesh_nats_go.Go.Map.{Map, put, get-put, put-IsMap}
use service_mesh_nats_go.Mesh.{Kind, route, topic, Target, Message, Contract, IsLawful, kind_eq}
use service_mesh_nats_go.Client.{Client, Context}

abbrev pub contract : Contract
contract = record {
  deployment_group_key = "deployment_group";
  consumer_group_none = "none";
  message_id_key = "Mesh-Message-Id";
  timeout_key = "Mesh-Timeout";
  deadline_key = "Mesh-Deadline";
  delivery_attempt_key = "Mesh-Delivery-Attempt";
  handler_error_key = "Mesh-Handler-Error";
  target_equal = λ s t. kind_eq s.kind t.kind && (join "." s.segments == join "." t.segments);
  msg_id_header = "Nats-Msg-Id";
  expected_stream_header = "Nats-Expected-Stream";
  default_url = "nats://127.0.0.1:4222";
  header_set = λ h k v. put h k (v ∷ []);
}

equal_kinds : (j k : Kind) (b : Bool) → (kind_eq j k && b) ≡ true → j ≡ k
equal_kinds route route b h = refl
equal_kinds topic topic b h = refl
equal_kinds route topic b h = cc
equal_kinds topic route b h = cc

pub contract-IsLawful : IsLawful contract
contract-IsLawful = record {
  get-header_set = λ h k j v. get-put h k j (v ∷ []);
  header_set-IsMap = λ h k v m. put-IsMap h k (v ∷ []) m;
  id_keys_differ = λ e. cc;
  none_is_named = λ e. cc;
  equal_kinds = λ s t e. equal_kinds s.kind t.kind (join "." s.segments == join "." t.segments) e;
}

-- The target of a route, and that of a topic which asks for a stream.
abbrev pub create_order : Target
create_order = record { segments = "orders" ∷ "create" ∷ []; kind = route; metadata = [] }

abbrev pub order_created : Target
order_created = record {
  segments = "orders" ∷ "created" ∷ [];
  kind = topic;
  metadata = ("stream", "ORDERS") ∷ [];
}

abbrev pub order_metadata : Map String
order_metadata = ("Mesh-Message-Id", "m-1") ∷ ("tenant", "acme") ∷ []

abbrev pub create_message : Message
create_message = record {
  target = create_order;
  metadata = some order_metadata;
  payload = 7 ∷ 8 ∷ [];
}

abbrev pub created_message : Message
created_message = record {
  target = order_created;
  metadata = some order_metadata;
  payload = 7 ∷ [];
}

abbrev pub open_client : Client
open_client = record { request_timeout = pos 5_000_000_000; closed = false; closes = 0 }

abbrev pub background : Context
background = record { deadline = none; error = none }
