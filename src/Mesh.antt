-- ===== src/Mesh.antt =====
-- The types of `service-mesh-go/mesh` that the program uses, with the fields that it reads, and the
-- names and functions of mesh, nats.go and jetstream as a record that every definition which needs
-- them takes: that code is outside the repository.
use service_mesh_nats_go.Prelude.{
  ℕ, String, ◌≡◌, ◌≢◌, Bool, true, false, List, [], ◌∷◌, Option, some, if◌then◌else◌, ◌==◌,
}
use service_mesh_nats_go.Go.Map.{Map, IsMap, get}

pub data Kind : Type 0 where
  route topic : Kind

pub record Target : Type 0 where
  pub segments : List String
  pub kind : Kind
  pub metadata : Map String

abbrev pub Payload : Type 0
Payload = List ℕ

pub record Message : Type 0 where
  pub target : Target
  pub metadata : Option (Map String)
  pub payload : Payload

-- An Endpoint or a Subscriber: both have these four fields, and a handler may be nil.
pub record Endpoint {ℓ} (Handler : Type ℓ) : Type ℓ where
  pub target : Target
  pub consumer_group : String
  pub metadata : Map String
  pub handler : Option Handler

-- natsio.Header, a map from a key to its values
abbrev pub Header : Type 0
Header = Map (List String)

pub record Contract : Type 0 where
  -- constants of mesh
  pub deployment_group_key : String
  pub consumer_group_none : String
  pub message_id_key : String
  pub timeout_key : String
  pub deadline_key : String
  pub delivery_attempt_key : String
  pub handler_error_key : String
  -- Target.Equal
  pub target_equal : Target → Target → Bool
  -- jetstream.MsgIDHeader, jetstream.ExpectedStreamHeader, natsio.DefaultURL
  pub msg_id_header : String
  pub expected_stream_header : String
  pub default_url : String
  -- natsio.Header.Set on a header that is not nil
  pub header_set : Header → String → String → Header

-- What mesh and nats.go document of these.
pub record IsLawful (c : Contract) : Type 0 where
  -- Set replaces the values of its key by one value, and leaves the other keys.
  pub get-header_set :
      (h : Header) (k j v : String)
      → get (c.header_set h k v) j ≡ (if k == j then some (v ∷ []) else get h j)
  pub header_set-IsMap : (h : Header) (k v : String) → IsMap h → IsMap (c.header_set h k v)
  -- The key that the server reads is not a key of the specification.
  pub id_keys_differ : c.message_id_key ≢ c.msg_id_header
  pub none_is_named : c.consumer_group_none ≢ ""
  -- Target.Equal compares kinds.
  pub equal_kinds : (s t : Target) → c.target_equal s t ≡ true → s.kind ≡ t.kind

abbrev pub kind_eq : Kind → Kind → Bool
kind_eq route route = true
kind_eq topic topic = true
kind_eq route topic = false
kind_eq topic route = false
