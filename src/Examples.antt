-- ===== src/Examples.antt =====
-- The programs under examples/: the targets that all three declare, and what they take from the
-- environment.
pub mod Reports
pub mod Client
pub mod Server
pub mod Echo
pub mod Echoed
pub mod Asked
pub mod EndToEnd
pub mod Misuse
pub mod Finished
use service_mesh_nats_go.Prelude.{
  String, Bool, true, false, ◌&&◌, List, [], ◌∷◌, ◌==◌, eqb, if◌then◌else◌,
}
use service_mesh_nats_go.Mesh.{route, topic, Target, Payload}

abbrev pub echo_target : Target
echo_target = record { segments = "demo" ∷ "echo" ∷ []; kind = route; metadata = [] }

abbrev pub created_target : Target
created_target = record { segments = "demo" ∷ "created" ∷ []; kind = topic; metadata = [] }

-- A variable of the environment, or its default when it is empty.
abbrev pub or_default : String → String → String
or_default v default = if v == "" then default else v

-- string(payload) == text, given the bytes of the text
abbrev pub payload_eq : Payload → Payload → Bool
payload_eq [] [] = true
payload_eq (x ∷ xs) (y ∷ ys) = eqb x y && payload_eq xs ys
payload_eq _ _ = false
