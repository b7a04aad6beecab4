-- ===== src/Header.antt =====
-- nats/header.go: message metadata and NATS headers. A map that may be nil is an option.
pub mod RoundTrip
use service_mesh_nats_go.Prelude.{String, List, [], ◌∷◌, Option, none, some}
use service_mesh_nats_go.Go.Map.{Map, entries, get, put}
use service_mesh_nats_go.Mesh.{Contract, Header}

-- A write to a nil map panics.
pub data Outcome {ℓ} (A : Type ℓ) : Type ℓ where
  returned : A → Outcome A
  panic : Outcome A

-- The loop of toHeader.
unfoldable pub set_all : Contract → Header → Map String → Header
set_all mesh h [] = h
set_all mesh h ((k, v) ∷ md) = set_all mesh (mesh.header_set h k v) md

unfoldable pub to_header : Contract → Option (Map String) → Option Header
to_header mesh none = none
to_header mesh (some []) = none
to_header mesh (some (e ∷ md)) = some (set_all mesh [] (e ∷ md))

-- The loop of fromHeader. A key with no value is left out.
unfoldable pub first_values : Map String → Header → Map String
first_values md [] = md
first_values md ((k, []) ∷ h) = first_values md h
first_values md ((k, v ∷ vs) ∷ h) = first_values (put md k v) h

unfoldable pub from_header : Option Header → Option (Map String)
from_header none = none
from_header (some []) = none
from_header (some (e ∷ h)) = some (first_values [] (e ∷ h))

-- h.Set(jetstream.MsgIDHeader, id) when the metadata has an id
unfoldable pub set_id : Contract → Option Header → Option String → Outcome (Option Header)
set_id mesh h none = returned h
set_id mesh none (some id) = panic
set_id mesh (some h) (some id) = returned (some (mesh.header_set h mesh.msg_id_header id))

unfoldable pub outgoing_header : Contract → Option (Map String) → Outcome (Option Header)
unfolding set_id
outgoing_header mesh md = set_id mesh (to_header mesh md) (get (entries md) mesh.message_id_key)

-- md[mesh.MessageIDKey] = id when the header has one
unfoldable pub copy_id : Contract → Map String → Option String → Map String
copy_id mesh md none = md
copy_id mesh md (some id) = put md mesh.message_id_key id

unfoldable pub incoming_metadata : Contract → Option Header → Map String
unfolding copy_id
incoming_metadata mesh h =
    let md = entries (from_header h) in copy_id mesh md (get md mesh.msg_id_header)
