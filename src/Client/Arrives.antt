-- ===== src/Client/Arrives.antt =====
-- A header of nats/header.go to which one more key is added before it is sent, as the metadata that
-- a handler reads from it.
use service_mesh_nats_go.Prelude.{
  String, ◌≡◌, ◌≢◌, refl, ap, ◌∙◌, Option, none, some, or_else, arith, eq_iff, eq_refl, ◌==◌,
  if◌then◌else◌,
}
use service_mesh_nats_go.Go.Map.{IsMap, entries, get}
use service_mesh_nats_go.Mesh.{Message, Header, Contract, IsLawful}
use service_mesh_nats_go.Header.{returned, outgoing_header, incoming_metadata}
use service_mesh_nats_go.Header.RoundTrip.{
  first, single, get-incoming_metadata, outgoing_header-IsMap,
}
use service_mesh_nats_go.Client.{header_or_new}

first-single : (o : Option String) → first (single o) ≡ o
first-single none = refl
first-single (some v) = refl

get-header_or_new : (h : Option Header) (j : String) → get (header_or_new h) j ≡ get (entries h) j
get-header_or_new none j = refl
get-header_or_new (some x) j = refl

header_or_new-IsMap : (h : Option Header) → IsMap (entries h) → IsMap (header_or_new h)
header_or_new-IsMap none i = tt
header_or_new-IsMap (some x) i = i

-- The id of a message, under either of its keys.
abbrev pub given_id : Contract → Message → Option String
given_id mesh msg =
    or_else (get (entries msg.metadata) mesh.message_id_key)
      (get (entries msg.metadata) mesh.msg_id_header)

module _ (mesh : Contract) (law : IsLawful mesh) (msg : Message) (h : Option Header)
    (out : outgoing_header mesh msg.metadata ≡ returned h) (m : IsMap (entries msg.metadata))
    (k v : String) where
  abbrev pub added : Option Header
  added = some (mesh.header_set (header_or_new h) k v)

  added-IsMap : IsMap (entries added)
  unfolding get
  added-IsMap =
      law.header_set-IsMap (header_or_new h) k v
        (header_or_new-IsMap h (outgoing_header-IsMap mesh law msg.metadata h out m).0)

  -- What is sent under a key.
  first-added :
      (j : String)
      → first (get (entries added) j) ≡ (
          if k == j
          then some v
          else or_else
              (if mesh.msg_id_header == j
                then get (entries msg.metadata) mesh.message_id_key
                else none)
              (get (entries msg.metadata) j))
  first-added j =
      rw
        (
          law.get-header_set (header_or_new h) k j v,
          get-header_or_new h j,
          (outgoing_header-IsMap mesh law msg.metadata h out m).1 j,
        )
        (ground (
          arith,
          first-single (
              or_else
                (if mesh.msg_id_header == j
                  then get (entries msg.metadata) mesh.message_id_key
                  else none)
                (get (entries msg.metadata) j)),
        ))

  -- The key that is added arrives, unless it is that of the message id.
  pub added-arrives : k ≢ mesh.message_id_key → get (incoming_metadata mesh added) k ≡ some v
  added-arrives n =
      rw (get-incoming_metadata mesh law added k added-IsMap, first-added k)
        (ground (arith, eq_iff k k, eq_iff mesh.message_id_key k))

  pub others-arrive :
      (j : String)
      → j ≢ k
      → j ≢ mesh.message_id_key
      → j ≢ mesh.msg_id_header
      → get (incoming_metadata mesh added) j ≡ get (entries msg.metadata) j
  others-arrive j n i l =
      rw (get-incoming_metadata mesh law added j added-IsMap, first-added j)
        (ground (arith, eq_iff k j, eq_iff mesh.message_id_key j, eq_iff mesh.msg_id_header j))

  -- The id arrives under both of its keys.
  pub message_id-arrives :
      k ≢ mesh.message_id_key
      → k ≢ mesh.msg_id_header
      → get (incoming_metadata mesh added) mesh.message_id_key ≡ given_id mesh msg
  message_id-arrives n o =
      rw
        (
          get-incoming_metadata mesh law added mesh.message_id_key added-IsMap,
          first-added mesh.message_id_key,
          first-added mesh.msg_id_header,
        )
        (ground (
          arith,
          law.id_keys_differ,
          eq_refl mesh.message_id_key,
          eq_refl mesh.msg_id_header,
          eq_iff k mesh.message_id_key,
          eq_iff k mesh.msg_id_header,
          eq_iff mesh.msg_id_header mesh.message_id_key,
        ))

  pub msg_id-arrives :
      k ≢ mesh.msg_id_header
      → get (incoming_metadata mesh added) mesh.msg_id_header ≡ given_id mesh msg
  msg_id-arrives o =
      rw
        (
          get-incoming_metadata mesh law added mesh.msg_id_header added-IsMap,
          first-added mesh.msg_id_header,
        )
        (ground (
          arith,
          law.id_keys_differ,
          eq_refl mesh.msg_id_header,
          eq_iff k mesh.msg_id_header,
          eq_iff mesh.message_id_key mesh.msg_id_header,
        ))

-- The same of a header to which nothing is added.
module _ (mesh : Contract) (law : IsLawful mesh) (msg : Message) (h : Option Header)
    (out : outgoing_header mesh msg.metadata ≡ returned h) (m : IsMap (entries msg.metadata)) where
  first-sent :
      (j : String)
      → first (get (entries h) j)
        ≡ or_else
            (if mesh.msg_id_header == j
              then get (entries msg.metadata) mesh.message_id_key
              else none)
            (get (entries msg.metadata) j)
  first-sent j =
      ap first ((outgoing_header-IsMap mesh law msg.metadata h out m).1 j) ∙ first-single _

  get-sent :
      (j : String)
      → get (incoming_metadata mesh h) j
        ≡ or_else
            (if mesh.message_id_key == j then first (get (entries h) mesh.msg_id_header) else none)
            (first (get (entries h) j))
  get-sent j =
      get-incoming_metadata mesh law h j (outgoing_header-IsMap mesh law msg.metadata h out m).0

  pub others-return :
      (j : String)
      → j ≢ mesh.message_id_key
      → j ≢ mesh.msg_id_header
      → get (incoming_metadata mesh h) j ≡ get (entries msg.metadata) j
  others-return j i l =
      rw (get-sent j, first-sent j)
        (ground (arith, eq_iff mesh.message_id_key j, eq_iff mesh.msg_id_header j))

  pub message_id-returns : get (incoming_metadata mesh h) mesh.message_id_key ≡ given_id mesh msg
  message_id-returns =
      rw
        (
          get-sent mesh.message_id_key,
          first-sent mesh.message_id_key,
          first-sent mesh.msg_id_header,
          eq_refl mesh.msg_id_header,
        )
        (ground (
          arith,
          law.id_keys_differ,
          eq_refl mesh.message_id_key,
          eq_iff mesh.msg_id_header mesh.message_id_key,
        ))

  pub msg_id-returns : get (incoming_metadata mesh h) mesh.msg_id_header ≡ given_id mesh msg
  msg_id-returns =
      rw (get-sent mesh.msg_id_header, first-sent mesh.msg_id_header)
        (ground (
          arith,
          law.id_keys_differ,
          eq_refl mesh.msg_id_header,
          eq_iff mesh.message_id_key mesh.msg_id_header,
        ))
