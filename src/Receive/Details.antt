-- ===== src/Receive/Details.antt =====
-- What deliveryMetadata puts into the metadata of a message.
use service_mesh_nats_go.Prelude.{
  String, ◌≡◌, ◌≢◌, List, [], ◌∷◌, some, arith, ◌==◌, eq_iff, eq_refl, if◌then◌else◌, All,
}
use service_mesh_nats_go.Go.Platform.{Platform}
use service_mesh_nats_go.Go.Decimal.{format_uint}
use service_mesh_nats_go.Go.Map.{Map, get, get-put}
use service_mesh_nats_go.Mesh.{Contract}
use service_mesh_nats_go.Receive.Messages.{
  MsgMetadata, delivery_metadata, stream_metadata_key, consumer_metadata_key,
  stream_sequence_metadata_key, consumer_sequence_metadata_key, num_pending_metadata_key,
  timestamp_metadata_key,
}

-- The keys that the transport defines.
abbrev pub own_keys : List String
own_keys =
    stream_metadata_key ∷ consumer_metadata_key ∷ stream_sequence_metadata_key
    ∷ consumer_sequence_metadata_key ∷ num_pending_metadata_key ∷ timestamp_metadata_key ∷ []

-- A key is none of these.
abbrev pub IsOther : List String → String → Type 0
IsOther ks j = All (λ k. j ≢ k) ks

-- The delivery's details, and everything else as it was.
pub record HasDetails (go : Platform) (mesh : Contract) (meta : MsgMetadata)
    (before after : Map String) : Type 0 where
  pub attempt : get after mesh.delivery_attempt_key ≡ some (format_uint meta.num_delivered)
  pub stream : get after stream_metadata_key ≡ some meta.stream
  pub consumer : get after consumer_metadata_key ≡ some meta.consumer
  pub stream_sequence :
      get after stream_sequence_metadata_key ≡ some (format_uint meta.stream_sequence)
  pub consumer_sequence :
      get after consumer_sequence_metadata_key ≡ some (format_uint meta.consumer_sequence)
  pub num_pending : get after num_pending_metadata_key ≡ some (format_uint meta.num_pending)
  pub timestamp : get after timestamp_metadata_key ≡ some (go.format_time meta.timestamp)
  pub kept :
      (j : String)
      → j ≢ mesh.deadline_key
      → j ≢ mesh.delivery_attempt_key
      → IsOther own_keys j
      → get after j ≡ get before j

module _ (go : Platform) (mesh : Contract) (md : Map String) (meta : MsgMetadata) where
  pub get-delivery_metadata :
      (j : String)
      → get (delivery_metadata go mesh md meta) j ≡ (
          if timestamp_metadata_key == j
          then some (go.format_time meta.timestamp)
          else if num_pending_metadata_key == j
          then some (format_uint meta.num_pending)
          else if consumer_sequence_metadata_key == j
          then some (format_uint meta.consumer_sequence)
          else if stream_sequence_metadata_key == j
          then some (format_uint meta.stream_sequence)
          else if consumer_metadata_key == j
          then some meta.consumer
          else if stream_metadata_key == j
          then some meta.stream
          else if mesh.delivery_attempt_key == j
          then some (format_uint meta.num_delivered)
          else get md j)
  unfolding delivery_metadata
  get-delivery_metadata j = simp get-put

  pub kept_by_details :
      (j : String)
      → j ≢ mesh.delivery_attempt_key
      → IsOther own_keys j
      → get (delivery_metadata go mesh md meta) j ≡ get md j
  kept_by_details j n o = ground (
    arith,
    get-delivery_metadata j,
    eq_iff mesh.delivery_attempt_key j,
    eq_iff stream_metadata_key j,
    eq_iff consumer_metadata_key j,
    eq_iff stream_sequence_metadata_key j,
    eq_iff consumer_sequence_metadata_key j,
    eq_iff num_pending_metadata_key j,
    eq_iff timestamp_metadata_key j,
  )

  pub attempt_of_details :
      IsOther own_keys mesh.delivery_attempt_key
      → get (delivery_metadata go mesh md meta) mesh.delivery_attempt_key
        ≡ some (format_uint meta.num_delivered)
  attempt_of_details o =
      let j = mesh.delivery_attempt_key in
      ground (
        arith,
        get-delivery_metadata j,
        eq_refl j,
        eq_iff stream_metadata_key j,
        eq_iff consumer_metadata_key j,
        eq_iff stream_sequence_metadata_key j,
        eq_iff consumer_sequence_metadata_key j,
        eq_iff num_pending_metadata_key j,
        eq_iff timestamp_metadata_key j,
      )

  pub delivery_metadata-HasDetails :
      IsOther own_keys mesh.delivery_attempt_key
      → HasDetails go mesh meta md (delivery_metadata go mesh md meta)
  delivery_metadata-HasDetails n = record {
    attempt = attempt_of_details n;
    stream = get-delivery_metadata stream_metadata_key;
    consumer = get-delivery_metadata consumer_metadata_key;
    stream_sequence = get-delivery_metadata stream_sequence_metadata_key;
    consumer_sequence = get-delivery_metadata consumer_sequence_metadata_key;
    num_pending = get-delivery_metadata num_pending_metadata_key;
    timestamp = get-delivery_metadata timestamp_metadata_key;
    kept = λ j d a o. kept_by_details j a o;
  }
