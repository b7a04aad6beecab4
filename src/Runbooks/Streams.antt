-- ===== src/Runbooks/Streams.antt =====
-- docs/runbooks/cmd/streams/main.go: the command that creates, inspects and deletes streams and
-- consumers. What jetstream answers is an argument.
pub mod Arguments
use service_mesh_nats_go.Prelude.{
  ℕ, ◌*◌, String, Bool, true, false, List, [], ◌∷◌, Option, none, some, ◌==◌, if◌then◌else◌,
}
use service_mesh_nats_go.Prelude.Int.{ℤ}
use service_mesh_nats_go.Mesh.{Contract}
use service_mesh_nats_go.Errors.{Error, Result, ok, err}
use service_mesh_nats_go.Config.{second}

pub data Retention : Type 0 where
  limits interest workqueue : Retention

pub record StreamConfig : Type 0 where
  pub name : String
  pub subjects : List String
  pub retention : Retention

-- Its AckPolicy is AckExplicitPolicy.
pub record ConsumerConfig : Type 0 where
  pub durable : String
  pub filter_subject : String
  pub ack_wait : ℕ

-- What is printed of a stream and of a consumer.
pub record StreamInfo : Type 0 where
  pub name : String
  pub subjects : List String
  pub messages : ℕ
  pub first_sequence : ℕ
  pub last_sequence : ℕ
  pub consumers : ℕ

pub record ConsumerInfo : Type 0 where
  pub name : String
  pub pending : ℕ
  pub ack_pending : ℕ
  pub redelivered : ℕ
  -- the text of its ack policy
  pub ack_policy : String
  pub ack_wait : ℤ
  pub max_deliver : ℤ
  pub inactive_threshold : ℤ

-- A call of jetstream.
pub data Request : Type 0 where
  create_stream : StreamConfig → Request
  look_up : String → Request
  stream_info : String → Request
  list_consumers : String → Request
  create_consumer : String → ConsumerConfig → Request
  delete_stream : String → Request

pub record JetStream : Type 0 where
  -- the name and the retention in the answer
  pub created : StreamConfig → Result (String × Retention)
  pub found : String → Option Error
  pub info : String → Result StreamInfo
  -- those that the channel brings, and the error afterwards
  pub listed : String → List ConsumerInfo × Option Error
  -- the name in the answer
  pub made : String → ConsumerConfig → Result String
  pub deleted : String → Option Error

pub data Output : Type 0 where
  created_line : String → List String → Retention → Output
  stream_line : StreamInfo → Output
  consumer_line : ConsumerInfo → Output
  made_line : String → String → Output
  deleted_line : String → Output

-- How the process ends: with the usage, with log.Fatal, with a panic of an index out of range, or
-- by itself.
pub data Ended : Type 0 where
  usage : Ended
  fatal : String → Error → Ended
  out_of_range : Ended
  done : Ended

pub record Run : Type 0 where
  pub requests : List Request
  pub lines : List Output
  pub ended : Ended

abbrev pub ends : Ended → Run
ends e = record { requests = []; lines = []; ended = e }

-- The retention that the third argument of add names.
unfoldable pub retention_of : List String → Retention
retention_of [] = limits
retention_of (word ∷ more) =
    if word == "interest" then interest else if word == "workqueue" then workqueue else limits

abbrev pub stream_config : String → String → List String → StreamConfig
stream_config name subject more = record {
  name = name;
  subjects = subject ∷ [];
  retention = retention_of more;
}

abbrev pub created_run : StreamConfig → Result (String × Retention) → Run
created_run cfg (err e) = record {
  requests = create_stream cfg ∷ [];
  lines = [];
  ended = fatal "add" e;
}
created_run cfg (ok (name, retention)) = record {
  requests = create_stream cfg ∷ [];
  lines = created_line name cfg.subjects retention ∷ [];
  ended = done;
}

unfoldable pub add_stream : JetStream → String → List String → Run
unfolding retention_of
add_stream js name [] = ends out_of_range
add_stream js name (subject ∷ more) =
    let cfg = stream_config name subject more in created_run cfg (js.created cfg)

-- js.Stream, and then the rest.
abbrev pub looked_up : String → String → Option Error → Run → Run
looked_up verb name (some e) rest = record {
  requests = look_up name ∷ [];
  lines = [];
  ended = fatal verb e;
}
looked_up verb name none rest = record {
  requests = look_up name ∷ rest.requests;
  lines = rest.lines;
  ended = rest.ended;
}

abbrev pub info_run : String → Result StreamInfo → Run
info_run name (err e) = record {
  requests = stream_info name ∷ [];
  lines = [];
  ended = fatal "info" e;
}
info_run name (ok info) = record {
  requests = stream_info name ∷ [];
  lines = stream_line info ∷ [];
  ended = done;
}

abbrev pub consumer_lines : List ConsumerInfo → List Output
consumer_lines [] = []
consumer_lines (info ∷ infos) = consumer_line info ∷ consumer_lines infos

abbrev pub list_end : Option Error → Ended
list_end none = done
list_end (some e) = fatal "consumers" e

abbrev pub list_run : String → List ConsumerInfo × Option Error → Run
list_run name (infos, e) = record {
  requests = list_consumers name ∷ [];
  lines = consumer_lines infos;
  ended = list_end e;
}

abbrev pub explicit_config : String → String → ConsumerConfig
explicit_config name subject = record {
  durable = name;
  filter_subject = subject;
  ack_wait = 60 * second;
}

abbrev pub made_run : String → ConsumerConfig → Result String → Run
made_run stream cfg (err e) = record {
  requests = create_consumer stream cfg ∷ [];
  lines = [];
  ended = fatal "add-consumer" e;
}
made_run stream cfg (ok name) = record {
  requests = create_consumer stream cfg ∷ [];
  lines = made_line name stream ∷ [];
  ended = done;
}

unfoldable pub add_consumer : JetStream → String → List String → Run
add_consumer js stream (name ∷ subject ∷ more) =
    let cfg = explicit_config name subject in made_run stream cfg (js.made stream cfg)
add_consumer js stream _ = ends out_of_range

abbrev pub deleted_run : String → Option Error → Run
deleted_run name (some e) = record {
  requests = delete_stream name ∷ [];
  lines = [];
  ended = fatal "rm" e;
}
deleted_run name none = record {
  requests = delete_stream name ∷ [];
  lines = deleted_line name ∷ [];
  ended = done;
}

-- The switch on the verb, with os.Args[2] and what follows it.
unfoldable pub run_verb : JetStream → String → String → List String → Run
unfolding add_stream add_consumer
run_verb js verb name more =
    if verb == "add"
    then add_stream js name more
    else if verb == "info"
    then looked_up "info" name (js.found name) (info_run name (js.info name))
    else if verb == "consumers"
    then looked_up "consumers" name (js.found name) (list_run name (js.listed name))
    else if verb == "add-consumer"
    then add_consumer js name more
    else if verb == "rm"
    then deleted_run name (js.deleted name)
    else ends usage

-- main, given os.Args. `connect` is natsio.Connect with jetstream.New after it: which of the two
-- failed, and why.
abbrev pub connected_run : String → String → List String → Result (Result JetStream) → Run
connected_run verb name more (err e) = ends (fatal "connect" e)
connected_run verb name more (ok (err e)) = ends (fatal "jetstream" e)
connected_run verb name more (ok (ok js)) = run_verb js verb name more

unfoldable pub streams_main :
    Contract → (String → Result (Result JetStream)) → String → List String → Run
unfolding run_verb
streams_main mesh connect url (program ∷ verb ∷ name ∷ more) =
    connected_run verb name more (connect (if url == "" then mesh.default_url else url))
streams_main mesh connect url _ = ends usage
