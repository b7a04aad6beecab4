-- ===== src/Receive/Logs.antt =====
-- What nats/runtime_jetstream.go logs of a message.
use service_mesh_nats_go.Prelude.{ℕ, String, Bool, true, false, List, [], ◌∷◌, ◌==◌, if◌then◌else◌}
use service_mesh_nats_go.Prelude.Int.{ℤ}
use service_mesh_nats_go.Errors.{Error}
use service_mesh_nats_go.Consumer.{JsConsumer, late_start_logged}
use service_mesh_nats_go.Receive.Messages.{MsgMetadata, JsSubscription}

pub data Value : Type 0 where
  text : String → Value
  number : ℕ → Value
  integer : ℤ → Value
  duration : ℤ → Value
  flag : Bool → Value
  error : Error → Value

pub data Level : Type 0 where
  level_warn level_error : Level

-- One record of the log, with its attributes.
pub record Log : Type 0 where
  pub level : Level
  pub message : String
  pub attrs : List (String × Value)

abbrev pub warn : String → List (String × Value) → Log
warn message attrs = record { level = level_warn; message = message; attrs = attrs }

abbrev pub log_error : String → List (String × Value) → Log
log_error message attrs = record { level = level_error; message = message; attrs = attrs }

abbrev pub with_message_id : String → List (String × Value) → List (String × Value)
with_message_id id rest = if id == "" then rest else ("message_id", text id) ∷ rest

-- The attributes that logLateStart and logFinalFailure begin with.
abbrev pub message_attrs :
    JsSubscription → MsgMetadata → List (String × Value) → List (String × Value)
message_attrs b meta rest =
    ("subject", text b.subject)
    ∷ ("stream", text b.js.stream)
    ∷ ("consumer", text meta.consumer)
    ∷ ("stream_sequence", number meta.stream_sequence)
    ∷ ("delivery_attempt", number meta.num_delivered)
    ∷ rest

abbrev pub late_start_logs : JsSubscription → MsgMetadata → String → ℤ → ℕ → Bool → List Log
late_start_logs b meta id late_by skipped false = []
late_start_logs b meta id late_by skipped true =
    warn "nats: handler started after its ack deadline" (
      message_attrs b meta
        (with_message_id id (("late_by", duration late_by) ∷ ("skipped", number skipped) ∷ [])))
    ∷ []

unfoldable pub log_late_start :
    JsSubscription → JsConsumer → MsgMetadata → String → ℤ → ℤ → JsConsumer × List Log
log_late_start b c meta id now late_by =
    let (c', skipped, is_logged) = late_start_logged c now in
    (c', late_start_logs b meta id late_by skipped is_logged)

unfoldable pub log_final_failure : JsSubscription → JsConsumer → MsgMetadata → String → Log
log_final_failure b c meta id =
    log_error "nats: message will not be delivered again"
      (message_attrs b meta (("max_deliver", integer c.max_deliver) ∷ with_message_id id []))
