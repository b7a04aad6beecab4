-- ===== src/Runbooks/ServeHandler.antt =====
-- docs/runbooks/cmd/serve/main.go: the configuration, the handler, and what is printed of a message
-- and of the receiver.
pub mod Printed
pub mod Calls
use service_mesh_nats_go.Prelude.{
  ℕ, zero, suc, ◌+◌, ◌-◌, ◌%◌, String, Bool, true, false, List, [], ◌∷◌, ◌++◌, map, Option, none,
  some, ltb, if◌then◌else◌,
}
use service_mesh_nats_go.Prelude.Int.{ℤ, pos, negsuc, ltb_ℤ, leb_ℤ, min_ℤ, max_ℤ}
use service_mesh_nats_go.Go.Platform.{Platform}
use service_mesh_nats_go.Go.Time.{add_time, sub_time, min_duration, max_duration}
use service_mesh_nats_go.Go.Map.{Map, get, put, entries}
use service_mesh_nats_go.Go.SortedKeys.{sorted_keys}
use service_mesh_nats_go.Mesh.{Target, Message, Payload, Contract}
use service_mesh_nats_go.Errors.{Error, Result, ok, err}
use service_mesh_nats_go.Config.{text_of}
use service_mesh_nats_go.Consumer.{JsConsumer}
use service_mesh_nats_go.Serve.{Ran, value, error}
use service_mesh_nats_go.Runtime.{Runtime, EndpointHandler, SubscriberHandler}
use service_mesh_nats_go.Runtime.Lifecycle as Lifecycle
use service_mesh_nats_go.Runtime.Accessors.{Receiver, receiver, receiver_group}
use service_mesh_nats_go.Runbooks.Flags.{with_url}

pub record ServeFlags : Type 0 where
  pub cfg : Map String
  pub set : Map String
  pub target : Map String
  pub kind : String
  pub subject : String
  pub group : String
  pub fail : ℤ
  pub work : ℤ
  pub ignore_ctx : Bool

-- The deployment group is "demo" where -cfg does not name one.
abbrev pub with_group : Contract → Map String → Option String → Map String
with_group mesh cfg none = put cfg mesh.deployment_group_key "demo"
with_group mesh cfg (some group) = cfg

-- The Config, given NATS_URL.
unfoldable pub serve_config : Contract → ServeFlags → String → Map String
unfolding with_url
serve_config mesh f url =
    let cfg = with_url f.cfg url in with_group mesh cfg (get cfg mesh.deployment_group_key)

abbrev pub two_31 : ℕ
two_31 = 2147483648

abbrev pub two_32 : ℕ
two_32 = 4294967296

-- calls.Add(1) of an atomic.Int32 after `n` calls
unfoldable pub call_number : ℕ → ℤ
call_number n =
    let bits = (n + 1) % two_32 in if ltb bits two_31 then pos bits else negsuc (two_32 - bits - 1)

-- How long a call works: when its context ends, if it does, and which case a select takes that
-- finds both ready. The timer of -work was made at `begun`.
abbrev pub Ends : Type 0
Ends = Option ℤ × Bool

abbrev pub context_first : ℤ → ℤ → Bool → Bool
context_first ends timer prefers =
    if ltb_ℤ ends timer then true else if ltb_ℤ timer ends then false else prefers

-- When the select ends: with the timer, or with the context, after which -ignore-ctx waits for what
-- is left of the work.
abbrev pub after_select : Bool → ℤ → ℤ → Option ℤ → Bool → ℤ
after_select ignore begun timer none prefers = timer
after_select ignore begun timer (some ends) prefers =
    if context_first ends timer prefers
    then (let noticed = max_ℤ begun ends in if ignore then max_ℤ noticed timer else noticed)
    else timer

unfoldable pub work_end : ServeFlags → ℤ → Ends → ℤ
work_end f begun (ends, prefers) =
    if ltb_ℤ (pos 0) f.work
    then after_select f.ignore_ctx begun (add_time begun f.work) ends prefers
    else begun

-- handle, of the call after `n` others: `failing` gives the text of the error on purpose.
unfoldable pub handle : (ℤ → ℤ → String) → ServeFlags → ℕ → Ran (Unit {0})
unfolding call_number
handle failing f n =
    let number = call_number n in
    if leb_ℤ number f.fail then error (failing number f.fail) else value tt

abbrev pub served_reply :
    (String → Payload) → Target → String → Message → Ran (Unit {0}) → Ran Message
served_reply bytes nowhere pid m (value u) = value (record {
  target = nowhere;
  metadata = some (("Served-By", pid) ∷ []);
  payload = bytes "echo: " ++ m.payload;
})
served_reply bytes nowhere pid m (error text) = error text
served_reply bytes nowhere pid m (Ran.panics text) = Ran.panics text

-- The endpoint's handler. `nowhere` is the zero Target.
unfoldable pub route_handler :
    (ℤ → ℤ → String) → (String → Payload) → Target → String → ServeFlags → ℕ → EndpointHandler
unfolding handle
route_handler failing bytes nowhere pid f n d m =
    served_reply bytes nowhere pid m (handle failing f n)

-- The subscriber's handler.
unfoldable pub topic_handler : (ℤ → ℤ → String) → ServeFlags → ℕ → SubscriberHandler
unfolding handle
topic_handler failing f n d m = handle failing f n

-- d.Round(time.Millisecond) of a duration's size, away from zero at one half
abbrev pub round_size : ℕ → ℕ
round_size n = let r = n % 1_000_000 in if ltb (r + r) 1_000_000 then n - r else n + (1_000_000 - r)

abbrev pub signed : Bool → ℕ → ℤ
signed below zero = pos 0
signed true (suc n) = negsuc n
signed false (suc n) = pos (suc n)

abbrev pub round_milliseconds : ℤ → ℤ
round_milliseconds (pos n) = min_ℤ (pos (round_size n)) max_duration
round_milliseconds (negsuc n) = max_ℤ (signed true (round_size (suc n))) min_duration

-- What printMessage prints: the call's number, the payload, the metadata by sorted keys, and the
-- context's deadline, also as what is left of it at `now`.
pub record PrintedMessage : Type 0 where
  pub number : ℤ
  pub payload : Payload
  pub metadata : List (String × String)
  pub deadline : Option (String × ℤ)

unfoldable pub sorted_metadata : Map String → List (String × String)
unfolding sorted_keys
sorted_metadata md = map (λ k. (k, text_of (get md k))) (sorted_keys md)

abbrev pub printed_deadline : Platform → ℤ → Option ℤ → Option (String × ℤ)
printed_deadline go now none = none
printed_deadline go now (some d) = some (go.format_time d, round_milliseconds (sub_time d now))

unfoldable pub print_message : Platform → ℤ → ℤ → Option ℤ → Message → PrintedMessage
unfolding sorted_metadata
print_message go now number d m = record {
  number = number;
  payload = m.payload;
  metadata = sorted_metadata (entries m.metadata);
  deadline = printed_deadline go now d;
}

-- What printReceiver prints: the consumer group, and the settings `Info` that the server holds for
-- the consumer.
pub data ReceiverLine (Info : Type 0) : Type 0 where
  group_line : String → ReceiverLine Info
  core_line : ReceiverLine Info
  info_failed : Error → ReceiverLine Info
  info_line : Info → ReceiverLine Info

abbrev pub info_result : {Info : Type 0} → Result Info → ReceiverLine Info
info_result (err e) = info_failed e
info_result (ok i) = info_line i

abbrev pub consumer_lines :
    {Info : Type 0} → (JsConsumer → Result Info) → Option JsConsumer → List (ReceiverLine Info)
consumer_lines info none = core_line ∷ []
consumer_lines info (some c) = info_result (info c) ∷ []

abbrev pub receiver_lines :
    {Info : Type 0}
    → Contract
    → (JsConsumer → Result Info)
    → Option Receiver
    → List (ReceiverLine Info)
receiver_lines mesh info none = []
receiver_lines mesh info (some rc) =
    group_line (receiver_group mesh rc.sub.queue) ∷ consumer_lines info rc.consumer

unfoldable pub print_receiver :
    {Info : Type 0}
    → Contract
    → (JsConsumer → Result Info)
    → Runtime
    → List (ℕ × JsConsumer)
    → Target
    → List (ReceiverLine Info)
print_receiver mesh info r owned target = receiver_lines mesh info (receiver mesh r owned target)
