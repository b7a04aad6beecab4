-- ===== src/Serve/Replies.antt =====
-- What serve sends back, and what the caller reads of it.
use service_mesh_nats_go.Prelude.{
  ℕ, suc, String, ◌≡◌, ◌∙◌, refl, ap, Bool-cases, inl, inr, List, [], ◌∷◌, ◌++◌, Option, none, some,
  arith, ◌==◌, eq_iff, if◌then◌else◌,
}
use service_mesh_nats_go.Prelude.Int.{ℤ}
use service_mesh_nats_go.Go.Platform.{Platform}
use service_mesh_nats_go.Go.Map.{IsMap, entries, get}
use service_mesh_nats_go.Mesh.{Target, Message, Header, Contract, IsLawful}
use service_mesh_nats_go.Errors.{Result, ok, err, handler_error}
use service_mesh_nats_go.Header.{to_header, from_header, incoming_metadata}
use service_mesh_nats_go.Header.RoundTrip.{single, get-to_header, get-from_header-to_header}
use service_mesh_nats_go.Client.{Sent, Reply, header_or_new, read_reply}
use service_mesh_nats_go.Client.Requests.{read_reply-branches}
use service_mesh_nats_go.Serve.{
  Handler, endpoint, subscriber, Called, succeeded, failed_with, call_endpoint, call_subscriber,
  Incoming, Effect, request_deadline, with_deadline, failure, handled, replied, log_error,
  reply_message, send_reply, serve_endpoint, serve,
}

-- The caller of a request gets the handler's message, or its error.
abbrev pub Conveys : Message → Called → Result Message → Type 0
Conveys msg (succeeded out) r =
    (back : Message) × (r ≡ ok back)
    × (back.target ≡ msg.target)
    × (back.payload ≡ out.payload)
    × ((j : String) → get (entries back.metadata) j ≡ get (entries out.metadata) j)
Conveys msg (failed_with text) r = r ≡ err (handler_error text)

-- A message whose metadata does not look like a handler's error.
abbrev pub IsSendable : Contract → Called → Type 0
IsSendable mesh (succeeded out) =
    IsMap (entries out.metadata) × (get (entries out.metadata) mesh.handler_error_key ≡ none)
IsSendable mesh (failed_with text) = Unit

-- The reply, as the caller receives it.
abbrev pub received : Sent → Reply
received m = record { header = m.header; payload = m.payload }

get-header_or_new : (h : Option Header) (j : String) → get (header_or_new h) j ≡ get (entries h) j
get-header_or_new none j = refl
get-header_or_new (some x) j = refl

read_reply-none :
    (mesh : Contract) (msg : Message) (r : Reply)
    → get (header_or_new r.header) mesh.handler_error_key ≡ none
    → read_reply mesh msg r
      ≡ ok (record { target = msg.target; metadata = from_header r.header; payload = r.payload })
unfolding read_reply
read_reply-none mesh msg r e = rw (e, read_reply)

-- Whatever an endpoint's handler does, its caller learns of it: from the reply that serve makes,
-- the client reads the handler's message, with its payload and its metadata, or a HandlerError with
-- the text of the handler's error. The handler's metadata are taken not to have the key of errors.
pub read_reply-reply_message :
    (mesh : Contract) (msg : Message) (to : String) (out : Called)
    → IsLawful mesh
    → IsSendable mesh out
    → Conveys msg out (read_reply mesh msg (received (reply_message mesh to out)))
unfolding reply_message
read_reply-reply_message mesh msg to (failed_with text) law s =
    (read_reply-branches mesh msg (received (reply_message mesh to (failed_with text)))).0
      (text ∷ [])
      (law.get-header_set [] mesh.handler_error_key mesh.handler_error_key text
        ∙ ground (arith, eq_iff mesh.handler_error_key mesh.handler_error_key))
read_reply-reply_message mesh msg to (succeeded out) law (m, n) =
    let h = to_header mesh out.metadata in
    (
      _,
      read_reply-none mesh msg (received (reply_message mesh to (succeeded out))) (
          get-header_or_new h mesh.handler_error_key
          ∙ get-to_header mesh law out.metadata mesh.handler_error_key m
          ∙ ap single n),
      refl,
      refl,
      λ j. get-from_header-to_header mesh law out.metadata j m,
    )

-- How often a handler was called, and how often a reply was sent.
abbrev pub calls : List Effect → ℕ
calls [] = 0
calls (handled d m ∷ es) = suc (calls es)
calls (_ ∷ es) = calls es

abbrev pub replies : List Effect → ℕ
replies [] = 0
replies (replied m ∷ es) = suc (replies es)
replies (_ ∷ es) = replies es

-- An endpoint replies to a message that asks for it, and a subscriber never does.
abbrev pub replies_due : Handler → String → ℕ
replies_due (endpoint h) to = if to == "" then 0 else 1
replies_due (subscriber h) to = 0

counts-log_error :
    (what : String) (o : Option String) (es : List Effect)
    → (calls (log_error what o ++ es) ≡ calls es) × (replies (log_error what o ++ es) ≡ replies es)
counts-log_error what none es = (refl, refl)
counts-log_error what (some text) es = (refl, refl)

counts-send_reply :
    (mesh : Contract) (publish : Sent → Option String) (to : String) (out : Called)
    → (calls (send_reply mesh publish to out) ≡ 0)
      × (replies (send_reply mesh publish to out) ≡ (if to == "" then 0 else 1))
unfolding send_reply
counts-send_reply mesh publish to out = elim (Bool-cases (to == "")) [
  | inl e ↦ rw (e, send_reply) (refl, refl)
  | inr e ↦ rw (e, send_reply) (log_only (publish (reply_message mesh to out)))
]
  where
    log_only :
        (o : Option String)
        → (calls (log_error "nats: reply failed" o) ≡ 0)
          × (suc (replies (log_error "nats: reply failed" o)) ≡ 1)
    log_only none = (refl, refl)
    log_only (some text) = (refl, refl)

counts-answer :
    (mesh : Contract) (publish : Sent → Option String) (to : String) (out : Called)
    → let answer =
        log_error "nats: endpoint handler failed" (failure out) ++ send_reply mesh publish to out in
      (suc (calls answer) ≡ 1) × (replies answer ≡ (if to == "" then 0 else 1))
counts-answer mesh publish to out =
    let reply = send_reply mesh publish to out in
    let (c, r) = counts-log_error "nats: endpoint handler failed" (failure out) reply in
    let (c', r') = counts-send_reply mesh publish to out in (ap suc (c ∙ c'), r ∙ r')

-- A message is handed to its handler once, whatever the handler does, a panic included. Then one
-- reply is sent if it is an endpoint's and the message asks for a reply, and none otherwise.
pub serve-replies_due :
    (go : Platform) (mesh : Contract) (publish : Sent → Option String) (target : Target)
    (handler : Handler) (m : Incoming) (arrival : ℤ)
    → (calls (serve go mesh publish target handler m arrival) ≡ 1)
      × (replies (serve go mesh publish target handler m arrival) ≡ replies_due handler m.reply)
unfolding serve serve_endpoint
serve-replies_due go mesh publish target (endpoint h) m arrival =
    let md = incoming_metadata mesh m.header in
    let d = request_deadline (get md mesh.timeout_key) arrival in
    let msg : Message = record {
      target = target;
      metadata = some (with_deadline go mesh md d);
      payload = m.payload;
    } in
    counts-answer mesh publish m.reply (call_endpoint (h d msg))
serve-replies_due go mesh publish target (subscriber h) m arrival = log_only (
    call_subscriber (
      h none (record {
        target = target;
        metadata = some (incoming_metadata mesh m.header);
        payload = m.payload;
      })))
  where
    log_only :
        (o : Option String)
        → (suc (calls (log_error "nats: subscriber handler failed" o)) ≡ 1)
          × (replies (log_error "nats: subscriber handler failed" o) ≡ 0)
    log_only none = (refl, refl)
    log_only (some text) = (refl, refl)
