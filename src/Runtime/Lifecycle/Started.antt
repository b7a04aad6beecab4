-- ===== src/Runtime/Lifecycle/Started.antt =====
-- What a Start that succeeds has opened.
use service_mesh_nats_go.Prelude.{
  true, false, ◌≡◌, ◌⊎◌, inl, inr, refl, sym, ap, ◌∙◌, [], Option, Option-cases, none, some,
  or_else, arith, All,
}
use mathlib.Core.Path.{subst}
use service_mesh_nats_go.Errors.{Error}
use service_mesh_nats_go.Client.{check_open}
use service_mesh_nats_go.Runtime.{Subscription, RuntimeState, created, running, stopped, Runtime}
use service_mesh_nats_go.Runtime.Receivers.{Server, Opened, nothing, open_receivers}
use service_mesh_nats_go.Runtime.Opened.{
  IsUncovered, LacksJetStream, check_endpoint_streams-IsUncovered, OpensAll,
  open_receivers-OpensAll,
}
use service_mesh_nats_go.Runtime.Lifecycle.{Outcome, check_startable, finish_start, start}

-- A runtime `s` that was started from `r`.
pub record IsStarted (server : Server) (r s : Runtime) : Type 0 where
  pub was_created : r.state ≡ created
  pub was_open : r.client.closed ≡ false
  pub flushed : server.flush ≡ none
  pub state : s.state ≡ running
  pub running_flag : s.is_running ≡ true
  pub accepts_messages : s.accepting ≡ true
  pub opened :
      OpensAll server r.subscriptions nothing (record { subs = s.subs; consumers = s.consumers })
  pub uncovered :
      All
        (λ (b : Subscription). IsUncovered server.stream_by_subject b.handler b.subject)
        r.subscriptions
      ⊎ LacksJetStream server.stream_by_subject

pub or_else-none : (a b : Option Error) → or_else a b ≡ none → (a ≡ none) × (b ≡ none)
or_else-none none b h = (refl, h)
or_else-none (some e) b h = cc

pub startable :
    (s : RuntimeState) (ctx_error : Option Error) → check_startable s ctx_error ≡ none → s ≡ created
unfolding check_startable
startable created ctx_error h = refl
startable running ctx_error h = cc
startable stopped ctx_error h = cc

module _ (server : Server) (ctx_error : Option Error) (r : Runtime) where
  abbrev found : Opened × Option Error
  found = open_receivers server r.subscriptions

  pub start-open :
      or_else (check_startable r.state ctx_error) (check_open r.client) ≡ none
      → start server ctx_error r ≡ finish_start r found.0 (or_else found.1 server.flush)
  unfolding start
  start-open e = rw (e, start)

  pub start-refused :
      (e : Error)
      → or_else (check_startable r.state ctx_error) (check_open r.client) ≡ some e
      → start server ctx_error r ≡ record { runtime = r; actions = []; error = some e }
  unfolding start
  start-refused e h = rw (h, start)

finish_start-none :
    (r : Runtime) (o : Opened) (x : Option Error) → (finish_start r o x).error ≡ none → x ≡ none
unfolding finish_start
finish_start-none r o none h = refl
finish_start-none r o (some e) h = cc

open-client : (r : Runtime) → check_open r.client ≡ none → r.client.closed ≡ false
unfolding check_open
open-client r h = ground arith

finish_start-IsStarted :
    (server : Server) (r : Runtime)
    → r.state ≡ created
    → r.client.closed ≡ false
    → (o : Opened) → open_receivers server r.subscriptions ≡ (o, none)
    → server.flush ≡ none
    → IsStarted server r (finish_start r o none).runtime
unfolding finish_start
finish_start-IsStarted server r c unclosed o e f =
    let (checked, all) = open_receivers-OpensAll server r.subscriptions o e in
    record {
      was_created = c;
      was_open = unclosed;
      flushed = f;
      state = refl;
      running_flag = refl;
      accepts_messages = refl;
      opened = all;
      uncovered =
          check_endpoint_streams-IsUncovered server.stream_by_subject r.subscriptions checked;
    }

-- A Start that returns no error was called on a new runtime with an open client. The runtime then
-- runs and accepts messages, every core endpoint and subscriber is subscribed and every JetStream
-- subscriber has its consumer, each in the order in which New was given them, and the connection
-- was flushed. No stream covers an endpoint's subject, unless the server has no JetStream.
pub start-IsStarted :
    (server : Server) (ctx_error : Option Error) (r : Runtime)
    → (start server ctx_error r).error ≡ none
    → IsStarted server r (start server ctx_error r).runtime
start-IsStarted server ctx_error r h =
    elim (Option-cases (or_else (check_startable r.state ctx_error) (check_open r.client))) [
      | inr (e, x) ↦ absurd (
          refused e
            (sym (ap (λ (o : Outcome). o.error) (start-refused server ctx_error r e x)) ∙ h))
      | inl x ↦
          let (s, c) = or_else-none _ _ x in
          let eq = start-open server ctx_error r x in
          let o = (open_receivers server r.subscriptions).0 in
          let n = finish_start-none r o _ (ap (λ (o : Outcome). o.error) (sym eq) ∙ h) in
          let (n1, f) = or_else-none (open_receivers server r.subscriptions).1 server.flush n in
          subst (λ (out : Outcome). IsStarted server r out.runtime)
            (ap (finish_start r o) (sym n) ∙ sym eq)
            (finish_start-IsStarted server r (startable r.state ctx_error s) (open-client r c) o
              (ap (λ (x : Option Error). (o, x)) n1) f)
    ]
  where
    refused : (e : Error) → some e ≡ none → ⊥
    refused e p = cc
