-- ===== src/Examples/Echoed.antt =====
-- The echo endpoint of examples/server: what its handler replies, and when it ends, by the times of
-- its timer, of its deadline and of Stop.
use service_mesh_nats_go.Prelude.{
  Option-cases, ℕ, ◌*◌, ◌/◌, String, Bool, true, false, ◌≡◌, ◌≢◌, ◌∙◌, refl, ap, inl, inr, Option,
  none, some, eq_iff, if◌then◌else◌, arith,
}
use mathlib.Core.Path.{subst}
use service_mesh_nats_go.Prelude.Int.{ℤ, pos, negsuc, min_ℤ, ◌<ℤ◌, ◌≤ℤ◌}
use service_mesh_nats_go.Go.Time.{add_time}
use service_mesh_nats_go.Go.Map.{get}
use service_mesh_nats_go.Mesh.{Target, Message, Payload, Contract}
use service_mesh_nats_go.Serve.{value, error, call_endpoint}
use service_mesh_nats_go.Serve.Replies.{IsSendable}
use service_mesh_nats_go.Examples.{payload_eq}
use service_mesh_nats_go.Examples.Server.{
  Wait, context_end, select_wait, echo_reply, after_wait, echo_handler,
}

-- The text of the error that a request with this payload fails with, if it does.
abbrev pub failure_of : (String → Payload) → Wait → Option ℤ → Payload → Option String
failure_of bytes w d payload =
    if payload_eq payload (bytes "fail")
    then some "invalid argument"
    else if payload_eq payload (bytes "slow")
    then select_wait w (context_end d w.cancelled)
    else none

pub echo_handler-failure_of :
    (bytes : String → Payload) (nowhere : Target) (by : String) (w : Wait) (d : Option ℤ)
    (m : Message)
    → echo_handler bytes nowhere by w d m
      ≡ after_wait (failure_of bytes w d m.payload) (echo_reply bytes nowhere by m)
unfolding echo_handler
echo_handler-failure_of bytes nowhere by w d m =
    by_tests (payload_eq m.payload (bytes "fail")) (payload_eq m.payload (bytes "slow"))
      (select_wait w (context_end d w.cancelled)) (echo_reply bytes nowhere by m)
  where
    by_tests :
        (a b : Bool) (slow : Option String) (reply : Message)
        → (if a then error "invalid argument" else if b then after_wait slow reply else value reply)
          ≡ after_wait (if a then some "invalid argument" else if b then slow else none) reply
    by_tests true b slow reply = refl
    by_tests false true slow reply = refl
    by_tests false false slow reply = refl

-- When the select of the slow call ends: with its timer, at its deadline, or when Stop cancels it.
abbrev pub select_ends : Wait → ℤ → Option ℤ → ℤ
select_ends w d none = min_ℤ w.timer d
select_ends w d (some c) = min_ℤ w.timer (min_ℤ d c)

-- When the handler returns, at the earliest.
abbrev pub handler_ends : (String → Payload) → Wait → ℤ → ℤ → Payload → ℤ
handler_ends bytes w arrival d payload =
    if payload_eq payload (bytes "fail")
    then arrival
    else if payload_eq payload (bytes "slow")
    then select_ends w d w.cancelled
    else arrival

-- A slow call of the handler waits.
pub record IsSlow (bytes : String → Payload) (payload : Payload) : Type 0 where
  pub slow : payload_eq payload (bytes "slow") ≡ true
  pub not_fail : payload_eq payload (bytes "fail") ≡ false

-- The text that the handler fails with, if it does: it replies to a slow call when the timer fires
-- first, and fails when the deadline or Stop ends the call before.
pub record FailsWith (bytes : String → Payload) (w : Wait) (d : ℤ) (payload : Payload)
    (f : Option String) : Type 0 where
  pub invalid : payload_eq payload (bytes "fail") ≡ true → f ≡ some "invalid argument"
  pub replies :
      payload_eq payload (bytes "fail") ≡ false
      → payload_eq payload (bytes "slow") ≡ false
      → f ≡ none
  pub at_deadline :
      IsSlow bytes payload
      → d <ℤ w.timer
      → ((c : ℤ) → w.cancelled ≡ some c → d ≤ℤ c)
      → f ≡ some "context deadline exceeded"
  pub at_cancel :
      IsSlow bytes payload
      → (c : ℤ) → w.cancelled ≡ some c
      → c <ℤ w.timer
      → c <ℤ d
      → f ≡ some "context canceled"
  pub at_timer :
      IsSlow bytes payload
      → w.timer <ℤ d
      → ((c : ℤ) → w.cancelled ≡ some c → w.timer <ℤ c)
      → f ≡ none

pub failure_of-FailsWith :
    (bytes : String → Payload) (w : Wait) (d : ℤ) (payload : Payload)
    → FailsWith bytes w d payload (failure_of bytes w (some d) payload)
failure_of-FailsWith bytes w d payload = record {
  invalid = λ e. rw e refl;
  replies = λ e s. rw (e, s) refl;
  at_deadline = λ q l later_on. elim (Option-cases w.cancelled) [
    | inl n ↦ rw (q.not_fail, q.slow, n) (ground arith)
    | inr (c, n) ↦ let le = later_on c n in rw (q.not_fail, q.slow, n) (ground arith)
  ];
  at_cancel = λ q c n l le. rw (q.not_fail, q.slow, n) (ground arith);
  at_timer = λ q l later_on. elim (Option-cases w.cancelled) [
    | inl n ↦ rw (q.not_fail, q.slow, n) (ground arith)
    | inr (c, n) ↦ let le = later_on c n in rw (q.not_fail, q.slow, n) (ground arith)
  ];
}

pub handler_ends-slow :
    (bytes : String → Payload) (w : Wait) (arrival d : ℤ) (payload : Payload)
    → IsSlow bytes payload
    → w.cancelled ≡ none
    → d ≤ℤ w.timer
    → handler_ends bytes w arrival d payload ≡ d
handler_ends-slow bytes w arrival d payload q c l = rw (q.not_fail, q.slow, c) (ground arith)

add_time-lt : (a b : ℤ) (n : ℕ) → a <ℤ b → add_time a (pos n) <ℤ add_time b (pos n)
add_time-lt (pos a) (pos b) n l = ground arith
add_time-lt (pos a) (negsuc b) n l = ground arith
add_time-lt (negsuc a) (pos b) n l = ground arith
add_time-lt (negsuc a) (negsuc b) n l = ground arith

-- The network takes time, so a handler that waits for its deadline replies too late.
pub expires-before_deadline :
    (later arrival deadline back : ℤ) (wait : ℕ)
    → later <ℤ arrival
    → deadline ≡ add_time arrival (pos (wait / 1_000_000 * 1_000_000))
    → wait / 1_000_000 * 1_000_000 ≡ wait
    → deadline ≤ℤ back
    → add_time later (pos wait) <ℤ back
expires-before_deadline later arrival deadline back wait l e w b =
    let at = e ∙ ap (λ n. add_time arrival (pos n)) w in
    let due = subst (λ d. d ≤ℤ back) at b in omega (arith, add_time-lt later arrival wait l, due)

pub echo-IsSendable :
    (mesh : Contract) (bytes : String → Payload) (nowhere : Target) (by : String)
    → mesh.handler_error_key ≢ "Echoed-By"
    → (f : Option String) (m : Message)
    → IsSendable mesh (call_endpoint (after_wait f (echo_reply bytes nowhere by m)))
unfolding call_endpoint get
echo-IsSendable mesh bytes nowhere by n none m =
    ((refl, tt), ground (arith, eq_iff "Echoed-By" mesh.handler_error_key))
echo-IsSendable mesh bytes nowhere by n (some text) m = tt
