-- ===== src/Client/Timeouts.antt =====
-- How long a call may take, and how its expiry is reported.
use service_mesh_nats_go.Prelude.{
  ◌≡◌, ◌↔◌, ◌⊎◌, inl, inr, Bool-cases, refl, true, false, Option, none, some, arith, if◌then◌else◌,
}
use service_mesh_nats_go.Prelude.Int.{ℤ, pos, ltb_ℤ, leb_ℤ, max_ℤ, ◌≤ℤ◌, ◌<ℤ◌}
use service_mesh_nats_go.Go.Time.{add_time, sub_time}
use service_mesh_nats_go.Errors.{Error, sentinel, deadline_exceeded, request_timeout, timed_out, is}
use service_mesh_nats_go.Client.{Client, Bounded, bound_context, caused, timeout_error, close}

-- What a bounded context promises.
pub record IsBounded (deadline : Option ℤ) (timeout now later : ℤ) (b : Bounded) : Type 0 where
  pub nonneg : pos 0 ≤ℤ b.wait
  pub within : b.wait ≤ℤ timeout
  -- whoever expires sooner ends it
  pub no_later_than_timeout : b.expires ≤ℤ add_time later timeout
  pub no_later_than_caller : (d : ℤ) → deadline ≡ some d → b.expires ≤ℤ d
  -- it is the request timeout that ends it exactly when the caller's deadline is not before that
  pub whose : (b.by_timeout ≡ true) ↔ ((d : ℤ) → deadline ≡ some d → add_time later timeout ≤ℤ d)
  -- it expires at one of the two, not sooner
  pub expires_at :
      (b.expires ≡ add_time later timeout) ⊎ ((d : ℤ) × (deadline ≡ some d) × (b.expires ≡ d))
  -- the wait is the request timeout, or the time left until the caller's deadline
  pub waits :
      (b.wait ≡ timeout)
      ⊎ ((d : ℤ) × (deadline ≡ some d) × (b.wait ≡ max_ℤ (sub_time d now) (pos 0)))
  -- there is no wait after the caller's deadline
  pub after_deadline : (d : ℤ) → deadline ≡ some d → d ≤ℤ now → b.wait ≡ pos 0
  -- the wait ends no later than the caller's deadline that is still to come
  pub before_deadline : (d : ℤ) → deadline ≡ some d → now ≤ℤ d → add_time now b.wait ≤ℤ d

IsBounded-by_deadline :
    (d timeout now later : ℤ)
    → pos 0 <ℤ timeout
    → IsBounded (some d) timeout now later (bound_context (some d) timeout now later)
unfolding bound_context
IsBounded-by_deadline d timeout now later h = record {
  nonneg = ground arith;
  within = ground arith;
  no_later_than_timeout = ground arith;
  no_later_than_caller = λ e p. ground arith;
  whose = (λ b e p. ground arith, λ f. ground (arith, f d refl));
  expires_at = elim (Bool-cases (ltb_ℤ d (add_time later timeout))) [
    | inl sooner ↦ inr (d, refl, ground arith)
    | inr later_on ↦ inl (ground arith)
  ];
  waits = elim (Bool-cases (leb_ℤ timeout (max_ℤ (sub_time d now) (pos 0)))) [
    | inl own ↦ inl (ground arith)
    | inr left ↦ inr (d, refl, ground arith)
  ];
  after_deadline = λ e p q. ground arith;
  before_deadline = λ e p q. ground arith;
}

-- A call's time, for a positive request timeout. Its context expires at the end of the request
-- timeout or at the caller's deadline, whichever comes first, and the expiry is attributed to the
-- right one of the two. Its wait is never negative: it is the request timeout or the time left
-- until the caller's deadline, whichever is less, and 0 once the deadline has passed.
pub bound_context-IsBounded :
    (deadline : Option ℤ) (timeout now later : ℤ)
    → pos 0 <ℤ timeout
    → IsBounded deadline timeout now later (bound_context deadline timeout now later)
unfolding bound_context
bound_context-IsBounded (some d) timeout now later h = IsBounded-by_deadline d timeout now later h
bound_context-IsBounded none timeout now later h = record {
  nonneg = omega arith;
  within = omega arith;
  no_later_than_timeout = omega arith;
  no_later_than_caller = λ d p. cc;
  whose = (λ b d p. cc, λ f. refl);
  expires_at = inl refl;
  waits = inl refl;
  after_deadline = λ d p q. cc;
  before_deadline = λ d p q. cc;
}

-- An error is reported as ErrTimeout exactly when it is an expired deadline and the request timeout
-- is the context's cause; any other error is returned as it is.
pub timeout_error-branches :
    (e c : Error)
    → (is e deadline_exceeded ≡ true
        → is c request_timeout ≡ true
        → timeout_error (record { error = e; cause = some c }) ≡ sentinel timed_out)
      × (is c request_timeout ≡ false → timeout_error (record { error = e; cause = some c }) ≡ e)
      × (is e deadline_exceeded ≡ false → timeout_error (record { error = e; cause = some c }) ≡ e)
      × (timeout_error (record { error = e; cause = none }) ≡ e)
unfolding timeout_error caused
timeout_error-branches e c =
    (λ p q. ground arith, λ q. ground arith, λ q. ground arith, ground arith)

-- A client owns its connection: it has closed it once when it is closed, and never before.
abbrev pub IsOwner : Client → Type 0
IsOwner c = c.closes ≡ (if c.closed then 1 else 0)

-- However often Close is called on a client that owns its connection, it ends up closed, its
-- connection is closed exactly once, and a further Close changes nothing.
pub close-IsOwner :
    (c : Client)
    → IsOwner c
    → IsOwner (close c)
      × ((close c).closed ≡ true)
      × ((close c).closes ≡ 1)
      × (close (close c) ≡ close c)
unfolding close
close-IsOwner c v = (ground arith, ground arith, ground arith, ground arith)
