-- ===== src/Runtime/Stopping/Drained.antt =====
-- When the drain of Stop ends.
use service_mesh_nats_go.Prelude.{
  ℕ, ◌≡◌, refl, ap, ◌∙◌, sym, List, [], ◌∷◌, ◌++◌, Option, none, some, arith,
}
use service_mesh_nats_go.Runtime.Waits.{max_of}
use service_mesh_nats_go.Runtime.Stopping.{
  Drain, wait_for, and_then, subs_wait, consumers_closed, drained,
}

-- When the last of them ends, if they all do.
abbrev pub last_of : List (Option ℕ) → Option ℕ
last_of [] = some 0
last_of (none ∷ es) = none
last_of (some t ∷ es) = wait_for t (last_of es)

wait_for-twice : (a b : ℕ) (o : Option ℕ) → wait_for (max_of a b) o ≡ wait_for a (wait_for b o)
wait_for-twice a b none = refl
wait_for-twice a b (some t) = ap some (max_assoc a b t)
  where
    max_assoc : (a b c : ℕ) → max_of (max_of a b) c ≡ max_of a (max_of b c)
    max_assoc a b c = ground arith

consumers_closed-last_of :
    (now : ℕ) (cs : List (Option ℕ)) → consumers_closed now cs ≡ wait_for now (last_of cs)
unfolding consumers_closed
consumers_closed-last_of now [] = ground arith
consumers_closed-last_of now (none ∷ cs) = refl
consumers_closed-last_of now (some t ∷ cs) =
    consumers_closed-last_of (max_of now t) cs ∙ wait_for-twice now t (last_of cs)

subs_wait-last_of :
    (now : ℕ) (ss : List (Option ℕ)) → subs_wait none now ss ≡ wait_for now (last_of ss)
unfolding subs_wait
subs_wait-last_of now [] = ground arith
subs_wait-last_of now (none ∷ ss) = refl
subs_wait-last_of now (some t ∷ ss) =
    subs_wait-last_of (max_of now t) ss ∙ wait_for-twice now t (last_of ss)

wait_for-zero : (o : Option ℕ) → wait_for 0 o ≡ o
wait_for-zero none = refl
wait_for-zero (some t) = ap some (same t)
  where
    same : (t : ℕ) → max_of 0 t ≡ t
    same t = ground arith

last_of-one : (o : Option ℕ) → last_of (o ∷ []) ≡ o
last_of-one none = refl
last_of-one (some t) = ap some (same t)
  where
    same : (t : ℕ) → max_of t 0 ≡ t
    same t = ground arith

-- Two waits after each other.
and_then-wait_for :
    (t : ℕ) (o end : Option ℕ)
    → and_then (wait_for t o) (λ u. wait_for u end) ≡ wait_for t (and_then o (λ u. wait_for u end))
and_then-wait_for t none end = refl
and_then-wait_for t (some u) end = wait_for-twice t u end

last_of-append :
    (xs ys : List (Option ℕ))
    → last_of (xs ++ ys) ≡ and_then (last_of xs) (λ t. wait_for t (last_of ys))
last_of-append [] ys = sym (wait_for-zero (last_of ys))
last_of-append (none ∷ xs) ys = refl
last_of-append (some t ∷ xs) ys =
    ap (wait_for t) (last_of-append xs ys) ∙ sym (and_then-wait_for t (last_of xs) (last_of ys))

-- What follows the wait for the subscriptions.
after_subs :
    (d : Drain) (t : ℕ)
    → and_then (consumers_closed t d.consumers) (λ u. wait_for u d.handlers)
      ≡ wait_for t (last_of (d.consumers ++ (d.handlers ∷ [])))
after_subs d t =
    ap (λ o. and_then o (λ u. wait_for u d.handlers)) (consumers_closed-last_of t d.consumers)
    ∙ and_then-wait_for t (last_of d.consumers) d.handlers
    ∙ ap (λ o. wait_for t (and_then (last_of d.consumers) (λ u. wait_for u o)))
        (sym (last_of-one d.handlers))
    ∙ ap (wait_for t) (sym (last_of-append d.consumers (d.handlers ∷ [])))

and_then-eq :
    (o : Option ℕ) {f g : ℕ → Option ℕ} → ((t : ℕ) → f t ≡ g t) → and_then o f ≡ and_then o g
and_then-eq none h = refl
and_then-eq (some t) h = h t

-- While the connection stays open, the drain of Stop ends when the last of the subscriptions, the
-- consumers and the handlers does, in whatever order they stand, and never if one of them never
-- ends.
pub drained-last_of :
    (d : Drain)
    → d.connection ≡ none
    → drained d ≡ last_of (d.subs ++ (d.consumers ++ (d.handlers ∷ [])))
unfolding drained
drained-last_of d e =
    let rest = d.consumers ++ (d.handlers ∷ []) in
    and_then-eq (subs_wait d.connection 0 d.subs) (after_subs d)
    ∙ ap (λ c. and_then (subs_wait c 0 d.subs) (λ t. wait_for t (last_of rest))) e
    ∙ ap (λ o. and_then o (λ t. wait_for t (last_of rest)))
        (subs_wait-last_of 0 d.subs ∙ wait_for-zero (last_of d.subs))
    ∙ sym (last_of-append d.subs rest)
