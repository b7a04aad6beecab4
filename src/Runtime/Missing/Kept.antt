-- ===== src/Runtime/Missing/Kept.antt =====
-- Which consumers are missing, and what a tick of the watch does.
use service_mesh_nats_go.Prelude.{
  ℕ, Bool, true, false, not, ◌&&◌, ◌||◌, ◌≡◌, ◌↔◌, refl, sym, ap, ◌∙◌, ◌⊎◌, inl, inr, List, [], ◌∷◌,
  ◌++◌, eqb, is_empty, is_some, contains, contains-without, if◌then◌else◌, arith,
}
use mathlib.Core.Path.{subst}
use service_mesh_nats_go.Errors.{Error}
use service_mesh_nats_go.Receive.Logs.{Log}
use service_mesh_nats_go.Runtime.Missing.{
  Watched, Found, is_loss, consume_error, check_missing, check_each, tick, Event, on_event,
  missing_after, is_back, IsLost, reported, checked, loss, since,
}

module _ (at : ℕ → Watched) (c : ℕ) where
  contains-consume_error :
      (d : ℕ) (e : Error) (missing : List ℕ)
      → contains (consume_error at d e missing).0 c
        ≡ (contains missing c || (eqb d c && (not (at d).is_ordered && is_loss e)))
  unfolding consume_error
  contains-consume_error d e missing = ground arith

  contains-check_missing :
      (d : ℕ) (f : Found) (missing : List ℕ)
      → contains (check_missing at d f missing).0 c
        ≡ (contains missing c && not (eqb d c && is_back f))
  unfolding check_missing
  contains-check_missing d f missing = ground (arith, contains-without missing d c)

  IsLost-here :
      (d : ℕ) (e : Error) (earlier : List Event)
      → (eqb d c && (not (at d).is_ordered && is_loss e)) ≡ true
      → IsLost at c (reported d e ∷ earlier)
  IsLost-here d e earlier h =
      let (same, o, l) = parts h in
      let at_c : c ≡ d = sym (eqb→≡ d c same) in
      subst (λ x. IsLost at c (reported x e ∷ earlier)) at_c
        (loss (ap (λ x. (at x).is_ordered) at_c ∙ o) l)
    where
      eqb→≡ : (a b : ℕ) → eqb a b ≡ true → a ≡ b
      eqb→≡ a b k = ground arith

      parts : {a b l : Bool} → (a && (not b && l)) ≡ true → (a ≡ true) × (b ≡ false) × (l ≡ true)
      parts k = ground arith

  missing-IsLost-only :
      (events : List Event) → contains (missing_after at events) c ≡ true → IsLost at c events
  unfolding missing_after on_event
  missing-IsLost-only [] h = cc
  missing-IsLost-only (reported d e ∷ earlier) h =
      elim (either _ (sym (contains-consume_error d e (missing_after at earlier)) ∙ h)) [
        | inl kept ↦ since refl (missing-IsLost-only earlier kept)
        | inr now ↦ IsLost-here d e earlier now
      ]
    where
      either : (a : Bool) {b : Bool} → (a || b) ≡ true → (a ≡ true) ⊎ (b ≡ true)
      either true h = inl refl
      either false h = inr h
  missing-IsLost-only (checked d f ∷ earlier) h =
      let (kept, other) = both (sym (contains-check_missing d f (missing_after at earlier)) ∙ h) in
      since other (missing-IsLost-only earlier kept)
    where
      both : {a b : Bool} → (a && not b) ≡ true → (a ≡ true) × (b ≡ false)
      both k = ground arith

  IsLost-missing :
      (events : List Event) → IsLost at c events → contains (missing_after at events) c ≡ true
  unfolding missing_after on_event
  IsLost-missing [] l = elim l [ ]
  IsLost-missing (reported d e ∷ earlier) (since n l) =
      contains-consume_error d e (missing_after at earlier) ∙ kept _ (IsLost-missing earlier l)
    where
      kept : {a : Bool} (b : Bool) → a ≡ true → (a || b) ≡ true
      kept b h = ground arith
  IsLost-missing (reported d e ∷ earlier) (loss o l) =
      contains-consume_error d e (missing_after at earlier) ∙ added
    where
      added :
          (contains (missing_after at earlier) c
            || (eqb c c && (not (at c).is_ordered && is_loss e)))
          ≡ true
      added = rw (o, l) (ground arith)
  IsLost-missing (checked d f ∷ earlier) (since n l) =
      contains-check_missing d f (missing_after at earlier) ∙ kept (IsLost-missing earlier l) n
    where
      kept : {a b : Bool} → a ≡ true → b ≡ false → (a && not b) ≡ true
      kept h k = ground arith

  -- A consumer is missing exactly when it is not ordered, the loss of it was reported, and no check
  -- since has found nats.go consuming from it, the connection up and the server knowing it.
  pub missing-IsLost :
      (events : List Event) → (contains (missing_after at events) c ≡ true) ↔ IsLost at c events
  missing-IsLost events = (missing-IsLost-only events, IsLost-missing events)

abbrev pub logs_for : ℕ → List (ℕ × List Log) → List Log
logs_for c [] = []
logs_for c ((d, logs) ∷ rest) = (if eqb d c then logs else []) ++ logs_for c rest

-- A check of it logs.
abbrev pub is_logged : Found → Bool
is_logged f = f.stopped || (f.connected && is_some f.info)

module _ (at : ℕ → Watched) (found : ℕ → Found) (c : ℕ) where
  is_empty-check_missing :
      (d : ℕ) (missing : List ℕ)
      → is_empty (check_missing at d (found d) missing).1 ≡ not (is_logged (found d))
  unfolding check_missing
  is_empty-check_missing d missing = ground arith

  is_empty-append : (xs ys : List Log) → is_empty (xs ++ ys) ≡ (is_empty xs && is_empty ys)
  is_empty-append [] ys = refl
  is_empty-append (x ∷ xs) ys = refl

  check_each-one :
      (cs missing : List ℕ)
      → let (missing', logs) = check_each at found cs missing in
        (contains missing' c ≡ (contains missing c && not (contains cs c && is_back (found c))))
        × (is_empty (logs_for c logs) ≡ not (contains cs c && is_logged (found c)))
  unfolding check_each
  check_each-one [] missing = (ground arith, refl)
  check_each-one (d ∷ cs) missing =
      let (missing', logs) = check_missing at d (found d) missing in
      let (kept, logged) = check_each-one cs missing' in
      let same = eqb→≡ d c in
      (
        kept
            ∙ ap (λ x. x && not (contains cs c && is_back (found c)))
                (contains-check_missing at c d (found d) missing)
            ∙ kept_both (eqb d c) (contains cs c) _ (λ h. ap (λ x. is_back (found x)) (same h)),
        is_empty-append (if eqb d c then logs else []) _
            ∙ ap (λ x. is_empty (if eqb d c then logs else []) && x) logged
            ∙ logged_both (eqb d c) (contains cs c) logs _ (λ h.
              is_empty-check_missing d missing ∙ ap (λ x. not (is_logged (found x))) (same h)),
      )
    where
      eqb→≡ : (a b : ℕ) → eqb a b ≡ true → a ≡ b
      eqb→≡ a b k = ground arith

      kept_both :
          (a b m : Bool) {x y : Bool}
          → (a ≡ true → x ≡ y)
          → ((m && not (a && x)) && not (b && y)) ≡ (m && not ((a || b) && y))
      kept_both a b m h = ground arith

      logged_both :
          (a b : Bool) (ls : List Log) (y : Bool)
          → (a ≡ true → is_empty ls ≡ not y)
          → (is_empty (if a then ls else []) && not (b && y)) ≡ not ((a || b) && y)
      logged_both a b ls y h = ground arith

  -- A tick of the watch takes out of r.missing exactly the consumers that it finds back. It logs
  -- exactly those of them that nats.go stopped consuming from, and those that Info fails for while
  -- the connection is up.
  pub tick-checks :
      (missing : List ℕ)
      → let (missing', logs) = tick at found missing in
        (contains missing' c ≡ (contains missing c && not (is_back (found c))))
        × (is_empty (logs_for c logs) ≡ not (contains missing c && is_logged (found c)))
  unfolding tick
  tick-checks missing =
      let (kept, logged) = check_each-one missing missing in
      (kept ∙ simplify (contains missing c) (is_back (found c)), logged)
    where
      simplify : (a b : Bool) → (a && not (a && b)) ≡ (a && not b)
      simplify a b = ground arith
