-- ===== src/Consumer/LateStarts.antt =====
-- Late-start warnings: each late start is logged or counted, and warnings keep their distance.
use service_mesh_nats_go.Prelude.{
  ℕ, suc, ◌+◌, ◌≡◌, inl, inr, Bool-cases, Bool, true, false, List, [], ◌∷◌, arith, length,
}
use service_mesh_nats_go.Prelude.Int.{ℤ, ◌≤ℤ◌, ltb_ℤ}
use service_mesh_nats_go.Go.Time.{sub_time}
use service_mesh_nats_go.Consumer.{JsConsumer, late_start_log_interval, late_start_logged}

-- A warning: when, and how many late starts it reports as skipped.
pub record Warning : Type 0 where
  pub at : ℤ
  pub skipped : ℕ

abbrev logged : Bool → ℤ → ℕ → List Warning → List Warning
logged true now n ws = record { at = now; skipped = n } ∷ ws
logged false now n ws = ws

-- The warnings of a consumer whose handlers start late at the given times.
pub warnings : JsConsumer → List ℤ → JsConsumer × List Warning
warnings c [] = (c, [])
warnings c (now ∷ later) =
    let (c', skipped, is_logged) = late_start_logged c now in
    let (d, ws) = warnings c' later in (d, logged is_logged now skipped ws)

abbrev pub total_skipped : List Warning → ℕ
total_skipped [] = 0
total_skipped (w ∷ ws) = w.skipped + total_skipped ws

-- Each warning is at least the interval after the one before, as time.Sub measures it.
abbrev pub Spaced : ℤ → List Warning → Type 0
Spaced before [] = Unit {0}
Spaced before (w ∷ ws) = (late_start_log_interval ≤ℤ sub_time w.at before) × Spaced w.at ws

abbrev Accounts : JsConsumer → List ℤ → Type 0
Accounts c times =
    (c.late_skipped + length times
      ≡ length (warnings c times).1
        + total_skipped (warnings c times).1
        + (warnings c times).0.late_skipped)
    × Spaced c.last_late_log (warnings c times).1

module _ (c : JsConsumer) (now : ℤ) (later : List ℤ) where
  abbrev skips : JsConsumer
  skips = record c { late_skipped = suc c.late_skipped }

  abbrev warns : JsConsumer
  warns = record c { last_late_log = now; late_skipped = 0 }

  Accounts-soon :
      ltb_ℤ (sub_time now c.last_late_log) late_start_log_interval ≡ true
      → Accounts skips later
      → Accounts c (now ∷ later)
  unfolding warnings late_start_logged
  Accounts-soon soon a = rw (soon, warnings) (omega arith, a.1)

  Accounts-due :
      ltb_ℤ (sub_time now c.last_late_log) late_start_log_interval ≡ false
      → Accounts warns later
      → Accounts c (now ∷ later)
  unfolding warnings late_start_logged
  Accounts-due due a = rw (due, warnings) (omega arith, (ground arith, a.1))

-- Every late start is a warning of its own, or counted by a later warning, or still counted by the
-- consumer; and two warnings are at least a minute apart.
pub warnings-account :
    (c : JsConsumer) (times : List ℤ)
    → (c.late_skipped + length times
        ≡ length (warnings c times).1
          + total_skipped (warnings c times).1
          + (warnings c times).0.late_skipped)
      × Spaced c.last_late_log (warnings c times).1
unfolding warnings
warnings-account c [] = (omega arith, tt)
warnings-account c (now ∷ later) =
    let early = Bool-cases (ltb_ℤ (sub_time now c.last_late_log) late_start_log_interval) in
    elim early [
      | inl soon ↦ Accounts-soon c now later soon (warnings-account (skips c now later) later)
      | inr due ↦ Accounts-due c now later due (warnings-account (warns c now later) later)
    ]
