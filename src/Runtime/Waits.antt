-- ===== src/Runtime/Waits.antt =====
-- How long waitConsumersClosed of nats/consumers.go waits. Times are counted from the start of the
-- wait.
use service_mesh_nats_go.Prelude.{
  ℕ, ◌≤◌, ◌<◌, ◌≡◌, inl, inr, refl, List, [], ◌∷◌, Option, none, some, Bool, Bool-cases, ltb, leb,
  true, false, ◌&&◌, if◌then◌else◌, arith,
}

abbrev pub max_of : ℕ → ℕ → ℕ
max_of a b = if leb a b then b else a

-- When waitConsumersClosed returns, given when each consumer closes, if it does. The wait for the
-- earlier ones has lasted `elapsed`.
unfoldable pub consumers_wait : ℕ → ℕ → List (Option ℕ) → ℕ
consumers_wait budget elapsed [] = elapsed
consumers_wait budget elapsed (none ∷ cs) = budget
consumers_wait budget elapsed (some t ∷ cs) =
    let rest = consumers_wait budget (max_of elapsed t) cs in if ltb t budget then rest else budget

unfoldable pub wait_consumers_closed : ℕ → List (Option ℕ) → ℕ
unfolding consumers_wait
wait_consumers_closed budget closes = consumers_wait budget 0 closes

-- Do they all close before a time?
abbrev pub all_before : ℕ → List (Option ℕ) → Bool
all_before n [] = true
all_before n (none ∷ cs) = false
all_before n (some t ∷ cs) = ltb t n && all_before n cs

-- When the last of those that close does.
abbrev pub latest : List (Option ℕ) → ℕ
latest [] = 0
latest (none ∷ cs) = latest cs
latest (some t ∷ cs) = max_of t (latest cs)

consumers_wait-latest :
    (budget elapsed : ℕ) (cs : List (Option ℕ))
    → elapsed < budget
    → consumers_wait budget elapsed cs
      ≡ (if all_before budget cs then max_of elapsed (latest cs) else budget)
unfolding consumers_wait
consumers_wait-latest budget elapsed [] l = ground arith
consumers_wait-latest budget elapsed (none ∷ cs) l = refl
consumers_wait-latest budget elapsed (some t ∷ cs) l = elim (Bool-cases (ltb t budget)) [
  | inl e ↦ ground (arith, consumers_wait-latest budget (max_of elapsed t) cs (ground arith))
  | inr e ↦ ground arith
]

latest-bound :
    (budget : ℕ) (cs : List (Option ℕ))
    → 0 < budget
    → all_before budget cs ≡ true
    → latest cs < budget
latest-bound budget [] l h = l
latest-bound budget (none ∷ cs) l h = cc
latest-bound budget (some t ∷ cs) l h = elim (Bool-cases (all_before budget cs)) [
  | inl e ↦ ground (arith, latest-bound budget cs l e)
  | inr e ↦ ground arith
]

-- waitConsumersClosed returns when the last consumer closes, if they all close before the budget is
-- spent, and otherwise when it is spent, in whatever order the consumers stand. So it waits no
-- longer than the budget, which is not 0.
pub wait_consumers_closed-latest :
    (budget : ℕ) (closes : List (Option ℕ))
    → 0 < budget
    → (wait_consumers_closed budget closes
        ≡ (if all_before budget closes then latest closes else budget))
      × (wait_consumers_closed budget closes ≤ budget)
unfolding wait_consumers_closed
wait_consumers_closed-latest budget closes l =
    let e = consumers_wait-latest budget 0 closes l in
    (ground (arith, e), ground (arith, e, latest-bound budget closes l))
