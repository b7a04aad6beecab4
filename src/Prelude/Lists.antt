-- ===== src/Prelude/Lists.antt =====
-- Lists measured and indexed by native numbers, under the library's names.
use Prim.Native.Nat.{ℕ, zero, suc, ◌+◌}
use mathlib.Core.Path.{◌≡◌}
use mathlib.Core.Bool.{Bool, true, false, not, ◌&&◌, ◌||◌}
use mathlib.Core.List.{List, [], ◌∷◌, ◌++◌}
use mathlib.Core.Option.{Option, none, some}
use service_mesh_nats_go.Prelude.Tests.{eqb, if◌then◌else◌}
use native.Mathlib.Omega.{arith}

module _ {ℓ} {A : Type ℓ} where
  abbrev pub length : List A → ℕ
  length [] = 0
  length (x ∷ xs) = suc (length xs)

  abbrev pub get_elem? : List A → ℕ → Option A
  get_elem? [] i = none
  get_elem? (x ∷ xs) zero = some x
  get_elem? (x ∷ xs) (suc i) = get_elem? xs i

  pub length-append : (xs ys : List A) → length (xs ++ ys) ≡ length xs + length ys
  length-append [] ys = omega arith
  length-append (x ∷ xs) ys = omega (arith, length-append xs ys)

  abbrev pub is_empty : List A → Bool
  is_empty [] = true
  is_empty (x ∷ xs) = false

  -- A predicate holds of every entry.
  abbrev pub All {κ} : (A → Type κ) → List A → Type κ
  All P [] = Unit
  All P (x ∷ xs) = P x × All P xs

-- A set of addresses as a list.
abbrev pub contains : List ℕ → ℕ → Bool
contains [] d = false
contains (p ∷ ps) d = eqb p d || contains ps d

abbrev pub without : List ℕ → ℕ → List ℕ
without [] d = []
without (p ∷ ps) d = if eqb p d then without ps d else p ∷ without ps d

pub contains-without :
    (ps : List ℕ) (d e : ℕ) → contains (without ps d) e ≡ (not (eqb d e) && contains ps e)
contains-without [] d e = ground arith
contains-without (p ∷ ps) d e = ground (arith, contains-without ps d e)
