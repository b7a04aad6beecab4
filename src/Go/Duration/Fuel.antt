-- ===== src/Go/Duration/Fuel.antt =====
-- The fuel of time.ParseDuration is enough: more of it changes nothing.
use service_mesh_nats_go.Prelude.{
  ℕ, zero, suc, ◌+◌, ◌-◌, ◌*◌, ◌/◌, ltb, ◌≤◌, ◌<◌, String, code, Bool, true, false, not, ◌≡◌, refl,
  ap, ◌%◌, leb, Option, Option-cases, inl, inr, none, some, arith, eqb, ◌||◌, if◌then◌else◌,
}
use mathlib.Core.Path.{subst}
use service_mesh_nats_go.Prelude.Int.{two_64}
use service_mesh_nats_go.Go.Text.{is_blank}
use service_mesh_nats_go.Go.Decimal.{is_digit}
use service_mesh_nats_go.Go.Platform.{Platform}
use service_mesh_nats_go.Go.Duration.{
  ◌>>=◌, require, unit_of, two_63, starts_with_digit, Fraction, add_digit, leading_int,
  leading_fraction, cut_unit, after_point, term, terms, size,
}

-- Both branches of a test leave no more than `n` characters.
le-if {ℓ} :
    {A : Type ℓ} (b : Bool) (p q : A × String) (n : ℕ)
    → size p.1 ≤ n
    → size q.1 ≤ n
    → size (if b then p else q).1 ≤ n
le-if true p q n hp hq = hp
le-if false p q n hp hq = hq

-- A parse of a text's beginning leaves no more than `n` characters, when it succeeds.
abbrev Leaves {ℓ} : {A : Type ℓ} → Option (A × String) → ℕ → Type 0
Leaves none n = Unit
Leaves (some p) n = size p.1 ≤ n

Leaves-if {ℓ} :
    {A : Type ℓ} (b : Bool) (o r : Option (A × String)) (n : ℕ)
    → Leaves o n
    → Leaves r n
    → Leaves (if b then o else r) n
Leaves-if true o r n ho hr = ho
Leaves-if false o r n ho hr = hr

Leaves-suc {ℓ} : {A : Type ℓ} (o : Option (A × String)) (n : ℕ) → Leaves o n → Leaves o (suc n)
Leaves-suc none n h = tt
Leaves-suc (some p) n h = omega arith

leading_int-size : (s : String) (x : ℕ) → Leaves (leading_int s x) (size s)
unfolding leading_int size
leading_int-size String.[] x = omega arith
leading_int-size (String.◌∷◌ c s) x =
    let y = x * 10 + (code c - b'0') in
    Leaves-if (not (is_digit (code c))) (some (x, String.◌∷◌ c s)) _ (suc (size s)) (omega arith) (
      Leaves-if (ltb (two_63 / 10) x || ltb two_63 y) none (leading_int s y) (suc (size s)) tt
        (Leaves-suc (leading_int s y) (size s) (leading_int-size s y)))

leading_fraction-size : (s : String) (f : Fraction) → size (leading_fraction s f).1 ≤ size s
unfolding leading_fraction size
leading_fraction-size String.[] f = omega arith
leading_fraction-size (String.◌∷◌ c s) f =
    let g = add_digit f (code c - b'0') in
    le-if (is_digit (code c)) (leading_fraction s g) (f, String.◌∷◌ c s) (suc (size s))
      (omega (arith, leading_fraction-size s g)) (omega arith)

after_point-size : (s : String) → size (after_point s).2 ≤ size s
unfolding after_point size
after_point-size String.[] = omega arith
after_point-size (String.◌∷◌ c s) = by_point (eqb (code c) b'.')
  where
    start : Fraction
    start = record { value = 0; scale = 1; overflow = false }

    by_point :
        (b : Bool)
        → let past : Fraction × Bool × String =
            ((leading_fraction s start).0, starts_with_digit s, (leading_fraction s start).1) in
          let here : Fraction × Bool × String = (start, false, String.◌∷◌ c s) in
          let after : Fraction × Bool × String = if b then past else here in
          size after.2 ≤ suc (size s)
    by_point true = omega (arith, leading_fraction-size s start)
    by_point false = omega arith

cut_unit-size : (s : String) → size (cut_unit s).0 + size (cut_unit s).1 ≡ size s
unfolding cut_unit size
cut_unit-size String.[] = refl
cut_unit-size (String.◌∷◌ c s) = by_end (eqb (code c) b'.' || is_digit (code c)) (cut_unit-size s)
  where
    by_end :
        (b : Bool)
        → size (cut_unit s).0 + size (cut_unit s).1 ≡ size s
        → let here : String × String = ("", String.◌∷◌ c s) in
          let on : String × String = (String.◌∷◌ c (cut_unit s).0, (cut_unit s).1) in
          let cut : String × String = if b then here else on in
          size cut.0 + size cut.1 ≡ suc (size s)
    by_end true h = omega arith
    by_end false h = omega arith

>>=-eq-some {ℓ κ} :
    {A : Type ℓ} {B : Type κ} (o : Option A) (f : A → Option B) {b : B}
    → (o >>= f) ≡ some b
    → (a : A) × (o ≡ some a) × (f a ≡ some b)
>>=-eq-some none f h = cc
>>=-eq-some (some a) f h = (a, refl, h)

not_blank : (u : String) (t : Unit {0}) → require (not (is_blank u)) ≡ some t → 0 < size u
unfolding size
not_blank String.[] t h = cc
not_blank (String.◌∷◌ c u) t h = omega arith

-- A term takes a character at least.
term-size :
    (go : Platform) (s : String) (v : ℕ) (rest : String)
    → term go s ≡ some (v, rest)
    → size rest < size s
unfolding term
term-size go s v rest h =
    let ((w, r), ew, hw) = >>=-eq-some (leading_int s 0) _ h in
    let (t, et, ht) = >>=-eq-some (require (starts_with_digit s || (after_point r).1)) _ hw in
    let (q, eq, hq) = >>=-eq-some (require (not (is_blank (cut_unit (after_point r).2).0))) _ ht in
    let (k, ek, hk) = >>=-eq-some (unit_of (cut_unit (after_point r).2).0) _ hq in
    let f = (after_point r).0 in
    let amount : ℕ =
      if ltb 0 f.value then (w * k + go.scale_fraction f.value k f.scale) % two_64 else w * k in
    let (x, ex, hx) = >>=-eq-some (require (leb w (two_63 / k))) _ hk in
    let (y, ey, hy) = >>=-eq-some (require (not (ltb 0 f.value) || leb amount two_63)) _ hx in
    let left : (cut_unit (after_point r).2).1 ≡ rest = cc hy in
    ground (
      arith,
      subst (λ (o : Option (ℕ × String)). Leaves o (size s)) ew (leading_int-size s 0),
      after_point-size r,
      cut_unit-size (after_point r).2,
      not_blank (cut_unit (after_point r).2).0 q eq,
      ap size left,
    )

-- Two amounts of fuel, each more than the text's length, give one result.
pub terms-enough :
    (go : Platform) (n m : ℕ) (s : String) (d : ℕ)
    → size s < n
    → size s < m
    → terms go n s d ≡ terms go m s d
unfolding terms
terms-enough go zero m s d hn hm = absurd (omega arith)
terms-enough go (suc n) zero s d hn hm = absurd (omega arith)
terms-enough go (suc n) (suc m) s d hn hm = elim (Option-cases (term go s)) [
  | inl e ↦ rw (e, terms) refl
  | inr ((v, rest), e) ↦
      let d' = (d + v) % two_64 in
      let less = term-size go s v rest e in
      rw (e, terms-enough go n m rest d' (omega arith) (omega arith)) refl
]
