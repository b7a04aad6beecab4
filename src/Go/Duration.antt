-- ===== src/Go/Duration.antt =====
-- time.ParseDuration. The floating-point step for a fraction is the platform's.
pub mod Fuel
use service_mesh_nats_go.Prelude.{
  ℕ, zero, suc, ◌+◌, ◌-◌, ◌*◌, ◌/◌, ◌%◌, String, code, Bool, true, false, not, ◌||◌, Option, none,
  some, ◌≡◌, refl, leb, ltb, eqb, ◌==◌, if◌then◌else◌,
}
use service_mesh_nats_go.Prelude.Int.{ℤ, pos, negsuc, max_i64, two_64}
use service_mesh_nats_go.Go.Text.{is_blank}
use service_mesh_nats_go.Go.Decimal.{is_digit, format_int}
use service_mesh_nats_go.Go.Platform.{Platform}

infixl 5 ◌>>=◌ ◌>>◌
abbrev ◌>>=◌ {ℓ κ} : {A : Type ℓ} {B : Type κ} → Option A → (A → Option B) → Option B
none >>= f = none
some a >>= f = f a

abbrev ◌>>◌ {ℓ} : {B : Type ℓ} → Option (Unit {0}) → Option B → Option B
m >> k = m >>= λ _. k

abbrev require : Bool → Option (Unit {0})
require true = some tt
require false = none

-- 1 << 63
abbrev pub two_63 : ℕ
two_63 = 9223372036854775808

-- leadingInt
leading_int : String → ℕ → Option (ℕ × String)
leading_int String.[] x = some (x, "")
leading_int (String.◌∷◌ ch s) x =
    let c = code ch in
    let y = x * 10 + (c - b'0') in
    let rest = leading_int s y in
    if not (is_digit c)
    then some (x, String.◌∷◌ ch s)
    else if ltb (two_63 / 10) x || ltb two_63 y
    then none
    else rest

pub record Fraction : Type 0 where
  pub value : ℕ
  pub scale : ℕ
  pub overflow : Bool

-- One digit of a fraction; digits past the first that does not fit are dropped.
add_digit : Fraction → ℕ → Fraction
add_digit f d =
    let y = f.value * 10 + d in
    if f.overflow
    then f
    else if ltb ((two_63 - 1) / 10) f.value || ltb two_63 y
    then record f { overflow = true }
    else record { value = y; scale = f.scale * 10; overflow = false }

-- leadingFraction
leading_fraction : String → Fraction → Fraction × String
unfolding add_digit
leading_fraction String.[] f = (f, "")
leading_fraction (String.◌∷◌ ch s) f =
    let rest = leading_fraction s (add_digit f (code ch - b'0')) in
    if is_digit (code ch) then rest else (f, String.◌∷◌ ch s)

-- A text's longest beginning without a dot or a digit, and what follows.
cut_unit : String → String × String
cut_unit String.[] = ("", "")
cut_unit (String.◌∷◌ ch s) =
    let (u, rest) = cut_unit s in
    if eqb (code ch) b'.' || is_digit (code ch)
    then ("", String.◌∷◌ ch s)
    else (String.◌∷◌ ch u, rest)

-- unitMap, in nanoseconds. The micro sign has two spellings.
unit_of : String → Option ℕ
unit_of u =
    if u == "ns"
    then some 1
    else if u == "us" || u == "µs" || u == "μs"
    then some 1_000
    else if u == "ms"
    then some 1_000_000
    else if u == "s"
    then some 1_000_000_000
    else if u == "m"
    then some 60_000_000_000
    else if u == "h"
    then some 3_600_000_000_000
    else none

abbrev starts_with_digit : String → Bool
starts_with_digit String.[] = false
starts_with_digit (String.◌∷◌ ch s) = is_digit (code ch)

-- The fraction behind a point, whether it has a digit, and what follows.
after_point : String → Fraction × Bool × String
unfolding leading_fraction
after_point String.[] = (record { value = 0; scale = 1; overflow = false }, false, "")
after_point (String.◌∷◌ ch s) =
    let start : Fraction = record { value = 0; scale = 1; overflow = false } in
    let (f, rest) = leading_fraction s start in
    if eqb (code ch) b'.' then (f, starts_with_digit s, rest) else (start, false, String.◌∷◌ ch s)

-- A number with its unit at the beginning of a text, in nanoseconds, and what follows.
unfoldable pub term : Platform → String → Option (ℕ × String)
unfolding leading_int after_point cut_unit unit_of
term go s = do
  (whole, rest) ← leading_int s 0
  let (f, post, rest') = after_point rest
  require (starts_with_digit s || post)
  let (u, rest'') = cut_unit rest'
  require (not (is_blank u))
  unit ← unit_of u
  require (leb whole (two_63 / unit))
  let v =
      if ltb 0 f.value
      then (whole * unit + go.scale_fraction f.value unit f.scale) % two_64
      else whole * unit
  require (not (ltb 0 f.value) || leb v two_63)
  some (v, rest'')

-- The loop over the terms. A term takes a character at least.
unfoldable pub terms : Platform → ℕ → String → ℕ → Option ℕ
terms go zero s d = none
terms go (suc fuel) s d =
    let more = do
      (v, rest) ← term go s
      let d' = (d + v) % two_64
      require (leb d' two_63)
      terms go fuel rest d'
    in if is_blank s then some d else more

unfoldable pub size : String → ℕ
size String.[] = 0
size (String.◌∷◌ c s) = suc (size s)

abbrev signed : Bool → Option ℕ → Option ℤ
signed neg none = none
signed true (some zero) = some (pos 0)
signed true (some (suc n)) = some (negsuc n)
signed false (some n) = if leb n max_i64 then some (pos n) else none

-- What stands behind the sign.
magnitude : Platform → Bool → String → Option ℤ
unfolding terms size
magnitude go neg s =
    if s == "0"
    then some (pos 0)
    else if is_blank s
    then none
    else signed neg (terms go (suc (size s)) s 0)

-- time.ParseDuration; `none` is an error.
unfoldable pub parse_duration : Platform → String → Option ℤ
unfolding magnitude
parse_duration go String.[] = none
parse_duration go (String.◌∷◌ ch s) =
    if eqb (code ch) b'-'
    then magnitude go true s
    else if eqb (code ch) b'+'
    then magnitude go false s
    else magnitude go false (String.◌∷◌ ch s)

-- Exact fractions, the platform of the tests.
abbrev pub exact : Platform
exact = record {
  wide_print = λ c. true;
  scale_fraction = λ f unit scale. f * unit / scale;
  num_cpu = 8;
  format_time = format_int;
}

parse_duration_tests :
    (parse_duration exact "5s" ≡ some (pos 5_000_000_000))
    × (parse_duration exact "1h1.5m" ≡ some (pos 3_690_000_000_000))
    × (parse_duration exact "-2ms" ≡ some (negsuc 1_999_999))
    × (parse_duration exact "5" ≡ none)
unfolding parse_duration term
parse_duration_tests = (refl, refl, refl, refl)
