-- ===== src/Go/Decimal.antt =====
-- strconv.Atoi, strconv.ParseInt in base 10 with 64 bits, strconv.FormatInt and strconv.FormatUint.
pub mod RoundTrip
use service_mesh_nats_go.Prelude.{
  ℕ, zero, suc, ◌+◌, ◌-◌, ◌*◌, ◌/◌, ◌%◌, String, Char, code, Bool, ◌&&◌, Option, none, some, ◌≡◌,
  refl, leb, ltb, eqb, if◌then◌else◌,
}
use service_mesh_nats_go.Prelude.Int.{ℤ, pos, negsuc, max_i64}

-- The character of a decimal digit.
abbrev pub digit : ℕ → Char
digit zero = "0"
digit (suc zero) = "1"
digit (suc (suc zero)) = "2"
digit (suc (suc (suc zero))) = "3"
digit (suc (suc (suc (suc zero)))) = "4"
digit (suc (suc (suc (suc (suc zero))))) = "5"
digit (suc (suc (suc (suc (suc (suc zero)))))) = "6"
digit (suc (suc (suc (suc (suc (suc (suc zero))))))) = "7"
digit (suc (suc (suc (suc (suc (suc (suc (suc zero)))))))) = "8"
digit _ = "9"

abbrev pub is_digit : ℕ → Bool
is_digit c = leb b'0' c && leb c b'9'

-- The digits of a number in front of a text. Twenty rounds are enough for a uint64.
unfoldable pub emit : ℕ → ℕ → String → String
emit zero n out = out
emit (suc rounds) n out =
    let more = emit rounds (n / 10) (String.◌∷◌ (digit (n % 10)) out) in
    if ltb n 10 then String.◌∷◌ (digit n) out else more

-- strconv.FormatUint(n, 10)
unfoldable pub format_uint : ℕ → String
unfolding emit
format_uint n = emit 20 n ""

-- strconv.FormatInt(n, 10)
unfoldable pub format_int : ℤ → String
unfolding format_uint
format_int (pos n) = format_uint n
format_int (negsuc n) = String.◌∷◌ "-" (format_uint (n + 1))

-- The number that digits alone denote, after the digits read so far.
unfoldable pub scan : String → ℕ → Option ℕ
scan String.[] n = some n
scan (String.◌∷◌ c s) n = if is_digit (code c) then scan s (n * 10 + (code c - b'0')) else none

-- At least one digit, and nothing else.
unfoldable pub unsigned : String → Option ℕ
unfolding scan
unsigned String.[] = none
unsigned (String.◌∷◌ c s) = scan (String.◌∷◌ c s) 0

abbrev pub non_negative : Option ℕ → Option ℤ
non_negative none = none
non_negative (some n) = if leb n max_i64 then some (pos n) else none

abbrev pub negated : Option ℕ → Option ℤ
negated none = none
negated (some zero) = some (pos 0)
negated (some (suc n)) = if leb n max_i64 then some (negsuc n) else none

-- strconv.ParseInt(s, 10, 64), and strconv.Atoi where int has 64 bits; `none` is an error.
unfoldable pub parse_int : String → Option ℤ
parse_int String.[] = none
parse_int (String.◌∷◌ c s) =
    if eqb (code c) b'-'
    then negated (unsigned s)
    else if eqb (code c) b'+'
    then non_negative (unsigned s)
    else non_negative (unsigned (String.◌∷◌ c s))

parse_int_test : parse_int "-42" ≡ some (negsuc 41)
unfolding parse_int unsigned
parse_int_test = refl

format_int_test : format_int (pos 30000) ≡ "30000"
unfolding format_int
format_int_test = refl
