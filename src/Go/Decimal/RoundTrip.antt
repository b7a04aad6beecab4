-- ===== src/Go/Decimal/RoundTrip.antt =====
-- A number that is printed reads back as itself.
use service_mesh_nats_go.Prelude.{
  ℕ, zero, suc, ◌+◌, ◌-◌, ◌*◌, ◌/◌, ◌%◌, ◌≤◌, ◌<◌, String, code, some, ◌≡◌, ◌∙◌, refl, ap, arith,
  inl, inr, Bool-cases, ltb,
}
use service_mesh_nats_go.Prelude.Int.{ℤ, pos, negsuc, max_i64, InI64}
use service_mesh_nats_go.Go.Decimal.{
  digit, emit, format_int, scan, unsigned, non_negative, parse_int,
}

-- A digit's code point.
code-digit : (d : ℕ) → d < 10 → code (digit d) ≡ b'0' + d
code-digit zero h = refl
code-digit (suc zero) h = refl
code-digit (suc (suc zero)) h = refl
code-digit (suc (suc (suc zero))) h = refl
code-digit (suc (suc (suc (suc zero)))) h = refl
code-digit (suc (suc (suc (suc (suc zero))))) h = refl
code-digit (suc (suc (suc (suc (suc (suc zero)))))) h = refl
code-digit (suc (suc (suc (suc (suc (suc (suc zero))))))) h = refl
code-digit (suc (suc (suc (suc (suc (suc (suc (suc zero)))))))) h = refl
code-digit (suc (suc (suc (suc (suc (suc (suc (suc (suc d))))))))) h = omega arith

scan-digit : (d n : ℕ) (s : String) → d < 10 → scan (String.◌∷◌ (digit d) s) n ≡ scan s (n * 10 + d)
unfolding scan
scan-digit d n s h = ground (arith, code-digit d h, ap (scan s) (digit_value d n h))
  where
    digit_value : (d n : ℕ) → d < 10 → n * 10 + (code (digit d) - b'0') ≡ n * 10 + d
    digit_value d n h = omega (arith, code-digit d h)

abbrev pow10 : ℕ → ℕ
pow10 zero = 1
pow10 (suc f) = 10 * pow10 f

-- The digits of a number, read after nothing, leave the number.
scan-emit : (f n : ℕ) (s : String) → n < pow10 (suc f) → scan (emit (suc f) n s) 0 ≡ scan s n
unfolding emit
scan-emit zero n s h = ground (arith, scan-digit n 0 s)
scan-emit (suc f) n s h = ground (
  arith,
  scan-digit n 0 s,
  scan-emit f (n / 10) (String.◌∷◌ (digit (n % 10)) s),
  scan-digit (n % 10) (n / 10) s,
  ap (scan s) (quotient_remainder n),
)
  where
    quotient_remainder : (n : ℕ) → n / 10 * 10 + n % 10 ≡ n
    quotient_remainder n = omega arith

emit-head :
    (f n : ℕ) (s : String)
    → (d : ℕ) × (r : String) × (d < 10) × (emit (suc f) n s ≡ String.◌∷◌ (digit d) r)
unfolding emit
emit-head zero n s = elim (Bool-cases (ltb n 10)) [
  | inl small ↦ rw small (n, s, ground arith, refl)
  | inr large ↦ rw large (n % 10, s, omega arith, refl)
]
emit-head (suc f) n s = elim (Bool-cases (ltb n 10)) [
  | inl small ↦ rw small (n, s, ground arith, refl)
  | inr large ↦ rw large (emit-head f (n / 10) (String.◌∷◌ (digit (n % 10)) s))
]

-- A text that begins with a digit is read with no sign.
parse_int-digit :
    (d : ℕ) (r : String)
    → d < 10
    → parse_int (String.◌∷◌ (digit d) r) ≡ non_negative (scan (String.◌∷◌ (digit d) r) 0)
unfolding parse_int unsigned
parse_int-digit d r h = ground (arith, code-digit d h)

unsigned-digit :
    (d : ℕ) (r : String) → unsigned (String.◌∷◌ (digit d) r) ≡ scan (String.◌∷◌ (digit d) r) 0
unfolding unsigned
unsigned-digit d r = refl

scan-emit_all : (n : ℕ) → n < pow10 20 → scan (emit 20 n "") 0 ≡ some n
unfolding scan
scan-emit_all n h = scan-emit 19 n "" h

parse_int-emit : (n : ℕ) → n ≤ max_i64 → parse_int (emit 20 n "") ≡ some (pos n)
parse_int-emit n h =
    let (d, r, small, e) = emit-head 19 n "" in
    rw e (parse_int-digit d r small ∙ rw (← e, scan-emit_all n (omega arith)) (ground arith))

unsigned-emit : (n : ℕ) → n < pow10 20 → unsigned (emit 20 n "") ≡ some n
unsigned-emit n h =
    let (d, r, small, e) = emit-head 19 n "" in
    rw e (unsigned-digit d r ∙ rw (← e) (scan-emit_all n h))

parse_int-minus :
    (n : ℕ) → n ≤ max_i64 → parse_int (String.◌∷◌ "-" (emit 20 (n + 1) "")) ≡ some (negsuc n)
unfolding parse_int
parse_int-minus n h = rw (unsigned-emit (n + 1) (omega arith)) (ground arith)

-- Every int64 that is printed reads back as itself.
pub parse_int-format_int : (z : ℤ) → InI64 z → parse_int (format_int z) ≡ some z
unfolding format_int
parse_int-format_int (pos n) h = parse_int-emit n h.0
parse_int-format_int (negsuc n) h = parse_int-minus n (omega arith)
