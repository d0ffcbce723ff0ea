-- ===== src/Canonical/Parser/Numbers.antt =====
-- pkg/iscp/canonical/canonical.go: lemmas on the decimal text of integers.
use iscp.Prelude.{
  ℕ, zero, suc, ◌+◌, ◌*◌, ◌-◌, ◌/◌, ◌%◌, ◌≤◌, ◌<◌, ◌^◌, ◌≡◌, refl, true, false, Option, none, some,
  [], ◌∷◌, ◌++◌, nat_eq, ltb, Bytes, All, All-append, Bool-cases, inl, inr, arith,
}
use iscp.Prelude.Int.{ℤ, pos, negsuc}
use iscp.Canonical.{is_int64, format_int, decimal_fuel}
use iscp.Canonical.Parser.{
  has_float_byte, leading_zero, negative_zero, parse_digits, parse_int, parse_number,
}

abbrev then_digit : ℕ → Option ℕ → Option ℕ
then_digit d none = none
then_digit d (some n) = some (n * 10 + d)

parse_digits-append :
    (bs : Bytes) (acc d : ℕ)
    → d < 10
    → parse_digits acc (bs ++ (48 + d) ∷ []) ≡ then_digit d (parse_digits acc bs)
unfolding parse_digits
parse_digits-append [] acc d h = ground arith
parse_digits-append (b ∷ bs) acc d h =
    ground (arith, parse_digits-append bs (acc * 10 + (b - 48)) d h)

parse_digits-decimal_fuel : (f n : ℕ) → n < f → parse_digits 0 (decimal_fuel f n) ≡ some n
unfolding decimal_fuel parse_digits
parse_digits-decimal_fuel zero n h = absurd (omega (arith, h))
parse_digits-decimal_fuel (suc f) n h = elim (Bool-cases (ltb n 10)) [
  | inl small ↦ ground arith
  | inr large ↦
      let le : n / 10 < f = ground arith in
      ground (
        arith,
        large,
        parse_digits-append (decimal_fuel f (n / 10)) 0 (n % 10) (omega arith),
        parse_digits-decimal_fuel f (n / 10) le,
      )
]

-- A text of digits, of which the first is not a zero.
abbrev IsDigit : ℕ → Type 0
IsDigit b = (48 ≤ b) × (b ≤ 57)

decimal_fuel-All : (f n : ℕ) → All IsDigit (decimal_fuel f n)
unfolding decimal_fuel
decimal_fuel-All zero n = tt
decimal_fuel-All (suc f) n = elim (Bool-cases (ltb n 10)) [
  | inl small ↦ ground arith
  | inr large ↦ rw (large) (
      All-append IsDigit (decimal_fuel f (n / 10)) _ (decimal_fuel-All f (n / 10))
        ((omega arith, omega arith), tt))
]

decimal_fuel-head :
    (f n : ℕ)
    → n < f
    → (b : ℕ) × (bs : Bytes) × (decimal_fuel f n ≡ b ∷ bs) × (n < 10 → bs ≡ []) × (0 < n → 49 ≤ b)
unfolding decimal_fuel
decimal_fuel-head zero n h = absurd (omega (arith, h))
decimal_fuel-head (suc f) n h = elim (Bool-cases (ltb n 10)) [
  | inl small ↦ (48 + n, [], rw (small) refl, λ _. refl, λ p. omega (arith, p))
  | inr large ↦
      let le : n / 10 < f = ground arith in
      let (b, bs, e, one, first) = decimal_fuel-head f (n / 10) le in
      (
        b,
        bs ++ (48 + n % 10) ∷ [],
        rw (large, e) refl,
        λ s. absurd (ground arith),
        λ p. first (ground arith),
      )
]

has_float_byte-All : (bs : Bytes) → All IsDigit bs → has_float_byte bs ≡ false
unfolding has_float_byte
has_float_byte-All [] h = refl
has_float_byte-All (b ∷ bs) h = ground (arith, has_float_byte-All bs h.1)

leading_zero-digit :
    (b n : ℕ) (bs : Bytes) → (n < 10 → bs ≡ []) → (0 < n → 49 ≤ b) → leading_zero (b ∷ bs) ≡ false
leading_zero-digit b n [] one first = refl
leading_zero-digit b zero (c ∷ bs) one first = cc (one (omega arith))
leading_zero-digit b (suc n) (c ∷ bs) one first = ground (arith, first (omega arith))

negative_zero-digit : (b : ℕ) (bs : Bytes) → 48 ≤ b → negative_zero (b ∷ bs) ≡ false
negative_zero-digit b [] h = refl
negative_zero-digit b (c ∷ bs) h = ground arith

parse_number-pos : (n : ℕ) → n < 2 ^ 63 → parse_number (decimal_fuel (suc n) n) ≡ some (pos n)
unfolding parse_number parse_int has_float_byte
parse_number-pos n h =
    let (b, bs, e, one, first) = decimal_fuel-head (suc n) n (omega arith) in
    let read = rw e at (parse_digits-decimal_fuel (suc n) n (omega arith)) in
    let digits = rw e at (decimal_fuel-All (suc n) n) in
    rw e (
      ground (
        arith,
        read,
        digits.0,
        has_float_byte-All (b ∷ bs) digits,
        leading_zero-digit b n bs one first,
        negative_zero-digit b bs digits.0.0,
      ))

parse_number-negsuc :
    (n : ℕ)
    → n < 2 ^ 63
    → parse_number (b'-' ∷ decimal_fuel (suc (suc n)) (suc n)) ≡ some (negsuc n)
unfolding parse_number parse_int has_float_byte
parse_number-negsuc n h =
    let (b, bs, e, one, first) = decimal_fuel-head (suc (suc n)) (suc n) (omega arith) in
    let read = rw e at (parse_digits-decimal_fuel (suc (suc n)) (suc n) (omega arith)) in
    let digits = rw e at (decimal_fuel-All (suc (suc n)) (suc n)) in
    rw e (ground (arith, read, digits.0, has_float_byte-All (b ∷ bs) digits, first (omega arith)))

-- Every 64-bit integer that is written in decimal is read back.
pub parse_number-format_int : (i : ℤ) → is_int64 i ≡ true → parse_number (format_int i) ≡ some i
unfolding format_int
parse_number-format_int (pos n) h = parse_number-pos n (ground arith)
parse_number-format_int (negsuc n) h = parse_number-negsuc n (ground arith)
