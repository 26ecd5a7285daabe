-- ===== src/Text/Decimal.antt =====
-- strconv.Atoi and strconv.ParseUint in base 10, and the decimal text of a number.
use native.Mathlib.Numerals.{add-one}
use hackathon.Common.{
  ℕ, zero, suc, ◌+◌, ◌-◌, ◌*◌, ◌/◌, ◌%◌, ◌^◌, ◌<◌, ◌≤◌, ◌≡◌, refl, Bool, true, false, ◌||◌, Option,
  none, some, [], ◌∷◌, ltb, leb, ◌==◌, if◌then◌else◌, arith, ◌&&◌,
}
use hackathon.Text.{Text, codes, is_empty, is_space, trim_left, trim_right, trim_space, all_test}

-- A signed number: its sign and its absolute value.
pub record Integer : Type 0 where
  pub negative : Bool
  pub magnitude : ℕ

-- The value of digits behind `n`; no other rune is read. The bound is checked at the end, which
-- gives what the source's check in each round gives.
digits_value : ℕ → Text → Option ℕ
digits_value n [] = some n
digits_value n (c ∷ s) =
    let rest = digits_value (n * 10 + (c - b'0')) s in
    if ltb c b'0' || ltb b'9' c then none else rest

magnitude : Text → Option ℕ
magnitude [] = none
magnitude (c ∷ s) = digits_value 0 (c ∷ s)

abbrev within : ℕ → Option ℕ → Option ℕ
within most none = none
within most (some n) = if leb n most then some n else none

abbrev signed : Bool → Option ℕ → Option Integer
signed negative none = none
signed negative (some n) = some (record { negative = negative; magnitude = n })

-- strconv.ParseUint(s, 10, bits), with the largest value
unfoldable pub parse_uint : ℕ → Text → Option ℕ
unfolding magnitude digits_value
parse_uint most s = within most (magnitude s)

-- strconv.Atoi with a 64-bit int
unfoldable pub atoi : Text → Option Integer
unfolding magnitude digits_value
atoi [] = none
atoi (c ∷ s) =
    if c == b'-'
    then signed true (within (2 ^ 63) (magnitude s))
    else if c == b'+'
    then signed false (within (2 ^ 63 - 1) (magnitude s))
    else signed false (within (2 ^ 63 - 1) (magnitude (c ∷ s)))

-- `out` behind the digits of `n`; none for 0.
decimal_from : ℕ → ℕ → Text → Text
decimal_from zero n out = out
decimal_from (suc fuel) n out =
    let rest = decimal_from fuel (n / 10) ((b'0' + n % 10) ∷ out) in if n == 0 then out else rest

-- The decimal text that %d prints.
unfoldable pub decimal : ℕ → Text
unfolding decimal_from
decimal n = if n == 0 then codes "0" else decimal_from (n + 1) n []

abbrev pub is_digit : ℕ → Bool
is_digit c = leb b'0' c && leb c b'9'

digits_value-decimal_from :
    (fuel n : ℕ) (out : Text)
    → n < fuel
    → digits_value 0 (decimal_from fuel n out) ≡ digits_value n out
unfolding digits_value decimal_from
digits_value-decimal_from zero n out h = elim h [ ]
digits_value-decimal_from (suc fuel) n out h =
    ground (arith, digits_value-decimal_from fuel (n / 10) ((b'0' + n % 10) ∷ out))

digits-decimal_from :
    (fuel n : ℕ) (out : Text)
    → all_test is_digit out ≡ true
    → all_test is_digit (decimal_from fuel n out) ≡ true
unfolding decimal_from
digits-decimal_from zero n out h = h
digits-decimal_from (suc fuel) n out h =
    ground (arith, digits-decimal_from fuel (n / 10) ((b'0' + n % 10) ∷ out))

pub digits-decimal : (n : ℕ) → all_test is_digit (decimal n) ≡ true
unfolding decimal
digits-decimal n = ground (arith, digits-decimal_from (n + 1) n [] refl)

filled-decimal_from :
    (fuel n : ℕ) (out : Text) → is_empty out ≡ false → is_empty (decimal_from fuel n out) ≡ false
unfolding decimal_from
filled-decimal_from zero n out h = h
filled-decimal_from (suc fuel) n out h =
    ground (arith, filled-decimal_from fuel (n / 10) ((b'0' + n % 10) ∷ out) refl)

pub filled-decimal : (n : ℕ) → is_empty (decimal n) ≡ false
unfolding decimal decimal_from
filled-decimal n =
    ground (arith, add-one n, filled-decimal_from n (n / 10) ((b'0' + n % 10) ∷ []) refl)

value-decimal : (n : ℕ) → digits_value 0 (decimal n) ≡ some n
unfolding decimal digits_value
value-decimal n = ground (arith, digits_value-decimal_from (n + 1) n [] (omega arith))

no_sign :
    (c : ℕ) (s : Text)
    → all_test is_digit (c ∷ s) ≡ true
    → ((c == b'-') ≡ false) × ((c == b'+') ≡ false)
no_sign c s d = (ground arith, ground arith)

magnitude_value :
    (c : ℕ) (s : Text) (n : ℕ) → digits_value 0 (c ∷ s) ≡ some n → magnitude (c ∷ s) ≡ some n
unfolding magnitude
magnitude_value c s n v = v

-- with `magnitude` shut
atoi_unsigned :
    (o : Option ℕ) (n : ℕ)
    → o ≡ some n
    → n ≤ 2 ^ 63 - 1
    → signed false (within (2 ^ 63 - 1) o) ≡ some (record { negative = false; magnitude = n })
atoi_unsigned none n e h = cc
atoi_unsigned (some m) n e h = ground arith

atoi_digits :
    (s : Text) (n : ℕ)
    → is_empty s ≡ false
    → all_test is_digit s ≡ true
    → digits_value 0 s ≡ some n
    → n ≤ 2 ^ 63 - 1
    → atoi s ≡ some (record { negative = false; magnitude = n })
unfolding atoi
atoi_digits [] n f d v h = cc
atoi_digits (c ∷ s) n f d v h =
    let (minus, plus) = no_sign c s d in
    rw (minus, atoi) (rw plus (atoi_unsigned (magnitude (c ∷ s)) n (magnitude_value c s n v) h))

-- Atoi reads back the decimal text of every number that an int holds.
pub atoi-decimal :
    (n : ℕ) → n ≤ 2 ^ 63 - 1 → atoi (decimal n) ≡ some (record { negative = false; magnitude = n })
atoi-decimal n h =
    atoi_digits (decimal n) n (filled-decimal n) (digits-decimal n) (value-decimal n) h

trim_digits_left : (s : Text) → all_test is_digit s ≡ true → trim_left s ≡ s
unfolding trim_left is_space
trim_digits_left [] d = refl
trim_digits_left (c ∷ s) d = ground arith

trim_digits_right : (s : Text) → all_test is_digit s ≡ true → trim_right s ≡ s
unfolding trim_right is_space
trim_digits_right [] d = refl
trim_digits_right (c ∷ s) d = ground (arith, trim_digits_right s)

-- Digits have no space to trim.
pub trim-decimal : (n : ℕ) → trim_space (decimal n) ≡ decimal n
unfolding trim_space
trim-decimal n =
    rw (trim_digits_left (decimal n) (digits-decimal n))
      (trim_digits_right (decimal n) (digits-decimal n))

parse_uint_value :
    (most n : ℕ) (s : Text)
    → is_empty s ≡ false
    → digits_value 0 s ≡ some n
    → n ≤ most
    → parse_uint most s ≡ some n
unfolding parse_uint magnitude
parse_uint_value most n [] f v h = cc
parse_uint_value most n (c ∷ s) f v h = rw v (ground arith)

-- ParseUint reads back the decimal text of every number up to the largest.
pub parse_uint-decimal : (most n : ℕ) → n ≤ most → parse_uint most (decimal n) ≡ some n
parse_uint-decimal most n h =
    parse_uint_value most n (decimal n) (filled-decimal n) (value-decimal n) h
