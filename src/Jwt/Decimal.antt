-- ===== src/Jwt/Decimal.antt =====
-- Whole numbers in JSON text: `strconv.AppendInt`, by which encoding/json writes an `int64`, and
-- `strconv.ParseInt`, by which `json.Number.Int64` reads one (jwt/claims.go).
use libauth.Prelude.{
  ◌∙◌, ap, refl, sym, Bool-cases, ltb, arith, ◌&&◌, ◌/◌, ◌≡◌, nat_eq, leb, ◌-◌, ◌%◌, ◌≤◌,
  if◌then◌else◌, ◌*◌, ◌+◌, Option, ℕ, false, none, some, zero, suc, [], ◌∷◌, inl, inr,
}
use libauth.Prelude.Int.{neg, IsInt64, ℤ, pos, negsuc}
use libauth.Text.{Text}

-- The digits of `n` before `rest`. The fuel is at least `n`.
unfoldable pub digits_before : ℕ → ℕ → Text → Text
digits_before zero n rest = (48 + n % 10) ∷ rest
digits_before (suc fuel) n rest =
    let more = digits_before fuel (n / 10) ((48 + n % 10) ∷ rest) in
    if ltb n 10 then (48 + n) ∷ rest else more

unfoldable pub print_int : ℤ → Text
unfolding digits_before
print_int (pos n) = digits_before n n []
print_int (negsuc n) = 45 ∷ digits_before (suc n) (suc n) []

-- The number that digits stand for, after the digits of `n`.
unfoldable pub read_digits : ℕ → Text → Option ℕ
read_digits n [] = some n
read_digits n (c ∷ s) =
    let rest = read_digits (n * 10 + (c - 48)) s in if leb 48 c && leb c 57 then rest else none

unfoldable pub read_number : Text → Option ℕ
unfolding read_digits
read_number [] = none
read_number (c ∷ s) = read_digits 0 (c ∷ s)

abbrev positive : Option ℕ → Option ℤ
positive none = none
positive (some n) = if leb n 9223372036854775807 then some (pos n) else none

abbrev negative : Option ℕ → Option ℤ
negative none = none
negative (some n) = if leb n 9223372036854775808 then some (neg (pos n)) else none

-- `strconv.ParseInt(s, 10, 64)`, for the texts of JSON numbers, which have no sign `+`.
unfoldable pub parse_int : Text → Option ℤ
unfolding read_number
parse_int [] = none
parse_int (c ∷ s) = if nat_eq c 45 then negative (read_number s) else positive (read_number (c ∷ s))

read_digits-digits_before :
    (fuel n : ℕ) (rest : Text)
    → n ≤ fuel
    → read_digits 0 (digits_before fuel n rest) ≡ read_digits n rest
unfolding read_digits digits_before
read_digits-digits_before zero n rest h = ground arith
read_digits-digits_before (suc fuel) n rest h = elim (Bool-cases (ltb n 10)) [
  | inl small ↦ ground (arith, small)
  | inr large ↦
      ground
        (arith, large, read_digits-digits_before fuel (n / 10) ((48 + n % 10) ∷ rest) (omega arith))
]

-- There is a first digit, which is not the sign.
digits_before_cons :
    (fuel n : ℕ) (rest : Text)
    → n ≤ fuel
    → (c : ℕ) × (s : Text) × (digits_before fuel n rest ≡ c ∷ s) × (nat_eq c 45 ≡ false)
unfolding digits_before
digits_before_cons zero n rest h = (48 + n % 10, rest, refl, ground arith)
digits_before_cons (suc fuel) n rest h = elim (Bool-cases (ltb n 10)) [
  | inl small ↦ (48 + n, rest, rw small refl, ground arith)
  | inr large ↦
      let (c, s, shape, sign) =
        digits_before_cons fuel (n / 10) ((48 + n % 10) ∷ rest) (omega arith) in
      (c, s, rw large shape, sign)
]

read_number-digits_before : (n : ℕ) → read_number (digits_before n n []) ≡ some n
unfolding read_number
read_number-digits_before n =
    let (c, s, shape, sign) = digits_before_cons n n [] (omega arith) in
    rw shape (sym (ap (read_digits 0) shape) ∙ read_digits-digits_before n n [] (omega arith))

pub parse_int-print_int : (a : ℤ) → IsInt64 a → parse_int (print_int a) ≡ some a
unfolding parse_int print_int neg
parse_int-print_int (pos n) h =
    let (c, s, shape, sign) = digits_before_cons n n [] (omega arith) in
    let read = sym (ap read_number shape) ∙ read_number-digits_before n in
    rw shape (rw (sign, read) (ground (arith, h)))
parse_int-print_int (negsuc n) h = rw (read_number-digits_before (suc n)) (ground (arith, h))
