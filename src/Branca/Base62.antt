-- ===== src/Branca/Base62.antt =====
-- branca/base62.go: bytes as one number, written in base 62. `math/big` numbers are native ones.
pub mod Digits
pub mod Bytes
pub mod RoundTrip
use libauth.Prelude.{◌%◌, ◌/◌, true, false, none, some, zero, suc, [], ◌∷◌}
use libauth.Text.{reverse, ◌==◌, index_byte, codes, Text}
use libauth.Prelude.{
  none, ◌+◌, zero, some, ◌++◌, nat_eq, ◌*◌, ◌∷◌, suc, if◌then◌else◌, [], Option, ℕ,
}
use libauth.Text.Alphabet.{nth}

abbrev pub alphabet : Text
alphabet = codes "0123456789ABCDEFGHIJKLMNOPQRSTUVWXYZabcdefghijklmnopqrstuvwxyz"

-- `base62Index`: the place of a byte in the alphabet, or -1.
abbrev pub digit_of : ℕ → Option ℕ
digit_of b = index_byte alphabet b

-- `new(big.Int).SetBytes(src)`: from the number read so far.
unfoldable pub set_bytes : ℕ → Text → ℕ
set_bytes n [] = n
set_bytes n (b ∷ s) = set_bytes (n * 256 + b) s

-- `n.Bytes()`: big-endian, with no leading zero. The fuel is at least `n`.
unfoldable pub bytes_from : ℕ → ℕ → Text
bytes_from zero n = []
bytes_from (suc fuel) n = elim (nat_eq n 0) [
  | true ↦ []
  | false ↦ bytes_from fuel (n / 256) ++ n % 256 ∷ []
]

abbrev pub bytes : ℕ → Text
bytes n = bytes_from n n

-- `for n.Sign() > 0 { … }`. A round divides by 62, so `n` rounds are enough.
unfoldable pub digits : ℕ → ℕ → Text → Text
digits zero n ds = ds
digits (suc fuel) n ds = elim (nat_eq n 0) [
  | true ↦ ds
  | false ↦ digits fuel (n / 62) (ds ++ nth alphabet (n % 62) ∷ [])
]

unfoldable pub base62_encode : Text → Text
base62_encode src = let n = set_bytes 0 src in if src == [] then [] else reverse (digits n n [])

-- `for i := 0; i < len(s); i++ { … }`, from the number read so far.
unfoldable pub read_digits : ℕ → Text → Option ℕ
read_digits n [] = some n
read_digits n (c ∷ s) = elim (digit_of c) [ none ↦ none | some d ↦ read_digits (n * 62 + d) s ]

-- `none` is `errNonBase62`.
unfoldable pub base62_decode : Text → Option Text
base62_decode s =
    if s == [] then none else elim (read_digits 0 s) [ none ↦ none | some n ↦ some (bytes n) ]
