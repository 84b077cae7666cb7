-- ===== src/Jwt/Base64.antt =====
-- `base64.RawURLEncoding`, the encoding of the segments of a token (jwt/alg.go).
pub mod RoundTrip
use libauth.Prelude.{
  ◌+◌, ◌||◌, ◌%◌, ◌*◌, nat_eq, ◌/◌, Option, if◌then◌else◌, map, ℕ, List, true, false, none, some,
  zero, suc, [], ◌∷◌, inl, inr,
}
use libauth.Text.Alphabet.{nth}
use libauth.Text.{index_byte, codes, Text}

abbrev pub url_alphabet : Text
url_alphabet = codes "ABCDEFGHIJKLMNOPQRSTUVWXYZabcdefghijklmnopqrstuvwxyz0123456789-_"

-- Bytes cut into groups of six bits.
unfoldable pub sextets : Text → List ℕ
sextets [] = []
sextets (a ∷ []) = a / 4 ∷ a % 4 * 16 ∷ []
sextets (a ∷ b ∷ []) = a / 4 ∷ (a % 4 * 16 + b / 16) ∷ b % 16 * 4 ∷ []
sextets (a ∷ b ∷ c ∷ s) = a / 4 ∷ (a % 4 * 16 + b / 16) ∷ (b % 16 * 4 + c / 64) ∷ c % 64 ∷ sextets s

-- `b64encode`
unfoldable pub b64encode : Text → Text
b64encode s = map (nth url_alphabet) (sextets s)

-- Line breaks are skipped wherever they stand.
unfoldable pub without_breaks : Text → Text
without_breaks [] = []
without_breaks (c ∷ s) =
    let rest = without_breaks s in if nat_eq c 10 || nat_eq c 13 then rest else c ∷ rest

unfoldable pub decode_map : Text → Option (List ℕ)
decode_map [] = some []
decode_map (c ∷ s) = elim (index_byte url_alphabet c) [
  | none ↦ none
  | some d ↦ elim (decode_map s) [ none ↦ none | some ds ↦ some (d ∷ ds) ]
]

-- Groups of four, the last of two or three. Bits that are left over are dropped.
unfoldable pub regroup : List ℕ → Option Text
regroup [] = some []
regroup (w ∷ []) = none
regroup (w ∷ x ∷ []) = some ((w * 4 + x / 16) ∷ [])
regroup (w ∷ x ∷ y ∷ []) = some ((w * 4 + x / 16) ∷ (x % 16 * 16 + y / 4) ∷ [])
regroup (w ∷ x ∷ y ∷ z ∷ ds) = elim (regroup ds) [
  | none ↦ none
  | some s ↦ some ((w * 4 + x / 16) ∷ (x % 16 * 16 + y / 4) ∷ (y % 4 * 64 + z) ∷ s)
]

-- `b64decode`
unfoldable pub b64decode : Text → Option Text
b64decode s = elim (decode_map (without_breaks s)) [ none ↦ none | some ds ↦ regroup ds ]
