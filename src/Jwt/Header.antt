-- ===== src/Jwt/Header.antt =====
-- jwt/jwt.go: the JOSE header of a token, and its `typ`.
use libauth.Prelude.{
  drop, ◌+◌, take, ◌&&◌, ◌||◌, map, leb, nat_eq, length, Bool, if◌then◌else◌, List, Option, ℕ, true,
  false, none, some, zero, suc, [], ◌∷◌,
}
use libauth.Jwt.Json.{read_string, read_strings, Fields, Json, null, array, object, end, field}
use libauth.Text.{◌==◌, codes, Text}
use libauth.Text.{reverse}

pub record Jose : Type 0 where
  pub alg : Text
  pub typ : Text
  pub crit : List Text

abbrev pub no_jose : Jose
no_jose = record { alg = []; typ = []; crit = [] }

-- A letter of ASCII in lower case.
abbrev pub lower : ℕ → ℕ
lower c = if leb 65 c && leb c 90 then c + 32 else c

-- Into a `[]string`.
abbrev pub read_slice : Json → Option (List Text)
read_slice null = some []
read_slice (array xs) = read_strings xs
read_slice j = none

abbrev pub filled {ℓ} : {A : Type ℓ} → Option A → (A → Jose) → Option Jose
filled none f = none
filled (some a) f = some (f a)

-- encoding/json matches the names of fields without regard to case. None of the three has a letter
-- that a letter outside ASCII folds to.
unfoldable pub read_jose_member : Text → Json → Jose → Option Jose
read_jose_member name j jose =
    if map lower name == codes "alg"
    then filled (read_string jose.alg j) (λ s. record jose { alg = s })
    else if map lower name == codes "typ"
    then filled (read_string jose.typ j) (λ s. record jose { typ = s })
    else if map lower name == codes "crit"
    then filled (read_slice j) (λ ss. record jose { crit = ss })
    else some jose

-- A member of the wrong type is an error, whatever follows.
unfoldable pub read_jose_members : Fields → Jose → Option Jose
read_jose_members end jose = some jose
read_jose_members (field name j fs) jose = elim (read_jose_member name j jose) [
  | none ↦ none
  | some jose' ↦ read_jose_members fs jose'
]

unfoldable pub read_jose : Json → Option Jose
read_jose null = some no_jose
read_jose (object fs) = read_jose_members fs no_jose
read_jose j = none

-- The white space of Unicode in UTF-8, at the front of a text, and at the front of a text reversed.
abbrev pub ascii_space : ℕ → Bool
ascii_space c = nat_eq c 32 || (leb 9 c && leb c 13)

abbrev pub latin_space : ℕ → ℕ → Bool
latin_space b c = nat_eq b 194 && (nat_eq c 133 || nat_eq c 160)

abbrev pub wide_space : ℕ → ℕ → ℕ → Bool
wide_space a b c =
    (nat_eq a 225 && nat_eq b 154 && nat_eq c 128)
    || (nat_eq a 226
        && nat_eq b 128
        && ((leb 128 c && leb c 138) || nat_eq c 168 || nat_eq c 169 || nat_eq c 175))
    || (nat_eq a 226 && nat_eq b 129 && nat_eq c 159)
    || (nat_eq a 227 && nat_eq b 128 && nat_eq c 128)

-- The text without one space in front.
abbrev pub past_space : Text → Option Text
past_space [] = none
past_space (a ∷ []) = if ascii_space a then some [] else none
past_space (a ∷ b ∷ []) =
    if ascii_space a then some (b ∷ []) else if latin_space a b then some [] else none
past_space (a ∷ b ∷ c ∷ s) =
    if ascii_space a
    then some (b ∷ c ∷ s)
    else if latin_space a b
    then some (c ∷ s)
    else if wide_space a b c
    then some s
    else none

abbrev pub past_space_reversed : Text → Option Text
past_space_reversed [] = none
past_space_reversed (a ∷ []) = if ascii_space a then some [] else none
past_space_reversed (b ∷ a ∷ []) =
    if ascii_space b then some (a ∷ []) else if latin_space a b then some [] else none
past_space_reversed (c ∷ b ∷ a ∷ s) =
    if ascii_space c
    then some (b ∷ a ∷ s)
    else if latin_space b c
    then some (a ∷ s)
    else if wide_space a b c
    then some s
    else none

-- On fuel, the length of the text: each round takes a byte at least.
unfoldable pub trim_by : (Text → Option Text) → ℕ → Text → Text
trim_by past zero s = s
trim_by past (suc fuel) s = elim (past s) [ none ↦ s | some rest ↦ trim_by past fuel rest ]

-- `strings.TrimSpace`
unfoldable pub trim_space : Text → Text
trim_space s =
    let front = trim_by past_space (length s) s in
    reverse (trim_by past_space_reversed (length front) (reverse front))

-- `strings.ToLower`, as far as the comparison with a text of ASCII can tell: the other letter that
-- becomes one of ASCII in "application/jwt" is U+0130, an i with a dot.
unfoldable pub to_lower : Text → Text
to_lower [] = []
to_lower (c ∷ []) = lower c ∷ []
to_lower (c ∷ d ∷ s) = elim (nat_eq c 196 && nat_eq d 176) [
  | true ↦ 105 ∷ to_lower s
  | false ↦ lower c ∷ to_lower (d ∷ s)
]

-- `strings.TrimPrefix(s, prefix)`
abbrev pub trim_prefix : Text → Text → Text
trim_prefix s prefix = if take (length prefix) s == prefix then drop (length prefix) s else s

-- `typIsJWT`
unfoldable pub typ_is_jwt : Text → Bool
typ_is_jwt typ = trim_prefix (to_lower (trim_space typ)) (codes "application/") == codes "jwt"
