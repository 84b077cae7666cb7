-- ===== src/Jwt/Claims/Members.antt =====
-- The members of the registered claims have different names (jwt/claims.go).
use libauth.Prelude.{◌&&◌, refl, arith, not, ◌≡◌, Bool, List, true, false, [], ◌∷◌}
use libauth.Prelude.Int.{eq_ℤ, pos}
use libauth.Jwt.Json.{Json, keep_last, occurs, Fields, number, string, end}
use libauth.Jwt.Claims.{
  is_empty, nbf_name, exp_name, aud_name, jti_name, iat_name, seconds_of, iss_name, audience_json,
  sub_name, omit_empty, registered, Claims,
}
use libauth.Text.{contains, ◌==◌, Text}
use libauth.Jwt.Decimal.{print_int}

-- Members that may be left out, in their order.
abbrev Members : Type 0
Members = List (Bool × Text × Json)

unfoldable fields_of : Members → Fields
fields_of [] = end
fields_of ((skip, name, j) ∷ ms) = omit_empty skip name j (fields_of ms)

abbrev names_of : Members → List Text
names_of [] = []
names_of ((skip, name, j) ∷ ms) = name ∷ names_of ms

abbrev distinct : List Text → Bool
distinct [] = true
distinct (n ∷ ns) = not (contains ns n) && distinct ns

occurs-fields_of :
    (ms : Members) (k : Text) → contains (names_of ms) k ≡ false → occurs k (fields_of ms) ≡ false
unfolding occurs fields_of
occurs-fields_of [] k h = refl
occurs-fields_of ((true, name, j) ∷ ms) k h = occurs-fields_of ms k (ground (arith, h))
occurs-fields_of ((false, name, j) ∷ ms) k h =
    ground (arith, h, occurs-fields_of ms k (ground (arith, h)))

keep_last-fields_of :
    (ms : Members) → distinct (names_of ms) ≡ true → keep_last (fields_of ms) ≡ fields_of ms
unfolding keep_last fields_of
keep_last-fields_of [] h = refl
keep_last-fields_of ((true, name, j) ∷ ms) h = keep_last-fields_of ms (ground (arith, h))
keep_last-fields_of ((false, name, j) ∷ ms) h =
    let absent = occurs-fields_of ms name (ground (arith, h)) in
    rw (absent, keep_last-fields_of ms (ground (arith, h))) refl

abbrev members : Claims → Members
members c =
    (c.subject == [], sub_name, string c.subject)
    ∷ (c.issuer == [], iss_name, string c.issuer)
    ∷ (is_empty c.audience, aud_name, audience_json c.audience)
    ∷ (c.id == [], jti_name, string c.id)
    ∷ (eq_ℤ (seconds_of c.issued_at) (pos 0), iat_name, number (print_int (seconds_of c.issued_at)))
    ∷ (
      eq_ℤ (seconds_of c.expires_at) (pos 0),
      exp_name,
      number (print_int (seconds_of c.expires_at)),
    )
    ∷ (
      eq_ℤ (seconds_of c.not_before) (pos 0),
      nbf_name,
      number (print_int (seconds_of c.not_before)),
    )
    ∷ []

pub keep_last-registered : (c : Claims) → keep_last (registered c) ≡ registered c
unfolding registered fields_of ◌==◌
keep_last-registered c = keep_last-fields_of (members c) refl
