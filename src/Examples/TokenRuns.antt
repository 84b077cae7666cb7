-- ===== src/Examples/TokenRuns.antt =====
-- Headers and payloads that are read and written (jwt/jwt_test.go).
use libauth.Examples.Bearer.{claims_of_bob, decodes}
use libauth.Prelude.{refl, ◌≡◌, true, false, some, [], ◌∷◌}
use libauth.Prelude.Int.{pos}
use libauth.Jwt.{err_reserved_claim, accepted, rejected}
use libauth.Jwt.Time.{zero_time, before, at_unix}
use libauth.Jwt.Json.{
  insert_field, sort_fields, append_field, null, boolean, object, field, string, number, end,
}
use libauth.Text.{codes}
use libauth.Jwt.Claims.{merged, marshal_claims, unmarshal_claims, exp_name, sub_name, no_claims}
use libauth.Jwt.Header.{typ_is_jwt}
use libauth.Dict.{keys}
use libauth.Text.Order.{text_lt}

-- A type with its prefix, in capitals and between spaces, and another type.
typ_prefixed : typ_is_jwt (codes " application/JWT ") ≡ true
unfolding decodes
typ_prefixed = refl

typ_other : typ_is_jwt (codes "at+jwt") ≡ false
unfolding decodes
typ_other = refl

-- A payload that is null has no claims.
null_payload : unmarshal_claims null ≡ some no_claims
unfolding decodes
null_payload = refl

-- The last second of 64 bits is far in the past.
last_second : before (at_unix (pos 9223372036854775807)) zero_time ≡ true
unfolding decodes
last_second = refl

-- A member that stands twice counts once, as the later one says.
twice :
    unmarshal_claims
      (object (field sub_name (number (codes "1")) (field sub_name (string (codes "bob")) end)))
    ≡ some claims_of_bob
unfolding decodes
twice = refl

-- An extra claim, printed among the others in the order of the names.
extra_claim :
    marshal_claims (record claims_of_bob { extra = (codes "admin", some (boolean true)) ∷ [] })
    ≡ accepted
        (object (field (codes "admin") (boolean true) (field sub_name (string (codes "bob")) end)))
unfolding decodes marshal_claims merged append_field sort_fields insert_field text_lt keys
extra_claim = refl

reserved_claim :
    marshal_claims (record claims_of_bob { extra = (exp_name, some null) ∷ [] })
    ≡ rejected err_reserved_claim
unfolding decodes marshal_claims keys
reserved_claim = refl
