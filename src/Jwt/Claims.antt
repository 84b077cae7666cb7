-- ===== src/Jwt/Claims.antt =====
-- jwt/claims.go: the claims of a token, and their JSON. The value of an extra claim that
-- encoding/json cannot encode is `none`. A decoder that reads one whole JSON value, as
-- `UnmarshalJSON` gets it, finds nothing after it.
pub mod Members
pub mod RoundTrip
use libauth.Prelude.{true, false}
use libauth.Prelude.{length, nat_eq, Bool, any, if◌then◌else◌, Option, List, none, some, [], ◌∷◌}
use libauth.Jwt.Time.{unix}
use libauth.Prelude.Int.{eq_ℤ, ℤ, pos}
use libauth.Jwt.{err_reserved_claim, err_encode, Verdict, accepted, rejected, ◌>>=◌}
use libauth.Jwt.Json.{
  sort_fields, as_any, read_string, append_field, keep_last, read_strings, string_items, Fields,
  Json, null, number, string, array, object, end, field,
}
use libauth.Text.{contains, ◌==◌, codes, Text}
use libauth.Jwt.Time.{at_unix, is_zero, Time, zero_time}
use libauth.Dict.{put, keys, Dict}
use libauth.Jwt.Decimal.{print_int, parse_int}

pub record Claims : Type 0 where
  pub subject : Text
  pub issuer : Text
  pub audience : List Text
  pub id : Text
  pub issued_at : Time
  pub expires_at : Time
  pub not_before : Time
  pub extra : Dict (Option Json)

-- `Claims{}`
abbrev pub no_claims : Claims
no_claims = record {
  subject = [];
  issuer = [];
  audience = [];
  id = [];
  issued_at = zero_time;
  expires_at = zero_time;
  not_before = zero_time;
  extra = [];
}

abbrev pub sub_name : Text
sub_name = codes "sub"

abbrev pub iss_name : Text
iss_name = codes "iss"

abbrev pub aud_name : Text
aud_name = codes "aud"

abbrev pub jti_name : Text
jti_name = codes "jti"

abbrev pub iat_name : Text
iat_name = codes "iat"

abbrev pub exp_name : Text
exp_name = codes "exp"

abbrev pub nbf_name : Text
nbf_name = codes "nbf"

abbrev pub reserved_claims : List Text
reserved_claims = sub_name ∷ iss_name ∷ aud_name ∷ jti_name ∷ iat_name ∷ exp_name ∷ nbf_name ∷ []

-- `Audience.MarshalJSON`
abbrev pub audience_json : List Text → Json
audience_json [] = null
audience_json (s ∷ []) = string s
audience_json (s ∷ t ∷ ss) = array (string_items (s ∷ t ∷ ss))

-- `Audience.UnmarshalJSON`
unfoldable pub read_audience : Json → Option (List Text)
read_audience null = some []
read_audience (string s) = some (s ∷ [])
read_audience (array xs) = read_strings xs
read_audience j = none

-- A member with `omitempty`: left out where its value is empty.
abbrev pub omit_empty : Bool → Text → Json → Fields → Fields
omit_empty omitted name j rest = if omitted then rest else field name j rest

abbrev pub text_field : Text → Text → Fields → Fields
text_field name s rest = omit_empty (s == []) name (string s) rest

abbrev pub is_empty {ℓ} : {A : Type ℓ} → List A → Bool
is_empty [] = true
is_empty (a ∷ as') = false

abbrev pub audience_field : List Text → Fields → Fields
audience_field aud rest = omit_empty (is_empty aud) aud_name (audience_json aud) rest

abbrev pub seconds_of : Time → ℤ
seconds_of t = if is_zero t then pos 0 else unix t

abbrev pub int_field : Text → ℤ → Fields → Fields
int_field name s rest = omit_empty (eq_ℤ s (pos 0)) name (number (print_int s)) rest

-- The struct `registered` of `MarshalJSON`, in the order of its fields.
unfoldable pub registered : Claims → Fields
registered c = text_field sub_name c.subject (
    text_field iss_name c.issuer (
      audience_field c.audience (
        text_field jti_name c.id (
          int_field iat_name (seconds_of c.issued_at) (
            int_field exp_name (seconds_of c.expires_at)
              (int_field nbf_name (seconds_of c.not_before) end))))))

-- `merged[name] = raw`, for the extra claims after the others.
unfoldable pub merged : Fields → Dict (Option Json) → Verdict Fields
merged fs [] = accepted fs
merged fs ((name, none) ∷ extra) = rejected err_encode
merged fs ((name, some j) ∷ extra) = merged (append_field fs name j) extra

-- `Claims.MarshalJSON`
unfoldable pub marshal_claims : Claims → Verdict Json
marshal_claims c =
    if any (contains reserved_claims) (keys c.extra)
    then rejected err_reserved_claim
    else elim c.extra [
      | [] ↦ accepted (object (registered c))
      | e ∷ es ↦
          merged (registered c) (e ∷ es) >>= λ fs. accepted (object (sort_fields (keep_last fs)))
    ]

-- `jsonUnmarshalDate`
abbrev pub date_of : Option ℤ → Option Time
date_of none = none
date_of (some s) = some (at_unix s)

unfoldable pub read_date : Json → Option Time
read_date (number t) = date_of (parse_int t)
read_date j = none

-- One case of the switch in `UnmarshalJSON`; what it reads is put into the claims.
abbrev pub update {ℓ} : {A : Type ℓ} → Option A → (A → Claims) → Option Claims
update none f = none
update (some a) f = some (f a)

unfoldable pub read_member : Text → Json → Claims → Option Claims
read_member name j c =
    if name == sub_name
    then update (read_string c.subject j) (λ s. record c { subject = s })
    else if name == iss_name
    then update (read_string c.issuer j) (λ s. record c { issuer = s })
    else if name == jti_name
    then update (read_string c.id j) (λ s. record c { id = s })
    else if name == aud_name
    then update (read_audience j) (λ a. record c { audience = a })
    else if name == iat_name
    then update (read_date j) (λ t. record c { issued_at = t })
    else if name == exp_name
    then update (read_date j) (λ t. record c { expires_at = t })
    else if name == nbf_name
    then update (read_date j) (λ t. record c { not_before = t })
    else some (record c { extra = put c.extra name (some (as_any j)) })

unfoldable pub read_members : Fields → Claims → Option Claims
read_members end c = some c
read_members (field name j fs) c = elim (read_member name j c) [
  | none ↦ none
  | some c' ↦ read_members fs c'
]

-- `Claims.UnmarshalJSON`
unfoldable pub unmarshal_claims : Json → Option Claims
unmarshal_claims null = some no_claims
unmarshal_claims (object fs) = read_members (keep_last fs) no_claims
unmarshal_claims j = none
