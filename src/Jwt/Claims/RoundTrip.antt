-- ===== src/Jwt/Claims/RoundTrip.antt =====
-- Reading back the registered claims (jwt/claims.go).
use libauth.Prelude.{
  sym, ◌∙◌, ap, Bool-cases, refl, arith, if◌then◌else◌, ◌≡◌, List, some, [], ◌∷◌, inl, inr,
}
use libauth.Prelude.Int.{neg, ◌+ℤ◌, wrap64-IsInt64, IsInt64, eq_ℤ, pos}
use libauth.Jwt.Json.{read_string, read_strings-string_items, Json, Fields, number, end}
use libauth.Jwt.Claims.{
  object, unmarshal_claims, update, field, nbf_name, exp_name, date_of, aud_name, jti_name,
  no_claims, iat_name, text_field, int_field, audience_field, seconds_of, iss_name, read_member,
  audience_json, sub_name, read_members, read_audience, read_date, registered, Claims,
}
use libauth.Jwt.Time.{unix_to_internal, is_zero, at_unix, zero_time, Time}
use libauth.Text.{◌==◌, Text}
use libauth.Jwt.Time.{unix}
use libauth.Jwt.Decimal.{parse_int-print_int, print_int}
use libauth.Jwt.Claims.Members.{keep_last-registered}

-- What a date becomes: whole seconds, and no date for the second 0 of Unix time.
abbrev pub truncated : Time → Time
truncated t = if eq_ℤ (seconds_of t) (pos 0) then zero_time else at_unix (seconds_of t)

-- What the claims become.
abbrev pub read_back : Claims → Claims
read_back c = record c {
  issued_at = truncated c.issued_at;
  expires_at = truncated c.expires_at;
  not_before = truncated c.not_before;
}

-- The claims read so far.
abbrev made : Text → Text → List Text → Text → Time → Time → Time → Claims
made sub iss aud jti iat exp nbf = record {
  subject = sub;
  issuer = iss;
  audience = aud;
  id = jti;
  issued_at = iat;
  expires_at = exp;
  not_before = nbf;
  extra = [];
}

module _ (rest : Fields) where
  seconds_of-IsInt64 : (t : Time) → IsInt64 (seconds_of t)
  unfolding unix
  seconds_of-IsInt64 t = elim (Bool-cases (is_zero t)) [
    | inl nothing ↦ rw nothing (omega arith, omega arith)
    | inr other ↦ rw other (wrap64-IsInt64 (t.sec +ℤ neg unix_to_internal))
  ]

  read_date_lem :
      (t : Time) → read_date (number (print_int (seconds_of t))) ≡ some (at_unix (seconds_of t))
  unfolding read_date
  read_date_lem t = ap date_of (parse_int-print_int (seconds_of t) (seconds_of-IsInt64 t))

  read_audience_lem : (aud : List Text) → read_audience (audience_json aud) ≡ some aud
  unfolding read_audience
  read_audience_lem [] = refl
  read_audience_lem (s ∷ []) = refl
  read_audience_lem (s ∷ t ∷ ss) = read_strings-string_items (s ∷ t ∷ ss)

  read_member_lem :
      (name : Text) (j : Json) (c c' : Claims)
      → read_member name j c ≡ some c'
      → read_members (field name j rest) c ≡ read_members rest c'
  unfolding read_members
  read_member_lem name j c c' h = rw (read_members, h) refl

  -- A date, where its name leads to the update `f`.
  dated :
      (name : Text) (t : Time) (c : Claims) (f : Time → Claims)
      → read_member name (number (print_int (seconds_of t))) c
        ≡ update (read_date (number (print_int (seconds_of t)))) f
      → read_members (field name (number (print_int (seconds_of t))) rest) c
        ≡ read_members rest (f (at_unix (seconds_of t)))
  dated name t c f h =
      read_member_lem name (number (print_int (seconds_of t))) c (f (at_unix (seconds_of t)))
        (h ∙ ap (λ o. update o f) (read_date_lem t))

  read_sub :
      (sub : Text)
      → read_members (text_field sub_name sub rest) no_claims
        ≡ read_members rest (made sub [] [] [] zero_time zero_time zero_time)
  unfolding read_members read_member read_string ◌==◌
  read_sub [] = refl
  read_sub (c ∷ s) = refl

  read_iss :
      (sub iss : Text)
      → read_members
          (text_field iss_name iss rest)
          (made sub [] [] [] zero_time zero_time zero_time)
        ≡ read_members rest (made sub iss [] [] zero_time zero_time zero_time)
  unfolding read_members read_member read_string ◌==◌
  read_iss sub [] = refl
  read_iss sub (c ∷ s) = refl

  read_aud :
      (sub iss : Text) (aud : List Text)
      → read_members (audience_field aud rest) (made sub iss [] [] zero_time zero_time zero_time)
        ≡ read_members rest (made sub iss aud [] zero_time zero_time zero_time)
  unfolding read_members read_member ◌==◌
  read_aud sub iss [] = refl
  read_aud sub iss (s ∷ ss) =
      read_member_lem aud_name (audience_json (s ∷ ss))
        (made sub iss [] [] zero_time zero_time zero_time)
        (made sub iss (s ∷ ss) [] zero_time zero_time zero_time)
        (ap (λ o. update o (λ a. made sub iss a [] zero_time zero_time zero_time))
          (read_audience_lem (s ∷ ss)))

  read_jti :
      (sub iss : Text) (aud : List Text) (jti : Text)
      → read_members
          (text_field jti_name jti rest)
          (made sub iss aud [] zero_time zero_time zero_time)
        ≡ read_members rest (made sub iss aud jti zero_time zero_time zero_time)
  unfolding read_members read_member read_string ◌==◌
  read_jti sub iss aud [] = refl
  read_jti sub iss aud (c ∷ s) = refl

  read_iat :
      (sub iss : Text) (aud : List Text) (jti : Text) (iat : Time)
      → read_members
          (int_field iat_name (seconds_of iat) rest)
          (made sub iss aud jti zero_time zero_time zero_time)
        ≡ read_members rest (made sub iss aud jti (truncated iat) zero_time zero_time)
  unfolding read_member ◌==◌
  read_iat sub iss aud jti iat = elim (Bool-cases (eq_ℤ (seconds_of iat) (pos 0))) [
    | inl absent ↦ rw absent refl
    | inr present ↦ rw present (
        dated iat_name iat (made sub iss aud jti zero_time zero_time zero_time)
          (λ t. made sub iss aud jti t zero_time zero_time) refl)
  ]

  read_exp :
      (sub iss : Text) (aud : List Text) (jti : Text) (iat exp : Time)
      → read_members
          (int_field exp_name (seconds_of exp) rest)
          (made sub iss aud jti iat zero_time zero_time)
        ≡ read_members rest (made sub iss aud jti iat (truncated exp) zero_time)
  unfolding read_member ◌==◌
  read_exp sub iss aud jti iat exp = elim (Bool-cases (eq_ℤ (seconds_of exp) (pos 0))) [
    | inl absent ↦ rw absent refl
    | inr present ↦ rw present (
        dated exp_name exp (made sub iss aud jti iat zero_time zero_time)
          (λ t. made sub iss aud jti iat t zero_time) refl)
  ]

  read_nbf :
      (sub iss : Text) (aud : List Text) (jti : Text) (iat exp nbf : Time)
      → read_members
          (int_field nbf_name (seconds_of nbf) rest)
          (made sub iss aud jti iat exp zero_time)
        ≡ read_members rest (made sub iss aud jti iat exp (truncated nbf))
  unfolding read_member ◌==◌
  read_nbf sub iss aud jti iat exp nbf = elim (Bool-cases (eq_ℤ (seconds_of nbf) (pos 0))) [
    | inl absent ↦ rw absent refl
    | inr present ↦ rw present (
        dated nbf_name nbf (made sub iss aud jti iat exp zero_time)
          (λ t. made sub iss aud jti iat exp t) refl)
  ]

-- Claims without extra ones are read back.
read_registered :
    (sub iss : Text) (aud : List Text) (jti : Text) (iat exp nbf : Time)
    → read_members (registered (made sub iss aud jti iat exp nbf)) no_claims
      ≡ some (made sub iss aud jti (truncated iat) (truncated exp) (truncated nbf))
unfolding registered read_members
read_registered sub iss aud jti iat exp nbf =
    let dates =
      int_field iat_name (seconds_of iat)
        (int_field exp_name (seconds_of exp) (int_field nbf_name (seconds_of nbf) end)) in
    let from_jti = text_field jti_name jti dates in
    let from_aud = audience_field aud from_jti in
    read_sub (text_field iss_name iss from_aud) sub
    ∙ read_iss from_aud sub iss
    ∙ read_aud from_jti sub iss aud
    ∙ read_jti dates sub iss aud jti
    ∙ read_iat (int_field exp_name (seconds_of exp) (int_field nbf_name (seconds_of nbf) end)) sub
        iss aud jti iat
    ∙ read_exp (int_field nbf_name (seconds_of nbf) end) sub iss aud jti (truncated iat) exp
    ∙ read_nbf end sub iss aud jti (truncated iat) (truncated exp) nbf

pub unmarshal_claims-registered :
    (c : Claims) → c.extra ≡ [] → unmarshal_claims (object (registered c)) ≡ some (read_back c)
unfolding unmarshal_claims registered
unmarshal_claims-registered c h =
    ap (λ fs. read_members fs no_claims) (keep_last-registered c)
    ∙ read_registered c.subject c.issuer c.audience c.id c.issued_at c.expires_at c.not_before
    ∙ ap (λ e. some (record (read_back c) { extra = e })) (sym h)
