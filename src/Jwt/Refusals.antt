-- ===== src/Jwt/Refusals.antt =====
-- What `Sign` refuses, and the defaults that it applies (jwt/jwt.go).
use libauth.Jwt.Json.{JsonCodec}
use libauth.Prelude.{
  ◌∙◌, ℕ, refl, Bool-cases, any, ap, arith, Bool, ◌⊎◌, if◌then◌else◌, ◌≢◌, ◌≡◌, true, false, [],
  ◌∷◌, inl, inr,
}
use libauth.Prelude.Int.{ltb_ℤ, pos}
use libauth.Jwt.{
  err_reserved_claim, err_missing_expiration, err_missing_subject, accepted, rejected, ◌>>=◌,
}
use libauth.Jwt.Time.{Time, is_zero, add}
use libauth.Jwt.Settings.{Settings}
use libauth.Jwt.Claims.{marshal_claims, reserved_claims, is_empty, Claims}
use libauth.Jwt.Signer.{signed, Signer, issued_by, meant_for, sign, expiring, issued, prepared}
use libauth.Text.{Text, eq→path, contains, ◌==◌}
use libauth.Dict.{keys}
use mathlib.Core.Path.{subst⁻¹}
use libauth.Jwt.Algorithm.{Algorithm, Crypto}

-- The claims that are signed: the dates and the names that were missing are filled in.
abbrev pub IsFilled : Settings → Time → Claims → Claims → Type 0
IsFilled set now c c' =
    (c'.subject ≡ c.subject)
    × (c'.issued_at ≡ (if is_zero c.issued_at then now else c.issued_at))
    × (c'.expires_at ≡ (if is_zero c.expires_at then add c'.issued_at set.ttl else c.expires_at))
    × (c'.not_before ≡ c.not_before)
    × (c'.issuer ≡ (if c.issuer == [] then set.issuer else c.issuer))
    × (c'.audience ≡ (if is_empty c.audience then set.audience else c.audience))
    × (c'.id ≡ c.id)
    × (c'.extra ≡ c.extra)

abbrev pub HasExpiration : Settings → Claims → Type 0
HasExpiration set c = (is_zero c.expires_at ≡ false) ⊎ (ltb_ℤ (pos 0) set.ttl ≡ true)

prepared-IsFilled :
    (set : Settings) (now : Time) (c c' : Claims)
    → prepared set now c ≡ accepted c'
    → IsFilled set now c c'
unfolding prepared
prepared-IsFilled set now c c' h = ground (arith, h)

issued_expiration : (now : Time) (c : Claims) → (issued now c).expires_at ≡ c.expires_at
issued_expiration now c = elim (Bool-cases (is_zero c.issued_at)) [
  | inl fresh ↦ rw fresh refl
  | inr dated ↦ rw dated refl
]

expiring_accepted :
    (set : Settings) (c : Claims)
    → HasExpiration set c
    → (c' : Claims) × (expiring set.ttl c ≡ accepted c')
expiring_accepted set c h = elim (Bool-cases (is_zero c.expires_at)) [
  | inr dated ↦ (c, rw dated refl)
  | inl open_end ↦
      (record c { expires_at = add c.issued_at set.ttl }, rw (open_end, lasting h open_end) refl)
]
  where
    lasting : HasExpiration set c → is_zero c.expires_at ≡ true → ltb_ℤ (pos 0) set.ttl ≡ true
    lasting (inl dated) open_end = cc
    lasting (inr long) open_end = long

expiring_rejected :
    (set : Settings) (c : Claims)
    → is_zero c.expires_at ≡ true
    → ltb_ℤ (pos 0) set.ttl ≡ false
    → expiring set.ttl c ≡ rejected err_missing_expiration
expiring_rejected set c open_end short = rw (open_end, short) refl

prepared_accepted :
    (set : Settings) (now : Time) (c : Claims)
    → (c.subject == []) ≡ false
    → HasExpiration set c
    → (c' : Claims) × (prepared set now c ≡ accepted c')
unfolding prepared
prepared_accepted set now c named h =
    let h' : HasExpiration set (issued now c) =
      subst⁻¹ (λ t. (is_zero t ≡ false) ⊎ (ltb_ℤ (pos 0) set.ttl ≡ true)) (issued_expiration now c)
        h in
    let (x, k) = expiring_accepted set (issued now c) h' in
    (meant_for set.audience (issued_by set.issuer x), rw (named, k) refl)

expiration_cases :
    (set : Settings) (c : Claims)
    → HasExpiration set c ⊎ ((is_zero c.expires_at ≡ true) × (ltb_ℤ (pos 0) set.ttl ≡ false))
expiration_cases set c = ground arith

-- Whether an extra claim has a name that is reserved.
abbrev pub has_reserved : Claims → Bool
has_reserved c = any (contains reserved_claims) (keys c.extra)

named_ne : (s : Text) → (s == []) ≡ false → s ≢ []
unfolding ◌==◌
named_ne [] h = cc
named_ne (c ∷ s) h = λ e. cc

prepared_nobody :
    (set : Settings) (now : Time) (c : Claims)
    → (c.subject == []) ≡ true
    → prepared set now c ≡ rejected err_missing_subject
unfolding prepared
prepared_nobody set now c h = rw h refl

prepared_open :
    (set : Settings) (now : Time) (c : Claims)
    → (c.subject == []) ≡ false
    → is_zero c.expires_at ≡ true
    → ltb_ℤ (pos 0) set.ttl ≡ false
    → prepared set now c ≡ rejected err_missing_expiration
unfolding prepared
prepared_open set now c named open_end short =
    rw
      (
        named,
        expiring_rejected set (issued now c) (ap is_zero (issued_expiration now c) ∙ open_end)
            short,
      )
      refl

marshal_claims_reserved :
    (c : Claims) → has_reserved c ≡ true → marshal_claims c ≡ rejected err_reserved_claim
unfolding marshal_claims
marshal_claims_reserved c h = rw h refl

marshalled :
    (crypto : Crypto) (codec : JsonCodec) (alg : Algorithm) (c c' : Claims)
    → c'.extra ≡ c.extra
    → (marshal_claims c' >>= λ j. signed crypto alg (codec.marshal j)) ≡ (
        if has_reserved c
        then rejected err_reserved_claim
        else marshal_claims c' >>= λ j. signed crypto alg (codec.marshal j))
marshalled crypto codec alg c c' same = elim (Bool-cases (has_reserved c)) [
  | inl reserved ↦
      let reserved' = ap (λ e. any (contains reserved_claims) (keys e)) same ∙ reserved in
      rw (reserved, marshal_claims_reserved c' reserved') refl
  | inr free ↦ rw free refl
]

-- `Sign` refuses claims without a subject, then claims without an expiration where no TTL above zero
-- is set, then an extra claim with a reserved name. Otherwise it encodes and signs the claims with the
-- issue date, the expiration, the issuer and the audience filled in where they were missing.
pub sign_lem :
    (crypto : Crypto) (codec : JsonCodec) (s : Signer) (i : ℕ) (c : Claims)
    → ((c.subject ≡ []) × (sign crypto codec s i c ≡ rejected err_missing_subject))
      ⊎ (((c.subject ≢ [])
            × (is_zero c.expires_at ≡ true)
            × (ltb_ℤ (pos 0) s.set.ttl ≡ false)
            × (sign crypto codec s i c ≡ rejected err_missing_expiration))
          ⊎ ((c.subject ≢ [])
              × HasExpiration s.set c
              × ((c' : Claims) × IsFilled s.set (s.set.now i) c c'
                  × (sign crypto codec s i c ≡ (
                      if has_reserved c
                      then rejected err_reserved_claim
                      else marshal_claims c' >>= λ j. signed crypto s.alg (codec.marshal j))))))
unfolding sign
sign_lem crypto codec s i c = elim (Bool-cases (c.subject == [])) [
  | inl nobody ↦
      inl (eq→path c.subject [] nobody, rw (prepared_nobody s.set (s.set.now i) c nobody) refl)
  | inr named ↦ inr (elim (expiration_cases s.set c) [
    | inr (open_end, short) ↦ inl (
      named_ne c.subject named,
      open_end,
      short,
      rw (prepared_open s.set (s.set.now i) c named open_end short) refl,
    )
    | inl h ↦
        let (c', ready) = prepared_accepted s.set (s.set.now i) c named h in
        let filled = prepared-IsFilled s.set (s.set.now i) c c' ready in
        inr (
          named_ne c.subject named,
          h,
          (c', filled, rw ready (marshalled crypto codec s.alg c c' filled.7)),
        )
  ])
]
