-- ===== src/Jwt/Fresh.antt =====
-- How long an issued token is accepted (jwt/jwt.go).
use libauth.Jwt.{accepted}
use libauth.Jwt.Algorithm.{header}
use libauth.Prelude.{
  ◌∙◌, some, ℕ, [], true, not, ◌&&◌, Bool, refl, arith, Bool-cases, ◌⊎◌, ap, ◌≡◌, ◌<◌, false, inl,
  inr,
}
use libauth.Prelude.Int.{neg_part, eq_ℤ, pos_part, wrap64_undo, ◌+ℤ◌, ltb_ℤ, IsInt64, neg, pos}
use libauth.Jwt.Time.{unix_to_internal, zero_time, Time, is_zero, unix, at_unix}
use libauth.Jwt.Claims.RoundTrip.{read_back, truncated}
use libauth.Jwt.Instants.{sum-IsDifference, nanos-IsDifference, nanos}
use mathlib.Core.Path.{subst⁻¹}
use libauth.Jwt.Window.{validate_lem, is_ahead, is_past, IsPlain}
use libauth.Jwt.Settings.{Settings}
use libauth.Jwt.Claims.{registered, Claims}
use libauth.Jwt.Algorithm.{IsCrypto, Crypto}
use libauth.Jwt.Verifier.{verify, Verifier, validate}
use libauth.Jwt.Json.{object, JsonCodec}
use libauth.Text.{Text, contains, ◌==◌}
use libauth.Jwt.Signer.{sign, prepared, Signer}
use libauth.Jwt.RoundTrip.{verify-sign, Reads, header_json, IsPair}

-- The instant at the start of its second.
abbrev floored : Time → Time
floored t = record { sec = t.sec; nsec = 0 }

at_unix-unix : (t : Time) → IsInt64 t.sec → at_unix (unix t) ≡ floored t
unfolding unix at_unix neg
at_unix-unix t h =
    ap (λ s. record { sec = s; nsec = 0 })
      (wrap64_undo t.sec (neg unix_to_internal) h (omega arith, omega arith))

truncated_cases : (t : Time) → IsInt64 t.sec → (truncated t ≡ zero_time) ⊎ (truncated t ≡ floored t)
truncated_cases t h = elim (Bool-cases (is_zero t)) [
  | inl nothing ↦ inl (rw nothing refl)
  | inr some_time ↦ elim (Bool-cases (eq_ℤ (unix t) (pos 0))) [
    | inl epoch ↦ inl (rw (some_time, epoch) refl)
    | inr later ↦ inr (rw (some_time, later) (at_unix-unix t h))
  ]
]

floored_past :
    (t now : Time)
    → t.nsec < 1000000000
    → ltb_ℤ (nanos t) (nanos now +ℤ pos 1000000000) ≡ false
    → ltb_ℤ (nanos (floored t) +ℤ pos 0) (nanos now) ≡ false
floored_past t now h late =
    let whole = nanos-IsDifference (floored t) (pos_part t.sec) (neg_part t.sec) refl in
    let exact = nanos-IsDifference t (pos_part t.sec) (neg_part t.sec) refl in
    let sum = sum-IsDifference (nanos (floored t)) (pos 0) in
    let second = sum-IsDifference (nanos now) (pos 1000000000) in
    ground (arith, whole, exact, sum, second, h, late)

floored_ahead :
    (t now : Time)
    → ltb_ℤ (nanos now) (nanos t) ≡ false
    → ltb_ℤ (nanos now) (nanos (floored t) +ℤ neg (pos 0)) ≡ false
unfolding neg
floored_ahead t now h =
    let whole = nanos-IsDifference (floored t) (pos_part t.sec) (neg_part t.sec) refl in
    let exact = nanos-IsDifference t (pos_part t.sec) (neg_part t.sec) refl in
    let sum = sum-IsDifference (nanos (floored t)) (pos 0) in ground (arith, whole, exact, sum, h)

-- What `truncated` gives shares what a date that is missing and a whole second have.
truncated_all :
    (P : Time → Type 0) (t : Time) → IsInt64 t.sec → P zero_time → P (floored t) → P (truncated t)
truncated_all P t h nothing whole = elim (truncated_cases t h) [
  | inl e ↦ subst⁻¹ P e nothing
  | inr e ↦ subst⁻¹ P e whole
]

sec-IsInt64 : (t : Time) → IsPlain t (pos 0) → IsInt64 t.sec
sec-IsInt64 t (_, h, k, _, _) = (omega (arith, h), omega (arith, k))

zero_time-IsPlain : IsPlain zero_time (pos 0)
zero_time-IsPlain = (omega arith, omega arith, omega arith, omega arith, omega arith)

truncated-IsPlain : (t : Time) → IsPlain t (pos 0) → IsPlain (truncated t) (pos 0)
truncated-IsPlain t (n, h, k, a, b) =
    truncated_all (λ x. IsPlain x (pos 0)) t (sec-IsInt64 t (n, h, k, a, b))
      (omega arith, omega arith, omega arith, omega arith, omega arith) (omega arith, h, k, a, b)

truncated_zero : (t : Time) → is_zero t ≡ true → truncated t ≡ zero_time
truncated_zero t h = rw h refl

and_false : (a b : Bool) → b ≡ false → (a && b) ≡ false
and_false a b h = ground (arith, h)

truncated_past :
    (t now : Time)
    → IsPlain t (pos 0)
    → ltb_ℤ (nanos t) (nanos now +ℤ pos 1000000000) ≡ false
    → is_past (truncated t) (pos 0) now ≡ false
truncated_past t now plain late =
    truncated_all (λ x. is_past x (pos 0) now ≡ false) t (sec-IsInt64 t plain) refl
      (and_false (not (is_zero (floored t))) _ (floored_past t now plain.0 late))

truncated_ahead :
    (t now : Time)
    → IsPlain t (pos 0)
    → ltb_ℤ (nanos now) (nanos t) ≡ false
    → is_ahead (truncated t) (neg (pos 0)) now ≡ false
truncated_ahead t now plain early =
    truncated_all (λ x. is_ahead x (neg (pos 0)) now ≡ false) t (sec-IsInt64 t plain) refl
      (and_false (not (is_zero (floored t))) _ (floored_ahead t now early))

-- The claims have the issuer and the audience that are pinned, if any are, and there is no leeway.
abbrev pub Suits : Settings → Claims → Type 0
Suits set c =
    (set.leeway ≡ pos 0)
    × ((not (set.expect_issuer == []) && not (c.issuer == set.expect_issuer)) ≡ false)
    × ((not (set.expect_audience == []) && not (contains c.audience set.expect_audience)) ≡ false)

-- The moment is not before the issue, and a second at least before the expiration.
abbrev pub IsWithin : Time → Claims → Type 0
IsWithin now c =
    (ltb_ℤ (nanos now) (nanos c.issued_at) ≡ false)
    × (ltb_ℤ (nanos c.expires_at) (nanos now +ℤ pos 1000000000) ≡ false)

-- Dates that are far from the bounds of 64 bits, and no date before which the token is not valid.
abbrev pub HasPlainDates : Time → Claims → Type 0
HasPlainDates now c =
    (now.nsec < 1000000000)
    × IsPlain c.issued_at (pos 0)
    × IsPlain c.expires_at (pos 0)
    × (is_zero c.not_before ≡ true)

read_back_valid :
    (set : Settings) (now : Time) (c : Claims)
    → Suits set c
    → HasPlainDates now c
    → IsWithin now c
    → validate set now (read_back c) ≡ accepted tt
read_back_valid set now c (leeway, issuer, audience) (hnow, iat, exp, nbf) (early, late) =
    let unset = truncated_zero c.not_before nbf in
    let plainly = λ (t : Time) (h : IsPlain t (pos 0)). subst⁻¹ (IsPlain t) leeway h in
    validate_lem set now (read_back c) hnow
      (plainly (truncated c.expires_at) (truncated-IsPlain c.expires_at exp))
      (plainly (truncated c.not_before) (subst⁻¹ (λ t. IsPlain t (pos 0)) unset zero_time-IsPlain))
      (plainly (truncated c.issued_at) (truncated-IsPlain c.issued_at iat))
    ∙ rw
        (
          leeway,
          truncated_past c.expires_at now exp late,
          unset,
          truncated_ahead c.issued_at now iat early,
          issuer,
          audience,
        )
        refl

-- Claims that `Sign` fills in without an error, and that have no extra claims and no date before which
-- they are not valid, give a token that `Verify` accepts with the other half of the key, at each moment
-- from the issue date to one second before the expiration. There is no leeway, the issuer and the
-- audience are those that are pinned, and the dates are within 9 * 10^18 seconds of the year 1. The
-- primitives are as documented, and the codec reads back the header and the payload.
pub fresh_token :
    (crypto : Crypto) (codec : JsonCodec) (s : Signer) (v : Verifier) (i k : ℕ) (c c' : Claims)
    → IsCrypto crypto
    → IsPair crypto s.alg v.alg
    → codec.unmarshal (header s.alg) ≡ some (header_json s.alg)
    → prepared s.set (s.set.now i) c ≡ accepted c'
    → c.extra ≡ []
    → Reads codec (object (registered c'))
    → Suits v.set c'
    → HasPlainDates (v.set.now k) c'
    → IsWithin (v.set.now k) c'
    → (token : Text) × (sign crypto codec s i c ≡ accepted token)
      × (verify crypto codec v k token ≡ accepted (read_back c'))
fresh_token crypto codec s v i k c c' laws pair reads_header ready plain reads suits dates within =
    let (token, made_token, verified) =
      verify-sign crypto codec s v i k c c' laws pair reads_header ready plain reads in
    let valid = read_back_valid v.set (v.set.now k) c' suits dates within in
    (token, made_token, verified ∙ rw valid refl)
