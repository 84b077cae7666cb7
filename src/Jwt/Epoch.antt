-- ===== src/Jwt/Epoch.antt =====
-- An expiration that the encoding loses (jwt/claims.go).
use libauth.Prelude.{ap, refl, arith, Bool-cases, ◌≢◌, ◌≡◌, true, some, [], inl, inr}
use libauth.Prelude.Int.{pos}
use libauth.Jwt.{err_token_expired, rejected}
use libauth.Jwt.Json.{object}
use libauth.Jwt.Time.{zero_time, Time, is_zero, unix}
use libauth.Jwt.Verifier.{validate}
use libauth.Jwt.Settings.{Settings}
use libauth.Jwt.Claims.{registered, unmarshal_claims, Claims}
use libauth.Jwt.Claims.RoundTrip.{unmarshal_claims-registered, read_back, truncated}

truncated_epoch : (t : Time) → unix t ≡ pos 0 → truncated t ≡ zero_time
truncated_epoch t epoch = elim (Bool-cases (is_zero t)) [
  | inl nothing ↦ rw nothing refl
  | inr some_time ↦ rw (some_time, epoch) refl
]

undated :
    (set : Settings) (now : Time) (c : Claims)
    → is_zero c.expires_at ≡ true
    → validate set now c ≢ rejected err_token_expired
unfolding validate
undated set now c nothing = ground (arith, nothing)

-- Claims without extra ones whose expiration is in the second 0 of Unix time are read back from their
-- JSON without an expiration, and at no time are they found expired.
pub epoch_unexpired :
    (set : Settings) (now : Time) (c : Claims)
    → c.extra ≡ []
    → unix c.expires_at ≡ pos 0
    → (unmarshal_claims (object (registered c)) ≡ some (read_back c))
      × (validate set now (read_back c) ≢ rejected err_token_expired)
epoch_unexpired set now c plain epoch = (
  unmarshal_claims-registered c plain,
  undated set now (read_back c) (ap is_zero (truncated_epoch c.expires_at epoch)),
)
