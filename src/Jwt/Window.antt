-- ===== src/Jwt/Window.antt =====
-- The window of time in which `validate` accepts claims, in nanoseconds (jwt/jwt.go).
use libauth.Prelude.{◌∙◌, refl, ap, arith, ◌&&◌, ◌≡◌, if◌then◌else◌, not, ◌<◌, Bool, []}
use libauth.Prelude.Int.{◌+ℤ◌, ltb_ℤ, signed64, neg_part, pos_part, residue64, wrap64, ℤ, neg}
use libauth.Jwt.{
  err_audience_mismatch, err_issuer_mismatch, err_token_issued_in_future, err_token_not_yet_valid,
  err_token_expired, Verdict, accepted, rejected,
}
use libauth.Jwt.Time.{Time, before, after, add, is_zero, negated}
use libauth.Jwt.Settings.{Settings}
use libauth.Jwt.Verifier.{validate}
use libauth.Jwt.Claims.{Claims}
use libauth.Jwt.Instants.{nanos, before_lem}
use libauth.Text.{contains, ◌==◌}
use libauth.Jwt.Instants.Sums.{nanos-add, add_nsec}

-- Whether a date that is there, moved by `d`, lies before a moment, and after it.
abbrev pub is_past : Time → ℤ → Time → Bool
is_past t d now = not (is_zero t) && ltb_ℤ (nanos t +ℤ d) (nanos now)

abbrev pub is_ahead : Time → ℤ → Time → Bool
is_ahead t d now = not (is_zero t) && ltb_ℤ (nanos now) (nanos t +ℤ d)

-- The checks of `validate` in their order, on whole numbers.
abbrev pub window : Settings → Time → Claims → Verdict (Unit {0})
window set now c =
    if is_past c.expires_at set.leeway now
    then rejected err_token_expired
    else if is_ahead c.not_before (neg set.leeway) now
    then rejected err_token_not_yet_valid
    else if is_ahead c.issued_at (neg set.leeway) now
    then rejected err_token_issued_in_future
    else if not (set.expect_issuer == []) && not (c.issuer == set.expect_issuer)
    then rejected err_issuer_mismatch
    else if not (set.expect_audience == []) && not (contains c.audience set.expect_audience)
    then rejected err_audience_mismatch
    else accepted tt

-- A date within 9 * 10^18 seconds of the year 1, and a leeway that has a negation in 64 bits.
abbrev pub IsPlain : Time → ℤ → Type 0
IsPlain t d =
    (t.nsec < 1000000000)
    × (pos_part t.sec < 9000000000000000000)
    × (neg_part t.sec < 9000000000000000000)
    × (pos_part d < 9223372036854775808)
    × (neg_part d < 9223372036854775808)

negated_lem :
    (d : ℤ)
    → pos_part d < 9223372036854775808
    → neg_part d < 9223372036854775808
    → negated d ≡ neg d
unfolding neg wrap64 residue64 signed64
negated_lem d h k = ground (arith, h, k)

neg_parts : (d : ℤ) → (pos_part (neg d) ≡ neg_part d) × (neg_part (neg d) ≡ pos_part d)
unfolding neg
neg_parts d = ground arith

past_lem :
    (t now : Time) (d : ℤ)
    → IsPlain t d
    → now.nsec < 1000000000
    → (not (is_zero t) && after now (add t d)) ≡ is_past t d now
past_lem t now d (hn, hp, hm, dp, dm) hnow =
    ap (λ b. not (is_zero t) && b)
      (before_lem (add t d) now (add_nsec t d hn) hnow
        ∙ ap (λ x. ltb_ℤ x (nanos now)) (nanos-add t d hn (hp, hm, dp, dm)))

ahead_lem :
    (t now : Time) (d : ℤ)
    → IsPlain t d
    → now.nsec < 1000000000
    → (not (is_zero t) && before now (add t (negated d))) ≡ is_ahead t (neg d) now
ahead_lem t now d (hn, hp, hm, dp, dm) hnow =
    let (p, m) = neg_parts d in
    ap (λ x. not (is_zero t) && before now (add t x)) (negated_lem d dp dm)
    ∙ ap (λ b. not (is_zero t) && b)
        (before_lem now (add t (neg d)) hnow (add_nsec t (neg d) hn)
          ∙ ap (λ x. ltb_ℤ (nanos now) x)
              (nanos-add t (neg d) hn (hp, hm, omega (arith, p, dm), omega (arith, m, dp))))

-- For dates within 9 * 10^18 seconds of the year 1 and a leeway that has a negation in 64 bits,
-- `validate` decides as the comparisons of whole numbers of nanoseconds do, in the same order: expired,
-- early, issued in the future, and then the issuer and the audience that are pinned.
pub validate_lem :
    (set : Settings) (now : Time) (c : Claims)
    → now.nsec < 1000000000
    → IsPlain c.expires_at set.leeway
    → IsPlain c.not_before set.leeway
    → IsPlain c.issued_at set.leeway
    → validate set now c ≡ window set now c
unfolding validate
validate_lem set now c hnow he hb hi =
    rw
      (
        past_lem c.expires_at now set.leeway he hnow,
        ahead_lem c.not_before now set.leeway hb hnow,
        ahead_lem c.issued_at now set.leeway hi hnow,
      )
      refl
