-- ===== src/Jwt/Sound.antt =====
-- What a token that is accepted has passed (jwt/jwt.go).
use libauth.Prelude.{
  if◌then◌else◌, Bool, ◌∙◌, sym, ap, ◌||◌, refl, List, Option, arith, length, ◌++◌, ◌⊎◌, ℕ, ◌≡◌,
  true, false, none, some, [], ◌∷◌,
}
use libauth.Jwt.{err_token_malformed, Verdict, accepted, rejected, ◌>>=◌}
use libauth.Jwt.Time.{Time, before, after, add, is_zero, negated}
use libauth.Jwt.Settings.{Settings}
use libauth.Jwt.Verifier.{
  split_dots, present, segments, check_header, decode_header, decode_payload, Segments, Verifier,
  verify_segments, verify, validate,
}
use libauth.Jwt.Algorithm.{Algorithm, alg_name, verify_with, Crypto}
use libauth.Jwt.Json.{JsonCodec}
use libauth.Jwt.Claims.{Claims}
use libauth.Text.{◌==◌, eq→path, contains, Text}
use libauth.Jwt.Header.{Jose}
use libauth.Jwt.Signer.{dot}
use libauth.Jwt.Base64.{b64decode}
use libauth.Jwt.Segments.{join_dots-split_dots, join_dots}
use mathlib.Core.Path.{subst}

-- The claims are current, and pinned as the settings want it.
abbrev pub IsCurrent : Settings → Time → Claims → Type 0
IsCurrent set now c =
    ((is_zero c.expires_at ≡ true) ⊎ (after now (add c.expires_at set.leeway) ≡ false))
    × ((is_zero c.not_before ≡ true) ⊎ (before now (add c.not_before (negated set.leeway)) ≡ false))
    × ((is_zero c.issued_at ≡ true) ⊎ (before now (add c.issued_at (negated set.leeway)) ≡ false))
    × ((set.expect_issuer ≡ []) ⊎ (c.issuer ≡ set.expect_issuer))
    × ((set.expect_audience ≡ []) ⊎ (contains c.audience set.expect_audience ≡ true))

pub validate-IsCurrent :
    (set : Settings) (now : Time) (c : Claims)
    → validate set now c ≡ accepted tt
    → IsCurrent set now c
unfolding validate
validate-IsCurrent set now c h = ground (
  arith,
  h,
  eq→path c.issuer set.expect_issuer,
  eq→path set.expect_issuer [],
  eq→path set.expect_audience [],
)

bind_accepted :
    {A B : Type 0} (x : Verdict A) (f : A → Verdict B) (b : B)
    → (x >>= f) ≡ accepted b
    → (a : A) × (x ≡ accepted a) × (f a ≡ accepted b)
bind_accepted (accepted a) f b h = (a, refl, h)
bind_accepted (rejected e) f b h = cc

present_lem : {A : Type 0} (o : Option A) (a : A) → present o ≡ accepted a → o ≡ some a
present_lem none a h = cc
present_lem (some b) a h = cc

kept :
    (bad : Bool) (cut seg : Segments)
    → (if bad then rejected err_token_malformed else accepted cut) ≡ accepted seg
    → cut ≡ seg
kept true cut seg h = cc
kept false cut seg h = cc

joined :
    (ps : List Text) (seg : Segments)
    → segments ps ≡ accepted seg
    → join_dots ps ≡ seg.head ++ dot ∷ (seg.payload ++ dot ∷ seg.signature)
joined [] seg h = cc
joined (a ∷ []) seg h = cc
joined (a ∷ b ∷ []) seg h = cc
joined (a ∷ b ∷ c ∷ []) seg h =
    ap (λ (t : Segments). t.head ++ dot ∷ (t.payload ++ dot ∷ t.signature))
      (kept (a == [] || b == [] || c == []) (record { head = a; payload = b; signature = c }) seg h)
joined (a ∷ b ∷ c ∷ d ∷ ps) seg h = cc

header_checked :
    (alg : Algorithm) (jose : Jose)
    → check_header alg jose ≡ accepted tt
    → (jose.alg ≡ alg_name alg) × (length jose.crit ≡ 0)
unfolding check_header
header_checked alg jose h = ground (arith, h, eq→path jose.alg (alg_name alg))

-- What the steps of `Verify` after the cut have found.
pub record Checked (crypto : Crypto) (codec : JsonCodec) (v : Verifier) (now : Time)
    (seg : Segments) (c : Claims) : Type 0 where
  pub jose : Jose
  pub signature : Text
  pub head_read : decode_header codec seg.head ≡ accepted jose
  pub pinned : jose.alg ≡ alg_name v.alg
  pub no_crit : length jose.crit ≡ 0
  pub signature_read : b64decode seg.signature ≡ some signature
  pub verified : verify_with crypto v.alg (seg.head ++ dot ∷ seg.payload) signature ≡ accepted tt
  pub payload_read : decode_payload codec seg.payload ≡ accepted c
  pub current : IsCurrent v.set now c

module _ (set : Settings) (now : Time) (c : Claims) where
  abbrev after_payload : Claims → Verdict Claims
  after_payload d = validate set now d >>= λ _. accepted d

  payload_step :
      (read : Verdict Claims)
      → (read >>= after_payload) ≡ accepted c
      → (read ≡ accepted c) × IsCurrent set now c
  payload_step (rejected e) h = cc
  payload_step (accepted d) h =
      let (_, valid, same) = bind_accepted (validate set now d) (λ _. accepted d) c h in
      let e : d ≡ c = cc in
      (ap accepted e, subst (IsCurrent set now) e (validate-IsCurrent set now d valid))

  signature_step :
      (read : Verdict Text) (check : Text → Verdict (Unit {0})) (payload : Verdict Claims)
      → (read >>= λ sig. check sig >>= λ _. payload >>= after_payload) ≡ accepted c
      → (sig : Text) × (read ≡ accepted sig)
        × (check sig ≡ accepted tt)
        × (payload ≡ accepted c)
        × IsCurrent set now c
  signature_step (rejected e) check payload h = cc
  signature_step (accepted sig) check payload h =
      let (_, verified, h') = bind_accepted (check sig) (λ _. payload >>= after_payload) c h in
      let (read, current) = payload_step payload h' in (sig, refl, verified, read, current)

  header_step :
      (read : Verdict Jose) (check : Jose → Verdict (Unit {0})) (rest : Verdict Claims)
      → (read >>= λ jose. check jose >>= λ _. rest) ≡ accepted c
      → (jose : Jose) × (read ≡ accepted jose) × (check jose ≡ accepted tt) × (rest ≡ accepted c)
  header_step (rejected e) check rest h = cc
  header_step (accepted jose) check rest h =
      let (_, checked, h') = bind_accepted (check jose) (λ _. rest) c h in (jose, refl, checked, h')

segments_sound :
    (crypto : Crypto) (codec : JsonCodec) (v : Verifier) (k : ℕ) (seg : Segments) (c : Claims)
    → verify_segments crypto codec v k seg ≡ accepted c
    → Checked crypto codec v (v.set.now k) seg c
unfolding verify_segments
segments_sound crypto codec v k seg c h =
    let (jose, head_read, checked, h') =
      header_step v.set (v.set.now k) c (decode_header codec seg.head) (check_header v.alg) _ h in
    let (signature, signature_read, verified, payload_read, current) =
      signature_step v.set (v.set.now k) c (present (b64decode seg.signature))
        (verify_with crypto v.alg (seg.head ++ dot ∷ seg.payload))
        (decode_payload codec seg.payload) h' in
    let (pinned, no_crit) = header_checked v.alg jose checked in
    record {
      jose = jose;
      signature = signature;
      head_read = head_read;
      pinned = pinned;
      no_crit = no_crit;
      signature_read = present_lem (b64decode seg.signature) signature signature_read;
      verified = verified;
      payload_read = payload_read;
      current = current;
    }

-- If `Verify` accepts a token, the token is three segments joined by full stops. The header names the
-- algorithm of the verifier and nothing critical, the signature verifies for the first two segments
-- under the key of the verifier, the claims are read from the second, and they are not expired, not
-- early, not issued in the future, and of the issuer and audience that are pinned, with the leeway.
pub verify_sound :
    (crypto : Crypto) (codec : JsonCodec) (v : Verifier) (k : ℕ) (token : Text) (c : Claims)
    → verify crypto codec v k token ≡ accepted c
    → (seg : Segments) × (token ≡ seg.head ++ dot ∷ (seg.payload ++ dot ∷ seg.signature))
      × Checked crypto codec v (v.set.now k) seg c
unfolding verify
verify_sound crypto codec v k token c h =
    let (seg, cut, h') =
      bind_accepted (segments (split_dots token)) (verify_segments crypto codec v k) c h in
    (
      seg,
      sym (join_dots-split_dots token) ∙ joined (split_dots token) seg cut,
      segments_sound crypto codec v k seg c h',
    )
