-- ===== src/Jwt/Signer.antt =====
-- jwt/jwt.go: the signer.
use libauth.Prelude.{◌++◌, if◌then◌else◌, Option, ℕ, List, [], ◌∷◌}
use libauth.Prelude.Int.{ltb_ℤ, ℤ, pos}
use libauth.Jwt.{err_missing_subject, err_missing_expiration, Verdict, accepted, rejected, ◌>>=◌}
use libauth.Jwt.Time.{Time, add, is_zero}
use libauth.Jwt.Algorithm.{
  alg_hs256, new_eddsa_sign_alg, new_hmac_alg, sign_with, Crypto, Algorithm,
}
use libauth.Jwt.Settings.{new_settings, Setter, Clock, Settings}
use libauth.Text.{◌==◌, Text}
use libauth.Jwt.Claims.{is_empty, marshal_claims, Claims}
use libauth.Jwt.Base64.{b64encode}
use libauth.Jwt.Json.{JsonCodec}
use libauth.Jwt.Algorithm.{header}

pub record Signer : Type 0 where
  pub alg : Algorithm
  pub set : Settings

abbrev pub signer_of : Settings → Algorithm → Signer
signer_of set alg = record { alg = alg; set = set }

-- `NewSignerHS256`
abbrev pub new_signer_hs256 : Clock → Text → List (Option Setter) → Verdict Signer
new_signer_hs256 system key opts = do
  alg ← new_hmac_alg alg_hs256 key
  accepted (signer_of (new_settings system opts) alg)

-- `NewSignerEdDSA`
abbrev pub new_signer_eddsa : Crypto → Clock → Text → List (Option Setter) → Verdict Signer
new_signer_eddsa crypto system key opts = do
  alg ← new_eddsa_sign_alg crypto key
  accepted (signer_of (new_settings system opts) alg)

-- The defaults that `Sign` applies, in its order.
abbrev pub issued : Time → Claims → Claims
issued now c = if is_zero c.issued_at then record c { issued_at = now } else c

abbrev pub expiring : ℤ → Claims → Verdict Claims
expiring ttl c =
    if is_zero c.expires_at
    then if ltb_ℤ (pos 0) ttl
      then accepted (record c { expires_at = add c.issued_at ttl })
      else rejected err_missing_expiration
    else accepted c

abbrev pub issued_by : Text → Claims → Claims
issued_by iss c = if c.issuer == [] then record c { issuer = iss } else c

abbrev pub meant_for : List Text → Claims → Claims
meant_for aud c = if is_empty c.audience then record c { audience = aud } else c

-- The claims that are signed.
unfoldable pub prepared : Settings → Time → Claims → Verdict Claims
prepared set now c =
    if c.subject == []
    then rejected err_missing_subject
    else expiring set.ttl (issued now c) >>= λ c'.
        accepted (meant_for set.audience (issued_by set.issuer c'))

abbrev pub dot : ℕ
dot = 46

-- `b64encode(s.alg.header()) + "." + b64encode(payload)`
abbrev pub signing_input : Algorithm → Text → Text
signing_input alg payload = b64encode (header alg) ++ dot ∷ b64encode payload

abbrev pub signed : Crypto → Algorithm → Text → Verdict Text
signed crypto alg payload = do
  signature ← sign_with crypto alg (signing_input alg payload)
  accepted (signing_input alg payload ++ dot ∷ b64encode signature)

-- `Sign`
unfoldable pub sign : Crypto → JsonCodec → Signer → ℕ → Claims → Verdict Text
sign crypto codec s moment claims = do
  c ← prepared s.set (s.set.now moment) claims
  payload ← marshal_claims c
  signed crypto s.alg (codec.marshal payload)
