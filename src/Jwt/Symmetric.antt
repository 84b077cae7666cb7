-- ===== src/Jwt/Symmetric.antt =====
-- jwt/symmetric.go: one object that signs and verifies.
use libauth.Prelude.{ℕ, Option, List, none, some}
use libauth.Jwt.{err_invalid_key, Verdict, accepted, rejected, ◌>>=◌}
use libauth.Jwt.Signer.{new_signer_eddsa, sign, new_signer_hs256, Signer}
use libauth.Jwt.Settings.{Setter, Clock}
use libauth.Jwt.Algorithm.{alg_name, Crypto}
use libauth.Text.{Text}
use libauth.Jwt.Verifier.{new_verifier_eddsa, new_verifier_hs256, verify, Verifier}
use libauth.Jwt.Json.{JsonCodec}
use libauth.Jwt.Claims.{Claims}

pub record Jwt : Type 0 where
  pub sign : Signer
  pub verify : Verifier

abbrev pub jwt_of : Signer → Verifier → Jwt
jwt_of s v = record { sign = s; verify = v }

-- `New`
abbrev pub new : Clock → Text → List (Option Setter) → Verdict Jwt
new system key opts = do
  s ← new_signer_hs256 system key opts
  v ← new_verifier_hs256 system key opts
  accepted (jwt_of s v)

-- `NewEdDSA`: a nil private key is `none`.
abbrev pub new_eddsa : Crypto → Clock → Option Text → Text → List (Option Setter) → Verdict Jwt
new_eddsa crypto system none public opts = rejected err_invalid_key
new_eddsa crypto system (some priv) public opts = do
  s ← new_signer_eddsa crypto system priv opts
  v ← new_verifier_eddsa system public opts
  accepted (jwt_of s v)

-- `Algorithm`, `Encode` and `Decode`
abbrev pub algorithm : Jwt → Text
algorithm j = alg_name j.sign.alg

abbrev pub encode : Crypto → JsonCodec → Jwt → ℕ → Claims → Verdict Text
encode crypto codec j moment claims = sign crypto codec j.sign moment claims

abbrev pub decode : Crypto → JsonCodec → Jwt → ℕ → Text → Verdict Claims
decode crypto codec j moment token = verify crypto codec j.verify moment token
