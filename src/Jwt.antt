-- ===== src/Jwt.antt =====
-- jwt/ (JSON web tokens): the errors of jwt/errors.go, and results. A string and a byte slice are
-- sequences of bytes. The text of an error is left out.
pub mod Time
pub mod Base64
pub mod Algorithm
pub mod Decimal
pub mod Json
pub mod Claims
pub mod Settings
pub mod Signer
pub mod Header
pub mod Verifier
pub mod Symmetric
pub mod Segments
pub mod RoundTrip
pub mod Instants
pub mod Window
pub mod Sound
pub mod Keys
pub mod Refusals
pub mod Epoch
pub mod Fresh
pub mod Spaces
pub mod Trimmed
pub mod Typ

-- `err_encode` is the error of encoding/json for a value that it cannot encode.
pub data JwtError : Type 0 where
  err_token_malformed err_token_bad_signature : JwtError
  err_token_expired err_token_not_yet_valid err_token_issued_in_future : JwtError
  err_alg_mismatch err_unexpected_typ err_unsupported_crit : JwtError
  err_missing_expiration err_missing_subject err_reserved_claim : JwtError
  err_issuer_mismatch err_audience_mismatch err_invalid_key err_encode : JwtError

pub data Verdict {ℓ} (A : Type ℓ) : Type ℓ where
  accepted : A → Verdict A
  rejected : JwtError → Verdict A

infixl 10 ◌>>=◌
abbrev pub ◌>>=◌ {ℓ κ} : {A : Type ℓ} {B : Type κ} → Verdict A → (A → Verdict B) → Verdict B
accepted a >>= f = f a
rejected e >>= f = rejected e
