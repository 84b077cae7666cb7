-- ===== src/Jwt/Verifier.antt =====
-- jwt/jwt.go: the verifier.
use libauth.Prelude.{
  length, ◌++◌, ◌&&◌, ◌||◌, not, nat_eq, if◌then◌else◌, Option, List, ℕ, none, some, [], ◌∷◌,
}
use libauth.Jwt.{
  err_audience_mismatch, err_issuer_mismatch, err_token_issued_in_future, err_token_not_yet_valid,
  err_unsupported_crit, err_unexpected_typ, err_token_expired, err_alg_mismatch,
  err_token_malformed, Verdict, accepted, rejected, ◌>>=◌,
}
use libauth.Jwt.Time.{negated, before, Time, add, is_zero}
use libauth.Jwt.Algorithm.{
  verify_with, alg_name, alg_hs256, new_eddsa_verify_alg, new_hmac_alg, Crypto, Algorithm,
}
use libauth.Jwt.Settings.{new_settings, Setter, Clock, Settings}
use libauth.Text.{contains, ◌==◌, Text}
use libauth.Jwt.Json.{JsonCodec}
use libauth.Jwt.Header.{typ_is_jwt, read_jose, Jose}
use libauth.Jwt.Base64.{b64decode}
use libauth.Jwt.Claims.{unmarshal_claims, Claims}
use libauth.Jwt.Signer.{dot}
use libauth.Jwt.Time.{after}

pub record Verifier : Type 0 where
  pub alg : Algorithm
  pub set : Settings

abbrev pub verifier_of : Settings → Algorithm → Verifier
verifier_of set alg = record { alg = alg; set = set }

-- `NewVerifierHS256`
abbrev pub new_verifier_hs256 : Clock → Text → List (Option Setter) → Verdict Verifier
new_verifier_hs256 system key opts = do
  alg ← new_hmac_alg alg_hs256 key
  accepted (verifier_of (new_settings system opts) alg)

-- `NewVerifierEdDSA`
abbrev pub new_verifier_eddsa : Clock → Text → List (Option Setter) → Verdict Verifier
new_verifier_eddsa system key opts = do
  alg ← new_eddsa_verify_alg key
  accepted (verifier_of (new_settings system opts) alg)

-- `strings.Split(token, ".")`
abbrev pub onto_first : ℕ → List Text → List Text
onto_first c [] = []
onto_first c (s ∷ ss) = (c ∷ s) ∷ ss

unfoldable pub split_dots : Text → List Text
split_dots [] = [] ∷ []
split_dots (c ∷ s) =
    let rest = split_dots s in if nat_eq c dot then [] ∷ rest else onto_first c rest

pub record Segments : Type 0 where
  pub head : Text
  pub payload : Text
  pub signature : Text

abbrev pub segments : List Text → Verdict Segments
segments (h ∷ p ∷ s ∷ []) =
    if h == [] || p == [] || s == []
    then rejected err_token_malformed
    else accepted (record { head = h; payload = p; signature = s })
segments parts = rejected err_token_malformed

-- What is not there is malformed.
abbrev pub present {ℓ} : {A : Type ℓ} → Option A → Verdict A
present none = rejected err_token_malformed
present (some a) = accepted a

-- Of the header: its base 64, its JSON and its members, and then `alg`, `typ` and `crit`.
abbrev pub decode_header : JsonCodec → Text → Verdict Jose
decode_header codec segment = do
  bytes ← present (b64decode segment)
  tree ← present (codec.unmarshal bytes)
  present (read_jose tree)

unfoldable pub check_header : Algorithm → Jose → Verdict (Unit {0})
check_header alg jose =
    if not (jose.alg == alg_name alg)
    then rejected err_alg_mismatch
    else if not (jose.typ == []) && not (typ_is_jwt jose.typ)
    then rejected err_unexpected_typ
    else if nat_eq (length jose.crit) 0
    then accepted tt
    else rejected err_unsupported_crit

abbrev pub decode_payload : JsonCodec → Text → Verdict Claims
decode_payload codec segment = do
  bytes ← present (b64decode segment)
  tree ← present (codec.unmarshal bytes)
  present (unmarshal_claims tree)

-- `validate`
unfoldable pub validate : Settings → Time → Claims → Verdict (Unit {0})
validate set now c =
    if not (is_zero c.expires_at) && after now (add c.expires_at set.leeway)
    then rejected err_token_expired
    else if not (is_zero c.not_before) && before now (add c.not_before (negated set.leeway))
    then rejected err_token_not_yet_valid
    else if not (is_zero c.issued_at) && before now (add c.issued_at (negated set.leeway))
    then rejected err_token_issued_in_future
    else if not (set.expect_issuer == []) && not (c.issuer == set.expect_issuer)
    then rejected err_issuer_mismatch
    else if not (set.expect_audience == []) && not (contains c.audience set.expect_audience)
    then rejected err_audience_mismatch
    else accepted tt

-- `Verify`, from the segments of the token.
unfoldable pub verify_segments : Crypto → JsonCodec → Verifier → ℕ → Segments → Verdict Claims
verify_segments crypto codec v moment seg = do
  jose ← decode_header codec seg.head
  _ ← check_header v.alg jose
  signature ← present (b64decode seg.signature)
  _ ← verify_with crypto v.alg (seg.head ++ dot ∷ seg.payload) signature
  claims ← decode_payload codec seg.payload
  _ ← validate v.set (v.set.now moment) claims
  accepted claims

-- `Verify`
unfoldable pub verify : Crypto → JsonCodec → Verifier → ℕ → Text → Verdict Claims
verify crypto codec v moment token = do
  seg ← segments (split_dots token)
  verify_segments crypto codec v moment seg
