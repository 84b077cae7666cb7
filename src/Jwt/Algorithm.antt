-- ===== src/Jwt/Algorithm.antt =====
-- jwt/alg.go: the pinned signing schemes. The primitives of crypto/hmac and crypto/ed25519 are a
-- parameter, `Crypto`; an algorithm keeps its keys as values.
use libauth.Prelude.{length, ◌++◌, nat_eq, ltb, map, if◌then◌else◌, ◌≡◌, Bool, ℕ, true, false, []}
use libauth.Jwt.{err_token_bad_signature, err_invalid_key, Verdict, accepted, rejected}
use libauth.Text.{AreBytes, ◌==◌, codes, Text}

-- `hmac.New(sha256.New, key)` over an input, `priv.Public()`, `ed25519.Sign` and `ed25519.Verify`.
pub record Crypto : Type 0 where
  pub hmac_sha256 : Text → Text → Text
  pub ed25519_public : Text → Text
  pub ed25519_sign : Text → Text → Text
  pub ed25519_verify : Text → Text → Text → Bool

-- What the packages document: a signature verifies under the public half of its key, and digests and
-- signatures are bytes.
pub record IsCrypto (crypto : Crypto) : Type 0 where
  pub verifies :
      (priv input : Text)
      → crypto.ed25519_verify (crypto.ed25519_public priv) input (crypto.ed25519_sign priv input)
        ≡ true
  pub digest_bytes : (key input : Text) → AreBytes (crypto.hmac_sha256 key input)
  pub signature_bytes : (priv input : Text) → AreBytes (crypto.ed25519_sign priv input)
  pub digest_nonempty : (key input : Text) → ((crypto.hmac_sha256 key input) == []) ≡ false
  pub signature_nonempty : (priv input : Text) → ((crypto.ed25519_sign priv input) == []) ≡ false

abbrev pub alg_hs256 : Text
alg_hs256 = codes "HS256"

abbrev pub alg_eddsa : Text
alg_eddsa = codes "EdDSA"

abbrev pub min_hmac_key_size : ℕ
min_hmac_key_size = 32

abbrev pub private_key_size : ℕ
private_key_size = 64

abbrev pub public_key_size : ℕ
public_key_size = 32

-- `hmacAlg` and `eddsaAlg`; a private key that is empty belongs to an instance that only verifies.
pub data Algorithm : Type 0 where
  hmac_alg : Text → Text → Algorithm
  eddsa_alg : Text → Text → Algorithm

abbrev pub new_hmac_alg : Text → Text → Verdict Algorithm
new_hmac_alg name key =
    if ltb (length key) min_hmac_key_size
    then rejected err_invalid_key
    else accepted (hmac_alg name key)

abbrev pub new_eddsa_sign_alg : Crypto → Text → Verdict Algorithm
new_eddsa_sign_alg crypto key =
    if nat_eq (length key) private_key_size
    then accepted (eddsa_alg key (crypto.ed25519_public key))
    else rejected err_invalid_key

abbrev pub new_eddsa_verify_alg : Text → Verdict Algorithm
new_eddsa_verify_alg key =
    if nat_eq (length key) public_key_size
    then accepted (eddsa_alg [] key)
    else rejected err_invalid_key

abbrev pub alg_name : Algorithm → Text
alg_name (hmac_alg name key) = name
alg_name (eddsa_alg priv public) = alg_eddsa

-- `{"alg":"…","typ":"JWT"}`: `quoted` is the text of a literal whose quotes are written `'`.
abbrev quote : ℕ → ℕ
quote c = if nat_eq c 39 then 34 else c

abbrev pub quoted : Text → Text
quoted s = map quote s

abbrev pub header : Algorithm → Text
header (hmac_alg name key) = quoted (codes "{'alg':'") ++ name ++ quoted (codes "','typ':'JWT'}")
header (eddsa_alg priv public) = quoted (codes "{'alg':'EdDSA','typ':'JWT'}")

-- The methods of `hmacAlg` and of `eddsaAlg`.
abbrev pub hmac_sign : Crypto → Text → Text → Verdict Text
hmac_sign crypto key input = accepted (crypto.hmac_sha256 key input)

abbrev pub hmac_verify : Crypto → Text → Text → Text → Verdict (Unit {0})
hmac_verify crypto key input sig =
    if sig == crypto.hmac_sha256 key input then accepted tt else rejected err_token_bad_signature

abbrev pub eddsa_sign : Crypto → Text → Text → Verdict Text
eddsa_sign crypto priv input =
    if priv == [] then rejected err_invalid_key else accepted (crypto.ed25519_sign priv input)

abbrev pub eddsa_verify : Crypto → Text → Text → Text → Verdict (Unit {0})
eddsa_verify crypto public input sig =
    if crypto.ed25519_verify public input sig then accepted tt else rejected err_token_bad_signature

unfoldable pub sign_with : Crypto → Algorithm → Text → Verdict Text
sign_with crypto (hmac_alg name key) input = hmac_sign crypto key input
sign_with crypto (eddsa_alg priv public) input = eddsa_sign crypto priv input

unfoldable pub verify_with : Crypto → Algorithm → Text → Text → Verdict (Unit {0})
verify_with crypto (hmac_alg name key) input sig = hmac_verify crypto key input sig
verify_with crypto (eddsa_alg priv public) input sig = eddsa_verify crypto public input sig
