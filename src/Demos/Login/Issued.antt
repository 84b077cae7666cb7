-- ===== src/Demos/Login/Issued.antt =====
-- The tokens that a login issues (_examples/jwtauth/main.go).
use libauth.Prelude.{sym, ℕ, ◌≡◌, refl, arith, false, some, [], ◌∷◌, ◌++◌, ap, ◌∙◌}
use libauth.Text.{Text, ◌==◌, AreBytes, are_bytes}
use libauth.Jwt.{accepted}
use libauth.Jwt.Algorithm.{Crypto, IsCrypto, Algorithm, hmac_alg, alg_hs256, header, sign_with}
use libauth.Jwt.Base64.{b64encode}
use libauth.Jwt.Claims.{Claims, registered}
use libauth.Jwt.Json.{JsonCodec, object}
use libauth.Jwt.Settings.{set_all, with_ttl, Clock, Settings, new_settings}
use libauth.Jwt.Signer.{Signer, prepared, dot, signing_input, signed, sign, signer_of}
use libauth.Jwt.Verifier.{verifier_of}
use libauth.Jwt.Symmetric.{Jwt, jwt_of, encode, decode}
use libauth.Jwt.RoundTrip.{marshal_plain, Reads, header_json}
use libauth.Jwt.Claims.RoundTrip.{read_back}
use libauth.Jwt.Fresh.{fresh_token, HasPlainDates, IsWithin}
use libauth.Jwt.Time.{add}
use libauth.Demos.Login.Bearers.{IsInk, append-IsInk, b64encode-IsInk}
use libauth.Demos.Login.{
  with_expected_issuer, with_issuer, issuer, ttl, claims_of, new_auth, secret,
}
use libauth.Jwt.Base64.RoundTrip.{b64encode_some}

abbrev pub login_alg : Algorithm
login_alg = hmac_alg alg_hs256 secret

abbrev pub login_settings : Clock → Settings
login_settings system =
    new_settings system
      (some (with_ttl ttl) ∷ some (with_issuer issuer) ∷ some (with_expected_issuer issuer) ∷ [])

abbrev pub login_auth : Clock → Jwt
login_auth system =
    jwt_of (signer_of (login_settings system) login_alg)
      (verifier_of (login_settings system) login_alg)

pub new_auth_lem : (system : Clock) → new_auth system ≡ accepted (login_auth system)
new_auth_lem system = refl

-- What is signed at a login.
abbrev pub login_claims : Clock → ℕ → Text → Claims
login_claims system moment username = record (claims_of username) {
  issuer = issuer;
  issued_at = system moment;
  expires_at = add (system moment) ttl;
}

prepared_login :
    (system : Clock) (moment : ℕ) (username : Text)
    → (username == []) ≡ false
    → prepared (login_settings system) (system moment) (claims_of username)
      ≡ accepted (login_claims system moment username)
unfolding prepared set_all ◌==◌
prepared_login system moment username some_name = rw some_name refl

pub accepted-injective : {A : Type 0} (a b : A) → accepted a ≡ accepted b → a ≡ b
accepted-injective a b h = cc

sign_plain :
    (crypto : Crypto) (codec : JsonCodec) (s : Signer) (moment : ℕ) (c c' : Claims)
    → prepared s.set (s.set.now moment) c ≡ accepted c'
    → c'.extra ≡ []
    → sign crypto codec s moment c ≡ signed crypto s.alg (codec.marshal (object (registered c')))
unfolding sign
sign_plain crypto codec s moment c c' ready plain = rw (ready, marshal_plain c' plain) refl

append_some : (s t : Text) → (s == []) ≡ false → (s ++ t == []) ≡ false
unfolding ◌==◌
append_some [] t h = cc
append_some (c ∷ s) t h = refl

header_some : (header login_alg == []) ≡ false
unfolding ◌==◌
header_some = refl

module _ (crypto : Crypto) (codec : JsonCodec) (system : Clock) (moment : ℕ) (username : Text)
    (some_name : (username == []) ≡ false) where
  abbrev payload : Text
  payload = codec.marshal (object (registered (login_claims system moment username)))

  abbrev pub token_text : Text
  token_text =
      signing_input login_alg payload
      ++ dot ∷ b64encode (crypto.hmac_sha256 secret (signing_input login_alg payload))

  signed_login : signed crypto login_alg payload ≡ accepted token_text
  unfolding sign_with
  signed_login = refl

  pub encode_login :
      encode crypto codec (login_auth system) moment (claims_of username) ≡ accepted token_text
  unfolding set_all
  encode_login =
      sign_plain crypto codec (login_auth system).sign moment (claims_of username)
        (login_claims system moment username) (prepared_login system moment username some_name) refl
      ∙ signed_login

  pub token-IsInk :
      IsCrypto crypto → AreBytes payload → IsInk token_text × ((token_text == []) ≡ false)
  token-IsInk laws bytes =
      let head = b64encode-IsInk (header login_alg) (are_bytes (header login_alg) refl) in
      let body = b64encode-IsInk payload bytes in
      let tail =
        b64encode-IsInk (crypto.hmac_sha256 secret (signing_input login_alg payload))
          (laws.digest_bytes secret (signing_input login_alg payload)) in
      (
        append-IsInk (signing_input login_alg payload)
            (dot ∷ b64encode (crypto.hmac_sha256 secret (signing_input login_alg payload)))
            (append-IsInk (b64encode (header login_alg)) (dot ∷ b64encode payload) head
              (omega arith, omega arith, body))
            (omega arith, omega arith, tail),
        append_some (signing_input login_alg payload)
            (dot ∷ b64encode (crypto.hmac_sha256 secret (signing_input login_alg payload)))
            (append_some (b64encode (header login_alg)) (dot ∷ b64encode payload)
              (b64encode_some (header login_alg) header_some)),
      )

  pub decode_login :
      (k : ℕ)
      → IsCrypto crypto
      → codec.unmarshal (header login_alg) ≡ some (header_json login_alg)
      → Reads codec (object (registered (login_claims system moment username)))
      → HasPlainDates (system k) (login_claims system moment username)
      → IsWithin (system k) (login_claims system moment username)
      → decode crypto codec (login_auth system) k token_text
        ≡ accepted (read_back (login_claims system moment username))
  unfolding set_all ◌==◌
  decode_login k laws reads_header reads dates within =
      let auth = login_auth system in
      let (token, made, verified) =
        fresh_token crypto codec auth.sign auth.verify moment k (claims_of username)
          (login_claims system moment username) laws (refl, refl, refl) reads_header
          (prepared_login system moment username some_name) refl reads (refl, refl, refl) dates
          within in
      ap (λ t. decode crypto codec auth k t)
        (accepted-injective token_text token (sym encode_login ∙ made))
      ∙ verified
