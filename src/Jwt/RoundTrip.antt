-- ===== src/Jwt/RoundTrip.antt =====
-- What a signer issues and a verifier of the other half of its key reads (jwt/jwt.go, jwt/alg.go).
use libauth.Prelude.{◌∙◌, arith, ◌∷◌, ◌++◌, ℕ, refl, ◌≡◌, false, some, []}
use libauth.Jwt.{accepted, ◌>>=◌}
use libauth.Jwt.Algorithm.{
  alg_eddsa, verify_with, alg_name, sign_with, alg_hs256, IsCrypto, Algorithm, Crypto, hmac_alg,
  eddsa_alg, header,
}
use libauth.Jwt.Json.{read_string, Json, JsonCodec, string, object, end, field}
use libauth.Text.{are_bytes, reverse, eq_refl, Text, ◌==◌, AreBytes, codes}
use libauth.Jwt.Header.{
  Jose, to_lower, trim_by, trim_space, typ_is_jwt, read_jose_member, read_jose_members, read_jose,
}
use libauth.Jwt.Verifier.{validate, Verifier, verify_segments, verify, present, check_header}
use libauth.Jwt.Signer.{Signer, sign, prepared, dot, signing_input, signed}
use libauth.Jwt.Claims.{registered, Claims, marshal_claims, unmarshal_claims}
use libauth.Jwt.Segments.{split_token}
use libauth.Jwt.Base64.{b64encode}
use libauth.Jwt.Base64.RoundTrip.{b64decode-b64encode, b64encode_some, b64encode-HasNoDot}
use libauth.Jwt.Settings.{Settings}
use libauth.Jwt.Time.{Time}
use libauth.Jwt.Claims.RoundTrip.{unmarshal_claims-registered, read_back}
use libauth.Dict.{keys}

-- The verifier has the secret of the signer, or the public half of its key.
abbrev pub IsPair : Crypto → Algorithm → Algorithm → Type 0
IsPair crypto (hmac_alg name key) (hmac_alg name' key') =
    (name ≡ alg_hs256) × (name' ≡ alg_hs256) × (key' ≡ key)
IsPair crypto (eddsa_alg priv public) (eddsa_alg priv' public') =
    ((priv == []) ≡ false) × (public' ≡ crypto.ed25519_public priv)
IsPair crypto a b = ⊥

abbrev pub header_json : Algorithm → Json
header_json alg =
    object
      (field (codes "alg") (string (alg_name alg)) (field (codes "typ") (string (codes "JWT")) end))

-- The codec reads back what it printed, in bytes of which there are some.
abbrev pub Reads : JsonCodec → Json → Type 0
Reads codec j =
    (codec.unmarshal (codec.marshal j) ≡ some j)
    × AreBytes (codec.marshal j)
    × ((codec.marshal j == []) ≡ false)

module _ (crypto : Crypto) (laws : IsCrypto crypto) where
  signed_pair :
      (a b : Algorithm) (input : Text)
      → IsPair crypto a b
      → (sig : Text) × (sign_with crypto a input ≡ accepted sig)
        × (verify_with crypto b input sig ≡ accepted tt)
        × AreBytes sig
        × ((sig == []) ≡ false)
  unfolding sign_with verify_with
  signed_pair (hmac_alg name key) (hmac_alg name' key') input (n, n', k) = (
    crypto.hmac_sha256 key input,
    refl,
    rw (k, eq_refl (crypto.hmac_sha256 key input)) refl,
    laws.digest_bytes key input,
    laws.digest_nonempty key input,
  )
  signed_pair (eddsa_alg priv public) (eddsa_alg priv' public') input (some_key, k) = (
    crypto.ed25519_sign priv input,
    rw some_key refl,
    rw (k, laws.verifies priv input) refl,
    laws.signature_bytes priv input,
    laws.signature_nonempty priv input,
  )
  signed_pair (hmac_alg name key) (eddsa_alg priv public) input pair = elim pair [ ]
  signed_pair (eddsa_alg priv public) (hmac_alg name key) input pair = elim pair [ ]

  header_pair :
      (a b : Algorithm)
      → IsPair crypto a b
      → (jose : Jose) × (read_jose (header_json a) ≡ some jose)
        × (check_header b jose ≡ accepted tt)
  unfolding read_jose read_jose_members read_jose_member read_string check_header typ_is_jwt
      trim_space trim_by to_lower reverse ◌==◌
  header_pair (hmac_alg name key) (hmac_alg name' key') (n, n', k) =
      (record { alg = name; typ = codes "JWT"; crit = [] }, refl, rw (n, n') refl)
  header_pair (eddsa_alg priv public) (eddsa_alg priv' public') pair =
      (record { alg = alg_eddsa; typ = codes "JWT"; crit = [] }, refl, refl)
  header_pair (hmac_alg name key) (eddsa_alg priv public) pair = elim pair [ ]
  header_pair (eddsa_alg priv public) (hmac_alg name key) pair = elim pair [ ]

  header_bytes :
      (a b : Algorithm) → IsPair crypto a b → AreBytes (header a) × ((header a == []) ≡ false)
  unfolding ◌==◌
  header_bytes (hmac_alg name key) (hmac_alg name' key') (n, n', k) =
      rw n (are_bytes (header (hmac_alg alg_hs256 key)) refl, refl)
  header_bytes (eddsa_alg priv public) (eddsa_alg priv' public') pair =
      (are_bytes (header (eddsa_alg priv public)) refl, refl)
  header_bytes (hmac_alg name key) (eddsa_alg priv public) pair = elim pair [ ]
  header_bytes (eddsa_alg priv public) (hmac_alg name key) pair = elim pair [ ]

  -- The token of a payload, verified up to the claims.
  verify-signed :
      (codec : JsonCodec) (a : Algorithm) (v : Verifier) (k : ℕ) (j : Json)
      → IsPair crypto a v.alg
      → codec.unmarshal (header a) ≡ some (header_json a)
      → Reads codec j
      → (token : Text) × (signed crypto a (codec.marshal j) ≡ accepted token)
        × (verify crypto codec v k token ≡ (
            present (unmarshal_claims j) >>= λ d.
            validate v.set (v.set.now k) d >>= λ _. accepted d))
  unfolding verify verify_segments
  verify-signed codec a v k j pair reads_header (reads, payload_bytes, payload_some) =
      let payload = codec.marshal j in
      let (sig, made_sig, verified, sig_bytes, sig_some) =
        signed_pair a v.alg (signing_input a payload) pair in
      let (jose, read_head, accepted_head) = header_pair a v.alg pair in
      let (head_bytes, head_some) = header_bytes a v.alg pair in
      let parts =
        split_token (b64encode (header a)) (b64encode payload) (b64encode sig)
          (b64encode-HasNoDot (header a) head_bytes) (b64encode-HasNoDot payload payload_bytes)
          (b64encode-HasNoDot sig sig_bytes) in
      (
        signing_input a payload ++ dot ∷ b64encode sig,
        rw made_sig refl,
        rw
            (
              parts,
              b64encode_some (header a) head_some,
              b64encode_some payload payload_some,
              b64encode_some sig sig_some,
            )
            (rw
              (
                verify_segments,
                b64decode-b64encode (header a) head_bytes,
                reads_header,
                read_head,
                accepted_head,
                b64decode-b64encode sig sig_bytes,
                verified,
                b64decode-b64encode payload payload_bytes,
                reads,
              )
              refl),
      )

-- The defaults leave the extra claims as they are.
prepared_extra :
    (set : Settings) (now : Time) (c c' : Claims)
    → prepared set now c ≡ accepted c'
    → c'.extra ≡ c.extra
unfolding prepared
prepared_extra set now c c' h = ground (arith, h)

pub marshal_plain :
    (c : Claims) → c.extra ≡ [] → marshal_claims c ≡ accepted (object (registered c))
unfolding marshal_claims keys registered
marshal_plain c h = rw h refl

-- Claims that `Sign` fills in without an error, and that have no extra claims, give a token. `Verify`
-- with the other half of the key finds in it these claims with their dates in whole seconds, where the
-- second 0 of Unix time is no date, and answers as `validate` does on them, by its own settings and
-- clock. The primitives are as documented, and the codec reads back the header and the payload.
pub verify-sign :
    (crypto : Crypto) (codec : JsonCodec) (s : Signer) (v : Verifier) (i k : ℕ) (c c' : Claims)
    → IsCrypto crypto
    → IsPair crypto s.alg v.alg
    → codec.unmarshal (header s.alg) ≡ some (header_json s.alg)
    → prepared s.set (s.set.now i) c ≡ accepted c'
    → c.extra ≡ []
    → Reads codec (object (registered c'))
    → (token : Text) × (sign crypto codec s i c ≡ accepted token)
      × (verify crypto codec v k token
          ≡ (validate v.set (v.set.now k) (read_back c') >>= λ _. accepted (read_back c')))
unfolding sign
verify-sign crypto codec s v i k c c' laws pair reads_header ready plain reads =
    let plain' = prepared_extra s.set (s.set.now i) c c' ready ∙ plain in
    let (token, made_token, verified) =
      verify-signed crypto laws codec s.alg v k (object (registered c')) pair reads_header reads in
    (
      token,
      rw (ready, marshal_plain c' plain') made_token,
      verified ∙ rw (unmarshal_claims-registered c' plain') refl,
    )
