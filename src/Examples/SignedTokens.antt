-- ===== src/Examples/SignedTokens.antt =====
-- Instances of the theorems on signed tokens (jwt/jwt_test.go, jwt/symmetric_test.go).
use libauth.Examples.Bearer.{
  checksum, toy, toy-IsCrypto, ticking, secret, opts, settings, alg, claims_of_bob, signed_claims,
  payload_text, table, prepared_bob, table_header, table-Reads, signer, verifier, decodes,
}
use libauth.Prelude.{
  ◌↔◌, ◌<◌, length, ◌≢◌, ◌⊎◌, ◌≤◌, refl, arith, ◌≡◌, if◌then◌else◌, ◌++◌, true, false, some, [],
  ◌∷◌,
}
use libauth.Prelude.Int.{ltb_ℤ, signed64, residue64, neg, ◌+ℤ◌, wrap64, pos}
use libauth.Jwt.{
  err_reserved_claim, err_invalid_key, err_missing_expiration, err_token_expired,
  err_missing_subject, accepted, rejected, ◌>>=◌,
}
use libauth.Jwt.Time.{is_zero, unix}
use libauth.Jwt.Symmetric.{new, new_eddsa}
use libauth.Jwt.Json.{object}
use libauth.Text.{codes, ◌==◌, Text}
use libauth.Jwt.Settings.{set_all}
use libauth.Jwt.Claims.{marshal_claims, unmarshal_claims, registered, Claims}
use libauth.Jwt.Signer.{signed, dot, signing_input, sign}
use libauth.Jwt.Verifier.{Segments, validate, verify}
use libauth.Jwt.RoundTrip.{verify-sign}
use libauth.Jwt.Sound.{Checked, verify_sound}
use libauth.Jwt.Claims.RoundTrip.{read_back}
use libauth.Jwt.Base64.{b64encode}
use libauth.Jwt.Header.{typ_is_jwt}
use libauth.Jwt.Keys.{new_lem, HasSizes, IsBound}
use libauth.Jwt.Epoch.{epoch_unexpired}
use libauth.Jwt.Refusals.{sign_lem, has_reserved, IsFilled, HasExpiration}
use libauth.Jwt.Typ.{typ_is_jwt_lem, NamesJwt}
use libauth.Jwt.Spaces.{IsSpaces}
use libauth.Jwt.Window.{validate_lem, window}
use libauth.Jwt.Fresh.{IsWithin, fresh_token, HasPlainDates, Suits}
use libauth.Jwt.Instants.{nanos}

verify-sign_example :
    (token : Text) × (sign toy table signer 0 claims_of_bob ≡ accepted token)
    × (verify toy table verifier 5 token ≡ (
        validate settings (ticking 5) (read_back signed_claims) >>= λ _.
        accepted (read_back signed_claims)))
unfolding set_all
verify-sign_example =
    verify-sign toy table signer verifier 0 5 claims_of_bob signed_claims toy-IsCrypto
      (refl, refl, refl) table_header prepared_bob refl table-Reads

-- What `Encode` gives for these claims.
abbrev token_of_bob : Text
token_of_bob =
    signing_input alg payload_text
    ++ dot ∷ b64encode (checksum secret (signing_input alg payload_text))

abbrev found_claims : Claims
found_claims = record claims_of_bob {
  issuer = codes "login";
  issued_at = record { sec = pos 63835596800; nsec = 0 };
  expires_at = record { sec = pos 63835597700; nsec = 0 };
}

token_verified : verify toy table verifier 5 token_of_bob ≡ accepted found_claims
unfolding decodes
token_verified = refl

verify_sound_example :
    (seg : Segments) × (token_of_bob ≡ seg.head ++ dot ∷ (seg.payload ++ dot ∷ seg.signature))
    × Checked toy table verifier (verifier.set.now 5) seg found_claims
verify_sound_example = verify_sound toy table verifier 5 token_of_bob found_claims token_verified

sign_lem_example :
    ((claims_of_bob.subject ≡ [])
      × (sign toy table signer 0 claims_of_bob ≡ rejected err_missing_subject))
    ⊎ (((claims_of_bob.subject ≢ [])
          × (is_zero claims_of_bob.expires_at ≡ true)
          × (ltb_ℤ (pos 0) signer.set.ttl ≡ false)
          × (sign toy table signer 0 claims_of_bob ≡ rejected err_missing_expiration))
        ⊎ ((claims_of_bob.subject ≢ [])
            × HasExpiration signer.set claims_of_bob
            × ((c' : Claims) × IsFilled signer.set (signer.set.now 0) claims_of_bob c'
                × (sign toy table signer 0 claims_of_bob ≡ (
                    if has_reserved claims_of_bob
                    then rejected err_reserved_claim
                    else marshal_claims c' >>= λ j. signed toy signer.alg (table.marshal j))))))
sign_lem_example = sign_lem toy table signer 0 claims_of_bob

-- An expiration at the start of 1970.
abbrev at_epoch : Claims
at_epoch = record claims_of_bob { expires_at = record { sec = pos 62135596800; nsec = 0 } }

epoch_unexpired_example :
    (unmarshal_claims (object (registered at_epoch)) ≡ some (read_back at_epoch))
    × (validate settings (ticking 5) (read_back at_epoch) ≢ rejected err_token_expired)
unfolding unix wrap64 ◌+ℤ◌ neg residue64 signed64
epoch_unexpired_example = epoch_unexpired settings (ticking 5) at_epoch refl refl

abbrev private_key : Text
private_key = codes "0123456789abcdef0123456789abcdef0123456789abcdef0123456789abcdef"

new_lem_example :
    (((32 ≤ length secret) × IsBound toy (new ticking secret opts))
      ⊎ ((length secret < 32) × (new ticking secret opts ≡ rejected err_invalid_key)))
    × ((HasSizes toy private_key
          × IsBound toy
              (new_eddsa toy ticking (some private_key) (toy.ed25519_public private_key) opts))
        ⊎ ((¬ (HasSizes toy private_key))
            × (new_eddsa toy ticking (some private_key) (toy.ed25519_public private_key) opts
                ≡ rejected err_invalid_key)))
new_lem_example = new_lem toy ticking secret private_key opts

typ_is_jwt_lem_example : (typ_is_jwt (codes "  Application/JWT ") ≡ true) ↔ (
    (front word back : Text) × (codes "  Application/JWT " ≡ front ++ (word ++ back))
    × IsSpaces front
    × IsSpaces back
    × NamesJwt word)
typ_is_jwt_lem_example = typ_is_jwt_lem (codes "  Application/JWT ")

validate_lem_example :
    validate settings (ticking 5) found_claims ≡ window settings (ticking 5) found_claims
unfolding set_all
validate_lem_example =
    validate_lem settings (ticking 5) found_claims (omega arith)
      (omega arith, omega arith, omega arith, omega arith, omega arith)
      (omega arith, omega arith, omega arith, omega arith, omega arith)
      (omega arith, omega arith, omega arith, omega arith, omega arith)

bob_Suits : Suits verifier.set signed_claims
unfolding set_all ◌==◌
bob_Suits = (refl, refl, refl)

bob_IsWithin : IsWithin (verifier.set.now 5) signed_claims
unfolding set_all nanos ◌+ℤ◌
bob_IsWithin = (refl, refl)

bob_HasPlainDates : HasPlainDates (verifier.set.now 5) signed_claims
unfolding set_all
bob_HasPlainDates = (
  omega arith,
  (omega arith, omega arith, omega arith, omega arith, omega arith),
  (omega arith, omega arith, omega arith, omega arith, omega arith),
  refl,
)

-- Five seconds after the issue.
fresh_token_example :
    (token : Text) × (sign toy table signer 0 claims_of_bob ≡ accepted token)
    × (verify toy table verifier 5 token ≡ accepted (read_back signed_claims))
unfolding set_all
fresh_token_example =
    fresh_token toy table signer verifier 0 5 claims_of_bob signed_claims toy-IsCrypto
      (refl, refl, refl) table_header prepared_bob refl table-Reads bob_Suits bob_HasPlainDates
      bob_IsWithin
