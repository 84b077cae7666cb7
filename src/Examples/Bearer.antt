-- ===== src/Examples/Bearer.antt =====
-- A signer and a verifier of tokens for bob (jwt/symmetric_test.go).
use libauth.Prelude.{
  refl, arith, ◌%◌, ◌*◌, ◌≡◌, if◌then◌else◌, Option, ◌+◌, drop, ◌++◌, ℕ, List, none, some, [], ◌∷◌,
}
use libauth.Prelude.Int.{signed64, residue64, neg, ◌+ℤ◌, wrap64, pos}
use libauth.Jwt.{accepted}
use libauth.Jwt.Algorithm.{
  verify_with, quoted, alg_hs256, IsCrypto, Algorithm, Crypto, hmac_alg, header,
}
use libauth.Jwt.Time.{Time, unix, at_unix}
use libauth.Jwt.Json.{
  read_strings, occurs, keep_last, read_string, JsonCodec, Json, object, field, string, number, end,
}
use libauth.Text.{index_byte, reverse, are_bytes, eq_refl, codes, ◌==◌, Text}
use libauth.Jwt.Settings.{
  with_expected_issuer, with_issuer, with_ttl, Setter, set_all, new_settings, Settings, Clock,
}
use libauth.Jwt.Claims.{
  read_members, read_member, read_date, read_audience, unmarshal_claims, exp_name, iat_name,
  iss_name, sub_name, no_claims, registered, Claims,
}
use libauth.Jwt.Signer.{signer_of, Signer, prepared}
use libauth.Jwt.Verifier.{
  check_header, split_dots, verify_segments, validate, verify, verifier_of, Verifier,
}
use libauth.Jwt.Decimal.{digits_before, print_int}
use libauth.Jwt.RoundTrip.{header_json, Reads}
use libauth.Jwt.Decimal.{digits_before, parse_int, read_digits, read_number}
use libauth.Jwt.Time.{add}
use libauth.Jwt.Base64.{regroup, without_breaks, decode_map, sextets, b64encode, b64decode}
use libauth.Jwt.Header.{
  to_lower, typ_is_jwt, read_jose_member, read_jose_members, read_jose, trim_space, trim_by,
}
use libauth.Text.Alphabet.{nth}

-- A checksum in place of the digests and the signatures.
abbrev total : Text → ℕ
total [] = 0
total (c ∷ s) = c + 3 * total s

abbrev pub checksum : Text → Text → Text
checksum key input = total (key ++ input) % 256 ∷ []

abbrev pub toy : Crypto
toy = record {
  hmac_sha256 = checksum;
  ed25519_public = λ priv. drop 32 priv;
  ed25519_sign = λ priv input. checksum (drop 32 priv) input;
  ed25519_verify = λ public input sig. sig == checksum public input;
}

pub toy-IsCrypto : IsCrypto toy
unfolding ◌==◌
toy-IsCrypto = record {
  verifies = λ priv input. eq_refl (checksum (drop 32 priv) input);
  digest_bytes = λ key input. (omega arith, tt);
  signature_bytes = λ priv input. (omega arith, tt);
  digest_nonempty = λ key input. refl;
  signature_nonempty = λ priv input. refl;
}

-- 2023-11-14, 22:13:20 UTC.
abbrev pub start : Time
start = record { sec = pos 63835596800; nsec = 500 }

-- A clock that goes on by a second.
abbrev pub ticking : Clock
ticking moment = record { sec = pos (63835596800 + moment); nsec = 500 }

abbrev pub secret : Text
secret = codes "0123456789abcdef0123456789abcdef"

-- Fifteen minutes.
abbrev pub opts : List (Option Setter)
opts =
    some (with_ttl (pos 900000000000))
    ∷ none
    ∷ some (with_issuer (codes "login"))
    ∷ some (with_expected_issuer (codes "login"))
    ∷ []

abbrev pub settings : Settings
settings = new_settings ticking opts

abbrev pub alg : Algorithm
alg = hmac_alg alg_hs256 secret

abbrev pub claims_of_bob : Claims
claims_of_bob = record no_claims { subject = codes "bob" }

abbrev pub signed_claims : Claims
signed_claims = record claims_of_bob {
  issuer = codes "login";
  issued_at = start;
  expires_at = record { sec = pos 63835597700; nsec = 500 };
}

-- The texts of the tokens of this file, and what is in them.
abbrev pub payload_text : Text
payload_text = quoted (codes "{'sub':'bob','iss':'login','iat':1700000000,'exp':1700000900}")

abbrev payload_json : Json
payload_json = object (registered signed_claims)

abbrev pub table : JsonCodec
table = record {
  marshal = λ j. payload_text;
  unmarshal = λ s.
      if s == header alg
      then some (header_json alg)
      else if s == payload_text
      then some payload_json
      else none;
}

pub prepared_bob : prepared settings start claims_of_bob ≡ accepted signed_claims
unfolding prepared set_all add ◌==◌ ◌+ℤ◌ neg
prepared_bob = refl

payload_members :
    registered signed_claims
    ≡ field sub_name (string (codes "bob")) (
        field iss_name (string (codes "login")) (
          field iat_name
            (number (codes "1700000000"))
            (field exp_name (number (codes "1700000900")) end)))
unfolding registered unix print_int wrap64 ◌==◌ ◌+ℤ◌ neg residue64 signed64
payload_members = refl

pub table_header : table.unmarshal (header alg) ≡ some (header_json alg)
unfolding ◌==◌
table_header = refl

pub table-Reads : Reads table payload_json
unfolding ◌==◌
table-Reads = (refl, are_bytes payload_text refl, refl)

abbrev pub signer : Signer
signer = signer_of settings alg

abbrev pub verifier : Verifier
verifier = verifier_of settings alg

-- All that a verification computes with.
unfoldable pub decodes : Unit {0}
unfolding verify verify_segments split_dots b64encode sextets nth ◌==◌ b64decode decode_map
    without_breaks index_byte regroup read_jose read_jose_members read_jose_member read_string
    check_header typ_is_jwt to_lower verify_with read_audience read_date read_member read_members
    unmarshal_claims parse_int read_digits read_number trim_by trim_space keep_last occurs
    read_strings add at_unix validate neg residue64 signed64 wrap64 ◌+ℤ◌ reverse registered unix
    print_int digits_before set_all
decodes = tt
