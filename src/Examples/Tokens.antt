-- ===== src/Examples/Tokens.antt =====
-- Instances of the theorems on tokens (branca/branca_test.go).
use libauth.Prelude.{
  ◌/◌, ◌-◌, if◌then◌else◌, length, refl, true, false, take, ◌≡◌, arith, ◌++◌, some, [], ◌∷◌,
}
use libauth.Prelude.Int.{pos}
use libauth.Branca.Token.{
  put_uint32, uint32, head_is, open_decoded, Token, token_expired, open_token, encode_bytes,
  header_of, expired, Branca, Aead, done, failed,
}
use libauth.Text.Alphabet.{nth}
use libauth.Branca.Base62.{set_bytes, bytes_from, digits, read_digits, base62_encode, base62_decode}
use libauth.Text.{reverse, AreBytes, ◌==◌, index_byte, codes, Text}
use libauth.Branca.Token.Sealed.{open_token-encode_bytes, Opens}
use libauth.Branca.Base62.RoundTrip.{base62_decode-base62_encode}
use libauth.Branca.Base62.{digit_of}
use libauth.Branca.Shared.{
  Shared, Exclusive, IsReading, exclusive_lem, raced_lem, raced, step_left, begun, scanning,
  finished, here, by_left,
}
use libauth.Branca.Token.Opened.{open_token_sound, Authentic}

base62_decode-base62_encode_example :
    base62_decode (base62_encode (186 ∷ 0 ∷ 255 ∷ [])) ≡ some (186 ∷ 0 ∷ 255 ∷ [])
base62_decode-base62_encode_example =
    base62_decode-base62_encode 186 (0 ∷ 255 ∷ []) (omega arith)
      (omega arith, (omega arith, (omega arith, tt)))

-- A cipher that only appends a tag.
abbrev tag : Text
tag = codes "0123456789abcdef"

abbrev tagging : Aead
tagging = record {
  seal = λ key nonce payload header. payload ++ tag;
  unseal = λ key nonce sealed header. some (take (length sealed - 16) sealed);
}

abbrev nonce_24 : Text
nonce_24 = codes "abcdefghijklmnopqrstuvwx"

abbrev issuer : Branca
issuer = record {
  key = codes "supersecretkeyyoushouldnotcommit";
  now = pos 1700000000123456789;
  rand = λ n. some nonce_24;
}

abbrev greeting : Text
greeting = codes "hello"

greeting-Opens : Opens tagging issuer.key nonce_24 greeting (header_of 1700000000 nonce_24)
greeting-Opens = record { sealed_bytes = ground arith; sealed_length = refl; unsealed = refl }

nonce_24-AreBytes : AreBytes nonce_24
nonce_24-AreBytes = ground arith

open_token-encode_bytes_example :
    (token : Text) × (encode_bytes tagging issuer greeting ≡ done token)
    × (open_token tagging issuer token (pos 60000000000) ≡ (
        if expired issuer.now (1700000000123456789 / 1000000000) (pos 60000000000)
        then failed token_expired
        else done (record {
          token = token;
          timestamp = 1700000000123456789 / 1000000000;
          payload = greeting;
        })))
open_token-encode_bytes_example =
    open_token-encode_bytes tagging issuer issuer nonce_24 greeting 1700000000123456789
      (pos 60000000000) refl refl nonce_24-AreBytes refl (omega arith) refl greeting-Opens

-- Within a minute of its time, the token is still good.
fresh_token : expired issuer.now 1700000000 (pos 60000000000) ≡ false
unfolding expired
fresh_token = refl

old_token : expired (pos 1700000061000000000) 1700000000 (pos 60000000000) ≡ true
unfolding expired
old_token = refl

-- The token of the greeting, and what it is opened to.
abbrev greeting_token : Text
greeting_token = base62_encode (header_of 1700000000 nonce_24 ++ greeting ++ tag)

abbrev opened_greeting : Token
opened_greeting = record { token = greeting_token; timestamp = 1700000000; payload = greeting }

greeting_opened : open_token tagging issuer greeting_token (pos 60000000000) ≡ done opened_greeting
unfolding open_token open_decoded expired head_is uint32 put_uint32 base62_decode base62_encode
    read_digits reverse digits bytes_from set_bytes nth index_byte ◌==◌
greeting_opened = refl

open_token_sound_example :
    (decoded : Text) × (base62_decode greeting_token ≡ some decoded)
    × Authentic tagging issuer decoded opened_greeting
    × (opened_greeting.token ≡ greeting_token)
    × (expired issuer.now opened_greeting.timestamp (pos 60000000000) ≡ false)
open_token_sound_example =
    open_token_sound tagging issuer greeting_token (pos 60000000000) opened_greeting greeting_opened

-- The texts "b" and "1z", while the call on the first has written its digit and added it.
abbrev after_two : Shared
after_two = step_left (step_left (begun 7 (codes "b") (codes "1z")))

two_steps : Exclusive (begun 7 (codes "b") (codes "1z")) after_two
two_steps = by_left (by_left here refl) refl

exclusive_lem_example :
    IsReading (codes "b") after_two.digit after_two.left
    × IsReading (codes "1z") after_two.digit after_two.right
exclusive_lem_example = exclusive_lem 7 (codes "b") (codes "1z") after_two two_steps

letter_b : digit_of 98 ≡ some 37
unfolding index_byte
letter_b = refl

letter_1 : digit_of 49 ≡ some 1
unfolding index_byte
letter_1 = refl

raced_lem_example :
    ((raced
        (record { digit = 7; left = scanning 0 (codes "b"); right = scanning 0 (codes "1z") })).left
      ≡ finished 1)
    × (read_digits 0 (codes "b") ≡ some 37)
raced_lem_example = raced_lem 7 0 0 98 49 37 1 (codes "z") letter_b letter_1
