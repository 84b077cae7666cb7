-- ===== src/Branca/Token/Opened.antt =====
-- What an opened token says of the bytes that were decoded (branca/branca.go).
use libauth.Prelude.{Option-cases, arith, take, drop, length, ◌≡◌, ◌≤◌, some, true, false, inl, inr}
use libauth.Branca.Token.{
  uint32, version_byte, expired, head_is, Token, Branca, open_token, open_decoded, Aead, done,
}
use libauth.Text.{Text}
use libauth.Prelude.Int.{ℤ}
use libauth.Branca.Base62.{base62_decode}

-- The bytes of a token, taken apart and authenticated with the key.
pub record Authentic (aead : Aead) (b : Branca) (decoded : Text) (tok : Token) : Type 0 where
  pub long : 45 ≤ length decoded
  pub version : head_is decoded version_byte ≡ true
  pub unsealed :
      aead.unseal b.key (drop 5 (take 29 decoded)) (drop 29 decoded) (take 29 decoded)
      ≡ some tok.payload
  pub timestamp : tok.timestamp ≡ uint32 (drop 1 decoded)

open_decoded_done :
    (aead : Aead) (b : Branca) (token decoded : Text) (ttl : ℤ) (tok : Token)
    → open_decoded aead b token decoded ttl ≡ done tok
    → (aead.unseal b.key (drop 5 (take 29 decoded)) (drop 29 decoded) (take 29 decoded)
        ≡ some tok.payload)
      × (tok.timestamp ≡ uint32 (drop 1 decoded))
      × (tok.token ≡ token)
      × (expired b.now (uint32 (drop 1 decoded)) ttl ≡ false)
unfolding open_decoded
open_decoded_done aead b token decoded ttl tok h = ground (arith, h)

open_token_done :
    (aead : Aead) (b : Branca) (token : Text) (ttl : ℤ) (tok : Token)
    → open_token aead b token ttl ≡ done tok
    → (decoded : Text) × (base62_decode token ≡ some decoded)
      × (45 ≤ length decoded)
      × (head_is decoded version_byte ≡ true)
      × (open_decoded aead b token decoded ttl ≡ done tok)
unfolding open_token
open_token_done aead b token ttl tok h = elim (Option-cases (base62_decode token)) [
  | inl bad ↦ absurd (ground (arith, h, bad))
  | inr (decoded, good) ↦
      (decoded, good, ground (arith, h, good), ground (arith, h, good), ground (arith, h, good))
]

-- A token that is opened is the base 62 text of at least 45 bytes that start with the version byte.
-- The cipher opened what follows the header, under the key, the nonce in the header and the header
-- itself, to the payload returned; the timestamp is the one in the header, and is not too old.
pub open_token_sound :
    (aead : Aead) (b : Branca) (token : Text) (ttl : ℤ) (tok : Token)
    → open_token aead b token ttl ≡ done tok
    → (decoded : Text) × (base62_decode token ≡ some decoded)
      × Authentic aead b decoded tok
      × (tok.token ≡ token)
      × (expired b.now tok.timestamp ttl ≡ false)
open_token_sound aead b token ttl tok h =
    let (decoded, good, long, version, opened) = open_token_done aead b token ttl tok h in
    let (unsealed, time, name, young) = open_decoded_done aead b token decoded ttl tok opened in
    (
      decoded,
      good,
      record { long = long; version = version; unsealed = unsealed; timestamp = time },
      name,
      rw time young,
    )
