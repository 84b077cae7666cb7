-- ===== src/Branca/Token/Sealed.antt =====
-- What is sealed and opened again (branca/branca.go).
use libauth.Prelude.{
  ◌∙◌, length-append, ◌≤◌, ◌/◌, if◌then◌else◌, refl, ap, ◌+◌, drop, take, arith, ◌≡◌, ◌++◌, ◌<◌,
  length, some, zero, suc, [], ◌∷◌, ℕ,
}
use libauth.Prelude.Int.{ℤ}
use libauth.Branca.Token.{
  version_byte, head_is, pos, encode_bytes, open_token, seal_at, token_expired, failed, expired,
  Branca, open_decoded, header_of, put_uint32, Aead, uint32,
}
use libauth.Text.{AreBytes, Text}
use libauth.Branca.Token.{done, failed}
use libauth.Branca.Base62.{base62_decode, base62_encode}
use libauth.Branca.Base62.RoundTrip.{base62_decode-base62_encode}

take-exact : (xs ys : Text) (n : ℕ) → length xs ≡ n → take n (xs ++ ys) ≡ xs
take-exact [] ys zero e = refl
take-exact [] ys (suc n) e = absurd (omega arith)
take-exact (x ∷ xs) ys zero e = absurd (omega arith)
take-exact (x ∷ xs) ys (suc n) e = ap (λ t. x ∷ t) (take-exact xs ys n (omega arith))

drop-exact : (xs ys : Text) (n : ℕ) → length xs ≡ n → drop n (xs ++ ys) ≡ ys
drop-exact [] ys zero e = refl
drop-exact [] ys (suc n) e = absurd (omega arith)
drop-exact (x ∷ xs) ys zero e = absurd (omega arith)
drop-exact (x ∷ xs) ys (suc n) e = drop-exact xs ys n (omega arith)

AreBytes-append : (s t : Text) → AreBytes s → AreBytes t → AreBytes (s ++ t)
AreBytes-append [] t all all' = all'
AreBytes-append (b ∷ s) t (lt, all) all' = (lt, AreBytes-append s t all all')

-- What the cipher promises for one message: it is a sequence of bytes that is longer than the
-- payload by the tag, and is opened with the same key, nonce and header.
pub record Opens (aead : Aead) (key nonce payload header : Text) : Type 0 where
  pub sealed_bytes : AreBytes (aead.seal key nonce payload header)
  pub sealed_length : length (aead.seal key nonce payload header) ≡ length payload + 16
  pub unsealed : aead.unseal key nonce (aead.seal key nonce payload header) header ≡ some payload

-- A header and a sealed message are taken apart.
opened :
    (aead : Aead) (b : Branca) (token header sealed nonce : Text) (ttl : ℤ) (seconds : ℕ)
    (payload : Text)
    → length header ≡ 29
    → drop 5 header ≡ nonce
    → uint32 (drop 1 (header ++ sealed)) ≡ seconds
    → aead.unseal b.key nonce sealed header ≡ some payload
    → open_decoded aead b token (header ++ sealed) ttl ≡ (
        if expired b.now seconds ttl
        then failed token_expired
        else done (record { token = token; timestamp = seconds; payload = payload }))
unfolding open_decoded
opened aead b token header sealed nonce ttl seconds payload len nonce_at time h =
    rw
      (
        open_decoded,
        take-exact header sealed 29 len,
        drop-exact header sealed 29 len,
        nonce_at,
        h,
        time,
      )
      refl

module _ (seconds : ℕ) (nonce : Text) (range : seconds < 4294967296)
    (nonce_length : length nonce ≡ 24) where
  header_length : length (header_of seconds nonce) ≡ 29
  unfolding put_uint32
  header_length = omega arith

  header-AreBytes : AreBytes nonce → AreBytes (header_of seconds nonce)
  unfolding put_uint32
  header-AreBytes all =
      (omega arith, (omega arith, (omega arith, (omega arith, (omega arith, all)))))

  header_nonce : drop 5 (header_of seconds nonce) ≡ nonce
  unfolding put_uint32
  header_nonce = refl

  uint32-header : (s : Text) → uint32 (drop 1 (header_of seconds nonce ++ s)) ≡ seconds
  unfolding put_uint32 uint32
  uint32-header s = omega arith

seal_at_done :
    (aead : Aead) (key nonce payload : Text) (seconds : ℕ)
    → seconds < 4294967296
    → seal_at aead key (pos seconds) nonce payload
      ≡ done (
          base62_encode
            (header_of seconds nonce ++ aead.seal key nonce payload (header_of seconds nonce)))
unfolding seal_at
seal_at_done aead key nonce payload seconds range = ground (arith, range)

-- Enough bytes with the right version, read back from base 62.
open_token_decoded :
    (aead : Aead) (b : Branca) (token s : Text) (ttl : ℤ)
    → base62_decode token ≡ some (version_byte ∷ s)
    → 45 ≤ length (version_byte ∷ s)
    → open_token aead b token ttl ≡ open_decoded aead b token (version_byte ∷ s) ttl
unfolding open_token head_is
open_token_decoded aead b token s ttl h long = ground (arith, h, long)

-- A payload that is encoded at a second of the 32-bit range gives a token, and whoever has the key
-- opens it, by its own clock: to the payload and that second, or to the error of an expired token if
-- the time to live is over. The cipher opens what it sealed, adding a tag of 16 bytes, and the nonce
-- is 24 bytes.
pub open_token-encode_bytes :
    (aead : Aead) (b reader : Branca) (nonce payload : Text) (n : ℕ) (ttl : ℤ)
    → b.rand 24 ≡ some nonce
    → length nonce ≡ 24
    → AreBytes nonce
    → b.now ≡ pos n
    → n / 1000000000 < 4294967296
    → reader.key ≡ b.key
    → Opens aead b.key nonce payload (header_of (n / 1000000000) nonce)
    → (token : Text) × (encode_bytes aead b payload ≡ done token)
      × (open_token aead reader token ttl ≡ (
          if expired reader.now (n / 1000000000) ttl
          then failed token_expired
          else done (record { token = token; timestamp = n / 1000000000; payload = payload })))
unfolding encode_bytes
open_token-encode_bytes aead b reader nonce payload n ttl random len all clock range same h =
    (token, encoded, decoded)
  where
    seconds : ℕ
    seconds = n / 1000000000

    sealed : Text
    sealed = aead.seal b.key nonce payload (header_of seconds nonce)

    token : Text
    token = base62_encode (header_of seconds nonce ++ sealed)

    encoded : encode_bytes aead b payload ≡ done token
    encoded = rw (encode_bytes, random, clock) (seal_at_done aead b.key nonce payload seconds range)

    read_back : base62_decode token ≡ some (header_of seconds nonce ++ sealed)
    read_back =
        base62_decode-base62_encode version_byte (put_uint32 seconds ++ nonce ++ sealed)
          (omega arith)
          (AreBytes-append (header_of seconds nonce) sealed
            (header-AreBytes seconds nonce range len all) h.sealed_bytes)

    decoded : open_token aead reader token ttl ≡ (
        if expired reader.now seconds ttl
        then failed token_expired
        else done (record { token = token; timestamp = seconds; payload = payload }))
    decoded =
        open_token_decoded aead reader token _ ttl read_back (
          omega (
            arith,
            length-append (header_of seconds nonce) sealed,
            header_length seconds nonce range len,
            h.sealed_length,
          ))
        ∙ opened aead reader token (header_of seconds nonce) sealed nonce ttl seconds payload
            (header_length seconds nonce range len) (header_nonce seconds nonce range len)
            (uint32-header seconds nonce range len sealed)
            (ap (λ k. aead.unseal k nonce sealed (header_of seconds nonce)) same ∙ h.unsealed)
