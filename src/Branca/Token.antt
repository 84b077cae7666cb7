-- ===== src/Branca/Token.antt =====
-- branca/branca.go: tokens. A byte is a number below 256; a time is in nanoseconds since 1970 and a
-- duration in nanoseconds. The cipher of golang.org/x/crypto is a parameter, `Aead`. The reader of
-- randomness and the clock are what they give at the call.
pub mod Sealed
pub mod Opened
use libauth.Prelude.{
  drop, ◌+◌, length, nat_eq, take, ltb, ◌++◌, ◌*◌, ◌%◌, if◌then◌else◌, Bool, ◌/◌, List, true, false,
  none, some, zero, suc, [], ◌∷◌, ℕ, Option,
}
use libauth.Prelude.Int.{ℤ, pos, negsuc}
use libauth.Text.{Text}
use libauth.Branca.Base62.{base62_encode, base62_decode}

-- `chacha20poly1305.NewX(key)` with `Seal(nil, nonce, payload, header)` and
-- `Open(nil, nonce, sealed, header)`, here `unseal`.
pub record Aead : Type 0 where
  pub seal : Text → Text → Text → Text → Text
  pub unseal : Text → Text → Text → Text → Option Text

pub data TokenError : Type 0 where
  invalid_key token_malformed token_invalid token_expired : TokenError
  marshal_failed nonce_failed timestamp_out_of_range : TokenError

pub data Outcome {ℓ} (A : Type ℓ) : Type ℓ where
  done : A → Outcome A
  failed : TokenError → Outcome A

pub record Token : Type 0 where
  pub token : Text
  pub timestamp : ℕ
  pub payload : Text

pub record Branca : Type 0 where
  pub key : Text
  pub now : ℤ
  pub rand : ℕ → Option Text

abbrev pub key_size : ℕ
key_size = 32

abbrev pub version_byte : ℕ
version_byte = 186

abbrev pub nonce_size : ℕ
nonce_size = 24

abbrev pub header_size : ℕ
header_size = 29

abbrev pub min_token_len : ℕ
min_token_len = 45

-- `Option`: a nil argument changes nothing.
pub data Choice : Type 0 where
  with_now : Option ℤ → Choice
  with_rand : Option (ℕ → Option Text) → Choice

abbrev choose : Choice → Branca → Branca
choose (with_now none) b = b
choose (with_now (some now)) b = record b { now = now }
choose (with_rand none) b = b
choose (with_rand (some rand)) b = record b { rand = rand }

abbrev choose_all : List (Option Choice) → Branca → Branca
choose_all [] b = b
choose_all (none ∷ opts) b = choose_all opts b
choose_all (some opt ∷ opts) b = choose_all opts (choose opt b)

-- `New`, from the clock and the randomness of the system.
abbrev pub new : ℤ → (ℕ → Option Text) → Text → List (Option Choice) → Outcome Branca
new now rand key opts =
    if nat_eq (length key) key_size
    then done (choose_all opts (record { key = key; now = now; rand = rand }))
    else failed invalid_key

-- `time.Time.Unix()`: seconds, rounded down.
abbrev pub unix : ℤ → ℤ
unix (pos n) = pos (n / 1000000000)
unix (negsuc n) = negsuc (n / 1000000000)

-- `binary.BigEndian.PutUint32` and `Uint32`.
unfoldable pub put_uint32 : ℕ → Text
put_uint32 n = n / 16777216 % 256 ∷ n / 65536 % 256 ∷ n / 256 % 256 ∷ n % 256 ∷ []

unfoldable pub uint32 : Text → ℕ
uint32 (a ∷ b ∷ c ∷ d ∷ s) = ((a * 256 + b) * 256 + c) * 256 + d
uint32 s = 0

abbrev pub header_of : ℕ → Text → Text
header_of seconds nonce = version_byte ∷ put_uint32 seconds ++ nonce

-- The token of a payload, once the nonce was read and the seconds are those of the clock.
unfoldable pub seal_at : Aead → Text → ℤ → Text → Text → Outcome Text
seal_at aead key (negsuc n) nonce payload = failed timestamp_out_of_range
seal_at aead key (pos seconds) nonce payload =
    let header = header_of seconds nonce in
    if ltb 4294967295 seconds
    then failed timestamp_out_of_range
    else done (base62_encode (header ++ aead.seal key nonce payload header))

unfoldable pub encode_bytes : Aead → Branca → Text → Outcome Text
encode_bytes aead b payload = elim (b.rand nonce_size) [
  | none ↦ failed nonce_failed
  | some nonce ↦ seal_at aead b.key (unix b.now) nonce payload
]

-- `Encode`: the argument is what `MarshalBinary` returned.
abbrev pub encode : Aead → Branca → Option Text → Outcome Text
encode aead b none = failed marshal_failed
encode aead b (some raw) = encode_bytes aead b raw

-- `ttl > 0 && b.now().After(timestamp.Add(ttl))`
unfoldable pub expired : ℤ → ℕ → ℤ → Bool
expired now seconds (negsuc n) = false
expired now seconds (pos zero) = false
expired (negsuc m) seconds (pos (suc n)) = false
expired (pos m) seconds (pos (suc n)) = ltb (seconds * 1000000000 + suc n) m

-- The decoded bytes, of which there are enough, and the version is right.
unfoldable pub open_decoded : Aead → Branca → Text → Text → ℤ → Outcome Token
open_decoded aead b token decoded ttl =
    let header = take header_size decoded in
    let nonce = drop 5 header in
    let timestamp = uint32 (drop 1 decoded) in
    elim (aead.unseal b.key nonce (drop header_size decoded) header) [
      | none ↦ failed token_invalid
      | some payload ↦
          if expired b.now timestamp ttl
          then failed token_expired
          else done (record { token = token; timestamp = timestamp; payload = payload })
    ]

unfoldable pub head_is : Text → ℕ → Bool
head_is [] v = false
head_is (c ∷ s) v = nat_eq c v

unfoldable pub open_token : Aead → Branca → Text → ℤ → Outcome Token
open_token aead b token ttl = elim (base62_decode token) [
  | none ↦ failed token_malformed
  | some decoded ↦
      if ltb (length decoded) min_token_len
      then failed token_malformed
      else if head_is decoded version_byte
      then open_decoded aead b token decoded ttl
      else failed token_malformed
]

abbrev read_into : {A : Type 0} → (Text → Option A) → Token → Outcome (Token × A)
read_into unmarshal tok = elim (unmarshal tok.payload) [
  | none ↦ failed token_malformed
  | some a ↦ done (tok, a)
]

-- `Decode`, with `UnmarshalBinary` of the target.
abbrev pub decode :
    {A : Type 0} → Aead → Branca → Text → ℤ → (Text → Option A) → Outcome (Token × A)
decode aead b token ttl unmarshal = elim (open_token aead b token ttl) [
  | failed e ↦ failed e
  | done tok ↦ read_into unmarshal tok
]
