-- ===== src/Branca/Base62/RoundTrip.antt =====
-- Decoding what was encoded (branca/base62.go).
use libauth.Prelude.{◌++◌, refl, ◌∙◌, ap, arith, ◌+◌, ◌*◌, some, ◌≡◌, ◌<◌, ℕ, [], ◌∷◌}
use libauth.Branca.Base62.{
  digits, read_digits, bytes, set_bytes, base62_encode, base62_decode, bytes_from,
}
use libauth.Text.{reverse, AreBytes, ◌==◌, Text}
use libauth.Branca.Base62.Bytes.{bytes-set_bytes, bytes-snoc}
use libauth.Branca.Base62.Digits.{read_digits-digits}

set_bytes_positive : (n : ℕ) (s : Text) → 0 < n → 0 < set_bytes n s
unfolding set_bytes
set_bytes_positive n [] pos = pos
set_bytes_positive n (b ∷ s) pos = set_bytes_positive (n * 256 + b) s (omega arith)

base62_decode-read_digits :
    (t : Text) (n : ℕ) → 0 < n → read_digits 0 t ≡ some n → base62_decode t ≡ some (bytes n)
unfolding base62_decode read_digits ◌==◌
base62_decode-read_digits [] n pos h = ground arith
base62_decode-read_digits (c ∷ t) n pos h = ground (arith, h)

base62_encode-digits :
    (b : ℕ) (s : Text)
    → base62_encode (b ∷ s) ≡ reverse (digits (set_bytes 0 (b ∷ s)) (set_bytes 0 (b ∷ s)) [])
unfolding base62_encode ◌==◌
base62_encode-digits b s = refl

bytes_one : (b : ℕ) → 0 < b → b < 256 → bytes (0 * 256 + b) ≡ b ∷ []
unfolding bytes_from
bytes_one b pos lt = bytes-snoc 0 b lt (omega arith)

-- Bytes below 256 that do not start with zero are read back from their encoding in base 62.
pub base62_decode-base62_encode :
    (b : ℕ) (s : Text)
    → 0 < b
    → AreBytes (b ∷ s)
    → base62_decode (base62_encode (b ∷ s)) ≡ some (b ∷ s)
unfolding set_bytes read_digits reverse
base62_decode-base62_encode b s pos (lt, all) =
    let n = set_bytes 0 (b ∷ s) in
    let positive : 0 < n = set_bytes_positive (0 * 256 + b) s (omega arith) in
    ap base62_decode (base62_encode-digits b s)
    ∙ base62_decode-read_digits (reverse (digits n n [])) n positive
        (read_digits-digits n n [] (omega arith))
    ∙ ap some
        (bytes-set_bytes (0 * 256 + b) s (omega arith) all ∙ ap (λ t. t ++ s) (bytes_one b pos lt))
