-- ===== src/Branca/Base62/Bytes.antt =====
-- The bytes of a number (`big.Int`), and the number of bytes that do not start with zero.
use libauth.Prelude.{◌%◌, zero, suc, [], ◌∷◌}
use libauth.Branca.Base62.{bytes, set_bytes, bytes_from}
use libauth.Prelude.{
  append_assoc, refl, ap, zero, append-nil, sym, ◌∙◌, ◌/◌, ◌++◌, arith, [], ◌*◌, ◌≡◌, suc, ◌∷◌, ◌<◌,
  ◌+◌, ◌≤◌, ℕ,
}
use libauth.Text.{AreBytes, Text}

same_bytes : (f g n : ℕ) → n ≤ f → n ≤ g → bytes_from f n ≡ bytes_from g n
unfolding bytes_from
same_bytes zero zero n le ge = refl
same_bytes zero (suc g) n le ge = ground arith
same_bytes (suc f) zero n le ge = ground arith
same_bytes (suc f) (suc g) n le ge = ground (arith, same_bytes f g (n / 256))

bytes_step : (m : ℕ) → 0 < m → bytes m ≡ bytes (m / 256) ++ m % 256 ∷ []
unfolding bytes_from
bytes_step zero pos = absurd (omega arith)
bytes_step (suc k) pos =
    ground (arith, same_bytes k (suc k / 256) (suc k / 256) (omega arith) (omega arith))

-- One more byte.
pub bytes-snoc : (n b : ℕ) → b < 256 → 0 < n * 256 + b → bytes (n * 256 + b) ≡ bytes n ++ b ∷ []
bytes-snoc n b lt pos =
    let high : (n * 256 + b) / 256 ≡ n = omega arith in
    let low : (n * 256 + b) % 256 ≡ b = omega arith in
    bytes_step (n * 256 + b) pos
    ∙ ap (λ t. bytes t ++ (n * 256 + b) % 256 ∷ []) high
    ∙ ap (λ t. bytes n ++ t ∷ []) low

pub bytes-set_bytes : (n : ℕ) (s : Text) → 0 < n → AreBytes s → bytes (set_bytes n s) ≡ bytes n ++ s
unfolding set_bytes
bytes-set_bytes n [] pos all = sym (append-nil (bytes n))
bytes-set_bytes n (b ∷ s) pos (lt, all) =
    bytes-set_bytes (n * 256 + b) s (omega arith) all
    ∙ ap (λ t. t ++ s) (bytes-snoc n b lt (omega arith))
    ∙ append_assoc (bytes n) (b ∷ []) s
