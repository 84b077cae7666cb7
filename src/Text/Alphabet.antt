-- ===== src/Text/Alphabet.antt =====
-- Digits as the letters of an alphabet, found again by `strings.IndexByte` or a table.
use libauth.Prelude.{
  nat_eq_iff, Bool-cases, nat_eq, arith, ◌<◌, ◌&&◌, ◌≡◌, Bool, ℕ, true, false, none, some, zero,
  suc, [], ◌∷◌, inl, inr,
}
use libauth.Text.{index_byte, Text}
use mathlib.Core.Path.{subst}

-- `alphabet[d]`, for a digit that is in range.
unfoldable pub nth : Text → ℕ → ℕ
nth [] d = 0
nth (c ∷ s) zero = c
nth (c ∷ s) (suc d) = nth s d

-- A test of all digits below a bound.
unfoldable pub all_below : ℕ → (ℕ → Bool) → Bool
all_below zero p = true
all_below (suc k) p = p k && all_below k p

pub all_below_sound : (k : ℕ) (p : ℕ → Bool) (d : ℕ) → all_below k p ≡ true → d < k → p d ≡ true
unfolding all_below
all_below_sound zero p d h lt = absurd (omega arith)
all_below_sound (suc k) p d h lt = elim (Bool-cases (nat_eq k d)) [
  | inl here ↦ subst (λ e. p e ≡ true) ((nat_eq_iff k d).0 here) (ground (arith, h))
  | inr other ↦ all_below_sound k p d (ground (arith, h)) (ground (arith, lt, other))
]

-- Whether a digit is found again at its letter.
unfoldable pub found_again : Text → ℕ → Bool
found_again alphabet d = elim (index_byte alphabet (nth alphabet d)) [
  | none ↦ false
  | some e ↦ nat_eq e d
]

found_again_sound :
    (alphabet : Text) (d : ℕ)
    → found_again alphabet d ≡ true
    → index_byte alphabet (nth alphabet d) ≡ some d
unfolding found_again
found_again_sound alphabet d h = ground (arith, h)

-- One evaluation over the digits serves every digit.
pub index_byte-nth :
    (alphabet : Text) (k d : ℕ)
    → all_below k (found_again alphabet) ≡ true
    → d < k
    → index_byte alphabet (nth alphabet d) ≡ some d
index_byte-nth alphabet k d h lt =
    found_again_sound alphabet d (all_below_sound k (found_again alphabet) d h lt)
