-- ===== src/Branca/Base62/Digits.antt =====
-- The digits of a number in base 62 (branca/base62.go), and reading them back.
use libauth.Prelude.{true, some, zero, suc, [], ◌∷◌, inl, inr}
use libauth.Prelude.{
  ◌/◌, ◌%◌, inr, inl, nat_eq, zero, Bool-cases, arith, [], some, refl, suc, ap, ◌∷◌, ◌≤◌, ◌++◌,
  true, ◌<◌, ◌≡◌, ℕ,
}
use libauth.Text.{reverse-snoc, reverse, Text, index_byte}
use libauth.Branca.Base62.{alphabet, digit_of, read_digits, digits}
use libauth.Text.Alphabet.{nth, found_again, index_byte-nth, all_below}

alphabet_found : all_below 62 (found_again alphabet) ≡ true
unfolding all_below found_again index_byte nth
alphabet_found = refl

digit_of-nth : (d : ℕ) → d < 62 → digit_of (nth alphabet d) ≡ some d
digit_of-nth d lt = index_byte-nth alphabet 62 d alphabet_found lt

-- Reading the digits of `n` back, least significant first, gives `n`.
pub read_digits-digits :
    (fuel n : ℕ) (ds : Text)
    → n ≤ fuel
    → read_digits 0 (reverse (digits fuel n ds)) ≡ read_digits n (reverse ds)
unfolding digits read_digits
read_digits-digits zero n ds le = ap (λ t. read_digits t (reverse ds)) (omega arith)
read_digits-digits (suc fuel) n ds le = elim (Bool-cases (nat_eq n 0)) [
  | inl none_left ↦ ground (arith, none_left)
  | inr more ↦
      let c = nth alphabet (n % 62) in
      let rest : read_digits 0 (reverse (digits fuel (n / 62) (ds ++ c ∷ [])))
          ≡ read_digits (n / 62) (reverse (ds ++ c ∷ [])) =
        read_digits-digits fuel (n / 62) (ds ++ c ∷ []) (ground (arith, le, more)) in
      ground (arith, more, rest, reverse-snoc ds c, digit_of-nth (n % 62) (omega arith))
]
