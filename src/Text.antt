-- ===== src/Text.antt =====
-- Go's `string` values: sequences of bytes, with `==`, `<` (bytewise), `+` and `strings.IndexByte`.
pub mod Order
pub mod Alphabet
use Prim.Native.Char.{code}
use libauth.Prelude.{
  ◌<◌, ℕ, zero, suc, String, ◌≡◌, refl, ◌↔◌, Bool, true, false, ◌&&◌, ◌||◌, Option, none, some,
  List, [], ◌∷◌, arith, nat_eq, if◌then◌else◌, any, all, ltb, ◌++◌, ◌<◌, ◌∙◌, ap, length,
}

abbrev pub Text : Type 0
Text = List ℕ

-- Numbers that are bytes.
abbrev pub AreBytes : Text → Type 0
AreBytes [] = Unit
AreBytes (b ∷ s) = (b < 256) × AreBytes s

pub are_bytes : (s : Text) → all (λ c. ltb c 256) s ≡ true → AreBytes s
are_bytes [] h = tt
are_bytes (c ∷ s) h = (ground (arith, h), are_bytes s (ground (arith, h)))

-- The bytes of an ASCII literal.
abbrev pub codes : String → Text
codes String.[] = []
codes (String.◌∷◌ c s) = code c ∷ codes s

infix 50 ◌==◌
unfoldable pub ◌==◌ : Text → Text → Bool
[] == [] = true
[] == (d ∷ t) = false
(c ∷ s) == [] = false
(c ∷ s) == (d ∷ t) = nat_eq c d && s == t

pub eq→path : (s t : Text) → (s == t) ≡ true → s ≡ t
unfolding ◌==◌
eq→path [] [] h = refl
eq→path [] (d ∷ t) h = cc
eq→path (c ∷ s) [] h = cc
eq→path (c ∷ s) (d ∷ t) h = ground (arith, eq→path s t)

pub eq_refl : (s : Text) → (s == s) ≡ true
unfolding ◌==◌
eq_refl [] = refl
eq_refl (c ∷ s) = ground (arith, eq_refl s)

pub eq_iff : (s t : Text) → ((s == t) ≡ true) ↔ (s ≡ t)
eq_iff s t = (eq→path s t, λ e. rw e (eq_refl t))

-- Whether a text is an element of a list: the scan `for _, r := range xs { if r == x … }`.
abbrev pub contains : List Text → Text → Bool
contains xs x = any (λ y. y == x) xs

-- The bytes backwards.
unfoldable pub reverse : Text → Text
reverse [] = []
reverse (c ∷ s) = reverse s ++ c ∷ []

pub reverse-snoc : (s : Text) (c : ℕ) → reverse (s ++ c ∷ []) ≡ c ∷ reverse s
unfolding reverse
reverse-snoc [] c = refl
reverse-snoc (d ∷ s) c = ap (λ t. t ++ d ∷ []) (reverse-snoc s c)

pub reverse-reverse : (s : Text) → reverse (reverse s) ≡ s
unfolding reverse
reverse-reverse [] = refl
reverse-reverse (c ∷ s) = reverse-snoc (reverse s) c ∙ ap (λ t. c ∷ t) (reverse-reverse s)

length-snoc : (s : Text) (c : ℕ) → length (s ++ c ∷ []) ≡ suc (length s)
length-snoc [] c = refl
length-snoc (d ∷ s) c = ap (λ n. suc n) (length-snoc s c)

pub length-reverse : (s : Text) → length (reverse s) ≡ length s
unfolding reverse
length-reverse [] = refl
length-reverse (c ∷ s) = length-snoc (reverse s) c ∙ ap (λ n. suc n) (length-reverse s)

-- `strings.IndexByte(s, b)`, with `none` for -1.
unfoldable pub index_byte : Text → ℕ → Option ℕ
index_byte [] b = none
index_byte (c ∷ s) b =
    if nat_eq c b then some 0 else elim (index_byte s b) [ none ↦ none | some i ↦ some (suc i) ]
