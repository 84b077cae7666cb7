-- ===== src/Jwt/Trimmed.antt =====
-- The loops of `strings.TrimSpace` (jwt/jwt.go) take the white space around a text, and no more.
use libauth.Prelude.{
  sym, append_assoc, ◌++◌, refl, ◌∙◌, ap, if◌then◌else◌, Bool, ◌≤◌, ◌<◌, length, ℕ, ◌≡◌, arith,
  Option, true, false, none, some, zero, suc, [], ◌∷◌,
}
use libauth.Text.{length-reverse, reverse-reverse, reverse, Text}
use libauth.Jwt.Header.{
  wide_space, latin_space, trim_space, past_space_reversed, ascii_space, trim_by, past_space,
}
use mathlib.Core.Path.{subst⁻¹, subst}
use libauth.Jwt.Spaces.{
  past_space_reversed_lem, past_space_lem, back_taken, reverse-append, front_taken, IsSpaces,
}

-- A round takes a byte at least.
abbrev IsShorter : ℕ → Option Text → Type 0
IsShorter n none = Unit
IsShorter n (some rest) = length rest < n

abbrev Shrinks : (Text → Option Text) → Type 0
Shrinks past = (s : Text) → IsShorter (length s) (past s)

if-IsShorter :
    (n : ℕ) (b : Bool) (x y : Option Text)
    → IsShorter n x
    → IsShorter n y
    → IsShorter n (if b then x else y)
if-IsShorter n true x y h k = h
if-IsShorter n false x y h k = k

past_space-Shrinks : Shrinks past_space
past_space-Shrinks [] = tt
past_space-Shrinks (a ∷ []) = if-IsShorter 1 (ascii_space a) _ _ (omega arith) tt
past_space-Shrinks (a ∷ b ∷ []) =
    if-IsShorter 2 (ascii_space a) _ _ (omega arith)
      (if-IsShorter 2 (latin_space a b) (some []) none (omega arith) tt)
past_space-Shrinks (a ∷ b ∷ c ∷ s) =
    if-IsShorter (length (a ∷ b ∷ c ∷ s)) (ascii_space a) _ _ (omega arith) (
      if-IsShorter (length (a ∷ b ∷ c ∷ s)) (latin_space a b) _ _ (omega arith)
        (if-IsShorter (length (a ∷ b ∷ c ∷ s)) (wide_space a b c) (some s) none (omega arith) tt))

past_space_reversed-Shrinks : Shrinks past_space_reversed
past_space_reversed-Shrinks [] = tt
past_space_reversed-Shrinks (a ∷ []) = if-IsShorter 1 (ascii_space a) _ _ (omega arith) tt
past_space_reversed-Shrinks (b ∷ a ∷ []) =
    if-IsShorter 2 (ascii_space b) _ _ (omega arith)
      (if-IsShorter 2 (latin_space a b) (some []) none (omega arith) tt)
past_space_reversed-Shrinks (c ∷ b ∷ a ∷ s) =
    if-IsShorter (length (c ∷ b ∷ a ∷ s)) (ascii_space c) _ _ (omega arith) (
      if-IsShorter (length (c ∷ b ∷ a ∷ s)) (latin_space b c) _ _ (omega arith)
        (if-IsShorter (length (c ∷ b ∷ a ∷ s)) (wide_space a b c) (some s) none (omega arith) tt))

-- The rounds from a text to one that has nothing to take away.
data Trims (past : Text → Option Text) : Text → Text → Type 0 where
  stop : (s : Text) → past s ≡ none → Trims past s s
  round : (s r t : Text) → past s ≡ some r → Trims past r t → Trims past s t

-- A text of the length of the fuel is trimmed to its end.
trim_by-Trims :
    (past : Text → Option Text) (fuel : ℕ) (s t : Text)
    → Shrinks past
    → past [] ≡ none
    → length s ≤ fuel
    → Trims past s t
    → trim_by past fuel s ≡ t
unfolding trim_by
trim_by-Trims past zero s t h nothing enough (Trims.stop _ e) = refl
trim_by-Trims past zero [] t h nothing enough (Trims.round _ r _ e more) = cc (e, nothing)
trim_by-Trims past zero (c ∷ s) t h nothing enough (Trims.round _ r _ e more) = absurd (omega arith)
trim_by-Trims past (suc fuel) s t h nothing enough (Trims.stop _ e) = rw (trim_by, e) refl
trim_by-Trims past (suc fuel) s t h nothing enough (Trims.round _ r _ e more) =
    rw (trim_by, e)
      (trim_by-Trims past fuel r t h nothing (omega (arith, subst (IsShorter (length s)) e (h s)))
        more)

front-Trims :
    (front u t : Text) → IsSpaces front → Trims past_space u t → Trims past_space (front ++ u) t
front-Trims front u t IsSpaces.empty h = h
front-Trims front u t (IsSpaces.more space s e k) h =
    subst⁻¹ (λ v. Trims past_space v t) (append_assoc space s u)
      (Trims.round _ _ _ (past_space_lem space (s ++ u) e) (front-Trims s u t k h))

back-Trims :
    (back u t : Text)
    → IsSpaces back
    → Trims past_space_reversed u t
    → Trims past_space_reversed (reverse back ++ u) t
unfolding reverse
back-Trims back u t IsSpaces.empty h = h
back-Trims back u t (IsSpaces.more space s e k) h =
    subst⁻¹ (λ v. Trims past_space_reversed v t)
      (ap (λ v. v ++ u) (reverse-append space s) ∙ append_assoc (reverse s) (reverse space) u)
      (back-Trims s (reverse space ++ u) t k
        (Trims.round _ _ _ (past_space_reversed_lem space u e) h))

-- White space around a text that does not begin or end with any is taken away.
pub trim_space-around :
    (front word back : Text)
    → IsSpaces front
    → IsSpaces back
    → past_space (word ++ back) ≡ none
    → past_space_reversed (reverse word) ≡ none
    → trim_space (front ++ (word ++ back)) ≡ word
unfolding trim_space
trim_space-around front word back h k begins ends =
    let s = front ++ (word ++ back) in
    let first : trim_by past_space (length s) s ≡ word ++ back =
      trim_by-Trims past_space (length s) s (word ++ back) past_space-Shrinks refl (omega arith)
        (front-Trims front (word ++ back) (word ++ back) h (Trims.stop (word ++ back) begins)) in
    let left = word ++ back in
    let second : trim_by past_space_reversed (length left) (reverse left) ≡ reverse word =
      trim_by-Trims past_space_reversed (length left) (reverse left) (reverse word)
        past_space_reversed-Shrinks refl (omega (arith, length-reverse left))
        (subst⁻¹ (λ v. Trims past_space_reversed v (reverse word)) (reverse-append word back)
          (back-Trims back (reverse word) (reverse word) k (Trims.stop (reverse word) ends))) in
    rw (first, second) (reverse-reverse word)

-- What is taken away is white space.
pub trim_space-split :
    (s : Text)
    → (front back : Text) × (s ≡ front ++ (trim_space s ++ back)) × IsSpaces front × IsSpaces back
unfolding trim_space
trim_space-split s =
    let (front, split, h) = front_taken (length s) s in
    let left = trim_by past_space (length s) s in
    let (back, split', k) = back_taken (length left) (reverse left) in
    (front, back, split ∙ ap (λ t. front ++ t) (sym (reverse-reverse left) ∙ split'), h, k)
