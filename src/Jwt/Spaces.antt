-- ===== src/Jwt/Spaces.antt =====
-- Runs of white space around a text (`strings.TrimSpace`, jwt/jwt.go).
use libauth.Text.{reverse-reverse, Text, reverse}
use libauth.Jwt.Header.{
  wide_space, latin_space, ascii_space, past_space_reversed, past_space, trim_by,
}
use libauth.Prelude.{
  zero, inr, ◌∙◌, refl, inl, ap, none, Option-cases, if◌then◌else◌, arith, append-nil, append_assoc,
  ◌∷◌, suc, some, sym, true, false, ℕ, Option, ◌++◌, ◌≡◌, [], Bool,
}
use mathlib.Core.Path.{subst, subst⁻¹}

-- The bytes of one character that is white space.
abbrev pub is_space : Text → Bool
is_space [] = false
is_space (a ∷ []) = ascii_space a
is_space (b ∷ c ∷ []) = latin_space b c
is_space (a ∷ b ∷ c ∷ []) = wide_space a b c
is_space (a ∷ b ∷ c ∷ d ∷ s) = false

pub data IsSpaces : Text → Type 0 where
  empty : IsSpaces []
  more : (space s : Text) → is_space space ≡ true → IsSpaces s → IsSpaces (space ++ s)

pub one-IsSpaces : (space : Text) → is_space space ≡ true → IsSpaces space
one-IsSpaces space e = subst IsSpaces (append-nil space) (IsSpaces.more space [] e IsSpaces.empty)

pub append-IsSpaces : (s t : Text) → IsSpaces s → IsSpaces t → IsSpaces (s ++ t)
append-IsSpaces s t IsSpaces.empty k = k
append-IsSpaces s t (IsSpaces.more space rest e h) k =
    subst⁻¹ IsSpaces (append_assoc space rest t)
      (IsSpaces.more space (rest ++ t) e (append-IsSpaces rest t h k))

pub reverse-append : (s t : Text) → reverse (s ++ t) ≡ reverse t ++ reverse s
unfolding reverse
reverse-append [] t = sym (append-nil (reverse t))
reverse-append (c ∷ s) t =
    ap (λ u. u ++ c ∷ []) (reverse-append s t) ∙ append_assoc (reverse t) (reverse s) (c ∷ [])

pub past_space_lem : (space u : Text) → is_space space ≡ true → past_space (space ++ u) ≡ some u
past_space_lem [] u e = cc e
past_space_lem (a ∷ []) [] e = ground (arith, e)
past_space_lem (a ∷ []) (x ∷ []) e = ground (arith, e)
past_space_lem (a ∷ []) (x ∷ y ∷ u) e = ground (arith, e)
past_space_lem (b ∷ c ∷ []) [] e = ground (arith, e)
past_space_lem (b ∷ c ∷ []) (x ∷ u) e = ground (arith, e)
past_space_lem (a ∷ b ∷ c ∷ []) u e = ground (arith, e)
past_space_lem (a ∷ b ∷ c ∷ d ∷ s) u e = cc e

pub past_space_reversed_lem :
    (space u : Text) → is_space space ≡ true → past_space_reversed (reverse space ++ u) ≡ some u
unfolding reverse
past_space_reversed_lem [] u e = cc e
past_space_reversed_lem (a ∷ []) [] e = ground (arith, e)
past_space_reversed_lem (a ∷ []) (x ∷ []) e = ground (arith, e)
past_space_reversed_lem (a ∷ []) (x ∷ y ∷ u) e = ground (arith, e)
past_space_reversed_lem (b ∷ c ∷ []) [] e = ground (arith, e)
past_space_reversed_lem (b ∷ c ∷ []) (x ∷ u) e = ground (arith, e)
past_space_reversed_lem (a ∷ b ∷ c ∷ []) u e = ground (arith, e)
past_space_reversed_lem (a ∷ b ∷ c ∷ d ∷ s) u e = cc e

-- The first character, if it is white space, with its bytes in the order of the text.
abbrev Cut : (Text → Text) → Text → Option Text → Type 0
Cut order s none = Unit
Cut order s (some r) = (space : Text) × (s ≡ order space ++ r) × (is_space space ≡ true)

if-Cut :
    (order : Text → Text) (s : Text) (b : Bool) (x y : Option Text)
    → (b ≡ true → Cut order s x)
    → Cut order s y
    → Cut order s (if b then x else y)
if-Cut order s true x y h k = h refl
if-Cut order s false x y h k = k

past_space-Cut : (s : Text) → Cut (λ t. t) s (past_space s)
past_space-Cut [] = tt
past_space-Cut (a ∷ []) = if-Cut (λ t. t) (a ∷ []) (ascii_space a) _ _ (λ e. (a ∷ [], refl, e)) tt
past_space-Cut (a ∷ b ∷ []) =
    if-Cut (λ t. t) (a ∷ b ∷ []) (ascii_space a) _ _ (λ e. (a ∷ [], refl, e))
      (if-Cut (λ t. t) (a ∷ b ∷ []) (latin_space a b) (some []) none (λ e. (a ∷ b ∷ [], refl, e))
        tt)
past_space-Cut (a ∷ b ∷ c ∷ s) =
    if-Cut (λ t. t) (a ∷ b ∷ c ∷ s) (ascii_space a) _ _ (λ e. (a ∷ [], refl, e))
      (if-Cut (λ t. t) (a ∷ b ∷ c ∷ s) (latin_space a b) _ _ (λ e. (a ∷ b ∷ [], refl, e))
        (if-Cut (λ t. t) (a ∷ b ∷ c ∷ s) (wide_space a b c) (some s) none
          (λ e. (a ∷ b ∷ c ∷ [], refl, e)) tt))

past_space_reversed-Cut : (s : Text) → Cut reverse s (past_space_reversed s)
unfolding reverse
past_space_reversed-Cut [] = tt
past_space_reversed-Cut (a ∷ []) =
    if-Cut reverse (a ∷ []) (ascii_space a) _ _ (λ e. (a ∷ [], refl, e)) tt
past_space_reversed-Cut (b ∷ a ∷ []) =
    if-Cut reverse (b ∷ a ∷ []) (ascii_space b) _ _ (λ e. (b ∷ [], refl, e))
      (if-Cut reverse (b ∷ a ∷ []) (latin_space a b) (some []) none (λ e. (a ∷ b ∷ [], refl, e)) tt)
past_space_reversed-Cut (c ∷ b ∷ a ∷ s) =
    if-Cut reverse (c ∷ b ∷ a ∷ s) (ascii_space c) _ _ (λ e. (c ∷ [], refl, e))
      (if-Cut reverse (c ∷ b ∷ a ∷ s) (latin_space b c) _ _ (λ e. (b ∷ c ∷ [], refl, e))
        (if-Cut reverse (c ∷ b ∷ a ∷ s) (wide_space a b c) (some s) none
          (λ e. (a ∷ b ∷ c ∷ [], refl, e)) tt))

-- What the two loops take away is white space, however often they run.
pub front_taken :
    (fuel : ℕ) (s : Text)
    → (front : Text) × (s ≡ front ++ trim_by past_space fuel s) × IsSpaces front
unfolding trim_by
front_taken zero s = ([], refl, IsSpaces.empty)
front_taken (suc fuel) s = elim (Option-cases (past_space s)) [
  | inl stop ↦ ([], rw (trim_by, stop) refl, IsSpaces.empty)
  | inr (r, go) ↦
      let (space, eq, e) = subst (Cut (λ t. t) s) go (past_space-Cut s) in
      let (front, split, h) = front_taken fuel r in
      (
        space ++ front,
        rw (trim_by, go)
            (eq
              ∙ ap (λ t. space ++ t) split
              ∙ sym (append_assoc space front (trim_by past_space fuel r))),
        append-IsSpaces space front (one-IsSpaces space e) h,
      )
]

pub back_taken :
    (fuel : ℕ) (s : Text)
    → (back : Text) × (reverse s ≡ reverse (trim_by past_space_reversed fuel s) ++ back)
      × IsSpaces back
unfolding trim_by
back_taken zero s = ([], sym (append-nil (reverse s)), IsSpaces.empty)
back_taken (suc fuel) s = elim (Option-cases (past_space_reversed s)) [
  | inl stop ↦ ([], rw (trim_by, stop) (sym (append-nil (reverse s))), IsSpaces.empty)
  | inr (r, go) ↦
      let (space, eq, e) = subst (Cut reverse s) go (past_space_reversed-Cut s) in
      let (back, split, h) = back_taken fuel r in
      let left = reverse (trim_by past_space_reversed fuel r) in
      (
        back ++ space,
        rw (trim_by, go)
            (ap reverse eq
              ∙ reverse-append (reverse space) r
              ∙ ap (λ t. reverse r ++ t) (reverse-reverse space)
              ∙ ap (λ t. t ++ space) split
              ∙ append_assoc left back space),
        append-IsSpaces back space h (one-IsSpaces space e),
      )
]
