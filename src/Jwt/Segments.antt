-- ===== src/Jwt/Segments.antt =====
-- The three segments of a token (jwt/jwt.go).
use libauth.Prelude.{
  nat_eq_iff, sym, nat_eq, Bool-cases, ◌∙◌, append_assoc, ap, refl, ◌≡◌, ◌++◌, ℕ, List, false, [],
  ◌∷◌, inl, inr,
}
use libauth.Jwt.Verifier.{onto_first, split_dots}
use libauth.Text.{Text}
use libauth.Jwt.Base64.RoundTrip.{HasNoDot}
use libauth.Jwt.Claims.{is_empty}
use libauth.Jwt.Signer.{dot}

pub split_dots-append : (s t : Text) → HasNoDot s → split_dots (s ++ dot ∷ t) ≡ s ∷ split_dots t
unfolding split_dots
split_dots-append [] t h = refl
split_dots-append (c ∷ s) t (plain, h) = rw (plain, split_dots-append s t h) refl

pub split_dots_whole : (s : Text) → HasNoDot s → split_dots s ≡ s ∷ []
unfolding split_dots
split_dots_whole [] h = refl
split_dots_whole (c ∷ s) (plain, h) = rw (plain, split_dots_whole s h) refl

pub split_token :
    (h p s : Text)
    → HasNoDot h
    → HasNoDot p
    → HasNoDot s
    → split_dots ((h ++ dot ∷ p) ++ dot ∷ s) ≡ h ∷ p ∷ s ∷ []
split_token h p s hh hp hs =
    ap split_dots (append_assoc h (dot ∷ p) (dot ∷ s))
    ∙ split_dots-append h (p ++ dot ∷ s) hh
    ∙ ap (λ t. h ∷ t) (split_dots-append p s hp)
    ∙ ap (λ t. h ∷ p ∷ t) (split_dots_whole s hs)

-- `strings.Join(parts, ".")`
abbrev pub join_dots : List Text → Text
join_dots [] = []
join_dots (s ∷ []) = s
join_dots (s ∷ t ∷ ss) = s ++ dot ∷ join_dots (t ∷ ss)

join-onto_first :
    (c : ℕ) (ss : List Text) → is_empty ss ≡ false → join_dots (onto_first c ss) ≡ c ∷ join_dots ss
join-onto_first c [] h = cc
join-onto_first c (s ∷ []) h = refl
join-onto_first c (s ∷ t ∷ ss) h = refl

split_dots_parts : (s : Text) → is_empty (split_dots s) ≡ false
unfolding split_dots
split_dots_parts [] = refl
split_dots_parts (c ∷ s) = elim (Bool-cases (nat_eq c dot)) [
  | inl stop ↦ rw stop refl
  | inr other ↦ rw other (onto_first_parts (split_dots s) (split_dots_parts s))
]
  where
    onto_first_parts : (ss : List Text) → is_empty ss ≡ false → is_empty (onto_first c ss) ≡ false
    onto_first_parts [] h = h
    onto_first_parts (s ∷ ss) h = refl

join-stop : (ss : List Text) → is_empty ss ≡ false → join_dots ([] ∷ ss) ≡ dot ∷ join_dots ss
join-stop [] h = cc
join-stop (s ∷ ss) h = refl

pub join_dots-split_dots : (s : Text) → join_dots (split_dots s) ≡ s
unfolding split_dots
join_dots-split_dots [] = refl
join_dots-split_dots (c ∷ s) = elim (Bool-cases (nat_eq c dot)) [
  | inl stop ↦
      rw (stop, join-stop (split_dots s) (split_dots_parts s), join_dots-split_dots s)
        (ap (λ d. d ∷ s) (sym ((nat_eq_iff c dot).0 stop)))
  | inr other ↦
      rw (other, join-onto_first c (split_dots s) (split_dots_parts s), join_dots-split_dots s) refl
]
