-- ===== src/Jwt/Typ.antt =====
-- `typIsJWT` (jwt/jwt.go): which values of `typ` a header may have.
use libauth.Text.{reverse-snoc, eq_iff, ◌==◌, codes, Text, reverse}
use libauth.Prelude.{
  sym, ◌∙◌, ◌&&◌, Bool-cases, nat_eq, none, true, inl, arith, ◌≤◌, ◌<◌, refl, zero, ◌↔◌, inr, ap,
  suc, false, [], drop, ◌⊎◌, ◌∷◌, ◌++◌, take, ◌≡◌, ℕ,
}
use libauth.Jwt.Header.{
  trim_space, typ_is_jwt, past_space_reversed, past_space, trim_prefix, lower, to_lower,
}
use libauth.Jwt.Spaces.{IsSpaces}
use libauth.Jwt.Trimmed.{trim_space-around, trim_space-split}
use mathlib.Core.Path.{subst}

-- "JWT", alone or behind "application/", in any case of its letters.
abbrev pub NamesJwt : Text → Type 0
NamesJwt word = (to_lower word ≡ codes "jwt") ⊎ (to_lower word ≡ codes "application/jwt")

take-append-drop : (n : ℕ) (s : Text) → take n s ++ drop n s ≡ s
take-append-drop zero s = refl
take-append-drop (suc n) [] = refl
take-append-drop (suc n) (c ∷ s) = ap (λ t. c ∷ t) (take-append-drop n s)

-- A byte of ASCII that is seen is no white space, and part of none.
abbrev IsSeen : ℕ → Type 0
IsSeen c = (32 < c) × (c < 127)

past_space-seen : (c : ℕ) (s : Text) → IsSeen c → past_space (c ∷ s) ≡ none
past_space-seen c [] (low, high) = ground (arith, low, high)
past_space-seen c (d ∷ []) (low, high) = ground (arith, low, high)
past_space-seen c (d ∷ e ∷ s) (low, high) = ground (arith, low, high)

past_space_reversed-seen : (c : ℕ) (s : Text) → IsSeen c → past_space_reversed (c ∷ s) ≡ none
past_space_reversed-seen c [] (low, high) = ground (arith, low, high)
past_space_reversed-seen c (d ∷ []) (low, high) = ground (arith, low, high)
past_space_reversed-seen c (d ∷ e ∷ s) (low, high) = ground (arith, low, high)

-- A letter of ASCII, but for the i.
abbrev IsPlain : ℕ → Type 0
IsPlain l = (97 ≤ l) × (l ≤ 122) × (nat_eq l 105 ≡ false)

lower-IsSeen : (c l : ℕ) → lower c ≡ l → IsPlain l → IsSeen c
lower-IsSeen c l e (low, high, _) = ground (arith, low, high, e)

abbrev first_or : ℕ → Text → ℕ
first_or a [] = a
first_or a (c ∷ s) = c

abbrev last_or : ℕ → Text → ℕ
last_or a [] = a
last_or a (c ∷ s) = last_or c s

lower_pair :
    (c d : ℕ) (s : Text)
    → (nat_eq c 196 && nat_eq d 176) ≡ true
    → to_lower (c ∷ d ∷ s) ≡ 105 ∷ to_lower s
unfolding to_lower
lower_pair c d s pair = rw (to_lower, pair) refl

lower_other :
    (c d : ℕ) (s : Text)
    → (nat_eq c 196 && nat_eq d 176) ≡ false
    → to_lower (c ∷ d ∷ s) ≡ lower c ∷ to_lower (d ∷ s)
unfolding to_lower
lower_other c d s other = rw (to_lower, other) refl

first-IsSeen :
    (word : Text)
    → IsPlain (first_or 0 (to_lower word))
    → (c : ℕ) × (s : Text) × (word ≡ c ∷ s) × IsSeen c
unfolding to_lower
first-IsSeen [] h = absurd (omega (arith, h.0))
first-IsSeen (c ∷ []) h = (c, [], refl, lower-IsSeen c (lower c) refl h)
first-IsSeen (c ∷ d ∷ s) h = elim (Bool-cases (nat_eq c 196 && nat_eq d 176)) [
  | inl pair ↦ absurd (cc ((subst (λ v. IsPlain (first_or 0 v)) (lower_pair c d s pair) h).2))
  | inr other ↦ (
    c,
    d ∷ s,
    refl,
    lower-IsSeen c (lower c) refl (subst (λ v. IsPlain (first_or 0 v)) (lower_other c d s other) h),
  )
]

last-IsSeen :
    (a : ℕ) (word : Text)
    → IsPlain (last_or a (to_lower word))
    → ((word ≡ []) × IsPlain a) ⊎ ((s : Text) × (c : ℕ) × (word ≡ s ++ c ∷ []) × IsSeen c)
unfolding to_lower
last-IsSeen a [] h = inl (refl, h)
last-IsSeen a (c ∷ []) h = inr ([], c, refl, lower-IsSeen c (lower c) refl h)
last-IsSeen a (c ∷ d ∷ s) h = elim (Bool-cases (nat_eq c 196 && nat_eq d 176)) [
  | inl pair ↦
      elim (last-IsSeen 105 s (subst (λ v. IsPlain (last_or a v)) (lower_pair c d s pair) h)) [
        | inl (_, i) ↦ absurd (cc i.2)
        | inr (t, x, e, seen) ↦ inr (c ∷ d ∷ t, x, ap (λ v. c ∷ d ∷ v) e, seen)
      ]
  | inr other ↦
      elim (last-IsSeen (lower c) (d ∷ s)
        (subst (λ v. IsPlain (last_or a v)) (lower_other c d s other) h)) [
          | inl (e, _) ↦ absurd (cc e)
          | inr (t, x, e, seen) ↦ inr (c ∷ t, x, ap (λ v. c ∷ v) e, seen)
        ]
]

-- What names the type is not trimmed.
begins_seen : (word back : Text) → NamesJwt word → past_space (word ++ back) ≡ none
begins_seen word back h =
    let (c, s, e, seen) = first-IsSeen word (plain h) in
    ap (λ v. past_space (v ++ back)) e ∙ past_space-seen c (s ++ back) seen
  where
    plain : NamesJwt word → IsPlain (first_or 0 (to_lower word))
    plain (inl k) = rw k (omega arith, omega arith, refl)
    plain (inr k) = rw k (omega arith, omega arith, refl)

ends_seen : (word : Text) → NamesJwt word → past_space_reversed (reverse word) ≡ none
ends_seen word h = elim (last-IsSeen 0 word (plain h)) [
  | inl (_, i) ↦ absurd (omega (arith, i.0))
  | inr (s, c, e, seen) ↦
      ap (λ v. past_space_reversed (reverse v)) e
      ∙ ap past_space_reversed (reverse-snoc s c)
      ∙ past_space_reversed-seen c (reverse s) seen
]
  where
    plain : NamesJwt word → IsPlain (last_or 0 (to_lower word))
    plain (inl k) = rw k (omega arith, omega arith, refl)
    plain (inr k) = rw k (omega arith, omega arith, refl)

named :
    (w : Text)
    → (trim_prefix w (codes "application/") == codes "jwt") ≡ true
    → (w ≡ codes "jwt") ⊎ (w ≡ codes "application/jwt")
named w h = elim (Bool-cases (take 12 w == codes "application/")) [
  | inl long ↦
      let rest : drop 12 w ≡ codes "jwt" = (eq_iff (drop 12 w) (codes "jwt")).0 (rw long at h) in
      let start : take 12 w ≡ codes "application/" =
        (eq_iff (take 12 w) (codes "application/")).0 long in
      inr (
        sym (take-append-drop 12 w)
        ∙ ap (λ v. v ++ drop 12 w) start
        ∙ ap (λ v. codes "application/" ++ v) rest)
  | inr short ↦ inl ((eq_iff w (codes "jwt")).0 (rw short at h))
]

names :
    (w : Text)
    → (w ≡ codes "jwt") ⊎ (w ≡ codes "application/jwt")
    → (trim_prefix w (codes "application/") == codes "jwt") ≡ true
unfolding ◌==◌
names w (inl e) = rw e refl
names w (inr e) = rw e refl

-- `typIsJWT` accepts exactly the texts that are white space, then "jwt" or "application/jwt" in any
-- case, then white space, of any length each.
pub typ_is_jwt_lem :
    (typ : Text)
    → (typ_is_jwt typ ≡ true) ↔ (
        (front word back : Text) × (typ ≡ front ++ (word ++ back))
        × IsSpaces front
        × IsSpaces back
        × NamesJwt word)
unfolding typ_is_jwt
typ_is_jwt_lem typ = (
  λ h.
      let (front, back, split, before, after) = trim_space-split typ in
      (front, trim_space typ, back, split, before, after, named (to_lower (trim_space typ)) h),
  λ (front, word, back, split, before, after, h).
      let trimmed : trim_space typ ≡ word =
        ap trim_space split
        ∙ trim_space-around front word back before after (begins_seen word back h)
            (ends_seen word h) in
      rw trimmed (names (to_lower word) h),
)
