-- ===== src/Model/Parsing.antt =====
-- `ParsePermission` against `String`.
use libauth.Prelude.{
  ℕ, zero, suc, ◌+◌, ◌-◌, ◌<◌, ◌≡◌, ◌≢◌, ◌⊎◌, inl, inr, Option-cases, refl, ap, true, false, none,
  some, [], ◌∷◌, ◌++◌, arith, nat_eq, length, length-append, take, drop, if◌then◌else◌,
}
use mathlib.Core.Path.{subst}
use libauth.Text.{Text, ◌==◌, eq_iff, index_byte}
use libauth.Model.{
  Permission, star, colon, parsed, refused, empty_action, split_at, parse_permission, to_string,
  marshal_text, unmarshal_text, valid,
}

-- No byte of the text is `b`.
abbrev pub Lacks : ℕ → Text → Type 0
Lacks b [] = Unit
Lacks b (c ∷ s) = (c ≢ b) × Lacks b s

index_byte-append : (r s : Text) (b : ℕ) → Lacks b r → index_byte (r ++ b ∷ s) b ≡ some (length r)
unfolding index_byte
index_byte-append [] s b h = ground arith
index_byte-append (c ∷ r) s b h = ground (arith, index_byte-append r s b h.1)

take-append : (r s : Text) → take (length r) (r ++ s) ≡ r
take-append [] s = refl
take-append (c ∷ r) s = ap (λ (t : Text). c ∷ t) (take-append r s)

drop-append : (r s : Text) (b : ℕ) → drop (suc (length r)) (r ++ b ∷ s) ≡ s
drop-append [] s b = refl
drop-append (c ∷ r) s b = drop-append r s b

-- The colon found is the first one, and the text is what stands before it, a colon, and the rest.
index_byte_sound :
    (s : Text) (b i : ℕ)
    → index_byte s b ≡ some i
    → (s ≡ take i s ++ b ∷ drop (suc i) s)
      × Lacks b (take i s)
      × (i < length s)
      × (length (take i s) ≡ i)
      × (suc i + length (drop (suc i) s) ≡ length s)
unfolding index_byte
index_byte_sound [] b i h = cc
index_byte_sound (c ∷ s) b zero h = ground (arith)
index_byte_sound (c ∷ s) b (suc i) h = ground (arith, index_byte_sound s b i)

append-ne-nil : (r a : Text) (c : ℕ) → (r ++ c ∷ a == []) ≡ false
unfolding ◌==◌
append-ne-nil [] a c = refl
append-ne-nil (d ∷ r) a c = refl

append-ne-star : (r a : Text) (c : ℕ) → (r == []) ≡ false → (r ++ c ∷ a == star) ≡ false
unfolding ◌==◌
append-ne-star [] a c h = cc
append-ne-star (d ∷ r) a c h = ground (arith, append-ne-nil r a c)

eq-nil : (t : Text) → (t == []) ≡ nat_eq (length t) 0
unfolding ◌==◌
eq-nil [] = refl
eq-nil (d ∷ t) = ground arith

-- A permission with a first field that is not empty and holds no colon, printed and parsed.
parse-to_string :
    (p : Permission)
    → (p.resource == []) ≡ false
    → Lacks colon p.resource
    → parse_permission (to_string p) ≡ (if p.action == [] then refused empty_action else parsed p)
unfolding parse_permission to_string
parse-to_string p ne lacks =
    rw
      (
        append-ne-nil p.resource p.action colon,
        append-ne-star p.resource p.action colon ne,
        index_byte-append p.resource p.action colon lacks,
      )
      (rw (drop-append p.resource p.action colon, take-append p.resource (colon ∷ p.action)) ground
        (arith, eq-nil p.resource, eq-nil p.action, length-append p.resource (colon ∷ p.action)))

split_at_sound :
    (s : Text) (i : ℕ) (p : Permission)
    → index_byte s colon ≡ some i
    → split_at s (some i) ≡ parsed p
    → (valid p ≡ true) × (s ≡ to_string p) × Lacks colon p.resource
unfolding split_at valid to_string
split_at_sound s i p e h =
    subst (λ q. (valid q ≡ true) × (s ≡ to_string q) × Lacks colon q.resource) (found.0)
      (
        ground (
          arith,
          eq-nil (take i s),
          eq-nil (drop (suc i) s),
          found.1,
          found.2,
          facts.2,
          facts.3,
          facts.4,
        ),
        facts.0,
        facts.1,
      )
  where
    facts :
        (s ≡ take i s ++ colon ∷ drop (suc i) s)
        × Lacks colon (take i s)
        × (i < length s)
        × (length (take i s) ≡ i)
        × (suc i + length (drop (suc i) s) ≡ length s)
    facts = index_byte_sound s colon i e

    found :
        (◌≡◌ {A = Permission} (record { resource = take i s; action = drop (suc i) s }) p)
        × (nat_eq i 0 ≡ false)
        × (nat_eq i (length s - 1) ≡ false)
    found = ground arith

-- A permission that was parsed is valid, and the text was either "*", for the bare wildcard, or the
-- permission printed, with no colon in the resource.
pub parse_sound :
    (s : Text) (p : Permission)
    → parse_permission s ≡ parsed p
    → (valid p ≡ true)
      × ((s ≡ star) × (p ≡ record { resource = star; action = [] })
          ⊎ (s ≡ to_string p) × Lacks colon p.resource)
unfolding parse_permission to_string valid
parse_sound s p h = elim (Option-cases (index_byte s colon)) [
  | inl e ↦ ground (arith, eq_iff s star)
  | inr (i, e) ↦ ground (arith, eq_iff s star, split_at_sound s i p e)
]

-- A valid permission whose resource holds no colon is read back from its text if its action is not
-- empty. With an empty action, which is valid for the wildcard resource, the text is refused with the
-- receiver unchanged.
pub unmarshal_text-marshal_text :
    (old p : Permission)
    → valid p ≡ true
    → Lacks colon p.resource
    → unmarshal_text old (marshal_text p)
      ≡ (if p.action == [] then (old, some empty_action) else (p, none))
unfolding unmarshal_text marshal_text valid
unmarshal_text-marshal_text old p v lacks = ground (arith, parse-to_string p (ground arith) lacks)
