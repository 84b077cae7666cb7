-- ===== src/Prelude/Sorting.antt =====
-- `sort.Slice(s, less)` as an insertion sort. Where `less` orders the elements strictly and no two
-- of them tie, every sorting algorithm returns the same slice.
use mathlib.Core.Path.{◌≡◌, refl}
use mathlib.Core.Bool.{Bool, true, false, ◌||◌}
use mathlib.Core.List.{List, [], ◌∷◌, Perm}
use mathlib.Core.List.Perm
use native.Mathlib.Omega.{arith}
use libauth.Prelude.Tests.{if◌then◌else◌, Bool-cases}
use libauth.Prelude.Lists.{any, All}
use mathlib.Core.Logic.{inl, inr}

module _ {ℓ} {A : Type ℓ} (less : A → A → Bool) where
  unfoldable pub insert : A → List A → List A
  insert x [] = x ∷ []
  insert x (y ∷ ys) = if less y x then y ∷ insert x ys else x ∷ y ∷ ys

  unfoldable pub sort : List A → List A
  unfolding insert
  sort [] = []
  sort (x ∷ xs) = insert x (sort xs)

  -- No element is less than the one before it.
  abbrev pub IsSorted : List A → Type 0
  IsSorted [] = Unit
  IsSorted (x ∷ []) = Unit
  IsSorted (x ∷ y ∷ ys) = (less y x ≡ false) × IsSorted (y ∷ ys)

  insert-perm : (x : A) (ys : List A) → Perm (insert x ys) (x ∷ ys)
  unfolding insert
  insert-perm x [] = Perm.refl (x ∷ [])
  insert-perm x (y ∷ ys) = elim (Bool-cases (less y x)) [
    | inl e ↦ rw e (Perm.trans (Perm.cons y (insert-perm x ys)) (Perm.swap x y ys))
    | inr e ↦ rw e (Perm.refl (x ∷ y ∷ ys))
  ]

  pub sort-perm : (xs : List A) → Perm (sort xs) xs
  unfolding sort
  sort-perm [] = Perm.refl []
  sort-perm (x ∷ xs) = Perm.trans (insert-perm x (sort xs)) (Perm.cons x (sort-perm xs))

  any-insert : (p : A → Bool) (x : A) (ys : List A) → any p (insert x ys) ≡ (p x || any p ys)
  unfolding insert
  any-insert p x [] = refl
  any-insert p x (y ∷ ys) = ground (arith, any-insert p x ys)

  pub any-sort : (p : A → Bool) (xs : List A) → any p (sort xs) ≡ any p xs
  unfolding sort
  any-sort p [] = refl
  any-sort p (x ∷ xs) = ground (arith, any-insert p x (sort xs), any-sort p xs)

  module _ (asym : (x y : A) → less x y ≡ true → less y x ≡ false) where
    insert-IsSorted : (x : A) (ys : List A) → IsSorted ys → IsSorted (insert x ys)
    unfolding insert
    insert-IsSorted x [] h = tt
    insert-IsSorted x (y ∷ []) h = ground (arith, asym y x)
    insert-IsSorted x (y ∷ z ∷ zs) h =
        ground (arith, asym y x, asym z x, insert-IsSorted x (z ∷ zs) h.1)

    pub sort-IsSorted : (xs : List A) → IsSorted (sort xs)
    unfolding sort
    sort-IsSorted [] = tt
    sort-IsSorted (x ∷ xs) = insert-IsSorted x (sort xs) (sort-IsSorted xs)

module _ {ℓ} {A : Type ℓ} (same : A → A → Bool) where
  -- No element is the same as a later one.
  abbrev pub Distinct : List A → Type 0
  Distinct [] = Unit
  Distinct (x ∷ xs) = (any (λ y. same y x) xs ≡ false) × Distinct xs

  module _ (less : A → A → Bool) (symmetric : (x y : A) → same x y ≡ same y x) where
    insert-Distinct :
        (x : A) (ys : List A)
        → any (λ y. same y x) ys ≡ false
        → Distinct ys
        → Distinct (insert less x ys)
    unfolding insert
    insert-Distinct x [] n d = (refl, tt)
    insert-Distinct x (y ∷ ys) n d = ground (
      arith,
      any-insert less (λ z. same z y) x ys,
      symmetric x y,
      insert-Distinct x ys (ground arith) d.1,
    )

    pub sort-Distinct : (xs : List A) → Distinct xs → Distinct (sort less xs)
    unfolding sort
    sort-Distinct [] d = tt
    sort-Distinct (x ∷ xs) d =
        insert-Distinct x (sort less xs) (rw (any-sort less (λ y. same y x) xs) d.0)
          (sort-Distinct xs d.1)

module _ {ℓ κ} {A : Type ℓ} (P : A → Type κ) (less : A → A → Bool) where
  insert-All : (x : A) (ys : List A) → P x → All P ys → All P (insert less x ys)
  unfolding insert
  insert-All x [] p h = (p, tt)
  insert-All x (y ∷ ys) p (q, h) = elim (Bool-cases (less y x)) [
    | inl e ↦ rw e (q, insert-All x ys p h)
    | inr e ↦ rw e (p, (q, h))
  ]

  pub sort-All : (xs : List A) → All P xs → All P (sort less xs)
  unfolding sort
  sort-All [] h = tt
  sort-All (x ∷ xs) (p, h) = insert-All x (sort less xs) p (sort-All xs h)

  All-insert : (x : A) (ys : List A) → All P (insert less x ys) → P x × All P ys
  unfolding insert
  All-insert x [] h = h
  All-insert x (y ∷ ys) h = elim (Bool-cases (less y x)) [
    | inl e ↦
        let (q, k) : P y × All P (insert less x ys) = rw e at h in
        let (p, rest) = All-insert x ys k in (p, (q, rest))
    | inr e ↦ rw e at h
  ]

  pub All-sort : (xs : List A) → All P (sort less xs) → All P xs
  unfolding sort
  All-sort [] h = tt
  All-sort (x ∷ xs) h = let (p, rest) = All-insert x (sort less xs) h in (p, All-sort xs rest)
