-- ===== src/Demos/FileStore/Kept.antt =====
-- The records of a store as lists by name (store/memory.go, for _examples/customstore/main.go).
use libauth.Prelude.{
  ap, sym, ◌∙◌, All, Option, none, some, List, [], ◌∷◌, ◌≡◌, refl, Bool, false, arith,
  if◌then◌else◌, Bool-cases, inl, inr,
}
use libauth.Prelude.Sorting.{insert, sort}
use libauth.Text.{eq→path, Text, ◌==◌, eq_iff}
use libauth.Dict.{Dict, get, put, remove, has_key, values}
use libauth.Dict.Laws.{get-put, get-remove}
use mathlib.Core.Path.{fun_ext}

module _ {V : Type 0} (name : V → Text) where
  -- The first record of the name.
  abbrev find : List V → Text → Option V
  find [] k = none
  find (v ∷ vs) k = if name v == k then some v else find vs k

  abbrev AreDistinct : List V → Type 0
  AreDistinct [] = Unit
  AreDistinct (v ∷ vs) = (find vs (name v) ≡ none) × AreDistinct vs

  -- Each record that has the name of none before it is put.
  abbrev pub put_new : Dict V → List V → Dict V
  put_new m [] = m
  put_new m (v ∷ vs) = put_new (if has_key m (name v) then m else put m (name v) v) vs

  get-put_new :
      (m : Dict V) (vs : List V) (k : Text)
      → get (put_new m vs) k ≡ (if has_key m k then get m k else find vs k)
  get-put_new m [] k = ground arith
  get-put_new m (v ∷ vs) k = elim (Bool-cases (has_key m (name v))) [
    | inl old ↦ ground (arith, old, get-put_new m vs k, eq_iff (name v) k)
    | inr fresh ↦ ground (
      arith,
      fresh,
      get-put_new (put m (name v) v) vs k,
      get-put m (name v) v k,
      eq_iff (name v) k,
    )
  ]

  module _ (less : V → V → Bool) where
    find-insert :
        (v : V) (vs : List V) (k : Text)
        → find vs (name v) ≡ none
        → find (insert less v vs) k ≡ (if name v == k then some v else find vs k)
    unfolding insert
    find-insert v [] k h = refl
    find-insert v (w ∷ vs) k h = ground (
      arith,
      h,
      eq_iff (name v) k,
      eq_iff (name w) k,
      eq_iff (name w) (name v),
      find-insert v vs k,
    )

    find-sort : (vs : List V) (k : Text) → AreDistinct vs → find (sort less vs) k ≡ find vs k
    unfolding sort
    find-sort [] k d = refl
    find-sort (v ∷ vs) k d =
        find-insert v (sort less vs) k (find-sort vs (name v) d.1 ∙ d.0)
        ∙ ap (λ o. if name v == k then some v else o) (find-sort vs k d.1)

  module _ (P : V → Type 0) where
    -- Each name stands once, is not empty, and is that of its record, of which `P` holds.
    abbrev pub IsKept : Dict V → Type 0
    IsKept [] = Unit
    IsKept ((k, v) ∷ m) = (name v ≡ k) × ((k == []) ≡ false) × (get m k ≡ none) × P v × IsKept m

    find-values : (m : Dict V) (k : Text) → IsKept m → find (values m) k ≡ get m k
    unfolding values get
    find-values [] k h = refl
    find-values ((j, v) ∷ m) k (named, _, _, _, h) = rw (named, find-values m k h) refl

    values-AreDistinct : (m : Dict V) → IsKept m → AreDistinct (values m)
    unfolding values
    values-AreDistinct [] h = tt
    values-AreDistinct ((j, v) ∷ m) (named, _, once, _, h) =
        (rw (named) (find-values m j h ∙ once), values-AreDistinct m h)

    -- What holds of each record, and that its name is not empty.
    abbrev pub IsGood : V → Type 0
    IsGood v = ((name v == []) ≡ false) × P v

    pub values-All : (m : Dict V) → IsKept m → All IsGood (values m)
    unfolding values
    values-All [] h = tt
    values-All ((j, v) ∷ m) (named, some_name, _, p, h) = ((rw named some_name, p), values-All m h)

    pub put-IsKept :
        (m : Dict V) (v : V) → IsKept m → (name v == []) ≡ false → P v → IsKept (put m (name v) v)
    unfolding put get
    put-IsKept [] v h some_name p = (refl, some_name, refl, p, tt)
    put-IsKept ((j, w) ∷ m) v (named, other_name, once, q, h) some_name p =
        elim (Bool-cases (j == name v)) [
          | inl here ↦ rw (here) (sym (eq→path j (name v) here), other_name, once, p, h)
          | inr there ↦ rw (there) (
            named,
            other_name,
            ground
                (arith, once, get-put m (name v) v j, eq_iff (name v) j, eq_iff j (name v), there),
            q,
            put-IsKept m v h some_name p,
          )
        ]

    pub remove-IsKept : (m : Dict V) (k : Text) → IsKept m → IsKept (remove m k)
    unfolding remove get
    remove-IsKept [] k h = tt
    remove-IsKept ((j, w) ∷ m) k (named, other_name, once, q, h) = elim (Bool-cases (j == k)) [
      | inl here ↦ rw here (remove-IsKept m k h)
      | inr there ↦
          rw there
            (named, other_name, ground (arith, once, get-remove m k j), q, remove-IsKept m k h)
    ]

-- A map is filled again from the listing of its records.
pub sorted_again :
    {V : Type 0} (name : V → Text) (P : V → Type 0) (less : V → V → Bool) (m : Dict V)
    → IsKept name P m
    → get (put_new name [] (sort less (values m))) ≡ get m
unfolding get
sorted_again name P less m h = fun_ext λ k.
    get-put_new name [] (sort less (values m)) k
    ∙ find-sort name less (values m) k (values-AreDistinct name P m h)
    ∙ find-values name P m k h
