-- ===== src/Dict/Laws.antt =====
-- The laws of the maps, in a form with no side condition.
use libauth.Prelude.{
  false, true, is_some, ◌&&◌, Option, not, Bool, ◌≡◌, refl, ◌||◌, none, some, List, [], ◌∷◌, arith,
  if◌then◌else◌,
}
use libauth.Text.{Text, ◌==◌, eq_iff, contains}
use libauth.Dict.{Dict, Names, get, put, remove, has_key, keys, add_all}

module _ {ℓ} {V : Type ℓ} where
  pub get-put :
      (m : Dict V) (k : Text) (v : V) (j : Text)
      → get (put m k v) j ≡ (if k == j then some v else get m j)
  unfolding get put
  get-put [] k v j = refl
  get-put ((i, w) ∷ m) k v j = ground (arith, get-put m k v j, eq_iff i k, eq_iff i j, eq_iff k j)

  pub get-remove :
      (m : Dict V) (k j : Text) → get (remove m k) j ≡ (if k == j then none else get m j)
  unfolding get remove
  get-remove [] k j = ground arith
  get-remove ((i, w) ∷ m) k j = ground (arith, get-remove m k j, eq_iff i k, eq_iff i j, eq_iff k j)

  pub contains-keys : (m : Dict V) (k : Text) → contains (keys m) k ≡ has_key m k
  unfolding get keys
  contains-keys [] k = refl
  contains-keys ((j, v) ∷ m) k = ground (arith, contains-keys m k)

pub has_key-add_all :
    (set : Names) (xs : List Text) (k : Text)
    → has_key (add_all set xs) k ≡ (has_key set k || contains xs k)
unfolding add_all
has_key-add_all set [] k = ground arith
has_key-add_all set (x ∷ xs) k =
    ground (arith, has_key-add_all (put set x tt) xs k, get-put set x tt k)

module _ {ℓ} {V : Type ℓ} where
  pub has_key-put :
      (m : Dict V) (k : Text) (v : V) (j : Text) → has_key (put m k v) j ≡ (k == j || has_key m j)
  has_key-put m k v j = rw (get-put m k v j) (if-is_some (k == j) (get m j) v)
    where
      if-is_some :
          (b : Bool) (o : Option V) (v : V) → is_some (if b then some v else o) ≡ (b || is_some o)
      if-is_some true o v = refl
      if-is_some false o v = refl

  pub has_key-remove :
      (m : Dict V) (k j : Text) → has_key (remove m k) j ≡ (not (k == j) && has_key m j)
  has_key-remove m k j = rw (get-remove m k j) (if-is_some (k == j) (get m j))
    where
      if-is_some :
          (b : Bool) (o : Option V) → is_some (if b then none else o) ≡ (not b && is_some o)
      if-is_some true o = refl
      if-is_some false o = refl
