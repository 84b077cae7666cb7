-- ===== src/Dict.antt =====
-- Go's `map` with string keys, and `map[string]struct{}` as a set. The entries are in the order of
-- first insertion; Go's own order of iteration is not specified, and no theorem depends on it.
pub mod Laws
use libauth.Prelude.{Bool, Option, none, some, List, [], ◌∷◌, map, is_some, if◌then◌else◌}
use libauth.Text.{Text, ◌==◌}

abbrev pub Dict {ℓ} : Type ℓ → Type ℓ
Dict V = List (Text × V)

module _ {ℓ} {V : Type ℓ} where
  abbrev pub empty : Dict V
  empty = []

  -- `v, ok := m[k]`
  unfoldable pub get : Dict V → Text → Option V
  get [] k = none
  get ((j, v) ∷ m) k = if j == k then some v else get m k

  -- `m[k] = v`
  unfoldable pub put : Dict V → Text → V → Dict V
  put [] k v = (k, v) ∷ []
  put ((j, w) ∷ m) k v = if j == k then (j, v) ∷ m else (j, w) ∷ put m k v

  -- `delete(m, k)`
  unfoldable pub remove : Dict V → Text → Dict V
  remove [] k = []
  remove ((j, w) ∷ m) k = let rest = remove m k in if j == k then rest else (j, w) ∷ rest

  -- `_, ok := m[k]`
  abbrev pub has_key : Dict V → Text → Bool
  has_key m k = is_some (get m k)

  -- `for k := range m`
  unfoldable pub keys : Dict V → List Text
  keys [] = []
  keys ((j, v) ∷ m) = j ∷ keys m

  -- `for _, v := range m`
  unfoldable pub values : Dict V → List V
  values [] = []
  values ((j, v) ∷ m) = v ∷ values m

-- `map[string]struct{}`
abbrev pub Names : Type 0
Names = Dict (Unit {0})

-- `for _, r := range xs { set[r] = struct{}{} }`
unfoldable pub add_all : Names → List Text → Names
add_all set [] = set
add_all set (x ∷ xs) = add_all (put set x tt) xs
