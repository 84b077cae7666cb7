-- ===== src/Authz/Resolve/Spec.antt =====
-- Inheritance as a relation, and the roles that a user holds effectively.
use libauth.Prelude.{◌≡◌, true, false, List, []}
use libauth.Text.{Text, ◌==◌, contains}
use libauth.Model.{Role}
use libauth.Errors.{ok}
use libauth.Store.{MemoryStore, get_role}

-- `Inherits s a c`: from `a`, parent links of the stored roles lead to `c`, in any number of steps.
pub data Inherits (s : MemoryStore) (a : Text) : Text → Type 0 where
  itself : Inherits s a a
  up :
      {b c : Text} (r : Role)
      → Inherits s a b
      → get_role s b ≡ ok r
      → r.parent ≡ c
      → (c == []) ≡ false
      → Inherits s a c

abbrev pub Holds : MemoryStore → List Text → Text → Type 0
Holds s roles x = (a : Text) × (contains roles a ≡ true) × Inherits s a x
