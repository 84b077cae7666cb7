-- ===== src/Authz/Validate/Spec.antt =====
-- Chains of parents that end, and what a chain must avoid.
use libauth.Prelude.{ℕ, suc, ◌≡◌, true, false, []}
use libauth.Text.{Text, ◌==◌}
use libauth.Model.{Role}
use libauth.Errors.{ok, err, role_not_found}
use libauth.Store.{MemoryStore, get_role}

-- The chain of parents from a name ends: at the empty name, or at a name that is not stored.
pub data Ends (s : MemoryStore) : Text → Type 0 where
  root : {n : Text} → (n == []) ≡ true → Ends s n
  missing : {n : Text} → get_role s n ≡ err role_not_found → Ends s n
  next : {n : Text} (r : Role) → get_role s n ≡ ok r → Ends s r.parent → Ends s n

-- No chain of parents runs forever.
pub record IsAcyclic (s : MemoryStore) : Type 0 where
  pub ends : (n : Text) → Ends s n

-- The chain from a name ends within so many roles, and `self` is not on it.
pub data Clear (s : MemoryStore) (self : Text) : ℕ → Text → Type 0 where
  root : {k : ℕ} {n : Text} → (n == []) ≡ true → Clear s self k n
  missing :
      {k : ℕ} {n : Text}
      → (n == self) ≡ false
      → get_role s n ≡ err role_not_found
      → Clear s self (suc k) n
  next :
      {k : ℕ} {n : Text} (r : Role)
      → (n == self) ≡ false
      → get_role s n ≡ ok r
      → Clear s self k r.parent
      → Clear s self (suc k) n
