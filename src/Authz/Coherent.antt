-- ===== src/Authz/Coherent.antt =====
-- When the cached granted sets (authz/authz.go) are right.
pub mod Entitled
pub mod Answers
pub mod Users
pub mod Roles
pub mod Changes
pub mod Children
pub mod Detaching
pub mod RoleDeletion
pub mod Queries
pub mod Reads
use libauth.Authz.Fresh.{IsEntitled}
use libauth.Authz.{has, GrantedSet, Enforcer}
use libauth.Text.{Text}
use libauth.Dict.{has_key, get}
use libauth.Prelude.{◌↔◌, true, some, ◌≡◌}
use libauth.Model.{Permission, User}

-- Every cached set belongs to a stored user, and covers exactly what the user is entitled to.
pub record IsCoherent (e : Enforcer) : Type 0 where
  pub stored :
      (j : Text) (set : GrantedSet) → get e.cache j ≡ some set → has_key e.store.users j ≡ true
  pub exact :
      (j : Text) (set : GrantedSet) (u : User) (q : Permission)
      → get e.cache j ≡ some set
      → get e.store.users j ≡ some u
      → (has set q ≡ true) ↔ IsEntitled e.store u q
