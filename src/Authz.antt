-- ===== src/Authz.antt =====
-- authz/authz.go: the enforcer, its caches and their invalidation.
pub mod Exec
pub mod Granted
pub mod Resolve
pub mod Validate
pub mod Cache
pub mod Check
pub mod Users
pub mod Roles
pub mod Indexes
pub mod Fresh
pub mod Race
pub mod Coherent
pub mod Invariant
pub mod Outcome
pub mod History
use libauth.Prelude.{
  ℕ, zero, suc, Bool, true, false, Option, none, some, List, [], ◌∷◌, if◌then◌else◌,
}
use libauth.Prelude.Int.{ℤ, pos, negsuc}
use libauth.Text.{Text, ◌==◌}
use libauth.Dict.{Dict, Names, get, put, remove, has_key, keys, add_all}
use libauth.Model.{Permission, star}
use libauth.Store.{MemoryStore, new_memory_store}

-- `grantedSet`: the actions granted on each resource.
pub record GrantedSet : Type 0 where
  pub by_resource : Dict Names

abbrev pub no_grants : GrantedSet
no_grants = record { by_resource = [] }

-- The inner map of a key, made when it is missing.
abbrev pub names_at : Dict Names → Text → Names
names_at m k = elim (get m k) [ none ↦ [] | some names ↦ names ]

-- `add`
unfoldable pub add : GrantedSet → Permission → GrantedSet
add g p = record {
  by_resource = put g.by_resource p.resource (put (names_at g.by_resource p.resource) p.action tt);
}

-- `for _, p := range ps { set.add(p) }`
unfoldable pub add_permissions : GrantedSet → List Permission → GrantedSet
add_permissions g [] = g
add_permissions g (p ∷ ps) = add_permissions (add g p) ps

-- `has`
unfoldable pub has : GrantedSet → Permission → Bool
has g required =
    if has_key g.by_resource star then true else elim (get g.by_resource required.resource) [
      | none ↦ false
      | some actions ↦ if has_key actions star then true else has_key actions required.action
    ]

pub record Enforcer : Type 0 where
  pub store : MemoryStore
  pub max_depth : ℕ
  pub cache : Dict GrantedSet
  pub role_holders : Dict Names
  pub direct_roles : Dict Names

abbrev pub default_max_depth : ℕ
default_max_depth = 32

-- `Option`: `WithStore` and `WithMaxDepth`.
pub data Setting : Type 0 where
  with_store : MemoryStore → Setting
  with_max_depth : ℤ → Setting

unfoldable pub apply : Setting → Enforcer → Enforcer
apply (with_store s) e = record e { store = s }
apply (with_max_depth (pos zero)) e = e
apply (with_max_depth (pos (suc n))) e = record e { max_depth = suc n }
apply (with_max_depth (negsuc n)) e = e

apply_all : List Setting → Enforcer → Enforcer
apply_all [] e = e
apply_all (opt ∷ opts) e = apply_all opts (apply opt e)

unfoldable pub new : List Setting → Enforcer
unfolding apply apply_all
new opts = apply_all opts (record {
  store = new_memory_store;
  max_depth = default_max_depth;
  cache = [];
  role_holders = [];
  direct_roles = [];
})

-- Each of the writes below happens under the lock of the caches.
abbrev pub invalidate_user : Text → Enforcer → Enforcer
invalidate_user id e = record e { cache = remove e.cache id }

-- `for uid := range … { delete(m, uid) }`
unfoldable pub remove_all {ℓ} : {V : Type ℓ} → Dict V → List Text → Dict V
remove_all m [] = m
remove_all m (k ∷ ks) = remove_all (remove m k) ks

abbrev pub invalidate_role_holders : Text → Enforcer → Enforcer
invalidate_role_holders role e = record e {
  cache = remove_all e.cache (keys (names_at e.role_holders role));
}

-- `roleHolders` with `uid` among the holders of `role`, or no longer among them.
unfoldable pub with_holder : Dict Names → Text → Text → Dict Names
with_holder m uid role = put m role (put (names_at m role) uid tt)

unfoldable pub without_holder : Dict Names → Text → Text → Dict Names
without_holder m uid role = elim (get m role) [
  | none ↦ m
  | some holders ↦ put m role (remove holders uid)
]

abbrev pub grant_holder : Text → Text → Enforcer → Enforcer
grant_holder uid role e = record e { role_holders = with_holder e.role_holders uid role }

abbrev pub revoke_holder : Text → Text → Enforcer → Enforcer
revoke_holder uid role e = record e { role_holders = without_holder e.role_holders uid role }

-- `directRoles` with the set of `uid` replaced; no role means no entry.
unfoldable pub with_roles : Dict Names → Text → List Text → Dict Names
with_roles m uid [] = remove m uid
with_roles m uid (r ∷ rs) = put m uid (add_all [] (r ∷ rs))

abbrev pub set_direct_roles : Text → List Text → Enforcer → Enforcer
set_direct_roles uid roles e = record e { direct_roles = with_roles e.direct_roles uid roles }
