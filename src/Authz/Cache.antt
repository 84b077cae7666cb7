-- ===== src/Authz/Cache.antt =====
-- authz/authz.go: the lookups that fill the caches.
use libauth.Prelude.{Option, none, some, List, [], ◌∷◌}
use libauth.Text.{Text}
use libauth.Dict.{Dict, Names, get, put, add_all}
use libauth.Model.{User, Role}
use libauth.Errors.{Result, ok, err, role_not_found}
use libauth.Errors
use libauth.Store.{MemoryStore, get_user, get_role}
use libauth.Authz.{GrantedSet, no_grants, add_permissions, Enforcer}
use libauth.Authz.Exec.{Exec, pure, read, modify, ◌>>=◌, ◌>>◌}
use libauth.Authz.Resolve.{resolve_roles}

-- `if _, ok := e.directRoles[uid]; !ok { … }`
unfoldable pub filled : Dict Names → Text → List Text → Dict Names
filled m uid roles = elim (get m uid) [ none ↦ put m uid (add_all [] roles) | some set ↦ m ]

abbrev pub fill_direct_roles : Text → List Text → Enforcer → Enforcer
fill_direct_roles uid roles e = record e { direct_roles = filled e.direct_roles uid roles }

abbrev pub or_empty : Option Names → Names
or_empty none = []
or_empty (some set) = set

-- `directRolesOf`: the cached set, or the store's roles, which are then cached.
unfoldable pub direct_roles_of : Text → Exec Names
direct_roles_of uid e = elim (get e.direct_roles uid) [
  | some set ↦ (ok set, e)
  | none ↦
      (do
        u ← read (λ s. get_user s uid)
        modify (fill_direct_roles uid u.roles)
        λ e'. (ok (or_empty (get e'.direct_roles uid)), e'))
        e
]

-- The grants of one role of the chain; a role that is not stored grants nothing.
unfoldable pub add_role : Result Role → GrantedSet → Result GrantedSet
add_role (ok role) g = ok (add_permissions g role.permissions)
add_role (err role_not_found) g = ok g
add_role (err e) g = err e

unfoldable pub add_roles : MemoryStore → List Text → GrantedSet → Result GrantedSet
add_roles s [] g = ok g
add_roles s (name ∷ names) g =
    Errors.◌>>=◌ (add_role (get_role s name) g) (λ g'. add_roles s names g')

-- `if existing, ok := e.cache[u.ID]; ok { set = existing } else { e.cache[u.ID] = set }`
unfoldable pub kept : Dict GrantedSet → Text → GrantedSet → GrantedSet
kept m uid g = elim (get m uid) [ none ↦ g | some existing ↦ existing ]

abbrev pub keep_or_cache : Text → GrantedSet → Exec GrantedSet
keep_or_cache uid g e =
    (ok (kept e.cache uid g), record e { cache = put e.cache uid (kept e.cache uid g) })

-- `computeAndCache`
unfoldable pub compute_and_cache : User → Exec (GrantedSet × List Text)
compute_and_cache u = do
  roles ← read (λ s. resolve_roles s u)
  granted ← read (λ s. add_roles s roles no_grants)
  set ← keep_or_cache u.id (add_permissions granted u.direct)
  modify (fill_direct_roles u.id u.roles)
  pure (set, roles)

-- On a hit the chain is resolved again, for the error report only; a failure leaves the user's
-- direct roles there.
abbrev chain_or : List Text → Result (List Text) → List Text
chain_or direct (ok roles) = roles
chain_or direct (err e) = direct

-- `getGrantedSetFull`
unfoldable pub get_granted_set_full : Text → Exec (GrantedSet × User × List Text)
get_granted_set_full uid e = elim (get e.cache uid) [
  | some set ↦
      (do
        u ← read (λ s. get_user s uid)
        λ e'. (ok (set, u, chain_or u.roles (resolve_roles e'.store u)), e'))
        e
  | none ↦
      (do
        u ← read (λ s. get_user s uid)
        computed ← compute_and_cache u
        pure (computed.0, u, computed.1))
        e
]

-- `getGrantedSet`
unfoldable pub get_granted_set : Text → Exec GrantedSet
get_granted_set uid = do full ← get_granted_set_full uid; pure full.0
