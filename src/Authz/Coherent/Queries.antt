-- ===== src/Authz/Coherent/Queries.antt =====
-- The answers of `HasPermission`, `HasAllPermissions` and `HasAnyPermission` (authz/check.go).
use libauth.Authz.Check
use libauth.Prelude.{
  refl, Bool-cases, arith, Bool, any, all, some, ◌↔◌, ◌≡◌, ◌⊎◌, List, [], ◌∷◌, true, inl, inr,
}
use libauth.Store.{MemoryStore}
use libauth.Authz.Check.{has_any_permission, has_all_permissions}
use libauth.Authz.{has, GrantedSet, Enforcer}
use libauth.Model.{Permission, User}
use libauth.Authz.Cache.{get_granted_set_full, get_granted_set}
use libauth.Authz.Fresh.{IsEntitled}
use libauth.Text.{Text}
use libauth.Authz.Coherent.{IsCoherent}
use libauth.Dict.{get}
use libauth.Errors.{ok}
use libauth.Authz.Coherent.Answers.{answered, full_lem}

-- The user is entitled to each of the permissions, or to one of them.
abbrev pub IsEntitledToAll : MemoryStore → User → List Permission → Type 0
IsEntitledToAll s u [] = Unit
IsEntitledToAll s u (q ∷ qs) = IsEntitled s u q × IsEntitledToAll s u qs

abbrev pub IsEntitledToAny : MemoryStore → User → List Permission → Type 0
IsEntitledToAny s u [] = ⊥
IsEntitledToAny s u (q ∷ qs) = IsEntitled s u q ⊎ IsEntitledToAny s u qs

module _ (s : MemoryStore) (u : User) (set : GrantedSet)
    (exact : (q : Permission) → (has set q ≡ true) ↔ IsEntitled s u q) where
  all-has : (qs : List Permission) → (all (has set) qs ≡ true) ↔ IsEntitledToAll s u qs
  all-has [] = ((λ h. tt), (λ h. refl))
  all-has (q ∷ qs) = (
    (λ h. ((exact q).0 (ground (arith, h)), (all-has qs).0 (ground (arith, h)))),
    (λ h. ground (arith, (exact q).1 h.0, (all-has qs).1 h.1)),
  )

  any-has : (qs : List Permission) → (any (has set) qs ≡ true) ↔ IsEntitledToAny s u qs
  any-has [] = ((λ h. cc h), (λ h. elim h [ ]))
  any-has (q ∷ qs) = (
    (λ h. elim (Bool-cases (has set q)) [
      | inl here ↦ inl ((exact q).0 here)
      | inr other ↦ inr ((any-has qs).0 (ground (arith, h, other)))
    ]),
    (λ h. elim h [
      | inl here ↦ ground (arith, (exact q).1 here)
      | inr later ↦ ground (arith, (any-has qs).1 later)
    ]),
  )

-- The queries read one granted set.
queries_answered :
    (e : Enforcer) (u : User) (q : Permission) (qs : List Permission) (set : GrantedSet)
    (roles : List Text)
    → (get_granted_set_full u.id e).0 ≡ ok (set, u, roles)
    → ((Check.has_permission u.id q e).0 ≡ ok (has set q))
      × ((has_all_permissions u.id qs e).0 ≡ ok (all (has set) qs))
      × ((has_any_permission u.id qs e).0 ≡ ok (any (has set) qs))
unfolding Check.has_permission has_all_permissions has_any_permission get_granted_set
queries_answered e u q qs set roles k = (ground (arith, k), ground (arith, k), ground (arith, k))

-- For a stored user, if every cached set is exact, `HasPermission`, `HasAllPermissions` and
-- `HasAnyPermission` answer without an error whether the user is entitled to the permission, to each of
-- the list, and to one of the list.
pub permission_queries_lem :
    (e : Enforcer) (u : User) (q : Permission) (qs : List Permission)
    → IsCoherent e
    → get e.store.users u.id ≡ some u
    → (one every some_one : Bool) × ((Check.has_permission u.id q e).0 ≡ ok one)
      × ((has_all_permissions u.id qs e).0 ≡ ok every)
      × ((has_any_permission u.id qs e).0 ≡ ok some_one)
      × ((one ≡ true) ↔ IsEntitled e.store u q)
      × ((every ≡ true) ↔ IsEntitledToAll e.store u qs)
      × ((some_one ≡ true) ↔ IsEntitledToAny e.store u qs)
permission_queries_lem e u q qs h found =
    let (roles, resolved, full) = full_lem e u h found in
    let (first, second, third) = queries_answered e u q qs full.0 roles (answered full) in
    (
      has full.0 q,
      all (has full.0) qs,
      any (has full.0) qs,
      first,
      second,
      third,
      full.2 q,
      all-has e.store u full.0 full.2 qs,
      any-has e.store u full.0 full.2 qs,
    )
