-- ===== src/Authz/Coherent/Changes.antt =====
-- `DeleteUser`, `CreateRole` and `directRolesOf`, and the cached sets.
use libauth.Authz.Users
use libauth.Authz.Roles
use libauth.Authz.{Enforcer}
use libauth.Text.{eq_iff, ◌==◌, Text}
use libauth.Authz.Coherent.{IsCoherent}
use libauth.Model.{Permission, Role, User}
use libauth.Prelude.{
  refl, Bool-cases, inr, false, none, ◌↔◌, if◌then◌else◌, some, inl, arith, List, ◌≡◌,
}
use libauth.Authz.Invariant.Deletion.{forgotten, delete_user_cases}
use libauth.Authz.Cache.{direct_roles_of}
use libauth.Dict.{put, get}
use libauth.Authz.Outcome.Roles.{made, create_role_state, role_written}
use mathlib.Core.Path.{subst⁻¹}
use libauth.Authz.Fresh.{IsEntitled}
use libauth.Authz.Resolve.Spec.{Holds}
use libauth.Authz.Users.{forget_user}
use libauth.Dict.Laws.{get-remove}
use libauth.Authz.Coherent.Entitled.{IsEntitled-same}
use libauth.Store.Lookup.{get_role-put, get_role-roles}

-- Nobody holds the role, not even by inheritance.
abbrev pub Unheld : Enforcer → Text → Type 0
Unheld e name =
    (j : Text) (u : User) → get e.store.users j ≡ some u → ¬ (Holds e.store u.roles name)

module _ (e : Enforcer) (h : IsCoherent e) where
  -- A state with fewer users and cached sets, and the same roles.
  fewer-IsCoherent :
      (e' : Enforcer) (id : Text)
      → e'.store.roles ≡ e.store.roles
      → ((j : Text) → get e'.cache j ≡ (if id == j then none else get e.cache j))
      → ((j : Text) → (id == j) ≡ false → get e'.store.users j ≡ get e.store.users j)
      → IsCoherent e'
  fewer-IsCoherent e' id same cache users = record {
    stored = λ j set p. ground (arith, cache j, users j, h.stored j set);
    exact = λ j set u q p k.
        let other : (id == j) ≡ false = ground (arith, cache j) in
        let before = h.exact j set u q (ground (arith, cache j)) (ground (arith, users j)) in
        let moved : IsEntitled e.store u q ↔ IsEntitled e'.store u q =
          IsEntitled-same e.store e'.store u q λ n _. get_role-roles e.store e'.store same n in
        (λ t. moved.0 (before.0 t), λ t. before.1 (moved.1 t));
  }

  pub delete_user-IsCoherent : (id : Text) → IsCoherent (Users.delete_user id e).1
  delete_user-IsCoherent id = elim (delete_user_cases e id) [
    | inl (absent, k) ↦
        subst⁻¹ IsCoherent k
          (fewer-IsCoherent (forget_user id e) id refl (get-remove e.cache id) (λ j _. refl))
    | inr k ↦ subst⁻¹ IsCoherent k (
        fewer-IsCoherent (forgotten e id) id refl (get-remove e.cache id)
          (λ j other. ground (arith, other, get-remove e.store.users id j)))
  ]

  unheld-IsCoherent : (r : Role) → Unheld e r.name → IsCoherent (role_written e r e.cache)
  unheld-IsCoherent r unheld = record {
    stored = h.stored;
    exact = λ j set u q p k.
        let before = h.exact j set u q p k in
        let moved : IsEntitled e.store u q
            ↔ IsEntitled (record e.store { roles = put e.store.roles r.name r }) u q =
          IsEntitled-same e.store _ u q (λ n held. elim (Bool-cases (r.name == n)) [
            | inl here ↦
                absurd
                  (unheld j u k (subst⁻¹ (Holds e.store u.roles) ((eq_iff r.name n).0 here) held))
            | inr other ↦ ground (arith, other, get_role-put e.store r n)
          ]) in
        (λ t. moved.0 (before.0 t), λ t. before.1 (moved.1 t));
  }

  pub create_role-IsCoherent :
      (name : Text) (ps : List Permission) (parent : Text)
      → Unheld e name
      → IsCoherent (Roles.create_role name ps parent e).1
  create_role-IsCoherent name ps parent unheld =
      create_role_state IsCoherent e h name ps parent
        (λ valid. unheld-IsCoherent (made name ps parent) unheld)

  direct_roles_of_same :
      (id : Text)
      → ((direct_roles_of id e).1.store ≡ e.store) × ((direct_roles_of id e).1.cache ≡ e.cache)
  unfolding direct_roles_of
  direct_roles_of_same id = ground arith

  pub direct_roles_of-IsCoherent : (id : Text) → IsCoherent (direct_roles_of id e).1
  direct_roles_of-IsCoherent id = record {
    stored = λ j set p. ground (arith, direct_roles_of_same id, h.stored j set);
    exact = λ j set u q p k.
        let (stores, caches) = direct_roles_of_same id in
        rw stores (h.exact j set u q (ground (arith, caches)) (ground (arith, stores)));
  }
