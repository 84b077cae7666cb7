-- ===== src/Authz/Outcome/Roles.antt =====
-- What the operations of authz/roles.go that write one role do to the state, on every branch.
use libauth.Store
use libauth.Authz.Roles
use libauth.Authz.Roles.{update_role, grant_permission, revoke_permission, set_parent, holders_of}
use libauth.Authz.Users.{without_permission}
use libauth.Authz.Invariant.{IsConsistent}
use libauth.Authz.Validate.{validate_inheritance}
use libauth.Authz.{remove_all, GrantedSet, Enforcer}
use libauth.Text.{Text}
use libauth.Model.{Permission, Role}
use libauth.Dict.{put, get, Dict}
use libauth.Prelude.{
  ◌∙◌, [], ap, refl, ◌∷◌, inr, ◌++◌, Option-cases, arith, inl, some, none, ◌⊎◌, ◌≡◌, List,
}
use libauth.Errors.{ok}
use mathlib.Core.Path.{subst, subst⁻¹}

abbrev pub role_written : Enforcer → Role → Dict GrantedSet → Enforcer
role_written e r cache = record e {
  store = record e.store { roles = put e.store.roles r.name r };
  cache = cache;
}

-- The cache without the entries of the direct holders of a role.
abbrev pub holders_dropped : Enforcer → Text → Dict GrantedSet
holders_dropped e name = remove_all e.cache (holders_of name e)

-- A role that may be written: its place was validated, or it keeps the parent that it has.
abbrev pub IsPlaced : Enforcer → Role → Type 0
IsPlaced e r =
    (validate_inheritance e.store e.max_depth r ≡ ok tt)
    ⊎ ((old : Role) × (get e.store.roles r.name ≡ some old) × (old.parent ≡ r.parent))

abbrev pub made : Text → List Permission → Text → Role
made name ps parent = record { name = name; permissions = ps; parent = parent }

create_role_cases :
    (e : Enforcer) (name : Text) (ps : List Permission) (parent : Text)
    → ((Roles.create_role name ps parent e).1 ≡ e)
      ⊎ ((validate_inheritance e.store e.max_depth (made name ps parent) ≡ ok tt)
          × (get e.store.roles name ≡ none)
          × ((Roles.create_role name ps parent e).1 ≡ role_written e (made name ps parent) e.cache))
unfolding Roles.create_role Store.create_role
create_role_cases e name ps parent = ground arith

update_role_cases :
    (e : Enforcer) (name : Text) (ps : List Permission) (parent : Text)
    → ((update_role name ps parent e).1 ≡ e)
      ⊎ ((validate_inheritance e.store e.max_depth (made name ps parent) ≡ ok tt)
          × ((update_role name ps parent e).1
              ≡ role_written e (made name ps parent) (holders_dropped e name)))
unfolding update_role Store.update_role
update_role_cases e name ps parent = ground arith

-- For an operation on a stored role, the role's name is the one given.
at_role :
    (e : Enforcer) (h : IsConsistent e) (name : Text) (P : Text → Type 0)
    → (get e.store.roles name ≡ none → P name)
    → ((r : Role) → get e.store.roles r.name ≡ some r → P r.name)
    → P name
at_role e h name P absent present = elim (Option-cases (get e.store.roles name)) [
  | inl n ↦ absent n
  | inr (r, found) ↦
      let key : r.name ≡ name = h.role_keys name r found in
      subst P key (present r (ap (get e.store.roles) key ∙ found))
]

grant_permission_absent :
    (e : Enforcer) (name : Text) (p : Permission)
    → get e.store.roles name ≡ none
    → (grant_permission name p e).1 ≡ e
unfolding grant_permission Store.get_role
grant_permission_absent e name p absent = ground (arith, absent)

grant_permission_cases :
    (e : Enforcer) (r : Role) (p : Permission)
    → get e.store.roles r.name ≡ some r
    → ((grant_permission r.name p e).1 ≡ e)
      ⊎ ((grant_permission r.name p e).1
          ≡ role_written e
              (record r { permissions = r.permissions ++ p ∷ [] })
              (holders_dropped e r.name))
unfolding grant_permission Store.get_role Store.update_role
grant_permission_cases e r p found = ground (arith, found)

revoke_permission_absent :
    (e : Enforcer) (name : Text) (p : Permission)
    → get e.store.roles name ≡ none
    → (revoke_permission name p e).1 ≡ e
unfolding revoke_permission Store.get_role
revoke_permission_absent e name p absent = ground (arith, absent)

revoke_permission_cases :
    (e : Enforcer) (r : Role) (p : Permission)
    → get e.store.roles r.name ≡ some r
    → ((revoke_permission r.name p e).1 ≡ e)
      ⊎ ((revoke_permission r.name p e).1
          ≡ role_written e
              (record r { permissions = without_permission r.permissions p })
              (holders_dropped e r.name))
unfolding revoke_permission Store.get_role Store.update_role
revoke_permission_cases e r p found = ground (arith, found)

set_parent_absent :
    (e : Enforcer) (name parent : Text)
    → get e.store.roles name ≡ none
    → (set_parent name parent e).1 ≡ e
unfolding set_parent Store.get_role
set_parent_absent e name parent absent = ground (arith, absent)

set_parent_cases :
    (e : Enforcer) (r : Role) (parent : Text)
    → get e.store.roles r.name ≡ some r
    → ((set_parent r.name parent e).1 ≡ e)
      ⊎ ((validate_inheritance e.store e.max_depth (record r { parent = parent }) ≡ ok tt)
          × ((set_parent r.name parent e).1
              ≡ role_written e (record r { parent = parent }) (holders_dropped e r.name)))
unfolding set_parent Store.get_role Store.update_role
set_parent_cases e r parent found = ground (arith, found)

-- A new role is written with no cached set dropped.
pub create_role_state :
    (P : Enforcer → Type 0) (e : Enforcer)
    → P e
    → (name : Text) (ps : List Permission) (parent : Text)
    → (validate_inheritance e.store e.max_depth (made name ps parent) ≡ ok tt
        → P (role_written e (made name ps parent) e.cache))
    → P (Roles.create_role name ps parent e).1
create_role_state P e same name ps parent new = elim (create_role_cases e name ps parent) [
  | inl k ↦ subst⁻¹ P k same
  | inr (valid, absent, k) ↦ subst⁻¹ P k (new valid)
]

-- The states that an operation on a stored role may leave behind: the one before, or one with the
-- role written and the cached sets of its direct holders dropped.
module _ (P : Enforcer → Type 0) (e : Enforcer) (same : P e) (h : IsConsistent e) (name : Text)
    (new : (r : Role)
      → r.name ≡ name
      → IsPlaced e r
      → P (role_written e r (holders_dropped e r.name))) where
  pub update_role_state :
      (ps : List Permission) (parent : Text) → P (update_role name ps parent e).1
  update_role_state ps parent = elim (update_role_cases e name ps parent) [
    | inl k ↦ subst⁻¹ P k same
    | inr (valid, k) ↦ subst⁻¹ P k (new (made name ps parent) refl (inl valid))
  ]

  pub grant_permission_state : (p : Permission) → P (grant_permission name p e).1
  grant_permission_state p =
      at_role e h name (λ t. t ≡ name → P (grant_permission t p e).1)
        (λ absent _. subst⁻¹ P (grant_permission_absent e name p absent) same)
        (λ r found key. elim (grant_permission_cases e r p found) [
          | inl k ↦ subst⁻¹ P k same
          | inr k ↦
              subst⁻¹ P k (
                new (record r { permissions = r.permissions ++ p ∷ [] }) key (inr (r, found, refl)))
        ])
        refl

  pub revoke_permission_state : (p : Permission) → P (revoke_permission name p e).1
  revoke_permission_state p =
      at_role e h name (λ t. t ≡ name → P (revoke_permission t p e).1)
        (λ absent _. subst⁻¹ P (revoke_permission_absent e name p absent) same)
        (λ r found key. elim (revoke_permission_cases e r p found) [
          | inl k ↦ subst⁻¹ P k same
          | inr k ↦ subst⁻¹ P k (
              new (record r { permissions = without_permission r.permissions p }) key
                (inr (r, found, refl)))
        ])
        refl

  pub set_parent_state : (parent : Text) → P (set_parent name parent e).1
  set_parent_state parent =
      at_role e h name (λ t. t ≡ name → P (set_parent t parent e).1)
        (λ absent _. subst⁻¹ P (set_parent_absent e name parent absent) same)
        (λ r found key. elim (set_parent_cases e r parent found) [
          | inl k ↦ subst⁻¹ P k same
          | inr (valid, k) ↦ subst⁻¹ P k (new (record r { parent = parent }) key (inl valid))
        ])
        refl
