-- ===== src/Authz/Outcome/Users.antt =====
-- What the operations of authz/users.go do to the state, on every branch.
use libauth.Store
use libauth.Authz.Users
use libauth.Authz.Invariant.{IsConsistent, user_written}
use libauth.Authz.Users.{
  without_permission, revoke_direct_permission, grant_direct_permission, with_holders, revoke_role,
  without, assign_role,
}
use libauth.Authz.{without_holder, with_holder, Enforcer}
use libauth.Model.{Permission, User}
use libauth.Text.{◌==◌, contains, Text}
use libauth.Prelude.{
  ◌⊎◌, ◌∙◌, ap, inr, inl, Option-cases, none, List, arith, if◌then◌else◌, some, [], ◌≡◌, ◌∷◌, ◌++◌,
}
use libauth.Dict.{put, has_key, remove, get}
use libauth.Errors.{user_exists, empty_name, ok, err}
use mathlib.Core.Path.{subst⁻¹, subst}

abbrev pub assigned : Enforcer → User → Text → Enforcer
assigned e u role =
    user_written e (record u { roles = u.roles ++ role ∷ [] })
      (with_holder e.role_holders u.id role) (remove e.cache u.id)

-- `AssignRole` for a stored user: an error without a change if the role is not stored or the user's
-- ID is empty; no change if the user has the role; else the role is appended in the store and both
-- indexes, and the cached set dropped.
assign_role_lem :
    (e : Enforcer) (u : User) (role : Text)
    → get e.store.users u.id ≡ some u
    → assign_role u.id role e ≡ (elim (Store.get_role e.store role) [
      | err c ↦ (err c, e)
      | ok r ↦
          if contains u.roles role
          then (ok tt, e)
          else if u.id == []
          then (err empty_name, e)
          else (ok tt, assigned e u role)
    ])
unfolding assign_role Store.update_user Store.get_user
assign_role_lem e u role found = ground (arith, found)

abbrev pub revoked : Enforcer → User → Text → Enforcer
revoked e u role =
    user_written e (record u { roles = without u.roles role })
      (without_holder e.role_holders u.id role) (remove e.cache u.id)

-- The outcomes of `RevokeRole` for a stored user.
pub revoke_role_cases :
    (e : Enforcer) (u : User) (role : Text)
    → get e.store.users u.id ≡ some u
    → revoke_role u.id role e ≡ (elim (Store.get_role e.store role) [
      | err c ↦ (err c, e)
      | ok r ↦ if u.id == [] then (err empty_name, e) else (ok tt, revoked e u role)
    ])
unfolding revoke_role Store.update_user Store.get_user
revoke_role_cases e u role found = ground (arith, found)

abbrev pub created : Enforcer → Text → List Text → Enforcer
created e id roles =
    user_written e (record { id = id; roles = roles; direct = [] })
      (with_holders e.role_holders id roles) e.cache

-- `CreateUser`: an error without a change if the ID is empty or taken; else the user is stored and
-- indexed with the roles given, and no cached set changes.
create_user_lem :
    (e : Enforcer) (id : Text) (roles : List Text)
    → Users.create_user id roles e ≡ (
        if id == []
        then (err empty_name, e)
        else if has_key e.store.users id
        then (err user_exists, e)
        else (ok tt, created e id roles))
unfolding Users.create_user Store.create_user
create_user_lem e id roles = ground arith

assign_role_absent :
    (e : Enforcer) (id role : Text) → get e.store.users id ≡ none → (assign_role id role e).1 ≡ e
unfolding assign_role Store.get_user
assign_role_absent e id role absent = ground (arith, absent)

revoke_role_absent :
    (e : Enforcer) (id role : Text) → get e.store.users id ≡ none → (revoke_role id role e).1 ≡ e
unfolding revoke_role Store.get_user
revoke_role_absent e id role absent = ground (arith, absent)

abbrev pub redirected : Enforcer → User → List Permission → Enforcer
redirected e u ps = record e {
  store = record e.store { users = put e.store.users u.id (record u { direct = ps }) };
  cache = remove e.cache u.id;
}

grant_direct_absent :
    (e : Enforcer) (id : Text) (p : Permission)
    → get e.store.users id ≡ none
    → (grant_direct_permission id p e).1 ≡ e
unfolding grant_direct_permission Store.get_user
grant_direct_absent e id p absent = ground (arith, absent)

grant_direct_cases :
    (e : Enforcer) (u : User) (p : Permission)
    → get e.store.users u.id ≡ some u
    → ((grant_direct_permission u.id p e).1 ≡ e)
      ⊎ ((grant_direct_permission u.id p e).1 ≡ redirected e u (u.direct ++ p ∷ []))
unfolding grant_direct_permission Store.get_user Store.update_user
grant_direct_cases e u p found = ground (arith, found)

revoke_direct_absent :
    (e : Enforcer) (id : Text) (p : Permission)
    → get e.store.users id ≡ none
    → (revoke_direct_permission id p e).1 ≡ e
unfolding revoke_direct_permission Store.get_user
revoke_direct_absent e id p absent = ground (arith, absent)

revoke_direct_cases :
    (e : Enforcer) (u : User) (p : Permission)
    → get e.store.users u.id ≡ some u
    → ((revoke_direct_permission u.id p e).1 ≡ e)
      ⊎ ((revoke_direct_permission u.id p e).1 ≡ redirected e u (without_permission u.direct p))
unfolding revoke_direct_permission Store.get_user Store.update_user
revoke_direct_cases e u p found = ground (arith, found)

-- `op` at a user ID: it changes nothing for an ID that is not stored, and otherwise the ID is the
-- one of the stored user.
pub at_user :
    (e : Enforcer) (h : IsConsistent e) (id : Text) (P : Text → Type 0)
    → (get e.store.users id ≡ none → P id)
    → ((u : User) → get e.store.users u.id ≡ some u → P u.id)
    → P id
at_user e h id P absent present = elim (Option-cases (get e.store.users id)) [
  | inl n ↦ absent n
  | inr (u, found) ↦
      let key : u.id ≡ id = h.user_keys id u found in
      subst P key (present u (ap (get e.store.users) key ∙ found))
]

module _ (P : Enforcer → Type 0) (e : Enforcer) (same : P e) (h : IsConsistent e) where
  -- The states that an operation of a user may leave behind: the one before, or the one written.
  pub assign_role_state :
      (id role : Text)
      → ((u : User) → get e.store.users u.id ≡ some u → P (assigned e u role))
      → P (assign_role id role e).1
  assign_role_state id role new =
      at_user e h id (λ t. P (assign_role t role e).1)
        (λ absent. subst⁻¹ P (assign_role_absent e id role absent) same)
        (λ u found. elim (cases u found) [
          | inl k ↦ subst⁻¹ P k same
          | inr k ↦ subst⁻¹ P k (new u found)
        ])
    where
      cases :
          (u : User)
          → get e.store.users u.id ≡ some u
          → ((assign_role u.id role e).1 ≡ e) ⊎ ((assign_role u.id role e).1 ≡ assigned e u role)
      cases u found = ground (arith, assign_role_lem e u role found)

  pub revoke_role_state :
      (id role : Text)
      → ((u : User) → get e.store.users u.id ≡ some u → P (revoked e u role))
      → P (revoke_role id role e).1
  revoke_role_state id role new =
      at_user e h id (λ t. P (revoke_role t role e).1)
        (λ absent. subst⁻¹ P (revoke_role_absent e id role absent) same)
        (λ u found. elim (cases u found) [
          | inl k ↦ subst⁻¹ P k same
          | inr k ↦ subst⁻¹ P k (new u found)
        ])
    where
      cases :
          (u : User)
          → get e.store.users u.id ≡ some u
          → ((revoke_role u.id role e).1 ≡ e) ⊎ ((revoke_role u.id role e).1 ≡ revoked e u role)
      cases u found = ground (arith, revoke_role_cases e u role found)

  pub create_user_state :
      (id : Text) (roles : List Text)
      → (get e.store.users id ≡ none → P (created e id roles))
      → P (Users.create_user id roles e).1
  create_user_state id roles new = elim cases [
    | inl k ↦ subst⁻¹ P k same
    | inr (absent, k) ↦ subst⁻¹ P k (new absent)
  ]
    where
      cases :
          ((Users.create_user id roles e).1 ≡ e)
          ⊎ ((get e.store.users id ≡ none)
              × ((Users.create_user id roles e).1 ≡ created e id roles))
      cases = ground (arith, create_user_lem e id roles)

  -- Granting and revoking a direct permission write the user's list of direct permissions.
  pub grant_direct_permission_state :
      (id : Text) (p : Permission)
      → ((u : User) (ps : List Permission)
          → get e.store.users u.id ≡ some u
          → P (redirected e u ps))
      → P (grant_direct_permission id p e).1
  grant_direct_permission_state id p new =
      at_user e h id (λ t. P (grant_direct_permission t p e).1)
        (λ absent. subst⁻¹ P (grant_direct_absent e id p absent) same)
        (λ u found. elim (grant_direct_cases e u p found) [
          | inl k ↦ subst⁻¹ P k same
          | inr k ↦ subst⁻¹ P k (new u (u.direct ++ p ∷ []) found)
        ])

  pub revoke_direct_permission_state :
      (id : Text) (p : Permission)
      → ((u : User) (ps : List Permission)
          → get e.store.users u.id ≡ some u
          → P (redirected e u ps))
      → P (revoke_direct_permission id p e).1
  revoke_direct_permission_state id p new =
      at_user e h id (λ t. P (revoke_direct_permission t p e).1)
        (λ absent. subst⁻¹ P (revoke_direct_absent e id p absent) same)
        (λ u found. elim (revoke_direct_cases e u p found) [
          | inl k ↦ subst⁻¹ P k same
          | inr k ↦ subst⁻¹ P k (new u (without_permission u.direct p) found)
        ])
