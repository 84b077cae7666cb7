-- ===== src/Authz/Outcome/RoleRevocation.antt =====
-- `RevokeRole` (authz/users.go): what is left of the user, the indexes and the cached sets.
use mathlib.Core.List.{Sublist}
use mathlib.Core.List.Sublist
use libauth.Store
use libauth.Authz.Check.{has_role}
use libauth.Text.{contains, eq_iff, eq_refl, ◌==◌, Text}
use libauth.Authz.Users.{revoke_role, without}
use libauth.Authz.{Enforcer}
use libauth.Prelude.{
  refl, Option-cases, true, ◌⊎◌, not, inr, Bool, ◌&&◌, ap, [], inl, ◌∙◌, false, suc, none,
  Bool-cases, ◌∷◌, some, if◌then◌else◌, arith, ◌≡◌, ℕ, List,
}
use libauth.Model.{User}
use libauth.Authz.Cache.{filled, direct_roles_of}
use libauth.Authz.Outcome.Users.{revoke_role_cases, revoked}
use libauth.Dict.{has_key, add_all, get}
use libauth.Dict.Laws.{get-remove, get-put}
use libauth.Errors.{Result, empty_name, role_not_found, err, ok}
use libauth.Authz.Indexes.{
  get-with_roles, entry, holds-without_holder, contains-without, holds, has_key-add_all-nil,
}
use mathlib.Core.Path.{subst⁻¹}

-- How often a name stands in a list.
abbrev pub occurrences : Text → List Text → ℕ
occurrences r [] = 0
occurrences r (x ∷ xs) = if x == r then suc (occurrences r xs) else occurrences r xs

-- The user's roles lose each occurrence of the role, and nothing else.
abbrev pub LosesOnly : Text → List Text → List Text → Type 0
LosesOnly role before after =
    Sublist after before
    × ((r : Text) → occurrences r after ≡ (if role == r then 0 else occurrences r before))

without-LosesOnly : (rs : List Text) (role : Text) → LosesOnly role rs (without rs role)
unfolding without
without-LosesOnly [] role = (Sublist.refl [], λ r. ground arith)
without-LosesOnly (x ∷ rs) role =
    let (rest, count) = without-LosesOnly rs role in
    elim (Bool-cases (x == role)) [
      | inl here ↦ rw here (
        Sublist.cons x rest,
        λ r. ground (arith, count r, here, eq_iff x role, eq_iff x r, eq_iff role r),
      )
      | inr other ↦ rw other (
        Sublist.cons-cons x rest,
        λ r. ground (arith, count r, other, eq_iff x role, eq_iff x r, eq_iff role r),
      )
    ]

pub record IsRevoked (e : Enforcer) (u : User) (role : Text) (e' : Enforcer) : Type 0 where
  pub roles : e'.store.roles ≡ e.store.roles
  pub user :
      (left : List Text) × (get e'.store.users u.id ≡ some (record u { roles = left }))
      × LosesOnly role u.roles left
  pub others : (j : Text) → (u.id == j) ≡ false → get e'.store.users j ≡ get e.store.users j
  pub answers : (r : Text) → (has_role u.id r e').0 ≡ ok (contains u.roles r && not (role == r))
  pub direct : (j : Text) → (u.id == j) ≡ false → get e'.direct_roles j ≡ get e.direct_roles j
  pub holders :
      (r j : Text)
      → holds e'.role_holders r j ≡ (holds e.role_holders r j && not (role == r && u.id == j))
  pub sets : (j : Text) → get e'.cache j ≡ (if u.id == j then none else get e.cache j)

-- A user is answered from the entry of the index, or from the store if there are no roles to enter.
entered-answers :
    (e : Enforcer) (u : User) (roles : List Text) (r : Text)
    → get e.store.users u.id ≡ some (record u { roles = roles })
    → get e.direct_roles u.id ≡ entry roles
    → (has_role u.id r e).0 ≡ ok (contains roles r)
unfolding has_role direct_roles_of Store.get_user filled add_all get
entered-answers e u [] r found missing =
    ground (arith, found, missing, get-put e.direct_roles u.id [] u.id, eq_refl u.id)
entered-answers e u (x ∷ xs) r found entered =
    ground (arith, entered, has_key-add_all-nil (x ∷ xs) r)

get-revoked :
    (e : Enforcer) (u : User) (role j : Text)
    → get (revoked e u role).store.users j ≡ (
        if u.id == j then some (record u { roles = without u.roles role }) else get e.store.users j)
get-revoked e u role = get-put e.store.users u.id (record u { roles = without u.roles role })

revoked-IsRevoked : (e : Enforcer) (u : User) (role : Text) → IsRevoked e u role (revoked e u role)
revoked-IsRevoked e u role = record {
  roles = refl;
  user = (
    without u.roles role,
    ground (arith, get-revoked e u role u.id, eq_refl u.id),
    without-LosesOnly u.roles role,
  );
  others = λ j other. ground (arith, other, get-revoked e u role j);
  answers = λ r.
      entered-answers (revoked e u role) u (without u.roles role) r
        (ground (arith, get-revoked e u role u.id, eq_refl u.id))
        (ground
          (arith, get-with_roles e.direct_roles u.id (without u.roles role) u.id, eq_refl u.id))
      ∙ ap (λ (b : Bool). ok b) (contains-without u.roles role r);
  direct =
      λ j other. ground (arith, other, get-with_roles e.direct_roles u.id (without u.roles role) j);
  holders = holds-without_holder e.role_holders u.id role;
  sets = get-remove e.cache u.id;
}

-- `RevokeRole` for a stored user: an error without a change if the role is not stored, and another if
-- the user's ID is empty. Else it succeeds: each occurrence of the role leaves the user's list, where the
-- rest keeps its order and number; `HasRole` then answers by the list that is left, the index of holders
-- loses the one entry, the cached set of the user is dropped, and nothing else changes in the records,
-- the indexes and the cached sets.
pub revoke_role_lem :
    (e : Enforcer) (u : User) (role : Text)
    → get e.store.users u.id ≡ some u
    → ((get e.store.roles role ≡ none) × (revoke_role u.id role e ≡ (err role_not_found, e)))
      ⊎ ((has_key e.store.roles role ≡ true)
          × (u.id ≡ [])
          × (revoke_role u.id role e ≡ (err empty_name, e)))
      ⊎ ((has_key e.store.roles role ≡ true)
          × ((u.id == []) ≡ false)
          × ((revoke_role u.id role e).0 ≡ ok tt)
          × IsRevoked e u role (revoke_role u.id role e).1)
unfolding Store.get_role
revoke_role_lem e u role found = elim (Option-cases (get e.store.roles role)) [
  | inl absent ↦ inl (absent, ground (arith, absent, revoke_role_cases e u role found))
  | inr (r, there) ↦ elim (Bool-cases (u.id == [])) [
    | inl nameless ↦ inr (
        inl (
          ground (arith, there),
          (eq_iff u.id []).0 nameless,
          ground (arith, there, nameless, revoke_role_cases e u role found),
        ))
    | inr named ↦
        let done : revoke_role u.id role e ≡ (ok tt, revoked e u role) =
          ground (arith, there, named, revoke_role_cases e u role found) in
        inr (
          inr (
            ground (arith, there),
            named,
            ap (λ (t : Result (Unit {0}) × Enforcer). t.0) done,
            subst⁻¹ (λ (t : Result (Unit {0}) × Enforcer). IsRevoked e u role t.1) done
                (revoked-IsRevoked e u role),
          ))
  ]
]
