-- ===== src/Authz/Coherent/Roles.antt =====
-- The operations on roles (authz/roles.go) and the cached sets: only direct holders are dropped.
use libauth.Authz.Outcome.Roles.{
  set_parent_state, revoke_permission_state, grant_permission_state, update_role_state, IsPlaced,
  role_written, holders_dropped,
}
use libauth.Authz.Coherent.{IsCoherent}
use libauth.Authz.Coherent.Entitled.{IsEntitled-same}
use libauth.Authz.Coherent.Answers.{check_answered, full_hit}
use libauth.Authz.Invariant.{IsConsistent}
use libauth.Authz.Roles.{holders_of, update_role, grant_permission, revoke_permission, set_parent}
use libauth.Authz.Resolve.Spec.{Holds}
use libauth.Store
use libauth.Store.Lookup.{get_role-put}
use libauth.Authz.{has, names_at, GrantedSet, Enforcer}
use libauth.Text.{eq_iff, ◌==◌, contains, Text}
use libauth.Model.{Permission, User, Role}
use libauth.Dict.{put, get}
use libauth.Prelude.{
  ◌∙◌, List, inr, ap, inl, ◌↔◌, Bool-cases, arith, false, none, true, if◌then◌else◌, some, ◌≡◌,
}
use libauth.Authz.Indexes.{get-remove_all, holds}
use libauth.Authz.Check.{check}
use libauth.Errors.{Result, ok}
use libauth.Dict.Laws.{contains-keys}
use mathlib.Core.Path.{subst⁻¹}
use libauth.Authz.Fresh.{IsEntitled, fresh_lem}
use libauth.Authz.Cache.{get_granted_set_full}

-- Who holds the role at all holds it directly: no other role in use inherits from it.
abbrev pub HeldDirectly : Enforcer → Text → Type 0
HeldDirectly e name =
    (j : Text) (u : User)
    → get e.store.users j ≡ some u
    → Holds e.store u.roles name
    → contains u.roles name ≡ true

pub get-holders_dropped :
    (e : Enforcer) (name j : Text)
    → get (holders_dropped e name) j ≡ (if holds e.role_holders name j then none else get e.cache j)
get-holders_dropped e name j = ground (
  arith,
  get-remove_all e.cache (holders_of name e) j,
  contains-keys (names_at e.role_holders name) j,
)

-- Writing a role that is only held directly keeps the cached sets right.
pub role_written-IsCoherent :
    (e : Enforcer) (r : Role)
    → IsCoherent e
    → IsConsistent e
    → HeldDirectly e r.name
    → IsCoherent (role_written e r (holders_dropped e r.name))
role_written-IsCoherent e r h c direct_only = record {
  stored = λ j set p. ground (arith, get-holders_dropped e r.name j, h.stored j set);
  exact = λ j set u q p k.
      let before : (has set q ≡ true) ↔ IsEntitled e.store u q =
        h.exact j set u q (ground (arith, p, get-holders_dropped e r.name j)) k in
      let after : IsEntitled e.store u q
          ↔ IsEntitled (record e.store { roles = put e.store.roles r.name r }) u q =
        IsEntitled-same e.store _ u q
          (λ n held. unchanged j u n k (ground (arith, p, get-holders_dropped e r.name j)) held) in
      (λ t. after.0 (before.0 t), λ t. before.1 (after.1 t));
}
  where
    unchanged :
        (j : Text) (u : User) (n : Text)
        → get e.store.users j ≡ some u
        → holds e.role_holders r.name j ≡ false
        → Holds e.store u.roles n
        → Store.get_role (record e.store { roles = put e.store.roles r.name r }) n
          ≡ Store.get_role e.store n
    unchanged j u n k free held = elim (Bool-cases (r.name == n)) [
      | inl here ↦ absurd (
          ground (
            arith,
            free,
            c.holders_complete j u r.name k (
                direct_only j u k
                  (subst⁻¹ (Holds e.store u.roles) ((eq_iff r.name n).0 here) held)),
          ))
      | inr other ↦ ground (arith, other, get_role-put e.store r n)
    ]

module _ (e : Enforcer) (h : IsCoherent e) (c : IsConsistent e) (name : Text)
    (direct_only : HeldDirectly e name) where
  written :
      (r : Role)
      → r.name ≡ name
      → IsPlaced e r
      → IsCoherent (role_written e r (holders_dropped e r.name))
  written r key placed = role_written-IsCoherent e r h c (subst⁻¹ (HeldDirectly e) key direct_only)

  pub update_role-IsCoherent :
      (ps : List Permission) (parent : Text) → IsCoherent (update_role name ps parent e).1
  update_role-IsCoherent = update_role_state IsCoherent e h c name written

  pub grant_permission-IsCoherent : (p : Permission) → IsCoherent (grant_permission name p e).1
  grant_permission-IsCoherent = grant_permission_state IsCoherent e h c name written

  pub revoke_permission-IsCoherent : (p : Permission) → IsCoherent (revoke_permission name p e).1
  revoke_permission-IsCoherent = revoke_permission_state IsCoherent e h c name written

  pub set_parent-IsCoherent : (parent : Text) → IsCoherent (set_parent name parent e).1
  set_parent-IsCoherent = set_parent_state IsCoherent e h c name written

-- A stored user with a cached set is answered by that set.
pub check_hit :
    (e : Enforcer) (u : User) (q : Permission) (set : GrantedSet)
    → get e.store.users u.id ≡ some u
    → get e.cache u.id ≡ some set
    → ((check u.id q e).0 ≡ ok tt) ↔ (has set q ≡ true)
check_hit e u q set found hit =
    let (roles, g, resolved, added, exact) = fresh_lem e.store u in
    let first : (get_granted_set_full u.id e).0 ≡ ok (set, u, roles) =
      ap (λ (t : Result (GrantedSet × User × List Text) × Enforcer). t.0)
        (full_hit e u found roles resolved set hit) in
    let answer = check_answered e u q set roles first in
    (λ t. ground (arith, answer, t), λ t. ground (arith, answer, t))

-- What a change of a role leaves to a user whom the index of its holders does not list.
revoked_elsewhere :
    (e : Enforcer) (name : Text) (p : Permission) (id : Text)
    → holds e.role_holders name id ≡ false
    → ((revoke_permission name p e).1.store.users ≡ e.store.users)
      × (get (revoke_permission name p e).1.cache id ≡ get e.cache id)
unfolding revoke_permission Store.update_role
revoked_elsewhere e name p id free = ground (arith, free, get-holders_dropped e name id)

-- After `RevokePermission` on a role, a stored user with a cached set, whom the index of holders does
-- not list under that role, is answered by `Check` as before, for every permission: even if the user
-- holds the role, by inheritance or past the index.
pub stale_after_revoke :
    (e : Enforcer) (name : Text) (p : Permission) (u : User) (q : Permission) (set : GrantedSet)
    → get e.store.users u.id ≡ some u
    → get e.cache u.id ≡ some set
    → holds e.role_holders name u.id ≡ false
    → ((check u.id q (revoke_permission name p e).1).0 ≡ ok tt) ↔ ((check u.id q e).0 ≡ ok tt)
stale_after_revoke e name p u q set found hit free =
    let (users, caches) = revoked_elsewhere e name p u.id free in
    let now =
      check_hit (revoke_permission name p e).1 u q set (ap (λ m. get m u.id) users ∙ found)
        (caches ∙ hit) in
    let before = check_hit e u q set found hit in
    ((λ t. before.1 (now.0 t)), (λ t. now.1 (before.0 t)))
