-- ===== src/Authz/Coherent/Answers.antt =====
-- The answers of `Check` (authz/check.go).
use libauth.Store
use libauth.Authz.Check.{check}
use libauth.Authz.Cache.{add_roles, get_granted_set_full, compute_and_cache, filled, kept}
use libauth.Authz.Fresh.{fresh_lem, IsEntitled}
use libauth.Authz.Coherent.{IsCoherent}
use libauth.Authz.Resolve.{resolve_roles}
use libauth.Authz.{has, add_permissions, no_grants, GrantedSet, Enforcer}
use libauth.Model.{Permission, User}
use libauth.Dict.{put, get}
use libauth.Prelude.{
  Bool-cases, if◌then◌else◌, ap, ◌↔◌, inr, true, inl, none, Option-cases, ◌⊎◌, arith, some, ◌≡◌,
  List,
}
use libauth.Text.{Text}
use libauth.Errors.{user_not_found, Result, permission_denied, err, Denial, ok}

abbrev pub cached : Enforcer → User → GrantedSet → Enforcer
cached e u set = record e {
  cache = put e.cache u.id set;
  direct_roles = filled e.direct_roles u.id u.roles;
}

module _ (e : Enforcer) (u : User) (found : get e.store.users u.id ≡ some u) (roles : List Text)
    (resolved : resolve_roles e.store u ≡ ok roles) where
  pub full_hit :
      (set : GrantedSet)
      → get e.cache u.id ≡ some set
      → get_granted_set_full u.id e ≡ (ok (set, u, roles), e)
  unfolding get_granted_set_full Store.get_user
  full_hit set hit = ground (arith, hit, found, resolved)

  pub full_miss :
      (g : GrantedSet)
      → add_roles e.store roles no_grants ≡ ok g
      → get e.cache u.id ≡ none
      → get_granted_set_full u.id e
        ≡ (ok (add_permissions g u.direct, u, roles), cached e u (add_permissions g u.direct))
  unfolding get_granted_set_full compute_and_cache Store.get_user kept
  full_miss g added miss = ground (arith, miss, found, resolved, added)

-- What a lookup of the granted set of a stored user returns, and the state it leaves.
abbrev pub Full : Enforcer → User → List Text → Type 0
Full e u roles =
    (set : GrantedSet) × ((get_granted_set_full u.id e ≡ (ok (set, u, roles), e))
      ⊎ ((get e.cache u.id ≡ none)
          × (get_granted_set_full u.id e ≡ (ok (set, u, roles), cached e u set))))
    × ((q : Permission) → (has set q ≡ true) ↔ IsEntitled e.store u q)

pub full_lem :
    (e : Enforcer) (u : User)
    → IsCoherent e
    → get e.store.users u.id ≡ some u
    → (roles : List Text) × (resolve_roles e.store u ≡ ok roles) × Full e u roles
full_lem e u h found =
    let (roles, g, resolved, added, exact) = fresh_lem e.store u in
    (
      roles,
      resolved,
      elim (Option-cases (get e.cache u.id)) [
        | inl miss ↦ (
          add_permissions g u.direct,
          inr (miss, full_miss e u found roles resolved g added miss),
          exact,
        )
        | inr (set, hit) ↦ (
          set,
          inl (full_hit e u found roles resolved set hit),
          λ q. h.exact u.id set u q hit found,
        )
      ],
    )

abbrev pub denial : User → Permission → List Text → Denial
denial u q roles = record { user_id = u.id; user = u; required = q; roles = roles }

-- The first component of either outcome.
pub answered :
    {e : Enforcer} {u : User} {roles : List Text} (full : Full e u roles)
    → (get_granted_set_full u.id e).0 ≡ ok (full.0, u, roles)
answered (set, inl k, exact) = ap (λ (t : Result (GrantedSet × User × List Text) × Enforcer). t.0) k
answered (set, inr (miss, k), exact) =
    ap (λ (t : Result (GrantedSet × User × List Text) × Enforcer). t.0) k

pub check_answered :
    (e : Enforcer) (u : User) (q : Permission) (set : GrantedSet) (roles : List Text)
    → (get_granted_set_full u.id e).0 ≡ ok (set, u, roles)
    → (check u.id q e).0 ≡ (if has set q then ok tt else err (permission_denied (denial u q roles)))
unfolding check
check_answered e u q set roles k = ground (arith, k)

-- For a stored user, if every cached set is exact, `Check` returns nil exactly if the user is entitled
-- to the permission. Otherwise it returns a denial with the user, the permission and the effective
-- roles of the user.
pub check_lem :
    (e : Enforcer) (u : User) (q : Permission)
    → IsCoherent e
    → get e.store.users u.id ≡ some u
    → (((check u.id q e).0 ≡ ok tt) × IsEntitled e.store u q)
      ⊎ ((roles : List Text) × (resolve_roles e.store u ≡ ok roles)
          × ((check u.id q e).0 ≡ err (permission_denied (denial u q roles)))
          × (¬ (IsEntitled e.store u q)))
check_lem e u q h found =
    let (roles, resolved, full) = full_lem e u h found in
    let answer = check_answered e u q full.0 roles (answered full) in
    elim (Bool-cases (has full.0 q)) [
      | inl yes_granted ↦ inl (ground (arith, answer, yes_granted), (full.2 q).0 yes_granted)
      | inr denied ↦ inr (
        roles,
        resolved,
        ground (arith, answer, denied),
        λ entitled. cc ((full.2 q).1 entitled, denied),
      )
    ]

-- Without such a user the answer is an error, and nothing is cached.
pub full_absent :
    (e : Enforcer) (id : Text)
    → get e.store.users id ≡ none
    → get_granted_set_full id e ≡ (err user_not_found, e)
unfolding get_granted_set_full Store.get_user
full_absent e id absent = ground (arith, absent)
