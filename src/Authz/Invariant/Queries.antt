-- ===== src/Authz/Invariant/Queries.antt =====
-- The queries that fill the caches (authz/authz.go, authz/check.go) and the invariant.
use libauth.Store
use libauth.Prelude.{any, all, Bool, [], ◌∷◌, refl}
use libauth.Authz.Invariant.Sound.{IsSound}
use libauth.Authz.Cache.{direct_roles_of, get_granted_set_full, filled}
use libauth.Authz.{add_permissions, GrantedSet, Enforcer}
use libauth.Text.{eq_refl, eq_iff, contains, Text}
use libauth.Prelude.{[], List, sym, ap, ◌∙◌, inr, arith, inl, Option-cases, none, some, ◌⊎◌, ◌≡◌}
use libauth.Model.{User}
use libauth.Dict.{add_all, has_key, Names, Dict, put, get}
use mathlib.Core.Path.{subst, subst⁻¹}
use libauth.Authz.Outcome.Users.{at_user}
use libauth.Authz.Indexes.{get-filled, has_key-add_all-nil, get-filled_cases}
use mathlib.Core.Option.{some-injective}
use libauth.Errors.{ok, Result}
use libauth.Authz.Coherent.Answers.{full_miss, full_hit, full_absent}
use libauth.Authz.Fresh.{fresh_lem}
use libauth.Authz.Invariant.{IsConsistent}
use libauth.Authz.Check.{has_any_role, has_all_roles, has_role}
use libauth.Dict.Laws.{get-put}

filled-IsSound :
    (e : Enforcer) (h : IsSound e) (u : User) (cache : Dict GrantedSet)
    → get e.store.users u.id ≡ some u
    → IsSound (record e { cache = cache; direct_roles = filled e.direct_roles u.id u.roles })
filled-IsSound e h u cache found = record {
  consistent = record {
    user_keys = h.consistent.user_keys;
    role_keys = h.consistent.role_keys;
    direct_stored = λ j set p. ground (
      arith,
      h.consistent.direct_stored j set,
      get-filled e.direct_roles u.id u.roles j,
      eq_iff u.id j,
      found,
    );
    direct_exact = exact;
    holders_complete = h.consistent.holders_complete;
  };
  acyclic = h.acyclic;
}
  where
    exact :
        (j : Text) (set : Names) (v : User) (r : Text)
        → get (filled e.direct_roles u.id u.roles) j ≡ some set
        → get e.store.users j ≡ some v
        → has_key set r ≡ contains v.roles r
    exact j set v r p q = elim (get-filled_cases e.direct_roles u.id u.roles j set p) [
      | inl old ↦ h.consistent.direct_exact j set v r old q
      | inr (here, new) ↦
          subst (λ (t : Names). has_key t r ≡ contains v.roles r) new
            (has_key-add_all-nil u.roles r
              ∙ ap (λ (t : User). contains t.roles r)
                  (some-injective u v (sym found ∙ ap (get e.store.users) here ∙ q)))
    ]

direct_roles_of_absent :
    (e : Enforcer) (id : Text) → get e.store.users id ≡ none → (direct_roles_of id e).1 ≡ e
unfolding direct_roles_of Store.get_user
direct_roles_of_absent e id absent = ground (arith, absent)

direct_roles_of_cases :
    (e : Enforcer) (u : User)
    → get e.store.users u.id ≡ some u
    → ((direct_roles_of u.id e).1 ≡ e)
      ⊎ ((direct_roles_of u.id e).1
          ≡ record e { direct_roles = filled e.direct_roles u.id u.roles })
unfolding direct_roles_of Store.get_user
direct_roles_of_cases e u found = ground (arith, found)

module _ (e : Enforcer) (h : IsSound e) where
  pub direct_roles_of-IsSound : (id : Text) → IsSound (direct_roles_of id e).1
  direct_roles_of-IsSound id =
      at_user e h.consistent id (λ t. IsSound (direct_roles_of t e).1)
        (λ absent. subst⁻¹ IsSound (direct_roles_of_absent e id absent) h)
        (λ u found. elim (direct_roles_of_cases e u found) [
          | inl k ↦ subst⁻¹ IsSound k h
          | inr k ↦ subst⁻¹ IsSound k (filled-IsSound e h u e.cache found)
        ])

  pub full-IsSound : (id : Text) → IsSound (get_granted_set_full id e).1
  full-IsSound id =
      at_user e h.consistent id (λ t. IsSound (get_granted_set_full t e).1)
        (λ absent. subst⁻¹ IsSoundAfter (full_absent e id absent) h)
        (λ u found.
          let (roles, g, resolved, added, exact) = fresh_lem e.store u in
          elim (Option-cases (get e.cache u.id)) [
            | inr (set, hit) ↦ subst⁻¹ IsSoundAfter (full_hit e u found roles resolved set hit) h
            | inl miss ↦
                subst⁻¹ IsSoundAfter (full_miss e u found roles resolved g added miss)
                  (filled-IsSound e h u (put e.cache u.id (add_permissions g u.direct)) found)
          ])
    where
      IsSoundAfter : Result (GrantedSet × User × List Text) × Enforcer → Type 0
      IsSoundAfter t = IsSound t.1

pub direct_roles_of_lem :
    (e : Enforcer) (u : User)
    → IsConsistent e
    → get e.store.users u.id ≡ some u
    → (set : Names) × ((direct_roles_of u.id e).0 ≡ ok set)
      × ((role : Text) → has_key set role ≡ contains u.roles role)
unfolding direct_roles_of Store.get_user filled
direct_roles_of_lem e u h found = elim (Option-cases (get e.direct_roles u.id)) [
  | inr (set, hit) ↦ (set, ground (arith, hit), λ role. h.direct_exact u.id set u role hit found)
  | inl miss ↦ (
    add_all [] u.roles,
    ground
        (arith, miss, found, get-put e.direct_roles u.id (add_all [] u.roles) u.id, eq_refl u.id),
    has_key-add_all-nil u.roles,
  )
]

all-same : (p q : Text → Bool) → ((x : Text) → p x ≡ q x) → (xs : List Text) → all p xs ≡ all q xs
all-same p q same [] = refl
all-same p q same (x ∷ xs) = ground (arith, same x, all-same p q same xs)

any-same : (p q : Text → Bool) → ((x : Text) → p x ≡ q x) → (xs : List Text) → any p xs ≡ any q xs
any-same p q same [] = refl
any-same p q same (x ∷ xs) = ground (arith, same x, any-same p q same xs)

-- The queries read one set of direct roles, or none for an empty list.
role_queries_answered :
    (e : Enforcer) (id role : Text) (roles : List Text) (set : Names)
    → (direct_roles_of id e).0 ≡ ok set
    → ((has_role id role e).0 ≡ ok (has_key set role))
      × ((has_all_roles id roles e).0 ≡ ok (all (has_key set) roles))
      × ((has_any_role id roles e).0 ≡ ok (any (has_key set) roles))
unfolding has_role has_all_roles has_any_role
role_queries_answered e id role [] set k = (ground (arith, k), refl, refl)
role_queries_answered e id role (r ∷ rs) set k =
    (ground (arith, k), ground (arith, k), ground (arith, k))

-- On consistent indexes, `HasRole`, `HasAllRoles` and `HasAnyRole` tell whether a stored user holds the
-- role, each of the list, and one of the list directly, whether or not the set was cached.
pub role_queries_lem :
    (e : Enforcer) (u : User) (role : Text) (roles : List Text)
    → IsConsistent e
    → get e.store.users u.id ≡ some u
    → ((has_role u.id role e).0 ≡ ok (contains u.roles role))
      × ((has_all_roles u.id roles e).0 ≡ ok (all (contains u.roles) roles))
      × ((has_any_role u.id roles e).0 ≡ ok (any (contains u.roles) roles))
role_queries_lem e u role roles h found =
    let (set, answered, exact) = direct_roles_of_lem e u h found in
    let (one, every, some_one) = role_queries_answered e u.id role roles set answered in
    (
      one ∙ ap ok (exact role),
      every ∙ ap ok (all-same (has_key set) (contains u.roles) exact roles),
      some_one ∙ ap ok (any-same (has_key set) (contains u.roles) exact roles),
    )
