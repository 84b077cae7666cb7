-- ===== src/Authz/Coherent/Users.antt =====
-- The operations on users (authz/users.go), the queries, and the cached sets.
use libauth.Authz.Users
use libauth.Authz.Users.{
  assign_role, revoke_role, grant_direct_permission, revoke_direct_permission, without,
}
use libauth.Store.Lookup.{get_role-roles}
use libauth.Authz.Coherent.{IsCoherent}
use libauth.Authz.Coherent.Entitled.{IsEntitled-same}
use libauth.Authz.Fresh.{IsEntitled}
use libauth.Authz.{has, GrantedSet, Enforcer}
use libauth.Model.{Permission, User}
use libauth.Dict.{remove, put, get, Dict}
use libauth.Prelude.{
  ◌∙◌, sym, [], ◌∷◌, refl, Option-cases, ◌++◌, List, ap, ◌↔◌, true, inr, inl, Bool-cases, arith,
  some, none, ◌≡◌,
}
use libauth.Text.{eq_refl, eq_iff, ◌==◌, Text}
use libauth.Dict.Laws.{get-remove, get-put, has_key-put}
use libauth.Store.{MemoryStore}
use libauth.Authz.Invariant.{IsConsistent}
use libauth.Authz.Outcome.Users.{
  at_user, create_user_state, revoke_direct_permission_state, grant_direct_permission_state,
  revoke_role_state, assign_role_state,
}
use libauth.Authz.Cache.{get_granted_set_full}
use libauth.Authz.Coherent.Answers.{full_lem, full_absent, Full, cached}
use mathlib.Core.Option.{some-injective}
use mathlib.Core.Path.{subst, subst⁻¹}
use libauth.Errors.{Result}

-- A write of one user, with the entry of the user out of the cache.
module _ (e : Enforcer) (h : IsCoherent e) (u' : User) (cache : Dict GrantedSet)
    (cleared : get cache u'.id ≡ none)
    (others : (j : Text) (set : GrantedSet)
      → get cache j ≡ some set
      → get e.cache j ≡ some set) where
  user_put-IsCoherent :
      (e' : Enforcer)
      → e'.cache ≡ cache
      → e'.store ≡ record e.store { users = put e.store.users u'.id u' }
      → IsCoherent e'
  user_put-IsCoherent e' same_cache same_store = record {
    stored = λ j set p. ground (
      arith,
      same_cache,
      same_store,
      h.stored j set,
      others j set,
      has_key-put e.store.users u'.id u' j,
    );
    exact = λ j set u q p k. elim (Bool-cases (u'.id == j)) [
      | inl here ↦ absurd (ground (arith, eq_iff u'.id j, here, cleared, same_cache, p))
      | inr other ↦
          let old : get e.store.users j ≡ some u =
            ground (arith, other, same_store, k, get-put e.store.users u'.id u' j) in
          let before : (has set q ≡ true) ↔ IsEntitled e.store u q =
            h.exact j set u q (others j set (ground (arith, same_cache, p))) old in
          let moved : IsEntitled e.store u q ↔ IsEntitled e'.store u q =
            IsEntitled-same e.store e'.store u q (λ n _.
              get_role-roles e.store e'.store (ap (λ (s : MemoryStore). s.roles) same_store) n) in
          (λ t. moved.0 (before.0 t), λ t. before.1 (moved.1 t))
    ];
  }

module _ (e : Enforcer) (h : IsCoherent e) (c : IsConsistent e) where
  removed :
      (id j : Text) (set : GrantedSet)
      → get (remove e.cache id) j ≡ some set
      → get e.cache j ≡ some set
  removed id j set p = ground (arith, get-remove e.cache id j)

  emptied : (id : Text) → get (remove e.cache id) id ≡ none
  emptied id = ground (arith, get-remove e.cache id id, eq_refl id)

  pub assign_role-IsCoherent : (id role : Text) → IsCoherent (assign_role id role e).1
  assign_role-IsCoherent id role = assign_role_state IsCoherent e h c id role λ u found.
      user_put-IsCoherent e h (record u { roles = u.roles ++ role ∷ [] }) (remove e.cache u.id)
        (emptied u.id) (removed u.id) _ refl refl

  pub revoke_role-IsCoherent : (id role : Text) → IsCoherent (revoke_role id role e).1
  revoke_role-IsCoherent id role = revoke_role_state IsCoherent e h c id role λ u found.
      user_put-IsCoherent e h (record u { roles = without u.roles role }) (remove e.cache u.id)
        (emptied u.id) (removed u.id) _ refl refl

  pub create_user-IsCoherent :
      (id : Text) (roles : List Text) → IsCoherent (Users.create_user id roles e).1
  create_user-IsCoherent id roles = create_user_state IsCoherent e h c id roles λ absent.
      user_put-IsCoherent e h (record { id = id; roles = roles; direct = [] }) e.cache
        (uncached id absent) (λ j set p. p) _ refl refl
    where
      uncached : (j : Text) → get e.store.users j ≡ none → get e.cache j ≡ none
      uncached j absent = elim (Option-cases (get e.cache j)) [
        | inl miss ↦ miss
        | inr (set, hit) ↦ absurd (ground (arith, absent, h.stored j set hit))
      ]

  pub grant_direct_permission-IsCoherent :
      (id : Text) (p : Permission) → IsCoherent (grant_direct_permission id p e).1
  grant_direct_permission-IsCoherent id p =
      grant_direct_permission_state IsCoherent e h c id p λ u ps found.
        user_put-IsCoherent e h (record u { direct = ps }) (remove e.cache u.id) (emptied u.id)
          (removed u.id) _ refl refl

  pub revoke_direct_permission-IsCoherent :
      (id : Text) (p : Permission) → IsCoherent (revoke_direct_permission id p e).1
  revoke_direct_permission-IsCoherent id p =
      revoke_direct_permission_state IsCoherent e h c id p λ u ps found.
        user_put-IsCoherent e h (record u { direct = ps }) (remove e.cache u.id) (emptied u.id)
          (removed u.id) _ refl refl

  -- A query caches a set that is right.
  cached-IsCoherent :
      (u : User) (set : GrantedSet)
      → get e.store.users u.id ≡ some u
      → ((q : Permission) → (has set q ≡ true) ↔ IsEntitled e.store u q)
      → IsCoherent (cached e u set)
  cached-IsCoherent u set found exact = record {
    stored =
        λ j old p. ground (arith, h.stored j old, get-put e.cache u.id set j, eq_iff u.id j, found);
    exact = λ j old v q p k. elim (Bool-cases (u.id == j)) [
      | inl here ↦
          let key : u.id ≡ j = (eq_iff u.id j).0 here in
          let same_user : u ≡ v = some-injective u v (sym found ∙ ap (get e.store.users) key ∙ k) in
          let same_set : set ≡ old = ground (arith, here, p, get-put e.cache u.id set j) in
          subst (λ t. (has t q ≡ true) ↔ IsEntitled e.store v q) same_set
            (subst (λ t. (has set q ≡ true) ↔ IsEntitled e.store t q) same_user (exact q))
      | inr other ↦ h.exact j old v q (ground (arith, other, p, get-put e.cache u.id set j)) k
    ];
  }

  pub full-IsCoherent : (id : Text) → IsCoherent (get_granted_set_full id e).1
  full-IsCoherent id =
      at_user e c id (λ t. IsCoherent (get_granted_set_full t e).1)
        (λ absent.
          subst⁻¹ (λ (t : Result (GrantedSet × User × List Text) × Enforcer). IsCoherent t.1)
            (full_absent e id absent) h)
        (λ u found. let (roles, resolved, full) = full_lem e u h found in kept_full u found full)
    where
      kept_full :
          {roles : List Text} (u : User)
          → get e.store.users u.id ≡ some u
          → Full e u roles
          → IsCoherent (get_granted_set_full u.id e).1
      kept_full u found (set, inl k, exact) =
          subst⁻¹ (λ (t : Result (GrantedSet × User × List Text) × Enforcer). IsCoherent t.1) k h
      kept_full u found (set, inr (miss, k), exact) =
          subst⁻¹ (λ (t : Result (GrantedSet × User × List Text) × Enforcer). IsCoherent t.1) k
            (cached-IsCoherent u set found exact)
