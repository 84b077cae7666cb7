-- ===== src/Authz/Fresh.antt =====
-- The granted set that `computeAndCache` makes (authz/authz.go).
use libauth.Store
use libauth.Store.Lookup.{get_role_cases}
use libauth.Authz.Cache.{add_role, add_roles}
use libauth.Authz.Resolve.{resolve_roles}
use libauth.Authz.Resolve.Spec.{Holds}
use libauth.Authz.Resolve.Loop.{resolve_roles_lem}
use libauth.Authz.Granted.{has-add_permissions}
use libauth.Authz.{GrantedSet, has, add_permissions, no_grants}
use libauth.Model.{Permission, User, Role, matches}
use libauth.Prelude.{
  Bool-cases, false, arith, ◌||◌, refl, [], ◌∷◌, inr, inl, ◌↔◌, ◌⊎◌, true, any, ◌≡◌, Bool, List,
}
use libauth.Store.{MemoryStore}
use libauth.Text.{eq_refl, eq_iff, contains, Text}
use libauth.Errors.{err, Result, ok}
use libauth.Dict.{get}

-- Some pattern of the list covers the permission.
abbrev pub covered : List Permission → Permission → Bool
covered gs q = any (λ g. matches g q) gs

-- The user is granted the permission, directly or by a role that it holds effectively.
abbrev pub IsEntitled : MemoryStore → User → Permission → Type 0
IsEntitled s u q =
    (covered u.direct q ≡ true)
    ⊎ ((n : Text) × (r : Role) × Holds s u.roles n
        × (Store.get_role s n ≡ ok r)
        × (covered r.permissions q ≡ true))

-- What a role that was looked up grants.
abbrev granted : Result Role → Permission → Bool
granted (ok r) q = covered r.permissions q
granted (err e) q = false

abbrev among : MemoryStore → List Text → Permission → Bool
among s names q = any (λ n. granted (Store.get_role s n) q) names

add_roles_lem :
    (s : MemoryStore) (names : List Text) (g : GrantedSet)
    → (g' : GrantedSet) × (add_roles s names g ≡ ok g')
      × ((q : Permission) → has g' q ≡ (has g q || among s names q))
unfolding add_roles add_role
add_roles_lem s [] g = (g, refl, λ q. ground arith)
add_roles_lem s (x ∷ names) g = elim (get_role_cases s x) [
  | inl (r, found) ↦
      let (g', done, exact) = add_roles_lem s names (add_permissions g r.permissions) in
      (
        g',
        ground (arith, found, done),
        λ q. ground (arith, found, exact q, has-add_permissions g r.permissions q),
      )
  | inr gone ↦
      let (g', done, exact) = add_roles_lem s names g in
      (g', ground (arith, gone, done), λ q. ground (arith, gone, exact q))
]

-- The scan finds a role exactly if one of the names has a stored role with such a grant.
among_iff :
    (s : MemoryStore) (names : List Text) (q : Permission)
    → (among s names q ≡ true) ↔ (
        (n : Text) × (r : Role) × (contains names n ≡ true)
        × (Store.get_role s n ≡ ok r)
        × (covered r.permissions q ≡ true))
among_iff s names q = (sound names, λ (n, r, m, found, c). complete names n r m found c)
  where
    sound :
        (names : List Text)
        → among s names q ≡ true
        → (n : Text) × (r : Role) × (contains names n ≡ true)
          × (Store.get_role s n ≡ ok r)
          × (covered r.permissions q ≡ true)
    sound [] h = cc
    sound (x ∷ names) h = elim (Bool-cases (granted (Store.get_role s x) q)) [
      | inr nothing ↦
          let (n, r, m, found, c) = sound names (ground arith) in
          (n, r, ground (arith, m), found, c)
      | inl here ↦ elim (get_role_cases s x) [
        | inl (r, found) ↦ (x, r, ground (arith, eq_refl x), found, ground (arith, here, found))
        | inr gone ↦ absurd (ground (arith, here, gone))
      ]
    ]

    complete :
        (names : List Text) (n : Text) (r : Role)
        → contains names n ≡ true
        → Store.get_role s n ≡ ok r
        → covered r.permissions q ≡ true
        → among s names q ≡ true
    complete [] n r m found c = cc
    complete (x ∷ names) n r m found c = ground (arith, complete names n r, eq_iff x n, found, c)

has-no_grants : (q : Permission) → has no_grants q ≡ false
unfolding has get
has-no_grants q = refl

-- For any user over any store, the roles resolve, their grants are collected without an error, and
-- the set that results, with the direct permissions, covers exactly what the user is entitled to.
pub fresh_lem :
    (s : MemoryStore) (u : User)
    → (roles : List Text) × (g : GrantedSet) × (resolve_roles s u ≡ ok roles)
      × (add_roles s roles no_grants ≡ ok g)
      × ((q : Permission) → (has (add_permissions g u.direct) q ≡ true) ↔ IsEntitled s u q)
fresh_lem s u =
    let (roles, resolved, sorted, distinct, exact) = resolve_roles_lem s u in
    let (g, added, scan) = add_roles_lem s roles no_grants in
    (
      roles,
      g,
      resolved,
      added,
      λ q. (
        λ h. elim (Bool-cases (covered u.direct q)) [
          | inl direct ↦ inl direct
          | inr not_direct ↦
              let (n, r, m, found, c) =
                (among_iff s roles q).0
                  (ground (arith, scan q, has-no_grants q, has-add_permissions g u.direct q)) in
              inr (n, r, (exact n).0 m, found, c)
        ],
        λ c. elim c [
          | inl direct ↦ ground (arith, direct, has-add_permissions g u.direct q)
          | inr (n, r, holds, found, c) ↦ ground (
            arith,
            (among_iff s roles q).1 (n, r, (exact n).1 holds, found, c),
            scan q,
            has-no_grants q,
            has-add_permissions g u.direct q,
          )
        ],
      ),
    )
