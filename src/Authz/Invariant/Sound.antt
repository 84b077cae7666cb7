-- ===== src/Authz/Invariant/Sound.antt =====
-- Consistent indexes over an acyclic hierarchy (authz/users.go, authz/roles.go, authz/validate.go).
use libauth.Authz.Invariant.{IsConsistent, user_written, user_written-IsConsistent}
use libauth.Authz.Outcome.Users.{assigned, revoked, created, redirected}
use libauth.Authz.Outcome.Roles.{role_written, IsPlaced}
use libauth.Authz.Validate.Spec.{Clear, IsAcyclic, Ends}
use libauth.Authz.Validate.Exact.{validate_iff}
use libauth.Authz.Validate.Hierarchy.{same_parents-IsAcyclic, Clear-Ends, change-IsAcyclic}
use libauth.Store
use libauth.Authz.{GrantedSet, Enforcer}
use libauth.Store.{MemoryStore}
use libauth.Prelude.{
  ◌⊎◌, ℕ, inr, sym, ap, inl, refl, Bool-cases, true, if◌then◌else◌, ◌∷◌, false, arith, ◌++◌, [],
  some, ◌∙◌, List, ◌≡◌,
}
use libauth.Model.{Permission, Role, User}
use libauth.Text.{contains, eq_iff, eq_refl, ◌==◌, Text}
use libauth.Store.Lookup.{is_ok, get_role-get, get_role-put, get_role-roles}
use libauth.Dict.{put, Names, get, Dict}
use libauth.Authz.Users.{without}
use libauth.Authz.Indexes.{
  contains-without, holds-with_holder, holds, holds-with_holders, holds-without_holder,
}
use libauth.Dict.Laws.{has_key-put, get-put}
use libauth.Authz.Resolve.Queue.{contains-snoc}
use mathlib.Core.Path.{subst}
use libauth.Errors.{role_not_found, err, ok}
use libauth.Authz.Validate.{validate_inheritance}

pub record IsSound (e : Enforcer) : Type 0 where
  pub consistent : IsConsistent e
  pub acyclic : IsAcyclic e.store

-- The hierarchy does not depend on the users.
pub users-IsAcyclic : (s s' : MemoryStore) → s'.roles ≡ s.roles → IsAcyclic s → IsAcyclic s'
users-IsAcyclic s s' same h = record { ends = λ n. users-Ends (h.ends n) }
  where
    get_role_same : (n : Text) → Store.get_role s' n ≡ Store.get_role s n
    get_role_same n = get_role-roles s s' same n

    users-Ends : {n : Text} → Ends s n → Ends s' n
    users-Ends (Ends.root top) = Ends.root top
    users-Ends (Ends.missing {n = n} absent) = Ends.missing (get_role_same n ∙ absent)
    users-Ends (Ends.next {n = n} r found c) = Ends.next r (get_role_same n ∙ found) (users-Ends c)

-- The chain of a role at a valid place ends in the store that holds the role.
valid-IsAcyclic :
    (s : MemoryStore) (max_depth : ℕ) (r : Role)
    → validate_inheritance s max_depth r ≡ ok tt
    → IsAcyclic s
    → IsAcyclic (record s { roles = put s.roles r.name r })
valid-IsAcyclic s max_depth r valid h =
    change-IsAcyclic s _ r.name same
      (Ends.next r itself (above ((validate_iff s max_depth r).0 valid))) h
  where
    same :
        (m : Text)
        → (r.name == m) ≡ false
        → Store.get_role (record s { roles = put s.roles r.name r }) m ≡ Store.get_role s m
    same m other = ground (arith, other, get_role-put s r m)

    itself : Store.get_role (record s { roles = put s.roles r.name r }) r.name ≡ ok r
    itself = ground (arith, eq_refl r.name, get_role-put s r r.name)

    above :
        ((r.parent == []) ≡ true)
          ⊎ ((is_ok (Store.get_role s r.parent) ≡ true) × Clear s r.name max_depth r.parent)
        → Ends (record s { roles = put s.roles r.name r }) r.parent
    above (inl top) = Ends.root top
    above (inr (known, clear)) = Clear-Ends s _ r.name same clear

-- A role that keeps its parent keeps the hierarchy.
kept-IsAcyclic :
    (s : MemoryStore) (r old : Role)
    → get s.roles r.name ≡ some old
    → old.parent ≡ r.parent
    → IsAcyclic s
    → IsAcyclic (record s { roles = put s.roles r.name r })
kept-IsAcyclic s r old found same h = same_parents-IsAcyclic s _ stored absent h
  where
    stored :
        (n : Text) (q : Role)
        → Store.get_role s n ≡ ok q
        → (q' : Role) × (Store.get_role (record s { roles = put s.roles r.name r }) n ≡ ok q')
          × (q.parent ≡ q'.parent)
    stored n q got = elim (Bool-cases (r.name == n)) [
      | inl here ↦ (
        r,
        ground (arith, here, get_role-put s r n),
        ground (arith, (get_role-get s n q).1 got, eq_iff r.name n, here, found, same),
      )
      | inr other ↦ (q, ground (arith, other, got, get_role-put s r n), refl)
    ]

    absent :
        (n : Text)
        → Store.get_role s n ≡ err role_not_found
        → Store.get_role (record s { roles = put s.roles r.name r }) n ≡ err role_not_found
    absent n gone =
        ground
          (arith, gone, get_role-put s r n, eq_iff r.name n, (get_role-get s r.name old).0 found)

placed-IsAcyclic :
    (e : Enforcer) (r : Role)
    → IsPlaced e r
    → IsAcyclic e.store
    → IsAcyclic (record e.store { roles = put e.store.roles r.name r })
placed-IsAcyclic e r (inl valid) h = valid-IsAcyclic e.store e.max_depth r valid h
placed-IsAcyclic e r (inr (old, found, same)) h = kept-IsAcyclic e.store r old found same h

module _ (e : Enforcer) (h : IsSound e) where
  pub user_written-IsSound :
      (u' : User) (holders : Dict Names) (cache : Dict GrantedSet)
      → ((r j : Text)
          → (u'.id == j) ≡ false
          → holds e.role_holders r j ≡ true
          → holds holders r j ≡ true)
      → ((r : Text) → contains u'.roles r ≡ true → holds holders r u'.id ≡ true)
      → IsSound (user_written e u' holders cache)
  user_written-IsSound u' holders cache others own = record {
    consistent = user_written-IsConsistent e h.consistent u' holders cache others own;
    acyclic = users-IsAcyclic e.store _ refl h.acyclic;
  }

  pub assigned-IsSound :
      (u : User) (role : Text) → get e.store.users u.id ≡ some u → IsSound (assigned e u role)
  assigned-IsSound u role found =
      user_written-IsSound (record u { roles = u.roles ++ role ∷ [] }) _ _
        (λ r j other p. ground (arith, holds-with_holder e.role_holders u.id role r j))
        (λ r p. ground (
          arith,
          holds-with_holder e.role_holders u.id role r u.id,
          h.consistent.holders_complete u.id u r found,
          contains-snoc u.roles role r,
          eq_refl u.id,
        ))

  pub revoked-IsSound :
      (u : User) (role : Text) (cache : Dict GrantedSet)
      → get e.store.users u.id ≡ some u
      → IsSound (record (revoked e u role) { cache = cache })
  revoked-IsSound u role cache found =
      user_written-IsSound (record u { roles = without u.roles role }) _ _
        (λ r j other p. ground (arith, holds-without_holder e.role_holders u.id role r j))
        (λ r p. ground (
          arith,
          holds-without_holder e.role_holders u.id role r u.id,
          h.consistent.holders_complete u.id u r found,
          contains-without u.roles role r,
        ))

  pub created-IsSound : (id : Text) (roles : List Text) → IsSound (created e id roles)
  created-IsSound id roles =
      user_written-IsSound (record { id = id; roles = roles; direct = [] }) _ _
        (λ r j other p. ground (arith, holds-with_holders e.role_holders id roles r j))
        (λ r p. ground (arith, holds-with_holders e.role_holders id roles r id, eq_refl id))

  pub redirected-IsSound :
      (u : User) (ps : List Permission)
      → get e.store.users u.id ≡ some u
      → IsSound (redirected e u ps)
  redirected-IsSound u ps found = record {
    consistent = record {
      user_keys = λ j v p. ground (arith, h.consistent.user_keys j v, law j, eq_iff u.id j);
      role_keys = h.consistent.role_keys;
      direct_stored = λ j set p. ground (
        arith,
        h.consistent.direct_stored j set,
        has_key-put e.store.users u.id (record u { direct = ps }) j,
      );
      direct_exact = λ j set v r p q. elim (Bool-cases (u.id == j)) [
        | inl here ↦
            h.consistent.direct_exact j set u r p
              (ap (get e.store.users) (sym ((eq_iff u.id j).0 here)) ∙ found)
            ∙ ap (λ (t : User). contains t.roles r) (written j v here q)
        | inr other ↦ h.consistent.direct_exact j set v r p (ground (arith, other, law j))
      ];
      holders_complete = λ j v r p q. elim (Bool-cases (u.id == j)) [
        | inl here ↦
            subst (λ t. holds e.role_holders r t ≡ true) ((eq_iff u.id j).0 here)
              (h.consistent.holders_complete u.id u r found
                (ap (λ (t : User). contains t.roles r) (written j v here p) ∙ q))
        | inr other ↦ h.consistent.holders_complete j v r (ground (arith, other, law j)) q
      ];
    };
    acyclic = users-IsAcyclic e.store _ refl h.acyclic;
  }
    where
      law :
          (j : Text)
          → get (put e.store.users u.id (record u { direct = ps })) j
            ≡ (if u.id == j then some (record u { direct = ps }) else get e.store.users j)
      law j = get-put e.store.users u.id (record u { direct = ps }) j

      written :
          (j : Text) (v : User)
          → (u.id == j) ≡ true
          → get (put e.store.users u.id (record u { direct = ps })) j ≡ some v
          → record u { direct = ps } ≡ v
      written j v here p = ground (arith, here, law j)

  -- A role that is written at a valid place, or at its own.
  pub role_written-IsSound :
      (r : Role) (cache : Dict GrantedSet) → IsPlaced e r → IsSound (role_written e r cache)
  role_written-IsSound r cache placed = record {
    consistent = record {
      user_keys = h.consistent.user_keys;
      role_keys = λ n q p.
          ground
            (arith, h.consistent.role_keys n q, get-put e.store.roles r.name r n, eq_iff r.name n);
      direct_stored = h.consistent.direct_stored;
      direct_exact = h.consistent.direct_exact;
      holders_complete = h.consistent.holders_complete;
    };
    acyclic = placed-IsAcyclic e r placed h.acyclic;
  }
