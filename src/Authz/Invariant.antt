-- ===== src/Authz/Invariant.antt =====
-- The invariant of the enforcer (authz/authz.go): its store and its two indexes.
pub mod Sound
pub mod Queries
pub mod Deletion
pub mod RoleDeletion
use libauth.Prelude.{sym, ap, inr, ◌∙◌, inl, Bool-cases, arith, false, some, ◌≡◌, true}
use libauth.Authz.Indexes.{entry_exact, get-with_roles, holds}
use libauth.Authz.{with_roles, GrantedSet, Enforcer}
use libauth.Text.{eq_iff, ◌==◌, contains, Text}
use libauth.Model.{Role, User}
use libauth.Dict.{put, Dict, has_key, Names, get}
use libauth.Dict.Laws.{has_key-put, get-put}
use mathlib.Core.Path.{subst}

pub record IsConsistent (e : Enforcer) : Type 0 where
  -- Records are stored under their own names.
  pub user_keys : (j : Text) (u : User) → get e.store.users j ≡ some u → u.id ≡ j
  pub role_keys : (n : Text) (r : Role) → get e.store.roles n ≡ some r → r.name ≡ n
  -- A cached set of direct roles belongs to a stored user and has the roles of that user.
  pub direct_stored :
      (j : Text) (set : Names) → get e.direct_roles j ≡ some set → has_key e.store.users j ≡ true
  pub direct_exact :
      (j : Text) (set : Names) (u : User) (r : Text)
      → get e.direct_roles j ≡ some set
      → get e.store.users j ≡ some u
      → has_key set r ≡ contains u.roles r
  -- Whoever holds a role directly is among its holders.
  pub holders_complete :
      (j : Text) (u : User) (r : Text)
      → get e.store.users j ≡ some u
      → contains u.roles r ≡ true
      → holds e.role_holders r j ≡ true

-- The enforcer once a user's record and roles have been written, with new holders and a new cache.
abbrev pub user_written : Enforcer → User → Dict Names → Dict GrantedSet → Enforcer
user_written e u holders cache = record e {
  store = record e.store { users = put e.store.users u.id u };
  role_holders = holders;
  direct_roles = with_roles e.direct_roles u.id u.roles;
  cache = cache;
}

module _ (e : Enforcer) (h : IsConsistent e) (u' : User) (holders : Dict Names)
    (cache : Dict GrantedSet)
    (others : (r j : Text)
      → (u'.id == j) ≡ false
      → holds e.role_holders r j ≡ true
      → holds holders r j ≡ true)
    (own : (r : Text) → contains u'.roles r ≡ true → holds holders r u'.id ≡ true) where
  written_stored :
      (j : Text) (set : Names)
      → get (with_roles e.direct_roles u'.id u'.roles) j ≡ some set
      → has_key (put e.store.users u'.id u') j ≡ true
  written_stored j set p = ground (
    arith,
    get-with_roles e.direct_roles u'.id u'.roles j,
    has_key-put e.store.users u'.id u' j,
    h.direct_stored j set,
  )

  written_here :
      (j : Text) (u : User)
      → (u'.id == j) ≡ true
      → get (put e.store.users u'.id u') j ≡ some u
      → u' ≡ u
  written_here j u here p = ground (arith, here, get-put e.store.users u'.id u' j)

  written_exact :
      (j : Text) (set : Names) (u : User) (r : Text)
      → get (with_roles e.direct_roles u'.id u'.roles) j ≡ some set
      → get (put e.store.users u'.id u') j ≡ some u
      → has_key set r ≡ contains u.roles r
  written_exact j set u r p q = elim (Bool-cases (u'.id == j)) [
    | inl here ↦
        entry_exact u'.roles set r
          (ground (arith, here, get-with_roles e.direct_roles u'.id u'.roles j))
        ∙ ap (λ (t : User). contains t.roles r) (written_here j u here q)
    | inr other ↦
        h.direct_exact j set u r
          (ground (arith, other, get-with_roles e.direct_roles u'.id u'.roles j))
          (ground (arith, other, get-put e.store.users u'.id u' j))
  ]

  written_holders :
      (j : Text) (u : User) (r : Text)
      → get (put e.store.users u'.id u') j ≡ some u
      → contains u.roles r ≡ true
      → holds holders r j ≡ true
  written_holders j u r p q = elim (Bool-cases (u'.id == j)) [
    | inl here ↦
        subst (λ t. holds holders r t ≡ true) ((eq_iff u'.id j).0 here)
          (own r
            (subst (λ (t : User). contains t.roles r ≡ true) (sym (written_here j u here p)) q))
    | inr other ↦
        others r j other
          (h.holders_complete j u r (ground (arith, other, get-put e.store.users u'.id u' j)) q)
  ]

  pub user_written-IsConsistent : IsConsistent (user_written e u' holders cache)
  user_written-IsConsistent = record {
    user_keys =
        λ j u p. ground (arith, h.user_keys j u, get-put e.store.users u'.id u' j, eq_iff u'.id j);
    role_keys = h.role_keys;
    direct_stored = written_stored;
    direct_exact = written_exact;
    holders_complete = written_holders;
  }
