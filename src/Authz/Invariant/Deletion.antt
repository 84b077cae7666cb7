-- ===== src/Authz/Invariant/Deletion.antt =====
-- `DeleteUser` (authz/users.go) and the invariant of the enforcer.
use libauth.Store
use libauth.Authz.Users
use libauth.Authz.Users.{drop_holder, forget_user}
use libauth.Authz.Invariant.Sound.{users-IsAcyclic, IsSound}
use libauth.Authz.{Enforcer}
use libauth.Text.{eq_iff, ◌==◌, Text}
use libauth.Dict.{Dict, get, remove}
use libauth.Prelude.{refl, inr, false, ◌⊎◌, arith, some, none, ◌≡◌, inl}
use libauth.Model.{User}
use mathlib.Core.Path.{subst⁻¹}
use libauth.Dict.Laws.{get-remove}
use libauth.Authz.Indexes.{holds-drop_holder}

abbrev pub forgotten : Enforcer → Text → Enforcer
forgotten e id = record (forget_user id e) {
  store = record e.store { users = remove e.store.users id };
}

pub delete_user_cases :
    (e : Enforcer) (id : Text)
    → ((get e.store.users id ≡ none) × ((Users.delete_user id e).1 ≡ forget_user id e))
      ⊎ ((Users.delete_user id e).1 ≡ forgotten e id)
unfolding Users.delete_user Store.delete_user
delete_user_cases e id = ground arith

-- The indexes may forget a user whose record goes, or that has none.
forgotten-IsSound :
    (e : Enforcer) (id : Text) (users : Dict User)
    → IsSound e
    → ((j : Text) (u : User)
        → get users j ≡ some u
        → ((id == j) ≡ false) × (get e.store.users j ≡ some u))
    → ((j : Text) → (id == j) ≡ false → get users j ≡ get e.store.users j)
    → IsSound (record (forget_user id e) { store = record e.store { users = users } })
forgotten-IsSound e id users h old same = record {
  consistent = record {
    user_keys = λ j u p. h.consistent.user_keys j u (old j u p).1;
    role_keys = h.consistent.role_keys;
    direct_stored = λ j set p.
        ground (arith, get-remove e.direct_roles id j, h.consistent.direct_stored j set, same j);
    direct_exact = λ j set u r p q.
        h.consistent.direct_exact j set u r
          (ground (arith, p, get-remove e.direct_roles id j, (old j u q).0)) (old j u q).1;
    holders_complete = λ j u r p q. ground (
      arith,
      holds-drop_holder e.role_holders id r j,
      (old j u p).0,
      h.consistent.holders_complete j u r (old j u p).1 q,
    );
  };
  acyclic = users-IsAcyclic e.store _ refl h.acyclic;
}

pub delete_user-IsSound :
    (e : Enforcer) → IsSound e → (id : Text) → IsSound (Users.delete_user id e).1
delete_user-IsSound e h id = elim (delete_user_cases e id) [
  | inl (absent, k) ↦ subst⁻¹ IsSound k (
      forgotten-IsSound e id e.store.users h (λ j u p. (ground (arith, absent, p, eq_iff id j), p))
        (λ j _. refl))
  | inr k ↦ subst⁻¹ IsSound k (
      forgotten-IsSound e id (remove e.store.users id) h
        (λ j u p. (
          ground (arith, p, get-remove e.store.users id j),
          ground (arith, p, get-remove e.store.users id j),
        ))
        (λ j other. ground (arith, other, get-remove e.store.users id j)))
]
