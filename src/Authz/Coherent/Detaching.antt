-- ===== src/Authz/Coherent/Detaching.antt =====
-- The loop of `DeleteRole` (authz/roles.go) over the holders of the role, and the cached sets.
use libauth.Authz.{has, GrantedSet, Enforcer}
use libauth.Dict.{has_key, get}
use libauth.Authz.Roles.{detach_users, detach_user}
use libauth.Prelude.{
  inr, ap, inl, Bool-cases, refl, [], ◌↔◌, ◌∷◌, arith, true, false, some, ◌≡◌, List,
}
use libauth.Text.{eq_refl, eq_iff, contains, ◌==◌, Text}
use libauth.Model.{Role, Permission, User}
use libauth.Errors.{err, ok, Result}
use libauth.Authz.Invariant.{IsConsistent}
use libauth.Authz.Invariant.RoleDeletion.{
  detach_user-OnlyHeldBy, continue-EndsIn, OnlyHeldBy, detach_user_lem, detach_user_absent,
  detached, EndsIn,
}
use libauth.Authz.Outcome.Users.{at_user}
use libauth.Dict.Laws.{get-put, has_key-put}
use mathlib.Core.Path.{subst⁻¹}
use libauth.Authz.Fresh.{IsEntitled}
use libauth.Authz.Users.{without}
use libauth.Authz.Coherent.Entitled.{IsEntitled-same}
use libauth.Store.Lookup.{get_role-roles}
use libauth.Authz.Invariant.Sound.{IsSound}
use libauth.Authz.Coherent.Children.{Unheld-detached, UnheldAmong-map, UnheldAmong}

both :
    {A : Type 0} (P Q R : Enforcer → Type 0) (t : Result A × Enforcer)
    → EndsIn P Q t
    → EndsIn (λ _. Unit {0}) R t
    → EndsIn (λ _. Unit {0}) (λ e. Q e × R e) t
both P Q R (ok a, e) h k = (h, k)
both P Q R (err c, e) h k = tt

-- The cached sets are exact but for the listed users.
pub record IsCoherentBut (uids : List Text) (e : Enforcer) : Type 0 where
  pub stored :
      (j : Text) (set : GrantedSet) → get e.cache j ≡ some set → has_key e.store.users j ≡ true
  pub exact :
      (j : Text) (set : GrantedSet) (u : User) (q : Permission)
      → contains uids j ≡ false
      → get e.cache j ≡ some set
      → get e.store.users j ≡ some u
      → (has set q ≡ true) ↔ IsEntitled e.store u q

module _ (uids : List Text) (start : Enforcer) (name : Text) (rs : List Role) where
  detached-IsCoherentBut :
      (e : Enforcer) (u : User)
      → contains uids u.id ≡ true
      → IsCoherentBut uids e
      → IsCoherentBut uids (detached e u name)
  detached-IsCoherentBut e u listed h = record {
    stored = λ j set p. ground (
      arith,
      h.stored j set p,
      has_key-put e.store.users u.id (record u { roles = without u.roles name }) j,
    );
    exact = λ j set v q out p k. elim (Bool-cases (u.id == j)) [
      | inl here ↦ absurd (cc (ap (contains uids) ((eq_iff u.id j).0 here), listed, out))
      | inr other ↦
          let before : get e.store.users j ≡ some v = ground (
            arith,
            other,
            k,
            get-put e.store.users u.id (record u { roles = without u.roles name }) j,
          ) in
          let old = h.exact j set v q out p before in
          let moved : IsEntitled e.store v q ↔ IsEntitled (detached e u name).store v q =
            IsEntitled-same e.store (detached e u name).store v q
              (λ n _. get_role-roles e.store (detached e u name).store refl n) in
          (λ t. moved.0 (old.0 t), λ t. old.1 (moved.1 t))
    ];
  }

  -- The users lose the role one by one, and no role changes.
  pub record IsDetaching (e : Enforcer) : Type 0 where
    pub same_roles : e.store.roles ≡ start.store.roles
    pub others : IsCoherentBut uids e
    pub children : UnheldAmong e name rs

  detached-IsDetaching :
      (e : Enforcer) (u : User)
      → get e.store.users u.id ≡ some u
      → contains uids u.id ≡ true
      → IsDetaching e
      → IsDetaching (detached e u name)
  detached-IsDetaching e u found listed h = record {
    same_roles = h.same_roles;
    others = detached-IsCoherentBut e u listed h.others;
    children =
        UnheldAmong-map e (detached e u name) name rs (λ n. Unheld-detached e u name n found)
          h.children;
  }

  abbrev Reached : Result (Unit {0}) × Enforcer → Type 0
  Reached = EndsIn (λ _. Unit {0}) IsDetaching

  detach_user-IsDetaching :
      (e : Enforcer) (uid : Text)
      → IsConsistent e
      → contains uids uid ≡ true
      → IsDetaching e
      → Reached (detach_user name uid e)
  detach_user-IsDetaching e uid c listed h =
      at_user e c uid (λ t. contains uids t ≡ true → Reached (detach_user name t e))
        (λ absent _. subst⁻¹ Reached (detach_user_absent e name uid absent) tt)
        (λ u found member. elim (detach_user_lem e name u found) [
          | inl done ↦ subst⁻¹ Reached done (detached-IsDetaching e u found member h)
          | inr failed ↦ subst⁻¹ Reached failed tt
        ])
        listed

  pub detach_users-IsDetaching :
      (pending : List Text) (e : Enforcer)
      → ((j : Text) → contains pending j ≡ true → contains uids j ≡ true)
      → OnlyHeldBy name pending e
      → IsDetaching e
      → EndsIn
          (λ _. Unit {0})
          (λ e'. OnlyHeldBy name [] e' × IsDetaching e')
          (detach_users name pending e)
  unfolding detach_users
  detach_users-IsDetaching [] e within only h = (only, h)
  detach_users-IsDetaching (uid ∷ pending) e within only h =
      continue-EndsIn (λ _. Unit {0}) (λ e'. OnlyHeldBy name pending e' × IsDetaching e')
        (λ e'. OnlyHeldBy name [] e' × IsDetaching e') (detach_user name uid e)
        (λ _. detach_users name pending)
        (both IsSound (OnlyHeldBy name pending) IsDetaching (detach_user name uid e)
          (detach_user-OnlyHeldBy name uid pending e only)
          (detach_user-IsDetaching e uid only.0.consistent
            (within uid (ground (arith, eq_refl uid))) h))
        (λ _ e' k.
          detach_users-IsDetaching pending e' (λ j member. within j (ground (arith, member))) k.0
            k.1)
