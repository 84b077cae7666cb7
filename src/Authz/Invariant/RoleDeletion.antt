-- ===== src/Authz/Invariant/RoleDeletion.antt =====
-- `DeleteRole` (authz/roles.go) and the invariant of the enforcer: taking the role from its holders.
pub mod Rest
use libauth.Store
use libauth.Authz.{without_holder, Enforcer}
use libauth.Dict.{Dict, put, get}
use libauth.Authz.Users.{without}
use libauth.Authz.Roles.{detach_users, detach_user}
use libauth.Errors.{empty_name, user_not_found, err, ok, Result}
use libauth.Prelude.{
  inr, inl, true, Bool-cases, refl, [], ◌⊎◌, arith, ◌∷◌, none, ◌≤◌, some, ◌≡◌, length, List,
}
use libauth.Model.{User}
use libauth.Text.{eq_refl, ◌==◌, contains, Text}
use libauth.Authz.Exec.{continue, Exec}
use libauth.Authz.Invariant.{user_written}
use libauth.Authz.Invariant.Sound.{revoked-IsSound, IsSound}
use libauth.Authz.Outcome.Users.{at_user}
use mathlib.Core.Path.{subst⁻¹}
use libauth.Dict.Laws.{get-put}
use libauth.Authz.Indexes.{contains-without}

-- A run ends in `Q`, or with an error in `P`.
abbrev pub EndsIn :
    {A : Type 0} → (Enforcer → Type 0) → (Enforcer → Type 0) → Result A × Enforcer → Type 0
EndsIn P Q (ok a, e) = Q e
EndsIn P Q (err c, e) = P e

pub continue-EndsIn :
    {A B : Type 0} (P Q R : Enforcer → Type 0) (t : Result A × Enforcer) (f : A → Exec B)
    → EndsIn P Q t
    → ((a : A) (e : Enforcer) → Q e → EndsIn P R (f a e))
    → EndsIn P R (continue t.0 f t.1)
continue-EndsIn P Q R (ok a, e) f h k = k a e h
continue-EndsIn P Q R (err c, e) f h k = h

put-same : {V : Type 0} (m : Dict V) (k : Text) (v : V) → get m k ≡ some v → put m k v ≡ m
unfolding get put
put-same [] k v h = cc
put-same ((j, w) ∷ m) k v h = ground (arith, put-same m k v)

without-le : (rs : List Text) (name : Text) → length (without rs name) ≤ length rs
unfolding without
without-le [] name = omega arith
without-le (r ∷ rs) name = ground (arith, without-le rs name)

-- Nothing was taken out if nothing is missing.
without-same :
    (rs : List Text) (name : Text) → length (without rs name) ≡ length rs → without rs name ≡ rs
unfolding without
without-same [] name h = refl
without-same (r ∷ rs) name h = ground (arith, without-le rs name, without-same rs name)

-- One holder without the role; the cached set stays for now.
abbrev pub detached : Enforcer → User → Text → Enforcer
detached e u name =
    user_written e (record u { roles = without u.roles name })
      (without_holder e.role_holders u.id name) e.cache

pub detach_user_lem :
    (e : Enforcer) (name : Text) (u : User)
    → get e.store.users u.id ≡ some u
    → (detach_user name u.id e ≡ (ok tt, detached e u name))
      ⊎ (detach_user name u.id e ≡ (err empty_name, e))
unfolding detach_user Store.get_user Store.update_user
detach_user_lem e name u found = ground (
  arith,
  found,
  without-same u.roles name,
  put-same e.store.users u.id (record u { roles = without u.roles name }),
)

pub detach_user_absent :
    (e : Enforcer) (name id : Text)
    → get e.store.users id ≡ none
    → detach_user name id e ≡ (err user_not_found, e)
unfolding detach_user Store.get_user
detach_user_absent e name id absent = ground (arith, absent)

-- Only the listed users may still hold the role.
abbrev pub OnlyHeldBy : Text → List Text → Enforcer → Type 0
OnlyHeldBy name uids e =
    IsSound e
    × ((j : Text) (u : User)
        → get e.store.users j ≡ some u
        → contains u.roles name ≡ true
        → contains uids j ≡ true)

detached-OnlyHeldBy :
    (e : Enforcer) (name : Text) (u : User) (uids : List Text)
    → get e.store.users u.id ≡ some u
    → OnlyHeldBy name (u.id ∷ uids) e
    → OnlyHeldBy name uids (detached e u name)
detached-OnlyHeldBy e name u uids found (h, only) = (
  revoked-IsSound e h u name e.cache found,
  λ j v p held. elim (Bool-cases (u.id == j)) [
    | inl here ↦
        let same : record u { roles = without u.roles name } ≡ v = ground (
          arith,
          here,
          p,
          get-put e.store.users u.id (record u { roles = without u.roles name }) j,
        ) in
        let gone : contains (without u.roles name) name ≡ true =
          subst⁻¹ (λ (t : User). contains t.roles name ≡ true) same held in
        absurd (ground (arith, gone, contains-without u.roles name name, eq_refl name))
    | inr other ↦
        let before : get e.store.users j ≡ some v = ground (
          arith,
          other,
          p,
          get-put e.store.users u.id (record u { roles = without u.roles name }) j,
        ) in
        ground (arith, other, only j v before held)
  ],
)

pub detach_user-OnlyHeldBy :
    (name uid : Text) (uids : List Text) (e : Enforcer)
    → OnlyHeldBy name (uid ∷ uids) e
    → EndsIn IsSound (OnlyHeldBy name uids) (detach_user name uid e)
detach_user-OnlyHeldBy name uid uids e h =
    at_user e h.0.consistent uid
      (λ t.
        OnlyHeldBy name (t ∷ uids) e → EndsIn IsSound (OnlyHeldBy name uids) (detach_user name t e))
      (λ absent k.
        subst⁻¹ (EndsIn IsSound (OnlyHeldBy name uids)) (detach_user_absent e name uid absent) h.0)
      (λ u found k. elim (detach_user_lem e name u found) [
        | inl done ↦
            subst⁻¹ (EndsIn IsSound (OnlyHeldBy name uids)) done
              (detached-OnlyHeldBy e name u uids found k)
        | inr failed ↦ subst⁻¹ (EndsIn IsSound (OnlyHeldBy name uids)) failed h.0
      ])
      h

pub detach_users-OnlyHeldBy :
    (name : Text) (uids : List Text) (e : Enforcer)
    → OnlyHeldBy name uids e
    → EndsIn IsSound (OnlyHeldBy name []) (detach_users name uids e)
unfolding detach_users
detach_users-OnlyHeldBy name [] e h = h
detach_users-OnlyHeldBy name (uid ∷ uids) e h =
    continue-EndsIn IsSound (OnlyHeldBy name uids) (OnlyHeldBy name []) (detach_user name uid e)
      (λ _. detach_users name uids) (detach_user-OnlyHeldBy name uid uids e h)
      (λ _. detach_users-OnlyHeldBy name uids)
