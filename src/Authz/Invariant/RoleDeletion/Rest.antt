-- ===== src/Authz/Invariant/RoleDeletion/Rest.antt =====
-- The rest of `DeleteRole`, once no user holds the role: its children, the index, the role itself.
use libauth.Authz.Exec.{read, modify, ◌>>=◌, ◌>>◌}
use libauth.Store
use libauth.Authz.Roles
use libauth.Authz.Validate.Spec.{Ends}
use libauth.Text.{eq_refl, eq_iff, contains, Text, ◌==◌}
use libauth.Authz.Roles.{
  invalidate_users, forget_holders, detach_users, holders_of, detach_children, detach_child,
}
use libauth.Dict.{has_key, remove, Dict, get}
use libauth.Errors.{role_not_found, empty_name, err, Error, ok, Result}
use libauth.Authz.{names_at, remove_all, GrantedSet, Enforcer}
use libauth.Model.{Role}
use libauth.Prelude.{true, refl, ◌∷◌, inr, Bool-cases, arith, [], inl, ◌⊎◌, ◌≡◌, List}
use libauth.Authz.Invariant.Sound.{role_written-IsSound, IsSound}
use libauth.Authz.Exec.{Exec, write}
use libauth.Authz.Invariant.RoleDeletion.{
  detach_users-OnlyHeldBy, err, continue-EndsIn, ok, OnlyHeldBy, EndsIn,
}
use libauth.Authz.Outcome.Roles.{holders_dropped, role_written, IsPlaced}
use mathlib.Core.Path.{subst⁻¹}
use libauth.Authz.Validate.Exact.{validate_iff}
use libauth.Dict.Laws.{contains-keys, get-remove}
use libauth.Store.Lookup.{get_role-remove, get_role_cases}
use libauth.Authz.Validate.Hierarchy.{change-IsAcyclic}

orphan-IsPlaced : (e : Enforcer) (r : Role) → IsPlaced e (record r { parent = [] })
unfolding ◌==◌
orphan-IsPlaced e r =
    inl ((validate_iff e.store e.max_depth (record r { parent = [] })).1 (inl refl))

pub detach_child_cases :
    (e : Enforcer) (name : Text) (r : Role)
    → (detach_child name r e ≡ (ok tt, e))
      ⊎ ((c : Error) × (detach_child name r e ≡ (err c, e)))
      ⊎ (((r.parent == name) ≡ true)
          × (detach_child name r e
              ≡ (ok tt, role_written e (record r { parent = [] }) (holders_dropped e r.name))))
unfolding detach_child Store.update_role
detach_child_cases e name r = elim (Bool-cases (r.parent == name)) [
  | inr other ↦ inl (ground (arith, other))
  | inl child ↦ elim (Bool-cases (r.name == [])) [
    | inl nameless ↦ inr (inl (empty_name, ground (arith, child, nameless)))
    | inr named ↦ elim (Bool-cases (has_key e.store.roles r.name)) [
      | inl stored ↦ inr (inr (child, ground (arith, child, named, stored)))
      | inr absent ↦ inr (inl (role_not_found, ground (arith, child, named, absent)))
    ]
  ]
]

detach_child-OnlyHeldBy :
    (name : Text) (r : Role) (e : Enforcer)
    → OnlyHeldBy name [] e
    → EndsIn IsSound (OnlyHeldBy name []) (detach_child name r e)
detach_child-OnlyHeldBy name r e h = elim (detach_child_cases e name r) [
  | inl k ↦ subst⁻¹ (EndsIn IsSound (OnlyHeldBy name [])) k h
  | inr (inl (c, k)) ↦ subst⁻¹ (EndsIn IsSound (OnlyHeldBy name [])) k h.0
  | inr (inr (child, k)) ↦ subst⁻¹ (EndsIn IsSound (OnlyHeldBy name [])) k (
    role_written-IsSound e h.0 (record r { parent = [] }) (holders_dropped e r.name)
        (orphan-IsPlaced e r),
    h.1,
  )
]

detach_children-OnlyHeldBy :
    (name : Text) (rs : List Role) (e : Enforcer)
    → OnlyHeldBy name [] e
    → EndsIn IsSound (OnlyHeldBy name []) (detach_children name rs e)
unfolding detach_children
detach_children-OnlyHeldBy name [] e h = h
detach_children-OnlyHeldBy name (r ∷ rs) e h =
    continue-EndsIn IsSound (OnlyHeldBy name []) (OnlyHeldBy name []) (detach_child name r e)
      (λ _. detach_children name rs) (detach_child-OnlyHeldBy name r e h)
      (λ _. detach_children-OnlyHeldBy name rs)

-- The index may forget the holders of a role that nobody holds, and the caches may change.
index_dropped-IsSound :
    (name : Text) (e : Enforcer) (cache : Dict GrantedSet)
    → OnlyHeldBy name [] e
    → IsSound (record e { role_holders = remove e.role_holders name; cache = cache })
unfolding get
index_dropped-IsSound name e cache (h, only) = record {
  consistent = record {
    user_keys = h.consistent.user_keys;
    role_keys = h.consistent.role_keys;
    direct_stored = h.consistent.direct_stored;
    direct_exact = h.consistent.direct_exact;
    holders_complete = λ j u r p held. elim (Bool-cases (name == r)) [
      | inl here ↦
          absurd (
            cc
              (only j u p (subst⁻¹ (λ t. contains u.roles t ≡ true) ((eq_iff name r).0 here) held)))
      | inr other ↦ ground (
        arith,
        other,
        get-remove e.role_holders name r,
        h.consistent.holders_complete j u r p held,
      )
    ];
  };
  acyclic = h.acyclic;
}

-- Without one role, the other chains of parents end as before, or where the role was.
role_removed-IsSound :
    (name : Text) (e : Enforcer)
    → IsSound e
    → IsSound (record e { store = record e.store { roles = remove e.store.roles name } })
role_removed-IsSound name e h = record {
  consistent = record {
    user_keys = h.consistent.user_keys;
    role_keys =
        λ n r p. h.consistent.role_keys n r (ground (arith, p, get-remove e.store.roles name n));
    direct_stored = h.consistent.direct_stored;
    direct_exact = h.consistent.direct_exact;
    holders_complete = h.consistent.holders_complete;
  };
  acyclic =
      change-IsAcyclic e.store _ name
        (λ m other. ground (arith, other, get_role-remove e.store name m))
        (Ends.missing (ground (arith, eq_refl name, get_role-remove e.store name name))) h.acyclic;
}

finished_cases :
    (name : Text) (e : Enforcer)
    → ((write (λ s. Store.delete_role s name) e).1 ≡ e)
      ⊎ ((write (λ s. Store.delete_role s name) e).1
          ≡ record e { store = record e.store { roles = remove e.store.roles name } })
unfolding Store.delete_role
finished_cases name e = ground arith

finished-IsSound :
    (name : Text) (e : Enforcer) → IsSound e → IsSound (write (λ s. Store.delete_role s name) e).1
finished-IsSound name e h = elim (finished_cases name e) [
  | inl k ↦ subst⁻¹ IsSound k h
  | inr k ↦ subst⁻¹ IsSound k (role_removed-IsSound name e h)
]

any_end : {A : Type 0} (t : Result A × Enforcer) → EndsIn IsSound IsSound t → IsSound t.1
any_end (ok a, e) h = h
any_end (err c, e) h = h

end_any : {A : Type 0} (t : Result A × Enforcer) → IsSound t.1 → EndsIn IsSound IsSound t
end_any (ok a, e) h = h
end_any (err c, e) h = h

-- Everybody who holds the role is among the holders that the enforcer knows of.
pub known-OnlyHeldBy :
    (name : Text) (e : Enforcer) → IsSound e → OnlyHeldBy name (holders_of name e) e
known-OnlyHeldBy name e h = (
  h,
  λ j u p held. ground (
    arith,
    contains-keys (names_at e.role_holders name) j,
    h.consistent.holders_complete j u name p held,
  ),
)

abbrev pub last_steps : Text → List Text → Exec (Unit {0})
last_steps name uids = do
  modify (forget_holders name)
  modify (invalidate_users uids)
  write (λ s. Store.delete_role s name)

last_steps-IsSound :
    (name : Text) (uids : List Text) (e : Enforcer)
    → OnlyHeldBy name [] e
    → EndsIn IsSound IsSound (last_steps name uids e)
last_steps-IsSound name uids e h = end_any (last_steps name uids e) (
    finished-IsSound name
      (record e { role_holders = remove e.role_holders name; cache = remove_all e.cache uids })
      (index_dropped-IsSound name e (remove_all e.cache uids) h))

-- The steps after the role was looked up.
abbrev pub steps : Text → List Text → Exec (Unit {0})
steps name uids = do
  detach_users name uids
  roles ← read (λ s. ok (Store.list_roles s))
  detach_children name roles
  last_steps name uids

steps-IsSound :
    (name : Text) (uids : List Text) (e : Enforcer)
    → OnlyHeldBy name uids e
    → EndsIn IsSound IsSound (steps name uids e)
steps-IsSound name uids e h =
    continue-EndsIn IsSound (OnlyHeldBy name []) IsSound (detach_users name uids e)
      (λ _ e1.
        (do
          roles ← read (λ s. ok (Store.list_roles s))
          detach_children name roles
          last_steps name uids)
          e1)
      (detach_users-OnlyHeldBy name uids e h)
      (λ _ e1 h1.
        continue-EndsIn IsSound (OnlyHeldBy name []) IsSound
          (detach_children name (Store.list_roles e1.store) e1) (λ _. last_steps name uids)
          (detach_children-OnlyHeldBy name (Store.list_roles e1.store) e1 h1)
          (λ _ e2 h2. last_steps-IsSound name uids e2 h2))

pub delete_role_cases :
    (e : Enforcer) (name : Text)
    → (Roles.delete_role name e ≡ (err role_not_found, e))
      ⊎ (Roles.delete_role name e ≡ steps name (holders_of name e) e)
unfolding Roles.delete_role
delete_role_cases e name = elim (get_role_cases e.store name) [
  | inl (r, found) ↦ inr (rw found refl)
  | inr absent ↦ inl (rw absent refl)
]

-- `DeleteRole` keeps the indexes consistent and every chain of parents finite, at whichever of its
-- steps it stops with an error.
pub delete_role-IsSound :
    (e : Enforcer) → IsSound e → (name : Text) → IsSound (Roles.delete_role name e).1
delete_role-IsSound e h name = elim (delete_role_cases e name) [
  | inl k ↦ subst⁻¹ (λ (t : Result (Unit {0}) × Enforcer). IsSound t.1) k h
  | inr k ↦
      subst⁻¹ (λ (t : Result (Unit {0}) × Enforcer). IsSound t.1) k
        (any_end (steps name (holders_of name e) e)
          (steps-IsSound name (holders_of name e) e (known-OnlyHeldBy name e h)))
]
