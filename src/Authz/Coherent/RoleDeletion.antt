-- ===== src/Authz/Coherent/RoleDeletion.antt =====
-- `DeleteRole` (authz/roles.go) and the cached sets: its holders keep theirs until the end.
use libauth.Store
use libauth.Authz.Roles
use libauth.Authz.Exec.{read, ◌>>=◌, ◌>>◌}
use libauth.Authz.{remove_all, has, GrantedSet, Enforcer}
use libauth.Dict.{Dict, remove, has_key}
use libauth.Store.{role_less, list_roles}
use libauth.Authz.Roles.{holders_of, detach_users, detach_user, detach_child, detach_children}
use libauth.Prelude.{◌⊎◌, inr, inl, Bool-cases, refl, [], ◌↔◌, ◌∷◌, arith, true, ◌≡◌, List}
use libauth.Text.{eq_iff, ◌==◌, Text}
use libauth.Model.{Role}
use libauth.Errors.{role_not_found, Error, err, ok, Result}
use libauth.Authz.Invariant.RoleDeletion.{continue-EndsIn, OnlyHeldBy, EndsIn}
use mathlib.Core.Path.{subst⁻¹}
use libauth.Authz.Fresh.{IsEntitled}
use libauth.Authz.Coherent.Entitled.{IsEntitled-same}
use libauth.Store.Lookup.{get_role-put, get_role-remove}
use libauth.Authz.Coherent.Changes.{Unheld}
use libauth.Authz.Coherent.{IsCoherent}
use libauth.Authz.Indexes.{get-remove_all}
use libauth.Authz.Resolve.Spec.{Holds}
use libauth.Authz.Invariant.Sound.{IsSound}
use libauth.Authz.Invariant.RoleDeletion.Rest.{
  detach_child_cases, known-OnlyHeldBy, delete_role_cases, steps, last_steps,
}
use libauth.Authz.Coherent.Detaching.{detach_users-IsDetaching, IsDetaching, IsCoherentBut}
use libauth.Authz.Coherent.Children.{
  UnheldAmong-map, Unheld-written, nobody_left, list_roles-same, ChildrenUnheld, UnheldAmong,
}
use libauth.Authz.Outcome.Roles.{holders_dropped, role_written}
use libauth.Authz.Coherent.Roles.{get-holders_dropped}

-- What the loop over the children keeps.
abbrev Settled : List Text → Text → List Role → Enforcer → Type 0
Settled uids name rs e = IsCoherentBut uids e × Unheld e name × UnheldAmong e name rs

orphaned-IsCoherentBut :
    (uids : List Text) (e : Enforcer) (r : Role)
    → Unheld e r.name
    → IsCoherentBut uids e
    → IsCoherentBut uids (role_written e r (holders_dropped e r.name))
orphaned-IsCoherentBut uids e r free h = record {
  stored = λ j set p. ground (arith, get-holders_dropped e r.name j, h.stored j set);
  exact = λ j set u q out p k.
      let old : (has set q ≡ true) ↔ IsEntitled e.store u q =
        h.exact j set u q out (ground (arith, p, get-holders_dropped e r.name j)) k in
      let moved : IsEntitled e.store u q
          ↔ IsEntitled (role_written e r (holders_dropped e r.name)).store u q =
        IsEntitled-same e.store _ u q (λ n held. elim (Bool-cases (r.name == n)) [
          | inl here ↦
              absurd (free j u k (subst⁻¹ (Holds e.store u.roles) ((eq_iff r.name n).0 here) held))
          | inr other ↦ ground (arith, other, get_role-put e.store r n)
        ]) in
      (λ t. moved.0 (old.0 t), λ t. old.1 (moved.1 t));
}

module _ (uids : List Text) (name : Text) where
  orphaned-Settled :
      (e : Enforcer) (r : Role) (rs : List Role)
      → Unheld e r.name
      → Settled uids name rs e
      → Settled uids name rs (role_written e (record r { parent = [] }) (holders_dropped e r.name))
  orphaned-Settled e r rs free (h, nobody, children) =
      let r' : Role = record r { parent = [] } in
      let cache : Dict GrantedSet = holders_dropped e r.name in
      (
        orphaned-IsCoherentBut uids e r' free h,
        Unheld-written e r' cache name free nobody,
        UnheldAmong-map e (role_written e r' cache) name rs (λ n. Unheld-written e r' cache n free)
            children,
      )

  detach_child-Settled :
      (e : Enforcer) (r : Role) (rs : List Role)
      → Settled uids name (r ∷ rs) e
      → EndsIn (λ _. Unit {0}) (Settled uids name rs) (detach_child name r e)
  detach_child-Settled e r rs (h, nobody, (here, later)) = elim (detach_child_cases e name r) [
    | inl k ↦ subst⁻¹ (EndsIn (λ _. Unit {0}) (Settled uids name rs)) k (h, nobody, later)
    | inr (inl (c, k)) ↦ subst⁻¹ (EndsIn (λ _. Unit {0}) (Settled uids name rs)) k tt
    | inr (inr (child, k)) ↦
        subst⁻¹ (EndsIn (λ _. Unit {0}) (Settled uids name rs)) k
          (orphaned-Settled e r rs (here child) (h, nobody, later))
  ]

  detach_children-Settled :
      (rs : List Role) (e : Enforcer)
      → Settled uids name rs e
      → EndsIn (λ _. Unit {0}) (Settled uids name []) (detach_children name rs e)
  unfolding detach_children
  detach_children-Settled [] e h = h
  detach_children-Settled (r ∷ rs) e h =
      continue-EndsIn (λ _. Unit {0}) (Settled uids name rs) (Settled uids name [])
        (detach_child name r e) (λ _. detach_children name rs) (detach_child-Settled e r rs h)
        (λ _. detach_children-Settled rs)

abbrev without_role : Enforcer → Text → List Text → Enforcer
without_role e name uids = record e {
  store = record e.store { roles = remove e.store.roles name };
  role_holders = remove e.role_holders name;
  cache = remove_all e.cache uids;
}

without_role-IsCoherent :
    (uids : List Text) (e : Enforcer) (name : Text)
    → Unheld e name
    → IsCoherentBut uids e
    → IsCoherent (without_role e name uids)
without_role-IsCoherent uids e name nobody h = record {
  stored = λ j set p. ground (arith, get-remove_all e.cache uids j, h.stored j set);
  exact = λ j set u q p k.
      let old : (has set q ≡ true) ↔ IsEntitled e.store u q =
        h.exact j set u q (ground (arith, p, get-remove_all e.cache uids j))
          (ground (arith, p, get-remove_all e.cache uids j)) k in
      let moved : IsEntitled e.store u q ↔ IsEntitled (without_role e name uids).store u q =
        IsEntitled-same e.store _ u q (λ n held. elim (Bool-cases (name == n)) [
          | inl here ↦
              absurd (nobody j u k (subst⁻¹ (Holds e.store u.roles) ((eq_iff name n).0 here) held))
          | inr other ↦ ground (arith, other, get_role-remove e.store name n)
        ]) in
      (λ t. moved.0 (old.0 t), λ t. old.1 (moved.1 t));
}

last_steps_cases :
    (name : Text) (uids : List Text) (e : Enforcer)
    → ((c : Error) × (e' : Enforcer) × (last_steps name uids e ≡ (err c, e')))
      ⊎ (last_steps name uids e ≡ (ok tt, without_role e name uids))
unfolding Store.delete_role
last_steps_cases name uids e = elim (Bool-cases (has_key e.store.roles name)) [
  | inl here ↦ inr (rw here refl)
  | inr absent ↦ inl (
    role_not_found,
    record e { role_holders = remove e.role_holders name; cache = remove_all e.cache uids },
    rw absent refl,
  )
]

abbrev Finished : Result (Unit {0}) × Enforcer → Type 0
Finished = EndsIn (λ _. Unit {0}) IsCoherent

module _ (name : Text) (uids : List Text) (start : Enforcer) where
  last_steps-IsCoherent :
      (e : Enforcer) → Settled uids name [] e → Finished (last_steps name uids e)
  last_steps-IsCoherent e (h, nobody, _) = elim (last_steps_cases name uids e) [
    | inl (c, e', failed) ↦ subst⁻¹ Finished failed tt
    | inr done ↦ subst⁻¹ Finished done (without_role-IsCoherent uids e name nobody h)
  ]

  holders_gone-Settled :
      (e : Enforcer)
      → OnlyHeldBy name [] e
      → IsDetaching uids start name (list_roles start.store) e
      → Settled uids name (list_roles e.store) e
  holders_gone-Settled e only h =
      let children : ChildrenUnheld e name =
        subst⁻¹ (UnheldAmong e name) (list_roles-same start e h.same_roles) h.children in
      (h.others, nobody_left e name only children, children)

  steps-IsCoherent :
      OnlyHeldBy name uids start
      → IsDetaching uids start name (list_roles start.store) start
      → Finished (steps name uids start)
  steps-IsCoherent only h =
      continue-EndsIn (λ _. Unit {0})
        (λ e'. OnlyHeldBy name [] e' × IsDetaching uids start name (list_roles start.store) e')
        IsCoherent (detach_users name uids start)
        (λ _ e1.
          (do
            roles ← read (λ s. ok (Store.list_roles s))
            detach_children name roles
            last_steps name uids)
            e1)
        (detach_users-IsDetaching uids start name (list_roles start.store) uids start (λ _ p. p)
          only h)
        (λ _ e1 k.
          continue-EndsIn (λ _. Unit {0}) (Settled uids name []) IsCoherent
            (detach_children name (list_roles e1.store) e1) (λ _. last_steps name uids)
            (detach_children-Settled uids name (list_roles e1.store) e1
              (holders_gone-Settled e1 k.0 k.1))
            (λ _ e2. last_steps-IsCoherent e2))

succeeded-IsCoherent :
    (t : Result (Unit {0}) × Enforcer) → t.0 ≡ ok tt → Finished t → IsCoherent t.1
succeeded-IsCoherent (ok tt, e) success h = h
succeeded-IsCoherent (err c, e) success h = cc success

-- `DeleteRole` that succeeds keeps every cached set exact, if nobody holds a role that inherits from
-- the deleted one: the sets of its holders are dropped.
pub delete_role-IsCoherent :
    (e : Enforcer) (name : Text)
    → IsSound e
    → IsCoherent e
    → ChildrenUnheld e name
    → (Roles.delete_role name e).0 ≡ ok tt
    → IsCoherent (Roles.delete_role name e).1
delete_role-IsCoherent e name s h unheld success = elim (delete_role_cases e name) [
  | inl k ↦ subst⁻¹ (λ (t : Result (Unit {0}) × Enforcer). IsCoherent t.1) k h
  | inr k ↦ succeeded-IsCoherent (Roles.delete_role name e) success (
      subst⁻¹ Finished k (
        steps-IsCoherent name (holders_of name e) e (known-OnlyHeldBy name e s) (record {
          same_roles = refl;
          others = record { stored = h.stored; exact = λ j set u q _. h.exact j set u q };
          children = unheld;
        })))
]
