-- ===== src/Authz/Coherent/Children.antt =====
-- The children of a role, which `DeleteRole` (authz/roles.go) clears, and who holds them.
use libauth.Authz.Resolve.Spec.{Inherits}
use libauth.Authz.{GrantedSet, Enforcer}
use libauth.Dict.{Dict, values, get}
use libauth.Store.{get_role, role_less, list_roles}
use libauth.Text.{contains, eq_iff, ◌==◌, Text}
use libauth.Prelude.{refl, arith, inr, inl, Bool-cases, ◌∷◌, true, [], All, ap, some, List, ◌≡◌}
use libauth.Model.{Role, User}
use libauth.Authz.Invariant.RoleDeletion.{detached, OnlyHeldBy}
use libauth.Prelude.Sorting.{All-sort, sort}
use libauth.Authz.Coherent.Changes.{Unheld}
use libauth.Store.Lookup.{get_role-put, get_role-roles, get_role-get}
use libauth.Authz.Outcome.Roles.{role_written}
use libauth.Authz.Coherent.Entitled.{Inherits-back}
use mathlib.Core.Path.{subst, subst⁻¹}
use libauth.Authz.Users.{without}
use mathlib.Core.Option.{some-injective}
use libauth.Dict.Laws.{get-put}
use libauth.Authz.Indexes.{contains-without}

-- Nobody holds one of the listed roles that inherit from the role.
abbrev pub UnheldAmong : Enforcer → Text → List Role → Type 0
UnheldAmong e name = All (λ r. (r.parent == name) ≡ true → Unheld e r.name)

abbrev pub ChildrenUnheld : Enforcer → Text → Type 0
ChildrenUnheld e name = UnheldAmong e name (list_roles e.store)

All-get :
    (P : Role → Type 0) (m : Dict Role) (n : Text) (r : Role)
    → All P (values m)
    → get m n ≡ some r
    → P r
unfolding get values
All-get P [] n r h found = cc found
All-get P ((k, v) ∷ m) n r (here, later) found = elim (Bool-cases (k == n)) [
  | inl yes_here ↦ subst P (some-injective v r (ground (arith, yes_here, found))) here
  | inr other ↦ All-get P m n r later (ground (arith, other, found))
]

UnheldAmong-get :
    (e e' : Enforcer) (name n : Text) (r : Role)
    → UnheldAmong e name (list_roles e'.store)
    → get e'.store.roles n ≡ some r
    → (r.parent == name) ≡ true
    → Unheld e r.name
unfolding list_roles
UnheldAmong-get e e' name n r h =
    All-get (λ r. (r.parent == name) ≡ true → Unheld e r.name) e'.store.roles n r
      (All-sort (λ r. (r.parent == name) ≡ true → Unheld e r.name) role_less (values e'.store.roles)
        h)

pub list_roles-same :
    (e e' : Enforcer) → e'.store.roles ≡ e.store.roles → list_roles e'.store ≡ list_roles e.store
unfolding list_roles
list_roles-same e e' same = ap (λ (d : Dict Role). sort role_less (values d)) same

-- Nobody holds the role directly, and nobody holds a role that it is the parent of.
pub nobody_left :
    (e : Enforcer) (name : Text) → OnlyHeldBy name [] e → ChildrenUnheld e name → Unheld e name
nobody_left e name only children j u p (a, member, Inherits.itself) = cc (only.1 j u p member)
nobody_left e name only children j u p (a, member, Inherits.up {b = b} r path found eq ne) =
    let stored : get e.store.roles b ≡ some r = (get_role-get e.store b r).1 found in
    let key : r.name ≡ b = only.0.consistent.role_keys b r stored in
    UnheldAmong-get e e name b r children stored ((eq_iff r.parent name).1 eq) j u p
      (a, member, subst⁻¹ (Inherits e.store a) key path)

-- Fewer direct roles, in a store with the same roles.
pub Unheld-detached :
    (e : Enforcer) (u : User) (name n : Text)
    → get e.store.users u.id ≡ some u
    → Unheld e n
    → Unheld (detached e u name) n
Unheld-detached e u name n found h j v p (a, member, path) =
    let back : Inherits e.store a n =
      Inherits-back e.store (detached e u name).store a
        (λ k _. get_role-roles e.store (detached e u name).store refl k) path in
    elim (Bool-cases (u.id == j)) [
      | inl here ↦
          let same : record u { roles = without u.roles name } ≡ v = ground (
            arith,
            here,
            p,
            get-put e.store.users u.id (record u { roles = without u.roles name }) j,
          ) in
          let kept : contains (without u.roles name) a ≡ true =
            subst⁻¹ (λ (t : User). contains t.roles a ≡ true) same member in
          h u.id u found (a, ground (arith, kept, contains-without u.roles name a), back)
      | inr other ↦
          let before : get e.store.users j ≡ some v = ground (
            arith,
            other,
            p,
            get-put e.store.users u.id (record u { roles = without u.roles name }) j,
          ) in
          h j v before (a, member, back)
    ]

-- A role that nobody holds leads to no other.
pub Unheld-written :
    (e : Enforcer) (r : Role) (cache : Dict GrantedSet) (n : Text)
    → Unheld e r.name
    → Unheld e n
    → Unheld (role_written e r cache) n
Unheld-written e r cache n free h j u p (a, member, path) =
    h j u p (a, member, Inherits-back e.store (role_written e r cache).store a same path)
  where
    same :
        (k : Text)
        → Inherits e.store a k
        → get_role (role_written e r cache).store k ≡ get_role e.store k
    same k to_k = elim (Bool-cases (r.name == k)) [
      | inl here ↦
          absurd
            (free j u p (a, member, subst⁻¹ (Inherits e.store a) ((eq_iff r.name k).0 here) to_k))
      | inr other ↦ ground (arith, other, get_role-put e.store r k)
    ]

pub UnheldAmong-map :
    (e e' : Enforcer) (name : Text) (rs : List Role)
    → ((n : Text) → Unheld e n → Unheld e' n)
    → UnheldAmong e name rs
    → UnheldAmong e' name rs
UnheldAmong-map e e' name [] f h = tt
UnheldAmong-map e e' name (r ∷ rs) f (here, later) =
    ((λ child. f r.name (here child)), UnheldAmong-map e e' name rs f later)
