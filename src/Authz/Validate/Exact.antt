-- ===== src/Authz/Validate/Exact.antt =====
-- `validateInheritance` (authz/validate.go) against chains of parents.
use libauth.Authz.Validate.{next_ancestor, check_ancestors, validate_inheritance}
use libauth.Authz.Validate.Spec.{Clear}
use libauth.Store.Lookup.{is_ok, get_role_cases}
use libauth.Prelude.{false, inr, ◌⊎◌, inl, true, [], Bool-cases, ◌↔◌, arith, ℕ, zero, suc, ◌≡◌}
use libauth.Text.{Text, ◌==◌}
use libauth.Model.{Role}
use libauth.Errors.{ok}
use libauth.Store.{MemoryStore, get_role}

check_ancestors_sound :
    (s : MemoryStore) (self : Text) (k : ℕ) (n : Text)
    → check_ancestors k s self n ≡ ok tt
    → Clear s self k n
unfolding check_ancestors next_ancestor
check_ancestors_sound s self zero n h = Clear.root (ground arith)
check_ancestors_sound s self (suc k) n h = elim (Bool-cases (n == [])) [
  | inl top ↦ Clear.root top
  | inr ne ↦ elim (get_role_cases s n) [
    | inl (r, found) ↦
        Clear.next r (ground arith) found (check_ancestors_sound s self k r.parent (ground arith))
    | inr absent ↦ Clear.missing (ground arith) absent
  ]
]

check_ancestors_complete :
    (s : MemoryStore) (self : Text) {k : ℕ} {n : Text}
    → Clear s self k n
    → check_ancestors k s self n ≡ ok tt
unfolding check_ancestors next_ancestor
check_ancestors_complete s self {k = zero} (Clear.root top) = ground arith
check_ancestors_complete s self {k = suc k} (Clear.root top) = ground arith
check_ancestors_complete s self (Clear.missing ne absent) = ground arith
check_ancestors_complete s self (Clear.next r ne found c) =
    ground (arith, check_ancestors_complete s self c)

Clear-ne :
    {s : MemoryStore} {self : Text} {k : ℕ} {n : Text}
    → Clear s self k n
    → (n == []) ≡ false
    → (n == self) ≡ false
Clear-ne (Clear.root top) ne = cc
Clear-ne (Clear.missing d absent) ne = d
Clear-ne (Clear.next r d found c) ne = d

-- A role is accepted exactly if it has no parent, or its parent is stored and the chain from there
-- ends, within the depth limit, without meeting the role itself.
pub validate_iff :
    (s : MemoryStore) (max_depth : ℕ) (r : Role)
    → (validate_inheritance s max_depth r ≡ ok tt) ↔ (
        ((r.parent == []) ≡ true)
        ⊎ ((is_ok (get_role s r.parent) ≡ true) × Clear s r.name max_depth r.parent))
unfolding validate_inheritance
validate_iff s max_depth r = (
  λ h. elim (Bool-cases (r.parent == [])) [
    | inl top ↦ inl top
    | inr ne ↦ elim (get_role_cases s r.parent) [
      | inl (p, found) ↦ inr (
        ground (arith, found),
        check_ancestors_sound s r.name max_depth r.parent (ground (arith, found)),
      )
      | inr absent ↦ absurd (ground (arith, absent))
    ]
  ],
  λ c. elim c [
    | inl top ↦ ground arith
    | inr (found, chain) ↦
        ground (
          arith,
          get_role_cases s r.parent,
          Clear-ne chain,
          check_ancestors_complete s r.name chain,
        )
  ],
)
