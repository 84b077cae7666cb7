-- ===== src/Authz/Validate/Hierarchy.antt =====
-- The hierarchy of roles when one role of it changes.
use libauth.Authz.Validate.Spec.{Clear, Ends, IsAcyclic}
use libauth.Store.{get_role, MemoryStore}
use libauth.Text.{eq_iff, ◌==◌, Text}
use libauth.Authz.Resolve.Spec.{Inherits}
use libauth.Model.{Role}
use libauth.Prelude.{sym, refl, ap, [], inr, ◌∙◌, inl, Bool-cases, ℕ, ◌⊎◌, false, ◌≡◌}
use libauth.Authz.Resolve.Queue.{eq_sym}
use mathlib.Core.Path.{subst}
use libauth.Errors.{role_not_found, err, ok}

module _ (s s' : MemoryStore) (self : Text)
    (same : (m : Text) → (self == m) ≡ false → get_role s' m ≡ get_role s m) where
  -- A chain that avoids `self` is the same in both stores.
  pub Clear-Ends : {k : ℕ} {n : Text} → Clear s self k n → Ends s' n
  Clear-Ends (Clear.root top) = Ends.root top
  Clear-Ends (Clear.missing {n = n} d absent) = Ends.missing (same n (rw eq_sym d) ∙ absent)
  Clear-Ends (Clear.next {n = n} r d found c) =
      Ends.next r (same n (rw eq_sym d) ∙ found) (Clear-Ends c)

  -- Every other chain ends as before, or runs into `self`.
  pub Ends-change : Ends s' self → {n : Text} → Ends s n → Ends s' n
  Ends-change e (Ends.root top) = Ends.root top
  Ends-change e (Ends.missing {n = n} absent) = elim (Bool-cases (self == n)) [
    | inl here ↦ subst (Ends s') ((eq_iff self n).0 here) e
    | inr other ↦ Ends.missing (same n other ∙ absent)
  ]
  Ends-change e (Ends.next {n = n} r found c) = elim (Bool-cases (self == n)) [
    | inl here ↦ subst (Ends s') ((eq_iff self n).0 here) e
    | inr other ↦ Ends.next r (same n other ∙ found) (Ends-change e c)
  ]

  pub change-IsAcyclic : Ends s' self → IsAcyclic s → IsAcyclic s'
  change-IsAcyclic e h = record { ends = λ n. Ends-change e (h.ends n) }

first_step :
    (s : MemoryStore) {a c : Text}
    → Inherits s a c
    → (a ≡ c)
      ⊎ ((r : Role) × (get_role s a ≡ ok r) × ((r.parent == []) ≡ false) × Inherits s r.parent c)
first_step s Inherits.itself = inl refl
first_step s (Inherits.up {c = c} r path found eq ne) = elim (first_step s path) [
  | inl same ↦
      inr
        (r, ap (get_role s) same ∙ found, rw eq ne, subst (Inherits s r.parent) eq Inherits.itself)
  | inr (q, got, ne', rest) ↦ inr (q, got, ne', Inherits.up r rest found eq ne)
]

last_step : {s : MemoryStore} {a c : Text} → Inherits s a c → (a ≡ c) ⊎ ((c == []) ≡ false)
last_step Inherits.itself = inl refl
last_step (Inherits.up r path found eq ne) = inr ne

-- Where chains end, no role inherits from itself through its parent.
pub Ends-ne-cycle :
    (s : MemoryStore) {n : Text}
    → Ends s n
    → (r : Role) → get_role s n ≡ ok r
    → (r.parent == []) ≡ false
    → ¬ (Inherits s r.parent n)
Ends-ne-cycle s (Ends.root {n = n} top) r found ne path = elim (last_step path) [
  | inl same ↦ cc (ap (λ (t : Text). t == []) same, top, ne)
  | inr ne' ↦ cc
]
Ends-ne-cycle s (Ends.missing absent) r found ne path = cc
Ends-ne-cycle s (Ends.next {n = n} q got e) r found ne path =
    elim (first_step s (subst (λ (t : Role). Inherits s t.parent n) (sym eq) path)) [
      | inl same ↦ Ends-ne-cycle s e q (ap (get_role s) same ∙ got) ne_q Inherits.itself
      | inr (r', found', ne', rest) ↦
          Ends-ne-cycle s e r' found' ne' (Inherits.up q rest got refl ne_q)
    ]
  where
    eq : q ≡ r
    eq = cc (found, got)

    ne_q : (q.parent == []) ≡ false
    ne_q = subst (λ (t : Role). (t.parent == []) ≡ false) (sym eq) ne

-- A change that leaves every parent link as it is.
module _ (s s' : MemoryStore)
    (stored : (n : Text) (q : Role)
      → get_role s n ≡ ok q
      → (q' : Role) × (get_role s' n ≡ ok q') × (q.parent ≡ q'.parent))
    (absent : (n : Text)
      → get_role s n ≡ err role_not_found
      → get_role s' n ≡ err role_not_found) where
  same_parents-Ends : {n : Text} → Ends s n → Ends s' n
  same_parents-Ends (Ends.root top) = Ends.root top
  same_parents-Ends (Ends.missing {n = n} gone) = Ends.missing (absent n gone)
  same_parents-Ends (Ends.next {n = n} q found c) =
      let (q', found', same) = stored n q found in
      Ends.next q' found' (subst (Ends s') same (same_parents-Ends c))

  pub same_parents-IsAcyclic : IsAcyclic s → IsAcyclic s'
  same_parents-IsAcyclic h = record { ends = λ n. same_parents-Ends (h.ends n) }
