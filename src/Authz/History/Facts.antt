-- ===== src/Authz/History/Facts.antt =====
-- The states of an enforcer that started empty.
use libauth.Authz.Validate.Spec.{Ends}
use libauth.Store
use libauth.Prelude.Int.{ℤ}
use libauth.Authz.{negsuc, pos, apply_all, with_max_depth, apply, Enforcer, new}
use libauth.Dict.{get}
use libauth.Authz.Coherent.{IsCoherent}
use libauth.Prelude.{inr, inl, refl, zero, ◌↔◌, false, suc, some, [], ◌≡◌, ◌∷◌, arith, List}
use libauth.Authz.History.{
  perform_all-IsCoherent, CarefulThroughout, perform_all-IsSound, perform_all, Op,
}
use libauth.Authz.Invariant.Sound.{IsSound}
use libauth.Model.{Permission, Role, User}
use libauth.Store.{new_memory_store}
use libauth.Authz.Check.{check}
use libauth.Text.{◌==◌}
use libauth.Errors.{ok}
use libauth.Authz.Resolve.Spec.{Inherits}
use libauth.Authz.Fresh.{IsEntitled}
use libauth.Authz.Validate.Hierarchy.{Ends-ne-cycle}
use libauth.Store.Lookup.{get_role-get}
use libauth.Authz.Coherent.Answers.{check_lem}

-- `New` with a depth limit and the store it makes itself.
abbrev pub fresh : ℤ → Enforcer
fresh n = new (with_max_depth n ∷ [])

-- The limit is the only difference that the setting makes.
fresh_parts :
    (n : ℤ)
    → ((fresh n).store ≡ new_memory_store) × ((fresh n).cache ≡ []) × ((fresh n).direct_roles ≡ [])
unfolding new apply apply_all
fresh_parts (pos zero) = (refl, refl, refl)
fresh_parts (pos (suc n)) = (refl, refl, refl)
fresh_parts (negsuc n) = (refl, refl, refl)

pub fresh-IsSound : (n : ℤ) → IsSound (fresh n)
unfolding get Store.get_role
fresh-IsSound n =
    let (stores, caches, directs) = fresh_parts n in
    record {
      consistent = record {
        user_keys = λ j u p. absurd (ground (arith, p, stores));
        role_keys = λ j u p. absurd (ground (arith, p, stores));
        direct_stored = λ j set p. absurd (ground (arith, p, directs));
        direct_exact = λ j set u r p q. absurd (ground (arith, p, directs));
        holders_complete = λ j u r p q. absurd (ground (arith, p, stores));
      };
      acyclic = record { ends = λ m. Ends.missing (ground (arith, stores)) };
    }

pub fresh-IsCoherent : (n : ℤ) → IsCoherent (fresh n)
unfolding get
fresh-IsCoherent n =
    let (stores, caches, directs) = fresh_parts n in
    record {
      stored = λ j set p. absurd (ground (arith, p, caches));
      exact = λ j set u q p k. absurd (ground (arith, p, caches));
    }

-- After any sequence of operations on a fresh enforcer, of any depth limit, records are stored under
-- their own names, the index of direct roles agrees with the store, the index of holders misses no
-- holder, and every chain of parents ends. Failed operations and the deletion of roles are included.
pub history-IsSound : (n : ℤ) (ops : List Op) → IsSound (perform_all ops (fresh n))
history-IsSound n ops = perform_all-IsSound (fresh n) (fresh-IsSound n) ops

-- After any sequence of operations on a fresh enforcer, of any depth limit, that creates a role only
-- while nobody holds its name, changes a role only while nobody inherits it, and deletes a role only
-- while nobody holds one of its children and the deletion succeeds: `Check` grants a stored user
-- exactly the permissions that the store entitles the user to.
pub history-check :
    (n : ℤ) (ops : List Op) (u : User) (q : Permission)
    → CarefulThroughout ops (fresh n)
    → get (perform_all ops (fresh n)).store.users u.id ≡ some u
    → ((check u.id q (perform_all ops (fresh n))).0 ≡ ok tt)
      ↔ IsEntitled (perform_all ops (fresh n)).store u q
history-check n ops u q careful found =
    elim (check_lem (perform_all ops (fresh n)) u q coherent found) [
      | inl (granted, entitled) ↦ ((λ _. entitled), (λ _. granted))
      | inr (roles, resolved, denied, not_entitled) ↦
          ((λ granted. absurd (cc (granted, denied))), (λ entitled. absurd (not_entitled entitled)))
    ]
  where
    coherent : IsCoherent (perform_all ops (fresh n))
    coherent = perform_all-IsCoherent (fresh n) (fresh-IsSound n) (fresh-IsCoherent n) ops careful

-- After any sequence of operations on a fresh enforcer, no stored role with a parent inherits from
-- itself through that parent.
pub history-ne-cycle :
    (n : ℤ) (ops : List Op) (r : Role)
    → get (perform_all ops (fresh n)).store.roles r.name ≡ some r
    → (r.parent == []) ≡ false
    → ¬ (Inherits (perform_all ops (fresh n)).store r.parent r.name)
history-ne-cycle n ops r found ne =
    let s = (perform_all ops (fresh n)).store in
    Ends-ne-cycle s ((history-IsSound n ops).acyclic.ends r.name) r
      ((get_role-get s r.name r).0 found) ne
