-- ===== src/Authz/Coherent/Entitled.antt =====
-- What a change of the store does to entitlements.
use libauth.Store
use libauth.Authz.Fresh.{IsEntitled}
use libauth.Authz.Resolve.Spec.{Inherits, Holds}
use libauth.Store.{MemoryStore}
use libauth.Text.{Text}
use libauth.Model.{Permission, User}
use libauth.Prelude.{inr, inl, ◌↔◌, sym, ◌∙◌, ◌≡◌}

-- Inheritance in one store is inheritance in another one that agrees on the roles passed on the way.
module _ (s s' : MemoryStore) (a : Text)
    (same : (n : Text) → Inherits s a n → Store.get_role s' n ≡ Store.get_role s n) where
  pub Inherits-forth : {n : Text} → Inherits s a n → Inherits s' a n
  Inherits-forth Inherits.itself = Inherits.itself
  Inherits-forth (Inherits.up {b = b} r path found eq ne) =
      Inherits.up r (Inherits-forth path) (same b path ∙ found) eq ne

  pub Inherits-back : {n : Text} → Inherits s' a n → Inherits s a n
  Inherits-back Inherits.itself = Inherits.itself
  Inherits-back (Inherits.up {b = b} r path found eq ne) =
      let before : Inherits s a b = Inherits-back path in
      Inherits.up r before (sym (same b before) ∙ found) eq ne

-- A user's entitlements are the same in two stores that agree on its effective roles.
pub IsEntitled-same :
    (s s' : MemoryStore) (u : User) (q : Permission)
    → ((n : Text) → Holds s u.roles n → Store.get_role s' n ≡ Store.get_role s n)
    → IsEntitled s u q ↔ IsEntitled s' u q
IsEntitled-same s s' u q same = (forth, back)
  where
    forth : IsEntitled s u q → IsEntitled s' u q
    forth (inl direct) = inl direct
    forth (inr (n, r, (a, m, path), found, c)) = inr (
      n,
      r,
      (a, m, Inherits-forth s s' a (λ k p. same k (a, m, p)) path),
      same n (a, m, path) ∙ found,
      c,
    )

    back : IsEntitled s' u q → IsEntitled s u q
    back (inl direct) = inl direct
    back (inr (n, r, (a, m, path), found, c)) =
        let before : Inherits s a n = Inherits-back s s' a (λ k p. same k (a, m, p)) path in
        inr (n, r, (a, m, before), sym (same n (a, m, before)) ∙ found, c)
