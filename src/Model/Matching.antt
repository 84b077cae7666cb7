-- ===== src/Model/Matching.antt =====
-- The order that `Matches` puts on permissions (model/permission.go).
use libauth.Prelude.{◌≡◌, true, List, [], ◌∷◌, arith, any}
use libauth.Text.{eq_iff, eq_refl}
use libauth.Model.{Permission, Role, star, matches, has_permission}

pub matches_refl : (p : Permission) → matches p p ≡ true
unfolding matches
matches_refl p = ground (arith, eq_refl p.resource, eq_refl p.action)

-- If a pattern matches a second one and that one matches a third, then the first matches the third.
matches_trans : (p q r : Permission) → matches p q ≡ true → matches q r ≡ true → matches p r ≡ true
unfolding matches
matches_trans p q r h k = ground (
  arith,
  eq_iff p.resource q.resource,
  eq_iff p.action q.action,
  eq_iff q.resource r.resource,
  eq_iff q.action r.action,
  eq_iff p.resource r.resource,
  eq_iff p.action r.action,
  eq_iff p.resource star,
  eq_iff q.resource star,
  eq_iff p.action star,
  eq_iff q.action star,
)

-- Whatever grants cover a permission cover all that it covers.
any-matches_mono :
    (gs : List Permission) (p q : Permission)
    → any (λ g. matches g p) gs ≡ true
    → matches p q ≡ true
    → any (λ g. matches g q) gs ≡ true
any-matches_mono [] p q h k = cc
any-matches_mono (g ∷ gs) p q h k = ground (arith, matches_trans g p q, any-matches_mono gs p q)

-- A role that has a permission has every permission that this one matches.
has_permission_mono :
    (role : Role) (p q : Permission)
    → has_permission role p ≡ true
    → matches p q ≡ true
    → has_permission role q ≡ true
unfolding has_permission
has_permission_mono role p q = any-matches_mono role.permissions p q
