-- ===== src/Authz/Granted.antt =====
-- The index of granted permissions (`grantedSet` in authz/authz.go) against `Matches`.
use libauth.Prelude.{◌≡◌, refl, Bool, true, false, ◌||◌, List, [], ◌∷◌, arith, if◌then◌else◌, any}
use libauth.Text.{Text, ◌==◌, eq_iff}
use libauth.Dict.{Dict, Names, get, put, has_key}
use libauth.Dict.Laws.{get-put, has_key-put}
use libauth.Model.{Permission, star, matches}
use libauth.Authz.{GrantedSet, names_at, add, add_permissions, has}

-- `actions["*"]` or `actions[action]`
allows : Names → Text → Bool
allows names a = has_key names star || has_key names a

has-names_at :
    (g : GrantedSet) (q : Permission)
    → has g q ≡ (has_key g.by_resource star || allows (names_at g.by_resource q.resource) q.action)
unfolding has allows get
has-names_at g q = ground arith

pub names_at-put :
    (m : Dict Names) (k : Text) (names : Names) (j : Text)
    → names_at (put m k names) j ≡ (if k == j then names else names_at m j)
names_at-put m k names j = ground (arith, get-put m k names j)

allows-put :
    (names : Names) (a b : Text)
    → allows (put names a tt) b ≡ (a == star || a == b || allows names b)
unfolding allows
allows-put names a b = ground (arith, has_key-put names a tt star, has_key-put names a tt b)

allows-if :
    (c : Bool) (m n : Names) (a : Text)
    → allows (if c then m else n) a ≡ (if c then allows m a else allows n a)
allows-if true m n a = refl
allows-if false m n a = refl

pub has-add : (g : GrantedSet) (p q : Permission) → has (add g p) q ≡ (has g q || matches p q)
unfolding add matches
has-add g p q =
    rw
      (has-names_at (add g p) q, has-names_at g q, has_key-put, names_at-put, allows-if, allows-put)
      (ground (arith, eq_iff p.resource q.resource, eq_iff p.action q.action))

-- After a list of patterns was added, the index covers a permission exactly if it did before or one
-- of the patterns matches the permission.
pub has-add_permissions :
    (g : GrantedSet) (ps : List Permission) (q : Permission)
    → has (add_permissions g ps) q ≡ (has g q || any (λ p. matches p q) ps)
unfolding add_permissions
has-add_permissions g [] q = ground arith
has-add_permissions g (p ∷ ps) q = ground (arith, has-add_permissions (add g p) ps q, has-add g p q)
