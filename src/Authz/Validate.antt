-- ===== src/Authz/Validate.antt =====
-- authz/validate.go: a role's new place in the hierarchy.
pub mod Spec
pub mod Exact
pub mod Hierarchy
use libauth.Prelude.{ℕ, zero, suc, [], if◌then◌else◌}
use libauth.Text.{Text, ◌==◌}
use libauth.Model.{Role}
use libauth.Errors.{Result, ok, err, role_not_found, cyclic_inheritance, inheritance_depth}
use libauth.Store.{MemoryStore, get_role}

-- What the lookup of an ancestor leads to: its parent, or the end of the loop.
unfoldable pub next_ancestor : Result Role → (Text → Result (Unit {0})) → Result (Unit {0})
next_ancestor (ok role) continue = continue role.parent
next_ancestor (err role_not_found) continue = ok tt
next_ancestor (err e) continue = err e

-- `for depth := 1; name != ""; depth++ { … }`. The first argument is `maxDepth + 1 - depth`, the
-- rounds that the depth limit leaves: `depth > maxDepth` in the round where it is 0.
unfoldable pub check_ancestors : ℕ → MemoryStore → Text → Text → Result (Unit {0})
check_ancestors zero s self name =
    if name == []
    then ok tt
    else if name == self
    then err cyclic_inheritance
    else err inheritance_depth
check_ancestors (suc rounds) s self name =
    let rest = next_ancestor (get_role s name) (λ parent. check_ancestors rounds s self parent) in
    if name == [] then ok tt else if name == self then err cyclic_inheritance else rest

unfoldable pub validate_inheritance : MemoryStore → ℕ → Role → Result (Unit {0})
validate_inheritance s max_depth r =
    if r.parent == []
    then ok tt
    else if r.parent == r.name
    then err cyclic_inheritance
    else elim (get_role s r.parent) [
      | ok parent ↦ check_ancestors max_depth s r.name r.parent
      | err e ↦ err e
    ]
