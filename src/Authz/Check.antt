-- ===== src/Authz/Check.antt =====
-- authz/check.go: the questions that clients ask.
use libauth.Prelude.{Bool, true, false, List, [], ◌∷◌, any, all, if◌then◌else◌}
use libauth.Prelude.Sorting.{sort}
use libauth.Text.{Text}
use libauth.Text.Order.{text_lt}
use libauth.Dict.{Dict, Names, has_key, keys}
use libauth.Model.{Permission, to_string}
use libauth.Errors.{permission_denied}
use libauth.Authz.{GrantedSet, has}
use libauth.Authz.Exec.{Exec, pure, fail, ◌>>=◌}
use libauth.Authz.Cache.{direct_roles_of, get_granted_set_full, get_granted_set}

unfoldable pub has_role : Text → Text → Exec Bool
has_role id role = do set ← direct_roles_of id; pure (has_key set role)

unfoldable pub has_any_role : Text → List Text → Exec Bool
has_any_role id [] = pure false
has_any_role id (r ∷ rs) = do set ← direct_roles_of id; pure (any (has_key set) (r ∷ rs))

unfoldable pub has_all_roles : Text → List Text → Exec Bool
has_all_roles id [] = pure true
has_all_roles id (r ∷ rs) = do set ← direct_roles_of id; pure (all (has_key set) (r ∷ rs))

unfoldable pub has_permission : Text → Permission → Exec Bool
has_permission id required = do set ← get_granted_set id; pure (has set required)

unfoldable pub check : Text → Permission → Exec (Unit {0})
check id required = do
  full ← get_granted_set_full id
  if has full.0 required
      then pure tt
      else fail (
          permission_denied
            (record { user_id = id; user = full.1; required = required; roles = full.2 }))

unfoldable pub has_all_permissions : Text → List Permission → Exec Bool
has_all_permissions id required = do set ← get_granted_set id; pure (all (has set) required)

unfoldable pub has_any_permission : Text → List Permission → Exec Bool
has_any_permission id required = do set ← get_granted_set id; pure (any (has set) required)

-- `flatten`
with_resource : Text → List Text → List Permission → List Permission
with_resource r [] rest = rest
with_resource r (a ∷ actions) rest =
    record { resource = r; action = a } ∷ with_resource r actions rest

flatten_entries : Dict Names → List Permission
flatten_entries [] = []
flatten_entries ((r, actions) ∷ m) = with_resource r (keys actions) (flatten_entries m)

unfoldable pub flatten : GrantedSet → List Permission
unfolding with_resource flatten_entries
flatten g = flatten_entries g.by_resource

abbrev pub prints_before : Permission → Permission → Bool
prints_before p q = text_lt (to_string p) (to_string q)

unfoldable pub permissions_for : Text → Exec (List Permission)
permissions_for id = do set ← get_granted_set id; pure (sort prints_before (flatten set))
