-- ===== src/Examples/Races.antt =====
-- A cache fill and a revocation at the same time (authz/authz.go, authz/roles.go).
use libauth.Prelude.{refl, ◌↔◌, ◌≡◌, List, [], ◌∷◌}
use libauth.Prelude.Int.{pos}
use libauth.Errors.{ok}
use libauth.Authz.Check.{check}
use libauth.Authz.Roles.{revoke_permission}
use libauth.Authz.{GrantedSet, Enforcer}
use libauth.Model.{User}
use libauth.Examples.{perm, runs}
use libauth.Authz.History.{create_user_op, create_role_op, perform_all}
use libauth.Examples.Answers.{bob}
use libauth.Text.{Text, codes}
use libauth.Authz.History.Facts.{fresh}
use libauth.Authz.Race.{check-stored, stored, gathered}
use libauth.Authz.Cache.{compute_and_cache}
use libauth.Authz.Fresh.{IsEntitled}

-- Nobody has asked for the permissions of bob yet.
abbrev unasked : Enforcer
unasked =
    perform_all
      (create_role_op (codes "editor") (perm "article" "edit" ∷ []) []
        ∷ create_user_op bob (codes "editor" ∷ [])
        ∷ [])
      (fresh (pos 4))

abbrev editor_of_old : User
editor_of_old = record { id = bob; roles = codes "editor" ∷ []; direct = [] }

abbrev revoked : Enforcer
revoked = (revoke_permission (codes "editor") (perm "article" "edit") unasked).1

check-stored_example :
    (g : GrantedSet) × (roles : List Text) × (gathered unasked.store editor_of_old ≡ ok (g, roles))
    × ((compute_and_cache editor_of_old unasked).1 ≡ stored editor_of_old g unasked)
    × (((check bob (perm "article" "edit") (stored editor_of_old g revoked)).0 ≡ ok tt)
        ↔ IsEntitled unasked.store editor_of_old (perm "article" "edit"))
unfolding runs
check-stored_example =
    check-stored unasked revoked editor_of_old editor_of_old (perm "article" "edit") refl refl refl
