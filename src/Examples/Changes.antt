-- ===== src/Examples/Changes.antt =====
-- Instances of the theorems on the changes of users and roles.
use libauth.Store.{get_role}
use libauth.Authz.Roles
use libauth.Model.{User, Role}
use libauth.Authz.Validate.{validate_inheritance}
use libauth.Examples.{perm, runs}
use libauth.Authz.Invariant.Sound.{IsSound}
use libauth.Authz.Coherent.{IsCoherent}
use libauth.Text.{◌==◌, codes}
use libauth.Prelude.{false, ◌∷◌, none, refl, ◌⊎◌, true, ◌↔◌, arith, ◌≡◌, []}
use libauth.Authz.Roles.{set_parent}
use libauth.Authz.History.{create_user_op, delete_role_op, perform-IsCoherent, revoke_op, perform}
use libauth.Examples.Answers.{ready-IsCoherent, ready-IsSound, ready}
use libauth.Authz.Coherent.Roles.{HeldDirectly}
use libauth.Authz.Users.{revoke_role}
use libauth.Authz.Invariant.RoleDeletion.Rest.{delete_role-IsSound}
use libauth.Errors.{role_not_found, cyclic_inheritance, empty_name, err, ok}
use libauth.Store.Lookup.{is_ok}
use libauth.Store.{get_role}
use libauth.Authz.Outcome.RoleRevocation.{revoke_role_lem, IsRevoked}
use libauth.Dict.{get, has_key}
use libauth.Authz.Validate.Spec.{Clear}
use libauth.Authz.Validate.Exact.{validate_iff}
use libauth.Authz.{Enforcer}

abbrev outdated : Role
outdated = record { name = codes "editor"; permissions = []; parent = codes "publisher" }

validate_iff_example : (validate_inheritance ready.store 4 outdated ≡ ok tt) ↔ (
    ((outdated.parent == []) ≡ true)
    ⊎ ((is_ok (get_role ready.store outdated.parent) ≡ true)
        × Clear ready.store outdated.name 4 outdated.parent))
validate_iff_example = validate_iff ready.store 4 outdated

-- The publisher inherits from the editor: the reverse would be a cycle.
cycle_refused : (set_parent (codes "editor") (codes "publisher") ready).0 ≡ err cyclic_inheritance
unfolding runs
cycle_refused = refl

delete_role-IsSound_example : IsSound (Roles.delete_role (codes "publisher") ready).1
delete_role-IsSound_example = delete_role-IsSound ready ready-IsSound (codes "publisher")

-- Nobody inherits from the publisher.
publisher-HeldDirectly : HeldDirectly ready (codes "publisher")
unfolding runs
publisher-HeldDirectly j u p held = ground (arith, p)

-- The grants of bob are cached, and the role is taken away from bob.
perform-IsCoherent_example : IsCoherent (perform (delete_role_op (codes "publisher")) ready)
unfolding runs
perform-IsCoherent_example =
    perform-IsCoherent ready ready-IsCoherent ready-IsSound (delete_role_op (codes "publisher"))
      (((λ child. cc child), ((λ child. cc child), tt)), refl)

revoked-IsCoherent :
    IsCoherent (perform (revoke_op (codes "publisher") (perm "article" "publish")) ready)
revoked-IsCoherent =
    perform-IsCoherent ready ready-IsCoherent ready-IsSound
      (revoke_op (codes "publisher") (perm "article" "publish")) publisher-HeldDirectly

-- Somebody was given the role twice.
abbrev eve : User
eve = record {
  id = codes "eve";
  roles = codes "publisher" ∷ codes "editor" ∷ codes "publisher" ∷ [];
  direct = [];
}

abbrev joined : Enforcer
joined = perform (create_user_op eve.id eve.roles) ready

revoke_role_lem_example :
    ((get joined.store.roles (codes "publisher") ≡ none)
      × (revoke_role eve.id (codes "publisher") joined ≡ (err role_not_found, joined)))
    ⊎ ((has_key joined.store.roles (codes "publisher") ≡ true)
        × (eve.id ≡ [])
        × (revoke_role eve.id (codes "publisher") joined ≡ (err empty_name, joined)))
    ⊎ ((has_key joined.store.roles (codes "publisher") ≡ true)
        × ((eve.id == []) ≡ false)
        × ((revoke_role eve.id (codes "publisher") joined).0 ≡ ok tt)
        × IsRevoked joined eve
            (codes "publisher")
            (revoke_role eve.id (codes "publisher") joined).1)
unfolding runs
revoke_role_lem_example = revoke_role_lem joined eve (codes "publisher") refl
