-- ===== src/Examples/Accounts.antt =====
-- Instances of the theorem on the seeded accounts, and the run of _examples/basic/main.go.
use libauth.Prelude.{◌≡◌, refl, [], ◌∷◌, true, any, ◌++◌}
use libauth.Text.{codes}
use libauth.Errors.{ok}
use libauth.Model.{perm_eq}
use libauth.Examples.{perm, runs}
use libauth.Demos.Seeds.{
  basic_main, new_enforcer, allowed, denied, example01_enforcer, alice_row, bob_row, carol_row,
  dave_row, editor_row, viewer_row, publisher_row, create_roles, create_users, verdict, verdicts,
  effective_roles,
}
use libauth.Demos.Seeds.Policy.{may, policy_lem}

policy_lem_example :
    (may example01_enforcer alice_row.id (perm "user" "delete") ≡ true)
    × (may example01_enforcer bob_row.id (perm "user" "delete")
        ≡ any
            (λ p. perm_eq p (perm "user" "delete"))
            (editor_row.permissions ++ viewer_row.permissions))
    × (may example01_enforcer carol_row.id (perm "user" "delete")
        ≡ any (λ p. perm_eq p (perm "user" "delete")) viewer_row.permissions)
    × (may example01_enforcer dave_row.id (perm "user" "delete")
        ≡ any
            (λ p. perm_eq p (perm "user" "delete"))
            (editor_row.permissions ++ publisher_row.permissions))
policy_lem_example = policy_lem (perm "user" "delete")

basic_printed :
    (basic_main new_enforcer).0
    ≡ ok (record {
      roles =
          (codes "viewer" ∷ [])
          ∷ (codes "editor" ∷ codes "viewer" ∷ [])
          ∷ (codes "editor" ∷ codes "publisher" ∷ [])
          ∷ (codes "admin" ∷ [])
          ∷ [];
      checks = allowed ∷ denied ∷ allowed ∷ denied ∷ allowed ∷ allowed ∷ allowed ∷ [];
      changes = allowed ∷ allowed ∷ allowed ∷ denied ∷ [];
      perms =
          perm "article" "archive"
          ∷ perm "article" "comment"
          ∷ perm "article" "read"
          ∷ perm "whoami" "read"
          ∷ [];
    })
unfolding runs create_roles create_users verdict verdicts effective_roles
basic_printed = refl
