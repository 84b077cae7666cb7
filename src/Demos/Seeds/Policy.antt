-- ===== src/Demos/Seeds/Policy.antt =====
-- What the seeded accounts may do (_examples/example01/main.go).
use libauth.Store
use libauth.Authz.Check
use libauth.Prelude.{false, All, ◌∙◌, ◌++◌, true, any, ◌≡◌, refl, List, [], ◌∷◌, arith, Bool}
use libauth.Text.{◌==◌, Text, codes}
use libauth.Model.{star, valid, perm_eq, matches, Permission, User}
use libauth.Errors.{ok}
use libauth.Authz.{Enforcer, GrantedSet, add_permissions, no_grants, has}
use libauth.Authz.Cache.{get_granted_set_full}
use libauth.Store.Lookup.{is_ok}
use libauth.Demos.Seeds.{
  publisher_row, editor_row, admin_row, dave_row, carol_row, bob_row, alice_row, UserRow,
  viewer_row, example01_enforcer, create_users, create_roles,
}
use libauth.Dict.{get}
use libauth.Authz.Roles.{create_role}
use libauth.Authz.Users.{create_user, with_holders}
use libauth.Authz.{new, add, with_holder, with_roles}
use libauth.Authz.Resolve.{resolve_roles, climb, enqueue, enqueue_all, visit}
use libauth.Authz.Validate.{check_ancestors, next_ancestor}
use libauth.Authz.Cache.{compute_and_cache, add_role, add_roles, filled, kept}
use libauth.Dict.{put, add_all, keys, remove}
use libauth.Prelude.Sorting.{sort}
use libauth.Text.Order.{text_lt}
use libauth.Authz.Validate.{validate_inheritance}
use libauth.Authz.Granted.{has-add_permissions}

-- Whether `Check` returns nil.
abbrev pub may : Enforcer → Text → Permission → Bool
may e id q = is_ok (Check.check id q e).0

may_full :
    (e : Enforcer) (id : Text) (q : Permission) (set : GrantedSet) (u : User) (roles : List Text)
    → (get_granted_set_full id e).0 ≡ ok (set, u, roles)
    → may e id q ≡ has set q
unfolding Check.check
may_full e id q set u roles h = ground (arith, h)

-- All that the seeds and a first check compute with.
seeding : Unit {0}
unfolding create_roles create_users get_granted_set_full get create_role ◌==◌ valid
    validate_inheritance Store.create_role new put Store.get_role check_ancestors next_ancestor
    create_user Store.create_user Store.get_user compute_and_cache resolve_roles add_role add_roles
    filled kept climb enqueue enqueue_all visit with_holders add add_permissions with_holder
    with_roles add_all keys remove sort text_lt
seeding = tt

-- The first answer for a user, and then the grants of the roles that the user has.
module _ (row : UserRow) (roles : List Text) (ps : List Permission)
    (computed : (get_granted_set_full row.id example01_enforcer).0
      ≡ ok (
        add_permissions no_grants ps,
        record { id = row.id; roles = row.roles; direct = [] },
        roles,
      )) where
  row_policy : (q : Permission) → may example01_enforcer row.id q ≡ any (λ p. matches p q) ps
  unfolding has get
  row_policy q =
      may_full example01_enforcer row.id q (add_permissions no_grants ps) _ roles computed
      ∙ has-add_permissions no_grants ps q

alice_set :
    (get_granted_set_full alice_row.id example01_enforcer).0
    ≡ ok (
      add_permissions no_grants admin_row.permissions,
      record { id = alice_row.id; roles = alice_row.roles; direct = [] },
      codes "admin" ∷ [],
    )
unfolding seeding
alice_set = refl

bob_set :
    (get_granted_set_full bob_row.id example01_enforcer).0
    ≡ ok (
      add_permissions no_grants (editor_row.permissions ++ viewer_row.permissions),
      record { id = bob_row.id; roles = bob_row.roles; direct = [] },
      codes "editor" ∷ codes "viewer" ∷ [],
    )
unfolding seeding
bob_set = refl

carol_set :
    (get_granted_set_full carol_row.id example01_enforcer).0
    ≡ ok (
      add_permissions no_grants viewer_row.permissions,
      record { id = carol_row.id; roles = carol_row.roles; direct = [] },
      codes "viewer" ∷ [],
    )
unfolding seeding
carol_set = refl

dave_set :
    (get_granted_set_full dave_row.id example01_enforcer).0
    ≡ ok (
      add_permissions no_grants (editor_row.permissions ++ publisher_row.permissions),
      record { id = dave_row.id; roles = dave_row.roles; direct = [] },
      codes "editor" ∷ codes "publisher" ∷ [],
    )
unfolding seeding
dave_set = refl

-- No field of a permission is the wildcard.
abbrev IsPlainPattern : Permission → Type 0
IsPlainPattern p = ((p.resource == star) ≡ false) × ((p.action == star) ≡ false)

matches_plain : (p q : Permission) → IsPlainPattern p → matches p q ≡ perm_eq p q
unfolding matches
matches_plain p q h = ground (arith, h)

any_plain :
    (ps : List Permission) (q : Permission)
    → All IsPlainPattern ps
    → any (λ p. matches p q) ps ≡ any (λ p. perm_eq p q) ps
any_plain [] q h = refl
any_plain (p ∷ ps) q (h, hs) = rw (matches_plain p q h, any_plain ps q hs) refl

star_matches : (q : Permission) → any (λ p. matches p q) admin_row.permissions ≡ true
unfolding matches ◌==◌
star_matches q = ground arith

-- On the accounts as seeded, for every permission, the first `Check` grants: alice all of them, bob and
-- carol the permissions of the roles that they were given, and dave those of the publisher and of the
-- editor that it inherits from, and nothing else.
pub policy_lem :
    (q : Permission)
    → (may example01_enforcer alice_row.id q ≡ true)
      × (may example01_enforcer bob_row.id q
          ≡ any (λ p. perm_eq p q) (editor_row.permissions ++ viewer_row.permissions))
      × (may example01_enforcer carol_row.id q ≡ any (λ p. perm_eq p q) viewer_row.permissions)
      × (may example01_enforcer dave_row.id q
          ≡ any (λ p. perm_eq p q) (editor_row.permissions ++ publisher_row.permissions))
unfolding ◌==◌
policy_lem q = (
  row_policy alice_row (codes "admin" ∷ []) admin_row.permissions alice_set q ∙ star_matches q,
  row_policy bob_row (codes "editor" ∷ codes "viewer" ∷ [])
        (editor_row.permissions ++ viewer_row.permissions) bob_set q
      ∙ any_plain (editor_row.permissions ++ viewer_row.permissions) q (
        (refl, refl),
        ((refl, refl), ((refl, refl), ((refl, refl), ((refl, refl), ((refl, refl), tt))))),
      ),
  row_policy carol_row (codes "viewer" ∷ []) viewer_row.permissions carol_set q
      ∙ any_plain viewer_row.permissions q ((refl, refl), ((refl, refl), tt)),
  row_policy dave_row (codes "editor" ∷ codes "publisher" ∷ [])
        (editor_row.permissions ++ publisher_row.permissions) dave_set q
      ∙ any_plain (editor_row.permissions ++ publisher_row.permissions) q
          ((refl, refl), ((refl, refl), ((refl, refl), ((refl, refl), ((refl, refl), tt))))),
)
