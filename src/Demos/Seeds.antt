-- ===== src/Demos/Seeds.antt =====
-- _examples/: the roles and users that the programs start with, and the run of basic/main.go. A loop
-- over a map of users takes them in some order; here it is that of the source.
pub mod Policy
use libauth.Prelude.{List, [], ◌∷◌}
use libauth.Text.{Text, codes}
use libauth.Model.{Permission}
use libauth.Errors.{Error, Result, ok, err, permission_denied}
use libauth.Authz.{Enforcer, new}
use libauth.Authz.Exec.{read, Exec, pure, ◌>>=◌, ◌>>◌}
use libauth.Authz.Roles.{create_role, grant_permission}
use libauth.Authz.Users.{create_user, assign_role, revoke_role, grant_direct_permission}
use libauth.Authz.Check.{check, permissions_for}
use libauth.Authz.Resolve.{roles_for}

-- A row of the table of roles, and one of the users.
pub record RoleRow : Type 0 where
  pub name : Text
  pub permissions : List Permission
  pub parent : Text

pub record UserRow : Type 0 where
  pub id : Text
  pub roles : List Text

unfoldable pub create_roles : List RoleRow → Exec (Unit {0})
create_roles [] = pure tt
create_roles (r ∷ rs) = do create_role r.name r.permissions r.parent; create_roles rs

unfoldable pub create_users : List UserRow → Exec (Unit {0})
create_users [] = pure tt
create_users (u ∷ us) = do create_user u.id u.roles; create_users us

abbrev perm : Text → Text → Permission
perm r a = record { resource = r; action = a }

abbrev article : Text → Permission
article a = perm (codes "article") a

abbrev read_whoami : Permission
read_whoami = perm (codes "whoami") (codes "read")

abbrev admin_row : RoleRow
admin_row = record { name = codes "admin"; permissions = perm (codes "*") [] ∷ []; parent = [] }

abbrev pub editor_row : RoleRow
editor_row = record {
  name = codes "editor";
  permissions =
      article (codes "create") ∷ article (codes "edit") ∷ article (codes "read") ∷ read_whoami ∷ [];
  parent = [];
}

abbrev pub viewer_row : RoleRow
viewer_row = record {
  name = codes "viewer";
  permissions = article (codes "read") ∷ read_whoami ∷ [];
  parent = [];
}

abbrev pub publisher_row : RoleRow
publisher_row = record {
  name = codes "publisher";
  permissions = article (codes "publish") ∷ [];
  parent = codes "editor";
}

abbrev user_row : Text → List Text → UserRow
user_row id roles = record { id = id; roles = roles }

abbrev pub alice_row : UserRow
alice_row = user_row (codes "alice") (codes "admin" ∷ [])

abbrev pub bob_row : UserRow
bob_row = user_row (codes "bob") (codes "editor" ∷ codes "viewer" ∷ [])

abbrev pub carol_row : UserRow
carol_row = user_row (codes "carol") (codes "viewer" ∷ [])

abbrev pub dave_row : UserRow
dave_row = user_row (codes "dave") (codes "publisher" ∷ [])

-- `seed` of example01/main.go.
abbrev pub example01_seed : Exec (Unit {0})
example01_seed = do
  create_roles (admin_row ∷ editor_row ∷ viewer_row ∷ publisher_row ∷ [])
  create_users (alice_row ∷ bob_row ∷ carol_row ∷ dave_row ∷ [])

-- `seed` of jwtauth/main.go.
abbrev pub jwtauth_seed : Exec (Unit {0})
jwtauth_seed = do
  create_roles (admin_row ∷ editor_row ∷ viewer_row ∷ [])
  create_users (alice_row ∷ bob_row ∷ carol_row ∷ [])

-- What basic/main.go prints of a check.
pub data Printed : Type 0 where
  allowed denied : Printed
  failed : Error → Printed

abbrev printed : Result (Unit {0}) → Printed
printed (ok done) = allowed
printed (err (permission_denied d)) = denied
printed (err e) = failed e

-- `verdict`
unfoldable pub verdict : Text → Permission → Exec Printed
verdict id q e = let (answer, e') = check id q e in (ok (printed answer), e')

-- The setup of basic/main.go.
abbrev basic_setup : Exec (Unit {0})
basic_setup = do
  create_roles (viewer_row ∷ editor_row ∷ publisher_row ∷ admin_row ∷ [])
  create_users (carol_row ∷ bob_row ∷ dave_row ∷ alice_row ∷ [])

-- `roles, _ := m.RolesFor(u)`: the error is dropped, and the slice is then nil.
abbrev or_nil : {A : Type 0} → Exec (List A) → Exec (List A)
or_nil m e = let (answer, e') = m e in (ok (elim answer [ ok xs ↦ xs | err c ↦ [] ]), e')

-- The loop that prints the roles of each user.
unfoldable pub effective_roles : List Text → Exec (List (List Text))
effective_roles [] = pure []
effective_roles (u ∷ us) = do
  roles ← or_nil (read (λ s. roles_for s u))
  rest ← effective_roles us
  pure (roles ∷ rest)

-- The loop over checks.
unfoldable pub verdicts : List (Text × Permission) → Exec (List Printed)
verdicts [] = pure []
verdicts ((id, q) ∷ cs) = do first ← verdict id q; rest ← verdicts cs; pure (first ∷ rest)

abbrev basic_cases : List (Text × Permission)
basic_cases =
    (codes "carol", article (codes "read"))
    ∷ (codes "carol", article (codes "create"))
    ∷ (codes "bob", article (codes "create"))
    ∷ (codes "bob", article (codes "delete"))
    ∷ (codes "dave", article (codes "publish"))
    ∷ (codes "dave", article (codes "edit"))
    ∷ (codes "alice", perm (codes "user") (codes "delete"))
    ∷ []

-- Its changes at run time, with the verdict after each.
abbrev basic_changes : Exec (List Printed)
basic_changes = do
  assign_role (codes "carol") (codes "editor")
  first ← verdict (codes "carol") (article (codes "create"))
  grant_permission (codes "viewer") (article (codes "comment"))
  second ← verdict (codes "carol") (article (codes "comment"))
  grant_direct_permission (codes "carol") (article (codes "archive"))
  third ← verdict (codes "carol") (article (codes "archive"))
  revoke_role (codes "carol") (codes "editor")
  last ← verdict (codes "carol") (article (codes "create"))
  pure (first ∷ second ∷ third ∷ last ∷ [])

-- What `main` prints.
pub record BasicOutput : Type 0 where
  pub roles : List (List Text)
  pub checks : List Printed
  pub changes : List Printed
  pub perms : List Permission

abbrev pub basic_main : Exec BasicOutput
basic_main = do
  basic_setup
  roles ← effective_roles (codes "carol" ∷ codes "bob" ∷ codes "dave" ∷ codes "alice" ∷ [])
  checks ← verdicts basic_cases
  changes ← basic_changes
  perms ← or_nil (permissions_for (codes "carol"))
  pure (record { roles = roles; checks = checks; changes = changes; perms = perms })

abbrev pub new_enforcer : Enforcer
new_enforcer = new []

-- The enforcers that the programs serve.
abbrev pub example01_enforcer : Enforcer
example01_enforcer = (example01_seed new_enforcer).1

abbrev pub jwtauth_enforcer : Enforcer
jwtauth_enforcer = (jwtauth_seed new_enforcer).1
