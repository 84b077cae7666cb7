-- ===== src/Middleware/Require.antt =====
-- middleware/require.go: the guards.
use libauth.Prelude.{◌++◌, Bool, List, true, false, some, [], ◌∷◌}
use libauth.Errors.{permission_denied, Result, ok, err}
use libauth.Middleware.{
  access, status_forbidden, status_internal, with_user, fail, with_context, identify, pass, Reply,
  after, authorize, Step, Request, Middleware, Handler, go_on, replied,
}
use libauth.Model.{parse_permission, User, Parsed, Permission, parsed, refused}
use libauth.Text.{codes, Text}

-- `next.ServeHTTP(w, r.WithContext(WithUser(r.Context(), u)))`, or the reply of the guard.
abbrev pub serve : {E : Type 0} → Handler E → Request → Step User × E → Reply × E
serve next r (go_on u, s) = next (with_context r (with_user r.context (some u))) s
serve next r (replied a, s) = (a, s)

-- What a denial names as required: the one permission, or the resource "<any>".
abbrev pub named : List Permission → Permission
named [] = record { resource = codes "<any>"; action = [] }
named (p ∷ []) = p
named (p ∷ q ∷ ps) = record { resource = codes "<any>"; action = [] }

-- `required, _ := model.ParsePermission("role:" + string(role))`
abbrev pub or_zero : Parsed → Permission
or_zero (parsed p) = p
or_zero (refused e) = record { resource = []; action = [] }

abbrev pub role_permission : Text → Permission
role_permission role = or_zero (parse_permission (codes "role:" ++ role))

module _ {E : Type 0} (mw : Middleware E) where
  -- `Require`
  unfoldable pub require : Permission → Handler E → Handler E
  require perm next r s = serve next r (authorize mw r perm s)

  -- `for _, p := range perms { if _, ok := mw.pass(w, r, u, p); !ok { return } }`
  unfoldable pub pass_all : Request → List Permission → User → E → Step User × E
  pass_all r [] u s = (go_on u, s)
  pass_all r (p ∷ ps) u s = after mw (pass mw r u p s) (λ _ s'. pass_all r ps u s')

  -- `RequireAll`
  unfoldable pub require_all : List Permission → Handler E → Handler E
  require_all perms next r s = serve next r (after mw (identify mw r s) (pass_all r perms))

  -- One round of the loop of `RequireAny`.
  abbrev pub any_round : Request → Result Bool → (E → Step Bool × E) → E → Step Bool × E
  any_round r (ok true) rest s = (go_on true, s)
  any_round r (ok false) rest s = rest s
  any_round r (err e) rest s = (replied (fail mw r status_internal (access e)), s)

  -- The loop of `RequireAny`: whether one of the permissions was granted.
  unfoldable pub find_any : Request → List Permission → User → E → Step Bool × E
  find_any r [] u s = (go_on false, s)
  find_any r (p ∷ ps) u s =
      let (answer, s') = mw.manager.has_permission u.id p s in
      any_round r answer (λ t. find_any r ps u t) s'

  abbrev pub forbidden : Request → User → Permission → Reply
  forbidden r u required = fail mw r status_forbidden (
      access
        (permission_denied (record { user_id = u.id; user = u; required = required; roles = [] })))

  -- `if denied { … }`
  abbrev pub admit : Request → User → Permission → Step Bool × E → Step User × E
  admit r u required (go_on true, s) = (go_on u, s)
  admit r u required (go_on false, s) = (replied (forbidden r u required), s)
  admit r u required (replied a, s) = (replied a, s)

  -- `RequireAny`
  unfoldable pub require_any : List Permission → Handler E → Handler E
  require_any perms next r s =
      serve next r
        (after mw (identify mw r s) (λ u s'. admit r u (named perms) (find_any r perms u s')))

  abbrev pub role_answer : Request → Result Bool → Step Bool
  role_answer r (ok granted) = go_on granted
  role_answer r (err e) = replied (fail mw r status_internal (access e))

  abbrev pub ask_role : Request → Text → User → E → Step Bool × E
  ask_role r role u s =
      let (answer, s') = mw.manager.has_role u.id role s in (role_answer r answer, s')

  -- `RequireRole`
  unfoldable pub require_role : Text → Handler E → Handler E
  require_role role next r s =
      serve next r (
        after mw (identify mw r s)
          (λ u s'. admit r u (role_permission role) (ask_role r role u s')))
