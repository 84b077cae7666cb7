-- ===== src/Demos/Articles/Access.antt =====
-- Who reaches which handler of the server of articles (_examples/example01/main.go).
use libauth.Store
use libauth.Authz.Check
use libauth.Prelude.{refl, arith, some, List, ◌≡◌, ◌⊎◌, inl, inr, false, ap}
use libauth.Text.{Text}
use libauth.Model.{Permission, User}
use libauth.Errors.{ok, permission_denied}
use libauth.Dict.{get}
use libauth.Authz.{Enforcer}
use libauth.Authz.Fresh.{IsEntitled}
use libauth.Authz.Resolve.{resolve_roles}
use libauth.Authz.Coherent.Answers.{check_lem, denial}
use libauth.Middleware.{
  Handler, Request, Middleware, IdentityFunc, caller, go_on, replied, failure, access, identify,
  pass, checked, with_context, with_user, Reply, status_forbidden,
}
use libauth.Middleware.Require.{require}
use libauth.Middleware.Enforced.{enforcer, IsReady, check_keeps}
use libauth.Demos.Articles.{World}
use libauth.Demos.Articles.Served.{guard}

-- The reply of a guard to a user who is not entitled.
abbrev pub forbidden_reply : User → Permission → List Text → Reply
forbidden_reply u p roles = failure status_forbidden (access (permission_denied (denial u p roles)))

-- How a guard decides: the handler answers, with the user in the context, if the user is entitled to
-- the permission, and else the denial. The store stays as it is and the enforcer ready.
abbrev pub Decided :
    Request
    → User
    → World Enforcer
    → Permission
    → Handler (World Enforcer)
    → Reply × World Enforcer
    → Type 0
Decided r u w p next answer =
    (e' : Enforcer) × (e'.store ≡ w.auth.store)
    × IsReady e'
    × ((IsEntitled w.auth.store u p
          × (answer
              ≡ next (with_context r (with_user r.context (some u))) (record w { auth = e' })))
        ⊎ ((¬ (IsEntitled w.auth.store u p))
            × ((roles : List Text) × (resolve_roles w.auth.store u ≡ ok roles)
                × (answer ≡ (forbidden_reply u p roles, record w { auth = e' })))))

module _ (identity : IdentityFunc) (r : Request) (u : User) where
  abbrev mw : Middleware (World Enforcer)
  mw = guard enforcer identity

  identify_lem :
      (w : World Enforcer)
      → identity r ≡ caller u.id
      → r.context.resolved ≡ false
      → get w.auth.store.users u.id ≡ some u
      → identify mw r w ≡ (go_on u, w)
  unfolding identify Store.get_user
  identify_lem w named fresh found = ground (arith, named, fresh, found)

  pass_cases :
      (w : World Enforcer) (p : Permission)
      → IsReady w.auth
      → get w.auth.store.users u.id ≡ some u
      → (e' : Enforcer) × (e'.store ≡ w.auth.store)
        × IsReady e'
        × ((IsEntitled w.auth.store u p × (pass mw r u p w ≡ (go_on u, record w { auth = e' })))
            ⊎ ((¬ (IsEntitled w.auth.store u p))
                × ((roles : List Text) × (resolve_roles w.auth.store u ≡ ok roles)
                    × (pass mw r u p w
                        ≡ (replied (forbidden_reply u p roles), record w { auth = e' })))))
  unfolding pass
  pass_cases w p h found =
      let (kept, ready) = check_keeps w.auth u.id p h in
      let e' = (Check.check u.id p w.auth).1 in
      (
        e',
        kept,
        ready,
        elim (check_lem w.auth u p h.1 found) [
          | inl (granted, entitled) ↦
              inl (entitled, ap (λ t. (checked mw r u t, record w { auth = e' })) granted)
          | inr (roles, resolved, denied, not_entitled) ↦ inr (
            not_entitled,
            (roles, resolved, ap (λ t. (checked mw r u t, record w { auth = e' })) denied),
          )
        ],
      )

  pub require_lem :
      (p : Permission) (next : Handler (World Enforcer)) (w : World Enforcer)
      → IsReady w.auth
      → identity r ≡ caller u.id
      → r.context.resolved ≡ false
      → get w.auth.store.users u.id ≡ some u
      → Decided r u w p next (require (guard enforcer identity) p next r w)
  unfolding require
  require_lem p next w h named fresh found =
      let (e', kept, ready, passed) = pass_cases w p h found in
      let known = identify_lem w named fresh found in
      (
        e',
        kept,
        ready,
        elim passed [
          | inl (entitled, done) ↦ inl (entitled, rw known (rw done refl))
          | inr (refused, (roles, resolved, done)) ↦
              inr (refused, (roles, resolved, rw known (rw done refl)))
        ],
      )
