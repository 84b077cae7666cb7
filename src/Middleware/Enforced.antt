-- ===== src/Middleware/Enforced.antt =====
-- The guards over the enforcer (middleware.go, with authz/check.go): an `Enforcer` is an authorizer.
pub mod Unknown
pub mod Choices
use libauth.Store
use libauth.Authz.Check
use libauth.Prelude.{
  arith, refl, ℕ, Option, ◌⊎◌, List, ◌∙◌, ap, ◌≡◌, some, [], ◌∷◌, false, inl, inr,
}
use libauth.Errors.{permission_denied, ok}
use libauth.Middleware.{
  with_user, with_context, Handler, identify, checked, GuardError, IdentityFunc, status_forbidden,
  fail, Reply, pass, Request, Middleware, Authorizer, go_on, replied, caller, access,
}
use libauth.Authz.{Enforcer}
use libauth.Authz.Invariant.Sound.{IsSound}
use libauth.Text.{Text}
use libauth.Authz.Coherent.{IsCoherent}
use libauth.Model.{User, Permission}
use libauth.Authz.Cache.{get_granted_set_full}
use libauth.Authz.Invariant.Queries.{full-IsSound}
use libauth.Authz.Coherent.Reads.{full_store, has_permission_state, check_state}
use libauth.Authz.Coherent.Users.{full-IsCoherent}
use mathlib.Core.Path.{subst, subst⁻¹}
use libauth.Dict.{get}
use libauth.Authz.Fresh.{IsEntitled}
use libauth.Authz.Resolve.{resolve_roles}
use libauth.Authz.Coherent.Answers.{check_lem, denial}
use libauth.Authz.Coherent.Queries.{IsEntitledToAll}
use libauth.Middleware.Require.{require_all, pass_all}
use libauth.Store.{MemoryStore}

abbrev pub enforcer : Authorizer Enforcer
enforcer = record {
  check = Check.check;
  has_permission = Check.has_permission;
  has_role = Check.has_role;
  get_user = λ id e. (Store.get_user e.store id, e);
}

-- Consistent indexes over an acyclic hierarchy, and exact cached sets.
abbrev pub IsReady : Enforcer → Type 0
IsReady e = IsSound e × IsCoherent e

full-IsReady : (e : Enforcer) (id : Text) → IsReady e → IsReady (get_granted_set_full id e).1
full-IsReady e id (sound, coherent) =
    (full-IsSound e sound id, full-IsCoherent e coherent sound.consistent id)

-- A query of permissions changes no record, and keeps the enforcer ready.
pub check_keeps :
    (e : Enforcer) (id : Text) (q : Permission)
    → IsReady e
    → ((Check.check id q e).1.store ≡ e.store) × IsReady (Check.check id q e).1
check_keeps e id q h = (
  ap (λ (t : Enforcer). t.store) (check_state id q e) ∙ full_store id e,
  subst⁻¹ IsReady (check_state id q e) (full-IsReady e id h),
)

pub has_permission_keeps :
    (e : Enforcer) (id : Text) (q : Permission)
    → IsReady e
    → ((Check.has_permission id q e).1.store ≡ e.store) × IsReady (Check.has_permission id q e).1
has_permission_keeps e id q h = (
  ap (λ (t : Enforcer). t.store) (has_permission_state id q e) ∙ full_store id e,
  subst⁻¹ IsReady (has_permission_state id q e) (full-IsReady e id h),
)

-- What a denial of one permission replies.
abbrev pub denied_reply : Middleware Enforcer → Request → User → Permission → List Text → Reply
denied_reply mw r u p roles =
    fail mw r status_forbidden (access (permission_denied (denial u p roles)))

-- `NewMiddleware(e, identity)`, with the hook set.
abbrev pub guarding : IdentityFunc → Option (Request → ℕ → GuardError → Reply) → Middleware Enforcer
guarding identity hook = record { manager = enforcer; identity = identity; on_error = hook }

module _ (identity : IdentityFunc) (hook : Option (Request → ℕ → GuardError → Reply)) (r : Request)
    (u : User) where
  abbrev mw : Middleware Enforcer
  mw = guarding identity hook

  -- One check: it goes on with the user exactly if the user is entitled.
  pass_lem :
      (e : Enforcer) (p : Permission)
      → IsReady e
      → get e.store.users u.id ≡ some u
      → (IsEntitled e.store u p × (pass mw r u p e ≡ (go_on u, (Check.check u.id p e).1)))
        ⊎ ((¬ (IsEntitled e.store u p))
            × ((roles : List Text) × (resolve_roles e.store u ≡ ok roles)
                × (pass mw r u p e
                    ≡ (replied (denied_reply mw r u p roles), (Check.check u.id p e).1))))
  unfolding pass
  pass_lem e p h found = elim (check_lem e u p h.1 found) [
    | inl (granted, entitled) ↦
        inl (entitled, ap (λ t. (checked mw r u t, (Check.check u.id p e).1)) granted)
    | inr (roles, resolved, denied, not_entitled) ↦ inr (
      not_entitled,
      (roles, resolved, ap (λ t. (checked mw r u t, (Check.check u.id p e).1)) denied),
    )
  ]

  -- Where the loop over the permissions ends: with the user, or at the first that is denied.
  abbrev Passed : MemoryStore → Enforcer → List Permission → Enforcer → Type 0
  Passed s e ps e' =
      (IsEntitledToAll s u ps × (pass_all mw r ps u e ≡ (go_on u, e')))
      ⊎ ((¬ (IsEntitledToAll s u ps))
          × ((p : Permission) × (roles : List Text) × (resolve_roles s u ≡ ok roles)
              × (¬ (IsEntitled s u p))
              × (pass_all mw r ps u e ≡ (replied (denied_reply mw r u p roles), e'))))

  one_more :
      (s : MemoryStore) (e e1 e' : Enforcer) (p : Permission) (ps : List Permission)
      → IsEntitled s u p
      → pass mw r u p e ≡ (go_on u, e1)
      → Passed s e1 ps e'
      → Passed s e (p ∷ ps) e'
  unfolding pass_all
  one_more s e e1 e' p ps entitled k (inl (all_entitled, done)) =
      inl ((entitled, all_entitled), rw k done)
  one_more s e e1 e' p ps entitled k (inr (refused, (q, roles, resolved, denied, done))) =
      inr ((λ both. refused both.1), (q, roles, resolved, denied, rw k done))

  pass_all_lem :
      (e : Enforcer) (ps : List Permission)
      → IsReady e
      → get e.store.users u.id ≡ some u
      → (e' : Enforcer) × (e'.store ≡ e.store) × IsReady e' × Passed e.store e ps e'
  unfolding pass_all
  pass_all_lem e [] h found = (e, refl, h, inl (tt, refl))
  pass_all_lem e (p ∷ ps) h found =
      let (kept, ready) = check_keeps e u.id p h in
      let e1 = (Check.check u.id p e).1 in
      let (e', same, ready', rest) =
        pass_all_lem e1 ps ready (ap (λ (s : MemoryStore). get s.users u.id) kept ∙ found) in
      elim (pass_lem e p h found) [
        | inr (refused, (roles, resolved, k)) ↦ (
          e1,
          kept,
          ready,
          inr ((λ both. refused both.0), (p, roles, resolved, refused, rw k refl)),
        )
        | inl (entitled, k) ↦ (
          e',
          same ∙ kept,
          ready',
          one_more e.store e e1 e' p ps entitled k (subst (λ s. Passed s e1 ps e') kept rest),
        )
      ]

  pub identify_stored :
      (e : Enforcer)
      → identity r ≡ caller u.id
      → r.context.resolved ≡ false
      → get e.store.users u.id ≡ some u
      → identify mw r e ≡ (go_on u, e)
  unfolding identify Store.get_user
  identify_stored e named fresh found = ground (arith, named, fresh, found)

  -- For an unresolved request of a stored user, if the indexes are consistent, the hierarchy is acyclic
  -- and the cached sets are exact: `RequireAll` calls the handler, with the user in the context, if the
  -- user is entitled to each permission. Otherwise it fails with 403 and the denial of one to which the
  -- user is not entitled. The store stays as it was, and the enforcer as sound and exact as before.
  pub require_all_lem :
      (e : Enforcer) (ps : List Permission) (next : Handler Enforcer)
      → IsReady e
      → identity r ≡ caller u.id
      → r.context.resolved ≡ false
      → get e.store.users u.id ≡ some u
      → (e' : Enforcer) × (e'.store ≡ e.store)
        × IsReady e'
        × ((IsEntitledToAll e.store u ps
              × (require_all mw ps next r e
                  ≡ next (with_context r (with_user r.context (some u))) e'))
            ⊎ ((¬ (IsEntitledToAll e.store u ps))
                × ((p : Permission) × (roles : List Text) × (resolve_roles e.store u ≡ ok roles)
                    × (¬ (IsEntitled e.store u p))
                    × (require_all mw ps next r e ≡ (denied_reply mw r u p roles, e')))))
  unfolding require_all
  require_all_lem e ps next h named fresh found =
      let (e', same, ready, passed) = pass_all_lem e ps h found in
      let known = identify_stored e named fresh found in
      (
        e',
        same,
        ready,
        elim passed [
          | inl (entitled, done) ↦ inl (entitled, rw known (rw done refl))
          | inr (refused, (p, roles, resolved, denied, done)) ↦
              inr (refused, (p, roles, resolved, denied, rw known (rw done refl)))
        ],
      )
