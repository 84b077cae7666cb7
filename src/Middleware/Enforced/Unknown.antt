-- ===== src/Middleware/Enforced/Unknown.antt =====
-- Requests of nobody that the enforcer knows (middleware/middleware.go).
use libauth.Store
use libauth.Prelude.{sym, ap, ◌∙◌, inr, inl, refl, arith, false, ℕ, ◌⊎◌, Option, ◌≡◌, none}
use libauth.Middleware.{
  fail, Handler, identify, Step, Reply, GuardError, IdentityFunc, Request, anonymous, caller,
  access, replied,
}
use libauth.Authz.{Enforcer}
use libauth.Middleware.Require.{require_role, require_any, require_all, require}
use libauth.Middleware.Statuses.{by_role, by_any, by_all, by_permission, guarded, Guard}
use libauth.Model.{User}
use libauth.Middleware.Enforced.{guarding}
use libauth.Text.{Text}
use libauth.Dict.{get}
use libauth.Errors.{user_not_found}

-- A user of the context that was not resolved, or no user there.
abbrev pub IsUnresolved : Request → Type 0
IsUnresolved r = (r.context.user ≡ none) ⊎ (r.context.resolved ≡ false)

module _ (identity : IdentityFunc) (hook : Option (Request → ℕ → GuardError → Reply)) (r : Request)
    (e : Enforcer) (unresolved : IsUnresolved r) where
  abbrev turned_away : GuardError → Step User × Enforcer
  turned_away c = (replied (fail (guarding identity hook) r 401 c), e)

  identify_anonymous :
      (c : GuardError)
      → identity r ≡ anonymous c
      → identify (guarding identity hook) r e ≡ turned_away c
  unfolding identify
  identify_anonymous c who = ground (arith, unresolved, who)

  identify_absent :
      (id : Text)
      → identity r ≡ caller id
      → get e.store.users id ≡ none
      → identify (guarding identity hook) r e ≡ turned_away (access user_not_found)
  unfolding identify Store.get_user
  identify_absent id who absent = ground (arith, unresolved, who, absent)

  turned_away_lem :
      (g : Guard) (next : Handler Enforcer) (c : GuardError)
      → identify (guarding identity hook) r e ≡ turned_away c
      → guarded (guarding identity hook) g next r e ≡ (fail (guarding identity hook) r 401 c, e)
  unfolding require require_all require_any require_role
  turned_away_lem (by_permission p) next c k = rw k refl
  turned_away_lem (by_all ps) next c k = rw k refl
  turned_away_lem (by_any ps) next c k = rw k refl
  turned_away_lem (by_role role) next c k = rw k refl

  -- The identity fails with `c`, or names a user that is not stored.
  abbrev pub IsUnknown : GuardError → Type 0
  IsUnknown c =
      (identity r ≡ anonymous c)
      ⊎ ((id : Text) × (identity r ≡ caller id)
          × (get e.store.users id ≡ none)
          × (c ≡ access user_not_found))

  -- For a request that is not resolved and whose identity fails or names a user that is not stored, each
  -- of the four guards fails with 401 and leaves the enforcer as it was, its caches included.
  pub guarded_unknown :
      (g : Guard) (next : Handler Enforcer) (c : GuardError)
      → IsUnknown c
      → guarded (guarding identity hook) g next r e ≡ (fail (guarding identity hook) r 401 c, e)
  guarded_unknown g next c (inl who) = turned_away_lem g next c (identify_anonymous c who)
  guarded_unknown g next c (inr (id, who, absent, same)) =
      turned_away_lem g next c (identify_absent id who absent ∙ ap turned_away (sym same))
