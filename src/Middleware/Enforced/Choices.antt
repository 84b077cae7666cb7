-- ===== src/Middleware/Enforced/Choices.antt =====
-- RequireAny and RequireRole over the enforcer (middleware/require.go).
use libauth.Authz.Check
use libauth.Prelude.{
  refl, Bool, ◌∙◌, Bool-cases, ap, if◌then◌else◌, ◌⊎◌, ◌≡◌, List, ℕ, Option, some, [], ◌∷◌, true,
  false, inl, inr,
}
use libauth.Errors.{ok}
use libauth.Middleware.{
  with_user, with_context, Handler, Reply, GuardError, Request, IdentityFunc, go_on, caller,
}
use libauth.Model.{Permission, User}
use libauth.Store.{MemoryStore}
use libauth.Authz.{Enforcer}
use libauth.Middleware.Require.{
  ask_role, admit, serve, role_permission, named, forbidden, require_role, require_any, find_any,
}
use libauth.Text.{contains, Text}
use libauth.Authz.Coherent.Queries.{permission_queries_lem, IsEntitledToAny}
use libauth.Middleware.Enforced.{identify_stored, has_permission_keeps, guarding, IsReady}
use libauth.Authz.Fresh.{IsEntitled}
use libauth.Dict.{get}
use libauth.Authz.Invariant.Sound.{IsSound}
use mathlib.Core.Path.{subst}
use libauth.Authz.Invariant.Queries.{role_queries_lem}

module _ (identity : IdentityFunc) (hook : Option (Request → ℕ → GuardError → Reply)) (r : Request)
    (u : User) where
  -- Where the loop over the permissions ends: at the first that is granted, or with none.
  abbrev Found : MemoryStore → Enforcer → List Permission → Enforcer → Type 0
  Found s e ps e' =
      (IsEntitledToAny s u ps × (find_any (guarding identity hook) r ps u e ≡ (go_on true, e')))
      ⊎ ((¬ (IsEntitledToAny s u ps))
          × (find_any (guarding identity hook) r ps u e ≡ (go_on false, e')))

  -- One permission.
  asked :
      (e : Enforcer) (p : Permission)
      → IsReady e
      → get e.store.users u.id ≡ some u
      → (IsEntitled e.store u p
          × (Check.has_permission u.id p e ≡ (ok true, (Check.has_permission u.id p e).1)))
        ⊎ ((¬ (IsEntitled e.store u p))
            × (Check.has_permission u.id p e ≡ (ok false, (Check.has_permission u.id p e).1)))
  asked e p h found =
      let (one, every, some_one, answer, _, _, exact, _, _) =
        permission_queries_lem e u p [] h.1 found in
      elim (Bool-cases one) [
        | inl granted ↦ inl (
          exact.0 granted,
          ap (λ t. (t, (Check.has_permission u.id p e).1)) (answer ∙ ap ok granted),
        )
        | inr denied ↦ inr (
          (λ entitled. cc (exact.1 entitled, denied)),
          ap (λ t. (t, (Check.has_permission u.id p e).1)) (answer ∙ ap ok denied),
        )
      ]

  one_more :
      (s : MemoryStore) (e e1 e' : Enforcer) (p : Permission) (ps : List Permission)
      → (¬ (IsEntitled s u p))
      → Check.has_permission u.id p e ≡ (ok false, e1)
      → Found s e1 ps e'
      → Found s e (p ∷ ps) e'
  unfolding find_any
  one_more s e e1 e' p ps refused k (inl (entitled, done)) = inl (inr entitled, rw k done)
  one_more s e e1 e' p ps refused k (inr (others, done)) =
      inr (
        (λ any_of. elim any_of [ inl first ↦ refused first | inr later ↦ others later ]),
        rw k done,
      )

  find_any_lem :
      (e : Enforcer) (ps : List Permission)
      → IsReady e
      → get e.store.users u.id ≡ some u
      → (e' : Enforcer) × (e'.store ≡ e.store) × IsReady e' × Found e.store e ps e'
  unfolding find_any
  find_any_lem e [] h found = (e, refl, h, inr ((λ h. h), refl))
  find_any_lem e (p ∷ ps) h found =
      let (kept, ready) = has_permission_keeps e u.id p h in
      let e1 = (Check.has_permission u.id p e).1 in
      let (e', same, ready', rest) =
        find_any_lem e1 ps ready (ap (λ (s : MemoryStore). get s.users u.id) kept ∙ found) in
      elim (asked e p h found) [
        | inl (entitled, k) ↦ (e1, kept, ready, inl (inl entitled, rw k refl))
        | inr (refused, k) ↦ (
          e',
          same ∙ kept,
          ready',
          one_more e.store e e1 e' p ps refused k (subst (λ s. Found s e1 ps e') kept rest),
        )
      ]

  -- For an unresolved request of a stored user, if the indexes are consistent, the hierarchy is acyclic
  -- and the cached sets are exact: `RequireAny` calls the handler, with the user in the context, if the
  -- user is entitled to one of the permissions, and fails with 403 otherwise. The store stays as it was,
  -- and the enforcer as sound and exact as before.
  pub require_any_lem :
      (e : Enforcer) (ps : List Permission) (next : Handler Enforcer)
      → IsReady e
      → identity r ≡ caller u.id
      → r.context.resolved ≡ false
      → get e.store.users u.id ≡ some u
      → (e' : Enforcer) × (e'.store ≡ e.store)
        × IsReady e'
        × ((IsEntitledToAny e.store u ps
              × (require_any (guarding identity hook) ps next r e
                  ≡ next (with_context r (with_user r.context (some u))) e'))
            ⊎ ((¬ (IsEntitledToAny e.store u ps))
                × (require_any (guarding identity hook) ps next r e
                    ≡ (forbidden (guarding identity hook) r u (named ps), e'))))
  unfolding require_any
  require_any_lem e ps next h known_caller fresh found =
      let (e', same, ready, ended) = find_any_lem e ps h found in
      let known = identify_stored identity hook r u e known_caller fresh found in
      (
        e',
        same,
        ready,
        elim ended [
          | inl (entitled, done) ↦ inl (entitled, rw known (rw done refl))
          | inr (refused, done) ↦ inr (refused, rw known (rw done refl))
        ],
      )

  -- For an unresolved request of a stored user, if the indexes are consistent and the hierarchy is
  -- acyclic: `RequireRole` calls the handler, with the user in the context, if the user has the role
  -- directly, and fails with 403 otherwise.
  require_role_lem :
      (e : Enforcer) (role : Text) (next : Handler Enforcer)
      → IsSound e
      → identity r ≡ caller u.id
      → r.context.resolved ≡ false
      → get e.store.users u.id ≡ some u
      → require_role (guarding identity hook) role next r e ≡ (
          if contains u.roles role
          then next (with_context r (with_user r.context (some u))) (Check.has_role u.id role e).1
          else (
            forbidden (guarding identity hook) r u (role_permission role),
            (Check.has_role u.id role e).1,
          ))
  unfolding require_role
  require_role_lem e role next h known_caller fresh found =
      let known = identify_stored identity hook r u e known_caller fresh found in
      let answer = (role_queries_lem e u role [] h.consistent found).0 in
      rw known (answered (contains u.roles role) answer)
    where
      answered :
          (held : Bool)
          → (Check.has_role u.id role e).0 ≡ ok held
          → serve next r (
              admit
                (guarding identity hook)
                r
                u
                (role_permission role)
                (ask_role (guarding identity hook) r role u e))
            ≡ (if held
                then next
                    (with_context r (with_user r.context (some u)))
                    (Check.has_role u.id role e).1
                else (
                  forbidden (guarding identity hook) r u (role_permission role),
                  (Check.has_role u.id role e).1,
                ))
      answered true k = rw k refl
      answered false k = rw k refl
