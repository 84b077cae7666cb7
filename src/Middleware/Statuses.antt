-- ===== src/Middleware/Statuses.antt =====
-- The statuses that guards answer with (middleware/middleware.go, middleware/require.go).
use libauth.Prelude.{
  refl, Bool-cases, Bool, Option, ◌⊎◌, ◌≡◌, List, ℕ, none, some, [], ◌∷◌, true, false, inl, inr,
}
use libauth.Errors.{Result, ok, err}
use libauth.Middleware.{
  access, is_user_not_found, recall, with_user, after, checked, look_up, looked_up, fail,
  with_context, identify, pass, Identified, GuardError, Handler, Request, Step, Reply, Middleware,
  go_on, replied, caller, anonymous, failure, handled,
}
use libauth.Model.{User, Permission}
use libauth.Text.{Text}
use libauth.Middleware.Require.{
  role_permission, named, require_role, role_answer, admit, any_round, require_any, serve,
  require_all, find_any, pass_all, require,
}

-- The guards of middleware/require.go.
pub data Guard : Type 0 where
  by_permission : Permission → Guard
  by_all by_any : List Permission → Guard
  by_role : Text → Guard

abbrev pub guarded : {E : Type 0} → Middleware E → Guard → Handler E → Handler E
guarded mw (by_permission p) next = require mw p next
guarded mw (by_all ps) next = require_all mw ps next
guarded mw (by_any ps) next = require_any mw ps next
guarded mw (by_role role) next = require_role mw role next

-- A handler that answers with the request that reached it.
abbrev pub answering : {E : Type 0} → Text → Handler E
answering body r s = (handled body r, s)

abbrev pub IsStatus : ℕ → Type 0
IsStatus status = (status ≡ 401) ⊎ ((status ≡ 403) ⊎ (status ≡ 500))

abbrev IsFailure : Reply → Type 0
IsFailure (failure status e) = IsStatus status
IsFailure (handled body r) = ⊥

abbrev Stops : {A : Type 0} → Step A → Type 0
Stops (go_on a) = Unit
Stops (replied a) = IsFailure a

-- The handler saw the request with a user in its context, or a guard answered with its status.
abbrev pub Answers : Request → Text → Reply → Type 0
Answers r body (handled body' r') =
    (body ≡ body') × ((u : User) × (r' ≡ with_context r (with_user r.context (some u))))
Answers r body (failure status e) = IsStatus status

module _ {E : Type 0} (mw : Middleware E) (no_hook : mw.on_error ≡ none) (r : Request) where
  fail-IsFailure : (status : ℕ) (e : GuardError) → IsStatus status → IsFailure (fail mw r status e)
  fail-IsFailure status e h = rw no_hook h

  looked_up-Stops : (found : Result User) → Stops (looked_up mw r found)
  looked_up-Stops (ok u) = tt
  looked_up-Stops (err e) = elim (Bool-cases (is_user_not_found e)) [
    | inl missing ↦ rw missing (fail-IsFailure 401 (access e) (inl refl))
    | inr other ↦ rw other (fail-IsFailure 500 (access e) (inr (inr refl)))
  ]

  look_up-Stops : (who : Identified) (s : E) → Stops (look_up mw r who s).0
  look_up-Stops (caller id) s = looked_up-Stops (mw.manager.get_user id s).0
  look_up-Stops (anonymous e) s = fail-IsFailure 401 e (inl refl)

  recall-Stops : (u : Option User) (resolved : Bool) (s : E) → Stops (recall mw r u resolved s).0
  recall-Stops (some u) true s = tt
  recall-Stops (some u) false s = look_up-Stops (mw.identity r) s
  recall-Stops none resolved s = look_up-Stops (mw.identity r) s

  checked-Stops : (u : User) (answer : Result (Unit {0})) → Stops (checked mw r u answer)
  checked-Stops u (ok d) = tt
  checked-Stops u (err e) = elim (Bool-cases (is_user_not_found e)) [
    | inl missing ↦ rw missing (fail-IsFailure 401 (access e) (inl refl))
    | inr other ↦ rw other (fail-IsFailure 403 (access e) (inr (inl refl)))
  ]

  after-Stops :
      {A : Type 0} (t : Step User × E) (f : User → E → Step A × E)
      → Stops t.0
      → ((u : User) (s : E) → Stops (f u s).0)
      → Stops (after mw t f).0
  after-Stops (go_on u, s) f h k = k u s
  after-Stops (replied a, s) f h k = h

  pass-Stops : (p : Permission) (u : User) (s : E) → Stops (pass mw r u p s).0
  unfolding pass
  pass-Stops p u s = checked-Stops u (mw.manager.check u.id p s).0

  pass_all-Stops : (ps : List Permission) (u : User) (s : E) → Stops (pass_all mw r ps u s).0
  unfolding pass_all
  pass_all-Stops [] u s = tt
  pass_all-Stops (p ∷ ps) u s =
      after-Stops (pass mw r u p s) (λ _ s'. pass_all mw r ps u s') (pass-Stops p u s)
        (λ _ s'. pass_all-Stops ps u s')

  any_round-Stops :
      (answer : Result Bool) (rest : E → Step Bool × E) (s : E)
      → ((t : E) → Stops (rest t).0)
      → Stops (any_round mw r answer rest s).0
  any_round-Stops (ok true) rest s h = tt
  any_round-Stops (ok false) rest s h = h s
  any_round-Stops (err e) rest s h = fail-IsFailure 500 (access e) (inr (inr refl))

  find_any-Stops : (ps : List Permission) (u : User) (s : E) → Stops (find_any mw r ps u s).0
  unfolding find_any
  find_any-Stops [] u s = tt
  find_any-Stops (p ∷ ps) u s =
      any_round-Stops (mw.manager.has_permission u.id p s).0 (λ t. find_any mw r ps u t) _
        (λ t. find_any-Stops ps u t)

  admit-Stops :
      (u : User) (required : Permission) (t : Step Bool × E)
      → Stops t.0
      → Stops (admit mw r u required t).0
  admit-Stops u required (go_on true, s) h = tt
  admit-Stops u required (go_on false, s) h = fail-IsFailure 403 _ (inr (inl refl))
  admit-Stops u required (replied a, s) h = h

  role_answer-Stops : (answer : Result Bool) → Stops (role_answer mw r answer)
  role_answer-Stops (ok granted) = tt
  role_answer-Stops (err e) = fail-IsFailure 500 (access e) (inr (inr refl))

  failed-Answers : (body : Text) (a : Reply) → IsFailure a → Answers r body a
  failed-Answers body (failure status e) h = h
  failed-Answers body (handled body' r') h = elim h [ ]

  served-Answers :
      (body : Text) (t : Step User × E) → Stops t.0 → Answers r body (serve (answering body) r t).0
  served-Answers body (go_on u, s) h = (refl, (u, refl))
  served-Answers body (replied a, s) h = failed-Answers body a h

  identified-Answers :
      (body : Text) (s : E) (f : User → E → Step User × E)
      → ((u : User) (t : E) → Stops (f u t).0)
      → Answers r body (serve (answering body) r (after mw (identify mw r s) f)).0
  unfolding identify
  identified-Answers body s f h =
      served-Answers body (after mw (identify mw r s) f)
        (after-Stops (identify mw r s) f (recall-Stops r.context.user r.context.resolved s) h)

  -- Without an error hook, and over any authorizer, each of the four guards around a handler that
  -- answers with its request gives that answer, with a user in the context of the request, or an error
  -- response with the status 401, 403 or 500.
  pub guarded-Answers :
      (g : Guard) (body : Text) (s : E) → Answers r body (guarded mw g (answering body) r s).0
  unfolding require require_all require_any require_role
  guarded-Answers (by_permission p) body s = identified-Answers body s _ (pass-Stops p)
  guarded-Answers (by_all ps) body s = identified-Answers body s _ (pass_all-Stops ps)
  guarded-Answers (by_any ps) body s =
      identified-Answers body s _ λ u t. admit-Stops u (named ps) _ (find_any-Stops ps u t)
  guarded-Answers (by_role role) body s = identified-Answers body s _ λ u t.
      admit-Stops u (role_permission role) _ (role_answer-Stops (mw.manager.has_role u.id role t).0)
