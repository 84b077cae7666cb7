-- ===== src/Middleware/Nesting.antt =====
-- Guards around guards (middleware/require.go, middleware/context.go).
use libauth.Prelude.{refl, ◌≡◌, List, none, some, [], ◌∷◌}
use libauth.Middleware.{
  after, checked, Step, with_user, Handler, identify, pass, with_context, Request, Middleware,
  go_on, replied,
}
use libauth.Model.{Permission, User}
use libauth.Middleware.Require.{require_all, serve, pass_all, require}
use libauth.Errors.{err, ok, Result}

-- `mw.Require(p)(mw.Require(q)(… next))`
abbrev pub nest : {E : Type 0} → Middleware E → List Permission → Handler E → Handler E
nest mw [] next = next
nest mw (p ∷ ps) next = require mw p (nest mw ps next)

abbrev resolved_for : Request → User → Request
resolved_for r u = with_context r (with_user r.context (some u))

module _ {E : Type 0} (mw : Middleware E) (no_hook : mw.on_error ≡ none) where
  -- After one check, the guards within see the user in the context.
  resume :
      (ps : List Permission) (next : Handler E) (r : Request) (u : User)
      → ((s : E) → nest mw ps next (resolved_for r u) s ≡ serve next r (pass_all mw r ps u s))
      → (answer : Result (Unit {0})) (s : E)
      → serve (nest mw ps next) (resolved_for r u) (checked mw (resolved_for r u) u answer, s)
        ≡ serve next r (after mw (checked mw r u answer, s) (λ _ s'. pass_all mw r ps u s'))
  resume ps next r u ih (ok d) s = ih s
  resume ps next r u ih (err e) s = rw no_hook refl

  nest-resolved :
      (ps : List Permission) (next : Handler E) (r : Request) (u : User) (s : E)
      → nest mw ps next (resolved_for r u) s ≡ serve next r (pass_all mw r ps u s)
  unfolding require pass_all identify pass
  nest-resolved [] next r u s = refl
  nest-resolved (p ∷ ps) next r u s =
      let (answer, s') = mw.manager.check u.id p s in
      resume ps next r u (nest-resolved ps next r u) answer s'

  -- The first check, on the request as it came.
  first :
      (ps : List Permission) (next : Handler E) (r : Request) (u : User)
      → (answer : Result (Unit {0})) (s : E)
      → serve (nest mw ps next) r (checked mw r u answer, s)
        ≡ serve next r (after mw (checked mw r u answer, s) (λ _ s'. pass_all mw r ps u s'))
  first ps next r u (ok d) s = nest-resolved ps next r u s
  first ps next r u (err e) s = refl

  started :
      (p : Permission) (ps : List Permission) (next : Handler E) (r : Request)
      → (step : Step User) (s : E)
      → serve (nest mw ps next) r (after mw (step, s) (λ u s'. pass mw r u p s'))
        ≡ serve next r (after mw (step, s) (pass_all mw r (p ∷ ps)))
  unfolding pass_all pass
  started p ps next r (go_on u) s =
      let (answer, s') = mw.manager.check u.id p s in first ps next r u answer s'
  started p ps next r (replied a) s = refl

  -- Without an error hook, and over any authorizer, guards for single permissions, one around the next,
  -- give the same reply and leave the authorizer in the same state as one `RequireAll` with the list of
  -- their permissions, which is not empty.
  pub nest-require_all :
      (p : Permission) (ps : List Permission) (next : Handler E) (r : Request) (s : E)
      → nest mw (p ∷ ps) next r s ≡ require_all mw (p ∷ ps) next r s
  unfolding require require_all
  nest-require_all p ps next r s = let (step, s') = identify mw r s in started p ps next r step s'
