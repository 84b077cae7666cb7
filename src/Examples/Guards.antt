-- ===== src/Examples/Guards.antt =====
-- Instances of the theorems on the guards (middleware/middleware_test.go).
use libauth.Prelude.{List, ◌⊎◌, refl, ◌≡◌, false, none, some, [], ◌∷◌, inl}
use libauth.Middleware.{
  with_user, default_header, with_context, fail, unidentified, anonymous, caller, header_identity,
  Handler, IdentityFunc, Request,
}
use libauth.Model.{Permission}
use libauth.Text.{Text, codes, ◌==◌}
use libauth.Middleware.Enforced.{require_all_lem, denied_reply, guarding, IsReady}
use libauth.Examples.{perm, runs}
use libauth.Middleware.Nesting.{nest-require_all, nest}
use libauth.Middleware.Statuses.{guarded-Answers, by_role, by_any, answering, guarded, Answers}
use libauth.Middleware.Require.{named, forbidden, require_any, require_all}
use libauth.Authz.{Enforcer}
use libauth.Examples.Answers.{ready-IsCoherent, bob_user, ready-IsSound, ready, bob}
use libauth.Dict.{get}
use libauth.Authz.Coherent.Queries.{IsEntitledToAll, IsEntitledToAny}
use libauth.Middleware.Enforced.Unknown.{guarded_unknown}
use libauth.Middleware.Enforced.Choices.{require_any_lem}
use libauth.Authz.Resolve.{resolve_roles}
use libauth.Errors.{ok}
use libauth.Authz.Fresh.{IsEntitled}

-- A request that names bob in the default header, and one without the header.
abbrev of_bob : Request
of_bob = record { header = λ name. bob; context = record { user = none; resolved = false } }

abbrev of_nobody : Request
of_nobody = record { header = λ name. []; context = record { user = none; resolved = false } }

abbrev identity : IdentityFunc
identity = header_identity []

abbrev edit : Permission
edit = perm "article" "edit"

abbrev publish : Permission
publish = perm "article" "publish"

abbrev page : Handler Enforcer
page = answering (codes "page")

pub identity_of_bob : identity of_bob ≡ caller bob
unfolding ◌==◌
identity_of_bob = refl

identity_of_nobody : identity of_nobody ≡ anonymous (unidentified default_header)
unfolding ◌==◌
identity_of_nobody = refl

pub ready-IsReady : IsReady ready
ready-IsReady = (ready-IsSound, ready-IsCoherent)

pub bob_stored : get ready.store.users bob ≡ some bob_user
unfolding runs
bob_stored = refl

nest-require_all_example :
    nest (guarding identity none) (edit ∷ publish ∷ []) page of_bob ready
    ≡ require_all (guarding identity none) (edit ∷ publish ∷ []) page of_bob ready
nest-require_all_example =
    nest-require_all (guarding identity none) refl edit (publish ∷ []) page of_bob ready

guarded-Answers_example :
    Answers of_bob
      (codes "page")
      (guarded
        (guarding identity none)
        (by_any (edit ∷ []))
        (answering (codes "page"))
        of_bob
        ready).0
guarded-Answers_example =
    guarded-Answers (guarding identity none) refl of_bob (by_any (edit ∷ [])) (codes "page") ready

guarded_unknown_example :
    guarded (guarding identity none) (by_role (codes "publisher")) page of_nobody ready
    ≡ (fail (guarding identity none) of_nobody 401 (unidentified default_header), ready)
guarded_unknown_example =
    guarded_unknown identity none of_nobody ready (inl refl) (by_role (codes "publisher")) page
      (unidentified default_header) (inl identity_of_nobody)

require_any_lem_example :
    (e' : Enforcer) × (e'.store ≡ ready.store)
    × IsReady e'
    × ((IsEntitledToAny ready.store bob_user (edit ∷ publish ∷ [])
          × (require_any (guarding identity none) (edit ∷ publish ∷ []) page of_bob ready
              ≡ page (with_context of_bob (with_user of_bob.context (some bob_user))) e'))
        ⊎ ((¬ (IsEntitledToAny ready.store bob_user (edit ∷ publish ∷ [])))
            × (require_any (guarding identity none) (edit ∷ publish ∷ []) page of_bob ready ≡ (
              forbidden (guarding identity none) of_bob bob_user (named (edit ∷ publish ∷ [])),
              e',
            ))))
require_any_lem_example =
    require_any_lem identity none of_bob bob_user ready (edit ∷ publish ∷ []) page ready-IsReady
      identity_of_bob refl bob_stored

require_all_lem_example :
    (e' : Enforcer) × (e'.store ≡ ready.store)
    × IsReady e'
    × ((IsEntitledToAll ready.store bob_user (edit ∷ publish ∷ [])
          × (require_all (guarding identity none) (edit ∷ publish ∷ []) page of_bob ready
              ≡ page (with_context of_bob (with_user of_bob.context (some bob_user))) e'))
        ⊎ ((¬ (IsEntitledToAll ready.store bob_user (edit ∷ publish ∷ [])))
            × ((p : Permission) × (roles : List Text) × (resolve_roles ready.store bob_user
                  ≡ ok roles)
                × (¬ (IsEntitled ready.store bob_user p))
                × (require_all (guarding identity none) (edit ∷ publish ∷ []) page of_bob ready
                    ≡ (denied_reply (guarding identity none) of_bob bob_user p roles, e')))))
require_all_lem_example =
    require_all_lem identity none of_bob bob_user ready (edit ∷ publish ∷ []) page ready-IsReady
      identity_of_bob refl bob_stored
