-- ===== src/Facade.antt =====
-- middleware.go of the root: `NewMiddleware` over the enforcer. The other names of the root are those
-- of the packages.
use libauth.Prelude.{Option, none, some}
use libauth.Authz.{Enforcer}
use libauth.Middleware.{Authorizer, Created, IdentityFunc, invalid_identity_func}
use libauth.Middleware

-- A nil enforcer is refused here: as an interface value it would not be nil.
abbrev pub new_middleware : Option (Authorizer Enforcer) → Option IdentityFunc → Created Enforcer
new_middleware none identity = invalid_identity_func
new_middleware (some m) identity = Middleware.new_middleware (some m) identity
