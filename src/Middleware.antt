-- ===== src/Middleware.antt =====
-- middleware/middleware.go, middleware/identity.go and middleware/context.go: what the guards share,
-- and NewMiddleware of middleware.go. A handler takes a request and the state of the authorizer, and
-- gives a reply and the next state. The text of an error is left out.
pub mod Require
pub mod Nesting
pub mod Statuses
pub mod Enforced
use libauth.Prelude.{if◌then◌else◌, ℕ, Bool, Option, true, false, none, some, [], ◌∷◌}
use libauth.Errors.{user_not_found, Result, Error, ok, err}
use libauth.Text.{◌==◌, codes, Text}
use libauth.Model.{Permission, User}

-- The two values that the context may carry: the user, and that it was resolved.
pub record Context : Type 0 where
  pub user : Option User
  pub resolved : Bool

pub record Request : Type 0 where
  pub header : Text → Text
  pub context : Context

-- `r.WithContext(WithUser(r.Context(), u))`, and `UserFromContext`.
abbrev pub with_user : Context → Option User → Context
with_user ctx u = record ctx { user = u; resolved = true }

abbrev pub with_context : Request → Context → Request
with_context r ctx = record r { context = ctx }

abbrev pub user_from_context : Context → Option User
user_from_context ctx = ctx.user

abbrev pub already_resolved : Context → Bool
already_resolved ctx = ctx.resolved

-- What a guard fails with: an error of the authorizer, or an identity that is missing.
pub data GuardError : Type 0 where
  access : Error → GuardError
  unidentified : Text → GuardError

pub data Identified : Type 0 where
  caller : Text → Identified
  anonymous : GuardError → Identified

abbrev pub IdentityFunc : Type 0
IdentityFunc = Request → Identified

abbrev pub default_header : Text
default_header = codes "X-User-ID"

abbrev pub read_header : Text → IdentityFunc
read_header name r =
    if r.header name == [] then anonymous (unidentified name) else caller (r.header name)

-- `HeaderIdentity`
abbrev pub header_identity : Text → IdentityFunc
header_identity header = read_header (if header == [] then default_header else header)

-- What the guards need of an authorizer with a state of type `E`.
pub record Authorizer (E : Type 0) : Type 0 where
  pub check : Text → Permission → E → Result (Unit {0}) × E
  pub has_permission : Text → Permission → E → Result Bool × E
  pub has_role : Text → Text → E → Result Bool × E
  pub get_user : Text → E → Result User × E

-- What comes back: an error response of a guard, with its status, or what a handler answered.
pub data Reply : Type 0 where
  failure : ℕ → GuardError → Reply
  handled : Text → Request → Reply

pub record Middleware (E : Type 0) : Type 0 where
  pub manager : Authorizer E
  pub identity : IdentityFunc
  pub on_error : Option (Request → ℕ → GuardError → Reply)

abbrev pub Handler : Type 0 → Type 0
Handler E = Request → E → Reply × E

pub data Created (E : Type 0) : Type 0 where
  created : Middleware E → Created E
  invalid_identity_func : Created E

-- `NewMiddleware`: a nil authorizer is refused, and a nil identity reads the default header.
abbrev pub new_middleware : {E : Type 0} → Option (Authorizer E) → Option IdentityFunc → Created E
new_middleware none identity = invalid_identity_func
new_middleware (some m) none =
    created (record { manager = m; identity = header_identity []; on_error = none })
new_middleware (some m) (some identity) =
    created (record { manager = m; identity = identity; on_error = none })

-- A step of a guard: it goes on with a value, or it has replied.
pub data Step (A : Type 0) : Type 0 where
  go_on : A → Step A
  replied : Reply → Step A

abbrev pub status_unauthorized : ℕ
status_unauthorized = 401

abbrev pub status_forbidden : ℕ
status_forbidden = 403

abbrev pub status_internal : ℕ
status_internal = 500

-- `errors.Is(err, store.ErrUserNotFound)`
abbrev pub is_user_not_found : Error → Bool
is_user_not_found user_not_found = true
is_user_not_found e = false

module _ {E : Type 0} (mw : Middleware E) where
  -- `fail`: the hook handles the error where one is set.
  abbrev pub fail : Request → ℕ → GuardError → Reply
  fail r status e = elim mw.on_error [ none ↦ failure status e | some hook ↦ hook r status e ]

  abbrev pub looked_up : Request → Result User → Step User
  looked_up r (ok u) = go_on u
  looked_up r (err e) =
      replied
        (fail r (if is_user_not_found e then status_unauthorized else status_internal) (access e))

  abbrev pub look_up : Request → Identified → E → Step User × E
  look_up r (anonymous e) s = (replied (fail r status_unauthorized e), s)
  look_up r (caller id) s = let (found, s') = mw.manager.get_user id s in (looked_up r found, s')

  abbrev pub recall : Request → Option User → Bool → E → Step User × E
  recall r (some u) true s = (go_on u, s)
  recall r (some u) false s = look_up r (mw.identity r) s
  recall r none resolved s = look_up r (mw.identity r) s

  -- `identify`: the user of the context if it was resolved, or the one that the identity names.
  unfoldable pub identify : Request → E → Step User × E
  identify r s = recall r (user_from_context r.context) (already_resolved r.context) s

  abbrev pub checked : Request → User → Result (Unit {0}) → Step User
  checked r u (ok done) = go_on u
  checked r u (err e) =
      replied
        (fail r (if is_user_not_found e then status_unauthorized else status_forbidden) (access e))

  -- `pass`
  unfoldable pub pass : Request → User → Permission → E → Step User × E
  pass r u perm s = let (answer, s') = mw.manager.check u.id perm s in (checked r u answer, s')

  abbrev pub after : {A : Type 0} → Step User × E → (User → E → Step A × E) → Step A × E
  after (go_on u, s) f = f u s
  after (replied a, s) f = (replied a, s)

  -- `authorize`
  abbrev pub authorize : Request → Permission → E → Step User × E
  authorize r perm s = after (identify r s) (λ u s'. pass r u perm s')
