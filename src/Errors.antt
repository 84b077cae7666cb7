-- ===== src/Errors.antt =====
-- The sentinel errors of model/errors.go, store/errors.go, authz/errors.go and errors.go, and the
-- results of functions that may fail.
use libauth.Prelude.{List}
use libauth.Text.{Text}
use libauth.Model.{Permission, User}

-- `PermissionDeniedError`
pub record Denial : Type 0 where
  pub user_id : Text
  pub user : User
  pub required : Permission
  pub roles : List Text

pub data Error : Type 0 where
  user_not_found role_not_found user_exists role_exists empty_name : Error
  invalid_permission cyclic_inheritance inheritance_depth : Error
  permission_denied : Denial → Error

pub data Result {ℓ} (A : Type ℓ) : Type ℓ where
  ok : A → Result A
  err : Error → Result A

infixl 10 ◌>>=◌
abbrev pub ◌>>=◌ {ℓ κ} : {A : Type ℓ} {B : Type κ} → Result A → (A → Result B) → Result B
ok a >>= f = f a
err e >>= f = err e
