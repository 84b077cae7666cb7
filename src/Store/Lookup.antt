-- ===== src/Store/Lookup.antt =====
-- Lookups in the in-memory store (store/memory_users.go, store/memory_roles.go): their outcomes.
use libauth.Prelude.{
  ◌↔◌, if◌then◌else◌, some, false, true, Bool, ◌≡◌, ◌⊎◌, Option-cases, inl, inr, arith,
}
use libauth.Store.{Text, MemoryStore, get_role, get_user}
use libauth.Text.{◌==◌, contains}
use libauth.Dict.{remove, put, get, keys}
use libauth.Model.{Role, User}
use libauth.Errors.{role_not_found, Result, ok, err, user_not_found}
use libauth.Dict.Laws.{get-remove, get-put, contains-keys}

pub get_role_cases :
    (s : MemoryStore) (n : Text)
    → ((r : Role) × (get_role s n ≡ ok r)) ⊎ (get_role s n ≡ err role_not_found)
unfolding get_role
get_role_cases s n = elim (Option-cases (get s.roles n)) [
  | inl e ↦ inr (ground arith)
  | inr (r, e) ↦ inl (r, ground arith)
]

pub stored-key :
    (s : MemoryStore) (q : Text) (r : Role) → get_role s q ≡ ok r → contains (keys s.roles) q ≡ true
unfolding get_role
stored-key s q r found = ground (arith, contains-keys s.roles q)

pub get_user_cases :
    (s : MemoryStore) (id : Text)
    → ((u : User) × (get_user s id ≡ ok u)) ⊎ (get_user s id ≡ err user_not_found)
unfolding get_user
get_user_cases s id = elim (Option-cases (get s.users id)) [
  | inl e ↦ inr (ground arith)
  | inr (u, e) ↦ inl (u, ground arith)
]

abbrev pub is_ok {ℓ} : {A : Type ℓ} → Result A → Bool
is_ok (ok a) = true
is_ok (err e) = false

pub get_role-roles :
    (s s' : MemoryStore) → s'.roles ≡ s.roles → (n : Text) → get_role s' n ≡ get_role s n
unfolding get_role
get_role-roles s s' same n = ground (arith, same)

pub get_role-put :
    (s : MemoryStore) (r : Role) (n : Text)
    → get_role (record s { roles = put s.roles r.name r }) n
      ≡ (if r.name == n then ok r else get_role s n)
unfolding get_role
get_role-put s r n = ground (arith, get-put s.roles r.name r n)

pub get_role-remove :
    (s : MemoryStore) (name n : Text)
    → get_role (record s { roles = remove s.roles name }) n
      ≡ (if name == n then err role_not_found else get_role s n)
unfolding get_role
get_role-remove s name n = ground (arith, get-remove s.roles name n)

pub get_role-get :
    (s : MemoryStore) (n : Text) (r : Role) → (get s.roles n ≡ some r) ↔ (get_role s n ≡ ok r)
unfolding get_role
get_role-get s n r = ground arith
