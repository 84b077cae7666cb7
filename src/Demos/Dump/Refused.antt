-- ===== src/Demos/Dump/Refused.antt =====
-- The bare wildcard in the file (_examples/customstore/main.go, model/permission.go).
use libauth.Prelude.{
  Option-cases, Bool, Option, none, some, List, [], ◌∷◌, map, ◌≡◌, refl, true, any, arith,
  Bool-cases, inl, inr,
}
use libauth.Model.{
  to_string, split_at, parse_permission, unmarshal_text, Permission, marshal_text, star, perm_eq,
  User, Role,
}
use libauth.Jwt.Json.{read_string, Json, string_items, string}
use libauth.Text.{index_byte, ◌==◌, eq→path}
use libauth.Demos.Dump.{
  user_json, read_user, read_role, fold_name, read_dump_member, read_role_member, dump_json,
  read_struct, permissions_json, read_dump, role_json, read_list, items_json, read_items,
  read_permission, bind_read,
}

abbrev pub wildcard : Permission
wildcard = record { resource = star; action = [] }

-- The role grants the bare wildcard.
abbrev pub grants_all : Role → Bool
grants_all r = any (λ p. perm_eq p wildcard) r.permissions

perm_eq→path : (p q : Permission) → perm_eq p q ≡ true → p ≡ q
perm_eq→path p q h = ground (arith, h, eq→path p.resource q.resource, eq→path p.action q.action)

bind_none : {A B : Type 0} (o : Option A) → bind_read {B = B} o (λ a. none) ≡ none
bind_none none = refl
bind_none (some a) = refl

read_wildcard : read_permission (string (marshal_text wildcard)) ≡ none
unfolding read_permission marshal_text unmarshal_text parse_permission split_at to_string ◌==◌
    index_byte
read_wildcard = refl

read_items-fails :
    {A B : Type 0} (test : A → Bool) (print : A → Json) (read : Json → Option B)
    → ((a : A) → test a ≡ true → read (print a) ≡ none)
    → (xs : List A) → any test xs ≡ true
    → read_items read (items_json print xs) ≡ none
unfolding read_items items_json
read_items-fails test print read step [] h = cc
read_items-fails test print read step (x ∷ xs) h = elim (Bool-cases (test x)) [
  | inl bad ↦ rw (step x bad) refl
  | inr fine ↦
      rw (read_items-fails test print read step xs (ground (arith, fine, h)))
        (bind_none (read (print x)))
]

string_items_lem :
    (ps : List Permission)
    → string_items (map marshal_text ps) ≡ items_json (λ p. string (marshal_text p)) ps
unfolding string_items items_json
string_items_lem [] = refl
string_items_lem (p ∷ ps) = rw (string_items_lem ps) refl

read-permissions_fails :
    (ps : List Permission)
    → any (λ p. perm_eq p wildcard) ps ≡ true
    → read_list read_permission (permissions_json ps) ≡ none
read-permissions_fails [] h = cc
read-permissions_fails (p ∷ ps) h = rw (string_items_lem (p ∷ ps)) (
    read_items-fails (λ q. perm_eq q wildcard) (λ q. string (marshal_text q)) read_permission
      (λ q e. rw (perm_eq→path q wildcard e) read_wildcard) (p ∷ ps) h)

read_role-fails : (r : Role) → grants_all r ≡ true → read_role (role_json r) ≡ none
unfolding role_json read_struct read_role_member fold_name ◌==◌ read_string
read_role-fails r h = rw (read-permissions_fails r.permissions h) refl

-- Where a role grants the bare wildcard, what is printed is not read back.
pub read_dump-fails :
    (users : List User) (roles : List Role)
    → any grants_all roles ≡ true
    → read_dump (dump_json users roles) ≡ none
unfolding read_dump dump_json read_struct read_dump_member fold_name ◌==◌
read_dump-fails users roles h =
    elim (Option-cases (read_items read_user (items_json user_json users))) [
      | inl bad ↦ rw bad refl
      | inr (us, fine) ↦
          rw (fine, read_items-fails grants_all role_json read_role read_role-fails roles h) refl
    ]
