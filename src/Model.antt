-- ===== src/Model.antt =====
-- model/user.go, model/role.go and model/permission.go: users, roles and permissions.
pub mod Parsing
pub mod Matching
use libauth.Prelude.{
  ℕ, suc, ◌-◌, Bool, true, false, ◌&&◌, ◌||◌, Option, none, some, List, [], ◌∷◌, ◌++◌, nat_eq,
  length, take, drop, any, if◌then◌else◌,
}
use libauth.Text.{Text, codes, ◌==◌, index_byte}

pub record Permission : Type 0 where
  pub resource : Text
  pub action : Text

pub record User : Type 0 where
  pub id : Text
  pub roles : List Text
  pub direct : List Permission

pub record Role : Type 0 where
  pub name : Text
  pub permissions : List Permission
  pub parent : Text

-- The wildcard "*".
abbrev pub star : Text
star = codes "*"

abbrev pub colon : ℕ
colon = b':'

-- Go's `==` on two permissions.
abbrev pub perm_eq : Permission → Permission → Bool
perm_eq p q = p.resource == q.resource && p.action == q.action

pub data ParseError : Type 0 where
  empty_permission missing_action empty_resource empty_action : ParseError

pub data Parsed : Type 0 where
  parsed : Permission → Parsed
  refused : ParseError → Parsed

-- The `switch` of `ParsePermission` on the index of the colon.
unfoldable pub split_at : Text → Option ℕ → Parsed
split_at s none = refused missing_action
split_at s (some i) =
    if nat_eq i 0
    then refused empty_resource
    else if nat_eq i (length s - 1)
    then refused empty_action
    else parsed (record { resource = take i s; action = drop (suc i) s })

unfoldable pub parse_permission : Text → Parsed
unfolding split_at
parse_permission s =
    if s == []
    then refused empty_permission
    else if s == star
    then parsed (record { resource = star; action = [] })
    else split_at s (index_byte s colon)

unfoldable pub to_string : Permission → Text
to_string p = p.resource ++ colon ∷ p.action

-- `p.Matches(required)`: a granted pattern covers a required permission.
unfoldable pub matches : Permission → Permission → Bool
matches p required =
    if perm_eq p required
    then true
    else if p.resource == star
    then true
    else if p.resource == required.resource
    then p.action == star || p.action == required.action
    else false

unfoldable pub matches_any : Permission → List Permission → Bool
matches_any p required = any (matches p) required

unfoldable pub valid : Permission → Bool
valid p =
    if p.resource == []
    then false
    else p.resource == star || (if p.action == [] then false else true)

-- `(*Role).HasPermission`
unfoldable pub has_permission : Role → Permission → Bool
has_permission r p = any (λ g. matches g p) r.permissions

-- `MarshalText` and `UnmarshalText`: the receiver is written only on success.
unfoldable pub marshal_text : Permission → Text
unfolding to_string
marshal_text p = to_string p

unfoldable pub unmarshal_text : Permission → Text → Permission × Option ParseError
unfolding parse_permission
unmarshal_text p text = elim (parse_permission text) [
  | parsed q ↦ (q, none)
  | refused e ↦ (p, some e)
]
