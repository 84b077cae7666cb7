-- ===== src/Authz/Indexes.antt =====
-- What the index updates do to a later lookup.
use libauth.Authz.{with_holder, without_holder, with_roles, names_at, remove_all}
use libauth.Authz.Users.{with_holders, drop_holder, without}
use libauth.Authz.Cache.{filled}
use libauth.Dict.Laws.{has_key-add_all, get-put, get-remove, has_key-put, has_key-remove}
use libauth.Dict
use libauth.Dict.{remove, add_all, put, has_key, get, Names, Dict}
use libauth.Prelude.{
  ◌⊎◌, Option-cases, inr, refl, inl, Bool-cases, ◌∷◌, arith, if◌then◌else◌, none, not, some, ◌&&◌,
  ◌||◌, ◌≡◌, [], Bool, List, Option,
}
use libauth.Text.{eq_iff, ◌==◌, contains, Text}
use libauth.Authz.Granted.{names_at-put}
use mathlib.Core.Path.{subst}
use mathlib.Core.Option.{some-injective}

-- `role` has `uid` among its holders.
abbrev pub holds : Dict Names → Text → Text → Bool
holds m role uid = has_key (names_at m role) uid

abbrev names_or_empty : Option Names → Names
names_or_empty none = []
names_or_empty (some names) = names

pub holds-with_holder :
    (m : Dict Names) (uid role r j : Text)
    → holds (with_holder m uid role) r j ≡ (holds m r j || role == r && uid == j)
unfolding with_holder
holds-with_holder m uid role r j =
    rw (names_at-put m role (put (names_at m role) uid tt) r) (elim (Bool-cases (role == r)) [
      | inl here ↦ rw here (
          subst (λ t. has_key (put (names_at m role) uid tt) j ≡ (holds m t j || uid == j))
            ((eq_iff role r).0 here) (ground (arith, has_key-put (names_at m role) uid tt j)))
      | inr other ↦ rw other (ground arith)
    ])

pub holds-without_holder :
    (m : Dict Names) (uid role r j : Text)
    → holds (without_holder m uid role) r j ≡ (holds m r j && not (role == r && uid == j))
unfolding without_holder Dict.get
holds-without_holder m uid role r j = elim (Option-cases (get m role)) [
  | inl none_there ↦ rw (none_there, without_holder) (ground (arith, none_there, eq_iff role r))
  | inr (names, there) ↦
      rw (there, without_holder)
        (rw (names_at-put m role (remove names uid) r) (elim (Bool-cases (role == r)) [
          | inl here ↦ rw here (
              subst (λ t. has_key (remove names uid) j ≡ (holds m t j && not (uid == j)))
                ((eq_iff role r).0 here) (ground (arith, there, has_key-remove names uid j)))
          | inr other ↦ rw other (ground arith)
        ]))
]

pub holds-with_holders :
    (m : Dict Names) (uid : Text) (roles : List Text) (r j : Text)
    → holds (with_holders m uid roles) r j ≡ (holds m r j || contains roles r && uid == j)
unfolding with_holders
holds-with_holders m uid [] r j = ground arith
holds-with_holders m uid (role ∷ roles) r j = ground (
  arith,
  holds-with_holders (with_holder m uid role) uid roles r j,
  holds-with_holder m uid role r j,
)

pub holds-drop_holder :
    (m : Dict Names) (uid r j : Text)
    → holds (drop_holder uid m) r j ≡ (holds m r j && not (uid == j))
unfolding drop_holder Dict.get
holds-drop_holder [] uid r j = ground arith
holds-drop_holder ((role, names) ∷ m) uid r j =
    ground (arith, holds-drop_holder m uid r j, has_key-remove names uid j)

abbrev pub entry : List Text → Option Names
entry [] = none
entry (r ∷ rs) = some (add_all [] (r ∷ rs))

pub get-with_roles :
    (m : Dict Names) (uid : Text) (roles : List Text) (j : Text)
    → get (with_roles m uid roles) j ≡ (if uid == j then entry roles else get m j)
unfolding with_roles
get-with_roles m uid [] j = get-remove m uid j
get-with_roles m uid (r ∷ rs) j = get-put m uid (add_all [] (r ∷ rs)) j

pub get-filled :
    (m : Dict Names) (uid : Text) (roles : List Text) (j : Text)
    → get (filled m uid roles) j ≡ (
        if uid == j
        then (elim (get m uid) [ none ↦ some (add_all [] roles) | some set ↦ some set ])
        else get m j)
unfolding filled
get-filled m uid roles j = ground (arith, get-put m uid (add_all [] roles) j, eq_iff uid j)

pub contains-without :
    (rs : List Text) (role r : Text)
    → contains (without rs role) r ≡ (contains rs r && not (role == r))
unfolding without
contains-without [] role r = refl
contains-without (x ∷ rs) role r =
    ground (arith, contains-without rs role r, eq_iff x role, eq_iff x r, eq_iff role r)

pub get-remove_all {ℓ} :
    {V : Type ℓ} (m : Dict V) (ks : List Text) (j : Text)
    → get (remove_all m ks) j ≡ (if contains ks j then none else get m j)
unfolding remove_all
get-remove_all m [] j = refl
get-remove_all m (k ∷ ks) j = ground (arith, get-remove_all (remove m k) ks j, get-remove m k j)

pub entry_exact :
    (roles : List Text) (set : Names) (r : Text)
    → entry roles ≡ some set
    → has_key set r ≡ contains roles r
unfolding Dict.get
entry_exact [] set r h = cc
entry_exact (x ∷ xs) set r h =
    subst (λ t. has_key t r ≡ contains (x ∷ xs) r) (some-injective _ _ h)
      (has_key-add_all [] (x ∷ xs) r)

pub has_key-add_all-nil :
    (roles : List Text) (r : Text) → has_key (add_all [] roles) r ≡ contains roles r
unfolding Dict.get
has_key-add_all-nil roles r = has_key-add_all [] roles r

-- An entry after a fill is an old one, or the one that was filled in.
pub get-filled_cases :
    (m : Dict Names) (uid : Text) (roles : List Text) (j : Text) (set : Names)
    → get (filled m uid roles) j ≡ some set
    → (get m j ≡ some set) ⊎ ((uid ≡ j) × (add_all [] roles ≡ set))
unfolding filled
get-filled_cases m uid roles j set p =
    ground (arith, get-put m uid (add_all [] roles) j, eq_iff uid j)
