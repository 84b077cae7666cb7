-- ===== src/Examples/Answers.antt =====
-- Instances of the theorems on the answers of the enforcer.
use libauth.Authz.Check
use libauth.Prelude.Int.{pos}
use libauth.Examples.{can, perm, runs}
use libauth.Text.{contains, codes, Text}
use libauth.Prelude.{all, Bool, ◌⊎◌, any, false, true, refl, ◌↔◌, ◌≡◌, [], ◌∷◌, List}
use libauth.Model.{Permission, Role, User}
use libauth.Authz.History.{
  perform_all-IsCoherent, delete_role_op, check_op, create_user_op, perform_all, create_role_op, Op,
  CarefulThroughout,
}
use libauth.Authz.Check.{
  has_any_role, has_all_roles, has_any_permission, has_all_permissions, has_role, check,
}
use libauth.Authz.History.Facts.{
  fresh-IsCoherent, fresh-IsSound, history-ne-cycle, history-IsSound, history-check, fresh,
}
use libauth.Errors.{permission_denied, err, ok}
use libauth.Authz.Fresh.{fresh_lem, IsEntitled}
use libauth.Authz.{no_grants, add_permissions, has, GrantedSet, Enforcer}
use libauth.Authz.Invariant.Sound.{IsSound}
use libauth.Authz.Coherent.{IsCoherent}
use libauth.Authz.Resolve.Spec.{Holds, Inherits}
use libauth.Authz.Resolve.{resolve_roles}
use libauth.Prelude.Sorting.{IsSorted}
use libauth.Authz.Cache.{add_roles}
use libauth.Authz.Roles.{revoke_permission}
use libauth.Text.Order.{text_lt}
use libauth.Authz.Invariant.Queries.{role_queries_lem, role_queries_lem}
use libauth.Authz.Resolve.Queue.{Distinct}
use libauth.Authz.Resolve.Loop.{resolve_roles_lem}
use libauth.Authz.Coherent.Roles.{stale_after_revoke}
use libauth.Authz.Coherent.Answers.{check_lem, denial}
use libauth.Authz.Coherent.Queries.{permission_queries_lem, IsEntitledToAny, IsEntitledToAll}

abbrev pub bob : Text
bob = codes "bob"

abbrev pub ops : List Op
ops =
    create_role_op (codes "editor") (perm "article" "edit" ∷ []) []
    ∷ create_role_op (codes "publisher") (perm "article" "publish" ∷ []) (codes "editor")
    ∷ create_user_op bob (codes "publisher" ∷ [])
    ∷ check_op bob (perm "article" "edit")
    ∷ []

abbrev pub bob_user : User
bob_user = record { id = bob; roles = codes "publisher" ∷ []; direct = [] }

-- Roles are created before there is any user.
pub ops-CarefulThroughout : CarefulThroughout ops (fresh (pos 4))
unfolding runs
ops-CarefulThroughout = ((λ j u p _. cc), ((λ j u p _. cc), (tt, (tt, tt))))

-- Before, a role cannot be its own parent, and is deleted while another inherits it.
abbrev more_ops : List Op
more_ops =
    create_role_op (codes "guest") [] (codes "guest")
    ∷ create_role_op (codes "guest") [] []
    ∷ create_role_op (codes "trainee") [] (codes "guest")
    ∷ delete_role_op (codes "guest")
    ∷ ops

more_ops-CarefulThroughout : CarefulThroughout more_ops (fresh (pos 4))
unfolding runs
more_ops-CarefulThroughout = (
  (λ j u p _. cc),
  (
    (λ j u p _. cc),
    (
      (λ j u p _. cc),
      (
        (((λ child. cc child), ((λ _ j u p _. cc), tt)), refl),
        ((λ j u p _. cc), ((λ j u p _. cc), (tt, (tt, tt)))),
      ),
    ),
  ),
)

history-check_example :
    ((check bob (perm "article" "edit") (perform_all more_ops (fresh (pos 4)))).0 ≡ ok tt)
    ↔ IsEntitled (perform_all more_ops (fresh (pos 4))).store bob_user (perm "article" "edit")
unfolding runs
history-check_example =
    history-check (pos 4) more_ops bob_user (perm "article" "edit") more_ops-CarefulThroughout refl

-- The publisher bob has been checked once.
abbrev pub ready : Enforcer
ready = perform_all ops (fresh (pos 4))

pub ready-IsSound : IsSound ready
ready-IsSound = history-IsSound (pos 4) ops

pub ready-IsCoherent : IsCoherent ready
ready-IsCoherent =
    perform_all-IsCoherent (fresh (pos 4)) (fresh-IsSound (pos 4)) (fresh-IsCoherent (pos 4)) ops
      ops-CarefulThroughout

history-IsSound_example : IsSound (perform_all ops (fresh (pos 4)))
history-IsSound_example = history-IsSound (pos 4) ops

abbrev publisher : Role
publisher = record {
  name = codes "publisher";
  permissions = perm "article" "publish" ∷ [];
  parent = codes "editor";
}

history-ne-cycle_example :
    ¬ (Inherits (perform_all ops (fresh (pos 4))).store (codes "editor") (codes "publisher"))
unfolding runs
history-ne-cycle_example = history-ne-cycle (pos 4) ops publisher refl refl

check_lem_example :
    (((check bob (perm "article" "edit") ready).0 ≡ ok tt)
      × IsEntitled ready.store bob_user (perm "article" "edit"))
    ⊎ ((roles : List Text) × (resolve_roles ready.store bob_user ≡ ok roles)
        × ((check bob (perm "article" "edit") ready).0
            ≡ err (permission_denied (denial bob_user (perm "article" "edit") roles)))
        × (¬ (IsEntitled ready.store bob_user (perm "article" "edit"))))
unfolding runs
check_lem_example = check_lem ready bob_user (perm "article" "edit") ready-IsCoherent refl

resolve_roles_lem_example :
    (l : List Text) × (resolve_roles ready.store bob_user ≡ ok l)
    × IsSorted text_lt l
    × Distinct l
    × ((x : Text) → (contains l x ≡ true) ↔ Holds ready.store bob_user.roles x)
resolve_roles_lem_example = resolve_roles_lem ready.store bob_user

fresh_lem_example :
    (roles : List Text) × (g : GrantedSet) × (resolve_roles ready.store bob_user ≡ ok roles)
    × (add_roles ready.store roles no_grants ≡ ok g)
    × ((q : Permission)
        → (has (add_permissions g bob_user.direct) q ≡ true) ↔ IsEntitled ready.store bob_user q)
fresh_lem_example = fresh_lem ready.store bob_user

role_queries_lem_example :
    ((has_role bob (codes "editor") ready).0 ≡ ok (contains bob_user.roles (codes "editor")))
    × ((has_all_roles bob (codes "editor" ∷ codes "publisher" ∷ []) ready).0
        ≡ ok (all (contains bob_user.roles) (codes "editor" ∷ codes "publisher" ∷ [])))
    × ((has_any_role bob (codes "editor" ∷ codes "publisher" ∷ []) ready).0
        ≡ ok (any (contains bob_user.roles) (codes "editor" ∷ codes "publisher" ∷ [])))
unfolding runs
role_queries_lem_example =
    role_queries_lem ready bob_user (codes "editor") (codes "editor" ∷ codes "publisher" ∷ [])
      ready-IsSound.consistent refl

abbrev bob_set : GrantedSet
bob_set = record {
  by_resource = (codes "article", (codes "edit", tt) ∷ (codes "publish", tt) ∷ []) ∷ [];
}

-- Editors have lost their permission.
abbrev edit_taken : Enforcer
edit_taken = (revoke_permission (codes "editor") (perm "article" "edit") ready).1

stale_after_revoke_example :
    ((check bob (perm "article" "edit") edit_taken).0 ≡ ok tt)
    ↔ ((check bob (perm "article" "edit") ready).0 ≡ ok tt)
unfolding runs
stale_after_revoke_example =
    stale_after_revoke ready (codes "editor") (perm "article" "edit") bob_user
      (perm "article" "edit") bob_set refl refl refl

-- Bob is still granted what editors have lost, by the cache alone.
still_granted :
    (can bob (perm "article" "edit") edit_taken ≡ true)
    × (can bob (perm "article" "edit") (record edit_taken { cache = [] }) ≡ false)
unfolding runs
still_granted = (refl, refl)

permission_queries_lem_example :
    (one every some_one : Bool) × ((Check.has_permission bob (perm "article" "edit") ready).0
      ≡ ok one)
    × ((has_all_permissions bob (perm "article" "*" ∷ perm "comment" "read" ∷ []) ready).0
        ≡ ok every)
    × ((has_any_permission bob (perm "article" "*" ∷ perm "comment" "read" ∷ []) ready).0
        ≡ ok some_one)
    × ((one ≡ true) ↔ IsEntitled ready.store bob_user (perm "article" "edit"))
    × ((every ≡ true)
        ↔ IsEntitledToAll ready.store bob_user (perm "article" "*" ∷ perm "comment" "read" ∷ []))
    × ((some_one ≡ true)
        ↔ IsEntitledToAny ready.store bob_user (perm "article" "*" ∷ perm "comment" "read" ∷ []))
unfolding runs
permission_queries_lem_example =
    permission_queries_lem ready bob_user (perm "article" "edit")
      (perm "article" "*" ∷ perm "comment" "read" ∷ []) ready-IsCoherent refl
