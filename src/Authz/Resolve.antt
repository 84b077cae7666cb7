-- ===== src/Authz/Resolve.antt =====
-- authz/resolve.go: the effective roles of a user.
pub mod Spec
pub mod Queue
pub mod Fuel
pub mod Loop
use libauth.Prelude.{ℕ, zero, suc, ◌+◌, List, [], ◌∷◌, ◌++◌, length, if◌then◌else◌}
use libauth.Prelude.Sorting.{sort}
use libauth.Text.{Text, ◌==◌}
use libauth.Text.Order.{text_lt}
use libauth.Dict.{Names, put, has_key, keys}
use libauth.Model.{User, Role}
use libauth.Errors.{Result, ok, err, role_not_found, ◌>>=◌}
use libauth.Store.{MemoryStore, get_role, get_user}

-- The loop's variables: `queue` is `done ++ pending`, and the index `i` is the length of `done`.
pub record Walk : Type 0 where
  pub seen : Names
  pub done : List Text
  pub pending : List Text

-- `if !seen[r] { seen[r] = true; queue = append(queue, r) }`
unfoldable pub enqueue : Text → Walk → Walk
enqueue r w =
    if has_key w.seen r
    then w
    else record w { seen = put w.seen r tt; pending = w.pending ++ r ∷ [] }

unfoldable pub enqueue_all : List Text → Walk → Walk
enqueue_all [] w = w
enqueue_all (r ∷ rs) w = enqueue_all rs (enqueue r w)

-- The loop's body, once the role at `i` has been looked up.
unfoldable pub visit : Result Role → Walk → Result Walk
visit (ok role) w = ok (if role.parent == [] then w else enqueue role.parent w)
visit (err role_not_found) w = ok w
visit (err e) w = err e

unfoldable pub climb : ℕ → MemoryStore → Walk → Result Walk
climb zero s w = ok w
climb (suc fuel) s w = elim w.pending [
  | [] ↦ ok w
  | q ∷ rest ↦ elim (visit (get_role s q) (record w { done = w.done ++ q ∷ []; pending = rest })) [
    | ok w' ↦ climb fuel s w'
    | err e ↦ err e
  ]
]

abbrev pub nothing_seen : Walk
nothing_seen = record { seen = []; done = []; pending = [] }

-- Each round visits one name: one of the user's roles, or the parent of a stored role.
abbrev pub rounds : MemoryStore → User → ℕ
rounds s u = length u.roles + length (keys s.roles) + 1

unfoldable pub resolve_roles : MemoryStore → User → Result (List Text)
resolve_roles s u = do
  w ← climb (rounds s u) s (enqueue_all u.roles nothing_seen)
  ok (sort text_lt (w.done ++ w.pending))

unfoldable pub roles_for : MemoryStore → Text → Result (List Text)
roles_for s id = do u ← get_user s id; resolve_roles s u
