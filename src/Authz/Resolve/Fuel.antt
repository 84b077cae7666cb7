-- ===== src/Authz/Resolve/Fuel.antt =====
-- The rounds of the walk in `resolveRoles` (authz/resolve.go).
use libauth.Prelude.{
  ℕ, ◌+◌, ◌≤◌, ◌<◌, ◌≡◌, true, false, List, [], ◌∷◌, ◌++◌, arith, length, if◌then◌else◌,
}
use libauth.Text.{Text, eq_iff, contains}
use libauth.Authz.Resolve.{Walk, enqueue, enqueue_all}
use libauth.Authz.Resolve.Queue.{eq_sym, contains-snoc, enqueue_parts}

-- How many of the keys have not been visited.
abbrev pub unvisited : List Text → List Text → ℕ
unvisited [] done = 0
unvisited (k ∷ ks) done = (if contains done k then 0 else 1) + unvisited ks done

pub unvisited-snoc-le :
    (ks done : List Text) (q : Text) → unvisited ks (done ++ q ∷ []) ≤ unvisited ks done
unvisited-snoc-le [] done q = omega arith
unvisited-snoc-le (k ∷ ks) done q =
    ground (arith, contains-snoc done q k, unvisited-snoc-le ks done q)

pub unvisited-snoc-lt :
    (ks done : List Text) (q : Text)
    → contains ks q ≡ true
    → contains done q ≡ false
    → unvisited ks (done ++ q ∷ []) < unvisited ks done
unvisited-snoc-lt [] done q m n = cc
unvisited-snoc-lt (k ∷ ks) done q m n = ground (
  arith,
  contains-snoc done q k,
  eq_iff k q,
  eq_sym k q,
  unvisited-snoc-le ks done q,
  unvisited-snoc-lt ks done q,
)

pub unvisited-nil-le : (ks : List Text) → unvisited ks [] ≤ length ks
unvisited-nil-le [] = omega arith
unvisited-nil-le (k ∷ ks) = omega (arith, unvisited-nil-le ks)

-- What is left to do: the names in the queue, and the stored roles that may still add their parent.
abbrev pub left : List Text → Walk → ℕ
left ks w = length w.pending + unvisited ks w.done

pub left-enqueue_all :
    (ks rs : List Text) (w : Walk) → left ks (enqueue_all rs w) ≤ left ks w + length rs
unfolding enqueue_all
left-enqueue_all ks [] w = omega arith
left-enqueue_all ks (r ∷ rs) w =
    ground (arith, left-enqueue_all ks rs (enqueue r w), enqueue_parts r w)
