-- ===== src/Authz/Resolve/Loop.antt =====
-- The whole walk of `resolveRoles` (authz/resolve.go).
mod Step
use libauth.Prelude.{
  zero, ◌∷◌, refl, suc, ◌∙◌, ◌++◌, ◌↔◌, ap, ◌<◌, true, [], arith, ℕ, ◌≡◌, List, ◌+◌, length,
  append-nil,
}
use libauth.Prelude.Sorting.{sort-Distinct, sort-IsSorted, any-sort, IsSorted}
use libauth.Authz.Resolve.{sort, climb, resolve_roles, Walk, enqueue_all, nothing_seen, rounds}
use libauth.Store.{MemoryStore, get_role}
use libauth.Text.Order.{text_lt, text_lt_asym}
use libauth.Text.{Text, contains, ◌==◌}
use libauth.Dict
use libauth.Dict.{keys, Names}
use libauth.Model.{User, Role}
use libauth.Errors.{ok}
use libauth.Authz.Resolve.Queue.{
  IsQueue, queue, contains-enqueue_all, enqueue_all-IsQueue, done_enqueue_all, Distinct, eq_sym,
}
use libauth.Authz.Resolve.Fuel.{left, left-enqueue_all, unvisited-nil-le}
use libauth.Authz.Resolve.Loop.Step.{
  IsWalk, popped, visited, visit-get_role, step-IsWalk, left-step,
}
use libauth.Authz.Resolve.Spec.{Inherits, itself, up, Holds}

climb_step :
    (s : MemoryStore) (fuel : ℕ) (q : Text) (rest : List Text) (seen : Names) (done : List Text)
    → climb (suc fuel) s (record { seen = seen; done = done; pending = q ∷ rest })
      ≡ climb fuel s (visited s q (record { seen = seen; done = done ++ q ∷ []; pending = rest }))
unfolding climb
climb_step s fuel q rest seen done =
    ground
      (arith, visit-get_role s q (record { seen = seen; done = done ++ q ∷ []; pending = rest }))

climb_lem :
    (s : MemoryStore) (start : List Text) (fuel : ℕ) (seen : Names) (done pending : List Text)
    → IsWalk s start (record { seen = seen; done = done; pending = pending })
    → left (keys s.roles) (record { seen = seen; done = done; pending = pending }) < fuel
    → (w : Walk) × (climb fuel s (record { seen = seen; done = done; pending = pending }) ≡ ok w)
      × IsWalk s start w
      × (w.pending ≡ [])
unfolding climb
climb_lem s start zero seen done pending h m = absurd (omega arith)
climb_lem s start (suc fuel) seen done [] h m =
    (record { seen = seen; done = done; pending = [] }, refl, h, refl)
climb_lem s start (suc fuel) seen done (q ∷ rest) h m =
    let w : Walk = record { seen = seen; done = done; pending = q ∷ rest } in
    let w' : Walk = visited s q (popped q rest w) in
    rw (climb_step s fuel q rest seen done) (
      climb_lem s start fuel w'.seen w'.done w'.pending (step-IsWalk s start q rest w refl h)
        (omega (arith, left-step s start q rest w refl h)))

start_IsWalk :
    (s : MemoryStore) (start : List Text) → IsWalk s start (enqueue_all start nothing_seen)
unfolding Dict.get
start_IsWalk s start = record {
  is_queue = enqueue_all-IsQueue start nothing_seen fresh;
  sound = λ x m. (x, ground (arith, contains-enqueue_all start nothing_seen fresh x), itself);
  starts = λ x m. ground (arith, contains-enqueue_all start nothing_seen fresh x);
  closed = λ x r m found ne. ground (arith, done_enqueue_all start nothing_seen);
}
  where
    fresh : IsQueue nothing_seen
    fresh = record { agree = λ x. refl; distinct = tt }

-- In a closed walk with nothing pending, inheritance never leaves the queue.
Inherits-queued :
    (s : MemoryStore) (start : List Text) (w : Walk) {a c : Text}
    → IsWalk s start w
    → w.pending ≡ []
    → contains w.done a ≡ true
    → Inherits s a c
    → contains w.done c ≡ true
Inherits-queued s start w h empty m itself = m
Inherits-queued s start w h empty m (up {b = b} r path found eq ne) =
    let before : contains w.done b ≡ true = Inherits-queued s start w h empty m path in
    rw (← eq) (ground (arith, empty, h.closed b r before found, ne, eq, append-nil w.done))

walk_ends :
    (s : MemoryStore) (u : User)
    → (w : Walk) × (climb (rounds s u) s (enqueue_all u.roles nothing_seen) ≡ ok w)
      × IsWalk s u.roles w
      × (w.pending ≡ [])
walk_ends s u =
    let w : Walk = enqueue_all u.roles nothing_seen in
    climb_lem s u.roles (rounds s u) w.seen w.done w.pending (start_IsWalk s u.roles) (
      omega (
        arith,
        left-enqueue_all (keys s.roles) u.roles nothing_seen,
        unvisited-nil-le (keys s.roles),
      ))

queue_done : (w : Walk) → w.pending ≡ [] → queue w ≡ w.done
queue_done w empty = ap (λ (t : List Text). w.done ++ t) empty ∙ append-nil w.done

resolved-Holds :
    (s : MemoryStore) (u : User) (w : Walk)
    → IsWalk s u.roles w
    → w.pending ≡ []
    → (x : Text) → (contains w.done x ≡ true) ↔ Holds s u.roles x
resolved-Holds s u w h empty x = (
  λ m. h.sound x (rw (queue_done w empty) m),
  λ (a, m, path).
      Inherits-queued s u.roles w h empty (rw (queue_done w empty) at (h.starts a m)) path,
)

resolved-Distinct :
    {s : MemoryStore} {start : List Text} (w : Walk)
    → IsWalk s start w
    → w.pending ≡ []
    → Distinct w.done
resolved-Distinct w h empty = rw (queue_done w empty) at h.is_queue.distinct

-- Resolving the roles of any user over any store succeeds. The result is in order, names no role
-- twice, and names exactly the roles from which parent links lead on from a role of the user, whether
-- or not the hierarchy has cycles.
pub resolve_roles_lem :
    (s : MemoryStore) (u : User)
    → (l : List Text) × (resolve_roles s u ≡ ok l)
      × IsSorted text_lt l
      × Distinct l
      × ((x : Text) → (contains l x ≡ true) ↔ Holds s u.roles x)
unfolding resolve_roles
resolve_roles_lem s u =
    let (w, ended, h, empty) = walk_ends s u in
    (
      sort text_lt w.done,
      ground (arith, ended, empty, append-nil w.done),
      sort-IsSorted text_lt text_lt_asym w.done,
      sort-Distinct ◌==◌ text_lt eq_sym w.done (resolved-Distinct w h empty),
      λ x. rw (any-sort text_lt (λ y. y == x) w.done) (resolved-Holds s u w h empty x),
    )
