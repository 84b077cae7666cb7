-- ===== src/Authz/Resolve/Loop/Step.antt =====
-- One round of the walk: what it adds to the queue, and what stays true.
use libauth.Prelude.{
  any-append, sym, ◌∙◌, ◌<◌, ◌≡◌, ◌↔◌, ◌⊎◌, inl, inr, refl, ap, true, false, List, [], ◌∷◌, ◌++◌,
  arith, append_assoc, if◌then◌else◌, Bool-cases,
}
use libauth.Text.{eq_refl, Text, ◌==◌, eq_iff, contains}
use libauth.Dict.{keys}
use libauth.Model.{Role}
use libauth.Errors.{Result, ok, err}
use libauth.Store.Lookup.{get_role_cases, stored-key}
use libauth.Store.{MemoryStore, get_role}
use libauth.Authz.Resolve.{Walk, enqueue, visit}
use libauth.Authz.Resolve.Spec.{up, Holds}
use libauth.Authz.Resolve.Queue.{
  eq_sym, queue, IsQueue, contains-enqueue, enqueue-IsQueue, contains-snoc, enqueue_parts, Distinct,
}
use libauth.Authz.Resolve.Fuel.{left, unvisited-snoc-le, unvisited-snoc-lt}

abbrev pub popped : Text → List Text → Walk → Walk
popped q rest w = record w { done = w.done ++ q ∷ []; pending = rest }

abbrev pub add_parent : Result Role → Walk → Walk
add_parent (ok r) w = if r.parent == [] then w else enqueue r.parent w
add_parent (err e) w = w

-- The walk after the round that visits `q`.
abbrev pub visited : MemoryStore → Text → Walk → Walk
visited s q w = add_parent (get_role s q) w

pub visit-get_role :
    (s : MemoryStore) (q : Text) (w : Walk) → visit (get_role s q) w ≡ ok (visited s q w)
unfolding visit
visit-get_role s q w = elim (get_role_cases s q) [ inl (r, e) ↦ rw e | inr e ↦ rw e ]

-- What a round adds: the parent of a stored role.
abbrev Adds : Result Role → Text → Type 0
Adds found y = (r : Role) × (found ≡ ok r) × ((r.parent == []) ≡ false) × (r.parent ≡ y)

contains-add_parent :
    (found : Result Role) (w : Walk)
    → IsQueue w
    → (y : Text)
    → (contains (queue (add_parent found w)) y ≡ true)
      ↔ ((contains (queue w) y ≡ true) ⊎ Adds found y)
contains-add_parent (err e) w h y =
    (λ m. inl m, λ c. elim c [ inl m ↦ m | inr (r, found, ne, eq) ↦ cc ])
contains-add_parent (ok r) w h y = elim (Bool-cases (r.parent == [])) [
  | inl top ↦ (λ m. inl (ground arith), λ c. ground arith)
  | inr ne ↦ (
    λ m. elim (Bool-cases (contains (queue w) y)) [
      | inl old ↦ inl old
      | inr new ↦
          inr (r, refl, ne, ground (arith, contains-enqueue r.parent w h y, eq_iff r.parent y))
    ],
    λ c. ground (arith, contains-enqueue r.parent w h y, eq_iff r.parent y),
  )
]

add_parent-IsQueue : (found : Result Role) (w : Walk) → IsQueue w → IsQueue (add_parent found w)
add_parent-IsQueue (err e) w h = h
add_parent-IsQueue (ok r) w h = elim (Bool-cases (r.parent == [])) [
  | inl e ↦ rw e h
  | inr e ↦ rw e (enqueue-IsQueue r.parent w h)
]

done_add_parent : (found : Result Role) (w : Walk) → (add_parent found w).done ≡ w.done
done_add_parent (err e) w = refl
done_add_parent (ok r) w = ground (arith, enqueue_parts r.parent w)

pub record IsWalk (s : MemoryStore) (start : List Text) (w : Walk) : Type 0 where
  pub is_queue : IsQueue w
  pub sound : (x : Text) → contains (queue w) x ≡ true → Holds s start x
  pub starts : (x : Text) → contains start x ≡ true → contains (queue w) x ≡ true
  pub closed :
      (x : Text) (r : Role)
      → contains w.done x ≡ true
      → get_role s x ≡ ok r
      → (r.parent == []) ≡ false
      → contains (queue w) r.parent ≡ true

Distinct-middle : (xs ys : List Text) (q : Text) → Distinct (xs ++ q ∷ ys) → contains xs q ≡ false
Distinct-middle [] ys q d = refl
Distinct-middle (x ∷ xs) ys q d =
    ground (arith, Distinct-middle xs ys q d.1, any-append (λ y. y == x) xs (q ∷ ys), eq_sym x q)

module _ (s : MemoryStore) (start : List Text) (q : Text) (rest : List Text) (w : Walk)
    (e : w.pending ≡ q ∷ rest) where
  queue-popped : queue (popped q rest w) ≡ queue w
  queue-popped = append_assoc w.done (q ∷ []) rest ∙ ap (λ (t : List Text). w.done ++ t) (sym e)

  popped-IsQueue : IsQueue w → IsQueue (popped q rest w)
  popped-IsQueue h = record {
    agree = λ x. rw queue-popped (h.agree x);
    distinct = rw queue-popped h.distinct;
  }

  q_queued : contains (queue w) q ≡ true
  q_queued = ground (
    arith,
    queue-popped,
    any-append (λ y. y == q) (w.done ++ q ∷ []) rest,
    contains-snoc w.done q q,
    eq_refl q,
  )

  adds :
      IsQueue w
      → (y : Text)
      → (contains (queue (visited s q (popped q rest w))) y ≡ true)
        ↔ ((contains (queue w) y ≡ true) ⊎ Adds (get_role s q) y)
  adds h y =
      rw (← queue-popped)
        (contains-add_parent (get_role s q) (popped q rest w) (popped-IsQueue h) y)

  done_visited : (visited s q (popped q rest w)).done ≡ w.done ++ q ∷ []
  done_visited = done_add_parent (get_role s q) (popped q rest w)

  pub step-IsWalk : IsWalk s start w → IsWalk s start (visited s q (popped q rest w))
  step-IsWalk h = record {
    is_queue = add_parent-IsQueue (get_role s q) (popped q rest w) (popped-IsQueue h.is_queue);
    sound = λ x m. elim ((adds h.is_queue x).0 m) [
      | inl old ↦ h.sound x old
      | inr (r, found, ne, eq) ↦
          let (a, held, path) = h.sound q q_queued in (a, held, up r path found eq (rw (← eq) ne))
    ];
    starts = λ x m. (adds h.is_queue x).1 (inl (h.starts x m));
    closed = λ x r m found ne. elim (Bool-cases (contains w.done x)) [
      | inl old ↦ (adds h.is_queue r.parent).1 (inl (h.closed x r old found ne))
      | inr new ↦ (adds h.is_queue r.parent).1 (
          inr (
            r,
            ap (get_role s) (ground (arith, done_visited, contains-snoc w.done q x, eq_iff q x))
                ∙ found,
            ne,
            refl,
          ))
    ];
  }

  pub left-step :
      IsWalk s start w → left (keys s.roles) (visited s q (popped q rest w)) < left (keys s.roles) w
  left-step h = elim (get_role_cases s q) [
    | inl (r, found) ↦ ground (
      arith,
      found,
      e,
      enqueue_parts r.parent (popped q rest w),
      unvisited-snoc-le (keys s.roles) w.done q,
      unvisited-snoc-lt (keys s.roles) w.done q (stored-key s q r found)
          (Distinct-middle w.done rest q (rw (← e) h.is_queue.distinct)),
    )
    | inr missing ↦ ground (arith, missing, e, unvisited-snoc-le (keys s.roles) w.done q)
  ]
