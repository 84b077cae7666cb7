-- ===== src/Authz/Resolve/Queue.antt =====
-- What one append to the queue does.
use libauth.Prelude.{
  ◌∙◌, length-append, ◌+◌, ◌≤◌, length, ◌≡◌, refl, false, ◌||◌, List, [], ◌∷◌, ◌++◌, arith,
  append_assoc, any-append, Bool-cases, inl, inr,
}
use libauth.Prelude.Sorting
use libauth.Text.{Text, ◌==◌, eq_iff, contains}
use libauth.Dict.{has_key}
use libauth.Dict.Laws.{has_key-put}
use libauth.Authz.Resolve.{enqueue_all, Walk, enqueue}

abbrev pub queue : Walk → List Text
queue w = w.done ++ w.pending

abbrev pub Distinct : List Text → Type 0
Distinct = Sorting.Distinct ◌==◌

-- The map `seen` and the queue hold the same names, each once.
pub record IsQueue (w : Walk) : Type 0 where
  pub agree : (x : Text) → has_key w.seen x ≡ contains (queue w) x
  pub distinct : Distinct (queue w)

pub eq_sym : (s t : Text) → (s == t) ≡ (t == s)
eq_sym s t = ground (arith, eq_iff s t, eq_iff t s)

pub contains-snoc :
    (xs : List Text) (x y : Text) → contains (xs ++ x ∷ []) y ≡ (contains xs y || x == y)
contains-snoc xs x y = rw any-append (ground arith)

Distinct-snoc :
    (xs : List Text) (x : Text) → Distinct xs → contains xs x ≡ false → Distinct (xs ++ x ∷ [])
Distinct-snoc [] x d n = (refl, tt)
Distinct-snoc (y ∷ ys) x d n =
    (ground (arith, contains-snoc ys x y, eq_sym x y), Distinct-snoc ys x d.1 (ground arith))

pub contains-enqueue :
    (x : Text) (w : Walk)
    → IsQueue w
    → (y : Text) → contains (queue (enqueue x w)) y ≡ (contains (queue w) y || x == y)
unfolding enqueue
contains-enqueue x w h y = elim (Bool-cases (has_key w.seen x)) [
  | inl old ↦ rw old (ground (arith, h.agree x, eq_iff x y))
  | inr new ↦ rw new (rw (← append_assoc w.done w.pending (x ∷ [])) (contains-snoc (queue w) x y))
]

pub enqueue-IsQueue : (x : Text) (w : Walk) → IsQueue w → IsQueue (enqueue x w)
unfolding enqueue
enqueue-IsQueue x w h = elim (Bool-cases (has_key w.seen x)) [
  | inl old ↦ rw old h
  | inr new ↦ rw new (record {
    agree = λ y.
        rw (← append_assoc w.done w.pending (x ∷ []))
          (ground (arith, h.agree y, has_key-put w.seen x tt y, contains-snoc (queue w) x y));
    distinct =
        rw (← append_assoc w.done w.pending (x ∷ []))
          (Distinct-snoc (queue w) x h.distinct (ground (arith, h.agree x)));
  })
]

pub contains-enqueue_all :
    (xs : List Text) (w : Walk)
    → IsQueue w
    → (y : Text) → contains (queue (enqueue_all xs w)) y ≡ (contains (queue w) y || contains xs y)
unfolding enqueue_all
contains-enqueue_all [] w h y = ground arith
contains-enqueue_all (x ∷ xs) w h y = ground (
  arith,
  contains-enqueue_all xs (enqueue x w) (enqueue-IsQueue x w h) y,
  contains-enqueue x w h y,
)

pub enqueue_all-IsQueue : (xs : List Text) (w : Walk) → IsQueue w → IsQueue (enqueue_all xs w)
unfolding enqueue_all
enqueue_all-IsQueue [] w h = h
enqueue_all-IsQueue (x ∷ xs) w h = enqueue_all-IsQueue xs (enqueue x w) (enqueue-IsQueue x w h)

-- An append leaves the visited part alone, and adds one name at most.
pub enqueue_parts :
    (x : Text) (w : Walk)
    → ((enqueue x w).done ≡ w.done) × (length (enqueue x w).pending ≤ length w.pending + 1)
unfolding enqueue
enqueue_parts x w = ground (arith, length-append w.pending (x ∷ []))

pub done_enqueue_all : (xs : List Text) (w : Walk) → (enqueue_all xs w).done ≡ w.done
unfolding enqueue_all
done_enqueue_all [] w = refl
done_enqueue_all (x ∷ xs) w = done_enqueue_all xs (enqueue x w) ∙ (enqueue_parts x w).0
