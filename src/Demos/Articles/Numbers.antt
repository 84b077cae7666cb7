-- ===== src/Demos/Articles/Numbers.antt =====
-- The ids of articles (_examples/example01/main.go).
use libauth.Prelude.{
  ap, inr, inl, Bool-cases, if◌then◌else◌, none, some, List, [], ◌∷◌, ℕ, suc, ◌≤◌, ◌<◌, ◌≡◌, refl,
  arith, true, false,
}
use libauth.Prelude.Int.{signed64, residue64, ℤ, pos, ◌+ℤ◌, wrap64, eq_ℤ, pos_part, neg_part}
use libauth.Demos.Articles.{
  Server, Article, article_at, put_article, drop_article, with_article, new_article,
}
use libauth.Text.{Text}

-- Each article is stored once, under its own id, which is from 1 to below `n`.
abbrev pub AreNumbered : ℕ → List (ℤ × Article) → Type 0
AreNumbered n [] = Unit
AreNumbered n ((k, a) ∷ m) =
    (a.id ≡ k)
    × (neg_part k ≡ 0)
    × (0 < pos_part k)
    × (pos_part k < n)
    × (article_at m k ≡ none)
    × AreNumbered n m

-- At most `bound - 1` ids were given out, the next is above them all.
abbrev pub IsNumbered : ℕ → Server → Type 0
IsNumbered bound s =
    (n : ℕ) × (s.next_id ≡ pos n) × (0 < n) × (n ≤ bound) × AreNumbered n s.articles

eq_ℤ→path : (a b : ℤ) → eq_ℤ a b ≡ true → a ≡ b
eq_ℤ→path a b h = ground (arith, h)

AreNumbered-mono : (n : ℕ) (m : List (ℤ × Article)) → AreNumbered n m → AreNumbered (suc n) m
AreNumbered-mono n [] h = tt
AreNumbered-mono n ((k, a) ∷ m) (own, sign, some_id, below, once, h) =
    (own, sign, some_id, omega (arith, below), once, AreNumbered-mono n m h)

pub article_at-above :
    (n : ℕ) (m : List (ℤ × Article)) → AreNumbered n m → article_at m (pos n) ≡ none
unfolding article_at
article_at-above n [] h = refl
article_at-above n ((k, a) ∷ m) (own, sign, some_id, below, once, h) =
    ground (arith, below, sign, article_at-above n m h)

article_at-put :
    (m : List (ℤ × Article)) (k j : ℤ) (a : Article)
    → article_at (put_article m k a) j ≡ (if eq_ℤ k j then some a else article_at m j)
unfolding article_at put_article
article_at-put [] k j a = refl
article_at-put ((i, b) ∷ m) k j a = ground (arith, article_at-put m k j a, eq_ℤ→path i k)

article_at-drop :
    (m : List (ℤ × Article)) (k j : ℤ)
    → article_at (drop_article m k) j ≡ (if eq_ℤ k j then none else article_at m j)
unfolding article_at drop_article
article_at-drop [] k j = ground arith
article_at-drop ((i, b) ∷ m) k j = ground (arith, article_at-drop m k j)

put-AreNumbered :
    (n : ℕ) (m : List (ℤ × Article)) (a : Article)
    → 0 < n
    → AreNumbered n m
    → a.id ≡ pos n
    → AreNumbered (suc n) (put_article m a.id a)
unfolding article_at put_article
put-AreNumbered n [] a some_id h e =
    (refl, ap neg_part e, ground (arith, e, some_id), ground (arith, e), refl, tt)
put-AreNumbered n ((k, b) ∷ m) a some_id (own, sign, some_k, below, once, h) e =
    let other : eq_ℤ k a.id ≡ false = ground (arith, e, below) in
    rw other (
      own,
      sign,
      some_k,
      omega (arith, below),
      ground (arith, once, article_at-put m a.id k a, e, below),
      put-AreNumbered n m a some_id h e,
    )

drop-AreNumbered :
    (n : ℕ) (m : List (ℤ × Article)) (k : ℤ) → AreNumbered n m → AreNumbered n (drop_article m k)
unfolding article_at drop_article
drop-AreNumbered n [] k h = tt
drop-AreNumbered n ((i, b) ∷ m) k (own, sign, some_k, below, once, h) =
    elim (Bool-cases (eq_ℤ i k)) [
      | inl here ↦ rw here (drop-AreNumbered n m k h)
      | inr there ↦ rw there (
        own,
        sign,
        some_k,
        below,
        ground (arith, once, article_at-drop m k i),
        drop-AreNumbered n m k h,
      )
    ]

wrap_next : (n : ℕ) → n < 9223372036854775807 → wrap64 (pos n +ℤ pos 1) ≡ pos (suc n)
unfolding wrap64 residue64 signed64 ◌+ℤ◌
wrap_next n h = ground (arith, h)

-- A new article gets an id that no stored article has.
pub with_article-IsNumbered :
    (bound : ℕ) (s : Server) (title : Text)
    → bound < 9223372036854775807
    → IsNumbered bound s
    → IsNumbered (suc bound) (with_article s (new_article s title))
unfolding with_article
with_article-IsNumbered bound s title small (n, e, some_id, le, h) = (
  suc n,
  rw e (wrap_next n (omega (arith, le, small))),
  omega arith,
  omega (arith, le),
  put-AreNumbered n s.articles (new_article s title) some_id h e,
)

pub IsNumbered-mono : (bound : ℕ) (s : Server) → IsNumbered bound s → IsNumbered (suc bound) s
IsNumbered-mono bound s (n, e, some_id, le, h) = (n, e, some_id, omega (arith, le), h)

pub drop-IsNumbered :
    (bound : ℕ) (s : Server) (id : ℤ)
    → IsNumbered bound s
    → IsNumbered bound (record s { articles = drop_article s.articles id })
drop-IsNumbered bound s id (n, e, some_id, le, h) =
    (n, e, some_id, le, drop-AreNumbered n s.articles id h)

pub next-fresh :
    (bound : ℕ) (s : Server) → IsNumbered bound s → article_at s.articles s.next_id ≡ none
next-fresh bound s (n, e, some_id, le, h) = rw e (article_at-above n s.articles h)
