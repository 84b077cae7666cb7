-- ===== src/Jwt/Instants.antt =====
-- The sums and orders of instants, in nanoseconds (Go's package time, for jwt/jwt.go).
pub mod Sums
use libauth.Prelude.{
  suc, ◌-◌, ◌/◌, ◌∙◌, inr, inl, ◌%◌, leb, refl, Bool-cases, false, ◌≤◌, ap, ℕ, arith, ◌+◌, ◌*◌, ◌≡◌,
  ◌<◌,
}
use libauth.Prelude.Int.{neg, neg_part, ltb_ℤ, pos_part, sub_ℕ, ◌+ℤ◌, ℤ, pos, negsuc}
use libauth.Jwt.Time.{carried, add_sec, before, Time}
use libauth.Jwt.Time.{add}
use mathlib.Core.Path.{subst⁻¹}

-- Nanoseconds since the year 1.
unfoldable pub nanos : Time → ℤ
nanos t = sub_ℕ (pos_part t.sec * 1000000000 + t.nsec) (neg_part t.sec * 1000000000)

pub before_lem :
    (t u : Time)
    → t.nsec < 1000000000
    → u.nsec < 1000000000
    → before t u ≡ ltb_ℤ (nanos t) (nanos u)
unfolding nanos
before_lem t u ht hu = ground (arith, ht, hu)

-- No bound of 64 bits is near.
abbrev pub IsNear : Time → ℤ → Type 0
IsNear t d =
    (pos_part t.sec < 9000000000000000000)
    × (neg_part t.sec < 9000000000000000000)
    × (pos_part d < 9223372036854775808)
    × (neg_part d < 9223372036854775808)

-- `a` is `p - n`.
abbrev pub IsDifference : ℤ → ℕ → ℕ → Type 0
IsDifference a p n = pos_part a + n ≡ p + neg_part a

difference_unique :
    (a b : ℤ) (p n p' n' : ℕ) → IsDifference a p n → IsDifference b p' n' → p + n' ≡ p' + n → a ≡ b
difference_unique (pos x) (pos y) p n p' n' h k e = ap pos (omega (arith, h, k, e))
difference_unique (pos x) (negsuc y) p n p' n' h k e = absurd (omega (arith, h, k, e))
difference_unique (negsuc x) (pos y) p n p' n' h k e = absurd (omega (arith, h, k, e))
difference_unique (negsuc x) (negsuc y) p n p' n' h k e = ap negsuc (omega (arith, h, k, e))

sub_ℕ-IsDifference : (p n : ℕ) → IsDifference (sub_ℕ p n) p n
sub_ℕ-IsDifference p n = ground arith

pub sum-IsDifference :
    (a b : ℤ) → IsDifference (a +ℤ b) (pos_part a + pos_part b) (neg_part a + neg_part b)
unfolding ◌+ℤ◌
sum-IsDifference a b = sub_ℕ-IsDifference (pos_part a + pos_part b) (neg_part a + neg_part b)

sum_small :
    (a b : ℤ)
    → (pos_part (a +ℤ b) ≤ pos_part a + pos_part b) × (neg_part (a +ℤ b) ≤ neg_part a + neg_part b)
unfolding ◌+ℤ◌
sum_small a b = ground arith

-- A sum of seconds that stays away from the bounds.
add_sec-IsDifference :
    (s d : ℤ)
    → pos_part s + pos_part d < 9200000000000000000
    → neg_part s + neg_part d < 9200000000000000000
    → IsDifference (add_sec s d) (pos_part s + pos_part d) (neg_part s + neg_part d)
add_sec-IsDifference s d h k =
    let (small_pos, small_neg) = sum_small s d in
    let below : ltb_ℤ (pos 9223372036854775807) (s +ℤ d) ≡ false = ground (arith, small_pos, h) in
    let above : ltb_ℤ (s +ℤ d) (negsuc 9223372036854775807) ≡ false =
      ground (arith, small_neg, k) in
    rw (below, above) (sum-IsDifference s d)

pub nanos-IsDifference :
    (t : Time) (p n : ℕ)
    → IsDifference t.sec p n
    → IsDifference (nanos t) (p * 1000000000 + t.nsec) (n * 1000000000)
unfolding nanos
nanos-IsDifference t p n h =
    let d =
      sub_ℕ-IsDifference (pos_part t.sec * 1000000000 + t.nsec) (neg_part t.sec * 1000000000) in
    omega (arith, h, d)

-- The nanoseconds of a sum, where the seconds to add are `p - n`.
moved :
    (s d : ℤ) (p n k : ℕ)
    → IsDifference d p n
    → pos_part s + pos_part d < 9200000000000000000
    → neg_part s + neg_part d < 9200000000000000000
    → IsDifference
        (nanos (record { sec = add_sec s d; nsec = k }))
        ((pos_part s + p) * 1000000000 + k)
        ((neg_part s + n) * 1000000000)
moved s d p n k e h l =
    let sum = add_sec-IsDifference s d h l in
    nanos-IsDifference (record { sec = add_sec s d; nsec = k }) (pos_part s + p) (neg_part s + n)
      (omega (arith, e, sum))

-- What `t + d` is in nanoseconds.
target :
    (t : Time) (d : ℤ)
    → IsDifference
        (nanos t +ℤ d)
        (pos_part t.sec * 1000000000 + t.nsec + pos_part d)
        (neg_part t.sec * 1000000000 + neg_part d)
target t d =
    let sum = sum-IsDifference (nanos t) d in
    let here = nanos-IsDifference t (pos_part t.sec) (neg_part t.sec) refl in
    omega (arith, sum, here)

pub closed :
    (t : Time) (d d' : ℤ) (p n k : ℕ)
    → add t d ≡ record { sec = add_sec t.sec d'; nsec = k }
    → IsDifference d' p n
    → pos_part t.sec + pos_part d' < 9200000000000000000
    → neg_part t.sec + neg_part d' < 9200000000000000000
    → p * 1000000000 + k + neg_part d ≡ t.nsec + pos_part d + n * 1000000000
    → nanos (add t d) ≡ nanos t +ℤ d
closed t d d' p n k e diff h l balance =
    ap nanos e
    ∙ difference_unique (nanos (record { sec = add_sec t.sec d'; nsec = k })) (nanos t +ℤ d)
        ((pos_part t.sec + p) * 1000000000 + k) ((neg_part t.sec + n) * 1000000000)
        (pos_part t.sec * 1000000000 + t.nsec + pos_part d)
        (neg_part t.sec * 1000000000 + neg_part d) (moved t.sec d' p n k diff h l) (target t d)
        (omega (arith, balance))
