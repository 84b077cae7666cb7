-- ===== src/Jwt/Instants/Sums.antt =====
-- An instant and a duration (Go's `Time.Add`, for jwt/jwt.go).
use libauth.Prelude.{false, suc, inl, inr}
use libauth.Prelude.{
  suc, ◌-◌, ◌/◌, ◌∙◌, inr, inl, ◌%◌, leb, refl, Bool-cases, false, ◌≤◌, ap, ℕ, arith, ◌+◌, ◌≡◌, ◌<◌,
}
use libauth.Prelude.Int.{neg, neg_part, pos_part, ◌+ℤ◌, ℤ, pos, negsuc}
use libauth.Jwt.Time.{carried, Time}
use libauth.Jwt.Time.{add}
use mathlib.Core.Path.{subst⁻¹}
use libauth.Jwt.Instants.{nanos, IsNear, closed}

later_rest : (m r : ℕ) → pos m +ℤ pos r ≡ pos (m + r)
unfolding ◌+ℤ◌
later_rest m r = ground arith

-- With and without a carry.
nanos-add_later :
    (t : Time) (n : ℕ)
    → t.nsec < 1000000000
    → IsNear t (pos n)
    → nanos (add t (pos n)) ≡ nanos t +ℤ pos n
unfolding add
nanos-add_later t n h near = elim (Bool-cases (leb 1000000000 (t.nsec + n % 1000000000))) [
  | inl carry ↦
      let le : 1000000000 ≤ t.nsec + n % 1000000000 = ground (arith, carry) in
      closed t (pos n) (pos (n / 1000000000) +ℤ pos 1) (n / 1000000000 + 1) 0
        (t.nsec + n % 1000000000 - 1000000000)
        (ap (carried t (pos (n / 1000000000))) (later_rest t.nsec (n % 1000000000)) ∙ rw carry refl)
        (rw (later_rest (n / 1000000000) 1) (omega arith))
        (rw (later_rest (n / 1000000000) 1) (omega (arith, near)))
        (rw (later_rest (n / 1000000000) 1) (omega (arith, near))) (omega (arith, le))
  | inr plain ↦
      closed t (pos n) (pos (n / 1000000000)) (n / 1000000000) 0 (t.nsec + n % 1000000000)
        (ap (carried t (pos (n / 1000000000))) (later_rest t.nsec (n % 1000000000)) ∙ rw plain refl)
        refl (omega (arith, near)) (omega (arith, near)) (omega arith)
]

earlier_rest : (m r : ℕ) → r ≤ m → pos m +ℤ neg (pos r) ≡ pos (m - r)
unfolding ◌+ℤ◌ neg
earlier_rest m r h = ground (arith, h)

borrowed_rest : (m r : ℕ) → m < r → pos m +ℤ neg (pos r) ≡ negsuc (r - m - 1)
unfolding ◌+ℤ◌ neg
borrowed_rest m r h = ground (arith, h)

negative_parts : (q : ℕ) → (pos_part (neg (pos q)) ≡ 0) × (neg_part (neg (pos q)) ≡ q)
unfolding neg
negative_parts q = ground arith

one_less : (q : ℕ) → neg (pos q) +ℤ negsuc 0 ≡ negsuc q
unfolding ◌+ℤ◌ neg
one_less q = ground arith

-- With and without a second that is borrowed.
nanos-add_earlier :
    (t : Time) (n : ℕ)
    → t.nsec < 1000000000
    → IsNear t (negsuc n)
    → nanos (add t (negsuc n)) ≡ nanos t +ℤ negsuc n
unfolding add
nanos-add_earlier t n h near =
    let q = suc n / 1000000000 in
    let r = suc n % 1000000000 in
    let (no_pos, all_neg) = negative_parts q in
    elim (Bool-cases (leb r t.nsec)) [
      | inl enough ↦
          let le : r ≤ t.nsec = ground (arith, enough) in
          let plain : leb 1000000000 (t.nsec - r) ≡ false = ground (arith, h) in
          closed t (negsuc n) (neg (pos q)) 0 q (t.nsec - r)
            (ap (carried t (neg (pos q))) (earlier_rest t.nsec r le) ∙ rw plain refl)
            (omega (arith, no_pos, all_neg)) (omega (arith, no_pos, near))
            (omega (arith, all_neg, near)) (omega (arith, le))
      | inr short ↦
          let lt : t.nsec < r = ground (arith, short) in
          closed t (negsuc n) (neg (pos q) +ℤ negsuc 0) 0 (q + 1)
            (1000000000 - suc (r - t.nsec - 1))
            (ap (carried t (neg (pos q))) (borrowed_rest t.nsec r lt))
            (rw (one_less q) (omega arith)) (rw (one_less q) (omega (arith, near)))
            (rw (one_less q) (omega (arith, near))) (omega (arith, lt))
    ]

pub nanos-add :
    (t : Time) (d : ℤ) → t.nsec < 1000000000 → IsNear t d → nanos (add t d) ≡ nanos t +ℤ d
nanos-add t (pos n) h near = nanos-add_later t n h near
nanos-add t (negsuc n) h near = nanos-add_earlier t n h near

pub add_nsec : (t : Time) (d : ℤ) → t.nsec < 1000000000 → (add t d).nsec < 1000000000
unfolding add
add_nsec t (pos n) h =
    subst⁻¹ (λ x. (carried t (pos (n / 1000000000)) x).nsec < 1000000000)
      (later_rest t.nsec (n % 1000000000)) (ground (arith, h))
add_nsec t (negsuc n) h =
    let r = suc n % 1000000000 in
    let q = neg (pos (suc n / 1000000000)) in
    elim (Bool-cases (leb r t.nsec)) [
      | inl enough ↦
          subst⁻¹ (λ x. (carried t q x).nsec < 1000000000)
            (earlier_rest t.nsec r (ground (arith, enough))) (ground (arith, h))
      | inr short ↦
          subst⁻¹ (λ x. (carried t q x).nsec < 1000000000)
            (borrowed_rest t.nsec r (ground (arith, short))) (omega arith)
    ]
