-- ===== src/Branca/Shared.antt =====
-- branca/base62.go: two decodes at the same time. The digit of a round, `base62Digit`, is one variable
-- of the package: a round writes it, and then adds it to the number of its own call.
use libauth.Prelude.{
  ℕ, ◌+◌, ◌*◌, Option, none, some, [], ◌∷◌, Bool, true, false, ◌≡◌, refl, ◌∙◌, sym,
}
use libauth.Text.{Text}
use libauth.Branca.Base62.{digit_of, read_digits}

-- Where a call of `base62Decode` is: before a round, before the sum of a round, or at its end.
pub data Decoding : Type 0 where
  scanning adding : ℕ → Text → Decoding
  finished : ℕ → Decoding
  refused : Decoding

-- The digit that the calls share, and the calls.
pub record Shared : Type 0 where
  pub digit : ℕ
  pub left : Decoding
  pub right : Decoding

-- `n.Mul(n, base62Radix); base62Digit.SetInt64(int64(d))`, if there is a digit.
abbrev pub multiplied : ℕ → ℕ → Text → Option ℕ → ℕ × Decoding
multiplied digit n s none = (digit, refused)
multiplied digit n s (some d) = (d, adding (n * 62) s)

-- A step of a call: the digit after it, and where the call is then.
unfoldable pub advance : ℕ → Decoding → ℕ × Decoding
advance digit (scanning n []) = (digit, finished n)
advance digit (scanning n (c ∷ s)) = multiplied digit n s (digit_of c)
advance digit (adding n s) = (digit, scanning (n + digit) s)
advance digit (finished n) = (digit, finished n)
advance digit refused = (digit, refused)

abbrev pub step_left : Shared → Shared
step_left σ = record {
  digit = (advance σ.digit σ.left).0;
  left = (advance σ.digit σ.left).1;
  right = σ.right;
}

abbrev pub step_right : Shared → Shared
step_right σ = record {
  digit = (advance σ.digit σ.right).0;
  left = σ.left;
  right = (advance σ.digit σ.right).1;
}

-- Two calls on texts that are not empty, before their first rounds, with the digit that is left from earlier ones.
abbrev pub begun : ℕ → Text → Text → Shared
begun digit s t = record { digit = digit; left = scanning 0 s; right = scanning 0 t }

abbrev pub is_adding : Decoding → Bool
is_adding (adding n s) = true
is_adding (scanning n s) = false
is_adding (finished n) = false
is_adding refused = false

-- The states that are reached if no call steps while the other has a digit to add.
pub data Exclusive (start : Shared) : Shared → Type 0 where
  here : Exclusive start start
  by_left :
      {σ : Shared} → Exclusive start σ → is_adding σ.right ≡ false → Exclusive start (step_left σ)
  by_right :
      {σ : Shared} → Exclusive start σ → is_adding σ.left ≡ false → Exclusive start (step_right σ)

-- A call on the text `w` has read what `base62Decode` alone reads.
abbrev pub IsReading : Text → ℕ → Decoding → Type 0
IsReading w digit (scanning n s) = read_digits n s ≡ read_digits 0 w
IsReading w digit (adding n s) = read_digits (n + digit) s ≡ read_digits 0 w
IsReading w digit (finished n) = some n ≡ read_digits 0 w
IsReading w digit refused = none ≡ read_digits 0 w

read_digits-cons :
    (n c : ℕ) (s : Text) (d : Option ℕ)
    → digit_of c ≡ d
    → read_digits n (c ∷ s) ≡ elim d [ none ↦ none | some d' ↦ read_digits (n * 62 + d') s ]
unfolding read_digits
read_digits-cons n c s d e = rw (read_digits, e) refl

multiplied-IsReading :
    (w : Text) (digit n : ℕ) (c : ℕ) (s : Text) (d : Option ℕ)
    → digit_of c ≡ d
    → read_digits n (c ∷ s) ≡ read_digits 0 w
    → let (digit', x) = multiplied digit n s d in IsReading w digit' x
unfolding read_digits
multiplied-IsReading w digit n c s none e h = sym (read_digits-cons n c s none e) ∙ h
multiplied-IsReading w digit n c s (some d) e h = sym (read_digits-cons n c s (some d) e) ∙ h

advance-IsReading :
    (w : Text) (digit : ℕ) (x : Decoding)
    → IsReading w digit x
    → IsReading w (advance digit x).0 (advance digit x).1
unfolding advance read_digits
advance-IsReading w digit (scanning n []) h = h
advance-IsReading w digit (scanning n (c ∷ s)) h =
    multiplied-IsReading w digit n c s (digit_of c) refl h
advance-IsReading w digit (adding n s) h = h
advance-IsReading w digit (finished n) h = h
advance-IsReading w digit refused h = h

-- Without a digit to add, a call does not read the shared one.
other-IsReading :
    (w : Text) (digit digit' : ℕ) (x : Decoding)
    → is_adding x ≡ false
    → IsReading w digit x
    → IsReading w digit' x
other-IsReading w digit digit' (scanning n s) e h = h
other-IsReading w digit digit' (adding n s) e h = cc
other-IsReading w digit digit' (finished n) e h = h
other-IsReading w digit digit' refused e h = h

-- Of two calls of `base62Decode` whose steps are interleaved, neither stepping while the other has yet
-- to add the shared digit that it wrote: a call that has finished has the number that it reads alone,
-- and one that has refused its text refuses it alone.
pub exclusive_lem :
    (digit : ℕ) (s t : Text) (σ : Shared)
    → Exclusive (begun digit s t) σ
    → IsReading s σ.digit σ.left × IsReading t σ.digit σ.right
exclusive_lem digit s t _ here = (refl, refl)
exclusive_lem digit s t _ (by_left {σ} h e) =
    let (l, r) = exclusive_lem digit s t σ h in
    (advance-IsReading s σ.digit σ.left l, other-IsReading t σ.digit _ σ.right e r)
exclusive_lem digit s t _ (by_right {σ} h e) =
    let (l, r) = exclusive_lem digit s t σ h in
    (other-IsReading s σ.digit _ σ.left e l, advance-IsReading t σ.digit σ.right r)

-- The right call writes its digit before the left call adds the one that it wrote.
abbrev pub raced : Shared → Shared
raced σ = step_left (step_right (step_left (step_right (step_left σ))))

-- If a call in its last round has written the shared digit, and another call writes its own before the
-- first adds it, the first finishes with the digit of the other in place of its own.
pub raced_lem :
    (digit n m c d i j : ℕ) (t : Text)
    → digit_of c ≡ some i
    → digit_of d ≡ some j
    → ((raced
          (record { digit = digit; left = scanning n (c ∷ []); right = scanning m (d ∷ t) })).left
        ≡ finished (n * 62 + j))
      × (read_digits n (c ∷ []) ≡ some (n * 62 + i))
unfolding advance read_digits
raced_lem digit n m c d i j t hc hd = (rw (hc, hd) refl, read_digits-cons n c [] (some i) hc)
