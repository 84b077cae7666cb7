-- ===== src/Jwt/Time.antt =====
-- What jwt/ uses of Go's package time: instants as seconds since the year 1, in 64 bits with their
-- wrap-around, and nanoseconds; durations as nanoseconds in 64 bits.
use libauth.Prelude.{
  arith, leb, ltb, nat_eq, ◌≡◌, ◌-◌, if◌then◌else◌, ◌||◌, ◌&&◌, ◌%◌, ◌/◌, ℕ, Bool, suc,
}
use libauth.Prelude.Int.{wrap64_undo, neg, IsInt64, ◌+ℤ◌, ltb_ℤ, wrap64, eq_ℤ, ℤ, pos, negsuc}

pub record Time : Type 0 where
  pub sec : ℤ
  pub nsec : ℕ

-- `time.Time{}`
abbrev pub zero_time : Time
zero_time = record { sec = pos 0; nsec = 0 }

abbrev pub is_zero : Time → Bool
is_zero t = eq_ℤ t.sec (pos 0) && nat_eq t.nsec 0

abbrev pub unix_to_internal : ℤ
unix_to_internal = pos 62135596800

-- `t.Unix()`
unfoldable pub unix : Time → ℤ
unix t = wrap64 (t.sec +ℤ neg unix_to_internal)

-- `time.Unix(seconds, 0)`
unfoldable pub at_unix : ℤ → Time
at_unix s = record { sec = wrap64 (s +ℤ unix_to_internal); nsec = 0 }

abbrev pub before : Time → Time → Bool
before t u = ltb_ℤ t.sec u.sec || (eq_ℤ t.sec u.sec && ltb t.nsec u.nsec)

abbrev pub after : Time → Time → Bool
after t u = before u t

-- Division by the nanoseconds of a second, rounded to zero, and the rest.
abbrev pub whole_seconds : ℤ → ℤ
whole_seconds (pos n) = pos (n / 1000000000)
whole_seconds (negsuc n) = neg (pos (suc n / 1000000000))

abbrev pub rest_nanos : ℤ → ℤ
rest_nanos (pos n) = pos (n % 1000000000)
rest_nanos (negsuc n) = neg (pos (suc n % 1000000000))

-- A sum of seconds that stops at the bounds.
abbrev pub add_sec : ℤ → ℤ → ℤ
add_sec sec d =
    let sum = sec +ℤ d in
    if ltb_ℤ (pos 9223372036854775807) sum
    then pos 9223372036854775807
    else if ltb_ℤ sum (negsuc 9223372036854775807)
    then negsuc 9223372036854775806
    else sum

-- The nanoseconds brought back into their range, with a carry.
abbrev pub carried : Time → ℤ → ℤ → Time
carried t dsec (negsuc n) = record {
  sec = add_sec t.sec (dsec +ℤ negsuc 0);
  nsec = 1000000000 - suc n;
}
carried t dsec (pos n) =
    if leb 1000000000 n
    then record { sec = add_sec t.sec (dsec +ℤ pos 1); nsec = n - 1000000000 }
    else record { sec = add_sec t.sec dsec; nsec = n }

-- `t.Add(d)`
unfoldable pub add : Time → ℤ → Time
add t d = carried t (whole_seconds d) (pos t.nsec +ℤ rest_nanos d)

-- `-d`, of a duration.
abbrev pub negated : ℤ → ℤ
negated d = wrap64 (neg d)

-- Seconds are read back, with the wrap-around in between.
pub unix-at_unix : (s : ℤ) → IsInt64 s → unix (at_unix s) ≡ s
unfolding unix at_unix
unix-at_unix s h = wrap64_undo s unix_to_internal h (omega arith, omega arith)
