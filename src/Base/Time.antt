-- ===== src/Base/Time.antt =====
-- `time.Time` as the signed count of nanoseconds from Go's zero time (1 January of the year 1,
-- UTC), so that the zero time is 0. Locations and monotonic readings are not in it: the program
-- compares instants only, and `UTC` keeps the instant. Instants do not wrap.
use mathlib.Core.Bool.{Bool, not, ◌&&◌}
use mathlib.Core.Bool.{true, false}
use mathlib.Core.Path.{◌≡◌}
use native.Mathlib.Omega.{arith}
use leo_runners.Base.Int.{ℤ, pos, ◌+ℤ◌, ltb_ℤ, leb_ℤ, eqb_ℤ}

abbrev pub Time : Type 0
Time = ℤ

-- Nanoseconds; a 64-bit integer in Go.
abbrev pub Duration : Type 0
Duration = ℤ

abbrev pub zero_time : Time
zero_time = pos 0

abbrev pub is_zero : Time → Bool
is_zero t = eqb_ℤ t zero_time

abbrev pub before : Time → Time → Bool
before a b = ltb_ℤ a b

abbrev pub after : Time → Time → Bool
after a b = ltb_ℤ b a

unfoldable pub add : Time → Duration → Time
unfolding ◌+ℤ◌
add t d = t +ℤ d

-- `!e.IsZero() && !e.After(now)`: the test for an expired record.
abbrev pub expired : Time → Time → Bool
expired e now = not (is_zero e) && not (after e now)

-- A positive duration leads into the future.
pub before-add : (t : Time) (d : Duration) → leb_ℤ d (pos 0) ≡ false → before t (add t d) ≡ true
unfolding add
before-add t d h = ground arith
