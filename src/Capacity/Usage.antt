-- ===== src/Capacity/Usage.antt =====
-- The arithmetic of a pool's usage: what a charge and a refund do within 64 bits.
use leo_runners.Base.{◌+◌, ◌^◌, ◌<◌, ◌≡◌, true, false, arith}
use leo_runners.Base.Int.{ℤ, pos, add64, sub64, ◌≤ℤ◌, ltb_ℤ, pos_part}
use leo_runners.Capacity.Validation.{Within}
use leo_runners.Capacity.Registry.{has_room}

-- An amount, and a sum with it, within 64 bits.
abbrev pub Sums : ℤ → ℤ → Type 0
Sums used amount = pos_part used + pos_part amount < 2 ^ 63

pub add64-Within :
    (max used amount : ℤ)
    → Within max used
    → pos 0 ≤ℤ amount
    → Sums used amount
    → has_room max used amount ≡ true
    → Within max (add64 used amount)
unfolding add64
add64-Within max used amount w nonneg sums room = ground arith

pub sub64-Within :
    (max used amount : ℤ)
    → Within max used
    → pos 0 ≤ℤ amount
    → Sums used (pos 0)
    → ltb_ℤ used amount ≡ false
    → Within max (sub64 used amount)
unfolding sub64
sub64-Within max used amount w nonneg sums enough = ground arith

pub sub64-add64 :
    (used amount : ℤ)
    → pos 0 ≤ℤ used
    → pos 0 ≤ℤ amount
    → Sums used amount
    → sub64 (add64 used amount) amount ≡ used
unfolding add64 sub64
sub64-add64 used amount a b sums = ground arith
