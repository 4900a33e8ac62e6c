-- ===== src/Common/Ints.antt =====
-- Signed integers, for durations. `negsuc n` is -(n + 1).
use Prim.Native.Nat.{ℕ, suc, ◌+◌, ◌-◌, ◌<◌}
use mathlib.Core.Bool.{Bool, true}
use mathlib.Core.Logic.{◌↔◌}
use mathlib.Core.Path.{◌≡◌}
use native.Mathlib.Omega.{arith}
use parsec.Common.Tests.{ltb, ◌==◌, leb, if◌then◌else◌}

pub data ℤ : Type 0 where
  pos : ℕ → ℤ
  negsuc : ℕ → ℤ

abbrev pub pos_part : ℤ → ℕ
pos_part (pos n) = n
pos_part (negsuc n) = 0

abbrev pub neg_part : ℤ → ℕ
neg_part (pos n) = 0
neg_part (negsuc n) = suc n

-- `a.Sub(b)` of two times: a - b as an integer.
abbrev pub sub_ℕ : ℕ → ℕ → ℤ
sub_ℕ a b = if leb b a then pos (a - b) else negsuc (b - a - 1)

abbrev pub ltb_ℤ : ℤ → ℤ → Bool
ltb_ℤ a b = ltb (pos_part a + neg_part b) (pos_part b + neg_part a)

-- `n == 0`
abbrev pub is_zero : ℤ → Bool
is_zero n = pos_part n + neg_part n == 0

-- The difference of two times lies below a duration exactly if the earlier one, put off by the
-- duration, lies ahead.
pub ltb_ℤ-sub_iff :
    (a b : ℕ) (d : ℤ) → (ltb_ℤ (sub_ℕ a b) d ≡ true) ↔ (a + neg_part d < b + pos_part d)
ltb_ℤ-sub_iff a b d = ground arith
