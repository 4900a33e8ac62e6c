-- ===== src/Tests/Limits.antt =====
-- The theorems on rate limits, with two events per ten time units.
use parsec.Common.{
  ℕ, ◌≤◌, false, List, [], ◌∷◌, ◌≡◌, refl, arith, none, Text, codes, lookup, ℤ, pos, negsuc,
  pos_part,
}
use parsec.RateLimit.Window
use parsec.RateLimit.Window.{recent, window_bound}
use parsec.RateLimit.{Limit, MemoryLimiter, normalize, unlimited, ceiling}

abbrev two_per_ten : Limit
two_per_ten = record { rate = pos 2; per = pos 10; burst = pos 2 }

normal : normalize two_per_ten ≡ two_per_ten
unfolding normalize
normal = refl

limited : unlimited (normalize two_per_ten) ≡ false
unfolding unlimited
limited = refl

abbrev crowd : List (ℕ × (Text × ℤ))
crowd =
    (5, (codes "a", pos 1))
    ∷ (6, (codes "b", pos 2))
    ∷ (7, (codes "a", negsuc 0))
    ∷ (9, (codes "a", pos 1))
    ∷ (16, (codes "a", pos 1))
    ∷ []

abbrev quiet : MemoryLimiter
quiet = record { limit = two_per_ten; buckets = [] }

quiet_absent : lookup (codes "a") quiet.buckets ≡ none
unfolding lookup
quiet_absent = refl

window_bound_example :
    recent 17
      (pos_part (normalize two_per_ten).per)
      (Window.run two_per_ten (codes "a") crowd quiet).1
    ≤ ceiling (normalize two_per_ten)
window_bound_example =
    window_bound two_per_ten (codes "a") crowd quiet 17 limited quiet_absent (ground arith)

abbrev used : MemoryLimiter
used = record { limit = two_per_ten; buckets = (codes "a", 1 ∷ 5 ∷ []) ∷ (codes "b", 2 ∷ []) ∷ [] }
