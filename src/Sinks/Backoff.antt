-- ===== src/Sinks/Backoff.antt =====
-- The waits between attempts, up to their jitter.
use native.Mathlib.Nat.{pow-le-pow_right, one-le-pow, mul-le-mul_left}
use parsec.Common.{
  ℕ, ◌-◌, ◌*◌, ◌^◌, ◌≤◌, ◌<◌, ◌≡◌, arith, ltb, ℤ, pos, negsuc, pos_part, if◌then◌else◌,
}
use parsec.Sinks.{Floats, RetryConfig, normalize, positive_or, at_least, grown, second}

-- What the integer part of a normalized configuration looks like.
pub record IsNormal {fl : Floats} (c : RetryConfig fl) : Type 0 where
  pub max_attempts : 0 < pos_part c.max_attempts
  pub base_backoff : 0 < pos_part c.base_backoff
  pub max_backoff : pos_part c.base_backoff ≤ pos_part c.max_backoff

positive : (n : ℤ) (d : ℕ) → 0 < d → 0 < pos_part (positive_or n d)
positive n d h = ground arith

not_below :
    (least n : ℤ)
    → 0 < pos_part least
    → 0 < pos_part n
    → pos_part least ≤ pos_part (at_least least n)
not_below (pos a) (pos b) h l = ground arith
not_below (pos a) (negsuc b) h l = ground arith
not_below (negsuc a) n h l = ground arith

pub normalize-IsNormal : {fl : Floats} (c : RetryConfig fl) → IsNormal (normalize c)
unfolding normalize
normalize-IsNormal c =
    let base = positive c.base_backoff second (omega arith) in
    record {
      max_attempts = positive c.max_attempts 5 (omega arith);
      base_backoff = base;
      max_backoff =
          not_below (positive_or c.base_backoff second) (positive_or c.max_backoff (30 * second))
            base (positive c.max_backoff (30 * second) (omega arith));
    }

exponent_le :
    (a b : ℕ)
    → a ≤ b
    → (if ltb 30 (a - 2) then 30 else a - 2) ≤ (if ltb 30 (b - 2) then 30 else b - 2)
exponent_le a b h = ground arith

capped_le : (m x y : ℕ) → x ≤ y → (if ltb m x then m else x) ≤ (if ltb m y then m else y)
capped_le m x y h = ground arith

capped_bounds :
    (m b x : ℕ)
    → b ≤ m
    → b ≤ x
    → (b ≤ (if ltb m x then m else x)) × ((if ltb m x then m else x) ≤ m)
capped_bounds m b x h l = ground arith

grown_bounds :
    {fl : Floats} (c : RetryConfig fl) (attempt : ℕ)
    → IsNormal c
    → (pos_part c.base_backoff ≤ grown c attempt) × (grown c attempt ≤ pos_part c.max_backoff)
unfolding grown
grown_bounds c attempt n =
    let e = if ltb 30 (attempt - 2) then 30 else attempt - 2 in
    let p : 1 ≤ 2 ^ e = one-le-pow e 2 (omega arith) in
    let q : pos_part c.base_backoff * 1 ≤ pos_part c.base_backoff * 2 ^ e =
      mul-le-mul_left (pos_part c.base_backoff) p in
    capped_bounds (pos_part c.max_backoff) (pos_part c.base_backoff) _ n.max_backoff
      (omega (arith, q))

grown_le : {fl : Floats} (c : RetryConfig fl) (a b : ℕ) → a ≤ b → grown c a ≤ grown c b
unfolding grown
grown_le c a b h = capped_le _ _ _ (
    mul-le-mul_left (pos_part c.base_backoff)
      (pow-le-pow_right {n = 2} (omega arith) (exponent_le a b h)))

grown_first : {fl : Floats} (c : RetryConfig fl) → IsNormal c → grown c 2 ≡ pos_part c.base_backoff
unfolding grown
grown_first c n = ground (arith, n.max_backoff)

-- Of any configuration, once normalized, the waits before their jitter never shrink from one attempt
-- to a later one and all lie between the base and the maximal backoff, both positive, and the wait in
-- front of the second attempt is the base.
pub backoff_lem :
    {fl : Floats} (c : RetryConfig fl) (a b : ℕ)
    → a ≤ b
    → let c' = normalize c in
      (0 < pos_part c'.base_backoff)
      × (pos_part c'.base_backoff ≤ grown c' a)
      × (grown c' a ≤ grown c' b)
      × (grown c' b ≤ pos_part c'.max_backoff)
      × (grown c' 2 ≡ pos_part c'.base_backoff)
backoff_lem c a b h =
    let n = normalize-IsNormal c in
    (
      n.base_backoff,
      (grown_bounds (normalize c) a n).0,
      grown_le (normalize c) a b h,
      (grown_bounds (normalize c) b n).1,
      grown_first (normalize c) n,
    )
