-- ===== src/RateLimit.antt =====
-- ratelimit/memory.go and the type Limit of ratelimit/types.go: a sliding window of events for each
-- key. The clock's reading is an argument of each method, and the error of the context, which is not
-- code of this repository, is a flag.
pub mod Rules
pub mod Window
pub mod Normal
pub mod Sweeping
use parsec.Common.{
  ℕ, ◌+◌, ◌-◌, ◌*◌, ◌^◌, Bool, true, false, ◌&&◌, List, [], ◌∷◌, ◌++◌, Option, none, some,
  if◌then◌else◌, ltb, ◌==◌, length, replicate, Text, Map, lookup, insert, ℤ, pos, negsuc, pos_part,
  ltb_ℤ, is_zero,
}

pub record Limit : Type 0 where
  pub rate : ℤ
  -- nanoseconds
  pub per : ℤ
  pub burst : ℤ

-- `if n < 0 { n = 0 }`
pub clamp : ℤ → ℤ
clamp n = if ltb_ℤ n (pos 0) then pos 0 else n

-- `Limit.Normalize`
unfoldable pub normalize : Limit → Limit
unfolding clamp
normalize l =
    let rate = clamp l.rate in
    let burst = clamp l.burst in
    let per = clamp l.per in
    let per' = if ltb_ℤ (pos 0) rate && is_zero per then pos (10 ^ 9) else per in
    let burst' = if is_zero burst then rate else burst in
    record { rate = rate; per = per'; burst = if ltb_ℤ burst' rate then rate else burst' }

-- `Limit.Unlimited`
unfoldable pub unlimited : Limit → Bool
unfolding normalize
unlimited l = is_zero (normalize l).rate

pub record Decision : Type 0 where
  pub allowed : Bool
  pub remaining : ℤ
  pub reset : ℕ

abbrev pub allow_decision_unlimited : Decision
allow_decision_unlimited = record { allowed = true; remaining = negsuc 0; reset = 0 }

-- `limit` was normalized by the constructor.
pub record MemoryLimiter : Type 0 where
  pub limit : Limit
  pub buckets : Map (List ℕ)

-- `NewMemoryLimiter`
unfoldable pub new_memory_limiter : Limit → MemoryLimiter
unfolding normalize
new_memory_limiter l = record { limit = normalize l; buckets = [] }

-- The loop over `drop`: the events in front that lie before `now - per` go.
unfoldable pub drop_old : ℕ → ℕ → List ℕ → List ℕ
drop_old now per [] = []
drop_old now per (e ∷ events) =
    let rest = drop_old now per events in if ltb (e + per) now then rest else e ∷ events

-- `b.events[0].Add(lim.Per).Sub(now)`, not below 0, or 0 for an empty bucket
unfoldable pub reset_of : ℕ → ℕ → List ℕ → ℕ
reset_of now per [] = 0
reset_of now per (e ∷ events) = e + per - now

-- `ceiling` for a normalized limit.
unfoldable pub ceiling : Limit → ℕ
ceiling lim = if ltb_ℤ lim.burst lim.rate then pos_part lim.rate else pos_part lim.burst

-- `AllowWithLimit` on one bucket, for a normalized limit: from the drop of old events on.
unfoldable pub charge : ℕ → Limit → ℕ → List ℕ → List ℕ × Decision
unfolding drop_old reset_of ceiling
charge now lim n events =
    let per = pos_part lim.per in
    let live = drop_old now per events in
    if ltb (ceiling lim) (length live + n)
    then (live, record { allowed = false; remaining = pos 0; reset = reset_of now per live })
    else let full = live ++ replicate n now in
      (
        full,
        record {
          allowed = true;
          remaining = pos (ceiling lim - length full);
          reset = reset_of now per full;
        },
      )

unfoldable pub bucket_of : Option (List ℕ) → List ℕ
bucket_of none = []
bucket_of (some events) = events

-- `if n <= 0 { n = 1 }`
unfoldable pub charged : ℤ → ℕ
charged n = if ltb_ℤ (pos 0) n then pos_part n else 1

-- `AllowWithLimit`; `done` tells that the context is, and then an error is returned.
unfoldable pub allow_with_limit :
    Bool → Text → ℤ → Limit → ℕ → MemoryLimiter → MemoryLimiter × Option Decision
unfolding normalize unlimited charge bucket_of charged
allow_with_limit done key n lim now m =
    let lim' = normalize lim in
    let (events, decision) = charge now lim' (charged n) (bucket_of (lookup key m.buckets)) in
    if done
    then (m, none)
    else if unlimited lim'
    then (m, some allow_decision_unlimited)
    else (record m { buckets = insert key events m.buckets }, some decision)

-- `MemoryLimiter.Allow`
unfoldable pub allow : Bool → Text → ℤ → ℕ → MemoryLimiter → MemoryLimiter × Option Decision
unfolding allow_with_limit
allow done key n now m = allow_with_limit done key n m.limit now m

-- The loop of `Sweep`, with the buckets that stay and the number of those that go.
pub sweep_buckets : ℕ → ℕ → Map (List ℕ) → Map (List ℕ) × ℕ
unfolding drop_old
sweep_buckets now per [] = ([], 0)
sweep_buckets now per ((key, events) ∷ buckets) =
    let live = drop_old now per events in
    let (kept, removed) = sweep_buckets now per buckets in
    if length live == 0 then (kept, removed + 1) else ((key, live) ∷ kept, removed)

-- `MemoryLimiter.Sweep`
unfoldable pub sweep : ℕ → MemoryLimiter → MemoryLimiter × ℕ
unfolding sweep_buckets
sweep now m =
    let (kept, removed) = sweep_buckets now (pos_part m.limit.per) m.buckets in
    (record m { buckets = kept }, removed)
