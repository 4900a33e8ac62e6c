-- ===== src/Sinks.antt =====
-- sinks/retry.go: the retry loop in front of a sink, and its configuration. A time.Duration is an
-- integer number of nanoseconds.
pub mod Queue
pub mod Delivery
pub mod Attempts
pub mod Letters
pub mod Backoff
pub mod Listing
use parsec.Common.{
  ℕ, zero, suc, ◌+◌, ◌-◌, ◌*◌, ◌^◌, Bool, true, false, not, ◌||◌, Option, none, some, if◌then◌else◌,
  ltb, leb, Text, ℤ, pos, negsuc, pos_part, ltb_ℤ, is_zero,
}

-- What the configuration uses of float64.
pub record Floats : Type 1 where
  pub F : Type 0
  -- `a < b`
  pub below : F → F → Bool
  -- `a == 0`
  pub is_zero_float : F → Bool
  pub zero_float : F
  pub one_float : F
  -- `0.2`
  pub fifth : F

pub record RetryConfig (fl : Floats) : Type 0 where
  pub max_attempts : ℤ
  pub base_backoff : ℤ
  pub max_backoff : ℤ
  pub jitter_fraction : fl.F

abbrev pub second : ℕ
second = 1000000000

-- `if n <= 0 { n = d }`
abbrev pub positive_or : ℤ → ℕ → ℤ
positive_or n d = if ltb_ℤ (pos 0) n then n else pos d

-- `if c.MaxBackoff < c.BaseBackoff { c.MaxBackoff = c.BaseBackoff }`
abbrev pub at_least : ℤ → ℤ → ℤ
at_least least n = if ltb_ℤ n least then least else n

-- The three tests on `c.JitterFraction`.
unfoldable pub normal_fraction : (fl : Floats) → fl.F → fl.F
normal_fraction fl j =
    let j' = if fl.below j fl.zero_float then fl.zero_float else j in
    let j'' = if fl.below fl.one_float j' then fl.one_float else j' in
    if fl.is_zero_float j'' then fl.fifth else j''

module _ {fl : Floats} where
  -- `RetryConfig.Normalize`
  unfoldable pub normalize : RetryConfig fl → RetryConfig fl
  normalize c =
      let base = positive_or c.base_backoff second in
      record {
        max_attempts = positive_or c.max_attempts 5;
        base_backoff = base;
        max_backoff = at_least base (positive_or c.max_backoff (30 * second));
        jitter_fraction = normal_fraction fl c.jitter_fraction;
      }

  -- `RetryConfig.BackoffFor` up to the jitter: `grown` as a number of nanoseconds.
  unfoldable pub grown : RetryConfig fl → ℕ → ℕ
  grown c attempt =
      let exp = if ltb 30 (attempt - 2) then 30 else attempt - 2 in
      let whole = pos_part c.base_backoff * 2 ^ exp in
      if ltb (pos_part c.max_backoff) whole then pos_part c.max_backoff else whole

  -- `RetryConfig.BackoffFor`. The random factor is the argument: what it makes of a fraction and a
  -- wait.
  unfoldable pub backoff_for : (fl.F → ℕ → ℕ) → RetryConfig fl → ℕ → ℕ
  backoff_for jittered c attempt =
      let c' = normalize c in
      if leb attempt 1 then 0 else jittered c'.jitter_fraction (grown c' attempt)

-- What happens around one call of `Send`, by the number of the attempt, with errors in `E`.
pub record World (fl : Floats) (E : Type 0) : Type 0 where
  -- what `r.Inner.Send` returns
  pub reply : ℕ → Option E
  -- the random factor of the wait before the attempt
  pub jittered : ℕ → fl.F → ℕ → ℕ
  -- `ctx.Err()`, where `ctx.Done()` is chosen during the wait before the attempt
  pub interrupted : ℕ → Option E
  -- `ctx.Err()` behind the attempt
  pub cancelled : ℕ → Option E

-- How the loop is left.
pub data Exit (E : Type 0) : Type 0 where
  -- `return nil`
  delivered : Exit E
  -- `r.recordFailure` with this number of attempts and this error
  failed : ℕ → Option E → Exit E

module _ {fl : Floats} {E : Type 0} where
  -- The wait before an attempt, `none` if it ends with the time.
  unfoldable pub wait_before : World fl E → RetryConfig fl → ℕ → Option E
  wait_before w cfg attempt =
      if ltb 1 attempt
      then if ltb 0 (backoff_for (w.jittered attempt) cfg attempt)
        then w.interrupted attempt
        else none
      else none

  -- The loop of `Retrier.Send` from one attempt on: the calls of `r.Inner.Send` that it makes, and
  -- how it is left. `none` is out of fuel.
  unfoldable pub send_from :
      RetryConfig fl → (E → Bool) → World fl E → ℕ → ℕ → Option E → Option (ℕ × Exit E)
  unfolding wait_before
  send_from cfg classify w zero attempt last = none
  send_from cfg classify w (suc fuel) attempt last =
      let rest : E → Option (ℕ × Exit E) =
        λ err. send_from cfg classify w fuel (attempt + 1) (some err) in
      if leb attempt (pos_part cfg.max_attempts)
      then elim (wait_before w cfg attempt) [
        | some e ↦ some (0, failed (attempt - 1) (some e))
        | none ↦ elim (w.reply attempt) [
          | none ↦ some (1, delivered)
          | some err ↦ elim (w.cancelled attempt) [
            | some e ↦ some (1, failed attempt (some e))
            | none ↦
                if classify err
                then elim (rest err) [ none ↦ none | some (calls, exit) ↦ some (calls + 1, exit) ]
                else some (1, failed (attempt - 1) (some err))
          ]
        ]
      ]
      else some (0, failed (attempt - 1) last)

  -- `Retrier.Send` up to the recording of a failure; fuel for every attempt and for the test that
  -- ends the loop.
  unfoldable pub send_attempts : RetryConfig fl → (E → Bool) → World fl E → Option (ℕ × Exit E)
  unfolding send_from
  send_attempts c classify w =
      let cfg = normalize c in send_from cfg classify w (pos_part cfg.max_attempts + 1) 1 none
