-- ===== src/Facade/Limits.antt =====
-- parsec.go: the budgets of rate limits, over the memory limiter, which takes a limit at each call. The
-- metrics are left out. `done` tells that the context is, and `none` for a decision stands for the
-- limiter's error.
pub mod Budgets
pub mod Widest
use parsec.Auth.SubscribeAuthorizer.{Gate, gate_answer}
use parsec.Channels.Name.{Name}
use parsec.Common.{
  ℕ, Bool, true, false, not, ◌&&◌, ◌||◌, List, [], ◌∷◌, ◌++◌, Option, none, some, if◌then◌else◌,
  ltb, ◌==◌, length, Text, codes, text_eq, ℤ, pos, ltb_ℤ, is_zero,
}
use parsec.Errors.{Result, ok, err, internal, rate_limited}
use parsec.RateLimit.Rules.{
  ChannelRule, RateLimits, match_publish, match_subscribe, normalize_limits, is_empty,
}
use parsec.RateLimit.{
  Limit, normalize, unlimited, Decision, allow_decision_unlimited, MemoryLimiter,
  new_memory_limiter, allow_with_limit,
}

-- `BucketPublish`, `BucketSubscribe` and `BucketTokenIssue`
abbrev pub bucket_publish : Text
bucket_publish = codes "publish"

abbrev pub bucket_subscribe : Text
bucket_subscribe = codes "subscribe"

abbrev pub bucket_token_issue : Text
bucket_token_issue = codes "token-issue"

-- The zero value.
abbrev pub no_limit : Limit
no_limit = record { rate = pos 0; per = pos 0; burst = pos 0 }

-- One round of the loop of `widestLimit`, with the normalized candidate.
unfoldable pub wider : Limit → Limit → Limit
wider best n =
    if is_zero n.rate
    then best
    else if ltb_ℤ best.burst n.burst || is_zero best.rate
    then n
    else best

unfoldable pub widest_of : Limit → List Limit → Limit
unfolding wider
widest_of best [] = best
widest_of best (l ∷ limits) = widest_of (wider best (normalize l)) limits

unfoldable pub limits_of : List ChannelRule → List Limit
limits_of [] = []
limits_of (rule ∷ rules) = rule.limit ∷ limits_of rules

-- The slice `candidates` of `widestLimit`.
unfoldable pub candidates : RateLimits → List Limit
unfolding limits_of
candidates rl =
    (rl.publish ∷ rl.subscribe ∷ rl.token_issue ∷ [])
    ++ limits_of rl.per_channel_publish
    ++ limits_of rl.per_channel_subscribe

-- `widestLimit`
unfoldable pub widest_limit : RateLimits → Limit
unfolding widest_of candidates
widest_limit rl = widest_of no_limit (candidates rl)

-- `resolveLimiter` without a limiter of the options and without Redis
unfoldable pub resolve_limiter : RateLimits → Option MemoryLimiter × RateLimits
unfolding normalize_limits is_empty widest_limit
resolve_limiter limits =
    let rl = normalize_limits limits in
    if is_empty rl then (none, rl) else (some (new_memory_limiter (widest_limit rl)), rl)

-- `if override != nil && !override.Unlimited()`
unfoldable pub effective_limit : Limit → Option Limit → Limit
unfolding unlimited normalize
effective_limit default none = default
effective_limit default (some override) =
    if not (unlimited override) then normalize override else default

-- `keyPrefix`
unfoldable pub key_prefix : Text → Text → Text
key_prefix bucket rule_raw =
    if not (text_eq rule_raw []) then bucket ++ codes "-channel:" ++ rule_raw else bucket

-- The end of the three checks: an event is charged to `key`.
unfoldable pub charge_key :
    Bool → Text → Limit → ℕ → MemoryLimiter → MemoryLimiter × Option Decision
unfolding unlimited allow_with_limit
charge_key done key effective now m =
    let (m', d) = allow_with_limit done key (pos 1) effective now m in
    if unlimited effective then (m, some allow_decision_unlimited) else (m', d)

-- `rateLimitForBucket`
unfoldable pub rate_limit_for_bucket : RateLimits → Text → Limit
rate_limit_for_bucket rl bucket =
    if text_eq bucket bucket_publish
    then rl.publish
    else if text_eq bucket bucket_subscribe
    then rl.subscribe
    else if text_eq bucket bucket_token_issue
    then rl.token_issue
    else no_limit

-- What the facade charges an event to.
pub data Budget : Type 0 where
  budget_bucket : Text → Budget
  budget_publish budget_subscribe : Name → Budget

-- The bucket of a budget, its limit, and the text of the rule that it comes from.
unfoldable pub bucket_of_budget : Budget → Text
bucket_of_budget (budget_bucket bucket) = bucket
bucket_of_budget (budget_publish channel) = bucket_publish
bucket_of_budget (budget_subscribe channel) = bucket_subscribe

unfoldable pub budget_limit : RateLimits → Budget → Limit × Text
unfolding rate_limit_for_bucket match_publish match_subscribe
budget_limit rl (budget_bucket bucket) = (rate_limit_for_bucket rl bucket, [])
budget_limit rl (budget_publish channel) = match_publish rl channel
budget_limit rl (budget_subscribe channel) = match_subscribe rl channel

-- `keyPrefix + ":" + subject`
unfoldable pub key_of : Text → Text → Text → Text
unfolding key_prefix
key_of bucket rule_raw subject = key_prefix bucket rule_raw ++ b':' ∷ subject

-- `CheckRateLimit`, `CheckPublishLimit` and `CheckSubscribeLimit` for a budget of each kind; there may
-- be no limiter.
unfoldable pub check_limit :
    RateLimits
    → Bool
    → Budget
    → Text
    → Option Limit
    → ℕ
    → Option MemoryLimiter
    → Option MemoryLimiter × Option Decision
unfolding budget_limit bucket_of_budget key_of effective_limit charge_key
check_limit rl done budget subject override now none = (none, some allow_decision_unlimited)
check_limit rl done budget subject override now (some m) =
    let (limit, rule_raw) = budget_limit rl budget in
    let key = key_of (bucket_of_budget budget) rule_raw subject in
    let (m', d) = charge_key done key (effective_limit limit override) now m in (some m', d)

-- The function that `buildSubscribeGate` returns.
unfoldable pub subscribe_gate : RateLimits → Bool → ℕ → Gate MemoryLimiter
unfolding match_subscribe key_of unlimited allow_with_limit gate_answer
subscribe_gate rl done now user_id ch m =
    let (effective, rule_raw) = match_subscribe rl ch in
    let key = key_of bucket_subscribe rule_raw user_id in
    let (m', d) = allow_with_limit done key (pos 1) effective now m in
    if text_eq user_id []
    then (m, ok tt)
    else if unlimited effective
    then (m, ok tt)
    else (m', gate_answer d)

-- `buildSubscribeGate`
unfoldable pub build_subscribe_gate :
    Option MemoryLimiter → RateLimits → Bool → ℕ → Option (Gate MemoryLimiter)
unfolding subscribe_gate unlimited
build_subscribe_gate none rl done now = none
build_subscribe_gate (some m) rl done now =
    let any_rule = ltb 0 (length rl.per_channel_subscribe) in
    if unlimited rl.subscribe && not any_rule then none else some (subscribe_gate rl done now)
