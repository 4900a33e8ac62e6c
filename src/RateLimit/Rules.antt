-- ===== src/RateLimit/Rules.antt =====
-- ratelimit/types.go: the limits of a server, with rules that override them for the channels that match
-- a pattern.
use parsec.Channels.Name.{Name}
use parsec.Channels.Pattern.{Pattern, parse_pattern, matches}
use parsec.Common.{
  grow_first, ℕ, ◌+◌, Bool, true, false, not, ◌||◌, List, [], ◌∷◌, ◌≡◌, refl, if◌then◌else◌, ltb,
  ◌==◌, Text, codes, text_eq, text_lt, Map, Bool-cases, inl, inr,
}
use parsec.Errors.{Result, ok, err}
use parsec.RateLimit.{Limit, normalize, unlimited}

pub record ChannelRule : Type 0 where
  pub pattern : Pattern
  pub raw : Text
  pub limit : Limit

pub record RateLimits : Type 0 where
  pub publish : Limit
  pub subscribe : Limit
  pub token_issue : Limit
  pub per_channel_publish : List ChannelRule
  pub per_channel_subscribe : List ChannelRule

-- `patternSegments`: cuts at '.' and at ':'.
unfoldable pub pattern_segments : Text → List Text
pattern_segments [] = [] ∷ []
pattern_segments (c ∷ s) =
    let rest = pattern_segments s in if c == 46 || c == 58 then [] ∷ rest else grow_first c rest

-- The loop of `ruleSpecificity`.
unfoldable pub score_of : List Text → ℕ
score_of [] = 0
score_of (seg ∷ segs) =
    let rest = score_of segs in
    if text_eq seg (codes "**")
    then rest
    else if text_eq seg (codes "*")
    then 1 + rest
    else 4 + rest

-- `ruleSpecificity`, of the text that the pattern was parsed from
unfoldable pub rule_specificity : Text → ℕ
rule_specificity raw = score_of (pattern_segments raw)

-- The comparison of the sort.
abbrev pub goes_before : ChannelRule → ChannelRule → Bool
goes_before p q =
    let m = rule_specificity p.pattern.raw in
    let n = rule_specificity q.pattern.raw in if m == n then text_lt p.raw q.raw else ltb n m

unfoldable pub place : ChannelRule → List ChannelRule → List ChannelRule
place r [] = r ∷ []
place r (x ∷ xs) = let rest = place r xs in if goes_before x r then x ∷ rest else r ∷ x ∷ xs

-- `CompileChannelRules`
unfoldable pub compile_channel_rules : Map Limit → Result (List ChannelRule)
compile_channel_rules [] = ok []
compile_channel_rules ((pat, lim) ∷ raw) =
    let rest = compile_channel_rules raw in
    elim (parse_pattern pat) [
      | err e ↦ err e
      | ok p ↦ elim rest [
        | err e ↦ err e
        | ok rules ↦ ok (place (record { pattern = p; raw = pat; limit = normalize lim }) rules)
      ]
    ]

-- The loop of `MatchPublish` and of `MatchSubscribe`, behind which the default is taken.
unfoldable pub match_rules : Limit → List ChannelRule → Name → Limit × Text
match_rules default [] channel = (default, [])
match_rules default (rule ∷ rules) channel =
    let rest = match_rules default rules channel in
    if matches rule.pattern channel then (rule.limit, rule.raw) else rest

-- `RateLimits.MatchPublish`
unfoldable pub match_publish : RateLimits → Name → Limit × Text
match_publish rl channel = match_rules rl.publish rl.per_channel_publish channel

-- `RateLimits.MatchSubscribe`
unfoldable pub match_subscribe : RateLimits → Name → Limit × Text
match_subscribe rl channel = match_rules rl.subscribe rl.per_channel_subscribe channel

-- The two loops of `RateLimits.Normalize`.
unfoldable pub normalize_rules : List ChannelRule → List ChannelRule
normalize_rules [] = []
normalize_rules (rule ∷ rules) =
    record rule { limit = normalize rule.limit } ∷ normalize_rules rules

-- `RateLimits.Normalize`
unfoldable pub normalize_limits : RateLimits → RateLimits
normalize_limits rl = record {
  publish = normalize rl.publish;
  subscribe = normalize rl.subscribe;
  token_issue = normalize rl.token_issue;
  per_channel_publish = normalize_rules rl.per_channel_publish;
  per_channel_subscribe = normalize_rules rl.per_channel_subscribe;
}

-- The two loops of `RateLimits.Empty`.
unfoldable pub all_unlimited : List ChannelRule → Bool
all_unlimited [] = true
all_unlimited (rule ∷ rules) =
    let rest = all_unlimited rules in if not (unlimited rule.limit) then false else rest

-- `RateLimits.Empty`
unfoldable pub is_empty : RateLimits → Bool
is_empty rl =
    if not (unlimited rl.publish) || not (unlimited rl.subscribe) || not (unlimited rl.token_issue)
    then false
    else if not (all_unlimited rl.per_channel_publish)
    then false
    else all_unlimited rl.per_channel_subscribe

-- Normalizing a server's limits changes neither which rule is chosen for a channel nor the limit chosen,
-- but for its own normalization.
normalize-match_rules :
    (default : Limit) (rules : List ChannelRule) (channel : Name)
    → match_rules (normalize default) (normalize_rules rules) channel
      ≡ (normalize (match_rules default rules channel).0, (match_rules default rules channel).1)
unfolding match_rules normalize_rules
normalize-match_rules default [] channel = refl
normalize-match_rules default (rule ∷ rules) channel =
    elim (Bool-cases (matches rule.pattern channel)) [
      | inl e ↦ rw (e, match_rules) refl
      | inr e ↦ rw (e, match_rules) (normalize-match_rules default rules channel)
    ]
