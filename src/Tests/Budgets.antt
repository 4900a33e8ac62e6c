-- ===== src/Tests/Budgets.antt =====
-- The theorems on the budgets of a server with one rule for publishing.
use parsec.Channels.Name.Parsing.{named}
use parsec.Channels.Name.{Name, visibility_public, all_component_bytes, is_component_byte}
use parsec.Channels.Pattern.Parsing.{parse_pattern_iff}
use parsec.Channels.Pattern.{Pattern, parse_pattern, literal, single_star}
use parsec.Common.{ℕ, false, [], ◌∷◌, ◌≡◌, ◌≢◌, inl, inr, refl, ap, none, some, Text, codes, pos}
use parsec.Errors.{ok}
use parsec.Facade.Limits.Budgets.{IsBudget, account, budgets_are_apart}
use parsec.Facade.Limits.{no_limit, budget_bucket, budget_publish, bucket_of_budget, check_limit}
use parsec.RateLimit.Rules.{RateLimits}
use parsec.RateLimit.{Limit, MemoryLimiter}

abbrev limit : ℕ → Limit
limit n = record { rate = pos n; per = pos 1000; burst = pos n }

abbrev chats : Pattern
chats = record {
  raw = codes "public:chat.*";
  visibility = codes "public";
  segs = literal (codes "chat") ∷ single_star ∷ [];
}

abbrev limits : RateLimits
limits = record {
  publish = limit 5;
  subscribe = limit 7;
  token_issue = no_limit;
  per_channel_publish =
      record { pattern = chats; raw = codes "public:chat.*"; limit = limit 2 } ∷ [];
  per_channel_subscribe = [];
}

chats_parse : parse_pattern (codes "public:chat.*") ≡ ok chats
unfolding parse_pattern all_component_bytes is_component_byte
chats_parse = refl

abbrev hall : Name
hall = named visibility_public (codes "chat") (codes "hall") [] []

abbrev limiter : MemoryLimiter
limiter = record { limit = limit 7; buckets = [] }

other_bucket :
    account limits (budget_publish hall) (codes "ann")
    ≢ account limits (budget_bucket (codes "subscribe")) (codes "ann")
unfolding bucket_of_budget
other_bucket h = cc (ap (λ (x : Text × Text × Text). x.0) h)

publishes : IsBudget (budget_publish hall)
unfolding bucket_of_budget
publishes = inl refl

subscribes : IsBudget (budget_bucket (codes "subscribe"))
unfolding bucket_of_budget
subscribes = inr (inl refl)

budgets_are_apart_example :
    (check_limit limits false
      (budget_bucket (codes "subscribe"))
      (codes "ann")
      none
      9
      (check_limit limits false
        (budget_publish hall)
        (codes "ann")
        (some (limit 1))
        8
        (some limiter)).0).1
    ≡ (check_limit limits false
        (budget_bucket (codes "subscribe"))
        (codes "ann")
        none
        9
        (some limiter)).1
budgets_are_apart_example =
    budgets_are_apart limits (budget_publish hall) (budget_bucket (codes "subscribe")) (codes "ann")
      (codes "ann") (some (limit 1)) none false false 8 9 limiter
      ((((parse_pattern_iff (codes "public:chat.*") chats).0 chats_parse, tt)), tt) publishes
      subscribes other_bucket
