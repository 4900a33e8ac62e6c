-- ===== src/TokenBroker/Roles.antt =====
-- tokenbroker/broker.go: `RoleAuthorizer`. The roles of a user are a parameter.
use parsec.Common.{
  grow_first, Bool, true, false, not, ◌||◌, List, [], ◌∷◌, Option, none, some, if◌then◌else◌, Text,
  codes, text_eq, ◌==◌, Map, lookup,
}
use parsec.TokenBroker.{AuthDecision}

-- `splitChannelSegs`: cuts at '.' and at ':'.
unfoldable pub split_channel_segs : Text → List Text
split_channel_segs [] = [] ∷ []
split_channel_segs (c ∷ s) =
    let rest = split_channel_segs s in if c == 46 || c == 58 then [] ∷ rest else grow_first c rest

abbrev pub star : Text
star = codes "*"

abbrev pub double_star : Text
double_star = codes "**"

-- The loop of `matchSimple` over the segments that are left; the test `i <= len(nSegs)` holds whenever
-- it is reached.
unfoldable pub match_segs : List Text → List Text → Bool
match_segs [] [] = true
match_segs [] (n ∷ ns) = false
match_segs (p ∷ ps) [] = text_eq p double_star
match_segs (p ∷ ps) (n ∷ ns) =
    let rest = match_segs ps ns in
    if text_eq p double_star
    then true
    else if text_eq p star
    then rest
    else if not (text_eq p n)
    then false
    else rest

-- `matchSimple`
unfoldable pub match_simple : Text → Text → Bool
match_simple pattern name =
    if text_eq pattern name
    then true
    else match_segs (split_channel_segs pattern) (split_channel_segs name)

-- `r.RolePatterns[role]`, empty where there is none
abbrev pub patterns_of : Option (List Text) → List Text
patterns_of none = []
patterns_of (some ps) = ps

-- Whether the loops over the patterns of a role set `allowed[ch]`.
unfoldable pub any_pattern : List Text → Text → Bool
any_pattern [] ch = false
any_pattern (p ∷ ps) ch = let rest = any_pattern ps ch in if match_simple p ch then true else rest

-- `allowed[ch]` behind the loops over the roles.
unfoldable pub is_allowed : Map (List Text) → List Text → Text → Bool
is_allowed role_patterns [] ch = false
is_allowed role_patterns (role ∷ roles) ch =
    let rest = is_allowed role_patterns roles ch in
    if any_pattern (patterns_of (lookup role role_patterns)) ch then true else rest

abbrev pub no_matching_role : Text
no_matching_role = codes "no matching role"

-- The last loop of `RoleAuthorizer.Authorize`.
unfoldable pub decide : (Text → Bool) → List Text → AuthDecision
decide allowed [] = record { granted = []; denied = [] }
decide allowed (ch ∷ channels) =
    let rest = decide allowed channels in
    if allowed ch
    then record rest { granted = ch ∷ rest.granted }
    else record rest { denied = (ch, no_matching_role) ∷ rest.denied }

-- `RoleAuthorizer.Authorize`; the first argument is `r.UserRoles`.
unfoldable pub authorize : (Text → List Text) → Map (List Text) → Text → List Text → AuthDecision
authorize user_roles role_patterns user channels =
    decide (is_allowed role_patterns (user_roles user)) channels
