-- ===== src/Channels/Pattern.antt =====
-- channels/pattern.go: channel-name patterns with `*` for one segment and a trailing `**` for one or
-- more.
pub mod Matching
pub mod Parsing
pub mod Naming
use parsec.Channels.Name.{
  Name, Visibility, visibility_public, visibility_private, validate_component,
}
use parsec.Common.{
  ℕ, suc, ◌+◌, Bool, true, false, ◌&&◌, ◌||◌, not, List, [], ◌∷◌, ◌++◌, Option, none, some, ltb,
  ◌==◌, if◌then◌else◌, length, get_elem?, get_or, take, drop, Text, codes, text_eq, index_byte,
  contains_byte, split,
}
use parsec.Errors.{Result, ok, err, invalid_argument, ◌>>=◌, ◌>>◌}

abbrev pub max_pattern_depth : ℕ
max_pattern_depth = 8

-- `patternSegment`, with the text in the one kind that carries it.
pub data Segment : Type 0 where
  literal : Text → Segment
  single_star double_star : Segment

pub record Pattern : Type 0 where
  pub raw : Text
  pub visibility : Visibility
  pub segs : List Segment

-- The zero value, which `ParsePattern` returns beside an error.
abbrev pub zero_pattern : Pattern
zero_pattern = record { raw = []; visibility = []; segs = [] }

-- `Pattern.IsValid`
unfoldable pub is_valid : Pattern → Bool
is_valid p = ltb 0 (length p.segs)

abbrev star : Text
star = codes "*"

abbrev two_stars : Text
two_stars = codes "**"

-- The `switch` of the loop; `last` tells whether `i` is the last index.
parse_segment : Text → Bool → Result Segment
parse_segment p last =
    if text_eq p []
    then err invalid_argument
    else if text_eq p star
    then ok single_star
    else if text_eq p two_stars
    then (if last then ok double_star else err invalid_argument)
    else elim (validate_component p) [ ok _ ↦ ok (literal p) | err _ ↦ err invalid_argument ]

-- `for i, p := range parts`
parse_segments : List Text → Result (List Segment)
parse_segments [] = ok []
parse_segments (p ∷ parts) = do
  seg ← parse_segment p (length parts == 0)
  segs ← parse_segments parts
  ok (seg ∷ segs)

-- `ParsePattern` behind the search for the colon.
parse_at : Text → ℕ → Result Pattern
parse_at s colon =
    let vis = take colon s in
    let rest = drop (suc colon) s in
    let parts = split rest b'.' in
    if colon == 0 || suc colon == length s
    then err invalid_argument
    else if not (text_eq vis visibility_public) && not (text_eq vis visibility_private)
    then err invalid_argument
    else if contains_byte rest b':'
    then err invalid_argument
    else if ltb (length parts) 1 || (length parts == 1 && text_eq (get_or parts 0 []) [])
    then err invalid_argument
    else if ltb max_pattern_depth (length parts)
    then err invalid_argument
    else parse_segments parts >>= λ segs. ok (record { raw = s; visibility = vis; segs = segs })

unfoldable pub parse_pattern : Text → Result Pattern
unfolding parse_at split parse_segments parse_segment validate_component
parse_pattern s = elim (index_byte s b':') [
  | none ↦ err invalid_argument
  | some colon ↦ parse_at s colon
]

-- `if n.App != "" { nameSegs[nCount] = n.App; nCount++ }`
push_present : List Text → Text → List Text
push_present segs [] = segs
push_present segs (c ∷ s) = segs ++ (c ∷ s) ∷ []

-- `nameSegs[:nCount]`
unfoldable pub name_segments : Name → List Text
unfolding push_present
name_segments n =
    push_present (push_present (push_present (push_present [] n.app) n.domain) n.id) n.topic

-- The text at an index below the length.
at_equals : Option Text → Text → Bool
at_equals none lit = false
at_equals (some s) lit = text_eq s lit

-- The loop of `matchSegments` from index `i` on; `total` is `len(pat)`.
match_from : ℕ → ℕ → List Segment → List Text → Bool
unfolding at_equals
match_from total i [] name = length name == total
match_from total i (double_star ∷ pat) name = ltb i (length name)
match_from total i (single_star ∷ pat) name =
    if ltb i (length name) then match_from total (i + 1) pat name else false
match_from total i (literal lit ∷ pat) name =
    let rest = match_from total (i + 1) pat name in
    if ltb i (length name)
    then (if at_equals (get_elem? name i) lit then rest else false)
    else false

unfoldable pub match_segments : List Segment → List Text → Bool
unfolding match_from
match_segments pat name = match_from (length pat) 0 pat name

-- `Pattern.Matches`
unfoldable pub matches : Pattern → Name → Bool
unfolding is_valid name_segments match_segments
matches p n =
    if not (is_valid p)
    then false
    else if not (text_eq p.visibility n.visibility)
    then false
    else match_segments p.segs (name_segments n)
