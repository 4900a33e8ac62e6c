-- ===== src/Channels/Pattern/Matching.antt =====
-- `matchSegments` decides an inductive relation, and `ParsePattern` builds only patterns that it
-- reads rightly.

use parsec.Channels.Pattern.{
  Segment, literal, single_star, double_star, at_equals, match_from, match_segments,
}
use parsec.Common.{
  append_assoc, length-append, sym, ◌∙◌, text_eq_refl, ℕ, ◌+◌, Bool, true, false, List, [], ◌∷◌,
  ◌++◌, ◌≡◌, ◌↔◌, inl, inr, refl, arith, Text, length, get_elem?, text_eq, text_eq_iff, some,
  Bool-cases, if◌then◌else◌,
}

-- A star takes one segment, a double star all that are left, at least one.
pub data Matches : List Segment → List Text → Type 0 where
  done : Matches [] []
  same :
      {lit : Text} {pat : List Segment} {name : List Text}
      → Matches pat name
      → Matches (literal lit ∷ pat) (lit ∷ name)
  any :
      {s : Text} {pat : List Segment} {name : List Text}
      → Matches pat name
      → Matches (single_star ∷ pat) (s ∷ name)
  rest : {s : Text} {name : List Text} → Matches (double_star ∷ []) (s ∷ name)

-- A double star stands at the end only.
abbrev pub IsTrailing : List Segment → Type 0
IsTrailing [] = Unit
IsTrailing (double_star ∷ pat) = pat ≡ []
IsTrailing (single_star ∷ pat) = IsTrailing pat
IsTrailing (literal lit ∷ pat) = IsTrailing pat

-- The loop of `matchSegments` with no index: it walks both lists.
walk : List Segment → List Text → Bool
walk [] [] = true
walk [] (s ∷ name) = false
walk (double_star ∷ pat) [] = false
walk (double_star ∷ pat) (s ∷ name) = true
walk (single_star ∷ pat) [] = false
walk (single_star ∷ pat) (s ∷ name) = walk pat name
walk (literal lit ∷ pat) [] = false
walk (literal lit ∷ pat) (s ∷ name) = if text_eq s lit then walk pat name else false

get_elem?-append :
    (before : List Text) (s : Text) (name : List Text)
    → get_elem? (before ++ s ∷ name) (length before) ≡ some s
get_elem?-append [] s name = refl
get_elem?-append (x ∷ before) s name = get_elem?-append before s name

-- The loop at index `i`, with `before` the segments that it has passed.
match_from-walk :
    (total i : ℕ) (pat : List Segment) (before name : List Text)
    → length before ≡ i
    → length pat + i ≡ total
    → match_from total i pat (before ++ name) ≡ walk pat name
unfolding match_from walk at_equals
match_from-walk total i [] b [] h k = ground (arith, length-append b [])
match_from-walk total i [] b (s ∷ name) h k = ground (arith, length-append b (s ∷ name))
match_from-walk total i (double_star ∷ pat) b [] h k = ground (arith, length-append b [])
match_from-walk total i (double_star ∷ pat) b (s ∷ name) h k =
    ground (arith, length-append b (s ∷ name))
match_from-walk total i (single_star ∷ pat) b [] h k = ground (arith, length-append b [])
match_from-walk total i (single_star ∷ pat) b (s ∷ name) h k = ground (
  arith,
  length-append b (s ∷ name),
  length-append b (s ∷ []),
  append_assoc b (s ∷ []) name,
  match_from-walk total (i + 1) pat (b ++ s ∷ []) name,
)
match_from-walk total i (literal lit ∷ pat) b [] h k = ground (arith, length-append b [])
match_from-walk total i (literal lit ∷ pat) b (s ∷ name) h k = ground (
  arith,
  length-append b (s ∷ name),
  length-append b (s ∷ []),
  append_assoc b (s ∷ []) name,
  get_elem?-append b s name,
  match_from-walk total (i + 1) pat (b ++ s ∷ []) name,
)

walk_sound :
    (pat : List Segment) (name : List Text)
    → IsTrailing pat
    → walk pat name ≡ true
    → Matches pat name
unfolding walk
walk_sound [] [] t h = done
walk_sound [] (s ∷ name) t h = cc
walk_sound (double_star ∷ []) (s ∷ name) t h = rest
walk_sound (double_star ∷ x ∷ pat) (s ∷ name) t h = cc
walk_sound (double_star ∷ pat) [] t h = cc
walk_sound (single_star ∷ pat) [] t h = cc
walk_sound (single_star ∷ pat) (s ∷ name) t h = any (walk_sound pat name t h)
walk_sound (literal lit ∷ pat) [] t h = cc
walk_sound (literal lit ∷ pat) (s ∷ name) t h = elim (Bool-cases (text_eq s lit)) [
  | inl e ↦ rw ((text_eq_iff s lit).0 e) (same (walk_sound pat name t (rw (e, walk) at h)))
  | inr e ↦ cc (rw (e, walk) at h)
]

walk_complete : {pat : List Segment} {name : List Text} → Matches pat name → walk pat name ≡ true
unfolding walk
walk_complete done = refl
walk_complete (same {lit = lit} m) = rw (text_eq_refl lit) (walk_complete m)
walk_complete (any m) = walk_complete m
walk_complete rest = refl

match_segments-walk :
    (pat : List Segment) (name : List Text) → match_segments pat name ≡ walk pat name
unfolding match_segments
match_segments-walk pat name = match_from-walk (length pat) 0 pat [] name refl (omega arith)

-- On a pattern whose double star stands last, the loop answers true exactly on the names that match.
pub match_segments_iff :
    (pat : List Segment) (name : List Text)
    → IsTrailing pat
    → (match_segments pat name ≡ true) ↔ Matches pat name
match_segments_iff pat name t =
    let e = match_segments-walk pat name in
    (λ h. walk_sound pat name t (sym e ∙ h), λ m. e ∙ walk_complete m)
