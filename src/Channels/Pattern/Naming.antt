-- ===== src/Channels/Pattern/Naming.antt =====
-- `Pattern.Matches` on parsed patterns and names.

use parsec.Channels.Name.{Name}
use parsec.Channels.Pattern.Matching.{Matches, match_segments_iff}
use parsec.Channels.Pattern.Parsing.{IsPattern}
use parsec.Channels.Pattern.{Pattern, Segment, matches, name_segments, match_segments}
use mathlib.Core.Path.{ap₂}
use parsec.Common.{
  Bool, ◌&&◌, ◌∙◌, inl, inr, true, List, [], ◌∷◌, ◌≡◌, ◌≢◌, ◌↔◌, refl, arith, text_eq, text_eq_iff,
  ltb, length, Bool-cases,
}

some_segment : (segs : List Segment) → segs ≢ [] → ltb 0 (length segs) ≡ true
some_segment [] h = absurd (h refl)
some_segment (s ∷ segs) h = ground arith

matches_lem :
    (p : Pattern) (n : Name)
    → p.segs ≢ []
    → matches p n ≡ (text_eq p.visibility n.visibility && match_segments p.segs (name_segments n))
unfolding matches
matches_lem p n full = elim (Bool-cases (text_eq p.visibility n.visibility)) [
  | inl e ↦ rw (some_segment p.segs full, e)
  | inr e ↦ rw (some_segment p.segs full, e)
]

and_true : {a b c : Bool} → c ≡ (a && b) → c ≡ true → (a ≡ true) × (b ≡ true)
and_true e h = ground arith

-- A well-formed pattern matches a name exactly if the visibilities agree and the segments of the
-- name that are present match the segments of the pattern, a star taking one and a trailing double
-- star all that are left, at least one.
pub matches_iff :
    (p : Pattern) (n : Name)
    → IsPattern p
    → (matches p n ≡ true) ↔ ((p.visibility ≡ n.visibility) × Matches p.segs (name_segments n))
matches_iff p n w =
    let e = text_eq_iff p.visibility n.visibility in
    let (sound, complete) = match_segments_iff p.segs (name_segments n) w.trailing in
    (
      λ h. let both = and_true (matches_lem p n w.not_empty) h in (e.0 both.0, sound both.1),
      λ h. matches_lem p n w.not_empty ∙ ap₂ ◌&&◌ (e.1 h.0) (complete h.1),
    )
