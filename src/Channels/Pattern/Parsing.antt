-- ===== src/Channels/Pattern/Parsing.antt =====
-- `ParsePattern` accepts exactly the wire forms of the well-formed patterns.
use mathlib.Core.List.{cons-ne-nil}
use parsec.Channels.Wire.{IsPart, join-IsPart}
use parsec.Channels.Name.Grammar.{
  IsVisibility, IsComponent, validate_component_iff, IsComponent-Lacks,
}
use parsec.Channels.Name.{Visibility, visibility_public, visibility_private}
use parsec.Channels.Pattern.Matching.{IsTrailing}
use parsec.Channels.Pattern.{
  Segment, literal, single_star, double_star, Pattern, star, two_stars, max_pattern_depth,
  parse_segment, parse_segments, parse_at, parse_pattern,
}
use mathlib.Core.Path.{ap₂, subst}
use parsec.Common.{
  ap, ℕ, suc, ◌≤◌, Bool, true, false, List, [], ◌∷◌, ◌++◌, ◌≡◌, ◌≢◌, ◌↔◌, inl, inr, refl, sym, ◌∙◌,
  arith, All, Lacks, Text, length, take, drop, text_eq, text_eq_iff, index_byte, index_byte_found,
  split, join, join-split, contains_byte_iff, none, some, Option-cases, ◌==◌,
}
use parsec.Errors.{Result, ok, err, ◌>>=◌, chain_ok, invalid_argument}

-- How a segment is written.
abbrev pub render : Segment → Text
render (literal lit) = lit
render single_star = star
render double_star = two_stars

abbrev pub render_all : List Segment → List Text
render_all [] = []
render_all (seg ∷ segs) = render seg ∷ render_all segs

abbrev pub IsSegment : Segment → Type 0
IsSegment (literal lit) = IsComponent lit
IsSegment single_star = Unit
IsSegment double_star = Unit

-- At most eight segments, with literals from the alphabet of components and a double star only at
-- the end.
pub record IsPattern (p : Pattern) : Type 0 where
  pub visibility : IsVisibility p.visibility
  pub not_empty : p.segs ≢ []
  pub depth : length p.segs ≤ max_pattern_depth
  pub segments : All IsSegment p.segs
  pub trailing : IsTrailing p.segs
  pub raw : p.raw ≡ p.visibility ++ b':' ∷ join (render_all p.segs) b'.'

parse_segment_sound :
    (p : Text) (last : Bool) (seg : Segment)
    → parse_segment p last ≡ ok seg
    → (render seg ≡ p) × IsSegment seg × (seg ≡ double_star → last ≡ true)
unfolding parse_segment
parse_segment_sound p last (literal lit) h = ground (arith, validate_component_iff p)
parse_segment_sound p last single_star h = ground (arith, text_eq_iff p star)
parse_segment_sound p last double_star h = ground (arith, text_eq_iff p two_stars)

not_a_star :
    (lit : Text)
    → IsComponent lit
    → (text_eq lit [] ≡ false) × (text_eq lit star ≡ false) × (text_eq lit two_stars ≡ false)
not_a_star [] c = absurd (c.0 refl)
not_a_star (x ∷ lit) c = ground arith

parse_segment_complete :
    (seg : Segment) (last : Bool)
    → IsSegment seg
    → (seg ≡ double_star → last ≡ true)
    → parse_segment (render seg) last ≡ ok seg
unfolding parse_segment
parse_segment_complete (literal lit) last c d =
    let (e, f, g) = not_a_star lit c in rw (e, f, g, (validate_component_iff lit).1 c)
parse_segment_complete single_star last c d = refl
parse_segment_complete double_star last c d = rw (d refl)

-- The result of the loop is the first segment and the result for the other parts.
parse_segments_inv :
    (p : Text) (parts : List Text) (segs : List Segment)
    → parse_segments (p ∷ parts) ≡ ok segs
    → (seg : Segment) × (more : List Segment) × (parse_segment p (length parts == 0) ≡ ok seg)
      × (parse_segments parts ≡ ok more)
      × (seg ∷ more ≡ segs)
unfolding parse_segments
parse_segments_inv p parts segs h =
    let (seg, first, h') = chain_ok _ (parse_segment p (length parts == 0)) _ h in
    let (more, others, last) = chain_ok _ (parse_segments parts) _ h' in
    (seg, more, first, others, cc)

-- A segment in front keeps the double star at the end, as it was parsed with the index at hand.
IsTrailing-cons :
    (seg : Segment) (segs : List Segment) (parts : List Text)
    → (seg ≡ double_star → (length parts == 0) ≡ true)
    → length segs ≡ length parts
    → IsTrailing segs
    → IsTrailing (seg ∷ segs)
IsTrailing-cons (literal lit) segs parts d e t = t
IsTrailing-cons single_star segs parts d e t = t
IsTrailing-cons double_star [] parts d e t = refl
IsTrailing-cons double_star (x ∷ segs) parts d e t = absurd (ground (arith, d refl))

parse_segments_sound :
    (parts : List Text) (segs : List Segment)
    → parse_segments parts ≡ ok segs
    → (render_all segs ≡ parts)
      × All IsSegment segs
      × IsTrailing segs
      × (length segs ≡ length parts)
unfolding parse_segments
parse_segments_sound [] [] h = (refl, tt, tt, refl)
parse_segments_sound [] (seg ∷ segs) h = cc
parse_segments_sound (p ∷ parts) segs h =
    let (seg, more, first, others, e) = parse_segments_inv p parts segs h in
    let (shown, fine, last) = parse_segment_sound p (length parts == 0) seg first in
    let (shown', fine', trailing, same_length) = parse_segments_sound parts more others in
    rw (← e) (
      ap₂ ◌∷◌ shown shown',
      (fine, fine'),
      IsTrailing-cons seg more parts last same_length trailing,
      ap suc same_length,
    )

parse_segments_complete :
    (segs : List Segment)
    → All IsSegment segs
    → IsTrailing segs
    → parse_segments (render_all segs) ≡ ok segs
unfolding parse_segments
parse_segments_complete [] c t = refl
parse_segments_complete (literal lit ∷ segs) (c, cs) t = rw (
  parse_segment_complete (literal lit) (length (render_all segs) == 0) c (λ e. cc),
  parse_segments_complete segs cs t,
)
parse_segments_complete (single_star ∷ segs) (c, cs) t = rw (
  parse_segment_complete single_star (length (render_all segs) == 0) tt (λ e. cc),
  parse_segments_complete segs cs t,
)
parse_segments_complete (double_star ∷ []) (c, cs) t =
    rw (parse_segment_complete double_star true tt (λ _. refl))
parse_segments_complete (double_star ∷ x ∷ segs) (c, cs) t = absurd (cc)

parse_at_inv :
    (s : Text) (colon : ℕ) {p : Pattern}
    → parse_at s colon ≡ ok p
    → IsVisibility (take colon s)
      × (length (split (drop (suc colon) s) b'.') ≤ max_pattern_depth)
      × (1 ≤ length (split (drop (suc colon) s) b'.'))
      × (parse_segments (split (drop (suc colon) s) b'.') ≡ ok p.segs)
      × (p.raw ≡ s)
      × (p.visibility ≡ take colon s)
unfolding parse_at
parse_at_inv s colon h = ground (
  arith,
  text_eq_iff (take colon s) visibility_public,
  text_eq_iff (take colon s) visibility_private,
)

abbrev wire : Pattern → Text
wire p = p.visibility ++ b':' ∷ join (render_all p.segs) b'.'

parse_at_sound :
    (s : Text) (colon : ℕ) {p : Pattern}
    → index_byte s b':' ≡ some colon
    → parse_at s colon ≡ ok p
    → IsPattern p × (p.raw ≡ s)
parse_at_sound s colon {p} e h =
    let (v, deep, some_part, parsed, raw, vis) = parse_at_inv s colon h in
    let (shown, fine, trailing, same_length) =
      parse_segments_sound (split (drop (suc colon) s) b'.') p.segs parsed in
    let spelled : wire p ≡ s =
      rw (shown, vis, join-split) (sym (index_byte_found s b':' colon e).0) in
    (
      record {
        visibility = rw vis v;
        not_empty = λ none_. omega (arith, ap length none_);
        depth = omega arith;
        segments = fine;
        trailing = trailing;
        raw = raw ∙ sym spelled;
      },
      raw,
    )

parse_pattern_lem :
    (s : Text)
    → parse_pattern s ≡ (elim (index_byte s b':') as (λ _. Result Pattern) [
      | none ↦ err invalid_argument
      | some colon ↦ parse_at s colon
    ])
unfolding parse_pattern
parse_pattern_lem s = refl

parse_pattern_sound : (s : Text) {p : Pattern} → parse_pattern s ≡ ok p → IsPattern p × (p.raw ≡ s)
parse_pattern_sound s h = elim (Option-cases (index_byte s b':')) [
  | inl e ↦ cc (rw (parse_pattern_lem s, e) at h)
  | inr (colon, e) ↦ parse_at_sound s colon e (rw (parse_pattern_lem s, e) at h)
]

IsVisibility-Lacks : (v : Visibility) → IsVisibility v → Lacks b':' v
IsVisibility-Lacks v (inl e) = rw e (omega arith)
IsVisibility-Lacks v (inr e) = rw e (omega arith)

render_all-IsPart : (segs : List Segment) → All IsSegment segs → All IsPart (render_all segs)
render_all-IsPart [] c = tt
render_all-IsPart (literal lit ∷ segs) (c, cs) =
    let (colon, dot) = IsComponent-Lacks lit c.1 in ((c.0, colon, dot), render_all-IsPart segs cs)
render_all-IsPart (single_star ∷ segs) (c, cs) =
    ((cons-ne-nil _ _, omega arith, omega arith), render_all-IsPart segs cs)
render_all-IsPart (double_star ∷ segs) (c, cs) =
    ((cons-ne-nil _ _, omega arith, omega arith), render_all-IsPart segs cs)

length-render_all : (segs : List Segment) → length (render_all segs) ≡ length segs
length-render_all [] = refl
length-render_all (seg ∷ segs) = ap suc (length-render_all segs)

render_all-ne-nil : (segs : List Segment) → segs ≢ [] → render_all segs ≢ []
render_all-ne-nil [] h = absurd (h refl)
render_all-ne-nil (seg ∷ segs) h = cons-ne-nil _ _

IsPart-head : (t : Text) (ts : List Text) → All IsPart (t ∷ ts) → text_eq t [] ≡ false
IsPart-head [] ts c = absurd (c.0.0 refl)
IsPart-head (x ∷ t) ts c = refl

parse_parts : Text → Visibility → List Text → Result Pattern
parse_parts s vis parts =
    parse_segments parts >>= λ segs. ok (record { raw = s; visibility = vis; segs = segs })

parse_at_complete :
    (v r : Text) (ps : List Text)
    → IsVisibility v
    → All IsPart ps
    → ps ≢ []
    → r ≡ join ps b'.'
    → length ps ≤ max_pattern_depth
    → (index_byte (v ++ b':' ∷ r) b':' ≡ some (length v))
      × (parse_at (v ++ b':' ∷ r) (length v) ≡ parse_parts (v ++ b':' ∷ r) v ps)
unfolding parse_at parse_parts
parse_at_complete v r [] vis c full e deep = absurd (full refl)
parse_at_complete v [] (p ∷ ps) vis c full e deep = absurd ((join-IsPart (p ∷ ps) c full).0 (sym e))
parse_at_complete v (x ∷ r) (p ∷ ps) (inl ev) c full e deep =
    let (_, lacks, parts) = join-IsPart (p ∷ ps) c full in
    let again : split (x ∷ r) b'.' ≡ p ∷ ps = rw e parts in
    let none_left = (contains_byte_iff (x ∷ r) b':').1 (subst (Lacks b':') (sym e) lacks) in
    rw ev (refl, rw (none_left, again, IsPart-head p ps c) (ground arith))
parse_at_complete v (x ∷ r) (p ∷ ps) (inr ev) c full e deep =
    let (_, lacks, parts) = join-IsPart (p ∷ ps) c full in
    let again : split (x ∷ r) b'.' ≡ p ∷ ps = rw e parts in
    let none_left = (contains_byte_iff (x ∷ r) b':').1 (subst (Lacks b':') (sym e) lacks) in
    rw ev (refl, rw (none_left, again, IsPart-head p ps c) (ground arith))

parse_pattern_complete : (p : Pattern) → IsPattern p → parse_pattern p.raw ≡ ok p
unfolding parse_parts
parse_pattern_complete p w =
    let (found, parsed) =
      parse_at_complete p.visibility (join (render_all p.segs) b'.') (render_all p.segs)
        w.visibility (render_all-IsPart p.segs w.segments) (render_all-ne-nil p.segs w.not_empty)
        refl (omega (arith, length-render_all p.segs, w.depth)) in
    let whole : parse_pattern (wire p) ≡ ok (record p { raw = wire p }) =
      rw (parse_pattern_lem, found, parsed, parse_segments_complete p.segs w.segments w.trailing) in
    ap parse_pattern w.raw ∙ whole ∙ ap (λ t. ok (record p { raw = t })) (sym w.raw)

-- `ParsePattern` returns the pattern `p` exactly if `p` is well formed and the text is the one that
-- `p` keeps and spells, so every other text is refused.
pub parse_pattern_iff :
    (s : Text) (p : Pattern) → (parse_pattern s ≡ ok p) ↔ (IsPattern p × (p.raw ≡ s))
parse_pattern_iff s p = (parse_pattern_sound s, λ h. rw (← h.1) (parse_pattern_complete p h.0))

-- The text of a pattern has one colon, behind its visibility.
pub IsPattern-one_colon :
    (p : Pattern)
    → IsPattern p
    → (rest : Text) × (p.raw ≡ p.visibility ++ b':' ∷ rest)
      × Lacks b':' p.visibility
      × Lacks b':' rest
IsPattern-one_colon p w =
    let (full, lacks, parts) =
      join-IsPart (render_all p.segs) (render_all-IsPart p.segs w.segments)
        (render_all-ne-nil p.segs w.not_empty) in
    (join (render_all p.segs) b'.', w.raw, IsVisibility-Lacks p.visibility w.visibility, lacks)
