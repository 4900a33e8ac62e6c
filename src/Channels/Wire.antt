-- ===== src/Channels/Wire.antt =====
-- What names and patterns share on the wire: a visibility, a colon, and parts joined by dots.
use mathlib.Core.List.{cons-ne-nil}
use parsec.Common.{
  List, [], ◌∷◌, ◌≡◌, ◌≢◌, refl, arith, All, All-append, Lacks, Text, split, join, split-join,
}

-- A part that can be joined and split again.
abbrev pub IsPart : Text → Type 0
IsPart t = (t ≢ []) × Lacks b':' t × Lacks b'.' t

join-ne-nil : (ps : List Text) → All IsPart ps → ps ≢ [] → join ps b'.' ≢ []
unfolding join
join-ne-nil [] c h = absurd (h refl)
join-ne-nil (p ∷ []) c h = c.0.0
join-ne-nil ([] ∷ q ∷ ps) c h = absurd (c.0.0 refl)
join-ne-nil ((x ∷ p) ∷ q ∷ ps) c h = cons-ne-nil _ _

join-Lacks : (ps : List Text) → All IsPart ps → Lacks b':' (join ps b'.')
unfolding join
join-Lacks [] c = tt
join-Lacks (p ∷ []) c = c.0.1
join-Lacks (p ∷ q ∷ ps) c =
    All-append (λ b. b ≢ b':') p _ c.0.1 (omega arith, join-Lacks (q ∷ ps) c.1)

parts-Lacks : (ps : List Text) → All IsPart ps → All (Lacks b'.') ps
parts-Lacks [] c = tt
parts-Lacks (p ∷ ps) c = (c.0.2, parts-Lacks ps c.1)

-- The joined parts are not empty, hold no colon, and are split into the parts again.
pub join-IsPart :
    (ps : List Text)
    → All IsPart ps
    → ps ≢ []
    → (join ps b'.' ≢ []) × Lacks b':' (join ps b'.') × (split (join ps b'.') b'.' ≡ ps)
join-IsPart ps c h = (join-ne-nil ps c h, join-Lacks ps c, split-join ps b'.' h (parts-Lacks ps c))
