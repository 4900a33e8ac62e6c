-- ===== src/Sinks/Listing.antt =====
-- What the methods of the memory queue say of the items it holds.
use parsec.Common.{
  ℕ, suc, ◌+◌, ◌≤◌, true, false, List, [], ◌∷◌, ◌≡◌, refl, sym, ◌∙◌, ap, ◌↔◌, ◌⊎◌, inl, inr, arith,
  ltb, length, All, Any, Text, text_eq, text_eq_iff, pos, Bool-cases,
}
use parsec.Sinks.Queue.{
  DlqItem, MemoryDlq, is_wanted, wanted, place, newest_first, items_of, count_of, count,
}

module _ {M : Type 0} where
  abbrev pub Has : DlqItem M → List (DlqItem M) → Type 0
  Has it = Any (λ x. x ≡ it)

  -- No item is newer than one before it.
  abbrev pub IsNewestFirst : List (DlqItem M) → Type 0
  IsNewestFirst [] = Unit
  IsNewestFirst (it ∷ items) = All (λ x. x.at_time ≤ it.at_time) items × IsNewestFirst items

  length-place : (it : DlqItem M) (xs : List (DlqItem M)) → length (place it xs) ≡ length xs + 1
  unfolding place
  length-place it [] = omega arith
  length-place it (x ∷ xs) = ground (arith, length-place it xs)

  length-newest_first : (xs : List (DlqItem M)) → length (newest_first xs) ≡ length xs
  unfolding newest_first
  length-newest_first [] = refl
  length-newest_first (x ∷ xs) =
      omega (arith, length-place x (newest_first xs), length-newest_first xs)

  All-place :
      (P : DlqItem M → Type 0) (it : DlqItem M) (xs : List (DlqItem M))
      → P it
      → All P xs
      → All P (place it xs)
  unfolding place
  All-place P it [] p h = (p, tt)
  All-place P it (x ∷ xs) p (h, hs) = elim (Bool-cases (ltb it.at_time x.at_time)) [
    | inl e ↦ rw (e, place) (h, All-place P it xs p hs)
    | inr e ↦ rw (e, place) (p, (h, hs))
  ]

  older :
      (a b : ℕ) (xs : List (DlqItem M))
      → a ≤ b
      → All (λ x. x.at_time ≤ a) xs
      → All (λ x. x.at_time ≤ b) xs
  older a b [] l h = tt
  older a b (x ∷ xs) l (h, hs) = (omega arith, older a b xs l hs)

  place-IsNewestFirst :
      (it : DlqItem M) (xs : List (DlqItem M)) → IsNewestFirst xs → IsNewestFirst (place it xs)
  unfolding place
  place-IsNewestFirst it [] h = (tt, tt)
  place-IsNewestFirst it (x ∷ xs) (h, hs) = elim (Bool-cases (ltb it.at_time x.at_time)) [
    | inl e ↦
        rw (e, place)
          (
            All-place (λ y. y.at_time ≤ x.at_time) it xs (ground arith) h,
            place-IsNewestFirst it xs hs,
          )
    | inr e ↦
        rw (e, place) ((ground arith, older x.at_time it.at_time xs (ground arith) h), (h, hs))
  ]

  newest_first-IsNewestFirst : (xs : List (DlqItem M)) → IsNewestFirst (newest_first xs)
  unfolding newest_first
  newest_first-IsNewestFirst [] = tt
  newest_first-IsNewestFirst (x ∷ xs) =
      place-IsNewestFirst x (newest_first xs) (newest_first-IsNewestFirst xs)

  Has-place :
      (y it : DlqItem M) (xs : List (DlqItem M)) → Has y (place it xs) ↔ ((it ≡ y) ⊎ Has y xs)
  unfolding place
  Has-place y it [] = (λ h. h, λ h. h)
  Has-place y it (x ∷ xs) = ground (arith, Has-place y it xs)

  Has-newest_first : (y : DlqItem M) (xs : List (DlqItem M)) → Has y (newest_first xs) ↔ Has y xs
  unfolding newest_first
  Has-newest_first y [] = (λ h. h, λ h. h)
  Has-newest_first y (x ∷ xs) =
      ground (arith, Has-newest_first y xs, Has-place y x (newest_first xs))

  Has-wanted :
      (y : DlqItem M) (sink : Text) (xs : List (DlqItem M))
      → Has y (wanted sink xs) ↔ (Has y xs × (is_wanted sink y ≡ true))
  unfolding wanted
  Has-wanted y sink [] = (λ h. absurd h, λ h. absurd h.0)
  Has-wanted y sink (x ∷ xs) =
      let (to, from) = Has-wanted y sink xs in
      elim (Bool-cases (is_wanted sink x)) [
        | inl e ↦
            rw (e, wanted)
              (
                λ h. elim h [
                  | inl p ↦ (inl p, sym (ap (is_wanted sink) p) ∙ e)
                  | inr r ↦ let (a, b) = to r in (inr a, b)
                ],
                λ (h, v). elim h [ inl p ↦ inl p | inr r ↦ inr (from (r, v)) ],
              )
        | inr e ↦
            rw (e, wanted)
              (
                λ h. let (a, b) = to h in (inr a, b),
                λ (h, v). elim h [
                  | inl p ↦ absurd (cc (sym v ∙ sym (ap (is_wanted sink) p) ∙ e))
                  | inr r ↦ from (r, v)
                ],
              )
      ]

  is_wanted_iff :
      (sink : Text) (it : DlqItem M) → (is_wanted sink it ≡ true) ↔ ((sink ≡ []) ⊎ (it.sink ≡ sink))
  is_wanted_iff sink it = ground (arith, text_eq_iff sink [], text_eq_iff it.sink sink)

  length-wanted_all : (xs : List (DlqItem M)) → length (wanted [] xs) ≡ length xs
  unfolding wanted
  length-wanted_all [] = refl
  length-wanted_all (x ∷ xs) = ap suc (length-wanted_all xs)

  length-wanted :
      (sink : Text) (xs : List (DlqItem M))
      → text_eq sink [] ≡ false
      → length (wanted sink xs) ≡ count_of sink xs
  unfolding wanted count_of
  length-wanted sink [] h = refl
  length-wanted sink (x ∷ xs) h = ground (arith, length-wanted sink xs)

  listed : (sink : Text) (m : MemoryDlq M) → length (wanted sink m.items) ≡ count sink m
  unfolding count
  listed sink m = elim (Bool-cases (text_eq sink [])) [
    | inl e ↦
        let same : sink ≡ [] = (text_eq_iff sink []).0 e in rw same (length-wanted_all m.items)
    | inr e ↦ rw (e, count) (length-wanted sink m.items e)
  ]

  -- Without a limit, Items lists as many items as Count says, no item newer than one before it, and
  -- exactly the items of the queue that are of the sink asked for, or all of them for the empty name.
  pub items_of_lem :
      (sink : Text) (m : MemoryDlq M)
      → (length (items_of sink (pos 0) m) ≡ count sink m)
        × IsNewestFirst (items_of sink (pos 0) m)
        × ((it : DlqItem M)
            → Has it (items_of sink (pos 0) m)
              ↔ (Has it m.items × ((sink ≡ []) ⊎ (it.sink ≡ sink))))
  unfolding items_of
  items_of_lem sink m = (
    length-newest_first (wanted sink m.items) ∙ listed sink m,
    newest_first-IsNewestFirst (wanted sink m.items),
    λ it.
        let (a, b) = Has-newest_first it (wanted sink m.items) in
        let (c, d) = Has-wanted it sink m.items in
        let (e, f) = is_wanted_iff sink it in
        (λ h. let (i, j) = c (a h) in (i, e j), λ (i, j). b (d (i, f j))),
  )
