-- ===== src/Cache/Elements.antt =====
-- The elements of the list, by their keys.
use parsec.Cache.{MemEntry, element, remove, back}
use parsec.Common.{
  ℕ, zero, suc, ◌+◌, ◌<◌, false, List, [], ◌∷◌, none, some, ◌≡◌, ◌≢◌, refl, sym, ap, ◌∙◌, inl, inr,
  arith, length, take, Text, text_eq, text_eq_iff, text_eq_refl, text_eq_of_ne, Bool-cases,
}

module _ {V : Type 0} where
  -- No key stands twice.
  abbrev pub IsKeyed : List (MemEntry V) → Type 0
  IsKeyed [] = Unit
  IsKeyed (e ∷ order) = (element e.key order ≡ none) × IsKeyed order

  pub key-element :
      (k : Text) (order : List (MemEntry V)) (e : MemEntry V) → element k order ≡ some e → e.key ≡ k
  unfolding element
  key-element k [] e h = cc h
  key-element k (x ∷ order) e h = elim (Bool-cases (text_eq x.key k)) [
    | inl q ↦
        let same : x ≡ e = cc (rw (element, q) at h) in
        ap (λ (y : MemEntry V). y.key) (sym same) ∙ (text_eq_iff x.key k).0 q
    | inr q ↦ key-element k order e (rw (element, q) at h)
  ]

  pub element-remove_ne :
      (j k : Text) (order : List (MemEntry V))
      → k ≢ j
      → element j (remove k order) ≡ element j order
  unfolding element remove
  element-remove_ne j k [] h = refl
  element-remove_ne j k (x ∷ order) h = elim (Bool-cases (text_eq x.key k)) [
    | inl q ↦
        let same : x.key ≡ k = (text_eq_iff x.key k).0 q in
        let apart : text_eq x.key j ≡ false = text_eq_of_ne x.key j (λ p. h (sym same ∙ p)) in
        rw (remove, q, apart) refl
    | inr q ↦ elim (Bool-cases (text_eq x.key j)) [
      | inl r ↦ rw (remove, q, r) refl
      | inr r ↦ rw (remove, q, r) (element-remove_ne j k order h)
    ]
  ]

  pub element-remove_self :
      (k : Text) (order : List (MemEntry V)) → IsKeyed order → element k (remove k order) ≡ none
  unfolding element remove
  element-remove_self k [] h = refl
  element-remove_self k (x ∷ order) (h, hs) = elim (Bool-cases (text_eq x.key k)) [
    | inl q ↦ let same : x.key ≡ k = (text_eq_iff x.key k).0 q in rw (remove, q) (rw same at h)
    | inr q ↦ rw (remove, q, element, q) (element-remove_self k order hs)
  ]

  pub remove-IsKeyed :
      (k : Text) (order : List (MemEntry V)) → IsKeyed order → IsKeyed (remove k order)
  unfolding remove
  remove-IsKeyed k [] h = tt
  remove-IsKeyed k (x ∷ order) (h, hs) = elim (Bool-cases (text_eq x.key k)) [
    | inl q ↦ rw (remove, q) hs
    | inr q ↦
        let apart : k ≢ x.key = λ p. cc (sym q ∙ (text_eq_iff x.key k).1 (sym p)) in
        rw (remove, q) (element-remove_ne x.key k order apart ∙ h, remove-IsKeyed k order hs)
  ]

  pub length-remove :
      (k : Text) (order : List (MemEntry V)) (e : MemEntry V)
      → element k order ≡ some e
      → length (remove k order) + 1 ≡ length order
  unfolding element remove
  length-remove k [] e h = cc h
  length-remove k (x ∷ order) e h = elim (Bool-cases (text_eq x.key k)) [
    | inl q ↦ rw (remove, q) (omega arith)
    | inr q ↦ rw (remove, q) (omega (arith, length-remove k order e (rw (element, q) at h)))
  ]

  -- What stands at the back stands there under its key.
  pub element-back :
      (order : List (MemEntry V)) (e : MemEntry V)
      → IsKeyed order
      → back order ≡ some e
      → element e.key order ≡ some e
  unfolding element back
  element-back [] e h b = cc b
  element-back (x ∷ []) e h b = let same : x ≡ e = cc b in rw (same, text_eq_refl e.key) refl
  element-back (x ∷ y ∷ order) e (h, hs) b = elim (Bool-cases (text_eq x.key e.key)) [
    | inl q ↦
        let same : x.key ≡ e.key = (text_eq_iff x.key e.key).0 q in
        let gone : element e.key (y ∷ order) ≡ none =
          ap (λ k. element k (y ∷ order)) (sym same) ∙ h in
        absurd (cc (sym gone ∙ element-back (y ∷ order) e hs b))
    | inr q ↦ rw (element, q) (element-back (y ∷ order) e hs b)
  ]

  -- Taking away the back leaves the front as it is.
  pub take-remove-back :
      (n : ℕ) (order : List (MemEntry V)) (e : MemEntry V)
      → IsKeyed order
      → back order ≡ some e
      → n < length order
      → take n (remove e.key order) ≡ take n order
  unfolding remove back
  take-remove-back zero order e h b l = refl
  take-remove-back (suc n) [] e h b l = refl
  take-remove-back (suc n) (x ∷ []) e h b l = absurd (omega arith)
  take-remove-back (suc n) (x ∷ y ∷ order) e (h, hs) b l = elim (Bool-cases (text_eq x.key e.key)) [
    | inl q ↦
        let same : x.key ≡ e.key = (text_eq_iff x.key e.key).0 q in
        let gone : element e.key (y ∷ order) ≡ none =
          ap (λ k. element k (y ∷ order)) (sym same) ∙ h in
        absurd (cc (sym gone ∙ element-back (y ∷ order) e hs b))
    | inr q ↦ rw (remove, q) (ap (◌∷◌ x) (take-remove-back n (y ∷ order) e hs b (omega arith)))
  ]
