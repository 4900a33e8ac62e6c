-- ===== src/Facade/Limits/Widest.antt =====
-- The limit that the memory limiter of a server is built with.
use parsec.Common.{
  Bool, true, false, ◌||◌, List, [], ◌∷◌, ◌≡◌, ◌⊎◌, inl, inr, refl, ◌∙◌, arith, All, Any, ltb_ℤ,
  is_zero, Bool-cases,
}
use parsec.Facade.Limits.{no_limit, wider, widest_of, candidates, widest_limit}
use parsec.RateLimit.Rules.{RateLimits}
use parsec.RateLimit.{Limit, normalize}

-- `a` reaches at least as high as `l` does, if `l` limits anything.
abbrev pub Reaches : Limit → Limit → Type 0
Reaches a l = (is_zero l.rate ≡ true) ⊎ (ltb_ℤ a.burst l.burst ≡ false)

Reaches-refl : (a : Limit) → Reaches a a
Reaches-refl a = inr (ground arith)

Reaches-trans :
    (a b c : Limit)
    → (is_zero b.rate ≡ true → is_zero c.rate ≡ true)
    → Reaches a b
    → Reaches b c
    → Reaches a c
Reaches-trans a b c idle (inl x) y = inl (idle x)
Reaches-trans a b c idle (inr x) (inl y) = inl y
Reaches-trans a b c idle (inr x) (inr y) = inr (ground arith)

kept : (best n : Limit) → is_zero n.rate ≡ true → wider best n ≡ best
unfolding wider
kept best n e = rw (e, wider) refl

taken :
    (best n : Limit)
    → is_zero n.rate ≡ false
    → ltb_ℤ best.burst n.burst || is_zero best.rate ≡ true
    → wider best n ≡ n
unfolding wider
taken best n e f = rw (e, wider, f) refl

left :
    (best n : Limit)
    → is_zero n.rate ≡ false
    → ltb_ℤ best.burst n.burst || is_zero best.rate ≡ false
    → wider best n ≡ best
unfolding wider
left best n e f = rw (e, wider, f) refl

higher : (best n : Limit) → ltb_ℤ best.burst n.burst || is_zero best.rate ≡ true → Reaches n best
higher best n f = elim (Bool-cases (is_zero best.rate)) [
  | inl e ↦ inl e
  | inr e ↦ inr (ground arith)
]

busy : (x y : Bool) → x ≡ true → y || x ≡ false → ⊥
busy x y h f = ground arith

-- One round: the new best reaches the old one and the candidate, and it is one of them.
wider_lem :
    (best n : Limit)
    → Reaches (wider best n) best
      × Reaches (wider best n) n
      × ((wider best n ≡ best) ⊎ ((wider best n ≡ n) × (is_zero n.rate ≡ false)))
unfolding wider
wider_lem best n = elim (Bool-cases (is_zero n.rate)) [
  | inl e ↦ rw (kept best n e) (Reaches-refl best, inl e, inl refl)
  | inr e ↦ elim (Bool-cases (ltb_ℤ best.burst n.burst || is_zero best.rate)) [
    | inl f ↦ rw (taken best n e f) (higher best n f, Reaches-refl n, inr (refl, e))
    | inr f ↦ rw (left best n e f) (Reaches-refl best, inr (ground arith), inl refl)
  ]
]

idle :
    (best n : Limit)
    → is_zero (wider best n).rate ≡ true
    → (is_zero best.rate ≡ true) × (is_zero n.rate ≡ true)
idle best n z = elim (Bool-cases (is_zero n.rate)) [
  | inl e ↦ (rw (kept best n e) at z, e)
  | inr e ↦ elim (Bool-cases (ltb_ℤ best.burst n.burst || is_zero best.rate)) [
    | inl f ↦ absurd (cc (e, rw (taken best n e f) at z))
    | inr f ↦ absurd (busy _ (ltb_ℤ best.burst n.burst) (rw (left best n e f) at z) f)
  ]
]

widest_of_lem :
    (best : Limit) (limits : List Limit)
    → Reaches (widest_of best limits) best
      × All (λ l. Reaches (widest_of best limits) (normalize l)) limits
      × ((widest_of best limits ≡ best)
          ⊎ Any
              (λ l. (widest_of best limits ≡ normalize l) × (is_zero (normalize l).rate ≡ false))
              limits)
unfolding widest_of
widest_of_lem best [] = (Reaches-refl best, tt, inl refl)
widest_of_lem best (l ∷ limits) =
    let n = normalize l in
    let b = wider best n in
    let (over_best, over_n, one) = wider_lem best n in
    let (over_b, over_rest, among) = widest_of_lem b limits in
    (
      Reaches-trans (widest_of b limits) b best (λ z. (idle best n z).0) over_b over_best,
      (Reaches-trans (widest_of b limits) b n (λ z. (idle best n z).1) over_b over_n, over_rest),
      elim among [
        | inr z ↦ inr (inr z)
        | inl z ↦ elim one [ inl y ↦ inl (z ∙ y) | inr (y, full) ↦ inr (inl (z ∙ y, full)) ]
      ],
    )

-- The limit that a server's memory limiter is built with has a burst that no limited one of the server's
-- limits and channel rules exceeds, all of them normalized; it is one of these, or limits nothing.
widest_limit-Reaches :
    (rl : RateLimits)
    → All (λ l. Reaches (widest_limit rl) (normalize l)) (candidates rl)
      × ((widest_limit rl ≡ no_limit)
          ⊎ Any
              (λ l. (widest_limit rl ≡ normalize l) × (is_zero (normalize l).rate ≡ false))
              (candidates rl))
unfolding widest_limit
widest_limit-Reaches rl =
    let (_, over, among) = widest_of_lem no_limit (candidates rl) in (over, among)
