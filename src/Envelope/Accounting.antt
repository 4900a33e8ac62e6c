-- ===== src/Envelope/Accounting.antt =====
-- What the gaps that a detector reports add up to.
use parsec.Common.{
  ℕ, suc, ◌+◌, ◌-◌, ◌^◌, ◌<◌, true, false, not, ◌&&◌, List, [], ◌∷◌, some, ◌≡◌, ◌↔◌, ◌⊎◌, refl, sym,
  ◌∙◌, ap, if◌then◌else◌, arith, text_eq_iff, All, ℤ, pos, pos_part, ltb_ℤ, Bool-cases,
  Option-cases, inl, inr,
}
use parsec.Envelope.{
  GapKey, same_key, GapDetector, seen_of, set_seen, Finding, observe, gap_between,
}

pub same_key_iff : (j k : GapKey) → (same_key j k ≡ true) ↔ (j ≡ k)
same_key_iff j k = (
  λ h.
      let p : j.channel ≡ k.channel = ground (arith, text_eq_iff j.channel k.channel) in
      let q : j.producer ≡ k.producer = ground (arith, text_eq_iff j.producer k.producer) in
      cc (p, q),
  λ p. rw p (ground (arith, text_eq_iff k.channel k.channel, text_eq_iff k.producer k.producer)),
)

pub seen_of-set_seen :
    (j k : GapKey) (v : ℤ) (m : List (GapKey × ℤ))
    → seen_of j (set_seen k v m) ≡ (if same_key k j then some v else seen_of j m)
unfolding seen_of set_seen
seen_of-set_seen j k v [] = refl
seen_of-set_seen j k v ((i, w) ∷ m) = elim (Bool-cases (same_key i k)) [
  | inl e ↦
      let same : i ≡ k = (same_key_iff i k).0 e in
      elim (Bool-cases (same_key k j)) [
        | inl f ↦ rw (e, f, set_seen) refl
        | inr f ↦ let g : same_key i j ≡ false = rw same f in rw (e, f, g, set_seen) refl
      ]
  | inr e ↦ elim (Bool-cases (same_key i j)) [
    | inl f ↦
        let same : i ≡ j = (same_key_iff i j).0 f in
        let apart : same_key k j ≡ false = elim (Bool-cases (same_key k j)) [
          | inl g ↦
              let both : i ≡ k = same ∙ sym ((same_key_iff k j).0 g) in
              absurd (cc (sym ((same_key_iff i k).1 both) ∙ e))
          | inr g ↦ g
        ] in
        rw (e, apart, f, set_seen) refl
    | inr f ↦ rw (e, f, set_seen) (seen_of-set_seen j k v m)
  ]
]

-- The observations, in their order, and what the detector finds.
unfoldable pub observe_all : List (GapKey × ℕ) → GapDetector → GapDetector × List (GapKey × Finding)
observe_all [] d = (d, [])
observe_all ((k, n) ∷ seqs) d =
    let (d', f) = observe k.channel k.producer (pos n) d in
    let (d'', fs) = observe_all seqs d' in (d'', (k, f) ∷ fs)

-- The number of messages that the findings for a key say were missed.
unfoldable pub missed : GapKey → List (GapKey × Finding) → ℕ
missed k [] = 0
missed k ((j, f) ∷ fs) =
    let rest = missed k fs in if same_key j k then pos_part f.gap + rest else rest

-- The number of observations of a key that are no duplicates.
unfoldable pub fresh : GapKey → List (GapKey × Finding) → ℕ
fresh k [] = 0
fresh k ((j, f) ∷ fs) =
    let rest = fresh k fs in if same_key j k && not f.duplicate then suc rest else rest

pub gap_between_lem : (a b : ℕ) → a < b → b < 2 ^ 63 → gap_between (pos a) (pos b) ≡ pos (b - a - 1)
gap_between_lem a b h l = ground arith

abbrev duplicated : Finding
duplicated = record { gap = pos 0; duplicate = true; first = false }

abbrev advanced : ℕ → Finding
advanced gap = record { gap = pos gap; duplicate = false; first = false }

abbrev with_seen : GapKey → ℕ → GapDetector → GapDetector
with_seen k n d = record { seen = set_seen k (pos n) d.seen }

observe_self :
    (k : GapKey) (n prev : ℕ) (d : GapDetector)
    → n < 2 ^ 63
    → seen_of k d.seen ≡ some (pos prev)
    → ((prev < n)
        × (observe k.channel k.producer (pos n) d ≡ (with_seen k n d, advanced (n - prev - 1))))
      ⊎ (observe k.channel k.producer (pos n) d ≡ (d, duplicated))
unfolding observe
observe_self k n prev d l h = elim (Bool-cases (ltb_ℤ (pos prev) (pos n))) [
  | inl e ↦
      let less : prev < n = ground arith in
      inl (less, rw (h, observe, e, gap_between_lem prev n less l) refl)
  | inr e ↦ inr (rw (h, observe, e) refl)
]

observe_other :
    (k j : GapKey) (v : ℤ) (d : GapDetector)
    → same_key j k ≡ false
    → seen_of k (observe j.channel j.producer v d).0.seen ≡ seen_of k d.seen
unfolding observe
observe_other k j v d h =
    let kept : seen_of k (set_seen j v d.seen) ≡ seen_of k d.seen =
      rw (seen_of-set_seen k j v d.seen, h) refl in
    elim (Option-cases (seen_of j d.seen)) [
      | inl e ↦ rw (e, observe) kept
      | inr (prev, e) ↦ elim (Bool-cases (ltb_ℤ prev v)) [
        | inl f ↦ rw (e, observe, f) kept
        | inr f ↦ rw (e, observe, f) refl
      ]
    ]

-- For every sequence of observations with sequence numbers below 2^63, of a key mixed with any others,
-- that starts where the highest number seen of the key is known, the highest number seen of it at the
-- end exceeds that one by the messages of the key that were reported as missed and those that were
-- observed and not reported as duplicates.
pub gaps_add_up :
    (k : GapKey) (seqs : List (GapKey × ℕ)) (prev : ℕ) (d : GapDetector)
    → All (λ s. s.1 < 2 ^ 63) seqs
    → seen_of k d.seen ≡ some (pos prev)
    → let (d', findings) = observe_all seqs d in
      seen_of k d'.seen ≡ some (pos (prev + missed k findings + fresh k findings))
unfolding observe_all missed fresh
gaps_add_up k [] prev d l h = let same : prev + 0 + 0 ≡ prev = omega arith in rw same h
gaps_add_up k ((j, n) ∷ seqs) prev d (l, ls) h = elim (Bool-cases (same_key j k)) [
  | inr e ↦
      let later =
        gaps_add_up k seqs prev (observe j.channel j.producer (pos n) d).0 ls
          (observe_other k j (pos n) d e ∙ h) in
      rw (e, observe_all) later
  | inl e ↦
      let same : j ≡ k = (same_key_iff j k).0 e in
      let self : same_key k k ≡ true = rw same at e in
      rw (same, observe_all, self)
        (elim (observe_self k n prev d l h) [
          | inl (less, f) ↦
              let d' = with_seen k n d in
              let self_seen : seen_of k d'.seen ≡ some (pos n) =
                rw (seen_of-set_seen k k (pos n) d.seen, self) refl in
              let fs = (observe_all seqs d').1 in
              let sum : n + missed k fs + fresh k fs
                  ≡ prev + (n - prev - 1 + missed k fs) + suc (fresh k fs) =
                omega (arith, less) in
              rw f (gaps_add_up k seqs n d' ls self_seen ∙ ap (λ x. some (pos x)) sum)
          | inr f ↦
              let fs = (observe_all seqs d).1 in
              let sum : prev + missed k fs + fresh k fs ≡ prev + (0 + missed k fs) + fresh k fs =
                omega arith in
              rw f (gaps_add_up k seqs prev d ls h ∙ ap (λ x. some (pos x)) sum)
        ])
]
