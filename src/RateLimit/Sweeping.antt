-- ===== src/RateLimit/Sweeping.antt =====
-- A sweep is not seen by the calls that follow it.
use mathlib.Core.Option
use parsec.Common.{
  ℕ, ◌≤◌, true, false, List, [], ◌∷◌, ◌≡◌, refl, sym, ◌∙◌, ap, arith, Option, none, some,
  if◌then◌else◌, ◌==◌, length, Text, Map, lookup, update_all, Distinct, lookup-update_all,
  lookup-insert_self, ℤ, pos_part, Bool-cases, Option-cases, inl, inr,
}
use parsec.RateLimit.Window.{allow_lem}
use parsec.RateLimit.{
  Limit, unlimited, normalize, Decision, MemoryLimiter, drop_old, charge, bucket_of, charged, allow,
  sweep_buckets, sweep,
}

drop_old_twice :
    (before now per : ℕ) (events : List ℕ)
    → before ≤ now
    → drop_old now per (drop_old before per events) ≡ drop_old now per events
unfolding drop_old
drop_old_twice before now per [] h = refl
drop_old_twice before now per (e ∷ events) h =
    ground (arith, drop_old_twice before now per events h)

swept : ℕ → ℕ → List ℕ → Option (List ℕ)
swept now per events =
    if length (drop_old now per events) == 0 then none else some (drop_old now per events)

sweep_buckets-update_all :
    (now per : ℕ) (m : Map (List ℕ)) → (sweep_buckets now per m).0 ≡ update_all (swept now per) m
unfolding sweep_buckets update_all swept
sweep_buckets-update_all now per [] = refl
sweep_buckets-update_all now per ((key, events) ∷ m) =
    ground (arith, sweep_buckets-update_all now per m)

no_events : (events : List ℕ) → (length events == 0) ≡ true → events ≡ []
no_events [] h = refl
no_events (e ∷ events) h = absurd (ground arith)

bucket_of-sweep :
    (now per : ℕ) (key : Text) (m : Map (List ℕ))
    → Distinct m
    → bucket_of (lookup key (sweep_buckets now per m).0)
      ≡ drop_old now per (bucket_of (lookup key m))
unfolding bucket_of swept drop_old Option.bind
bucket_of-sweep now per key m d =
    rw (sweep_buckets-update_all now per m, lookup-update_all (swept now per) key m d)
      (elim (Option-cases (lookup key m)) [
        | inl e ↦ rw e refl
        | inr (events, e) ↦ elim (Bool-cases (length (drop_old now per events) == 0)) [
          | inl z ↦ rw (e, swept, z) (sym (no_events _ z))
          | inr z ↦ rw (e, swept, z) refl
        ]
      ])

charge_of_drop :
    (now : ℕ) (lim : Limit) (n : ℕ) (xs ys : List ℕ)
    → drop_old now (pos_part lim.per) xs ≡ drop_old now (pos_part lim.per) ys
    → charge now lim n xs ≡ charge now lim n ys
unfolding charge
charge_of_drop now lim n xs ys h = rw h refl

-- Sweeping a limiter whose own limit is normalized and not unlimited, at a time not after the next call, changes neither the
-- decision of that call for any key nor the bucket that it leaves.
allow-sweep :
    (key : Text) (n : ℤ) (before now : ℕ) (m : MemoryLimiter)
    → Distinct m.buckets
    → normalize m.limit ≡ m.limit
    → before ≤ now
    → unlimited (normalize m.limit) ≡ false
    → let (after_sweep, decision) = allow false key n now (sweep before m).0 in
      let (unswept, decision') = allow false key n now m in
      (decision ≡ decision') × (lookup key after_sweep.buckets ≡ lookup key unswept.buckets)
unfolding allow sweep
allow-sweep key n before now m d normal later limited =
    let per = pos_part m.limit.per in
    let lim = normalize m.limit in
    let swept_buckets = (sweep_buckets before per m.buckets).0 in
    let events = bucket_of (lookup key m.buckets) in
    let same_per : pos_part lim.per ≡ per = ap (λ (l : Limit). pos_part l.per) normal in
    let same : drop_old now (pos_part lim.per) (bucket_of (lookup key swept_buckets))
        ≡ drop_old now (pos_part lim.per) events =
      rw (same_per, bucket_of-sweep before per key m.buckets d)
        (drop_old_twice before now per events later) in
    let charges = charge_of_drop now lim (charged n) _ events same in
    rw
      (
        allow_lem key n m.limit now (record m { buckets = swept_buckets }) limited,
        allow_lem key n m.limit now m limited,
      )
      (
        ap (λ (c : List ℕ × Decision). some c.1) charges,
        lookup-insert_self key _ swept_buckets
            ∙ ap (λ (c : List ℕ × Decision). some c.0) charges
            ∙ sym (lookup-insert_self key _ m.buckets),
      )
