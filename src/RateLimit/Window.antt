-- ===== src/RateLimit/Window.antt =====
-- The number of events that one key is granted within a window.
use parsec.Common.{
  ℕ, ◌+◌, ◌≤◌, ◌<◌, false, List, [], ◌∷◌, ◌++◌, append_assoc, ◌≡◌, refl, sym, ◌∙◌, ap, arith,
  Option, none, some, if◌then◌else◌, ltb, length, length-append, length-replicate, replicate, All,
  All-append, Text, lookup, insert, Map, append-nil, text_eq, text_eq_iff, ne_of_text_eq, inl, inr,
  lookup-insert_self, lookup-insert_ne, ℤ, pos_part, Bool-cases,
}
use parsec.RateLimit.{
  Limit, normalize, unlimited, Decision, MemoryLimiter, drop_old, ceiling, charge, bucket_of,
  charged, allow_with_limit,
}

-- How many events of a list lie no further back than `per`.
unfoldable pub recent : ℕ → ℕ → List ℕ → ℕ
recent now per [] = 0
recent now per (e ∷ events) =
    let rest = recent now per events in if ltb (e + per) now then rest else rest + 1

abbrev IsOld : ℕ → ℕ → ℕ → Type 0
IsOld now per e = e + per < now

-- What `drop_old` takes away is old.
record Dropped (now per : ℕ) (events : List ℕ) : Type 0 where
  front : List ℕ
  whole : front ++ drop_old now per events ≡ events
  old : All (IsOld now per) front

dropped : (now per : ℕ) (events : List ℕ) → Dropped now per events
unfolding drop_old
dropped now per [] = record { front = []; whole = refl; old = tt }
dropped now per (e ∷ events) =
    let d = dropped now per events in
    elim (Bool-cases (ltb (e + per) now)) [
      | inl h ↦ record {
        front = e ∷ d.front;
        whole = rw h (ap (◌∷◌ e) d.whole);
        old = (ground arith, d.old);
      }
      | inr h ↦ record { front = []; whole = rw h refl; old = tt }
    ]

recent-old :
    (now per : ℕ) (old events : List ℕ)
    → All (IsOld now per) old
    → recent now per (old ++ events) ≤ length events
unfolding recent
recent-old now per [] [] h = omega arith
recent-old now per [] (e ∷ events) h = ground (arith, recent-old now per [] events tt)
recent-old now per (o ∷ old) events (h, hs) = ground (arith, recent-old now per old events hs)

older :
    (before now per : ℕ) (old : List ℕ)
    → before ≤ now
    → All (IsOld before per) old
    → All (IsOld now per) old
older before now per [] l h = tt
older before now per (o ∷ old) l (h, hs) = (omega arith, older before now per old l hs)

-- One call's grant, as the times of the events granted.
unfoldable pub granted : ℕ → ℕ → Option Decision → List ℕ
granted now n none = []
granted now n (some d) = if d.allowed then replicate n now else []

-- A bucket holds all that was granted but for old events, and at most `cap` of it.
record IsLog (now per cap : ℕ) (grants events : List ℕ) : Type 0 where
  gone : List ℕ
  whole : gone ++ events ≡ grants
  old : All (IsOld now per) gone
  bound : length events ≤ cap

charge-IsLog :
    (lim : Limit) (before now n : ℕ) (grants events : List ℕ)
    → before ≤ now
    → IsLog before (pos_part lim.per) (ceiling lim) grants events
    → IsLog now
        (pos_part lim.per)
        (ceiling lim)
        (grants ++ granted now n (some (charge now lim n events).1))
        (charge now lim n events).0
unfolding charge granted
charge-IsLog lim before now n grants events later l =
    let per = pos_part lim.per in
    let live = drop_old now per events in
    let d = dropped now per events in
    let gone = l.gone ++ d.front in
    let whole : gone ++ live ≡ grants =
      append_assoc l.gone d.front live ∙ ap (λ xs. l.gone ++ xs) d.whole ∙ l.whole in
    let old =
      All-append (IsOld now per) l.gone d.front (older before now per l.gone later l.old) d.old in
    let shorter : length live ≤ length events =
      omega (arith, ap length d.whole, length-append d.front live) in
    elim (Bool-cases (ltb (ceiling lim) (length live + n))) [
      | inl h ↦
          rw (h, charge)
            (record {
              gone = gone;
              whole = whole ∙ sym (append-nil grants);
              old = old;
              bound = omega (arith, shorter, l.bound);
            })
      | inr h ↦
          rw (h, charge)
            (record {
              gone = gone;
              whole =
                  sym (append_assoc gone live (replicate n now))
                  ∙ ap (λ xs. xs ++ replicate n now) whole;
              old = old;
              bound = ground (arith, length-append live (replicate n now), length-replicate n now);
            })
    ]

-- Calls for any keys, each with its time, key and number of events: the limiter behind them, and
-- the times of the events that they grant to `key`.
unfoldable pub run : Limit → Text → List (ℕ × (Text × ℤ)) → MemoryLimiter → MemoryLimiter × List ℕ
unfolding granted
run lim key [] m = (m, [])
run lim key ((now, (k, n)) ∷ calls) m =
    let (m', decision) = allow_with_limit false k n lim now m in
    let (m'', later) = run lim key calls m' in
    (m'', (if text_eq k key then granted now (charged n) decision else []) ++ later)

-- The clock does not go back, from `before` over the calls to `now`.
abbrev pub IsAscending : ℕ → List (ℕ × (Text × ℤ)) → ℕ → Type 0
IsAscending before [] now = before ≤ now
IsAscending before ((t, c) ∷ calls) now = (before ≤ t) × IsAscending t calls now

pub allow_lem :
    (k : Text) (n : ℤ) (lim : Limit) (now : ℕ) (m : MemoryLimiter)
    → unlimited (normalize lim) ≡ false
    → let (events, decision) =
        charge now (normalize lim) (charged n) (bucket_of (lookup k m.buckets)) in
      allow_with_limit false k n lim now m
      ≡ (record m { buckets = insert k events m.buckets }, some decision)
unfolding allow_with_limit
allow_lem k n lim now m h = rw (h, allow_with_limit) refl

step-IsLog :
    (lim : Limit) (key k : Text) (before now n : ℕ) (m : Map (List ℕ)) (grants : List ℕ)
    → before ≤ now
    → IsLog before (pos_part lim.per) (ceiling lim) grants (bucket_of (lookup key m))
    → let (events, decision) = charge now lim n (bucket_of (lookup k m)) in
      IsLog now
        (pos_part lim.per)
        (ceiling lim)
        (grants ++ (if text_eq k key then granted now n (some decision) else []))
        (bucket_of (lookup key (insert k events m)))
unfolding bucket_of
step-IsLog lim key k before now n m grants a l = elim (Bool-cases (text_eq k key)) [
  | inl e ↦
      let same : k ≡ key = (text_eq_iff k key).0 e in
      rw (e, same, lookup-insert_self key _ m)
        (charge-IsLog lim before now n grants (bucket_of (lookup key m)) a l)
  | inr e ↦
      rw (e, lookup-insert_ne k key _ m (ne_of_text_eq k key e))
        (record {
          gone = l.gone;
          whole = l.whole ∙ sym (append-nil grants);
          old = older before now _ l.gone a l.old;
          bound = l.bound;
        })
]

run-IsLog :
    (lim : Limit) (key : Text) (calls : List (ℕ × (Text × ℤ))) (m : MemoryLimiter) (before now : ℕ)
    (grants : List ℕ)
    → unlimited (normalize lim) ≡ false
    → IsAscending before calls now
    → IsLog before
        (pos_part (normalize lim).per)
        (ceiling (normalize lim))
        grants
        (bucket_of (lookup key m.buckets))
    → IsLog now
        (pos_part (normalize lim).per)
        (ceiling (normalize lim))
        (grants ++ (run lim key calls m).1)
        (bucket_of (lookup key (run lim key calls m).0.buckets))
unfolding run bucket_of granted
run-IsLog lim key [] m before now grants h a l = record {
  gone = l.gone;
  whole = l.whole ∙ sym (append-nil grants);
  old = older before now _ l.gone a l.old;
  bound = l.bound;
}
run-IsLog lim key ((t, (k, n)) ∷ calls) m before now grants h (a, rest) l =
    let lim' = normalize lim in
    let c = charge t lim' (charged n) (bucket_of (lookup k m.buckets)) in
    let m' : MemoryLimiter = record m { buckets = insert k c.0 m.buckets } in
    let more = if text_eq k key then granted t (charged n) (some c.1) else [] in
    rw (allow_lem k n lim t m h, run)
      (rw (sym (append_assoc grants more (run lim key calls m').1)) (
        run-IsLog lim key calls m' t now (grants ++ more) h rest
          (step-IsLog lim' key k before t (charged n) m.buckets grants a l)))

-- However the calls for different keys are mixed, as long as the clock does not go back, the events
-- that calls with one limit that is not unlimited grant to a key whose bucket was empty never exceed
-- the ceiling, the larger of the normalized rate and burst, within one window that ends at or after
-- the last call.
pub window_bound :
    (lim : Limit) (key : Text) (calls : List (ℕ × (Text × ℤ))) (m : MemoryLimiter) (now : ℕ)
    → unlimited (normalize lim) ≡ false
    → lookup key m.buckets ≡ none
    → IsAscending 0 calls now
    → recent now (pos_part (normalize lim).per) (run lim key calls m).1 ≤ ceiling (normalize lim)
unfolding bucket_of
window_bound lim key calls m now h empty a =
    let lim' = normalize lim in
    let start : IsLog 0 (pos_part lim'.per) (ceiling lim') [] (bucket_of (lookup key m.buckets)) =
      rw empty (record { gone = []; whole = refl; old = tt; bound = omega arith }) in
    let l = run-IsLog lim key calls m 0 now [] h a start in
    rw (← l.whole) (omega (arith, recent-old now (pos_part lim'.per) l.gone _ l.old, l.bound))
