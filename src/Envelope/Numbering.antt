-- ===== src/Envelope/Numbering.antt =====
-- The numbers that a tracker gives out, seen by a detector.
use parsec.Common.{
  ℕ, ◌+◌, ◌-◌, ◌^◌, ◌<◌, true, false, List, [], ◌∷◌, none, some, ◌≡◌, ◌≢◌, refl, sym, ◌∙◌, ap,
  arith, length, Text, All, ℤ, pos, ltb_ℤ, Bool-cases, Option-cases, inl, inr, Map, lookup, insert,
  lookup-insert, lookup-insert_self, lookup-insert_ne, lookup-insert_cases, Text-discrete,
}
use parsec.Envelope.Accounting.{same_key_iff, seen_of-set_seen, gap_between_lem}
use parsec.Envelope.{
  GapKey, same_key, GapDetector, seen_of, set_seen, Finding, observe, gap_between, SequenceTracker,
  next, peek, snapshot, restore, copied, add_one, counter,
}

-- A copy of a tracker's state says what the tracker says.
lookup-copied : (k : Text) (m : Map ℤ) → lookup k (copied m) ≡ lookup k m
unfolding copied lookup
lookup-copied k [] = refl
lookup-copied k ((j, v) ∷ m) = lookup-insert j k v (copied m) ∙ (rw (lookup-copied k m) refl)

-- A tracker that is restored from the snapshot of another gives the same numbers for every channel,
-- with Peek and with Next.
pub restore-snapshot :
    (channel : Text) (t u : SequenceTracker)
    → (peek channel (restore (snapshot t) u) ≡ peek channel t)
      × ((next channel (restore (snapshot t) u)).1 ≡ (next channel t).1)
unfolding peek restore snapshot next
restore-snapshot channel t u =
    let same = lookup-copied channel (copied t.state) ∙ lookup-copied channel t.state in
    (ap counter same, ap (λ o. add_one (counter o)) same)

-- A producer sends messages on these channels, numbered by its tracker, and a subscriber observes them
-- as they come.
unfoldable pub deliver : Text → List Text → SequenceTracker → GapDetector → List Finding
deliver producer [] t d = []
deliver producer (channel ∷ channels) t d =
    let (t', v) = next channel t in
    let (d', f) = observe channel producer v d in f ∷ deliver producer channels t' d'

abbrev pub IsInOrder : Finding → Type 0
IsInOrder f = (f.gap ≡ pos 0) × (f.duplicate ≡ false)

-- The subscriber has seen of each channel what the producer sent last, a natural number below `bound`.
record IsLevel (producer : Text) (bound : ℕ) (t : SequenceTracker) (d : GapDetector) : Type 0 where
  level :
      (channel : Text)
      → seen_of (record { channel = channel; producer = producer }) d.seen ≡ lookup channel t.state
  small :
      (channel : Text) (v : ℤ)
      → lookup channel t.state ≡ some v
      → (n : ℕ) × (v ≡ pos n) × (n < bound)

add_one_lem : (n : ℕ) → n + 1 < 2 ^ 63 → add_one (pos n) ≡ pos (n + 1)
add_one_lem n h = ground arith

no_gap : (n : ℕ) → n + 1 < 2 ^ 63 → gap_between (pos n) (pos (n + 1)) ≡ pos 0
no_gap n h =
    let none_missed : n + 1 - n - 1 ≡ 0 = omega arith in
    gap_between_lem n (n + 1) (omega arith) h ∙ ap pos none_missed

abbrev key_of : Text → Text → GapKey
key_of channel producer = record { channel = channel; producer = producer }

abbrev sent : Text → ℕ → SequenceTracker → SequenceTracker
sent channel n t = record { state = insert channel (pos n) t.state }

abbrev received : Text → Text → ℕ → GapDetector → GapDetector
received channel producer n d = record { seen = set_seen (key_of channel producer) (pos n) d.seen }

module _ (producer channel : Text) (bound : ℕ) (t : SequenceTracker) (d : GapDetector)
    (l : IsLevel producer bound t d) (fits : bound < 2 ^ 63) (some_room : 0 < bound) where
  -- One message: its number, and what is found.
  one_message :
      (n : ℕ) × (n < bound + 1)
      × (next channel t ≡ (sent channel n t, pos n))
      × (f : Finding) × IsInOrder f
      × (observe channel producer (pos n) d ≡ (received channel producer n d, f))
  unfolding next observe
  one_message = elim (Option-cases (lookup channel t.state)) [
    | inl e ↦
        let unseen : seen_of (key_of channel producer) d.seen ≡ none = l.level channel ∙ e in
        (
          1,
          omega arith,
          rw (e, next) refl,
          record { gap = pos 0; duplicate = false; first = true },
          (refl, refl),
          rw (unseen, observe) refl,
        )
    | inr (v, e) ↦
        let (n, p, b) = l.small channel v e in
        let found : lookup channel t.state ≡ some (pos n) = e ∙ ap some p in
        let seen : seen_of (key_of channel producer) d.seen ≡ some (pos n) =
          l.level channel ∙ found in
        let more : n + 1 < 2 ^ 63 = omega arith in
        let ahead : ltb_ℤ (pos n) (pos (n + 1)) ≡ true = ground arith in
        (
          n + 1,
          omega arith,
          rw (found, next, add_one_lem n more) refl,
          record { gap = pos 0; duplicate = false; first = false },
          (refl, refl),
          rw (seen, observe, ahead, no_gap n more) refl,
        )
  ]

  other_key :
      (c : Text) → channel ≢ c → same_key (key_of channel producer) (key_of c producer) ≡ false
  other_key c h = elim (Bool-cases (same_key (key_of channel producer) (key_of c producer))) [
    | inl e ↦ absurd (
        h (
          ap (λ (x : GapKey). x.channel)
            ((same_key_iff (key_of channel producer) (key_of c producer)).0 e)))
    | inr e ↦ e
  ]

  sent-IsLevel :
      (n : ℕ)
      → n < bound + 1
      → IsLevel producer (bound + 1) (sent channel n t) (received channel producer n d)
  sent-IsLevel n h = record {
    level = λ c. elim (Text-discrete channel c) [
      | yes e ↦
          let self : same_key (key_of channel producer) (key_of channel producer) ≡ true =
            (same_key_iff (key_of channel producer) (key_of channel producer)).1 refl in
          rw (← e) (
            rw
              (
                seen_of-set_seen (key_of channel producer) (key_of channel producer) (pos n) d.seen,
                lookup-insert_self channel (pos n) t.state,
                self,
              )
              refl)
      | no e ↦
          rw
            (
              seen_of-set_seen (key_of c producer) (key_of channel producer) (pos n) d.seen,
              lookup-insert_ne channel c (pos n) t.state e,
              other_key c e,
            )
            (l.level c)
    ];
    small = λ c v e. elim (lookup-insert_cases channel c (pos n) v t.state e) [
      | inl (_, q) ↦ (n, sym q, h)
      | inr (_, q) ↦ let (m, p, b) = l.small c v q in (m, p, omega arith)
    ];
  }

All-IsInOrder :
    (producer : Text) (channels : List Text) (bound : ℕ) (t : SequenceTracker) (d : GapDetector)
    → IsLevel producer bound t d
    → 0 < bound
    → bound + length channels < 2 ^ 63
    → All IsInOrder (deliver producer channels t d)
unfolding deliver
All-IsInOrder producer [] bound t d l some_room fits = tt
All-IsInOrder producer (channel ∷ channels) bound t d l some_room fits =
    let (n, small, e, f, good, o) =
      one_message producer channel bound t d l (omega arith) some_room in
    let later =
      All-IsInOrder producer channels (bound + 1) (sent channel n t) (received channel producer n d)
        (sent-IsLevel producer channel bound t d l (omega arith) some_room n small) (omega arith)
        (omega arith) in
    rw (e, deliver, o) (good, later)

-- A subscriber that starts with its producer and observes all of its messages in the order in which they
-- were numbered, fewer than 2^63 - 1 of them and on whatever channels, finds no gap and no duplicate.
pub deliver-IsInOrder :
    (producer : Text) (channels : List Text)
    → 1 + length channels < 2 ^ 63
    → All IsInOrder (deliver producer channels (record { state = [] }) (record { seen = [] }))
unfolding lookup seen_of
deliver-IsInOrder producer channels fits =
    All-IsInOrder producer channels 1 _ _
      (record { level = λ c. refl; small = λ c v e. absurd (cc e) }) (omega arith) fits
