-- ===== src/Auth/Snapshots/Reloading.antt =====
-- Runs of everything that writes to a ring: Add, AddAsymmetric, Promote, Retire and LoadSnapshot.
use parsec.Auth.KeyRing.Runs.{Call, after, after-IsValid, is_panicked}
use parsec.Auth.KeyRing.Validity.{IsValid}
use parsec.Auth.KeyRing.{Alg, Outcome, refused, done, KeyRing}
use parsec.Auth.Snapshots.Entries.{IsReadable, IsMade}
use parsec.Auth.Snapshots.RoundTrip.{load_snapshot-snapshot}
use parsec.Auth.Snapshots.{Forms, Snapshot, snapshot, load_snapshot}
use parsec.Common.{◌||◌, Bool, false, List, [], ◌∷◌, ◌≡◌, ◌⊎◌, inl, inr, refl, Option, All, Text}

pub data Change (S P : Type 0) : Type 0 where
  change_call : Call S P → Change S P
  change_load : Snapshot → Change S P

module _ {S P : Type 0} (f : Forms S P) (encode : Alg → Text → Option Text) where
  -- The ring behind a change, and whether the change panicked.
  unfoldable pub changed : Change S P → KeyRing S P → KeyRing S P × Bool
  changed (change_call c) r = after encode c r
  changed (change_load s) r = let (r', o) = load_snapshot f encode s r in (r', is_panicked o)

  unfoldable pub run_changes : List (Change S P) → KeyRing S P → KeyRing S P × Bool
  unfolding changed
  run_changes [] r = (r, false)
  run_changes (c ∷ changes) r =
      let (r', p) = changed c r in let (r'', q) = run_changes changes r' in (r'', p || q)

  -- The snapshot was taken of a valid ring, or no ring accepts it.
  abbrev pub IsSound : Change S P → Type 0
  IsSound (change_call c) = Unit
  IsSound (change_load s) =
      ((r : KeyRing S P) × (s ≡ snapshot f r) × IsValid r × All (λ x. IsMade f encode x.1) r.by_id)
      ⊎ ((r : KeyRing S P) → load_snapshot f encode s r ≡ (r, refused))

  load_keeps :
      (s : Snapshot) (r r' : KeyRing S P) (o : Outcome (Unit {0}))
      → load_snapshot f encode s r ≡ (r', o)
      → IsValid r'
      → is_panicked o ≡ false
      → IsValid (changed (change_load s) r).0 × ((changed (change_load s) r).1 ≡ false)
  unfolding changed
  load_keeps s r r' o e v n = rw (changed, e) (v, n)

  pub changed-IsValid :
      (c : Change S P) (r : KeyRing S P)
      → IsReadable f
      → IsSound c
      → IsValid r
      → IsValid (changed c r).0 × ((changed c r).1 ≡ false)
  unfolding changed
  changed-IsValid (change_call c) r h sound v = after-IsValid encode c r v
  changed-IsValid (change_load s) r h (inr refuses) v = load_keeps s r r refused (refuses r) v refl
  changed-IsValid (change_load s) r h (inl (r0, same, v0, made)) v =
      let (loaded, accepted, _, w) = load_snapshot-snapshot f encode r0 r h made v0 in
      load_keeps s r (record { by_id = loaded; active = r0.active }) (done tt) (rw same accepted) w
        refl

  -- Let hexadecimal numbers, times and PEM forms be read back. Any run of Add, AddAsymmetric, Promote,
  -- Retire and LoadSnapshot from a valid ring, where every snapshot that is loaded was taken of a valid
  -- ring with keys as the ring makes them, or is one that every ring refuses, leaves a valid ring, in
  -- which the only active key is the one that the ring names, and does not panic.
  pub changes_never_panic :
      (changes : List (Change S P)) (r : KeyRing S P)
      → IsReadable f
      → All IsSound changes
      → IsValid r
      → IsValid (run_changes changes r).0 × ((run_changes changes r).1 ≡ false)
  unfolding run_changes
  changes_never_panic [] r h sound v = (v, refl)
  changes_never_panic (c ∷ changes) r h (s, sound) v =
      let (w, p) = changed-IsValid c r h s v in
      let (w', q) = changes_never_panic changes (changed c r).0 h sound w in
      (w', rw (p, run_changes, q) refl)
