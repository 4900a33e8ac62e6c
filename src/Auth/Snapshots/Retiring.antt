-- ===== src/Auth/Snapshots/Retiring.antt =====
-- A retired key, behind any changes of its ring.
use parsec.Auth.KeyRing.Absence.{IsOther, after_absent}
use parsec.Auth.KeyRing.Retirement.{IsRetired, accepted, closed, after-IsRetired}
use parsec.Auth.KeyRing.Runs.{after}
use parsec.Auth.KeyRing.Validity.{IsValid, retire-IsValid}
use parsec.Auth.KeyRing.{Alg, done, refused, KeyRing, get, promote, retire}
use parsec.Auth.Snapshots.Entries.{IsReadable}
use parsec.Auth.Snapshots.Loaded.{loaded_absent}
use parsec.Auth.Snapshots.Reloading.{
  Change, change_call, change_load, changed, run_changes, IsSound, changed-IsValid,
}
use parsec.Auth.Snapshots.{Forms, Snapshot, load_entries, load_snapshot}
use parsec.Common.{
  ◌&&◌, ltb, length, ℕ, List, [], ◌∷◌, ◌≡◌, ◌≢◌, ◌⊎◌, inl, inr, refl, Option, none, All, Text,
  text_eq, lookup, Bool-cases, Option-cases,
}

module _ {S P : Type 0} where
  -- The ring does not have the key, or has it as a retired one.
  abbrev IsGone : Text → KeyRing S P → Type 0
  IsGone id r = (lookup id r.by_id ≡ none) ⊎ IsRetired id r

  -- The change does not bring a key of the id: it adds none, and a snapshot that it loads has none.
  abbrev pub IsWithout : Text → Change S P → Type 0
  IsWithout id (change_call c) = IsOther id c
  IsWithout id (change_load s) = All (λ e. e.id ≢ id) s.keys

  pub gone_closed :
      (id : Text) (r : KeyRing S P)
      → IsGone id r
      → (get id r ≡ refused) × (promote id r ≡ (r, refused))
  unfolding get promote
  gone_closed id r (inl e) = rw (e, get, promote) (refl, refl)
  gone_closed id r (inr t) = closed id r t

module _ {S P : Type 0} (f : Forms S P) (encode : Alg → Text → Option Text) where
  -- A load leaves the ring or makes it one without the key.
  load_without :
      (id : Text) (s : Snapshot) (r : KeyRing S P)
      → All (λ e. e.id ≢ id) s.keys
      → ((load_snapshot f encode s r).0 ≡ r)
        ⊎ (lookup id (load_snapshot f encode s r).0.by_id ≡ none)
  unfolding load_snapshot lookup
  load_without id s r n = elim (Bool-cases (text_eq s.active_key_id [] && ltb 0 (length s.keys))) [
    | inl e ↦ inl (rw (load_snapshot, e) refl)
    | inr e ↦ elim (Option-cases (load_entries f encode [] s.keys)) [
      | inl l ↦ inl (rw (load_snapshot, e, l) refl)
      | inr (loaded, l) ↦
          let absent = loaded_absent f encode id s.keys [] loaded l n in
          elim (Option-cases (lookup s.active_key_id loaded)) [
            | inr (k, a) ↦ inr (rw (load_snapshot, e, l, a) absent)
            | inl a ↦ elim (Bool-cases (text_eq s.active_key_id [])) [
              | inl z ↦ inr (rw (load_snapshot, e, l, a, z) absent)
              | inr z ↦ inl (rw (load_snapshot, e, l, a, z) refl)
            ]
          ]
    ]
  ]

  changed-IsGone :
      (id : Text) (c : Change S P) (r : KeyRing S P)
      → IsValid r
      → IsWithout id c
      → IsGone id r
      → IsGone id (changed f encode c r).0
  unfolding changed after
  changed-IsGone id (change_call c) r v n (inr t) = inr (after-IsRetired encode id c r v t)
  changed-IsGone id (change_call c) r v n (inl e) = inl (after_absent encode id c r v n e)
  changed-IsGone id (change_load s) r v n t = elim (load_without id s r n) [
    | inl same ↦ rw same t
    | inr absent ↦ inl absent
  ]

  run_changes-IsGone :
      (id : Text) (changes : List (Change S P)) (r : KeyRing S P)
      → IsReadable f
      → All (IsSound f encode) changes
      → All (IsWithout id) changes
      → IsValid r
      → IsGone id r
      → IsGone id (run_changes f encode changes r).0
  unfolding run_changes
  run_changes-IsGone id [] r h sound n v t = t
  run_changes-IsGone id (c ∷ changes) r h (s, sound) (n, ns) v t =
      run_changes-IsGone id changes (changed f encode c r).0 h sound ns
        (changed-IsValid f encode c r h s v).0 (changed-IsGone id c r v n t)

  -- Let hexadecimal numbers, times and PEM forms be read back. A key of a valid ring whose retirement
  -- was accepted can not be had from the ring again, nor promoted, whatever calls of Add,
  -- AddAsymmetric, Promote, Retire and LoadSnapshot follow that add no key of its id, and load only
  -- snapshots without a key of its id, which were taken of valid rings with keys as the ring makes
  -- them, or which every ring refuses. An earlier snapshot, which still has the key, brings it back.
  pub retire_is_final :
      (id : Text) (now : ℕ) (r : KeyRing S P) (changes : List (Change S P))
      → IsReadable f
      → All (IsSound f encode) changes
      → All (IsWithout id) changes
      → IsValid r
      → (retire id now r).1 ≡ done tt
      → let r' = (run_changes f encode changes (retire id now r).0).0 in
        (get id r' ≡ refused) × (promote id r' ≡ (r', refused))
  retire_is_final id now r changes h sound n v t = gone_closed id _ (
      run_changes-IsGone id changes (retire id now r).0 h sound n (retire-IsValid id now r v)
        (inr (accepted id now r t)))
