-- ===== src/Tests/Keys.antt =====
-- The theorems on the changes of the key ring: another node has written when the first attempt saves.
use parsec.Auth.KeyRing.{
  Alg, alg_hs256, role_active, role_verify_only, role_retired, done, refused, Key, KeyRing,
  new_key_ring, get, promote, retire, build_header, is_valid_alg,
}
use parsec.Auth.Signer.{family_other, curve_other, alg_or_default}
use parsec.Auth.Snapshots.Entries.{IsReadable, IsMade, made_secret}
use parsec.Auth.KeyRing.Runs.{call_promote}
use parsec.Auth.KeyRing.Validity.{IsValid, new_key_ring-IsValid}
use parsec.Auth.Snapshots.Reloading.{
  Change, change_call, change_load, run_changes, IsSound, changes_never_panic,
}
use parsec.Auth.Snapshots.Retiring.{IsWithout, retire_is_final}
use parsec.Auth.Snapshots.RoundTrip.{live, load_snapshot-snapshot}
use parsec.Auth.Snapshots.{
  Forms, snapshot, load_snapshot, entries_of, entry_of, place_entry, load_entries, key_of_entry,
  material_of, retired_at_of,
}
use parsec.Common.{
  List, false, ◌⊎◌, inl, inr, ap, sym, ◌∙◌, ◌≢◌, arith, ℕ, zero, suc, [], ◌∷◌, ◌≡◌, ◌↔◌, refl,
  Option, none, some, replicate, text_lt, Text, codes, lookup, insert, Map, All, Text-discrete,
  Bool-cases,
}
use parsec.Errors.{ok}
use parsec.Facade.Keys.Persisting.{IsSaved, mutate_keys_iff, retire_key_saved}
use parsec.Facade.Keys.{
  Saving, saved, conflict, KeyRingStore, mutate_keys, mutate_from, retire_key, persist_key_ring,
  reload_after_conflict, reload_keys_locked, adopt, max_key_mutation_attempts,
}

abbrev first_byte : Text → Option ℕ
first_byte [] = none
first_byte (n ∷ s) = some n

abbrev forms : Forms ℕ ℕ
forms = record {
  hex = λ s. s;
  unhex = λ s. some s;
  format_time = λ t. t ∷ [];
  parse_time = first_byte;
  pem = λ s. none;
  unpem = λ s. none;
  family = λ s. family_other;
  public_of = λ s. s;
  curve = λ p. curve_other;
}

abbrev encode : Alg → Text → Option Text
encode alg kid = some kid

abbrev key : Text → Key ℕ ℕ
key id = record {
  id = id;
  alg = alg_hs256;
  secret = replicate 32 7;
  private = none;
  public = none;
  role = role_active;
  created_at = 5;
  retired_at = none;
  header = id;
}

abbrev ring : KeyRing ℕ ℕ
ring = record {
  by_id =
      (codes "k", key (codes "k"))
      ∷ (codes "l", record (key (codes "l")) { role = role_verify_only })
      ∷ [];
  active = codes "k";
}

abbrev without_l : KeyRing ℕ ℕ
without_l = record {
  by_id =
      (codes "k", key (codes "k"))
      ∷ (codes "l", record (key (codes "l")) { role = role_retired; retired_at = some 9 })
      ∷ [];
  active = codes "k";
}

-- Counts its writes, and the first one meets a conflict.
abbrev answers : ℕ → ℕ × Saving
answers zero = (1, conflict)
answers (suc n) = (suc (suc n), saved)

abbrev store : KeyRingStore ℕ ℕ ℕ
store = record { load = λ t. (t, some ring); save = λ r t. answers t }

retired_key :
    retire_key forms encode (some store) (codes "l") 9 ring 0 ≡ (2, without_l, done (ok tt))
unfolding retire_key mutate_keys mutate_from retire persist_key_ring reload_after_conflict
    reload_keys_locked adopt snapshot entries_of entry_of place_entry load_snapshot load_entries
    key_of_entry material_of retired_at_of build_header is_valid_alg alg_or_default text_lt lookup
    insert Text-discrete Bool-cases
retired_key = refl

retire_key_saved_example :
    (get (codes "l") without_l ≡ refused)
    × (promote (codes "l") without_l ≡ (without_l, refused))
    × (state : ℕ) × (store.save without_l state ≡ (2, saved))
retire_key_saved_example =
    retire_key_saved forms encode store (codes "l") 9 ring 0 2 without_l retired_key

mutate_keys_iff_example :
    (mutate_keys forms encode (some store) (λ n. retire (codes "l") 9) ring 0
      ≡ (2, without_l, done (ok tt)))
    ↔ IsSaved forms encode
        (some store)
        (λ n. retire (codes "l") 9)
        max_key_mutation_attempts
        ring
        0
        2
        without_l
        tt
mutate_keys_iff_example =
    mutate_keys_iff forms encode (some store) (λ n. retire (codes "l") 9) ring 0 2 without_l tt

forms-IsReadable : IsReadable forms
forms-IsReadable = record { unhex = λ s. refl; parse = λ t. refl; shown = λ t h. cc h }

k_header : build_header encode (codes "k") alg_hs256 ≡ some (codes "k")
unfolding build_header is_valid_alg
k_header = refl

l_header : build_header encode (codes "l") alg_hs256 ≡ some (codes "l")
unfolding build_header is_valid_alg
l_header = refl

ring-IsMade : All (λ x. IsMade forms encode x.1) ring.by_id
ring-IsMade = (
  made_secret (codes "k") (replicate 32 7) role_active 5 none (codes "k") refl k_header,
  (made_secret (codes "l") (replicate 32 7) role_verify_only 5 none (codes "l") refl l_header, tt),
)

ring_cases :
    (id : Text) (k : Key ℕ ℕ)
    → lookup id ring.by_id ≡ some k
    → ((id ≡ codes "k") × (k ≡ key (codes "k")))
      ⊎ ((id ≡ codes "l") × (k ≡ record (key (codes "l")) { role = role_verify_only }))
unfolding lookup
ring_cases id k h = elim (Text-discrete (codes "k") id) [
  | yes p ↦ inl (sym p, ground (arith, h, p))
  | no p ↦ elim (Text-discrete (codes "l") id) [
    | yes q ↦ inr (sym q, ground (arith, h, p, q))
    | no q ↦ absurd (ground (arith, h, p, q))
  ]
]

ring_keyed : (id : Text) (k : Key ℕ ℕ) → lookup id ring.by_id ≡ some k → (k.id ≡ id) × (id ≢ [])
ring_keyed id k h = elim (ring_cases id k h) [
  | inl (p, q) ↦ (ap (λ (x : Key ℕ ℕ). x.id) q ∙ sym p, λ e. cc (p, e))
  | inr (p, q) ↦ (ap (λ (x : Key ℕ ℕ). x.id) q ∙ sym p, λ e. cc (p, e))
]

ring_unique :
    (id : Text) (k : Key ℕ ℕ)
    → lookup id ring.by_id ≡ some k
    → k.role ≡ role_active
    → id ≡ codes "k"
ring_unique id k h act = elim (ring_cases id k h) [
  | inl (p, q) ↦ p
  | inr (p, q) ↦ absurd (cc (sym (ap (λ (x : Key ℕ ℕ). x.role) q) ∙ act))
]

ring-IsValid : IsValid ring
unfolding lookup Text-discrete Bool-cases
ring-IsValid = record {
  entries = record { distinct = (refl, (refl, tt)); keyed = ring_keyed };
  unique = ring_unique;
  present = inr (key (codes "k"), refl, refl);
}

load_snapshot-snapshot_example :
    (loaded : Map (Key ℕ ℕ)) × (load_snapshot forms encode (snapshot forms ring) without_l
      ≡ (record { by_id = loaded; active = codes "k" }, done tt))
    × ((id : Text) → lookup id loaded ≡ live (lookup id ring.by_id))
    × IsValid (record { by_id = loaded; active = codes "k" })
load_snapshot-snapshot_example =
    load_snapshot-snapshot forms encode ring without_l forms-IsReadable ring-IsMade ring-IsValid

abbrev changes : List (Change ℕ ℕ)
changes = change_call (call_promote (codes "l")) ∷ change_load (snapshot forms ring) ∷ []

changes_never_panic_example :
    IsValid (run_changes forms encode changes ring).0
    × ((run_changes forms encode changes ring).1 ≡ false)
changes_never_panic_example =
    changes_never_panic forms encode changes ring forms-IsReadable
      (tt, (inl (ring, refl, ring-IsValid, ring-IsMade), tt)) ring-IsValid

l_retires : (retire (codes "l") 9 ring).1 ≡ done tt
unfolding retire lookup insert Text-discrete Bool-cases
l_retires = refl

-- The second change loads the snapshot of an empty ring.
abbrev reset : List (Change ℕ ℕ)
reset =
    change_call (call_promote (codes "l"))
    ∷ change_load (snapshot forms (new_key_ring {S = ℕ} {P = ℕ}))
    ∷ []

reset-IsSound : All (IsSound forms encode) reset
reset-IsSound = (tt, (inl (new_key_ring, refl, new_key_ring-IsValid, tt), tt))

reset-IsWithout : All (IsWithout (codes "l")) reset
unfolding snapshot entries_of
reset-IsWithout = (tt, (tt, tt))

retire_is_final_example :
    let r' = (run_changes forms encode reset (retire (codes "l") 9 ring).0).0 in
    (get (codes "l") r' ≡ refused) × (promote (codes "l") r' ≡ (r', refused))
retire_is_final_example =
    retire_is_final forms encode (codes "l") 9 ring reset forms-IsReadable reset-IsSound
      reset-IsWithout ring-IsValid l_retires
