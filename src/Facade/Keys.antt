-- ===== src/Facade/Keys.antt =====
-- parsec.go: the loop that changes the key ring and persists it, and the reload. The store of the ring
-- is a parameter with a state of its own, in which other nodes write between two calls. A key is
-- generated from a draw for each attempt. The metrics are left out.
pub mod Persisting
use parsec.Auth.KeyRing.{
  Alg, alg_hs256, alg_rs256, alg_eddsa, alg_es256, alg_es384, Outcome, done, refused, panicked, Key,
  KeyRing, promote, retire, add, add_asymmetric,
}
use parsec.Auth.Snapshots.{Forms, Snapshot, snapshot, load_snapshot}
use parsec.Common.{
  ℕ, zero, suc, Bool, true, false, ◌||◌, List, [], Option, none, some, if◌then◌else◌, Text, text_eq,
}
use parsec.Errors.{Result, ok, err, invalid_argument, internal}

-- The errors of `Save`: `ErrKeyRingConflict`, and any other.
pub data Saving : Type 0 where
  saved conflict failed : Saving

-- A `KeyRingStore` with a state.
pub record KeyRingStore (S P T : Type 0) : Type 0 where
  pub load : T → T × Option (KeyRing S P)
  pub save : KeyRing S P → T → T × Saving

-- What a mutation draws at an attempt: a key id, a secret, and a pair of keys; each draw may fail.
pub record Draws (S P : Type 0) : Type 0 where
  pub id : Option Text
  pub secret : Option Text
  pub pair : Option (S × P)

abbrev pub max_key_mutation_attempts : ℕ
max_key_mutation_attempts = 5

module _ {S P : Type 0} where
  -- The end of the functions that generate: `addAsymmetric` for the pair that was drawn.
  unfoldable pub generate_asymmetric :
      (Alg → Text → Option Text)
      → Draws S P
      → Alg
      → ℕ
      → KeyRing S P
      → KeyRing S P × Outcome (Key S P)
  unfolding add_asymmetric
  generate_asymmetric encode d alg now r = elim d.id [
    | none ↦ (r, refused)
    | some id ↦ elim d.pair [
      | none ↦ (r, refused)
      | some pair ↦ add_asymmetric encode id alg (some pair.0) pair.1 now r
    ]
  ]

  -- `KeyRing.GenerateAlg`, with `GenerateEd25519`, `GenerateRSA` of 2048 bits and `GenerateECDSA` of
  -- both curves
  unfoldable pub generate_alg :
      (Alg → Text → Option Text)
      → Draws S P
      → Alg
      → ℕ
      → KeyRing S P
      → KeyRing S P × Outcome (Key S P)
  unfolding generate_asymmetric add
  generate_alg encode d alg now r =
      if text_eq alg alg_hs256 || text_eq alg []
      then elim d.id [
        | none ↦ (r, refused)
        | some id ↦ elim d.secret [ none ↦ (r, refused) | some secret ↦ add encode id secret now r ]
      ]
      else if text_eq alg alg_eddsa
          || text_eq alg alg_rs256
          || text_eq alg alg_es256
          || text_eq alg alg_es384
      then generate_asymmetric encode d alg now r
      else (r, refused)

module _ {S P T : Type 0} where
  -- `persistKeyRing`
  unfoldable pub persist_key_ring : Option (KeyRingStore S P T) → KeyRing S P → T → T × Saving
  persist_key_ring none ring t = (t, saved)
  persist_key_ring (some store) ring t = store.save ring t

module _ {S P : Type 0} (f : Forms S P) (encode : Alg → Text → Option Text) where
  -- The end of `reloadKeysLocked`, with the ring that was loaded.
  unfoldable pub adopt : Option (KeyRing S P) → KeyRing S P → KeyRing S P × Result (Unit {0})
  unfolding snapshot load_snapshot
  adopt none ring = (ring, err internal)
  adopt (some fresh) ring =
      let (ring', o) = load_snapshot f encode (snapshot f fresh) ring in
      (ring', elim o [ done _ ↦ ok tt | _ ↦ err internal ])

module _ {S P T : Type 0} (f : Forms S P) (encode : Alg → Text → Option Text) where
  -- `reloadKeysLocked`, with a store
  unfoldable pub reload_keys_locked :
      KeyRingStore S P T → KeyRing S P → T → T × KeyRing S P × Result (Unit {0})
  unfolding adopt
  reload_keys_locked store ring t =
      let (t', fresh) = store.load t in let (ring', r) = adopt f encode fresh ring in (t', ring', r)

  -- `ReloadKeys`
  unfoldable pub reload_keys :
      Option (KeyRingStore S P T) → KeyRing S P → T → T × KeyRing S P × Result (Unit {0})
  unfolding reload_keys_locked
  reload_keys none ring t = (t, ring, err invalid_argument)
  reload_keys (some store) ring t = reload_keys_locked store ring t

  -- The reload behind a conflict, which no call without a store sees.
  unfoldable pub reload_after_conflict :
      Option (KeyRingStore S P T) → KeyRing S P → T → T × KeyRing S P × Result (Unit {0})
  unfolding reload_keys_locked
  reload_after_conflict none ring t = (t, ring, err internal)
  reload_after_conflict (some store) ring t = reload_keys_locked store ring t

  -- The loop of `mutateKeys`, by the number of the attempts that are left. An attempt's panic is a
  -- third outcome.
  unfoldable pub mutate_from :
      {A : Type 0}
      → Option (KeyRingStore S P T)
      → (ℕ → KeyRing S P → KeyRing S P × Outcome A)
      → ℕ
      → KeyRing S P
      → T
      → T × KeyRing S P × Outcome (Result A)
  unfolding persist_key_ring reload_after_conflict
  mutate_from store apply zero ring t = (t, ring, done (err internal))
  mutate_from store apply (suc n) ring t =
      let (ring1, o) = apply n ring in
      elim o [
        | panicked ↦ (t, ring1, panicked)
        | refused ↦ (t, ring1, done (err invalid_argument))
        | done a ↦
            let (t1, s) = persist_key_ring store ring1 t in
            elim s [
              | saved ↦ (t1, ring1, done (ok a))
              | failed ↦ (t1, ring1, done (err internal))
              | conflict ↦
                  let (t2, ring2, r) = reload_after_conflict store ring1 t1 in
                  elim r [
                    | err _ ↦ (t2, ring2, done (err internal))
                    | ok _ ↦ mutate_from store apply n ring2 t2
                  ]
            ]
      ]

  -- `mutateKeys`
  unfoldable pub mutate_keys :
      {A : Type 0}
      → Option (KeyRingStore S P T)
      → (ℕ → KeyRing S P → KeyRing S P × Outcome A)
      → KeyRing S P
      → T
      → T × KeyRing S P × Outcome (Result A)
  unfolding mutate_from
  mutate_keys store apply ring t = mutate_from store apply max_key_mutation_attempts ring t

  -- `GenerateKeyAlg`; the handler of the JWKS is left out
  unfoldable pub generate_key_alg :
      Option (KeyRingStore S P T)
      → (ℕ → Draws S P)
      → Alg
      → ℕ
      → KeyRing S P
      → T
      → T × KeyRing S P × Outcome (Result (Key S P))
  unfolding mutate_keys generate_alg
  generate_key_alg store draws alg now ring t =
      mutate_keys store (λ n. generate_alg encode (draws n) alg now) ring t

  -- `PromoteKey`
  unfoldable pub promote_key :
      Option (KeyRingStore S P T)
      → Text
      → KeyRing S P
      → T
      → T × KeyRing S P × Outcome (Result (Unit {0}))
  unfolding mutate_keys promote
  promote_key store id ring t = mutate_keys store (λ n. promote id) ring t

  -- `RetireKey`
  unfoldable pub retire_key :
      Option (KeyRingStore S P T)
      → Text
      → ℕ
      → KeyRing S P
      → T
      → T × KeyRing S P × Outcome (Result (Unit {0}))
  unfolding mutate_keys retire
  retire_key store id now ring t = mutate_keys store (λ n. retire id now) ring t
