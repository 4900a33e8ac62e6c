-- ===== src/Auth/Snapshots.antt =====
-- The persistence of a ring in auth/keyring.go: Snapshot and LoadSnapshot. Hexadecimal numbers, the text
-- of times, and PEM with PKCS#8 are parameters.
pub mod Entries
pub mod Loaded
pub mod Reloading
pub mod Retiring
pub mod RoundTrip
use parsec.Auth.KeyRing.{
  Alg, alg_hs256, alg_rs256, alg_eddsa, alg_es256, alg_es384, is_valid_alg, Role, is_role_retired,
  Outcome, done, refused, Key, KeyRing, build_header,
}
use parsec.Auth.Signer.{
  Family, Curve, alg_or_default, is_family_rsa, is_family_ed25519, is_family_ecdsa, cast,
}
use parsec.Auth.Verifier.{fits_curve}
use parsec.Common.{
  ℕ, Bool, true, false, not, ◌&&◌, ◌||◌, List, [], ◌∷◌, Option, none, some, if◌then◌else◌, ltb,
  length, Text, text_eq, text_lt, Map, lookup, insert,
}

pub record SnapshotKey : Type 0 where
  pub id : Text
  pub alg : Alg
  pub secret_hex : Text
  pub private_pem : Text
  pub role : Role
  pub created_at : Text
  pub retired_at : Text

pub record Snapshot : Type 0 where
  pub active_key_id : Text
  pub keys : List SnapshotKey

pub record Forms (S P : Type 0) : Type 0 where
  pub hex : Text → Text
  pub unhex : Text → Option Text
  pub format_time : ℕ → Text
  pub parse_time : Text → Option ℕ
  pub pem : S → Option Text
  pub unpem : Text → Option S
  pub family : S → Family
  pub public_of : S → P
  pub curve : P → Curve

-- `v, err := ...; if err != nil { return err }`
infixl 5 ◌>>=◌
abbrev pub ◌>>=◌ {ℓ κ} : {A : Type ℓ} {B : Type κ} → Option A → (A → Option B) → Option B
o >>= f = elim o [ some a ↦ f a | none ↦ none ]

infixl 5 ◌>>◌
abbrev pub ◌>>◌ {ℓ} : {B : Type ℓ} → Option (Unit {0}) → Option B → Option B
o >> next = elim o [ some _ ↦ next | none ↦ none ]

abbrev pub guard : Bool → Option (Unit {0})
guard test = if test then some tt else none

-- The sort by the id, which distinct keys make unique.
unfoldable pub place_entry : SnapshotKey → List SnapshotKey → List SnapshotKey
place_entry e [] = e ∷ []
place_entry e (x ∷ entries) =
    let rest = place_entry e entries in if text_lt x.id e.id then x ∷ rest else e ∷ x ∷ entries

module _ {S P : Type 0} (f : Forms S P) where
  -- The three branches of `Snapshot` for a private key of one family; errors leave the text empty.
  unfoldable pub pem_of : (Family → Bool) → Option S → Text
  unfolding cast
  pem_of is private = elim (cast is f.family private) [
    | none ↦ []
    | some priv ↦ elim (f.pem priv) [ none ↦ [] | some blob ↦ blob ]
  ]

  -- The `switch` of `Snapshot`: the PEM of an entry.
  unfoldable pub private_pem_of : Alg → Option S → Text
  unfolding pem_of
  private_pem_of alg private =
      if text_eq alg alg_eddsa
      then pem_of is_family_ed25519 private
      else if text_eq alg alg_rs256
      then pem_of is_family_rsa private
      else if text_eq alg alg_es256 || text_eq alg alg_es384
      then pem_of is_family_ecdsa private
      else []

  -- The entry of a key in a snapshot.
  unfoldable pub entry_of : Key S P → SnapshotKey
  unfolding alg_or_default private_pem_of
  entry_of k =
      let alg = alg_or_default k.alg in
      record {
        id = k.id;
        alg = alg;
        secret_hex = if text_eq alg alg_hs256 then f.hex k.secret else [];
        private_pem = if text_eq alg alg_hs256 then [] else private_pem_of alg k.private;
        role = k.role;
        created_at = f.format_time k.created_at;
        retired_at = elim k.retired_at [ none ↦ [] | some t ↦ f.format_time t ];
      }

  -- The loop over the keys, and the sort.
  unfoldable pub entries_of : Map (Key S P) → List SnapshotKey
  unfolding entry_of place_entry
  entries_of [] = []
  entries_of ((id, k) ∷ keys) =
      let rest = entries_of keys in
      if is_role_retired k.role then rest else place_entry (entry_of k) rest

  -- `KeyRing.Snapshot`
  unfoldable pub snapshot : KeyRing S P → Snapshot
  unfolding entries_of
  snapshot r = record { active_key_id = r.active; keys = entries_of r.by_id }

  -- `decodePrivatePEM`, for an asymmetric algorithm
  unfoldable pub decode_private_pem : Text → Alg → Option (S × P)
  unfolding fits_curve
  decode_private_pem s alg = do
    priv ← f.unpem s
    let pub_key = f.public_of priv
    let rsa = is_family_rsa (f.family priv)
    let ed25519 = is_family_ed25519 (f.family priv)
    let ecdsa = is_family_ecdsa (f.family priv)
    guard (
        if text_eq alg alg_eddsa
        then ed25519
        else if text_eq alg alg_rs256
        then rsa
        else ecdsa && fits_curve alg (f.curve pub_key))
    some (priv, pub_key)

  -- The `switch` of `LoadSnapshot`: the secret, or the pair of keys.
  unfoldable pub material_of : Alg → SnapshotKey → Option (Text × Option (S × P))
  unfolding decode_private_pem
  material_of alg e =
      if text_eq alg alg_hs256
      then (do
        secret ← f.unhex e.secret_hex
        guard (not (ltb (length secret) 32))
        some (secret, none))
      else (do
        guard (not (text_eq e.private_pem []))
        pair ← decode_private_pem e.private_pem alg
        some ([], some pair))

  -- `if e.RetiredAt != ""`
  unfoldable pub retired_at_of : Text → Option (Option ℕ)
  retired_at_of t =
      if text_eq t [] then some none else (f.parse_time t >>= λ at_time. some (some at_time))

  -- One round of the loop of `LoadSnapshot`; `encode` is that of `buildHeader`.
  unfoldable pub key_of_entry : (Alg → Text → Option Text) → SnapshotKey → Option (Key S P)
  unfolding alg_or_default is_valid_alg material_of retired_at_of build_header
  key_of_entry encode e = do
    created_at ← f.parse_time e.created_at
    let alg = alg_or_default e.alg
    guard (is_valid_alg alg)
    (secret, pair) ← material_of alg e
    retired_at ← retired_at_of e.retired_at
    header ← build_header encode e.id alg
    some (record {
      id = e.id;
      alg = alg;
      secret = secret;
      private = elim pair [ none ↦ none | some p ↦ some p.0 ];
      public = elim pair [ none ↦ none | some p ↦ some p.1 ];
      role = e.role;
      created_at = created_at;
      retired_at = retired_at;
      header = header;
    })

  -- The loop: `next`, to which the entries are added in turn.
  unfoldable pub load_entries :
      (Alg → Text → Option Text) → Map (Key S P) → List SnapshotKey → Option (Map (Key S P))
  unfolding key_of_entry
  load_entries encode next [] = some next
  load_entries encode next (e ∷ entries) =
      key_of_entry encode e >>= λ k. load_entries encode (insert e.id k next) entries

  -- `KeyRing.LoadSnapshot`
  unfoldable pub load_snapshot :
      (Alg → Text → Option Text) → Snapshot → KeyRing S P → KeyRing S P × Outcome (Unit {0})
  unfolding load_entries
  load_snapshot encode s r =
      if text_eq s.active_key_id [] && ltb 0 (length s.keys)
      then (r, refused)
      else elim (load_entries encode [] s.keys) [
        | none ↦ (r, refused)
        | some next ↦ elim (lookup s.active_key_id next) [
          | some _ ↦ (record { by_id = next; active = s.active_key_id }, done tt)
          | none ↦
              if text_eq s.active_key_id []
              then (record { by_id = next; active = s.active_key_id }, done tt)
              else (r, refused)
        ]
      ]
