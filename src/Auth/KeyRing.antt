-- ===== src/Auth/KeyRing.antt =====
-- auth/keyring.go: the keys that sign and verify tokens, exactly one of them active. The private and
-- the public keys of the packages crypto/*, and the JSON and base64 encoding of a header, are
-- parameters. The methods that read a map entry through a pointer have a third outcome, the panic
-- on a missing entry.
pub mod Absence
pub mod Validity
pub mod Runs
pub mod Rotation
pub mod Retirement
use parsec.Common.{
  ℕ, Bool, true, false, not, ◌&&◌, ◌||◌, List, [], ◌∷◌, Option, none, some, if◌then◌else◌, ltb,
  ◌==◌, length, Text, codes, text_eq, Map, lookup, insert,
}

-- `Alg` is a string type.
abbrev pub Alg : Type 0
Alg = Text

abbrev pub alg_hs256 : Alg
alg_hs256 = codes "HS256"

abbrev pub alg_rs256 : Alg
alg_rs256 = codes "RS256"

abbrev pub alg_eddsa : Alg
alg_eddsa = codes "EdDSA"

abbrev pub alg_es256 : Alg
alg_es256 = codes "ES256"

abbrev pub alg_es384 : Alg
alg_es384 = codes "ES384"

-- `Alg.Valid`, with true for the nil error
unfoldable pub is_valid_alg : Alg → Bool
is_valid_alg a =
    text_eq a alg_hs256
    || text_eq a alg_rs256
    || text_eq a alg_eddsa
    || text_eq a alg_es256
    || text_eq a alg_es384

pub data Role : Type 0 where
  role_active role_verify_only role_retired : Role

abbrev pub is_role_retired : Role → Bool
is_role_retired role_retired = true
is_role_retired _ = false

-- The errors of this file carry no code, and no caller tells one from another.
pub data Outcome {ℓ} (A : Type ℓ) : Type ℓ where
  done : A → Outcome A
  refused panicked : Outcome A

-- `secret` is empty for an asymmetric key.
pub record Key (S P : Type 0) : Type 0 where
  pub id : Text
  pub alg : Alg
  pub secret : List ℕ
  pub private : Option S
  pub public : Option P
  pub role : Role
  pub created_at : ℕ
  pub retired_at : Option ℕ
  pub header : Text

pub record KeyRing (S P : Type 0) : Type 0 where
  pub by_id : Map (Key S P)
  pub active : Text

module _ {S P : Type 0} where
  abbrev pub new_key_ring : KeyRing S P
  new_key_ring = record { by_id = []; active = [] }

  -- `*r.byID[r.active]`
  deref : Option (Key S P) → Outcome (Key S P)
  deref none = panicked
  deref (some k) = done k

  -- `KeyRing.Active`
  unfoldable pub active_key : KeyRing S P → Outcome (Key S P)
  unfolding deref
  active_key r = if text_eq r.active [] then refused else deref (lookup r.active r.by_id)

  -- `KeyRing.Get`
  unfoldable pub get : Text → KeyRing S P → Outcome (Key S P)
  get id r = elim (lookup id r.by_id) [
    | none ↦ refused
    | some k ↦ if is_role_retired k.role then refused else done k
  ]

  -- The role of a key that joins the ring.
  joining_role : KeyRing S P → Role
  joining_role r = if length r.by_id == 0 then role_active else role_verify_only

  -- The end of `Add` and of `addAsymmetric`, with the new key's header.
  install : Option Text → Key S P → KeyRing S P → KeyRing S P × Outcome (Key S P)
  install none k r = (r, refused)
  install (some header) k r =
      let k' = record k { header = header } in
      let by_id = insert k.id k' r.by_id in
      (
        elim k.role [
          | role_active ↦ record { by_id = by_id; active = k.id }
          | _ ↦ record r { by_id = by_id }
        ],
        done k',
      )

  -- `KeyRing.Promote`, from the demotion of the key that was active.
  switch : Text → Key S P → KeyRing S P → KeyRing S P × Outcome (Unit {0})
  switch id k r =
      let promoted : Map (Key S P) → KeyRing S P = λ by_id. record {
        by_id = insert id (record k { role = role_active }) by_id;
        active = id;
      } in
      if not (text_eq r.active []) && not (text_eq r.active id)
      then elim (lookup r.active r.by_id) [
        | none ↦ (r, panicked)
        | some old ↦
            (promoted (insert r.active (record old { role = role_verify_only }) r.by_id), done tt)
      ]
      else (promoted r.by_id, done tt)

  -- `KeyRing.Promote`
  unfoldable pub promote : Text → KeyRing S P → KeyRing S P × Outcome (Unit {0})
  unfolding switch
  promote id r = elim (lookup id r.by_id) [
    | none ↦ (r, refused)
    | some k ↦ if is_role_retired k.role then (r, refused) else switch id k r
  ]

  -- `KeyRing.Retire`
  unfoldable pub retire : Text → ℕ → KeyRing S P → KeyRing S P × Outcome (Unit {0})
  retire id now r = elim (lookup id r.by_id) [
    | none ↦ (r, refused)
    | some k ↦
        if is_role_retired k.role
        then (r, done tt)
        else if text_eq id r.active
        then (r, refused)
        else (
          record r {
            by_id = insert id (record k { role = role_retired; retired_at = some now }) r.by_id;
          },
          done tt,
        )
  ]

-- `buildHeader`; `encode` is the JSON of the JOSE header for an algorithm and a key id, in base64.
unfoldable pub build_header : (Alg → Text → Option Text) → Text → Alg → Option Text
unfolding is_valid_alg
build_header encode kid alg =
    let alg' = if text_eq alg [] then alg_hs256 else alg in
    if text_eq kid [] then none else if not (is_valid_alg alg') then none else encode alg' kid

module _ {S P : Type 0} (encode : Alg → Text → Option Text) where
  -- `KeyRing.Add`
  unfoldable pub add : Text → List ℕ → ℕ → KeyRing S P → KeyRing S P × Outcome (Key S P)
  unfolding install joining_role build_header
  add id secret now r =
      let k : Key S P = record {
        id = id;
        alg = alg_hs256;
        secret = secret;
        private = none;
        public = none;
        role = joining_role r;
        created_at = now;
        retired_at = none;
        header = [];
      } in
      if text_eq id []
      then (r, refused)
      else if ltb (length secret) 32
      then (r, refused)
      else elim (lookup id r.by_id) [
        | some _ ↦ (r, refused)
        | none ↦ install (build_header encode id alg_hs256) k r
      ]

  -- `KeyRing.addAsymmetric`; `priv` may be nil
  unfoldable pub add_asymmetric :
      Text → Alg → Option S → P → ℕ → KeyRing S P → KeyRing S P × Outcome (Key S P)
  unfolding install joining_role build_header
  add_asymmetric id alg priv pub_key now r =
      let k : Key S P = record {
        id = id;
        alg = alg;
        secret = [];
        private = priv;
        public = some pub_key;
        role = joining_role r;
        created_at = now;
        retired_at = none;
        header = [];
      } in
      if text_eq id [] then (r, refused) else elim priv [
        | none ↦ (r, refused)
        | some _ ↦ elim (lookup id r.by_id) [
          | some _ ↦ (r, refused)
          | none ↦ install (build_header encode id alg) k r
        ]
      ]
