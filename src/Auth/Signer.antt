-- ===== src/Auth/Signer.antt =====
-- auth/signer.go behind its header: tokens in the compact form header.payload.signature. What the
-- packages crypto/*, encoding/json and encoding/base64 do is a parameter; a hash is taken of the whole
-- message, and the sums that a big.Int stands for are numbers.
use parsec.Auth.KeyRing.{
  Alg, alg_hs256, alg_rs256, alg_eddsa, alg_es256, alg_es384, Outcome, done, refused, panicked, Key,
  KeyRing, active_key,
}
use parsec.Auth.Scope.{Scope}
use parsec.Common.{
  ℕ, ◌-◌, ◌*◌, Bool, true, false, not, ◌||◌, List, [], ◌∷◌, ◌++◌, Option, none, some, if◌then◌else◌,
  ltb, length, replicate, take, split, Text, codes, text_eq, ℤ, ltb_ℤ, is_zero,
}
use parsec.RateLimit.{Limit}

-- `joseHeader`
pub record JoseHeader : Type 0 where
  pub alg : Alg
  pub kid : Text
  pub typ : Text

-- `Claims` as JSON has it, with any string for a type and any integers for times.
pub record Payload : Type 0 where
  pub sub : Text
  pub typ : Text
  pub chs : List Text
  pub iat : ℤ
  pub exp : ℤ
  pub rate_limit_override : Option Limit
  pub scopes : List Scope
  pub jti : Text
  pub fid : Text

-- The Go type that a key's interface value holds.
pub data Family : Type 0 where
  family_rsa family_ed25519 family_ecdsa family_other : Family

pub data Curve : Type 0 where
  curve_p256 curve_p384 curve_other : Curve

pub record Crypto (S P : Type 0) : Type 0 where
  pub hmac_sha256 : Text → Text → Text
  pub sha256 : Text → Text
  pub sha384 : Text → Text
  pub private_family : S → Family
  pub public_family : P → Family
  pub rsa_sign : S → Text → Option Text
  pub rsa_verify : P → Text → Text → Bool
  pub ed25519_sign : S → Text → Text
  pub ed25519_verify : P → Text → Text → Bool
  pub ecdsa_sign : S → Text → Option (ℕ × ℕ)
  pub ecdsa_verify : P → Text → ℕ → ℕ → Bool
  pub curve : P → Curve
  -- `big.Int.Bytes` and `SetBytes`
  pub bytes : ℕ → Text
  pub set_bytes : Text → ℕ

pub record Codec : Type 0 where
  pub encode : Text → Text
  pub decode : Text → Option Text
  pub unmarshal_header : Text → Option JoseHeader
  pub marshal : Payload → Option Text
  pub unmarshal : Text → Option Payload

-- `Type.Valid`
unfoldable pub is_valid_type : Text → Bool
is_valid_type t =
    text_eq t (codes "access") || text_eq t (codes "refresh") || text_eq t (codes "mgmt")

-- `if alg == "" { alg = AlgHS256 }`
unfoldable pub alg_or_default : Alg → Alg
alg_or_default alg = if text_eq alg [] then alg_hs256 else alg

abbrev pub is_family_rsa : Family → Bool
is_family_rsa family_rsa = true
is_family_rsa _ = false

abbrev pub is_family_ed25519 : Family → Bool
is_family_ed25519 family_ed25519 = true
is_family_ed25519 _ = false

abbrev pub is_family_ecdsa : Family → Bool
is_family_ecdsa family_ecdsa = true
is_family_ecdsa _ = false

-- `k, ok := v.(T)` on an interface value
unfoldable pub cast : {K : Type 0} → (Family → Bool) → (K → Family) → Option K → Option K
cast is family none = none
cast is family (some k) = if is (family k) then some k else none

module _ {S P : Type 0} (c : Crypto S P) where
  -- `ecdsaDigest`
  unfoldable pub ecdsa_digest : Alg → Text → Option (Text × ℕ)
  ecdsa_digest alg msg =
      if text_eq alg alg_es256
      then some (c.sha256 msg, 32)
      else if text_eq alg alg_es384
      then some (c.sha384 msg, 48)
      else none

  -- The end of the branch for ECDSA: `r` is copied to the end of the first half of `out`, and `s` to
  -- the end of `out`; a slice is out of range for a number that is too long.
  unfoldable pub jose_encoding : ℕ → ℕ × ℕ → Outcome Text
  jose_encoding size (r, s) =
      let rb = c.bytes r in
      let sb = c.bytes s in
      let out = (replicate (size - length rb) 0 ++ rb) ++ replicate size 0 in
      if ltb size (length rb) || ltb (2 * size) (length sb)
      then panicked
      else done (take (2 * size - length sb) out ++ sb)

  -- The branch for ECDSA, of an algorithm and a key of that family.
  unfoldable pub sign_ecdsa : Alg → Text → S → Outcome Text
  unfolding ecdsa_digest jose_encoding
  sign_ecdsa alg msg priv = elim (ecdsa_digest alg msg) [
    | none ↦ refused
    | some d ↦ elim (c.ecdsa_sign priv d.0) [ none ↦ refused | some rs ↦ jose_encoding d.1 rs ]
  ]

  -- `signWith`
  unfoldable pub sign_with : Key S P → Text → Outcome Text
  unfolding alg_or_default cast sign_ecdsa
  sign_with k msg =
      let alg = alg_or_default k.alg in
      if text_eq alg alg_hs256
      then done (c.hmac_sha256 k.secret msg)
      else if text_eq alg alg_rs256
      then elim (cast is_family_rsa c.private_family k.private) [
        | none ↦ refused
        | some priv ↦ elim (c.rsa_sign priv (c.sha256 msg)) [ none ↦ refused | some sig ↦ done sig ]
      ]
      else if text_eq alg alg_eddsa
      then elim (cast is_family_ed25519 c.private_family k.private) [
        | none ↦ refused
        | some priv ↦ done (c.ed25519_sign priv msg)
      ]
      else if text_eq alg alg_es256 || text_eq alg alg_es384
      then elim (cast is_family_ecdsa c.private_family k.private) [
        | none ↦ refused
        | some priv ↦ sign_ecdsa alg msg priv
      ]
      else refused

  -- The end of `Signer.Sign`, with the key that is active.
  unfoldable pub sign_active : Codec → Payload → Key S P → Outcome Text
  unfolding sign_with
  sign_active codec claims active = elim (codec.marshal claims) [
    | none ↦ refused
    | some payload ↦
        let signing_input = active.header ++ b'.' ∷ codec.encode payload in
        elim (sign_with active signing_input) [
          | done sig ↦ done (signing_input ++ b'.' ∷ codec.encode sig)
          | refused ↦ refused
          | panicked ↦ panicked
        ]
  ]

  -- `Signer.Sign`
  unfoldable pub sign : Codec → KeyRing S P → Payload → Outcome Text
  unfolding is_valid_type sign_active active_key
  sign codec ring claims =
      if not (is_valid_type claims.typ)
      then refused
      else if is_zero claims.iat || is_zero claims.exp
      then refused
      else if not (ltb_ℤ claims.iat claims.exp)
      then refused
      else elim (active_key ring) [
        | done active ↦ sign_active codec claims active
        | refused ↦ refused
        | panicked ↦ panicked
      ]

-- The test of `splitToken` on the parts.
unfoldable pub three_parts : List Text → Option (Text × Text × Text)
three_parts (header ∷ payload ∷ sig ∷ []) = some (header, payload, sig)
three_parts _ = none

-- `splitToken`
unfoldable pub split_token : Text → Option (Text × Text × Text)
unfolding split three_parts
split_token token = three_parts (split token b'.')
