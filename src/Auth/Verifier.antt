-- ===== src/Auth/Verifier.antt =====
-- auth/verifier.go: the checks of a token against the ring.
pub mod Checks
pub mod Signatures
pub mod RoundTrip
use parsec.Auth.KeyRing.{
  Alg, alg_hs256, alg_rs256, alg_eddsa, alg_es256, alg_es384, is_valid_alg, Outcome, done, refused,
  panicked, Key, KeyRing, get,
}
use parsec.Auth.Issuer.{second}
use parsec.Auth.Signer.{
  JoseHeader, Payload, Crypto, Codec, Curve, curve_p256, curve_p384, curve_other, is_valid_type,
  alg_or_default, is_family_rsa, is_family_ed25519, is_family_ecdsa, cast, ecdsa_digest,
  split_token,
}
use parsec.Common.{
  ℕ, ◌+◌, ◌*◌, Bool, true, false, not, ◌&&◌, ◌||◌, List, [], ◌∷◌, ◌++◌, Option, none, some,
  if◌then◌else◌, ◌==◌, length, take, drop, Text, codes, text_eq, ℤ, pos_part, neg_part, sub_ℕ,
  ltb_ℤ,
}

-- The sentinels of auth/claims.go that the verifier returns, and the error of an unknown algorithm.
pub data VerifyError : Type 0 where
  err_malformed_token err_unsupported_alg err_invalid_signature : VerifyError
  err_expired err_not_yet_valid err_type_mismatch cannot_verify : VerifyError

pub data Verified {ℓ} (A : Type ℓ) : Type ℓ where
  verified : A → Verified A
  rejected : VerifyError → Verified A

-- `if err != nil { return Claims{}, err }`
infixl 5 ◌>>=◌
abbrev pub ◌>>=◌ {ℓ κ} : {A : Type ℓ} {B : Type κ} → Verified A → (A → Verified B) → Verified B
v >>= f = elim v [ verified a ↦ f a | rejected e ↦ rejected e ]

infixl 5 ◌>>◌
abbrev pub ◌>>◌ {ℓ} : {B : Type ℓ} → Verified (Unit {0}) → Verified B → Verified B
v >> next = elim v [ verified _ ↦ next | rejected e ↦ rejected e ]

abbrev pub require : Bool → VerifyError → Verified (Unit {0})
require test e = if test then verified tt else rejected e

abbrev pub or_reject {ℓ} : {A : Type ℓ} → Option A → VerifyError → Verified A
or_reject o e = elim o [ some a ↦ verified a | none ↦ rejected e ]

abbrev pub found {ℓ} : {A : Type ℓ} → Outcome A → Option A
found (done a) = some a
found _ = none

-- The fields of a `Verifier` but for the ring; `leeway` is a number of nanoseconds.
pub record Verifier (S P : Type 0) : Type 0 where
  pub crypto : Crypto S P
  pub codec : Codec
  pub leeway : ℤ

-- `algForCurve`
unfoldable pub alg_for_curve : Curve → Option Alg
alg_for_curve curve_p256 = some alg_es256
alg_for_curve curve_p384 = some alg_es384
alg_for_curve curve_other = none

-- `expected, err := algForCurve(pub.Curve); err != nil || expected != alg`, negated
unfoldable pub fits_curve : Alg → Curve → Bool
unfolding alg_for_curve
fits_curve alg curve = elim (alg_for_curve curve) [
  | none ↦ false
  | some expected ↦ text_eq expected alg
]

-- `now.Sub(time.Unix(t, 0))` and `time.Unix(t, 0).Sub(now)`
unfoldable pub since : ℕ → ℤ → ℤ
since now t = sub_ℕ (now + neg_part t * second) (pos_part t * second)

unfoldable pub until : ℕ → ℤ → ℤ
until now t = sub_ℕ (pos_part t * second) (now + neg_part t * second)

module _ {S P : Type 0} (c : Crypto S P) where
  -- The branch for ECDSA, with the public key.
  unfoldable pub verify_ecdsa : Alg → Text → Text → P → Bool
  unfolding ecdsa_digest fits_curve
  verify_ecdsa alg msg sig p = elim (ecdsa_digest c alg msg) [
    | none ↦ false
    | some d ↦
        if not (length sig == 2 * d.1)
        then false
        else if not (fits_curve alg (c.curve p))
        then false
        else c.ecdsa_verify p d.0 (c.set_bytes (take d.1 sig)) (c.set_bytes (drop d.1 sig))
  ]

  abbrev by_public : (P → Bool) → Option P → Bool
  by_public test none = false
  by_public test (some p) = test p

  abbrev sound : Bool → Verified (Unit {0})
  sound test = require test err_invalid_signature

  -- `verifyWith`
  unfoldable pub verify_with : Key S P → Text → Text → Verified (Unit {0})
  unfolding alg_or_default cast verify_ecdsa
  verify_with k msg sig =
      let alg = alg_or_default k.alg in
      if text_eq alg alg_hs256
      then sound (text_eq (c.hmac_sha256 k.secret msg) sig)
      else if text_eq alg alg_rs256
      then sound (
          by_public (λ p. c.rsa_verify p (c.sha256 msg) sig)
            (cast is_family_rsa c.public_family k.public))
      else if text_eq alg alg_eddsa
      then sound (
          by_public (λ p. c.ed25519_verify p msg sig)
            (cast is_family_ed25519 c.public_family k.public))
      else if text_eq alg alg_es256 || text_eq alg alg_es384
      then sound
          (by_public (verify_ecdsa alg msg sig) (cast is_family_ecdsa c.public_family k.public))
      else rejected cannot_verify

module _ {S P : Type 0} (v : Verifier S P) where
  -- `verify` up to the key that the header names.
  unfoldable pub key_of : KeyRing S P → Text → Verified (Key S P)
  unfolding is_valid_alg get alg_or_default
  key_of ring header_b64 = do
    header ← or_reject (v.codec.decode header_b64) err_malformed_token
    h ← or_reject (v.codec.unmarshal_header header) err_malformed_token
    require (text_eq h.typ (codes "JWT")) err_unsupported_alg
    require (not (text_eq h.kid [])) err_malformed_token
    require (is_valid_alg h.alg) err_unsupported_alg
    key ← or_reject (found (get h.kid ring)) err_invalid_signature
    require (text_eq h.alg (alg_or_default key.alg)) err_unsupported_alg
    verified key

  -- `verify` from the signature on: the claims.
  unfoldable pub signed_claims : Key S P → Text → Text → Text → Verified Payload
  unfolding verify_with is_valid_type
  signed_claims key header_b64 payload_b64 sig_b64 = do
    got ← or_reject (v.codec.decode sig_b64) err_malformed_token
    verify_with v.crypto key (header_b64 ++ b'.' ∷ payload_b64) got
    payload ← or_reject (v.codec.decode payload_b64) err_malformed_token
    claims ← or_reject (v.codec.unmarshal payload) err_malformed_token
    require (is_valid_type claims.typ) err_malformed_token
    verified claims

  -- `verify` from the clock on.
  unfoldable pub check_times : ℕ → Text → Payload → Verified Payload
  unfolding since until
  check_times now expected claims = do
    require (not (ltb_ℤ v.leeway (since now claims.exp))) err_expired
    require (not (ltb_ℤ v.leeway (until now claims.iat))) err_not_yet_valid
    require (text_eq expected [] || text_eq claims.typ expected) err_type_mismatch
    verified claims

  -- `Verifier.verify`; an `expected` that is empty asks for no type
  unfoldable pub verify : KeyRing S P → ℕ → Text → Text → Verified Payload
  unfolding split_token key_of signed_claims check_times
  verify ring now token expected = do
    (header_b64, payload_b64, sig_b64) ← or_reject (split_token token) err_malformed_token
    key ← key_of ring header_b64
    claims ← signed_claims key header_b64 payload_b64 sig_b64
    check_times now expected claims
