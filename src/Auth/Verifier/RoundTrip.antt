-- ===== src/Auth/Verifier/RoundTrip.antt =====
-- Tokens that are signed, and then verified.

use parsec.Auth.KeyRing.{
  is_role_retired, Outcome, done, refused, panicked, Role, Key, KeyRing, active_key,
}
use parsec.Auth.Signer.{
  Payload, Crypto, Codec, is_valid_type, alg_or_default, sign_with, sign_active, sign,
}
use parsec.Auth.Verifier.Checks.{IsCurrent, verify_iff}
use parsec.Auth.Verifier.Signatures.{IsSound, signed_verifies, done_inj}
use parsec.Auth.Verifier.{verified, Verifier, verify_with, verify}
use parsec.Common.{
  ℕ, true, false, ◌||◌, [], ◌∷◌, ◌++◌, append_assoc, ◌≡◌, ◌≢◌, ◌⊎◌, inl, inr, refl, sym, ap, ◌∙◌,
  some, Lacks, split, join, split-join, Text, codes, is_zero, ltb_ℤ, lookup, Bool-cases,
  Option-cases,
}

Outcome-cases :
    {A : Type 0} (o : Outcome A) → ((a : A) × (o ≡ done a)) ⊎ (o ≡ refused) ⊎ (o ≡ panicked)
Outcome-cases (done a) = inl (a, refl)
Outcome-cases refused = inr (inl refl)
Outcome-cases panicked = inr (inr refl)

three_of_token :
    (a b d token : Text)
    → token ≡ (a ++ b'.' ∷ b) ++ b'.' ∷ d
    → Lacks b'.' a
    → Lacks b'.' b
    → Lacks b'.' d
    → split token b'.' ≡ a ∷ b ∷ d ∷ []
three_of_token a b d token e la lb ld =
    ap (λ t. split t b'.') (e ∙ append_assoc a (b'.' ∷ b) (b'.' ∷ d))
    ∙ (unfold join in split-join (a ∷ b ∷ d ∷ []) b'.' (λ x. cc x) (la, (lb, (ld, tt))))

-- Base64 is read back and has no full stop; the claims are read back.
pub record Encodes (codec : Codec) (claims : Payload) : Type 0 where
  pub decoded : (raw : Text) → codec.decode (codec.encode raw) ≡ some raw
  pub one_part : (raw : Text) → Lacks b'.' (codec.encode raw)
  pub read : (raw : Text) → codec.marshal claims ≡ some raw → codec.unmarshal raw ≡ some claims

module _ {S P : Type 0} where
  -- What `install` writes as the header of a key, read back by the codec.
  pub record HasHeader (codec : Codec) (k : Key S P) : Type 0 where
    pub raw : Text
    pub decoded : codec.decode k.header ≡ some raw
    pub read :
        codec.unmarshal_header raw
        ≡ some (record { alg = alg_or_default k.alg; kid = k.id; typ = codes "JWT" })
    pub one_part : Lacks b'.' k.header

  -- What a token that `Sign` returned was made of.
  record IsMade (c : Crypto S P) (codec : Codec) (k : Key S P) (claims : Payload) (token : Text)
      : Type 0 where
    pub typ : is_valid_type claims.typ ≡ true
    pub payload : Text
    pub marshalled : codec.marshal claims ≡ some payload
    pub sig : Text
    pub signed : sign_with c k (k.header ++ b'.' ∷ codec.encode payload) ≡ done sig
    pub parts : token ≡ (k.header ++ b'.' ∷ codec.encode payload) ++ b'.' ∷ codec.encode sig

  key_inj : (a b : Key S P) → done a ≡ done b → a ≡ b
  key_inj a b h = cc h

  -- The role is not read.
  with_role :
      (c : Crypto S P) (k : Key S P) (role : Role) (msg sig : Text)
      → verify_with c k msg sig ≡ verified tt
      → verify_with c (record k { role = role }) msg sig ≡ verified tt
  unfolding verify_with
  with_role c k role msg sig h = h

  active_parts :
      (c : Crypto S P) (codec : Codec) (k : Key S P) (claims : Payload) (token : Text)
      → is_valid_type claims.typ ≡ true
      → sign_active c codec claims k ≡ done token
      → IsMade c codec k claims token
  unfolding sign_active
  active_parts c codec k claims token typ h = elim (Option-cases (codec.marshal claims)) [
    | inl e ↦ absurd (cc (rw (sign_active, e) at h))
    | inr (payload, e) ↦
        elim (Outcome-cases (sign_with c k (k.header ++ b'.' ∷ codec.encode payload))) [
          | inl (sig, f) ↦ record {
            typ = typ;
            payload = payload;
            marshalled = e;
            sig = sig;
            signed = f;
            parts = sym (done_inj _ _ (rw (sign_active, e, f) at h));
          }
          | inr (inl f) ↦ absurd (cc (rw (sign_active, e, f) at h))
          | inr (inr f) ↦ absurd (cc (rw (sign_active, e, f) at h))
        ]
  ]

  sign_parts :
      (c : Crypto S P) (codec : Codec) (ring : KeyRing S P) (claims : Payload) (token : Text)
      → sign c codec ring claims ≡ done token
      → (k : Key S P) × (active_key ring ≡ done k) × IsMade c codec k claims token
  unfolding sign
  sign_parts c codec ring claims token h = elim (Bool-cases (is_valid_type claims.typ)) [
    | inr e ↦ absurd (cc (rw (sign, e) at h))
    | inl e ↦ elim (Bool-cases (is_zero claims.iat || is_zero claims.exp)) [
      | inl f ↦ absurd (cc (rw (sign, e, f) at h))
      | inr f ↦ elim (Bool-cases (ltb_ℤ claims.iat claims.exp)) [
        | inr g ↦ absurd (cc (rw (sign, e, f, g) at h))
        | inl g ↦ elim (Outcome-cases (active_key ring)) [
          | inl (k, a) ↦ (k, a, active_parts c codec k claims token e (rw (sign, e, f, g, a) at h))
          | inr (inl a) ↦ absurd (cc (rw (sign, e, f, g, a) at h))
          | inr (inr a) ↦ absurd (cc (rw (sign, e, f, g, a) at h))
        ]
      ]
    ]
  ]

  -- A token that the ring's active key signed is accepted, with the claims that were signed, by every
  -- ring that still holds the key with any role but retired, as long as the times and the type are
  -- right, and the key has an id. The halves of the key belong together, its header is the one of its
  -- id and algorithm, and base64 and JSON are read back.
  pub verify-sign :
      (v : Verifier S P) (ring later : KeyRing S P) (now : ℕ) (claims : Payload)
      (expected token : Text) (k : Key S P) (role : Role)
      → active_key ring ≡ done k
      → k.id ≢ []
      → IsSound v.crypto k
      → HasHeader v.codec k
      → Encodes v.codec claims
      → sign v.crypto v.codec ring claims ≡ done token
      → lookup k.id later.by_id ≡ some (record k { role = role })
      → is_role_retired role ≡ false
      → IsCurrent v now expected claims
      → verify v later now token expected ≡ verified claims
  verify-sign v ring later now claims expected token k role active full sound header encodes h held
        live current =
      let (k', a, made) = sign_parts v.crypto v.codec ring claims token h in
      let same : k' ≡ k = key_inj k' k (sym a ∙ active) in
      let m : IsMade v.crypto v.codec k claims token = rw same at made in
      let (valid, fits) =
        signed_verifies v.crypto k (k.header ++ b'.' ∷ v.codec.encode m.payload) m.sig sound
          m.signed in
      (verify_iff v later now token expected claims).1 (record {
        header = k.header;
        payload = v.codec.encode m.payload;
        sig = v.codec.encode m.sig;
        parts =
            three_of_token k.header (v.codec.encode m.payload) (v.codec.encode m.sig) token m.parts
              header.one_part (encodes.one_part m.payload) (encodes.one_part m.sig);
        key = record k { role = role };
        named = record {
          raw = header.raw;
          decoded = header.decoded;
          h = record { alg = alg_or_default k.alg; kid = k.id; typ = codes "JWT" };
          header = header.read;
          typ = refl;
          kid = full;
          alg = valid;
          held = held;
          live = live;
          same_alg = refl;
        };
        genuine = record {
          sig = m.sig;
          decoded_sig = encodes.decoded m.sig;
          fits = with_role v.crypto k role _ _ fits;
          raw = m.payload;
          decoded = encodes.decoded m.payload;
          read = encodes.read m.payload m.marshalled;
          typ = m.typ;
        };
        current = current;
      })
