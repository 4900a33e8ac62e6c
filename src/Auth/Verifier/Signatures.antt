-- ===== src/Auth/Verifier/Signatures.antt =====
-- Signatures under the five algorithms, and their checks.

use parsec.Auth.KeyRing.{
  Alg, alg_hs256, alg_rs256, alg_eddsa, alg_es256, alg_es384, is_valid_alg, done, Key,
}
use parsec.Auth.Signer.{
  Crypto, Family, alg_or_default, is_family_rsa, is_family_ed25519, is_family_ecdsa, cast,
  ecdsa_digest, jose_encoding, sign_ecdsa, sign_with,
}
use parsec.Auth.Verifier.{verified, alg_for_curve, fits_curve, verify_ecdsa, verify_with}
use parsec.Common.{
  ℕ, zero, suc, ◌+◌, ◌-◌, ◌*◌, ◌≤◌, Bool, true, false, ◌||◌, [], ◌∷◌, ◌++◌, append_assoc, ◌≡◌, inl,
  inr, refl, sym, ap, ◌∙◌, arith, Option, none, some, ltb, ◌==◌, length, length-append,
  length-replicate, replicate, take, drop, take-append, drop-append, Text, text_eq, text_eq_refl,
  Bool-cases, Option-cases,
}

filled : (size n : ℕ) → ltb size n ≡ false → size - n + n ≡ size
filled size n h = ground arith

-- A number behind zeros.
abbrev padded : ℕ → Text → Text
padded size b = replicate (size - length b) 0 ++ b

length-padded : (size : ℕ) (b : Text) → ltb size (length b) ≡ false → length (padded size b) ≡ size
length-padded size b h =
    length-append (replicate (size - length b) 0) b
    ∙ ap (λ n. n + length b) (length-replicate (size - length b) 0)
    ∙ filled size (length b) h

take-replicate : (m n : ℕ) → m ≤ n → take {A = ℕ} m (replicate n 0) ≡ replicate m 0
take-replicate zero n h = refl
take-replicate (suc m) zero h = absurd (omega arith)
take-replicate (suc m) (suc n) h =
    let rest : take {A = ℕ} m (replicate n 0) ≡ replicate m 0 = take-replicate m n (omega arith) in
    ap (λ (t : Text). 0 ∷ t) rest

take_past : (p r : Text) (m : ℕ) → take (length p + m) (p ++ r) ≡ p ++ take m r
take_past [] r m = let same : 0 + m ≡ m = omega arith in ap (λ n. take n r) same
take_past (c ∷ p) r m =
    let same : suc (length p) + m ≡ suc (length p + m) = omega arith in
    ap (λ n. take n (c ∷ (p ++ r))) same ∙ ap (λ (t : Text). c ∷ t) (take_past p r m)

-- Both copies, where both numbers fit in their half.
both_halves :
    (size : ℕ) (rb sb : Text)
    → ltb size (length rb) ≡ false
    → length sb ≤ size
    → take (2 * size - length sb) (padded size rb ++ replicate size 0) ++ sb
      ≡ padded size rb ++ padded size sb
both_halves size rb sb hr hs =
    let p = padded size rb in
    let index : 2 * size - length sb ≡ length p + (size - length sb) =
      rw (length-padded size rb hr) (omega arith) in
    ap (λ n. take n (p ++ replicate size 0) ++ sb) index
    ∙ ap (λ (t : Text). t ++ sb) (take_past p (replicate size 0) (size - length sb))
    ∙ ap (λ (t : Text). (p ++ t) ++ sb) (take-replicate (size - length sb) size (omega arith))
    ∙ append_assoc p (replicate (size - length sb) 0) sb

take_first : (n : ℕ) (p r : Text) → length p ≡ n → take n (p ++ r) ≡ p
take_first n p r h = rw (← h) (take-append p r)

drop_first : (n : ℕ) (p r : Text) → length p ≡ n → drop n (p ++ r) ≡ r
drop_first n p r h = rw (← h) (drop-append p r)

pub done_inj : (a b : Text) → done a ≡ done b → a ≡ b
done_inj a b h = cc h

eq_refl_of : (a b : ℕ) → a ≡ b → (a == b) ≡ true
eq_refl_of a b h = ground arith

cast_inv :
    {K : Type 0} (is : Family → Bool) (family : K → Family) (o : Option K) (k : K)
    → cast is family o ≡ some k
    → (o ≡ some k) × (is (family k) ≡ true)
unfolding cast
cast_inv is family none k h = cc h
cast_inv is family (some j) k h = elim (Bool-cases (is (family j))) [
  | inl e ↦ let same : j ≡ k = cc (rw e at h) in (ap (λ x. some x) same, rw (← same) e)
  | inr e ↦ absurd (cc (rw e at h))
]

cast_lem :
    {K : Type 0} (is : Family → Bool) (family : K → Family) (o : Option K) (k : K)
    → o ≡ some k
    → is (family k) ≡ true
    → cast is family o ≡ some k
unfolding cast
cast_lem is family o k h e = rw (h, cast, e) refl

module _ {S P : Type 0} where
  -- What holds of the private and the public half of a key.
  pub record IsPaired (c : Crypto S P) (s : S) (p : P) : Type 0 where
    pub family : c.public_family p ≡ c.private_family s
    pub rsa : (m sig : Text) → c.rsa_sign s m ≡ some sig → c.rsa_verify p m sig ≡ true
    pub ed25519 : (m : Text) → c.ed25519_verify p m (c.ed25519_sign s m) ≡ true
    pub ecdsa :
        (m : Text) (r t : ℕ) → c.ecdsa_sign s m ≡ some (r, t) → c.ecdsa_verify p m r t ≡ true

  -- A key whose halves belong together; the curve of an ECDSA key is that of its algorithm.
  pub record IsSound (c : Crypto S P) (k : Key S P) : Type 0 where
    pub paired : (s : S) → k.private ≡ some s → (p : P) × (k.public ≡ some p) × IsPaired c s p
    pub curve :
        (p : P)
        → k.public ≡ some p
        → is_family_ecdsa (c.public_family p) ≡ true
        → alg_for_curve (c.curve p) ≡ some (alg_or_default k.alg)
    -- A signature's numbers fit in the width of its curve.
    pub short :
        (s : S) (m : Text) (d : Text × ℕ) (r t : ℕ)
        → ecdsa_digest c (alg_or_default k.alg) m ≡ some d
        → c.ecdsa_sign s d.0 ≡ some (r, t)
        → length (c.bytes t) ≤ d.1
    -- `SetBytes` skips zeros in front.
    pub numbers : (zeros n : ℕ) → c.set_bytes (replicate zeros 0 ++ c.bytes n) ≡ n

  jose-numbers :
      (c : Crypto S P) (k : Key S P) (size : ℕ) (r t : ℕ) (sig : Text)
      → IsSound c k
      → length (c.bytes t) ≤ size
      → jose_encoding c size (r, t) ≡ done sig
      → (length sig ≡ 2 * size)
        × (c.set_bytes (take size sig) ≡ r)
        × (c.set_bytes (drop size sig) ≡ t)
  unfolding jose_encoding
  jose-numbers c k size r t sig sound short h =
      let b = c.bytes r in
      let d = c.bytes t in
      elim (Bool-cases (ltb size (length b) || ltb (2 * size) (length d))) [
        | inl e ↦ absurd (cc (rw (jose_encoding, e) at h))
        | inr e ↦
            let fits : ltb size (length b) ≡ false = ground arith in
            let fits' : ltb size (length d) ≡ false = ground arith in
            let written : take (2 * size - length d) (padded size b ++ replicate size 0) ++ d
                ≡ sig =
              done_inj _ _ (rw (jose_encoding, e) at h) in
            let same : padded size b ++ padded size d ≡ sig =
              sym (both_halves size b d fits short) ∙ written in
            let m : length (padded size b) ≡ size = length-padded size b fits in
            let n : length (padded size d) ≡ size = length-padded size d fits' in
            rw (← same) (
              length-append (padded size b) (padded size d) ∙ (rw (m, n) (omega arith)),
              ap c.set_bytes (take_first size (padded size b) (padded size d) m)
                  ∙ sound.numbers (size - length b) r,
              ap c.set_bytes (drop_first size (padded size b) (padded size d) m)
                  ∙ sound.numbers (size - length d) t,
            )
      ]

  signed_ecdsa :
      (c : Crypto S P) (k : Key S P) (alg : Alg) (msg sig : Text) (s : S) (p : P)
      → IsSound c k
      → IsPaired c s p
      → alg ≡ alg_or_default k.alg
      → alg_for_curve (c.curve p) ≡ some alg
      → sign_ecdsa c alg msg s ≡ done sig
      → verify_ecdsa c alg msg sig p ≡ true
  unfolding sign_ecdsa verify_ecdsa
  signed_ecdsa c k alg msg sig s p sound pair same curve h =
      elim (Option-cases (ecdsa_digest c alg msg)) [
        | inl e ↦ absurd (cc (rw (sign_ecdsa, e) at h))
        | inr (d, e) ↦ elim (Option-cases (c.ecdsa_sign s d.0)) [
          | inl f ↦ absurd (cc (rw (sign_ecdsa, e, f) at h))
          | inr (rt, f) ↦
              let (long, first, last) =
                jose-numbers c k d.1 rt.0 rt.1 sig sound
                  (sound.short s msg d rt.0 rt.1 (rw same at e) f) (rw (sign_ecdsa, e, f) at h) in
              let fits : fits_curve alg (c.curve p) ≡ true =
                rw (fits_curve, curve) (text_eq_refl alg) in
              rw (verify_ecdsa, e, (eq_refl_of _ _ long), fits, first, last)
                (pair.ecdsa d.0 rt.0 rt.1 f)
        ]
      ]

  -- The public key that belongs to a private key of some family.
  public_half :
      (c : Crypto S P) (k : Key S P) (is : Family → Bool) (s : S)
      → IsSound c k
      → cast is c.private_family k.private ≡ some s
      → (p : P) × (cast is c.public_family k.public ≡ some p) × IsPaired c s p
  public_half c k is s sound h =
      let (there, ours) = cast_inv is c.private_family k.private s h in
      let (p, public, pair) = sound.paired s there in
      (p, cast_lem is c.public_family k.public p public (rw (pair.family) ours), pair)

  rsa_verifies :
      (c : Crypto S P) (k : Key S P) (msg sig : Text)
      → IsSound c k
      → text_eq (alg_or_default k.alg) alg_hs256 ≡ false
      → text_eq (alg_or_default k.alg) alg_rs256 ≡ true
      → sign_with c k msg ≡ done sig
      → verify_with c k msg sig ≡ verified tt
  unfolding sign_with verify_with
  rsa_verifies c k msg sig sound e1 e2 h =
      elim (Option-cases (cast is_family_rsa c.private_family k.private)) [
        | inl f ↦ absurd (cc (rw (sign_with, e1, e2, f) at h))
        | inr (s, f) ↦ elim (Option-cases (c.rsa_sign s (c.sha256 msg))) [
          | inl g ↦ absurd (cc (rw (sign_with, e1, e2, f, g) at h))
          | inr (sig', g) ↦
              let same : sig' ≡ sig = done_inj _ _ (rw (sign_with, e1, e2, f, g) at h) in
              let (p, q, pair) = public_half c k is_family_rsa s sound f in
              rw (verify_with, e1, e2, q, pair.rsa (c.sha256 msg) sig (rw same at g)) refl
        ]
      ]

  ed25519_verifies :
      (c : Crypto S P) (k : Key S P) (msg sig : Text)
      → IsSound c k
      → text_eq (alg_or_default k.alg) alg_hs256 ≡ false
      → text_eq (alg_or_default k.alg) alg_rs256 ≡ false
      → text_eq (alg_or_default k.alg) alg_eddsa ≡ true
      → sign_with c k msg ≡ done sig
      → verify_with c k msg sig ≡ verified tt
  unfolding sign_with verify_with
  ed25519_verifies c k msg sig sound e1 e2 e3 h =
      elim (Option-cases (cast is_family_ed25519 c.private_family k.private)) [
        | inl f ↦ absurd (cc (rw (sign_with, e1, e2, e3, f) at h))
        | inr (s, f) ↦
            let same : c.ed25519_sign s msg ≡ sig =
              done_inj _ _ (rw (sign_with, e1, e2, e3, f) at h) in
            let (p, q, pair) = public_half c k is_family_ed25519 s sound f in
            let good : c.ed25519_verify p msg sig ≡ true = rw (← same) (pair.ed25519 msg) in
            rw (verify_with, e1, e2, e3, q, good) refl
      ]

  ecdsa_verifies :
      (c : Crypto S P) (k : Key S P) (msg sig : Text)
      → IsSound c k
      → text_eq (alg_or_default k.alg) alg_hs256 ≡ false
      → text_eq (alg_or_default k.alg) alg_rs256 ≡ false
      → text_eq (alg_or_default k.alg) alg_eddsa ≡ false
      → text_eq (alg_or_default k.alg) alg_es256 || text_eq (alg_or_default k.alg) alg_es384 ≡ true
      → sign_with c k msg ≡ done sig
      → verify_with c k msg sig ≡ verified tt
  unfolding sign_with verify_with
  ecdsa_verifies c k msg sig sound e1 e2 e3 e4 h =
      elim (Option-cases (cast is_family_ecdsa c.private_family k.private)) [
        | inl f ↦ absurd (cc (rw (sign_with, e1, e2, e3, e4, f) at h))
        | inr (s, f) ↦
            let (p, q, pair) = public_half c k is_family_ecdsa s sound f in
            let (public, ours) = cast_inv is_family_ecdsa c.public_family k.public p q in
            let good =
              signed_ecdsa c k (alg_or_default k.alg) msg sig s p sound pair refl
                (sound.curve p public ours) (rw (sign_with, e1, e2, e3, e4, f) at h) in
            rw (verify_with, e1, e2, e3, e4, q, good) refl
      ]

  -- What a key signs fits under that key; and the key's algorithm is one of the five.
  pub signed_verifies :
      (c : Crypto S P) (k : Key S P) (msg sig : Text)
      → IsSound c k
      → sign_with c k msg ≡ done sig
      → (is_valid_alg (alg_or_default k.alg) ≡ true) × (verify_with c k msg sig ≡ verified tt)
  unfolding sign_with verify_with is_valid_alg
  signed_verifies c k msg sig sound h =
      let alg = alg_or_default k.alg in
      elim (Bool-cases (text_eq alg alg_hs256)) [
        | inl e1 ↦
            let same : c.hmac_sha256 k.secret msg ≡ sig = done_inj _ _ (rw (sign_with, e1) at h) in
            (rw (is_valid_alg, e1) refl, rw (verify_with, e1, same, text_eq_refl sig) refl)
        | inr e1 ↦ elim (Bool-cases (text_eq alg alg_rs256)) [
          | inl e2 ↦ (rw (is_valid_alg, e1, e2) refl, rsa_verifies c k msg sig sound e1 e2 h)
          | inr e2 ↦ elim (Bool-cases (text_eq alg alg_eddsa)) [
            | inl e3 ↦
                (rw (is_valid_alg, e1, e2, e3) refl, ed25519_verifies c k msg sig sound e1 e2 e3 h)
            | inr e3 ↦ elim (Bool-cases (text_eq alg alg_es256 || text_eq alg alg_es384)) [
              | inl e4 ↦
                  (rw (is_valid_alg, e1, e2, e3) e4, ecdsa_verifies c k msg sig sound e1 e2 e3 e4 h)
              | inr e4 ↦ absurd (cc (rw (sign_with, e1, e2, e3, e4) at h))
            ]
          ]
        ]
      ]
