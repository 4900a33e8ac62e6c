-- ===== src/Auth/Verifier/Checks.antt =====
-- Which tokens the verifier accepts.
use parsec.Auth.KeyRing.{is_valid_alg, is_role_retired, Key, KeyRing, get}
use parsec.Auth.Issuer.{second}
use parsec.Auth.Signer.{
  JoseHeader, Payload, is_valid_type, alg_or_default, split_token, three_parts,
}
use parsec.Auth.Verifier.{
  VerifyError, Verified, verified, rejected, ◌>>=◌, ◌>>◌, require, or_reject, found, Verifier,
  since, until, verify_with, key_of, signed_claims, check_times, verify, err_malformed_token,
  err_unsupported_alg, err_invalid_signature, err_expired, err_not_yet_valid, err_type_mismatch,
}
use parsec.Common.{
  ℕ, ◌+◌, ◌*◌, ◌≤◌, Bool, true, false, not, ◌||◌, List, [], ◌∷◌, ◌++◌, ◌≡◌, ◌≢◌, ◌↔◌, ◌⊎◌, inl, inr,
  refl, sym, ap, ◌∙◌, arith, Option, none, some, split, Text, codes, text_eq, text_eq_iff,
  ne_of_text_eq, text_eq_of_ne, ℤ, pos_part, neg_part, sub_ℕ, ltb_ℤ, lookup, Bool-cases,
  Option-cases,
}

pub verified_bind {ℓ κ} :
    {A : Type ℓ} {B : Type κ} (m : Verified A) (f : A → Verified B) (b : B)
    → (m >>= f) ≡ verified b
    → (a : A) × (m ≡ verified a) × (f a ≡ verified b)
verified_bind (verified a) f b h = (a, refl, h)
verified_bind (rejected e) f b h = cc h

pub verified_then {ℓ} :
    {B : Type ℓ} (m : Verified (Unit {0})) (n : Verified B) (b : B)
    → (m >> n) ≡ verified b
    → (m ≡ verified tt) × (n ≡ verified b)
verified_then (verified tt) n b h = (refl, h)
verified_then (rejected e) n b h = cc h

pub required {ℓ} :
    {B : Type ℓ} (test : Bool) (e : VerifyError) (n : Verified B) (b : B)
    → (require test e >> n) ≡ verified b
    → (test ≡ true) × (n ≡ verified b)
required true e n b h = (refl, h)
required false e n b h = cc h

pub read {ℓ κ} :
    {A : Type ℓ} {B : Type κ} (o : Option A) (e : VerifyError) (f : A → Verified B) (b : B)
    → (or_reject o e >>= f) ≡ verified b
    → (a : A) × (o ≡ some a) × (f a ≡ verified b)
read (some a) e f b h = (a, refl, h)
read none e f b h = cc h

pub Verified-cases :
    {A : Type 0} (m : Verified A)
    → ((a : A) × (m ≡ verified a)) ⊎ ((e : VerifyError) × (m ≡ rejected e))
Verified-cases (verified a) = inl (a, refl)
Verified-cases (rejected e) = inr (e, refl)

pub verified_inj {ℓ} : {A : Type ℓ} (a b : A) → verified a ≡ verified b → a ≡ b
verified_inj a b h = cc h

same_parts :
    (a b : Text × Text × Text) → some a ≡ some b → (a.0 ∷ a.1 ∷ a.2 ∷ []) ≡ (b.0 ∷ b.1 ∷ b.2 ∷ [])
same_parts a b h =
    let same : a ≡ b = cc h in ap (λ (x : Text × Text × Text). x.0 ∷ x.1 ∷ x.2 ∷ []) same

pub false_of_not : (b : Bool) → not b ≡ true → b ≡ false
false_of_not true h = sym h
false_of_not false h = refl

three_parts_iff :
    (parts : List Text) (header payload sig : Text)
    → (three_parts parts ≡ some (header, payload, sig)) ↔ (parts ≡ header ∷ payload ∷ sig ∷ [])
unfolding three_parts
three_parts_iff [] h p s = (λ e. cc e, λ e. cc e)
three_parts_iff (a ∷ []) h p s = (λ e. cc e, λ e. cc e)
three_parts_iff (a ∷ b ∷ []) h p s = (λ e. cc e, λ e. cc e)
three_parts_iff (a ∷ b ∷ c ∷ []) h p s = (λ e. same_parts (a, b, c) (h, p, s) e, λ e. cc e)
three_parts_iff (a ∷ b ∷ c ∷ d ∷ rest) h p s = (λ e. cc e, λ e. cc e)

split_token_iff :
    (token header payload sig : Text)
    → (split_token token ≡ some (header, payload, sig))
      ↔ (split token b'.' ≡ header ∷ payload ∷ sig ∷ [])
unfolding split_token
split_token_iff token header payload sig = three_parts_iff (split token b'.') header payload sig

not_later_iff :
    (a b : ℕ) (d : ℤ) → (not (ltb_ℤ d (sub_ℕ a b)) ≡ true) ↔ (a + neg_part d ≤ b + pos_part d)
not_later_iff a b d = ground arith

asked_type :
    (expected typ : Text)
    → (text_eq expected [] || text_eq typ expected ≡ true) ↔ ((expected ≡ []) ⊎ (typ ≡ expected))
asked_type expected typ = ground (arith, text_eq_iff expected [], text_eq_iff typ expected)

since_iff :
    (now : ℕ) (t leeway : ℤ)
    → (not (ltb_ℤ leeway (since now t)) ≡ true)
      ↔ (now + neg_part t * second + neg_part leeway ≤ pos_part t * second + pos_part leeway)
unfolding since
since_iff now t leeway = not_later_iff (now + neg_part t * second) (pos_part t * second) leeway

until_iff :
    (now : ℕ) (t leeway : ℤ)
    → (not (ltb_ℤ leeway (until now t)) ≡ true)
      ↔ (pos_part t * second + neg_part leeway ≤ now + neg_part t * second + pos_part leeway)
unfolding until
until_iff now t leeway = not_later_iff (pos_part t * second) (now + neg_part t * second) leeway

module _ {S P : Type 0} where
  -- The key that a header names: in the ring, not retired, and of the header's algorithm.
  pub record IsNamed (v : Verifier S P) (ring : KeyRing S P) (header_b64 : Text) (key : Key S P)
      : Type 0 where
    pub raw : Text
    pub decoded : v.codec.decode header_b64 ≡ some raw
    pub h : JoseHeader
    pub header : v.codec.unmarshal_header raw ≡ some h
    pub typ : h.typ ≡ codes "JWT"
    pub kid : h.kid ≢ []
    pub alg : is_valid_alg h.alg ≡ true
    pub held : lookup h.kid ring.by_id ≡ some key
    pub live : is_role_retired key.role ≡ false
    pub same_alg : h.alg ≡ alg_or_default key.alg

  -- The claims that are signed: the signature fits the text of both other parts.
  pub record IsGenuine (v : Verifier S P) (key : Key S P) (header_b64 payload_b64 sig_b64 : Text)
      (claims : Payload) : Type 0 where
    pub sig : Text
    pub decoded_sig : v.codec.decode sig_b64 ≡ some sig
    pub fits : verify_with v.crypto key (header_b64 ++ b'.' ∷ payload_b64) sig ≡ verified tt
    pub raw : Text
    pub decoded : v.codec.decode payload_b64 ≡ some raw
    pub read : v.codec.unmarshal raw ≡ some claims
    pub typ : is_valid_type claims.typ ≡ true

  -- The times and the type: not expired, nor issued ahead, by more than the leeway.
  pub record IsCurrent (v : Verifier S P) (now : ℕ) (expected : Text) (claims : Payload)
      : Type 0 where
    pub unexpired :
        now + neg_part claims.exp * second + neg_part v.leeway
        ≤ pos_part claims.exp * second + pos_part v.leeway
    pub issued :
        pos_part claims.iat * second + neg_part v.leeway
        ≤ now + neg_part claims.iat * second + pos_part v.leeway
    pub typ : (expected ≡ []) ⊎ (claims.typ ≡ expected)

  get_found :
      (id : Text) (ring : KeyRing S P) (key : Key S P)
      → (found (get id ring) ≡ some key)
        ↔ ((lookup id ring.by_id ≡ some key) × (is_role_retired key.role ≡ false))
  unfolding get
  get_found id ring key = elim (Option-cases (lookup id ring.by_id)) [
    | inl e ↦ rw (e, get) (λ x. cc x, λ x. cc (x.0))
    | inr (k, e) ↦ elim (Bool-cases (is_role_retired k.role)) [
      | inl r ↦
          rw (e, get, r)
            (
              λ x. cc x,
              λ x.
                  let same : k ≡ key = cc (x.0) in
                  let bad : is_role_retired k.role ≡ false = rw same (x.1) in cc (r, bad),
            )
      | inr r ↦ rw (e, get, r) (λ x. let same : k ≡ key = cc x in (x, rw (← same) r), λ x. x.0)
    ]
  ]

  key_of_iff :
      (v : Verifier S P) (ring : KeyRing S P) (header_b64 : Text) (key : Key S P)
      → (key_of v ring header_b64 ≡ verified key) ↔ IsNamed v ring header_b64 key
  unfolding key_of
  key_of_iff v ring header_b64 key = (
    λ e.
        let (raw, decoded, e1) = read (v.codec.decode header_b64) err_malformed_token _ key e in
        let (h, header, e2) = read (v.codec.unmarshal_header raw) err_malformed_token _ key e1 in
        let (typ, e3) = required (text_eq h.typ (codes "JWT")) err_unsupported_alg _ key e2 in
        let (kid, e4) = required (not (text_eq h.kid [])) err_malformed_token _ key e3 in
        let (alg, e5) = required (is_valid_alg h.alg) err_unsupported_alg _ key e4 in
        let (k, got, e6) = read (found (get h.kid ring)) err_invalid_signature _ key e5 in
        let (same, e7) =
          required (text_eq h.alg (alg_or_default k.alg)) err_unsupported_alg _ key e6 in
        let k' : k ≡ key = verified_inj k key e7 in
        let (held, live) = (get_found h.kid ring k).0 got in
        rw (← k') (record {
          raw = raw;
          decoded = decoded;
          h = h;
          header = header;
          typ = (text_eq_iff _ _).0 typ;
          kid = ne_of_text_eq _ _ (false_of_not _ kid);
          alg = alg;
          held = held;
          live = live;
          same_alg = (text_eq_iff _ _).0 same;
        }),
    λ n.
        let got : found (get n.h.kid ring) ≡ some key =
          (get_found n.h.kid ring key).1 (n.held, n.live) in
        let typ = (text_eq_iff n.h.typ (codes "JWT")).1 n.typ in
        let same = (text_eq_iff n.h.alg (alg_or_default key.alg)).1 n.same_alg in
        rw (key_of, n.decoded, n.header, typ, text_eq_of_ne _ _ n.kid, n.alg, got, same) refl,
  )

  signed_claims_iff :
      (v : Verifier S P) (key : Key S P) (header_b64 payload_b64 sig_b64 : Text) (claims : Payload)
      → (signed_claims v key header_b64 payload_b64 sig_b64 ≡ verified claims)
        ↔ IsGenuine v key header_b64 payload_b64 sig_b64 claims
  unfolding signed_claims
  signed_claims_iff v key header_b64 payload_b64 sig_b64 claims = (
    λ e.
        let (sig, decoded_sig, e1) = read (v.codec.decode sig_b64) err_malformed_token _ claims e in
        let (fits, e2) = verified_then (verify_with v.crypto key _ sig) _ claims e1 in
        let (raw, decoded, e3) =
          read (v.codec.decode payload_b64) err_malformed_token _ claims e2 in
        let (c, got, e4) = read (v.codec.unmarshal raw) err_malformed_token _ claims e3 in
        let (typ, e5) = required (is_valid_type c.typ) err_malformed_token _ claims e4 in
        let same : c ≡ claims = verified_inj c claims e5 in
        rw (← same) (record {
          sig = sig;
          decoded_sig = decoded_sig;
          fits = fits;
          raw = raw;
          decoded = decoded;
          read = got;
          typ = typ;
        }),
    λ g. rw (signed_claims, g.decoded_sig, g.fits, g.decoded, g.read, g.typ) refl,
  )

  check_times_iff :
      (v : Verifier S P) (now : ℕ) (expected : Text) (c claims : Payload)
      → (check_times v now expected c ≡ verified claims)
        ↔ ((c ≡ claims) × IsCurrent v now expected claims)
  unfolding check_times
  check_times_iff v now expected c claims = (
    λ e.
        let (fresh, e1) =
          required (not (ltb_ℤ v.leeway (since now c.exp))) err_expired _ claims e in
        let (past, e2) =
          required (not (ltb_ℤ v.leeway (until now c.iat))) err_not_yet_valid _ claims e1 in
        let (typ, e3) =
          required (text_eq expected [] || text_eq c.typ expected) err_type_mismatch _ claims e2 in
        let same : c ≡ claims = verified_inj c claims e3 in
        (
          same,
          rw (← same) (record {
            unexpired = (since_iff now c.exp v.leeway).0 fresh;
            issued = (until_iff now c.iat v.leeway).0 past;
            typ = (asked_type expected c.typ).0 typ;
          }),
        ),
    λ x.
        let fresh = (since_iff now claims.exp v.leeway).1 (x.1).unexpired in
        let past = (until_iff now claims.iat v.leeway).1 (x.1).issued in
        let typ = (asked_type expected claims.typ).1 (x.1).typ in
        rw (x.0, check_times, fresh, past, typ) refl,
  )

  -- What a token is that the verifier accepts.
  pub record IsAccepted (v : Verifier S P) (ring : KeyRing S P) (now : ℕ) (token expected : Text)
      (claims : Payload) : Type 0 where
    pub header : Text
    pub payload : Text
    pub sig : Text
    pub parts : split token b'.' ≡ header ∷ payload ∷ sig ∷ []
    pub key : Key S P
    pub named : IsNamed v ring header key
    pub genuine : IsGenuine v key header payload sig claims
    pub current : IsCurrent v now expected claims

  -- The verifier accepts a token, with the claims given, exactly if the token has three parts; the header
  -- names JWT, a key id that the ring holds unretired, and the algorithm of that key; the signature
  -- fits header and payload under that key; the payload is these claims, with one of the three types;
  -- and they are neither expired nor issued ahead by more than the leeway, and of the type asked for.
  pub verify_iff :
      (v : Verifier S P) (ring : KeyRing S P) (now : ℕ) (token expected : Text) (claims : Payload)
      → (verify v ring now token expected ≡ verified claims)
        ↔ IsAccepted v ring now token expected claims
  unfolding verify
  verify_iff v ring now token expected claims = (
    λ e.
        let ((header, payload, sig), cut, e1) =
          read (split_token token) err_malformed_token _ claims e in
        let (key, named, e2) = verified_bind (key_of v ring header) _ claims e1 in
        let (c, genuine, e3) = verified_bind (signed_claims v key header payload sig) _ claims e2 in
        let (same, current) = (check_times_iff v now expected c claims).0 e3 in
        record {
          header = header;
          payload = payload;
          sig = sig;
          parts = (split_token_iff token header payload sig).0 cut;
          key = key;
          named = (key_of_iff v ring header key).0 named;
          genuine = (signed_claims_iff v key header payload sig claims).0 (rw same at genuine);
          current = current;
        },
    λ a.
        let cut = (split_token_iff token a.header a.payload a.sig).1 a.parts in
        let named = (key_of_iff v ring a.header a.key).1 a.named in
        let genuine = (signed_claims_iff v a.key a.header a.payload a.sig claims).1 a.genuine in
        let current = (check_times_iff v now expected claims claims).1 (refl, a.current) in
        rw (verify, cut, named, genuine) current,
  )

  -- The claims of a token depend on the token alone.
  pub verify_same :
      (v : Verifier S P) (ring ring' : KeyRing S P) (now now' : ℕ) (token expected : Text)
      (c c' : Payload)
      → verify v ring now token expected ≡ verified c
      → verify v ring' now' token expected ≡ verified c'
      → c ≡ c'
  verify_same v ring ring' now now' token expected c c' h h' =
      let a = (verify_iff v ring now token expected c).0 h in
      let a' = (verify_iff v ring' now' token expected c').0 h' in
      let parts : a.header ∷ a.payload ∷ a.sig ∷ [] ≡ a'.header ∷ a'.payload ∷ a'.sig ∷ [] =
        sym a.parts ∙ a'.parts in
      let payload : a.payload ≡ a'.payload = cc parts in
      let raw : some a.genuine.raw ≡ some a'.genuine.raw =
        sym a.genuine.decoded ∙ ap v.codec.decode payload ∙ a'.genuine.decoded in
      let raw' : a.genuine.raw ≡ a'.genuine.raw = cc raw in
      let read : some c ≡ some c' =
        sym a.genuine.read ∙ ap v.codec.unmarshal raw' ∙ a'.genuine.read in
      cc read
