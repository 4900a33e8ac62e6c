-- ===== src/Auth/Snapshots/Entries.antt =====
-- One key, written to a snapshot and read back.
use parsec.Auth.KeyRing.{
  Alg, alg_hs256, alg_rs256, alg_eddsa, alg_es256, alg_es384, is_valid_alg, Role, Key, build_header,
}
use parsec.Auth.Signer.{
  Family, family_rsa, family_ed25519, family_ecdsa, is_family_rsa, is_family_ed25519,
  is_family_ecdsa, alg_or_default, cast,
}
use parsec.Auth.Snapshots.{
  Forms, pem_of, private_pem_of, entry_of, decode_private_pem, material_of, retired_at_of,
  key_of_entry,
}
use parsec.Auth.Verifier.{fits_curve}
use parsec.Common.{
  ℕ, Bool, true, false, ◌||◌, [], ◌≡◌, ◌≢◌, refl, ap, Option, none, some, ltb, length, Text,
  text_eq, text_eq_of_ne,
}

-- Hexadecimal numbers and times are read back, and the text of a time is not empty.
pub record IsReadable {S P : Type 0} (f : Forms S P) : Type 0 where
  pub unhex : (s : Text) → f.unhex (f.hex s) ≡ some s
  pub parse : (t : ℕ) → f.parse_time (f.format_time t) ≡ some t
  pub shown : (t : ℕ) → f.format_time t ≢ []

-- The private key `s` has a PEM form that is read back.
pub record HasPem {S P : Type 0} (f : Forms S P) (s : S) : Type 0 where
  pub blob : Text
  pub written : f.pem s ≡ some blob
  pub full : blob ≢ []
  pub read : f.unpem blob ≡ some s

module _ {S P : Type 0} where
  abbrev secret_key : Text → Text → Role → ℕ → Option ℕ → Text → Key S P
  secret_key id secret role created_at retired_at header = record {
    id = id;
    alg = alg_hs256;
    secret = secret;
    private = none;
    public = none;
    role = role;
    created_at = created_at;
    retired_at = retired_at;
    header = header;
  }

  abbrev key_pair : Forms S P → Text → Alg → S → Role → ℕ → Option ℕ → Text → Key S P
  key_pair f id alg s role created_at retired_at header = record {
    id = id;
    alg = alg;
    secret = [];
    private = some s;
    public = some (f.public_of s);
    role = role;
    created_at = created_at;
    retired_at = retired_at;
    header = header;
  }

  -- A key as the ring makes it: with a secret that is long enough, or with the pair of its algorithm,
  -- and with its header.
  pub data IsMade (f : Forms S P) (encode : Alg → Text → Option Text) : Key S P → Type 0 where
    made_secret :
        (id secret : Text) (role : Role) (created_at : ℕ) (retired_at : Option ℕ) (header : Text)
        → ltb (length secret) 32 ≡ false
        → build_header encode id alg_hs256 ≡ some header
        → IsMade f encode (secret_key id secret role created_at retired_at header)
    made_rsa :
        (id : Text) (s : S) (role : Role) (created_at : ℕ) (retired_at : Option ℕ) (header : Text)
        → HasPem f s
        → f.family s ≡ family_rsa
        → build_header encode id alg_rs256 ≡ some header
        → IsMade f encode (key_pair f id alg_rs256 s role created_at retired_at header)
    made_ed25519 :
        (id : Text) (s : S) (role : Role) (created_at : ℕ) (retired_at : Option ℕ) (header : Text)
        → HasPem f s
        → f.family s ≡ family_ed25519
        → build_header encode id alg_eddsa ≡ some header
        → IsMade f encode (key_pair f id alg_eddsa s role created_at retired_at header)
    made_es256 :
        (id : Text) (s : S) (role : Role) (created_at : ℕ) (retired_at : Option ℕ) (header : Text)
        → HasPem f s
        → f.family s ≡ family_ecdsa
        → fits_curve alg_es256 (f.curve (f.public_of s)) ≡ true
        → build_header encode id alg_es256 ≡ some header
        → IsMade f encode (key_pair f id alg_es256 s role created_at retired_at header)
    made_es384 :
        (id : Text) (s : S) (role : Role) (created_at : ℕ) (retired_at : Option ℕ) (header : Text)
        → HasPem f s
        → f.family s ≡ family_ecdsa
        → fits_curve alg_es384 (f.curve (f.public_of s)) ≡ true
        → build_header encode id alg_es384 ≡ some header
        → IsMade f encode (key_pair f id alg_es384 s role created_at retired_at header)

  retired_at_back :
      (f : Forms S P) (r : Option ℕ)
      → IsReadable f
      → retired_at_of f (elim r [ none ↦ [] | some t ↦ f.format_time t ]) ≡ some r
  unfolding retired_at_of
  retired_at_back f none h = refl
  retired_at_back f (some t) h =
      rw (text_eq_of_ne (f.format_time t) [] (h.shown t), retired_at_of, h.parse t) refl

  pem_text :
      (f : Forms S P) (is : Family → Bool) (s : S) (p : HasPem f s)
      → is (f.family s) ≡ true
      → pem_of f is (some s) ≡ p.blob
  unfolding pem_of cast
  pem_text f is s p fam = rw (pem_of, cast, fam, p.written) refl

  rsa_text :
      (f : Forms S P) (s : S) (p : HasPem f s)
      → f.family s ≡ family_rsa
      → private_pem_of f alg_rs256 (some s) ≡ p.blob
  unfolding private_pem_of
  rsa_text f s p fam = pem_text f is_family_rsa s p (ap is_family_rsa fam)

  ed25519_text :
      (f : Forms S P) (s : S) (p : HasPem f s)
      → f.family s ≡ family_ed25519
      → private_pem_of f alg_eddsa (some s) ≡ p.blob
  unfolding private_pem_of
  ed25519_text f s p fam = pem_text f is_family_ed25519 s p (ap is_family_ed25519 fam)

  ecdsa_text :
      (f : Forms S P) (alg : Alg) (s : S) (p : HasPem f s)
      → f.family s ≡ family_ecdsa
      → text_eq alg alg_eddsa ≡ false
      → text_eq alg alg_rs256 ≡ false
      → text_eq alg alg_es256 || text_eq alg alg_es384 ≡ true
      → private_pem_of f alg (some s) ≡ p.blob
  unfolding private_pem_of
  ecdsa_text f alg s p fam e1 e2 e3 =
      rw (private_pem_of, e1, e2, e3) (pem_text f is_family_ecdsa s p (ap is_family_ecdsa fam))

  rsa_fits :
      (f : Forms S P) (s : S) (p : HasPem f s)
      → f.family s ≡ family_rsa
      → decode_private_pem f p.blob alg_rs256 ≡ some (s, f.public_of s)
  unfolding decode_private_pem
  rsa_fits f s p fam = rw (decode_private_pem, p.read, fam) refl

  ed25519_fits :
      (f : Forms S P) (s : S) (p : HasPem f s)
      → f.family s ≡ family_ed25519
      → decode_private_pem f p.blob alg_eddsa ≡ some (s, f.public_of s)
  unfolding decode_private_pem
  ed25519_fits f s p fam = rw (decode_private_pem, p.read, fam) refl

  ecdsa_fits :
      (f : Forms S P) (alg : Alg) (s : S) (p : HasPem f s)
      → f.family s ≡ family_ecdsa
      → fits_curve alg (f.curve (f.public_of s)) ≡ true
      → text_eq alg alg_eddsa ≡ false
      → text_eq alg alg_rs256 ≡ false
      → decode_private_pem f p.blob alg ≡ some (s, f.public_of s)
  unfolding decode_private_pem
  ecdsa_fits f alg s p fam curve e1 e2 = rw (decode_private_pem, p.read, e1, e2, fam, curve) refl

  pair_back :
      (f : Forms S P) (encode : Alg → Text → Option Text) (id : Text) (alg : Alg) (s : S)
      (role : Role) (created_at : ℕ) (retired_at : Option ℕ) (header : Text)
      → IsReadable f
      → (p : HasPem f s) → alg_or_default alg ≡ alg
      → is_valid_alg alg ≡ true
      → text_eq alg alg_hs256 ≡ false
      → private_pem_of f alg (some s) ≡ p.blob
      → decode_private_pem f p.blob alg ≡ some (s, f.public_of s)
      → build_header encode id alg ≡ some header
      → key_of_entry f encode (entry_of f (key_pair f id alg s role created_at retired_at header))
        ≡ some (key_pair f id alg s role created_at retired_at header)
  unfolding key_of_entry entry_of material_of
  pair_back f encode id alg s role created_at retired_at header h p named valid other text fits
        built =
      rw
        (
          key_of_entry,
          entry_of,
          h.parse created_at,
          named,
          named,
          valid,
          other,
          text,
          text_eq_of_ne p.blob [] p.full,
          fits,
          retired_at_back f retired_at h,
          built,
        )
        refl

  -- A key that the ring has made, with any role, is read back from its entry in a snapshot as it was.
  pub key_of_entry-entry_of :
      (f : Forms S P) (encode : Alg → Text → Option Text) (k : Key S P)
      → IsReadable f
      → IsMade f encode k
      → key_of_entry f encode (entry_of f k) ≡ some k
  unfolding key_of_entry entry_of material_of
  key_of_entry-entry_of f encode k h
        (made_secret id secret role created_at retired_at header long built) =
      rw
        (
          key_of_entry,
          entry_of,
          h.parse created_at,
          h.unhex secret,
          long,
          retired_at_back f retired_at h,
          built,
        )
        refl
  key_of_entry-entry_of f encode k h (made_rsa id s role created_at retired_at header p fam built) =
      pair_back f encode id alg_rs256 s role created_at retired_at header h p refl refl refl
        (rsa_text f s p fam) (rsa_fits f s p fam) built
  key_of_entry-entry_of f encode k h
        (made_ed25519 id s role created_at retired_at header p fam built) =
      pair_back f encode id alg_eddsa s role created_at retired_at header h p refl refl refl
        (ed25519_text f s p fam) (ed25519_fits f s p fam) built
  key_of_entry-entry_of f encode k h
        (made_es256 id s role created_at retired_at header p fam curve built) =
      pair_back f encode id alg_es256 s role created_at retired_at header h p refl refl refl
        (ecdsa_text f alg_es256 s p fam refl refl refl)
        (ecdsa_fits f alg_es256 s p fam curve refl refl) built
  key_of_entry-entry_of f encode k h
        (made_es384 id s role created_at retired_at header p fam curve built) =
      pair_back f encode id alg_es384 s role created_at retired_at header h p refl refl refl
        (ecdsa_text f alg_es384 s p fam refl refl refl)
        (ecdsa_fits f alg_es384 s p fam curve refl refl) built
