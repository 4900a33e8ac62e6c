-- ===== src/Tests/Tokens.antt =====
-- The theorems on the verification of tokens, with numbers as asymmetric keys, a base64 that adds to
-- each byte, and a JSON of a header that is the key id.
use parsec.Auth.KeyRing.{alg_hs256, role_active, role_verify_only, done, Key, KeyRing, active_key}
use parsec.Auth.Signer.{
  Payload, Crypto, Codec, family_other, curve_other, sign, sign_with, sign_active, is_valid_type,
  alg_or_default,
}
use parsec.Auth.SubscribeAuthorizer.Deciding.{HasGrant, authorize_subscribe_iff}
use parsec.Auth.SubscribeAuthorizer.{run_gate, authorize_subscribe, limiter_gate}
use parsec.Auth.Verifier.Checks.{IsAccepted, verify_iff}
use parsec.Auth.Verifier.RoundTrip.{Encodes, verify-sign}
use parsec.Auth.Verifier.Signatures.{IsSound}
use parsec.Auth.Verifier.{Verifier, verified, verify}
use parsec.Channels.Name.Parsing.{named}
use parsec.Channels.Name.{Name, visibility_private, is_private}
use parsec.Common.{
  ℕ, zero, suc, replicate, ◌+◌, ◌-◌, ◌*◌, false, true, [], ◌∷◌, ◌++◌, ◌≡◌, ◌≢◌, ◌↔◌, ◌⊎◌, inr, refl,
  ap, arith, none, some, if◌then◌else◌, Lacks, Text, codes, text_eq, pos, lookup, Text-discrete,
  Bool-cases,
}
use parsec.Errors.{ok}
use parsec.RateLimit.{MemoryLimiter}

abbrev up : Text → Text
up [] = []
up (c ∷ s) = (c + 100) ∷ up s

abbrev down : Text → Text
down [] = []
down (c ∷ s) = (c - 100) ∷ down s

down-up : (s : Text) → down (up s) ≡ s
down-up [] = refl
down-up (c ∷ s) = ground (arith, down-up s)

up-Lacks : (s : Text) → Lacks b'.' (up s)
up-Lacks [] = tt
up-Lacks (c ∷ s) = (omega arith, up-Lacks s)

-- Enough for numbers of one byte, which are all that this crypto writes.
abbrev sum_of : Text → ℕ
sum_of [] = 0
sum_of (c ∷ s) = c + sum_of s

sum_of_zeros : (zeros n : ℕ) → sum_of (replicate zeros 0 ++ n ∷ []) ≡ n
sum_of_zeros zero n = omega arith
sum_of_zeros (suc zeros) n = ground (arith, sum_of_zeros zeros n)

-- The claims of a refresh token and of an access token for one channel.
abbrev pub claims : Text → Text → Text → Payload
claims typ jti fid = record {
  sub = codes "ann";
  typ = typ;
  chs = codes "private:chat.room.r1" ∷ [];
  iat = pos 10;
  exp = pos 100;
  rate_limit_override = none;
  scopes = [];
  jti = jti;
  fid = fid;
}

abbrev pub codec : Codec
codec = record {
  encode = up;
  decode = λ s. some (down s);
  unmarshal_header = λ kid. some (record { alg = alg_hs256; kid = kid; typ = codes "JWT" });
  marshal = λ (c : Payload). some (c.jti);
  unmarshal = λ jti.
      some (claims (if text_eq jti [] then codes "access" else codes "refresh") jti (codes "f"));
}

abbrev pub crypto : Crypto ℕ ℕ
crypto = record {
  hmac_sha256 = λ secret msg. secret;
  sha256 = λ msg. msg;
  sha384 = λ msg. msg;
  private_family = λ s. family_other;
  public_family = λ p. family_other;
  rsa_sign = λ s m. none;
  rsa_verify = λ p m sig. false;
  ed25519_sign = λ s m. m;
  ed25519_verify = λ p m sig. true;
  ecdsa_sign = λ s m. none;
  ecdsa_verify = λ p m r s. false;
  curve = λ p. curve_other;
  bytes = λ n. n ∷ [];
  set_bytes = λ s. sum_of s;
}

abbrev pub verifier : Verifier ℕ ℕ
verifier = record { crypto = crypto; codec = codec; leeway = pos 0 }

abbrev key : Key ℕ ℕ
key = record {
  id = codes "k";
  alg = alg_hs256;
  secret = codes "s";
  private = none;
  public = none;
  role = role_active;
  created_at = 0;
  retired_at = none;
  header = up (codes "k");
}

abbrev pub ring : KeyRing ℕ ℕ
ring = record { by_id = (codes "k", key) ∷ []; active = codes "k" }

-- The ring behind a rotation to another key.
abbrev rotated : KeyRing ℕ ℕ
rotated = record {
  by_id =
      (codes "k", record key { role = role_verify_only })
      ∷ (codes "l", record key { id = codes "l" })
      ∷ [];
  active = codes "l";
}

abbrev pub token : Text → Text
token jti = (up (codes "k") ++ b'.' ∷ up jti) ++ b'.' ∷ up (codes "s")

abbrev pub at_second : ℕ → ℕ
at_second n = n * 1000000000

active_is_key : active_key ring ≡ done key
unfolding active_key lookup Text-discrete Bool-cases
active_is_key = refl

signed :
    sign crypto codec ring (claims (codes "refresh") (codes "j") (codes "f"))
    ≡ done (token (codes "j"))
unfolding sign active_key lookup sign_active sign_with is_valid_type alg_or_default Text-discrete
    Bool-cases
signed = refl

still_there : lookup (codes "k") rotated.by_id ≡ some (record key { role = role_verify_only })
unfolding lookup Text-discrete Bool-cases
still_there = refl

key-IsSound : IsSound crypto key
key-IsSound = record {
  paired = λ s h. cc h;
  curve = λ p h. cc h;
  short = λ s m d r t h g. cc g;
  numbers = λ zeros n. sum_of_zeros zeros n;
}

header_read :
    codec.unmarshal_header (codes "k")
    ≡ some (record { alg = alg_or_default key.alg; kid = codes "k"; typ = codes "JWT" })
unfolding alg_or_default
header_read = refl

some_text_inj : (a b : Text) → some a ≡ some b → a ≡ b
some_text_inj a b h = cc h

claims-Encodes : Encodes codec (claims (codes "refresh") (codes "j") (codes "f"))
claims-Encodes = record {
  decoded = λ raw. ap (λ x. some x) (down-up raw);
  one_part = up-Lacks;
  read = λ raw h. rw (← some_text_inj (codes "j") raw h) refl;
}

verify-sign_example :
    verify verifier rotated (at_second 20) (token (codes "j")) (codes "refresh")
    ≡ verified (claims (codes "refresh") (codes "j") (codes "f"))
verify-sign_example =
    verify-sign verifier ring rotated (at_second 20)
      (claims (codes "refresh") (codes "j") (codes "f")) (codes "refresh") (token (codes "j")) key
      role_verify_only active_is_key (λ e. cc e) key-IsSound
      (record {
        raw = codes "k";
        decoded = refl;
        read = header_read;
        one_part = up-Lacks (codes "k");
      })
      claims-Encodes signed still_there refl
      (record { unexpired = omega arith; issued = omega arith; typ = inr refl })

verify_iff_example :
    (verify verifier ring (at_second 20) (token (codes "j")) (codes "refresh")
      ≡ verified (claims (codes "refresh") (codes "j") (codes "f")))
    ↔ IsAccepted verifier ring
        (at_second 20)
        (token (codes "j"))
        (codes "refresh")
        (claims (codes "refresh") (codes "j") (codes "f"))
verify_iff_example =
    verify_iff verifier ring (at_second 20) (token (codes "j")) (codes "refresh")
      (claims (codes "refresh") (codes "j") (codes "f"))

abbrev room : Name
room = named visibility_private (codes "chat") (codes "room") (codes "r1") []

abbrev limiter : MemoryLimiter
limiter = record { limit = record { rate = pos 2; per = pos 1000; burst = pos 2 }; buckets = [] }

authorize_subscribe_iff_example :
    (((authorize_subscribe verifier
          (some (limiter_gate false 5))
          ring
          (at_second 20)
          (codes "ann")
          room
          (token [])
          limiter).1
        ≡ ok tt)
      ↔ (((run_gate (some (limiter_gate false 5)) (codes "ann") room limiter).1 ≡ ok tt)
          × ((is_private room ≡ false)
              ⊎ ((token [] ≢ []) × HasGrant verifier ring (at_second 20) room (token [])))))
    × ((authorize_subscribe verifier
          (some (limiter_gate false 5))
          ring
          (at_second 20)
          (codes "ann")
          room
          (token [])
          limiter).0
        ≡ (run_gate (some (limiter_gate false 5)) (codes "ann") room limiter).0)
authorize_subscribe_iff_example =
    authorize_subscribe_iff verifier (some (limiter_gate false 5)) ring (at_second 20) (codes "ann")
      room (token []) limiter
