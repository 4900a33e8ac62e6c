-- ===== src/Tests/Rings.antt =====
-- The theorems on rings of keys, with numbers as asymmetric keys.
use parsec.Auth.KeyRing.Runs
use parsec.Auth.KeyRing.Runs.{
  Call, call_add_asymmetric, call_promote, call_retire, run_never_panics,
}
use parsec.Auth.KeyRing.Validity.{IsValid, new_key_ring-IsValid}
use parsec.Auth.KeyRing.{
  Alg, alg_rs256, role_verify_only, done, Key, KeyRing, new_key_ring, get, is_valid_alg,
  build_header, add_asymmetric,
}
use parsec.Common.{
  ℕ, List, [], ◌∷◌, ◌++◌, ◌≡◌, refl, Option, none, some, Text, Text-discrete, codes, lookup, insert,
  Bool-cases,
}

abbrev encode : Alg → Text → Option Text
encode alg kid = some (alg ++ kid)

abbrev calls : List (Call ℕ ℕ)
calls =
    call_add_asymmetric (codes "a") alg_rs256 (some 1) 2 5
    ∷ call_add_asymmetric (codes "b") alg_rs256 (some 3) 4 6
    ∷ []

abbrev ring : KeyRing ℕ ℕ
ring = (Runs.run encode calls new_key_ring).0

ring-IsValid : IsValid ring
ring-IsValid = (run_never_panics encode calls new_key_ring new_key_ring-IsValid).0

abbrev key_b : Key ℕ ℕ
key_b = record {
  id = codes "b";
  alg = alg_rs256;
  secret = [];
  private = some 3;
  public = some 4;
  role = role_verify_only;
  created_at = 6;
  retired_at = none;
  header = codes "RS256b";
}

b_there : get (codes "b") ring ≡ done key_b
unfolding get Runs.run Runs.after add_asymmetric build_header is_valid_alg lookup insert
    Text-discrete Bool-cases
b_there = refl
