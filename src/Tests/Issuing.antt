-- ===== src/Tests/Issuing.antt =====
-- The theorems on the tokens that are minted.
use parsec.Auth.Issuer.Claimed.{AccessCall, call_access_channels}
use parsec.Auth.Issuer.Lifetimes.{PairCall, call_pair}
use parsec.Auth.Issuer.{Issuer, World, minted, PairResult, TokenClaims, minute, second}
use parsec.Common.{◌*◌, [], ◌∷◌, ◌++◌, codes, pos}

abbrev issuer : Issuer
issuer = record { access_ttl = pos (5 * minute); max_refresh_ttl = pos (60 * minute) }

-- A signature that is the subject and the identifier.
abbrev world : World
world = record {
  now = 1000 * second;
  new_jti = minted (codes "j");
  new_fid = minted (codes "f");
  new_access_jti = minted (codes "a");
  sign = λ (c : TokenClaims). minted (c.sub ++ c.jti);
}

-- A refresh token for half a minute.
abbrev short : PairResult
short = record {
  access_token = codes "anna";
  refresh_token = codes "annj";
  access_expires = 1060 * second;
  refresh_expires = 1030 * second;
}

abbrev for_ann : PairCall
for_ann = call_pair (codes "ann") (codes "public:news") []

abbrev two_channels : AccessCall
two_channels = call_access_channels (codes "public:a" ∷ codes "public:b" ∷ [])
