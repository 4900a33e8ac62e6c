-- ===== src/Auth/Issuer.antt =====
-- auth/issuer.go: the lifetimes and the claims of the tokens that are minted. Signatures are a
-- parameter, and so are the identifiers drawn at random. Times are nanoseconds, and a duration may be
-- negative.
pub mod Lifetimes
pub mod Claimed
use parsec.Auth.Scope.{Scope, Verb, compiled}
use parsec.Common.{
  ℕ, ◌+◌, ◌-◌, ◌*◌, ◌/◌, Bool, true, false, not, ◌&&◌, ◌||◌, List, [], ◌∷◌, Option, none, some,
  if◌then◌else◌, ltb, Text, codes, text_eq, ℤ, pos, pos_part, neg_part, ltb_ℤ, is_zero,
}
use parsec.Errors.{ok, err, Code}
use parsec.RateLimit.{Limit, unlimited, normalize}

-- The errors of the package, and those of its callees.
pub data IssueError : Type 0 where
  channel_required ttl_not_positive family_required refresh_expired : IssueError
  scope_pattern_required scope_without_verb unknown_verb : IssueError
  bad_pattern : Code → IssueError
  no_entropy not_signed : IssueError

pub data Minted {ℓ} (A : Type ℓ) : Type ℓ where
  minted : A → Minted A
  refused : IssueError → Minted A

-- `if err != nil { return ..., err }`
infixl 5 ◌>>=◌
abbrev pub ◌>>=◌ {ℓ κ} : {A : Type ℓ} {B : Type κ} → Minted A → (A → Minted B) → Minted B
m >>= f = elim m [ minted a ↦ f a | refused e ↦ refused e ]

infixl 5 ◌>>◌
abbrev pub ◌>>◌ {ℓ} : {B : Type ℓ} → Minted (Unit {0}) → Minted B → Minted B
m >> next = elim m [ minted _ ↦ next | refused e ↦ refused e ]

-- `if test { return ..., e }`
abbrev pub unless : Bool → IssueError → Minted (Unit {0})
unless test e = if test then refused e else minted tt

pub data TokenType : Type 0 where
  type_access type_refresh type_mgmt : TokenType

-- `Claims` with all its fields; a string that is left out is empty.
pub record TokenClaims : Type 0 where
  pub sub : Text
  pub typ : TokenType
  pub chs : List Text
  pub iat : ℕ
  pub exp : ℕ
  pub rate_limit_override : Option Limit
  pub scopes : List Scope
  pub jti : Text
  pub fid : Text

-- The settings of an `Issuer`.
pub record Issuer : Type 0 where
  pub access_ttl : ℤ
  pub max_refresh_ttl : ℤ

-- What a call finds around it: the clock, the three draws of `newTokenID`, and `Signer.Sign`.
pub record World : Type 0 where
  pub now : ℕ
  pub new_jti : Minted Text
  pub new_fid : Minted Text
  pub new_access_jti : Minted Text
  pub sign : TokenClaims → Minted Text

pub record PairResult : Type 0 where
  pub access_token : Text
  pub refresh_token : Text
  pub access_expires : ℕ
  pub refresh_expires : ℕ

abbrev pub second : ℕ
second = 1000000000

abbrev pub minute : ℕ
minute = 60 * second

abbrev pub hour : ℕ
hour = 60 * minute

-- `t.Unix()`
abbrev pub unix : ℕ → ℕ
unix t = t / second

-- `t.Add(d)`; a sum before the origin counts as the origin, which lies as little ahead.
abbrev pub add_duration : ℕ → ℤ → ℕ
add_duration t d = t + pos_part d - neg_part d

-- `Verb.Valid`
unfoldable pub is_valid_verb : Verb → Bool
is_valid_verb v =
    text_eq v (codes "subscribe") || text_eq v (codes "publish") || text_eq v (codes "manage")

-- The loop over the verbs of a scope.
unfoldable pub validate_verbs : List Verb → Minted (Unit {0})
validate_verbs [] = minted tt
validate_verbs (v ∷ verbs) =
    let rest = validate_verbs verbs in if not (is_valid_verb v) then refused unknown_verb else rest

-- One round of `validateScopes`. The cache of the pattern that it fills is not copied to the claims.
unfoldable pub validate_scope : Scope → Minted (Unit {0})
validate_scope s = do
  unless (text_eq s.pattern []) scope_pattern_required
  elim (compiled s).1 [ ok p ↦ minted tt | err e ↦ refused (bad_pattern e) ]
  elim s.verbs [ [] ↦ refused scope_without_verb | ◌∷◌ v verbs ↦ validate_verbs (v ∷ verbs) ]

-- `validateScopes`
unfoldable pub validate_scopes : List Scope → Minted (Unit {0})
validate_scopes [] = minted tt
validate_scopes (s ∷ scopes) = let rest = validate_scopes scopes in validate_scope s >> rest

-- `cloneScopesForClaim`
unfoldable pub clone_scopes_for_claim : List Scope → List Scope
clone_scopes_for_claim [] = []
clone_scopes_for_claim (s ∷ scopes) = record s { cached = none } ∷ clone_scopes_for_claim scopes

-- The clamping of the refresh token's lifetime.
unfoldable pub refresh_ttl_of : Issuer → ℤ → ℤ
refresh_ttl_of i ttl =
    if ltb_ℤ (pos 0) i.max_refresh_ttl && ltb_ℤ i.max_refresh_ttl ttl
    then i.max_refresh_ttl
    else ttl

-- The clamping of the access token's lifetime.
unfoldable pub access_ttl_of : Issuer → ℤ → ℤ
access_ttl_of i refresh_ttl =
    let ttl = if ltb_ℤ refresh_ttl i.access_ttl then refresh_ttl else i.access_ttl in
    if ltb_ℤ ttl (pos minute) then pos minute else ttl

-- The claims that the tokens of a pair share.
pub record Grant : Type 0 where
  pub sub : Text
  pub chs : List Text
  pub scopes : List Scope
  pub rate_limit_override : Option Limit

abbrev pub claims_of : TokenType → Grant → World → ℕ → Text → Text → TokenClaims
claims_of typ g w exp jti fid = record {
  sub = g.sub;
  typ = typ;
  chs = g.chs;
  iat = unix w.now;
  exp = unix exp;
  rate_limit_override = g.rate_limit_override;
  scopes = g.scopes;
  jti = jti;
  fid = fid;
}

-- The end of the four functions that mint pairs: both lifetimes, the draws, the two signatures.
unfoldable pub sign_pair : Issuer → World → ℤ → Minted (Text × Text) → Grant → Minted PairResult
sign_pair i w ttl ids g = do
  let refresh_ttl = refresh_ttl_of i ttl
  let access_exp = add_duration w.now (access_ttl_of i refresh_ttl)
  let refresh_exp = add_duration w.now refresh_ttl
  (jti, fid) ← ids
  access_jti ← w.new_access_jti
  access ← w.sign (claims_of type_access g w access_exp access_jti [])
  refresh ← w.sign (claims_of type_refresh g w refresh_exp jti fid)
  minted (record {
    access_token = access;
    refresh_token = refresh;
    access_expires = access_exp;
    refresh_expires = refresh_exp;
  })

-- `newRefreshIDs`
unfoldable pub new_refresh_ids : World → Minted (Text × Text)
new_refresh_ids w = do jti ← w.new_jti; fid ← w.new_fid; minted (jti, fid)

abbrev pub grant : Text → List Text → List Scope → Grant
grant sub chs scopes = record {
  sub = sub;
  chs = chs;
  scopes = clone_scopes_for_claim scopes;
  rate_limit_override = none;
}

abbrev pub is_positive : ℤ → Bool
is_positive d = ltb_ℤ (pos 0) d

abbrev pub is_empty_list : List Text → Bool
is_empty_list [] = true
is_empty_list (c ∷ chs) = false

-- `Issuer.IssuePair`
unfoldable pub issue_pair : Issuer → World → Text → Text → ℤ → List Scope → Minted PairResult
unfolding new_refresh_ids
issue_pair i w sub channel channel_ttl scopes = do
  unless (text_eq channel []) channel_required
  unless (not (is_positive channel_ttl)) ttl_not_positive
  validate_scopes scopes
  sign_pair i w channel_ttl (new_refresh_ids w) (grant sub (channel ∷ []) scopes)

-- `Issuer.IssuePairForChannels`
unfoldable pub issue_pair_for_channels :
    Issuer → World → Text → List Text → ℤ → List Scope → Minted PairResult
unfolding new_refresh_ids
issue_pair_for_channels i w sub chs ttl scopes = do
  unless (is_empty_list chs) channel_required
  unless (not (is_positive ttl)) ttl_not_positive
  validate_scopes scopes
  sign_pair i w ttl (new_refresh_ids w) (grant sub chs scopes)

-- `Issuer.IssueRotatedPair`
unfoldable pub issue_rotated_pair :
    Issuer → World → Text → Text → Text → ℤ → List Scope → Minted PairResult
issue_rotated_pair i w sub channel old_fid channel_ttl scopes = do
  unless (text_eq channel []) channel_required
  unless (text_eq old_fid []) family_required
  unless (not (is_positive channel_ttl)) ttl_not_positive
  validate_scopes scopes
  sign_pair i w channel_ttl (w.new_jti >>= λ jti. minted (jti, old_fid))
      (grant sub (channel ∷ []) scopes)

-- Its claims, with the override if it limits anything.
abbrev pub limited_grant : Text → Text → Limit → Grant
limited_grant sub channel override = record {
  sub = sub;
  chs = channel ∷ [];
  scopes = [];
  rate_limit_override = if not (unlimited override) then some (normalize override) else none;
}

-- `Issuer.IssuePairWithRateLimit`
unfoldable pub issue_pair_with_rate_limit :
    Issuer → World → Text → Text → ℤ → Limit → Minted PairResult
unfolding new_refresh_ids
issue_pair_with_rate_limit i w sub channel channel_ttl override = do
  unless (text_eq channel []) channel_required
  unless (not (is_positive channel_ttl)) ttl_not_positive
  sign_pair i w channel_ttl (new_refresh_ids w) (limited_grant sub channel override)

-- The expiry that `IssueAccess` and `IssueAccessForChannels` choose.
unfoldable pub access_exp_of : Issuer → ℕ → ℕ → ℕ
access_exp_of i now refresh_exp =
    let exp = add_duration now i.access_ttl in if ltb refresh_exp exp then refresh_exp else exp

-- Their common end: the token and its expiry.
unfoldable pub sign_access : Issuer → World → ℕ → Grant → Minted (Text × ℕ)
sign_access i w refresh_exp g = do
  let exp = access_exp_of i w.now refresh_exp
  unless (not (ltb w.now exp)) refresh_expired
  jti ← w.new_access_jti
  tok ← w.sign (claims_of type_access g w exp jti [])
  minted (tok, exp)

-- `Issuer.IssueAccess`
unfoldable pub issue_access : Issuer → World → Text → Text → ℕ → List Scope → Minted (Text × ℕ)
issue_access i w sub channel refresh_exp scopes = do
  validate_scopes scopes
  sign_access i w refresh_exp (grant sub (channel ∷ []) scopes)

-- `Issuer.IssueAccessForChannels`
unfoldable pub issue_access_for_channels : Issuer → World → Text → List Text → ℕ → Minted (Text × ℕ)
issue_access_for_channels i w sub chs refresh_exp = do
  unless (is_empty_list chs) channel_required
  sign_access i w refresh_exp (grant sub chs [])

-- The clamping of `IssueMgmt`.
unfoldable pub mgmt_ttl_of : ℤ → ℤ
mgmt_ttl_of ttl =
    let t1 = if is_zero ttl then pos (24 * hour) else ttl in
    let t2 = if ltb_ℤ t1 (pos hour) then pos hour else t1 in
    if ltb_ℤ (pos (7 * 24 * hour)) t2 then pos (7 * 24 * hour) else t2

-- `Issuer.IssueMgmt`
unfoldable pub issue_mgmt : World → Text → ℤ → Minted (Text × ℕ)
issue_mgmt w sub ttl = do
  let exp = add_duration w.now (mgmt_ttl_of ttl)
  tok ← w.sign (claims_of type_mgmt (grant sub [] []) w exp [] [])
  minted (tok, exp)
