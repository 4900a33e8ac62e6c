-- ===== src/Auth/Issuer/Lifetimes.antt =====
-- How long tokens last.
use parsec.Auth.Issuer.{
  Issuer, World, Minted, minted, refused, unless, ◌>>=◌, ◌>>◌, PairResult, add_duration,
  refresh_ttl_of, access_ttl_of, sign_pair, issue_pair, issue_pair_for_channels, issue_rotated_pair,
  issue_pair_with_rate_limit, Grant, claims_of, type_access, type_refresh, IssueError,
}
use parsec.Auth.Scope.{Scope}
use parsec.Common.{Bool, true, false, List, [], ◌≡◌, refl, Text, ℤ}
use parsec.RateLimit.{Limit}

-- A call that mints a pair, its lifetime apart.
pub data PairCall : Type 0 where
  call_pair : Text → Text → List Scope → PairCall
  call_channels : Text → List Text → List Scope → PairCall
  call_rotated : Text → Text → Text → List Scope → PairCall
  call_limited : Text → Text → Limit → PairCall

unfoldable pub issue : PairCall → Issuer → World → ℤ → Minted PairResult
issue (call_pair sub channel scopes) i w ttl = issue_pair i w sub channel ttl scopes
issue (call_channels sub chs scopes) i w ttl = issue_pair_for_channels i w sub chs ttl scopes
issue (call_rotated sub channel old_fid scopes) i w ttl =
    issue_rotated_pair i w sub channel old_fid ttl scopes
issue (call_limited sub channel limit) i w ttl =
    issue_pair_with_rate_limit i w sub channel ttl limit

pub minted_bind {ℓ κ} :
    {A : Type ℓ} {B : Type κ} (m : Minted A) (f : A → Minted B) (b : B)
    → (m >>= f) ≡ minted b
    → (a : A) × (m ≡ minted a) × (f a ≡ minted b)
minted_bind (minted a) f b h = (a, refl, h)
minted_bind (refused e) f b h = cc h

pub minted_then {ℓ} :
    {B : Type ℓ} (m : Minted (Unit {0})) (n : Minted B) (b : B) → (m >> n) ≡ minted b → n ≡ minted b
minted_then (minted a) n b h = h
minted_then (refused e) n b h = cc h

minted_inj {ℓ} : {A : Type ℓ} (a b : A) → minted a ≡ minted b → a ≡ b
minted_inj a b h = cc h

pub not_refused :
    {B : Type 0} (test : Bool) (e : IssueError) (n : Minted B) (b : B)
    → (unless test e >> n) ≡ minted b
    → (test ≡ false) × (n ≡ minted b)
not_refused true e n b h = cc h
not_refused false e n b h = (refl, h)

-- What a pair that was minted comes from, for the grant `g` and the family `fid`.
pub record IsSigned (i : Issuer) (w : World) (ttl : ℤ) (g : Grant) (fid : Text) (r : PairResult)
    : Type 0 where
  pub access_expires :
      r.access_expires ≡ add_duration w.now (access_ttl_of i (refresh_ttl_of i ttl))
  pub refresh_expires : r.refresh_expires ≡ add_duration w.now (refresh_ttl_of i ttl)
  pub access_jti : Text
  pub access :
      w.sign (claims_of type_access g w r.access_expires access_jti []) ≡ minted r.access_token
  pub jti : Text
  pub refresh :
      w.sign (claims_of type_refresh g w r.refresh_expires jti fid) ≡ minted r.refresh_token

pub sign_pair-IsSigned :
    (i : Issuer) (w : World) (ttl : ℤ) (ids : Minted (Text × Text)) (g : Grant) (r : PairResult)
    → sign_pair i w ttl ids g ≡ minted r
    → (jti : Text) × (fid : Text) × (ids ≡ minted (jti, fid)) × IsSigned i w ttl g fid r
unfolding sign_pair
sign_pair-IsSigned i w ttl ids g r h =
    let ((jti, fid), drawn, h1) = minted_bind ids _ r h in
    let (access_jti, _, h2) = minted_bind w.new_access_jti _ r h1 in
    let (access, a, h3) = minted_bind (w.sign _) _ r h2 in
    let (refresh, b, h4) = minted_bind (w.sign _) _ r h3 in
    let same = minted_inj _ r h4 in
    (
      jti,
      fid,
      drawn,
      rw (← same) (record {
        access_expires = refl;
        refresh_expires = refl;
        access_jti = access_jti;
        access = a;
        jti = jti;
        refresh = b;
      }),
    )
