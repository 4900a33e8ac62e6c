-- ===== src/Auth/Issuer/Claimed.antt =====
-- The tokens that are minted for a refresh: single access tokens, and pairs that go on with a family.
use parsec.Auth.Issuer.Lifetimes.{minted_bind, minted_then, not_refused}
use parsec.Auth.Issuer.{
  Issuer, World, Minted, minted, grant, Grant, is_empty_list, claims_of, type_access, issue_access,
  issue_access_for_channels, sign_access, access_exp_of, refresh_expired, channel_required,
  validate_scopes,
}
use parsec.Auth.Scope.{Scope}
use parsec.Common.{ℕ, ◌+◌, ◌≤◌, ◌<◌, not, List, [], ◌∷◌, ◌≡◌, ap, arith, ltb, Text, pos_part}

-- What an access token for the grant `g` is.
pub record IsAccess (i : Issuer) (w : World) (refresh_exp : ℕ) (g : Grant) (tok : Text) (exp : ℕ)
    : Type 0 where
  pub ahead : w.now < exp
  pub within_refresh : exp ≤ refresh_exp
  pub within_ttl : exp ≤ w.now + pos_part i.access_ttl
  pub jti : Text
  pub drawn : w.new_access_jti ≡ minted jti
  pub signed : w.sign (claims_of type_access g w exp jti []) ≡ minted tok

minted_inj : (a b : Text × ℕ) → minted a ≡ minted b → (a.0 ≡ b.0) × (a.1 ≡ b.1)
minted_inj a b h =
    let same : a ≡ b = cc h in (ap (λ (x : Text × ℕ). x.0) same, ap (λ (x : Text × ℕ). x.1) same)

pub sign_access-IsAccess :
    (i : Issuer) (w : World) (refresh_exp : ℕ) (g : Grant) (tok : Text) (exp : ℕ)
    → sign_access i w refresh_exp g ≡ minted (tok, exp)
    → IsAccess i w refresh_exp g tok exp
unfolding sign_access access_exp_of
sign_access-IsAccess i w refresh_exp g tok exp h =
    let e = access_exp_of i w.now refresh_exp in
    let (later, h1) = not_refused (not (ltb w.now e)) refresh_expired _ (tok, exp) h in
    let (jti, drawn, h2) = minted_bind w.new_access_jti _ (tok, exp) h1 in
    let (tok', signed, h3) =
      minted_bind (w.sign (claims_of type_access g w e jti [])) _ (tok, exp) h2 in
    let (same_tok, same) = minted_inj (tok', e) (tok, exp) h3 in
    rw (← same_tok, ← same)
      (record {
        ahead = ground arith;
        within_refresh = ground arith;
        within_ttl = ground arith;
        jti = jti;
        drawn = drawn;
        signed = signed;
      })

-- A call that mints one access token.
pub data AccessCall : Type 0 where
  call_access : Text → List Scope → AccessCall
  call_access_channels : List Text → AccessCall

unfoldable pub issue_one : AccessCall → Issuer → World → Text → ℕ → Minted (Text × ℕ)
issue_one (call_access channel scopes) i w sub refresh_exp =
    issue_access i w sub channel refresh_exp scopes
issue_one (call_access_channels chs) i w sub refresh_exp =
    issue_access_for_channels i w sub chs refresh_exp

-- What the call asks for.
abbrev pub asked : Text → AccessCall → Grant
asked sub (call_access channel scopes) = grant sub (channel ∷ []) scopes
asked sub (call_access_channels chs) = grant sub chs []

pub issue_one-IsAccess :
    (c : AccessCall) (i : Issuer) (w : World) (sub : Text) (refresh_exp : ℕ) (tok : Text) (exp : ℕ)
    → issue_one c i w sub refresh_exp ≡ minted (tok, exp)
    → IsAccess i w refresh_exp (asked sub c) tok exp
unfolding issue_one issue_access issue_access_for_channels
issue_one-IsAccess (call_access channel scopes) i w sub refresh_exp tok exp h =
    sign_access-IsAccess i w refresh_exp _ tok exp
      (minted_then (validate_scopes scopes) _ (tok, exp) h)
issue_one-IsAccess (call_access_channels chs) i w sub refresh_exp tok exp h =
    let (_, h1) = not_refused (is_empty_list chs) channel_required _ (tok, exp) h in
    sign_access-IsAccess i w refresh_exp _ tok exp h1
