-- ===== src/Facade/Refreshing.antt =====
-- parsec.go: the refresh of an access token. The token is verified, its channel looked up, and the
-- refresh store asked before the issuer mints; the stores are those in memory, which do not fail.
-- The metrics are left out.
pub mod Redeeming
pub mod Rotation
pub mod Families
use parsec.Auth.Issuer.{
  Issuer, World, Minted, minted, refused, PairResult, second, issue_access, issue_rotated_pair,
}
use parsec.Auth.KeyRing.{KeyRing}
use parsec.Auth.Refresh.{
  MemoryRefreshStore, redeemed_now, err_refresh_reused, mark_redeemed, revoke_family,
  is_family_revoked,
}
use parsec.Auth.Signer.{Payload}
use parsec.Auth.SubscribeAuthorizer.{map_err}
use parsec.Auth.Verifier.{Verified, verified, rejected, Verifier, verify}
use parsec.Channels.Name.{parse_name}
use parsec.Channels.Store
use parsec.Channels.Store.{Channel, MemoryStore, is_state_open}
use parsec.Common.{
  ℕ, ◌*◌, Bool, true, false, not, List, [], ◌∷◌, Option, none, some, if◌then◌else◌, Text, codes,
  text_eq, ℤ, pos_part,
}
use parsec.Errors.{Result, ok, err, ◌>>=◌, auth_denied, channel_closed}

pub record RefreshResult : Type 0 where
  pub access_token : Text
  pub access_expires : ℕ
  pub refresh_token : Text
  pub refresh_expires : ℕ
  pub rotated : Bool

-- `Claims.ExpiresAt`; a time before the origin counts as the origin.
unfoldable pub expires_at : Payload → ℕ
expires_at c = pos_part c.exp * second

-- `if len(claims.Chs) != 1`
unfoldable pub one_channel : List Text → Result Text
one_channel (channel ∷ []) = ok channel
one_channel _ = err auth_denied

-- The lookup of the channel, which must be open.
unfoldable pub open_channel : MemoryStore → Text → Result Channel
unfolding parse_name Store.get
open_channel channels channel = elim (parse_name channel) [
  | err _ ↦ err auth_denied
  | ok name ↦ Store.get name channels >>= λ ch.
      if not (is_state_open ch.state) then err channel_closed else ok ch
]

-- The claims of a refresh token that may be exchanged, with its channel.
unfoldable pub exchangeable :
    {S P : Type 0}
    → Verifier S P
    → KeyRing S P
    → MemoryStore
    → ℕ
    → Text
    → Result (Payload × Text × Channel)
unfolding verify map_err one_channel open_channel
exchangeable v ring channels now token = elim (verify v ring now token (codes "refresh")) [
  | rejected e ↦ err (map_err e)
  | verified c ↦
      one_channel c.chs >>= λ channel. open_channel channels channel >>= λ ch. ok (c, channel, ch)
]

-- The branch of a token without a JTI.
unfoldable pub legacy_access : Issuer → World → Payload → Text → Result RefreshResult
unfolding issue_access expires_at
legacy_access i w c channel = elim (issue_access i w c.sub channel (expires_at c) c.scopes) [
  | refused _ ↦ err auth_denied
  | minted (access, exp) ↦ ok (record {
    access_token = access;
    access_expires = exp;
    refresh_token = [];
    refresh_expires = 0;
    rotated = false;
  })
]

-- The end of the branch of a token with one.
unfoldable pub rotated_pair : Issuer → World → Payload → Text → Channel → Result RefreshResult
unfolding issue_rotated_pair
rotated_pair i w c channel ch = elim (issue_rotated_pair i w c.sub channel c.fid ch.ttl c.scopes) [
  | refused _ ↦ err auth_denied
  | minted pair ↦ ok (record {
    access_token = pair.access_token;
    access_expires = pair.access_expires;
    refresh_token = pair.refresh_token;
    refresh_expires = pair.refresh_expires;
    rotated = true;
  })
]

-- The steps on the refresh store: whether the token may be exchanged.
unfoldable pub redeem : ℕ → Payload → MemoryRefreshStore → MemoryRefreshStore × Bool
unfolding is_family_revoked mark_redeemed revoke_family expires_at
redeem now c s =
    let (s1, revoked) = is_family_revoked c.fid now s in
    let (s2, redemption) = mark_redeemed c.jti (expires_at c) now s1 in
    if revoked then (s1, false) else elim redemption [
      | err_refresh_reused ↦ (revoke_family c.fid (expires_at c) now s2, false)
      | redeemed_now ↦ (s2, true)
    ]

-- The end of `RefreshAccessCtx`, with the claims of the token. There may be no refresh store.
unfoldable pub exchange :
    Issuer
    → World
    → Payload
    → Text
    → Channel
    → Option MemoryRefreshStore
    → Option MemoryRefreshStore × Result RefreshResult
unfolding legacy_access rotated_pair redeem
exchange i w c channel ch none =
    (none, if text_eq c.jti [] then legacy_access i w c channel else rotated_pair i w c channel ch)
exchange i w c channel ch (some s) =
    let (s', fresh) = redeem w.now c s in
    if text_eq c.jti []
    then (some s, legacy_access i w c channel)
    else (some s', if fresh then rotated_pair i w c channel ch else err auth_denied)

-- `RefreshAccessCtx`
unfoldable pub refresh_access :
    {S P : Type 0}
    → Verifier S P
    → KeyRing S P
    → MemoryStore
    → Issuer
    → World
    → Text
    → Option MemoryRefreshStore
    → Option MemoryRefreshStore × Result RefreshResult
unfolding exchangeable exchange
refresh_access v ring channels i w token store = elim (exchangeable v ring channels w.now token) [
  | err e ↦ (store, err e)
  | ok (c, channel, ch) ↦ exchange i w c channel ch store
]
