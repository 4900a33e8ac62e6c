-- ===== src/Facade/Refreshing/Families.antt =====
-- The family of a refresh token: a rotation goes on with it, and a second use of a token closes it.
use parsec.Auth.Issuer.{
  Issuer, World, minted, PairResult, issue_rotated_pair, grant, channel_required, family_required,
  ttl_not_positive, is_positive, validate_scopes, ◌>>=◌,
}
use parsec.Auth.Issuer.Lifetimes.{
  IsSigned, sign_pair-IsSigned, minted_bind, not_refused, minted_then,
}
use parsec.Auth.KeyRing.{KeyRing}
use parsec.Auth.Refresh.Reuse.{Call, run, IsValid, mark-IsValid, revoke-IsValid, run-IsValid}
use parsec.Auth.Refresh.Revocation.{revocation_lasts}
use parsec.Auth.Refresh.{MemoryRefreshStore, mark_redeemed, revoke_family, is_family_revoked}
use parsec.Auth.Scope.{Scope}
use parsec.Auth.Signer.{Payload}
use parsec.Auth.Verifier.Checks.{verify_same}
use parsec.Auth.Verifier.{Verifier, verified, verify}
use parsec.Channels.Store.{Channel, MemoryStore}
use parsec.Common.{
  ℕ, ◌<◌, true, false, not, ℤ, List, [], ◌∷◌, ◌≡◌, ◌≢◌, inl, inr, sym, ap, ◌∙◌, some, All, Text,
  codes, text_eq, text_eq_of_ne, Bool-cases,
}
use parsec.Errors.{Result, ok}
use parsec.Facade.Refreshing.Redeeming.{
  Redemption-cases, checked, redeem_of_revoked, redeem_closes, checked-IsValid, reused_later,
}
use parsec.Facade.Refreshing.Rotation.{
  refresh_access-IsRotation, exchangeable-verify, denied, ok_inj, Minted-cases,
}
use parsec.Facade.Refreshing.{
  RefreshResult, expires_at, one_channel, open_channel, exchangeable, redeem, exchange,
  rotated_pair, refresh_access,
}

some_inj : (a b : MemoryRefreshStore) → some a ≡ some b → a ≡ b
some_inj a b h = cc h

redeem-IsValid :
    (now : ℕ) (c : Payload) (s : MemoryRefreshStore) → IsValid s → IsValid (redeem now c s).0
unfolding redeem
redeem-IsValid now c s v =
    let s1 = checked now c s in
    let v1 = checked-IsValid now c s v in
    let s2 = (mark_redeemed c.jti (expires_at c) now s1).0 in
    let v2 = mark-IsValid c.jti (expires_at c) now s1 v1 in
    elim (Bool-cases (is_family_revoked c.fid now s).1) [
      | inl e ↦ rw (e, redeem) v1
      | inr e ↦ elim (Redemption-cases (mark_redeemed c.jti (expires_at c) now s1).1) [
        | inl f ↦ rw (e, redeem, f) v2
        | inr f ↦ rw (e, redeem, f) (revoke-IsValid c.fid (expires_at c) now s2 v2)
      ]
    ]

one_channel_inv :
    (chs : List Text) (channel : Text) → one_channel chs ≡ ok channel → chs ≡ channel ∷ []
unfolding one_channel
one_channel_inv [] channel h = cc h
one_channel_inv (ch ∷ []) channel h = ap (λ (x : Text). x ∷ []) (ok_inj ch channel h)
one_channel_inv (ch ∷ ch' ∷ chs) channel h = cc h

minted_second : (a b : Text × Text) → minted a ≡ minted b → a.1 ≡ b.1
minted_second a b h = let same : a ≡ b = cc h in ap (λ (x : Text × Text). x.1) same

rotated-IsSigned :
    (i : Issuer) (w : World) (sub channel fid : Text) (ttl : ℤ) (scopes : List Scope)
    (pair : PairResult)
    → issue_rotated_pair i w sub channel fid ttl scopes ≡ minted pair
    → IsSigned i w ttl (grant sub (channel ∷ []) scopes) fid pair
unfolding issue_rotated_pair
rotated-IsSigned i w sub channel fid ttl scopes pair h =
    let (_, h1) = not_refused (text_eq channel []) channel_required _ pair h in
    let (_, h2) = not_refused (text_eq fid []) family_required _ pair h1 in
    let (_, h3) = not_refused (not (is_positive ttl)) ttl_not_positive _ pair h2 in
    let h4 = minted_then (validate_scopes scopes) _ pair h3 in
    let (jti, fid', drawn, signed) =
      sign_pair-IsSigned i w ttl (w.new_jti >>= λ jti. minted (jti, fid))
        (grant sub (channel ∷ []) scopes) pair h4 in
    let (jti', _, same) = minted_bind w.new_jti _ (jti, fid') drawn in
    let fam : fid ≡ fid' = minted_second (jti', fid) (jti, fid') same in rw fam signed

-- The tokens of a pair that was returned.
abbrev pub pair_of : RefreshResult → PairResult
pair_of r = record {
  access_token = r.access_token;
  refresh_token = r.refresh_token;
  access_expires = r.access_expires;
  refresh_expires = r.refresh_expires;
}

rotated_pair-IsSigned :
    (i : Issuer) (w : World) (c : Payload) (channel : Text) (ch : Channel) (r : RefreshResult)
    → rotated_pair i w c channel ch ≡ ok r
    → IsSigned i w ch.ttl (grant c.sub (channel ∷ []) c.scopes) c.fid (pair_of r)
unfolding rotated_pair issue_rotated_pair
rotated_pair-IsSigned i w c channel ch r h =
    elim (Minted-cases (issue_rotated_pair i w c.sub channel c.fid ch.ttl c.scopes)) [
      | inr (x, e) ↦ absurd (cc (rw (rotated_pair, e) at h))
      | inl (pair, e) ↦
          let same = ok_inj _ r (rw (rotated_pair, e) at h) in
          rw (← same) (rotated-IsSigned i w c.sub channel c.fid ch.ttl c.scopes pair e)
    ]

module _ {S P : Type 0} where
  -- The store that an attempt leaves whose claims may be exchanged.
  exchange_store :
      (v : Verifier S P) (ring : KeyRing S P) (channels : MemoryStore) (i : Issuer) (w : World)
      (token : Text) (s s' : MemoryRefreshStore) (c : Payload) (channel : Text) (ch : Channel)
      (answer : Result RefreshResult)
      → exchangeable v ring channels w.now token ≡ ok (c, channel, ch)
      → c.jti ≢ []
      → refresh_access v ring channels i w token (some s) ≡ (some s', answer)
      → s' ≡ (redeem w.now c s).0
  unfolding refresh_access exchange
  exchange_store v ring channels i w token s s' c channel ch answer found full h =
      let e : text_eq c.jti [] ≡ false = text_eq_of_ne c.jti [] full in
      sym (some_inj _ _ (ap (λ x. x.0) (rw (refresh_access, found, exchange, e) at h)))

  -- After a refresh token was exchanged for a pair, a second attempt with it that passes the checks of
  -- the token and of the channel, while its family is not revoked, closes the family: no token with a
  -- JTI and of that family is exchanged any more before the expiry of the token that was used twice,
  -- whatever calls of the refresh store come between.
  pub reuse_closes_family :
      (v : Verifier S P) (ring ring' ring'' : KeyRing S P)
      (channels channels' channels'' : MemoryStore) (i i' i'' : Issuer) (w w' w'' : World)
      (token sibling : Text) (s s' s'' : MemoryRefreshStore) (r r'' : RefreshResult)
      (answer : Result RefreshResult) (c c'' : Payload) (channel : Text) (ch : Channel)
      (calls calls' : List (ℕ × Call))
      → IsValid s
      → verify v ring w.now token (codes "refresh") ≡ verified c
      → w.now < expires_at c
      → refresh_access v ring channels i w token (some s) ≡ (some s', ok r)
      → r.rotated ≡ true
      → All (λ x. x.0 < expires_at c) calls
      → w'.now < expires_at c
      → exchangeable v ring' channels' w'.now token ≡ ok (c, channel, ch)
      → (is_family_revoked c.fid w'.now (run calls s')).1 ≡ false
      → refresh_access v ring' channels' i' w' token (some (run calls s')) ≡ (some s'', answer)
      → All (λ x. x.0 < expires_at c) calls'
      → w''.now < expires_at c
      → verify v ring'' w''.now sibling (codes "refresh") ≡ verified c''
      → c''.fid ≡ c.fid
      → c''.jti ≢ []
      → (refresh_access v ring'' channels'' i'' w'' sibling (some (run calls' s''))).1 ≢ ok r''
  reuse_closes_family v ring ring' ring'' channels channels' channels'' i i' i'' w w' w'' token
        sibling s s' s'' r r'' answer c c'' channel ch calls calls' valid good ahead h rot before
        later found unrevoked h' before' last good'' fam full =
      let x = refresh_access-IsRotation v ring channels i w token s s' r h rot in
      let (good', _, _) =
        exchangeable-verify v ring channels w.now token x.claims x.channel x.ch x.exchanged in
      let q : x.claims ≡ c =
        verify_same v ring ring w.now w.now token (codes "refresh") x.claims c good' good in
      let jti : c.jti ≢ [] = rw (← q) x.jti in
      let fresh : (redeem w.now c s).1 ≡ true = rw (← q) x.fresh in
      let store : s' ≡ (redeem w.now c s).0 = rw (← q) x.store in
      let reused = reused_later w.now w'.now c calls s valid ahead fresh before later in
      let left : s'' ≡ (redeem w'.now c (run calls s')).0 =
        exchange_store v ring' channels' i' w' token (run calls s') s'' c channel ch answer found
          jti h' in
      let s1 = (redeem w.now c s).0 in
      let closed : (redeem w'.now c (run calls s1)).0
          ≡ revoke_family c.fid (expires_at c) w'.now
              (mark_redeemed c.jti (expires_at c) w'.now (checked w'.now c (run calls s1))).0 =
        redeem_closes w'.now c (run calls s1)
          (ap (λ x. (is_family_revoked c.fid w'.now (run calls x)).1) (sym store) ∙ unrevoked)
          reused in
      let base = (mark_redeemed c.jti (expires_at c) w'.now (checked w'.now c (run calls s1))).0 in
      let valid1 : IsValid (run calls s1) = run-IsValid calls s1 (redeem-IsValid w.now c s valid) in
      let valid2 : IsValid base =
        mark-IsValid c.jti (expires_at c) w'.now _
          (checked-IsValid w'.now c (run calls s1) valid1) in
      let revoked =
        revocation_lasts c.fid (expires_at c) w'.now base calls' w''.now valid2 later before'
          last in
      let at_end : s'' ≡ revoke_family c.fid (expires_at c) w'.now base =
        left ∙ ap (λ x. (redeem w'.now c (run calls x)).0) store ∙ closed in
      let barred : (redeem w''.now c'' (run calls' s'')).1 ≡ false =
        redeem_of_revoked w''.now c'' (run calls' s'') (
          ap (λ x. (is_family_revoked x w''.now (run calls' s'')).1) fam
          ∙ ap (λ x. (is_family_revoked c.fid w''.now (run calls' x)).1) at_end
          ∙ revoked) in
      denied v ring'' channels'' i'' w'' sibling (run calls' s'') c'' r'' full barred (λ d e.
        verify_same v ring'' ring'' w''.now w''.now sibling (codes "refresh") d c'' e good'')

  -- A rotated pair is signed for the subject and the scopes of the refresh token that it replaces and
  -- for that token's only channel, which is open; its refresh token has the same family, and the
  -- lifetimes are those of the channel's TTL.
  pub rotation_keeps_family :
      (v : Verifier S P) (ring : KeyRing S P) (channels : MemoryStore) (i : Issuer) (w : World)
      (token : Text) (s s' : MemoryRefreshStore) (r : RefreshResult)
      → refresh_access v ring channels i w token (some s) ≡ (some s', ok r)
      → r.rotated ≡ true
      → (c : Payload) × (channel : Text) × (ch : Channel) × (verify v ring w.now token
            (codes "refresh")
          ≡ verified c)
        × (c.chs ≡ channel ∷ [])
        × (open_channel channels channel ≡ ok ch)
        × IsSigned i w ch.ttl (grant c.sub (channel ∷ []) c.scopes) c.fid (pair_of r)
  rotation_keeps_family v ring channels i w token s s' r h rot =
      let x = refresh_access-IsRotation v ring channels i w token s s' r h rot in
      let (good, one, there) =
        exchangeable-verify v ring channels w.now token x.claims x.channel x.ch x.exchanged in
      (
        x.claims,
        x.channel,
        x.ch,
        good,
        one_channel_inv x.claims.chs x.channel one,
        there,
        rotated_pair-IsSigned i w x.claims x.channel x.ch r x.pair,
      )
