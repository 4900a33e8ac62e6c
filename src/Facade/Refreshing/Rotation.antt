-- ===== src/Facade/Refreshing/Rotation.antt =====
-- A refresh token is exchanged once.
use parsec.Auth.Issuer.{Issuer, World, Minted, IssueError, issue_access, minted, refused}
use parsec.Auth.KeyRing.{KeyRing}
use parsec.Auth.Refresh.Reuse.{Call, run, IsValid}
use parsec.Auth.Refresh.{MemoryRefreshStore}
use parsec.Auth.Signer.{Payload}
use parsec.Auth.Verifier.Checks.{Verified-cases, verify_same}
use parsec.Auth.Verifier.{Verifier, verified, verify}
use parsec.Channels.Store.{Channel, MemoryStore}
use parsec.Common.{
  ℕ, ◌<◌, true, false, List, [], ◌≡◌, ◌≢◌, ◌⊎◌, inl, inr, refl, sym, ap, ◌∙◌, some, All, Text,
  codes, text_eq, text_eq_of_ne, ne_of_text_eq, Bool-cases,
}
use parsec.Errors.{ok, Result-cases, chain_ok}
use parsec.Facade.Refreshing.Redeeming.{redeem_of_reused, reused_later}
use parsec.Facade.Refreshing.{
  RefreshResult, expires_at, one_channel, open_channel, exchangeable, legacy_access, rotated_pair,
  redeem, exchange, refresh_access,
}

pub Minted-cases :
    {A : Type 0} (m : Minted A) → ((a : A) × (m ≡ minted a)) ⊎ ((e : IssueError) × (m ≡ refused e))
Minted-cases (minted a) = inl (a, refl)
Minted-cases (refused e) = inr (e, refl)

pub ok_inj : {A : Type 0} (a b : A) → ok a ≡ ok b → a ≡ b
ok_inj a b h = cc h

some_inj : (a b : MemoryRefreshStore) → some a ≡ some b → a ≡ b
some_inj a b h = cc h

legacy_rotated :
    (i : Issuer) (w : World) (c : Payload) (channel : Text) (r : RefreshResult)
    → legacy_access i w c channel ≡ ok r
    → r.rotated ≡ false
unfolding legacy_access
legacy_rotated i w c channel r h =
    elim (Minted-cases (issue_access i w c.sub channel (expires_at c) c.scopes)) [
      | inl (a, e) ↦
          let same = ok_inj _ r (rw (legacy_access, e) at h) in
          sym (ap (λ (x : RefreshResult). x.rotated) same)
      | inr (x, e) ↦ absurd (cc (rw (legacy_access, e) at h))
    ]

module _ {S P : Type 0} where
  -- What a call that returned a rotated pair went through.
  pub record IsRotation (v : Verifier S P) (ring : KeyRing S P) (channels : MemoryStore)
      (i : Issuer) (w : World) (token : Text) (s s' : MemoryRefreshStore) (r : RefreshResult)
      : Type 0 where
    pub claims : Payload
    pub channel : Text
    pub ch : Channel
    pub exchanged : exchangeable v ring channels w.now token ≡ ok (claims, channel, ch)
    pub jti : claims.jti ≢ []
    pub fresh : (redeem w.now claims s).1 ≡ true
    pub store : s' ≡ (redeem w.now claims s).0
    pub pair : rotated_pair i w claims channel ch ≡ ok r

  exchange-IsRotation :
      (v : Verifier S P) (ring : KeyRing S P) (channels : MemoryStore) (i : Issuer) (w : World)
      (token : Text) (s s' : MemoryRefreshStore) (r : RefreshResult) (c : Payload) (channel : Text)
      (ch : Channel)
      → exchangeable v ring channels w.now token ≡ ok (c, channel, ch)
      → exchange i w c channel ch (some s) ≡ (some s', ok r)
      → r.rotated ≡ true
      → IsRotation v ring channels i w token s s' r
  unfolding exchange
  exchange-IsRotation v ring channels i w token s s' r c channel ch found h rot =
      elim (Bool-cases (text_eq c.jti [])) [
        | inl e ↦
            let legacy : (some s, legacy_access i w c channel) ≡ (some s', ok r) =
              rw (exchange, e) at h in
            let lost : r.rotated ≡ false = legacy_rotated i w c channel r (ap (λ x. x.1) legacy) in
            absurd (cc (rot, lost))
        | inr e ↦ elim (Bool-cases (redeem w.now c s).1) [
          | inr f ↦ absurd (cc (ap (λ x. x.1) (rw (exchange, e, f) at h)))
          | inl f ↦
              let rest : (some (redeem w.now c s).0, rotated_pair i w c channel ch)
                  ≡ (some s', ok r) =
                rw (exchange, e, f) at h in
              record {
                claims = c;
                channel = channel;
                ch = ch;
                exchanged = found;
                jti = ne_of_text_eq c.jti [] e;
                fresh = f;
                store = sym (some_inj _ _ (ap (λ x. x.0) rest));
                pair = ap (λ x. x.1) rest;
              }
        ]
      ]

  pub refresh_access-IsRotation :
      (v : Verifier S P) (ring : KeyRing S P) (channels : MemoryStore) (i : Issuer) (w : World)
      (token : Text) (s s' : MemoryRefreshStore) (r : RefreshResult)
      → refresh_access v ring channels i w token (some s) ≡ (some s', ok r)
      → r.rotated ≡ true
      → IsRotation v ring channels i w token s s' r
  unfolding refresh_access
  refresh_access-IsRotation v ring channels i w token s s' r h rot =
      elim (Result-cases (exchangeable v ring channels w.now token)) [
        | inr (x, e) ↦ absurd (cc (ap (λ x. x.1) (rw (refresh_access, e) at h)))
        | inl ((c, channel, ch), e) ↦
            exchange-IsRotation v ring channels i w token s s' r c channel ch e
              (rw (refresh_access, e) at h) rot
      ]

  pub exchangeable-verify :
      (v : Verifier S P) (ring : KeyRing S P) (channels : MemoryStore) (now : ℕ) (token : Text)
      (c : Payload) (channel : Text) (ch : Channel)
      → exchangeable v ring channels now token ≡ ok (c, channel, ch)
      → (verify v ring now token (codes "refresh") ≡ verified c)
        × (one_channel c.chs ≡ ok channel)
        × (open_channel channels channel ≡ ok ch)
  unfolding exchangeable
  exchangeable-verify v ring channels now token c channel ch h =
      elim (Verified-cases (verify v ring now token (codes "refresh"))) [
        | inr (x, e) ↦ absurd (cc (rw (exchangeable, e) at h))
        | inl (c', e) ↦
            let (channel', one, h1) =
              chain_ok _ (one_channel c'.chs) _ (rw (exchangeable, e) at h) in
            let (ch', there, h2) = chain_ok _ (open_channel channels channel') _ h1 in
            let same : (c', channel', ch') ≡ (c, channel, ch) = ok_inj _ _ h2 in
            let same_c : c' ≡ c = ap (λ x. x.0) same in
            let same_channel : channel' ≡ channel = ap (λ x. x.1) same in
            let same_ch : ch' ≡ ch = ap (λ x. x.2) same in
            (
              e ∙ ap (λ x. verified x) same_c,
              sym (ap (λ (x : Payload). one_channel x.chs) same_c)
                  ∙ one
                  ∙ ap (λ x. ok x) same_channel,
              sym (ap (open_channel channels) same_channel) ∙ there ∙ ap (λ x. ok x) same_ch,
            )
      ]

  -- An attempt that the refresh store does not let through returns no tokens.
  pub denied :
      (v : Verifier S P) (ring : KeyRing S P) (channels : MemoryStore) (i : Issuer) (w : World)
      (token : Text) (s : MemoryRefreshStore) (c : Payload) (r : RefreshResult)
      → c.jti ≢ []
      → (redeem w.now c s).1 ≡ false
      → ((c' : Payload) → verify v ring w.now token (codes "refresh") ≡ verified c' → c' ≡ c)
      → (refresh_access v ring channels i w token (some s)).1 ≢ ok r
  unfolding refresh_access exchange
  denied v ring channels i w token s c r full barred same h =
      elim (Result-cases (exchangeable v ring channels w.now token)) [
        | inr (x, e) ↦ absurd (cc (rw (refresh_access, e) at h))
        | inl ((c', channel, ch), e) ↦
            let (verifies, _, _) =
              exchangeable-verify v ring channels w.now token c' channel ch e in
            let q : c' ≡ c = same c' verifies in
            let full' : text_eq c'.jti [] ≡ false = text_eq_of_ne c'.jti [] (rw q full) in
            let barred' : (redeem w.now c' s).1 ≡ false =
              ap (λ x. (redeem w.now x s).1) q ∙ barred in
            absurd (cc (rw (refresh_access, e, exchange, full', barred') at h))
      ]

  -- Once a refresh token with a JTI has been exchanged for a pair, before it expired, it is exchanged no
  -- more before its expiry, whatever rings, channels and issuers the later attempt meets and
  -- whatever calls of the refresh store come between.
  pub refresh_once :
      (v : Verifier S P) (ring ring' : KeyRing S P) (channels channels' : MemoryStore)
      (i i' : Issuer) (w w' : World) (token : Text) (s s' : MemoryRefreshStore)
      (r r' : RefreshResult) (c : Payload) (calls : List (ℕ × Call))
      → IsValid s
      → verify v ring w.now token (codes "refresh") ≡ verified c
      → w.now < expires_at c
      → refresh_access v ring channels i w token (some s) ≡ (some s', ok r)
      → r.rotated ≡ true
      → All (λ x. x.0 < expires_at c) calls
      → w'.now < expires_at c
      → (refresh_access v ring' channels' i' w' token (some (run calls s'))).1 ≢ ok r'
  refresh_once v ring ring' channels channels' i i' w w' token s s' r r' c calls valid good ahead h
        rot before later =
      let x = refresh_access-IsRotation v ring channels i w token s s' r h rot in
      let (good', _, _) =
        exchangeable-verify v ring channels w.now token x.claims x.channel x.ch x.exchanged in
      let q : x.claims ≡ c =
        verify_same v ring ring w.now w.now token (codes "refresh") x.claims c good' good in
      let fresh : (redeem w.now c s).1 ≡ true = rw (← q) x.fresh in
      let store : s' ≡ (redeem w.now c s).0 = rw (← q) x.store in
      let reused = reused_later w.now w'.now c calls s valid ahead fresh before later in
      let barred : (redeem w'.now c (run calls s')).1 ≡ false =
        rw store (redeem_of_reused w'.now c (run calls (redeem w.now c s).0) reused) in
      denied v ring' channels' i' w' token (run calls s') c r' (rw (← q) x.jti) barred
        (λ c' e. verify_same v ring' ring w'.now w.now token (codes "refresh") c' c e good)
