-- ===== src/Tests/Refreshing.antt =====
-- The theorems on the refresh of tokens: a token is exchanged, presented again, and its sibling follows.
use parsec.Auth.Issuer.Lifetimes.{IsSigned}
use parsec.Auth.Issuer.{
  Issuer, World, minted, TokenClaims, minute, grant, issue_rotated_pair, sign_pair, validate_scopes,
  refresh_ttl_of, access_ttl_of,
}
use parsec.Auth.KeyRing.{get, is_valid_alg}
use parsec.Auth.Refresh.Exactly.{Revokes, revoked_iff}
use parsec.Auth.Refresh.Reuse
use parsec.Auth.Refresh.Reuse.{Call, call_mark, call_revoke}
use parsec.Auth.Refresh.{
  MemoryRefreshStore, mark_redeemed, is_family_revoked, revoke_family, prune_locked, unexpired,
  still_redeemed, extends,
}
use parsec.Auth.Signer.{Payload, split_token, three_parts, alg_or_default, is_valid_type}
use parsec.Auth.Verifier.{
  verified, verify, key_of, signed_claims, check_times, verify_with, since, until,
}
use parsec.Channels.Name.Parsing.{named}
use parsec.Channels.Name.{Name, parse_name, visibility_private, to_string, parts_of}
use parsec.Channels.Store
use parsec.Channels.Store.{Channel, MemoryStore, fresh_channel}
use parsec.Common.{
  ℕ, ◌*◌, ◌<◌, false, true, List, [], ◌∷◌, ◌++◌, ◌≡◌, ◌≢◌, ◌↔◌, refl, arith, some, All, Any, Text,
  codes, split, join, pos, lookup, insert, update_all, Text-discrete, Bool-cases,
}
use parsec.Errors.{ok, err, auth_denied}
use parsec.Facade.Refreshing.Families.{reuse_closes_family, rotation_keeps_family, pair_of}
use parsec.Facade.Refreshing.Rotation.{refresh_once}
use parsec.Facade.Refreshing.{
  RefreshResult, expires_at, one_channel, open_channel, exchangeable, redeem, exchange,
  rotated_pair, refresh_access,
}
use parsec.Tests.Tokens.{claims, verifier, ring, token, at_second}

abbrev issuer : Issuer
issuer = record { access_ttl = pos (5 * minute); max_refresh_ttl = pos (60 * minute) }

abbrev world : ℕ → World
world n = record {
  now = at_second n;
  new_jti = minted (codes "n");
  new_fid = minted (codes "f");
  new_access_jti = minted (codes "a");
  sign = λ (c : TokenClaims). minted (c.sub ++ c.jti);
}

abbrev room : Name
room = named visibility_private (codes "chat") (codes "room") (codes "r1") []

abbrev channel : Channel
channel = fresh_channel room (pos (2 * minute)) 0

abbrev channels : MemoryStore
channels = (codes "private:chat.room.r1", channel) ∷ []

abbrev fresh : MemoryRefreshStore
fresh = record { redeemed = []; revoked = [] }

abbrev marked : MemoryRefreshStore
marked = record { redeemed = (codes "j", at_second 100) ∷ []; revoked = [] }

abbrev closed : MemoryRefreshStore
closed = record {
  redeemed = (codes "j", at_second 100) ∷ [];
  revoked = (codes "f", at_second 100) ∷ [];
}

abbrev rotated : RefreshResult
rotated = record {
  access_token = codes "anna";
  access_expires = at_second 140;
  refresh_token = codes "annn";
  refresh_expires = at_second 140;
  rotated = true;
}

abbrev first_claims : Payload
first_claims = claims (codes "refresh") (codes "j") (codes "f")

abbrev sibling_claims : Payload
sibling_claims = claims (codes "refresh") (codes "n") (codes "f")

first_verifies :
    verify verifier ring (at_second 20) (token (codes "j")) (codes "refresh")
    ≡ verified first_claims
unfolding verify key_of signed_claims check_times verify_with since until split_token three_parts
    split get is_valid_alg alg_or_default is_valid_type lookup Text-discrete Bool-cases
first_verifies = refl

sibling_verifies :
    verify verifier ring (at_second 60) (token (codes "n")) (codes "refresh")
    ≡ verified sibling_claims
unfolding verify key_of signed_claims check_times verify_with since until split_token three_parts
    split get is_valid_alg alg_or_default is_valid_type lookup Text-discrete Bool-cases
sibling_verifies = refl

may_be_exchanged :
    (n : ℕ)
    → verify verifier ring (at_second n) (token (codes "j")) (codes "refresh")
      ≡ verified first_claims
    → exchangeable verifier ring channels (at_second n) (token (codes "j"))
      ≡ ok (first_claims, codes "private:chat.room.r1", channel)
unfolding exchangeable one_channel open_channel parse_name Store.get to_string parts_of join lookup
    Text-discrete Bool-cases
may_be_exchanged n h = rw (h, exchangeable) refl

again_verifies :
    verify verifier ring (at_second 40) (token (codes "j")) (codes "refresh")
    ≡ verified first_claims
unfolding verify key_of signed_claims check_times verify_with since until split_token three_parts
    split get is_valid_alg alg_or_default is_valid_type lookup Text-discrete Bool-cases
again_verifies = refl

exchanged :
    exchange issuer (world 20) first_claims (codes "private:chat.room.r1") channel (some fresh)
    ≡ (some marked, ok rotated)
unfolding exchange redeem rotated_pair issue_rotated_pair sign_pair validate_scopes refresh_ttl_of
    access_ttl_of expires_at is_family_revoked mark_redeemed prune_locked unexpired still_redeemed
    lookup insert update_all Text-discrete Bool-cases
exchanged = refl

exchanged_again :
    exchange issuer (world 40) first_claims (codes "private:chat.room.r1") channel (some marked)
    ≡ (some closed, err auth_denied)
unfolding exchange redeem rotated_pair expires_at is_family_revoked mark_redeemed revoke_family
    prune_locked unexpired still_redeemed extends lookup insert update_all Text-discrete Bool-cases
exchanged_again = refl

refreshed :
    refresh_access verifier ring channels issuer (world 20) (token (codes "j")) (some fresh)
    ≡ (some marked, ok rotated)
unfolding refresh_access
refreshed = rw (may_be_exchanged 20 first_verifies, refresh_access) exchanged

refused_again :
    refresh_access verifier ring channels issuer
      (world 40)
      (token (codes "j"))
      (some (Reuse.run [] marked))
    ≡ (some closed, err auth_denied)
unfolding refresh_access Reuse.run
refused_again = rw (may_be_exchanged 40 again_verifies, refresh_access) exchanged_again

-- A redemption by another token's holder.
abbrev between : List (ℕ × Call)
between = (at_second 30, call_mark (codes "q") (at_second 50)) ∷ []

expires_later : at_second 20 < expires_at first_claims
unfolding expires_at
expires_later = omega arith

expires_later' : at_second 40 < expires_at first_claims
unfolding expires_at
expires_later' = omega arith

expires_last : at_second 60 < expires_at first_claims
unfolding expires_at
expires_last = omega arith

between_before : All (λ c. c.0 < expires_at first_claims) between
unfolding expires_at
between_before = (omega arith, tt)

refresh_once_example :
    (refresh_access verifier ring channels issuer
      (world 40)
      (token (codes "j"))
      (some (Reuse.run between marked))).1
    ≢ ok rotated
refresh_once_example =
    refresh_once verifier ring ring channels channels issuer issuer (world 20) (world 40)
      (token (codes "j")) fresh marked rotated rotated first_claims between (tt, tt) first_verifies
      expires_later refreshed refl between_before expires_later'

family_open : (is_family_revoked (codes "f") (at_second 40) (Reuse.run [] marked)).1 ≡ false
unfolding is_family_revoked prune_locked unexpired lookup update_all Reuse.run
family_open = refl

reuse_closes_family_example :
    (refresh_access verifier ring channels issuer
      (world 60)
      (token (codes "n"))
      (some (Reuse.run [] closed))).1
    ≢ ok rotated
reuse_closes_family_example =
    reuse_closes_family verifier ring ring ring channels channels channels issuer issuer issuer
      (world 20) (world 40) (world 60) (token (codes "j")) (token (codes "n")) fresh marked closed
      rotated rotated (err auth_denied) first_claims sibling_claims (codes "private:chat.room.r1")
      channel [] [] (tt, tt) first_verifies expires_later refreshed refl tt expires_later'
      (may_be_exchanged 40 again_verifies) family_open refused_again tt expires_last
      sibling_verifies refl (λ e. cc e)

rotation_keeps_family_example :
    (c : Payload) × (ch_name : Text) × (ch : Channel) × (verify verifier ring
        (at_second 20)
        (token (codes "j"))
        (codes "refresh")
      ≡ verified c)
    × (c.chs ≡ ch_name ∷ [])
    × (open_channel channels ch_name ≡ ok ch)
    × IsSigned issuer
        (world 20)
        ch.ttl
        (grant c.sub (ch_name ∷ []) c.scopes)
        c.fid
        (pair_of rotated)
rotation_keeps_family_example =
    rotation_keeps_family verifier ring channels issuer (world 20) (token (codes "j")) fresh marked
      rotated refreshed refl

abbrev closings : List (ℕ × Call)
closings =
    (10, call_mark (codes "j") 90)
    ∷ (20, call_revoke (codes "f") 90)
    ∷ (30, call_revoke (codes "g") 200)
    ∷ []

never_revoked : (is_family_revoked (codes "f") 95 fresh).1 ≡ false
unfolding is_family_revoked prune_locked update_all lookup
never_revoked = refl

revoked_iff_example :
    ((is_family_revoked (codes "f") 95 (Reuse.run closings fresh)).1 ≡ true)
    ↔ Any (Revokes (codes "f") 95) closings
revoked_iff_example =
    revoked_iff (codes "f") 95 closings fresh (tt, tt) never_revoked
      (omega arith, (omega arith, (omega arith, tt)))
