-- ===== src/Tests/Auth.antt =====
-- The theorems on scopes and on the rotation of refresh tokens.
use parsec.Auth.Refresh.Reuse
use parsec.Auth.Refresh.Reuse.{Call, call_mark, call_revoke, call_is_revoked, reuse_is_detected}
use parsec.Auth.Refresh.{MemoryRefreshStore, mark_redeemed, redeemed_now, err_refresh_reused}
use parsec.Auth.Scope.Grants.{Covers, IsCoherent, authorizes_iff, authorizes_malformed}
use parsec.Auth.Scope.{Scope, Claims, authorizes}
use parsec.Channels.Name.Parsing.{named}
use parsec.Channels.Name.{Name, parse_name, visibility_public}
use parsec.Common.{
  ℕ, true, false, List, [], ◌∷◌, ◌≡◌, ◌↔◌, ◌⊎◌, inl, refl, arith, none, All, Any, codes, lookup,
  update_all,
}
use parsec.Errors.{ok, err, channel_invalid}

abbrev hall : Name
hall = named visibility_public (codes "chat") (codes "hall") [] []

hall_parses : parse_name (codes "public:chat.hall") ≡ ok hall
unfolding parse_name
hall_parses = refl

abbrev reader : Claims
reader = record {
  chs = codes "public:chat.hall" ∷ codes "chat" ∷ [];
  scopes =
      record {
        pattern = codes "public:chat.*";
        verbs = codes "publish" ∷ [];
        deny = true;
        cached = none;
      }
      ∷ record {
        pattern = codes "public:**";
        verbs = codes "subscribe" ∷ [];
        deny = false;
        cached = none;
      }
      ∷ [];
}

reader-IsCoherent : All IsCoherent reader.scopes
reader-IsCoherent = (inl refl, (inl refl, tt))

authorizes_iff_example :
    ((authorizes (codes "public:chat.hall") (codes "subscribe") reader).1 ≡ true) ↔ (
      ¬ Any (λ (s : Scope). (s.deny ≡ true) × Covers hall (codes "subscribe") s) reader.scopes
      × (Any (λ ch. ch ≡ codes "public:chat.hall") reader.chs
          ⊎ Any
              (λ (s : Scope). (s.deny ≡ false) × Covers hall (codes "subscribe") s)
              reader.scopes))
authorizes_iff_example =
    authorizes_iff (codes "public:chat.hall") (codes "subscribe") reader hall reader-IsCoherent
      hall_parses

chat_does_not_parse : parse_name (codes "chat") ≡ err channel_invalid
unfolding parse_name
chat_does_not_parse = refl

authorizes_malformed_example :
    ((authorizes (codes "chat") (codes "publish") reader).0 ≡ reader)
    × (((authorizes (codes "chat") (codes "publish") reader).1 ≡ true)
        ↔ Any (λ ch. ch ≡ codes "chat") reader.chs)
authorizes_malformed_example =
    authorizes_malformed (codes "chat") (codes "publish") reader channel_invalid chat_does_not_parse

abbrev fresh : MemoryRefreshStore
fresh = record { redeemed = []; revoked = [] }

first_redemption : (mark_redeemed (codes "j1") 100 5 fresh).1 ≡ redeemed_now
unfolding mark_redeemed lookup update_all
first_redemption = refl

abbrev between : List (ℕ × Call)
between = (7, call_mark (codes "j2") 90) ∷ (9, call_revoke (codes "f") 20) ∷ []

reuse_is_detected_example :
    (mark_redeemed
      (codes "j1")
      120
      40
      (Reuse.run between (mark_redeemed (codes "j1") 100 5 fresh).0)).1
    ≡ err_refresh_reused
reuse_is_detected_example =
    reuse_is_detected (codes "j1") 100 5 fresh between 120 40 (tt, tt) (omega arith)
      first_redemption (omega arith, (omega arith, tt)) (omega arith) (omega arith)
