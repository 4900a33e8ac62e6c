-- ===== src/Tests/Broker.antt =====
-- The theorems on the token broker.
use parsec.Auth.Issuer.{
  World, minted, refused, no_entropy, TokenClaims, minute, second, issue_pair, sign_pair,
  validate_scopes, new_refresh_ids, refresh_ttl_of, access_ttl_of, issue_access_for_channels,
  sign_access, access_exp_of,
}
use mathlib.Core.List.{cons-ne-nil}
use parsec.Common.{
  ℕ, ◌+◌, ◌*◌, true, false, List, [], ◌∷◌, ◌++◌, none, some, ◌≡◌, ◌↔◌, refl, arith, length, Any,
  Text, codes, pos, Map,
}
use parsec.TokenBroker.Fitting.{May, authorize_iff}
use parsec.TokenBroker.Granting.{IsFaithful, issue_for-IsFaithful}
use parsec.TokenBroker.Revoking
use parsec.TokenBroker.Revoking.{
  Call, call_revoke, call_revoke_all, call_prune, revoked_token_is_reported,
}
use parsec.TokenBroker.Roles.{authorize, match_simple, match_segs, split_channel_segs}
use parsec.TokenBroker.{
  Options, Surroundings, IssueRequest, IssueResponse, answered, issue_for, issue_granted, respond,
  reissued, ttl_of, new_memory_revocations, revoke, is_revoked,
}

abbrev between : List (ℕ × Call)
between =
    (6, call_revoke (codes "t2") (codes "bob") [])
    ∷ (8, call_revoke_all (codes "bob"))
    ∷ (9, call_prune)
    ∷ []

revoked_token_is_reported_example :
    is_revoked
      (codes "t1")
      50
      (Revoking.run between (revoke (codes "t1") (codes "ann") [] 5 new_memory_revocations).0)
    ≡ true
revoked_token_is_reported_example =
    revoked_token_is_reported (codes "t1") (codes "ann") [] 5 new_memory_revocations between 50
      (cons-ne-nil _ _) (tt, tt)
      ((omega arith, omega arith), ((omega arith, omega arith), ((omega arith, omega arith), tt)))
      (omega arith, omega arith)

abbrev roles_of : Text → List Text
roles_of user = codes "reader" ∷ []

abbrev role_patterns : Map (List Text)
role_patterns = (codes "reader", codes "public:news.*" ∷ codes "public:chat.**" ∷ []) ∷ []

abbrev requested : List Text
requested = codes "public:news.a" ∷ codes "private:x" ∷ []

authorize_iff_example :
    let decision = authorize roles_of role_patterns (codes "ann") requested in
    ((ch : Text)
      → (Any (λ c. c ≡ ch) decision.granted
          ↔ (Any (λ c. c ≡ ch) requested × May role_patterns (roles_of (codes "ann")) ch))
        × (Any (λ c. c.0 ≡ ch) decision.denied
            ↔ (Any (λ c. c ≡ ch) requested × ¬ May role_patterns (roles_of (codes "ann")) ch)))
    × (length decision.granted + length decision.denied ≡ length requested)
authorize_iff_example = authorize_iff roles_of role_patterns (codes "ann") requested

-- A segment `**` also takes no segment at all, and hides what stands behind it.
matches_nothing_more : match_simple (codes "public:**.secret") (codes "public") ≡ true
unfolding match_simple match_segs split_channel_segs
matches_nothing_more = refl

abbrev world : World
world = record {
  now = 1000 * second;
  new_jti = minted (codes "j");
  new_fid = minted (codes "f");
  new_access_jti = minted (codes "a");
  sign = λ (c : TokenClaims). minted (c.sub ++ c.jti);
}

-- The second draw of an identifier fails.
abbrev failing : World
failing = record world { new_access_jti = refused no_entropy }

abbrev options : Options
options = record {
  issuer = record { access_ttl = pos (5 * minute); max_refresh_ttl = pos (60 * minute) };
  authorize = λ _. λ channels. record { granted = channels; denied = [] };
  authenticate = λ bearer. some bearer;
  default_ttl = pos 0;
  has_audit_log = false;
  delegate_authorizer = none;
}

abbrev surroundings : Surroundings
surroundings = record {
  first = world;
  second = failing;
  new_token_id = codes "id";
  now = 1000 * second;
}

abbrev request : IssueRequest
request = record { channels = requested; ttl = pos 0 }

abbrev response : IssueResponse
response = record {
  token = codes "anna";
  token_id = codes "id";
  expires_at = 1300 * second;
  channels_granted = requested;
  channels_denied = [];
}

-- The response lists two channels, and the token is signed for the first one only.
issued : issue_for options surroundings (codes "ann") [] request ≡ (answered response, [])
unfolding issue_for issue_granted respond reissued ttl_of issue_pair sign_pair validate_scopes
    new_refresh_ids refresh_ttl_of access_ttl_of issue_access_for_channels sign_access access_exp_of
issued = refl

issue_for-IsFaithful_example :
    IsFaithful surroundings (codes "ann") (options.authorize (codes "ann") requested) response []
issue_for-IsFaithful_example =
    issue_for-IsFaithful options surroundings (codes "ann") [] request response [] issued
