-- ===== src/TokenBroker.antt =====
-- tokenbroker/broker.go: the revocations that are kept in memory, and the broker, which authenticates a
-- caller, asks an authorizer for the channels, and has the issuer mint a token. The clock, random
-- identifiers, the authenticator and the authorizers are arguments.
pub mod Roles
pub mod Revoking
pub mod Granting
pub mod Requests
pub mod Fitting
use parsec.Auth.Issuer.{
  Issuer, World, Minted, minted, refused, IssueError, PairResult, issue_pair,
  issue_access_for_channels,
}
use parsec.Common.{
  ℕ, ◌+◌, ◌-◌, ◌*◌, ◌%◌, ◌^◌, Bool, true, false, not, List, [], ◌∷◌, ◌++◌, Option, none, some,
  if◌then◌else◌, ltb, length, Text, text_eq, Map, lookup, insert, update_all, ℤ, pos, negsuc,
  pos_part, neg_part, sub_ℕ, ltb_ℤ, is_zero, ◌==◌,
}

pub record Revocation : Type 0 where
  pub user_id : Text
  pub reason : Text
  pub at_time : ℕ

pub record MemoryRevocations : Type 0 where
  pub by_token : Map Revocation
  pub by_user_at : Map ℕ
  pub max_ttl : ℤ

pub data BrokerError : Type 0 where
  token_id_required user_id_required no_subject on_behalf_of_required no_channels : BrokerError
  unauthenticated delegation_refused : BrokerError
  not_issued : IssueError → BrokerError

pub data Answer {ℓ} (A : Type ℓ) : Type ℓ where
  answered : A → Answer A
  failed : BrokerError → Answer A

abbrev pub day : ℕ
day = 24 * 3600 * 1000000000

-- `NewMemoryRevocations`
abbrev pub new_memory_revocations : MemoryRevocations
new_memory_revocations = record { by_token = []; by_user_at = []; max_ttl = pos day }

-- `MemoryRevocations.WithMaxTTL`
unfoldable pub with_max_ttl : ℤ → MemoryRevocations → MemoryRevocations
with_max_ttl d m = record m { max_ttl = if not (ltb_ℤ (pos 0) d) then pos day else d }

-- `MemoryRevocations.Revoke`
unfoldable pub revoke :
    Text → Text → Text → ℕ → MemoryRevocations → MemoryRevocations × Option BrokerError
revoke token_id user_id reason now m =
    let r : Revocation = record { user_id = user_id; reason = reason; at_time = now } in
    if text_eq token_id []
    then (m, some token_id_required)
    else (record m { by_token = insert token_id r m.by_token }, none)

-- `now.Sub(at) > m.maxTTL`
abbrev pub is_aged : ℕ → ℤ → ℕ → Bool
is_aged now max_ttl at_time = ltb_ℤ max_ttl (sub_ℕ now at_time)

-- `MemoryRevocations.IsRevoked`
unfoldable pub is_revoked : Text → ℕ → MemoryRevocations → Bool
is_revoked token_id now m = elim (lookup token_id m.by_token) [
  | none ↦ false
  | some r ↦ if is_aged now m.max_ttl r.at_time then false else true
]

-- `MemoryRevocations.RevokeAllForUser`
unfoldable pub revoke_all_for_user :
    Text → ℕ → MemoryRevocations → MemoryRevocations × Option BrokerError
revoke_all_for_user user_id now m =
    if text_eq user_id []
    then (m, some user_id_required)
    else (record m { by_user_at = insert user_id now m.by_user_at }, none)

-- `MemoryRevocations.IsUserRevoked`
unfoldable pub is_user_revoked : Text → ℕ → ℕ → MemoryRevocations → Bool
is_user_revoked user_id issued_at now m = elim (lookup user_id m.by_user_at) [
  | none ↦ false
  | some cutoff ↦ if is_aged now m.max_ttl cutoff then false else not (ltb cutoff issued_at)
]

-- What one round of either loop of `Prune` leaves.
unfoldable pub young_revocation : ℕ → ℤ → Revocation → Option Revocation
young_revocation now max_ttl r = if is_aged now max_ttl r.at_time then none else some r

unfoldable pub young_cutoff : ℕ → ℤ → ℕ → Option ℕ
young_cutoff now max_ttl cutoff = if is_aged now max_ttl cutoff then none else some cutoff

-- `MemoryRevocations.Prune`
unfoldable pub prune : ℕ → MemoryRevocations → MemoryRevocations
prune now m = record m {
  by_token = update_all (young_revocation now m.max_ttl) m.by_token;
  by_user_at = update_all (young_cutoff now m.max_ttl) m.by_user_at;
}

pub record AuthDecision : Type 0 where
  pub granted : List Text
  -- each with its reason
  pub denied : List (Text × Text)

-- `Options`. A delegate authorizer that is there may refuse.
pub record Options : Type 0 where
  pub issuer : Issuer
  pub authorize : Text → List Text → AuthDecision
  pub authenticate : Text → Option Text
  pub default_ttl : ℤ
  pub has_audit_log : Bool
  pub delegate_authorizer : Option (Text → Text → Bool)

pub record IssueRequest : Type 0 where
  pub channels : List Text
  pub ttl : ℤ

pub record IssueResponse : Type 0 where
  pub token : Text
  pub token_id : Text
  pub expires_at : ℕ
  pub channels_granted : List Text
  pub channels_denied : List (Text × Text)

pub record AuditEntry : Type 0 where
  pub token_id : Text
  pub issued_to : Text
  pub delegator : Text
  pub channels : List Text
  pub expires_at : ℕ
  pub issued_at : ℕ

-- What one issuance finds around it: the issuer's world for each of its two calls, the fresh
-- identifier, and the clock.
pub record Surroundings : Type 0 where
  pub first : World
  pub second : World
  pub new_token_id : Text
  pub now : ℕ

abbrev pub hour : ℤ
hour = pos (3600 * 1000000000)

-- The lifetime that `issueFor` asks for.
unfoldable pub ttl_of : Options → IssueRequest → ℤ
ttl_of opts req =
    let ttl = if is_zero req.ttl then opts.default_ttl else req.ttl in
    if is_zero ttl then hour else ttl

-- The second call of the issuer, for more than one channel; its error leaves the pair as it is.
unfoldable pub reissued : Options → Surroundings → Text → List Text → PairResult → PairResult
reissued opts s uid granted pair =
    if ltb 1 (length granted)
    then elim (issue_access_for_channels opts.issuer s.second uid granted pair.refresh_expires) [
      | refused _ ↦ pair
      | minted (token, exp) ↦ record pair { access_token = token; access_expires = exp }
    ]
    else pair

-- The end of `issueFor`.
unfoldable pub respond :
    Options
    → Surroundings
    → Text
    → Text
    → AuthDecision
    → PairResult
    → Answer IssueResponse × List AuditEntry
respond opts s uid delegator decision pair =
    let entry : AuditEntry = record {
      token_id = s.new_token_id;
      issued_to = uid;
      delegator = delegator;
      channels = decision.granted;
      expires_at = pair.access_expires;
      issued_at = s.now;
    } in
    (
      answered (record {
        token = pair.access_token;
        token_id = s.new_token_id;
        expires_at = pair.access_expires;
        channels_granted = decision.granted;
        channels_denied = decision.denied;
      }),
      if opts.has_audit_log then entry ∷ [] else [],
    )

-- `issueFor` behind the authorizer's answer, by the channels granted.
unfoldable pub issue_granted :
    Options
    → Surroundings
    → Text
    → Text
    → IssueRequest
    → AuthDecision
    → List Text
    → Answer IssueResponse × List AuditEntry
issue_granted opts s uid delegator req decision [] = (
  answered (record {
    token = [];
    token_id = [];
    expires_at = 0;
    channels_granted = [];
    channels_denied = decision.denied;
  }),
  [],
)
issue_granted opts s uid delegator req decision (channel ∷ more) =
    elim (issue_pair opts.issuer s.first uid channel (ttl_of opts req) []) [
      | refused e ↦ (failed (not_issued e), [])
      | minted pair ↦
          respond opts s uid delegator decision (reissued opts s uid decision.granted pair)
    ]

-- `Broker.issueFor`: the answer, and what it hands to the audit log.
unfoldable pub issue_for :
    Options → Surroundings → Text → Text → IssueRequest → Answer IssueResponse × List AuditEntry
unfolding issue_granted
issue_for opts s uid delegator req =
    let decision = opts.authorize uid req.channels in
    if length req.channels == 0
    then (failed no_channels, [])
    else issue_granted opts s uid delegator req decision decision.granted

-- `Broker.Issue`
unfoldable pub issue :
    Options → Surroundings → Text → IssueRequest → Answer IssueResponse × List AuditEntry
unfolding issue_for
issue opts s bearer req = elim (opts.authenticate bearer) [
  | none ↦ (failed unauthenticated, [])
  | some uid ↦ issue_for opts s uid [] req
]
