-- ===== src/TokenBroker/Requests.antt =====
-- tokenbroker/broker.go: delegation, and revocation through the broker, over the revocations in memory.
use parsec.Common.{
  ℕ, ◌-◌, ◌*◌, ◌%◌, ◌^◌, ◌+◌, Bool, true, not, ◌&&◌, List, [], Option, none, some, if◌then◌else◌,
  ltb, Text, text_eq, ℤ, pos, negsuc,
}
use parsec.TokenBroker.{
  MemoryRevocations, revoke, revoke_all_for_user, is_revoked, is_user_revoked, BrokerError, Answer,
  failed, unauthenticated, on_behalf_of_required, delegation_refused, no_subject, Options,
  IssueResponse, AuditEntry, Surroundings, issue_for,
}

pub record DelegateRequest : Type 0 where
  pub on_behalf_of : Text
  pub channels : List Text
  pub lifetime_seconds : ℤ

-- An int64 product.
abbrev pub wrap_int64 : ℤ → ℤ
wrap_int64 (pos n) = let m = n % 2 ^ 64 in if ltb m (2 ^ 63) then pos m else negsuc (2 ^ 64 - 1 - m)
wrap_int64 (negsuc n) =
    let m = n % 2 ^ 64 in if ltb m (2 ^ 63) then negsuc m else pos (2 ^ 64 - 1 - m)

-- `time.Duration(n) * time.Second`
abbrev pub seconds : ℤ → ℤ
seconds (pos n) = wrap_int64 (pos (n * 1000000000))
seconds (negsuc n) = wrap_int64 (negsuc ((n + 1) * 1000000000 - 1))

-- `b.opts.DelegateAuthorizer`, which lets all pass where it is nil
abbrev pub may_delegate : Option (Text → Text → Bool) → Text → Text → Bool
may_delegate none svc target = true
may_delegate (some test) svc target = test svc target

-- `Broker.Delegate`
unfoldable pub delegate :
    Options → Surroundings → Text → DelegateRequest → Answer IssueResponse × List AuditEntry
delegate opts s bearer req = elim (opts.authenticate bearer) [
  | none ↦ (failed unauthenticated, [])
  | some svc ↦
      if text_eq req.on_behalf_of []
      then (failed on_behalf_of_required, [])
      else if not (may_delegate opts.delegate_authorizer svc req.on_behalf_of)
      then (failed delegation_refused, [])
      else issue_for opts s req.on_behalf_of svc
          (record { channels = req.channels; ttl = seconds req.lifetime_seconds })
]

pub record RevokeRequest : Type 0 where
  pub token_id : Text
  pub user_id : Text
  pub reason : Text

-- `Broker.Revoke`
unfoldable pub revoke_request :
    Options → Text → RevokeRequest → ℕ → MemoryRevocations → MemoryRevocations × Option BrokerError
revoke_request opts bearer req now m = elim (opts.authenticate bearer) [
  | none ↦ (m, some unauthenticated)
  | some _ ↦
      if not (text_eq req.token_id [])
      then revoke req.token_id req.user_id req.reason now m
      else if not (text_eq req.user_id [])
      then revoke_all_for_user req.user_id now m
      else (m, some no_subject)
]

-- `Broker.IsRevoked`
unfoldable pub is_revoked_or_user : Text → Text → ℕ → ℕ → MemoryRevocations → Bool
is_revoked_or_user token_id user_id issued_at now m =
    if not (text_eq token_id []) && is_revoked token_id now m
    then true
    else not (text_eq user_id []) && is_user_revoked user_id issued_at now m
