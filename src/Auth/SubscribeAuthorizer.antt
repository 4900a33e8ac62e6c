-- ===== src/Auth/SubscribeAuthorizer.antt =====
-- auth/subscribe_authorizer.go: who may subscribe to a channel. A gate that limits the rate goes first;
-- it changes a state of its own, which is a parameter.
pub mod Deciding
use parsec.Auth.KeyRing.{KeyRing}
use parsec.Auth.Scope.{Claims, authorizes}
use parsec.Auth.Signer.{Payload}
use parsec.Auth.Verifier.{VerifyError, err_expired, Verified, verified, rejected, Verifier, verify}
use parsec.Channels.Name.{Name, to_string, is_private}
use parsec.Common.{
  ℕ, Bool, true, false, not, List, [], ◌∷◌, ◌++◌, Option, none, some, if◌then◌else◌, Text, codes,
  text_eq, pos,
}
use parsec.Errors.{Code, Result, ok, err, ◌>>◌, auth_denied, auth_expired, internal, rate_limited}
use parsec.RateLimit.{Limit, Decision, MemoryLimiter, unlimited, allow}

-- `MapErr`
unfoldable pub map_err : VerifyError → Code
map_err err_expired = auth_expired
map_err _ = auth_denied

-- What `Claims.Authorizes` reads of the claims of a token.
abbrev pub grants : Payload → Claims
grants c = record { chs = c.chs; scopes = c.scopes }

-- A `SubscribeRateGate`
abbrev pub Gate : Type 0 → Type 0
Gate M = Text → Name → M → M × Result (Unit {0})

-- The answer to a decision of the limiter, or to its error.
unfoldable pub gate_answer : Option Decision → Result (Unit {0})
gate_answer none = err internal
gate_answer (some d) = if not d.allowed then err rate_limited else ok tt

-- The gate of `NewSubscribeAuthorizerWithLimiter` over the memory limiter; `done` tells that the
-- context is.
unfoldable pub limiter_gate : Bool → ℕ → Gate MemoryLimiter
unfolding allow gate_answer
limiter_gate done now user_id ch m =
    let (m', d) = allow done (codes "subscribe:" ++ user_id) (pos 1) now m in
    if text_eq user_id [] then (m, ok tt) else (m', gate_answer d)

-- `if gate != nil`
abbrev pub run_gate {ℓ} :
    {M : Type ℓ}
    → Option (Text → Name → M → M × Result (Unit {0}))
    → Text
    → Name
    → M
    → M × Result (Unit {0})
run_gate none user_id ch m = (m, ok tt)
run_gate (some gate) user_id ch m = gate user_id ch m

module _ {S P : Type 0} (v : Verifier S P) where
  -- The end of the authorizer, with the claims of the token.
  unfoldable pub check_claims : Name → Verified Payload → Result (Unit {0})
  unfolding map_err authorizes
  check_claims ch (rejected e) = err (map_err e)
  check_claims ch (verified c) =
      if not (authorizes (to_string ch) (codes "subscribe") (grants c)).1
      then err auth_denied
      else ok tt

  -- The authorizer behind its gate.
  unfoldable pub check_token : KeyRing S P → ℕ → Name → Text → Result (Unit {0})
  unfolding check_claims verify
  check_token ring now ch token =
      if not (is_private ch)
      then ok tt
      else if text_eq token []
      then err auth_denied
      else check_claims ch (verify v ring now token (codes "access"))

  -- The function that `NewSubscribeAuthorizerWithGate` returns.
  unfoldable pub authorize_subscribe :
      {M : Type 0}
      → Option (Gate M)
      → KeyRing S P
      → ℕ
      → Text
      → Name
      → Text
      → M
      → M × Result (Unit {0})
  unfolding check_token
  authorize_subscribe gate ring now user_id ch token m =
      let (m', answer) = run_gate gate user_id ch m in (m', answer >> check_token ring now ch token)

-- The gate that `NewSubscribeAuthorizerWithLimiter` chooses.
unfoldable pub gate_of : Bool → ℕ → Option MemoryLimiter → Limit → Option (Gate MemoryLimiter)
unfolding limiter_gate
gate_of done now limiter default_limit = elim limiter [
  | none ↦ none
  | some _ ↦ if unlimited default_limit then none else some (limiter_gate done now)
]
