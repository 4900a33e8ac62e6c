-- ===== src/Facade/Channels.antt =====
-- parsec.go: the creation of channels by name, over the manager and the issuer, with one reading of the
-- clock for a call.
pub mod Burning
use parsec.Auth.Issuer.{Issuer, World, Minted, minted, refused, PairResult, issue_pair}
use parsec.Auth.Scope.{Scope}
use parsec.Channels.Manager
use parsec.Channels.Manager.{Manager}
use parsec.Channels.Name.{Name, parse_name, to_string}
use parsec.Channels.Store.{Channel}
use parsec.Common.{ℕ, List, Text, ℤ}
use parsec.Errors.{Result, ok, err, invalid_argument}

pub record Credentials : Type 0 where
  pub name : Name
  pub pair : PairResult

-- `Parsec.OpenPublic`
unfoldable pub open_public_by_name : Text → ℤ → ℕ → Manager → Manager × Result Channel
unfolding parse_name Manager.open_public
open_public_by_name name ttl now m = elim (parse_name name) [
  | err e ↦ (m, err e)
  | ok n ↦ Manager.open_public n ttl now m
]

-- The end of `Parsec.CreatePrivate`, with the channel that was created.
unfoldable pub credentials_for :
    Issuer → World → Text → Name → List Scope → Channel → Manager → Manager × Result Credentials
unfolding issue_pair Manager.delete
credentials_for i w subject_id n scopes ch m =
    elim (issue_pair i w subject_id (to_string n) ch.ttl scopes) [
      | refused _ ↦ ((Manager.delete n w.now m).0, err invalid_argument)
      | minted pair ↦ (m, ok (record { name = n; pair = pair }))
    ]

-- `Parsec.CreatePrivate`, from the name that was parsed
unfoldable pub create_named :
    Issuer → World → Text → Name → ℤ → List Scope → Manager → Manager × Result Credentials
unfolding credentials_for Manager.create_private
create_named i w subject_id n ttl scopes m =
    let (m1, r) = Manager.create_private n ttl w.now m in
    elim r [ err e ↦ (m1, err e) | ok ch ↦ credentials_for i w subject_id n scopes ch m1 ]

-- `Parsec.CreatePrivate`
unfoldable pub create_private_by_name :
    Issuer → World → Text → Text → ℤ → List Scope → Manager → Manager × Result Credentials
unfolding parse_name create_named
create_private_by_name i w subject_id name ttl scopes m = elim (parse_name name) [
  | err e ↦ (m, err e)
  | ok n ↦ create_named i w subject_id n ttl scopes m
]
