-- ===== src/Errors.antt =====
-- errors/codes.go: the coded errors. An error is kept as its code; the message, which callers never
-- branch on, is dropped.
use mathlib.Core.Logic.{◌⊎◌, inl, inr}
use mathlib.Core.Path.{◌≡◌, refl}

pub data Code : Type 0 where
  channel_invalid channel_not_found channel_exists channel_closed channel_ttl_exceeds : Code
  auth_denied auth_expired : Code
  broker_not_ready broker_internal : Code
  sink_unavailable sink_config sink_dlq_overflow sink_dlq_not_found : Code
  rate_limited : Code
  invalid_argument internal : Code

-- `(T, error)`: the value with a nil error, or the zero value with an error.
pub data Result {ℓ} (A : Type ℓ) : Type ℓ where
  ok : A → Result A
  err : Code → Result A

pub Result-cases {ℓ} :
    {A : Type ℓ} (r : Result A) → ((a : A) × (r ≡ ok a)) ⊎ ((e : Code) × (r ≡ err e))
Result-cases (ok a) = inl (a, refl)
Result-cases (err e) = inr (e, refl)

-- `v, err := ...; if err != nil { return zero, err }` in front of a step that uses the value
infixl 5 ◌>>=◌
abbrev pub ◌>>=◌ {ℓ κ} : {V : Type ℓ} {W : Type κ} → Result V → (V → Result W) → Result W
err code >>= step = err code
ok value >>= step = step value

-- The same in front of a step that does not.
infixl 5 ◌>>◌
abbrev pub ◌>>◌ {ℓ} : {W : Type ℓ} (check : Result (Unit {0})) (next : Result W) → Result W
check >> next = check >>= λ _. next

-- A chain that succeeds had a first step that succeeded, with a value for the second.
pub chain_ok {ℓ κ} :
    {V : Type ℓ} {W : Type κ} (step : V → Result W) (first : Result V) (w : W)
    → (first >>= step) ≡ ok w
    → (v : V) × (first ≡ ok v) × (step v ≡ ok w)
chain_ok step (err code) w chained = cc chained
chain_ok step (ok v) w chained = (v, refl, chained)
