-- ===== src/Envelope/Checks.antt =====
-- What Validate accepts.
use parsec.Common.{
  ◌<◌, true, [], List, ℕ, none, ◌≡◌, ◌≢◌, ◌↔◌, ◌⊎◌, arith, text_eq_iff, pos_part, pos, ltb_ℤ, ℤ,
  negsuc,
}
use parsec.Envelope.{
  Envelope, validate, is_valid_kind, producer_user, producer_agent, producer_service,
}

-- A kind that the package names.
abbrev pub IsKnown : List ℕ → Type 0
IsKnown k = (k ≡ producer_user) ⊎ (k ≡ producer_agent) ⊎ (k ≡ producer_service)

is_valid_kind_iff : (k : List ℕ) → (is_valid_kind k ≡ true) ↔ IsKnown k
unfolding is_valid_kind
is_valid_kind_iff k = ground (
  arith,
  text_eq_iff k producer_user,
  text_eq_iff k producer_agent,
  text_eq_iff k producer_service,
)

positive_iff : (n : ℤ) → (ltb_ℤ (pos 0) n ≡ true) ↔ (0 < pos_part n)
positive_iff (pos n) = ground arith
positive_iff (negsuc n) = ground arith

-- Validate accepts an envelope exactly if it names a channel, an aspect and a producer of a known kind,
-- its sequence is positive and its time is set.
pub validate_iff :
    (e : Envelope)
    → (validate e ≡ none) ↔ (
        (e.channel ≢ [])
        × (e.aspect ≢ [])
        × (e.producer.id ≢ [])
        × IsKnown e.producer.kind
        × (0 < pos_part e.sequence)
        × (e.produced_at ≢ none))
unfolding validate
validate_iff e = ground (
  arith,
  text_eq_iff e.channel [],
  text_eq_iff e.aspect [],
  text_eq_iff e.producer.id [],
  is_valid_kind_iff e.producer.kind,
  positive_iff e.sequence,
)
