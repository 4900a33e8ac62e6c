-- ===== src/Tests/Sinks.antt =====
-- The theorems on the sinks.
use parsec.Common.{
  ℕ, ◌≤◌, ◌<◌, Bool, false, [], ◌∷◌, Option, none, some, ◌≡◌, ◌↔◌, refl, arith, leb, ltb,
  if◌then◌else◌, ◌==◌, codes, Text, pos,
}
use parsec.Sinks.Attempts.{Delivers, last_attempt, send_attempts_ends, send_attempts-Delivers_iff}
use parsec.Sinks.Delivery.{Parcel, send, nil, Sink, bare, wrap_sink}
use parsec.Sinks.Letters.{memory_push, letter, terminal_letter}
use parsec.Sinks.Queue.{MemoryDlq}
use parsec.Sinks.{
  Floats, RetryConfig, normalize, backoff_for, grown, World, Exit, delivered, wait_before,
  send_attempts,
}

-- Fractions in thousandths.
abbrev thousandths : Floats
thousandths = record {
  F = ℕ;
  below = ltb;
  is_zero_float = λ n. n == 0;
  zero_float = 0;
  one_float = 1000;
  fifth = 200;
}

abbrev config : RetryConfig thousandths
config = record {
  max_attempts = pos 3;
  base_backoff = pos 100;
  max_backoff = pos 0;
  jitter_fraction = 0;
}

-- A sink whose replies are given, with errors as texts.
abbrev world : (ℕ → Option Text) → World thousandths Text
world reply = record {
  reply = reply;
  jittered = λ _. λ _. λ wait. wait;
  interrupted = λ _. none;
  cancelled = λ _. none;
}

abbrev busy : Text
busy = codes "busy"

abbrev denied : Text
denied = codes "denied"

abbrev is_busy : Text → Bool
is_busy [] = false
is_busy (c ∷ t) = c == 98

abbrev busy_once : ℕ → Option Text
busy_once n = if leb n 1 then some busy else none

send_attempts_ends_example :
    (calls : ℕ) × (exit : Exit Text) × (send_attempts config is_busy (world busy_once)
      ≡ some (calls, exit))
    × (calls ≤ last_attempt config)
send_attempts_ends_example = send_attempts_ends config is_busy (world busy_once)

send_attempts-Delivers_iff_example :
    (send_attempts config is_busy (world busy_once) ≡ some (2, delivered))
    ↔ ((0 < 2) × Delivers (normalize config) is_busy (world busy_once) 1 2)
send_attempts-Delivers_iff_example = send_attempts-Delivers_iff config is_busy (world busy_once) 2

sent_twice : send_attempts config is_busy (world busy_once) ≡ some (2, delivered)
unfolding send_attempts normalize backoff_for grown
sent_twice = refl

never_interrupted :
    (reply : ℕ → Option Text) (k : ℕ) → wait_before (world reply) (normalize config) k ≡ none
unfolding wait_before
never_interrupted reply k = ground arith

abbrev always_busy : ℕ → Option Text
always_busy n = some busy

abbrev busy_then_denied : ℕ → Option Text
busy_then_denied n = if leb n 1 then some busy else some denied

abbrev parcel : Parcel Text
parcel = record { name = codes "mail"; now = 7; to = codes "ann"; msg = codes "hi" }

abbrev no_letters : MemoryDlq Text
no_letters = record { items = [] }

abbrev text_of : Text → Text
text_of e = e

three_attempts : 2 ≤ last_attempt config
unfolding normalize
three_attempts = omega arith

terminal_letter_example :
    send config is_busy text_of
      (some (memory_push (codes "i1")))
      (world busy_then_denied)
      parcel
      no_letters
    ≡ some (2, record { items = letter (codes "i1") parcel 1 denied ∷ [] }, nil)
terminal_letter_example =
    terminal_letter config is_busy text_of (world busy_then_denied) (codes "i1") parcel no_letters 2
      denied (omega arith) three_attempts
      (λ k l m. record {
        waited = never_interrupted busy_then_denied k;
        error = busy;
        replied = ground arith;
        live = refl;
        transient = refl;
      })
      (never_interrupted busy_then_denied 2) refl refl refl

backoff_runs : grown (normalize config) 4 ≡ 400
unfolding grown normalize
backoff_runs = refl

-- A sink that is wrapped stays as it is when it is wrapped again.
abbrev wrapped : Option (Sink thousandths Text Text)
wrapped = wrap_sink (some (bare (codes "mail"))) config none

wrapped_again : wrap_sink wrapped config (some (codes "dlq")) ≡ wrapped
unfolding wrap_sink normalize
wrapped_again = refl
