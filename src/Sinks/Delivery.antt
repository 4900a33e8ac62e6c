-- ===== src/Sinks/Delivery.antt =====
-- sinks/retry.go: what becomes of a message, and of the queue of dead letters behind the retrier.
use parsec.Common.{ℕ, Bool, false, [], Option, none, some, if◌then◌else◌, ltb_ℤ, pos, Text, not}
use parsec.Errors.{Code, Result, ok, err, sink_unavailable, sink_dlq_overflow}
use parsec.Sinks.Queue.{DlqItem}
use parsec.Sinks.{Floats, RetryConfig, normalize, World, delivered, failed, send_attempts}

-- `DLQ.Push` of a queue with state `Q`, and the queue behind it.
abbrev pub Push : Type 0 → Type 0 → Type 0
Push M Q = DlqItem M → Q → Result Q

-- The error that `Send` returns.
pub data SendError (E : Type 0) : Type 0 where
  nil : SendError E
  raised : E → SendError E
  coded : Code → SendError E

-- The arguments of one `Send` that reach the item it may leave behind.
pub record Parcel (M : Type 0) : Type 0 where
  pub name : Text
  pub now : ℕ
  pub to : M
  pub msg : M

module _ {E M Q : Type 0} where
  -- `Retrier.recordFailure`
  unfoldable pub record_failure :
      (E → Text) → Option (Push M Q) → Parcel M → ℕ → Option E → Q → Q × SendError E
  record_failure text dlq p attempts last_err q = elim dlq [
    | none ↦ elim last_err [ none ↦ (q, coded sink_unavailable) | some e ↦ (q, raised e) ]
    | some push ↦
        let item : DlqItem M = record {
          id = [];
          sink = p.name;
          at_time = p.now;
          recipient = p.to;
          message = p.msg;
          attempts = attempts;
          last_error = elim last_err [ none ↦ [] | some e ↦ text e ];
        } in
        elim (push item q) [ err c ↦ (q, coded sink_dlq_overflow) | ok q' ↦ (q', nil) ]
  ]

  -- `Retrier.Send`: the calls of the inner sink, the queue, and the error returned; `none` is out of
  -- fuel.
  unfoldable pub send :
      {fl : Floats}
      → RetryConfig fl
      → (E → Bool)
      → (E → Text)
      → Option (Push M Q)
      → World fl E
      → Parcel M
      → Q
      → Option (ℕ × Q × SendError E)
  unfolding record_failure
  send c classify text dlq w p q = elim (send_attempts c classify w) [
    | none ↦ none
    | some (calls, delivered) ↦ some (calls, q, nil)
    | some (calls, failed n e) ↦
        let (q', error) = record_failure text dlq p n e q in some (calls, q', error)
  ]

-- A sink as `WrapSink` meets it: bare, or a retrier around one. `Inner` is the type of bare sinks and
-- `D` that of queues.
pub data Sink (fl : Floats) (Inner D : Type 0) : Type 0 where
  bare : Inner → Sink fl Inner D
  retrier : Sink fl Inner D → RetryConfig fl → Option D → Sink fl Inner D

-- `norm.MaxAttempts <= 1 && dlq == nil`
abbrev pub is_needless : {fl : Floats} {D : Type 0} → RetryConfig fl → Option D → Bool
is_needless norm none = not (ltb_ℤ (pos 1) norm.max_attempts)
is_needless norm (some d) = false

module _ {fl : Floats} {Inner D : Type 0} where
  -- `NewRetrier`
  unfoldable pub new_retrier : Sink fl Inner D → RetryConfig fl → Option D → Sink fl Inner D
  new_retrier inner c dlq = retrier inner (normalize c) dlq

  -- `WrapSink`, where `none` is nil
  unfoldable pub wrap_sink :
      Option (Sink fl Inner D) → RetryConfig fl → Option D → Option (Sink fl Inner D)
  unfolding new_retrier
  wrap_sink none c dlq = none
  wrap_sink (some (retrier i c' d)) c dlq = some (retrier i c' d)
  wrap_sink (some (bare i)) c dlq =
      let norm = normalize c in
      if is_needless norm dlq then some (bare i) else some (new_retrier (bare i) norm dlq)
