-- ===== src/Sinks/Letters.antt =====
-- What the retrier leaves in the queue of dead letters.
use parsec.Common.{
  ℕ, suc, ◌+◌, ◌-◌, ◌≤◌, ◌<◌, Bool, true, false, [], ◌∷◌, ◌++◌, Option, none, some, ◌≡◌, refl, ◌∙◌,
  inl, inr, arith, leb, pos_part, Text,
}
use parsec.Errors.{ok}
use parsec.Sinks.Attempts.{Retries, passes, last_attempt, last_attempt_pos}
use parsec.Sinks.Delivery.{Push, Parcel, record_failure, send, nil}
use parsec.Sinks.Queue.{DlqItem, MemoryDlq, push}
use parsec.Sinks.{
  Floats, RetryConfig, normalize, World, failed, wait_before, send_from, send_attempts,
}

-- A memory queue as the retrier's queue.
abbrev pub memory_push : {M : Type 0} → Text → Push M (MemoryDlq M)
memory_push new_id item q = ok (push new_id item q)

-- What `recordFailure` and `Push` make of a parcel.
abbrev pub letter : {M : Type 0} → Text → Parcel M → ℕ → Text → DlqItem M
letter new_id p attempts last_error = record {
  id = new_id;
  sink = p.name;
  at_time = p.now;
  recipient = p.to;
  message = p.msg;
  attempts = attempts;
  last_error = last_error;
}

module _ {fl : Floats} {E : Type 0} (cfg : RetryConfig fl) (classify : E → Bool)
    (w : World fl E) where
  gives_up :
      (fuel : ℕ) (e : E) (last : Option E)
      → last ≡ some e
      → send_from cfg classify w (suc fuel) (pos_part cfg.max_attempts + 1) last
        ≡ some (0, failed (pos_part cfg.max_attempts) (some e))
  unfolding send_from
  gives_up fuel e last h =
      let x : leb (pos_part cfg.max_attempts + 1) (pos_part cfg.max_attempts) ≡ false =
        ground arith in
      let y : pos_part cfg.max_attempts + 1 - 1 ≡ pos_part cfg.max_attempts = omega arith in
      rw (x, h, y, send_from) refl

  breaks :
      (n fuel : ℕ) (e : E) (last : Option E)
      → n ≤ pos_part cfg.max_attempts
      → wait_before w cfg n ≡ none
      → w.reply n ≡ some e
      → w.cancelled n ≡ none
      → classify e ≡ false
      → send_from cfg classify w (suc fuel) n last ≡ some (1, failed (n - 1) (some e))
  unfolding send_from
  breaks n fuel e last l a b c d =
      let x : leb n (pos_part cfg.max_attempts) ≡ true = ground arith in
      rw (x, a, b, c, d, send_from) refl

module _ {fl : Floats} {E M : Type 0} (c : RetryConfig fl) (classify : E → Bool) (text : E → Text)
    (w : World fl E) (new_id : Text) (p : Parcel M) (q : MemoryDlq M) where
  abbrev max : ℕ
  max = last_attempt c

  failed_lem :
      (calls n : ℕ) (e : E)
      → send_attempts c classify w ≡ some (calls, failed n (some e))
      → send c classify text (some (memory_push new_id)) w p q
        ≡ some (calls, record { items = q.items ++ letter new_id p n (text e) ∷ [] }, nil)
  unfolding send record_failure push
  failed_lem calls n e h = rw (h, send) refl

  -- If every attempt that the normalized configuration has is retried, Send calls the sink that often,
  -- returns no error and appends exactly one letter, with that number of attempts and the text of
  -- the last attempt's error.
  exhausted_letter :
      ((k : ℕ) → 1 ≤ k → k ≤ max → Retries (normalize c) classify w k)
      → (e : E) → w.reply max ≡ some e
      → send c classify text (some (memory_push new_id)) w p q
        ≡ some (max, record { items = q.items ++ letter new_id p max (text e) ∷ [] }, nil)
  unfolding send_attempts
  exhausted_letter all e last = failed_lem max max e (
      passes (normalize c) classify w max (max + 1) 1 (max + 1) none max 0 (failed max (some e))
        (omega arith) (omega arith) (omega arith) (omega arith) (λ k a b. all k a (omega arith))
        (λ fuel last' h. gives_up (normalize c) classify w fuel e last' (elim h [
          | inl (z, _) ↦ absurd (omega (arith, z, last_attempt_pos c))
          | inr (_, s) ↦ let here : max + 1 - 1 ≡ max = omega arith in (rw here at s) ∙ last
        ])))

  -- If the first n - 1 attempts are retried and attempt n, within the attempts of the normalized
  -- configuration, is made and fails with an error that the classifier calls terminal, while the context is alive, Send
  -- has called the sink n times, but the one letter that it appends says n - 1 attempts.
  pub terminal_letter :
      (n : ℕ) (e : E)
      → 0 < n
      → n ≤ max
      → ((k : ℕ) → 1 ≤ k → k < n → Retries (normalize c) classify w k)
      → wait_before w (normalize c) n ≡ none
      → w.reply n ≡ some e
      → w.cancelled n ≡ none
      → classify e ≡ false
      → send c classify text (some (memory_push new_id)) w p q
        ≡ some (n, record { items = q.items ++ letter new_id p (n - 1) (text e) ∷ [] }, nil)
  unfolding send_attempts
  terminal_letter n e b l before waited replied live terminal = failed_lem n (n - 1) e (
      passes (normalize c) classify w (n - 1) (max + 1) 1 n none n 1 (failed (n - 1) (some e))
        (omega arith) (omega arith) (omega arith) (omega arith) before
        (λ fuel last' _.
          breaks (normalize c) classify w n fuel e last' l waited replied live terminal))
