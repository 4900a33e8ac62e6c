-- ===== src/Sinks/Attempts.antt =====
-- How the loop of `Retrier.Send` goes.
use parsec.Common.{
  ℕ, zero, suc, ◌+◌, ◌-◌, ◌≤◌, ◌<◌, Bool, true, Option, none, some, ◌≡◌, refl, ◌↔◌, ◌⊎◌, inl, inr,
  arith, leb, leb→le, Bool-cases, Option-cases, ℤ, pos_part, ◌∙◌, sym, ap,
}
use parsec.Sinks.{
  Floats, RetryConfig, normalize, positive_or, World, Exit, delivered, failed, wait_before,
  send_from, send_attempts,
}

-- One more call in front.
unfoldable pub counted {ℓ} : {X : Type ℓ} → ℕ → Option (ℕ × X) → Option (ℕ × X)
counted n none = none
counted n (some (calls, exit)) = some (calls + n, exit)

abbrev pub last_attempt : {fl : Floats} → RetryConfig fl → ℕ
last_attempt c = pos_part (normalize c).max_attempts

pos_part-positive_or : (n : ℤ) (d : ℕ) → 0 < d → 0 < pos_part (positive_or n d)
pos_part-positive_or n d h = ground arith

pub last_attempt_pos : {fl : Floats} (c : RetryConfig fl) → 0 < last_attempt c
unfolding normalize
last_attempt_pos c = pos_part-positive_or c.max_attempts 5 (omega arith)

module _ {fl : Floats} {E : Type 0} (cfg : RetryConfig fl) (classify : E → Bool)
    (w : World fl E) where
  -- The attempt is made and fails such that the loop goes on.
  pub record Retries (k : ℕ) : Type 0 where
    pub waited : wait_before w cfg k ≡ none
    pub error : E
    pub replied : w.reply k ≡ some error
    pub live : w.cancelled k ≡ none
    pub transient : classify error ≡ true

  -- The attempt `n` delivers the message, and every attempt from `a` on before it is retried.
  pub record Delivers (a n : ℕ) : Type 0 where
    pub after_a : a ≤ n
    pub in_time : n ≤ pos_part cfg.max_attempts
    pub before : (k : ℕ) → a ≤ k → k < n → Retries k
    pub waited : wait_before w cfg n ≡ none
    pub replied : w.reply n ≡ none

  -- What one round does.
  data Round (fuel a : ℕ) (last : Option E) : Type 0 where
    stops :
        (n : ℕ) (e : Option E)
        → send_from cfg classify w (suc fuel) a last ≡ some (0, failed n e)
        → Round fuel a last
    fails :
        (n : ℕ) (e : Option E)
        → a ≤ pos_part cfg.max_attempts
        → send_from cfg classify w (suc fuel) a last ≡ some (1, failed n e)
        → Round fuel a last
    delivers :
        a ≤ pos_part cfg.max_attempts
        → wait_before w cfg a ≡ none
        → w.reply a ≡ none
        → send_from cfg classify w (suc fuel) a last ≡ some (1, delivered)
        → Round fuel a last
    goes_on :
        a ≤ pos_part cfg.max_attempts
        → Retries a
        → send_from cfg classify w (suc fuel) a last
          ≡ counted 1 (send_from cfg classify w fuel (a + 1) (w.reply a))
        → Round fuel a last

  round : (fuel a : ℕ) (last : Option E) → Round fuel a last
  unfolding send_from counted
  round fuel a last = elim (Bool-cases (leb a (pos_part cfg.max_attempts))) [
    | inr x ↦ stops (a - 1) last (rw (x, send_from) refl)
    | inl x ↦ elim (Option-cases (wait_before w cfg a)) [
      | inr (e, y) ↦ stops (a - 1) (some e) (rw (x, y, send_from) refl)
      | inl y ↦ elim (Option-cases (w.reply a)) [
        | inl z ↦ delivers (leb→le _ _ x) y z (rw (x, y, z, send_from) refl)
        | inr (err, z) ↦ elim (Option-cases (w.cancelled a)) [
          | inr (e, u) ↦ fails a (some e) (leb→le _ _ x) (rw (x, y, z, u, send_from) refl)
          | inl u ↦ elim (Bool-cases (classify err)) [
            | inr v ↦ fails (a - 1) (some err) (leb→le _ _ x) (rw (x, y, z, u, v, send_from) refl)
            | inl v ↦ elim (Option-cases (send_from cfg classify w fuel (a + 1) (some err))) [
              | inl s ↦
                  goes_on (leb→le _ _ x)
                    (record { waited = y; error = err; replied = z; live = u; transient = v })
                    (rw (x, y, z, u, v, s, send_from) refl)
              | inr (r, s) ↦
                  goes_on (leb→le _ _ x)
                    (record { waited = y; error = err; replied = z; live = u; transient = v })
                    (rw (x, y, z, u, v, s, send_from) refl)
            ]
          ]
        ]
      ]
    ]
  ]

  -- Attempts that are retried pass.
  step :
      (fuel a : ℕ) (last : Option E)
      → a ≤ pos_part cfg.max_attempts
      → Retries a
      → send_from cfg classify w (suc fuel) a last
        ≡ counted 1 (send_from cfg classify w fuel (a + 1) (w.reply a))
  unfolding send_from counted
  step fuel a last h r =
      let x : leb a (pos_part cfg.max_attempts) ≡ true = ground arith in
      elim (Option-cases (send_from cfg classify w fuel (a + 1) (some r.error))) [
        | inl s ↦ rw (x, r.waited, r.replied, r.live, r.transient, s, send_from) refl
        | inr (p, s) ↦ rw (x, r.waited, r.replied, r.live, r.transient, s, send_from) refl
      ]

  ends :
      (fuel a : ℕ) (last : Option E)
      → pos_part cfg.max_attempts + 2 ≤ a + fuel
      → 0 < fuel
      → a ≤ pos_part cfg.max_attempts + 1
      → (calls : ℕ) × (exit : Exit E) × (send_from cfg classify w fuel a last ≡ some (calls, exit))
        × (a + calls ≤ pos_part cfg.max_attempts + 1)
  unfolding send_from counted
  ends zero a last h pos_fuel le = absurd (omega arith)
  ends (suc fuel) a last h _ le = elim (round fuel a last) [
    | stops n e s ↦ (0, failed n e, s, omega arith)
    | fails n e x s ↦ (1, failed n e, s, omega arith)
    | delivers x _ _ s ↦ (1, delivered, s, omega arith)
    | goes_on x _ s ↦
        let (calls, exit, t, b) =
          ends fuel (a + 1) (w.reply a) (omega arith) (omega arith) (omega arith) in
        (calls + 1, exit, s ∙ ap (counted 1) t, omega arith)
  ]

  send_from-Delivers :
      (fuel a calls : ℕ) (last : Option E)
      → send_from cfg classify w fuel a last ≡ some (calls, delivered)
      → (n : ℕ) × (a + calls ≡ suc n) × Delivers a n
  unfolding send_from counted
  send_from-Delivers zero a calls last h = cc
  send_from-Delivers (suc fuel) a calls last h = elim (round fuel a last) [
    | stops n e s ↦ absurd (cc (s, h))
    | fails n e x s ↦ absurd (cc (s, h))
    | delivers x y z s ↦
        let one : calls ≡ 1 = cc (s, h) in
        (
          a,
          omega (arith, one),
          record {
            after_a = omega arith;
            in_time = x;
            before = λ k l m. absurd (omega arith);
            waited = y;
            replied = z;
          },
        )
    | goes_on x r s ↦ elim (Option-cases (send_from cfg classify w fuel (a + 1) (w.reply a))) [
      | inl t ↦ absurd (cc (s, h, t))
      | inr ((c, exit), t) ↦
          let same : exit ≡ delivered = cc (s, h, t) in
          let one_more : c + 1 ≡ calls = cc (s, h, t) in
          let (n, e, d) = send_from-Delivers fuel (a + 1) c (w.reply a) (rw same at t) in
          (
            n,
            omega (arith, one_more, e),
            record {
              after_a = omega (arith, d.after_a);
              in_time = d.in_time;
              before = λ k l m. elim (Bool-cases (leb k a)) [
                | inl y ↦ let same_k : a ≡ k = ground arith in rw (sym same_k) r
                | inr y ↦ d.before k (ground arith) m
              ];
              waited = d.waited;
              replied = d.replied;
            },
          )
    ]
  ]

  -- The attempts from `a` on that are retried, and what the loop does behind them.
  pub passes :
      (d fuel a n : ℕ) (last : Option E) (total calls : ℕ) (exit : Exit E)
      → n ≡ a + d
      → total ≡ calls + d
      → n ≤ pos_part cfg.max_attempts + 1
      → d < fuel
      → ((k : ℕ) → a ≤ k → k < n → Retries k)
      → ((fuel' : ℕ) (last' : Option E)
          → ((d ≡ 0) × (last' ≡ last)) ⊎ ((0 < d) × (last' ≡ w.reply (n - 1)))
          → send_from cfg classify w (suc fuel') n last' ≡ some (calls, exit))
      → send_from cfg classify w fuel a last ≡ some (total, exit)
  unfolding counted
  passes d zero a n last total calls exit e s l f before behind = absurd (omega arith)
  passes zero (suc fuel) a n last total calls exit e s l f before behind =
      let same : a ≡ n = omega arith in
      let same_total : total ≡ calls = omega arith in
      rw (same, same_total) (behind fuel last (inl (refl, refl)))
  passes (suc d) (suc fuel) a n last total calls exit e s l f before behind =
      let later : send_from cfg classify w fuel (a + 1) (w.reply a) ≡ some (calls + d, exit) =
        passes d fuel (a + 1) n (w.reply a) (calls + d) calls exit (omega arith) refl l
          (omega arith) (λ k u v. before k (omega arith) v)
          (λ fuel' last' h. behind fuel' last' (elim h [
            | inl (z, y) ↦
                let here : a ≡ n - 1 = omega (arith, z, e) in inr (omega arith, rw here at y)
            | inr (_, y) ↦ inr (omega arith, y)
          ])) in
      let sum : calls + d + 1 ≡ total = omega arith in
      step fuel a last (omega arith) (before a (omega arith) (omega arith))
      ∙ ap (counted 1) later
      ∙ ap (λ m. some (m, exit)) sum

  pub delivers_now :
      (n fuel : ℕ) (last : Option E)
      → n ≤ pos_part cfg.max_attempts
      → wait_before w cfg n ≡ none
      → w.reply n ≡ none
      → send_from cfg classify w (suc fuel) n last ≡ some (1, delivered)
  unfolding send_from
  delivers_now n fuel last l e f =
      let x : leb n (pos_part cfg.max_attempts) ≡ true = ground arith in
      rw (x, e, f, send_from) refl

module _ {fl : Floats} {E : Type 0} (c : RetryConfig fl) (classify : E → Bool)
    (w : World fl E) where
  -- For every configuration and whatever the sink, the classifier and the context answer, Send ends
  -- within the fuel, after at most as many calls of the sink as the normalized configuration has
  -- attempts.
  pub send_attempts_ends :
      (calls : ℕ) × (exit : Exit E) × (send_attempts c classify w ≡ some (calls, exit))
      × (calls ≤ last_attempt c)
  unfolding send_attempts
  send_attempts_ends =
      let (calls, exit, e, b) =
        ends (normalize c) classify w (last_attempt c + 1) 1 none (omega arith) (omega arith)
          (omega arith) in
      (calls, exit, e, omega arith)

  -- Send delivers with its n-th call of the sink exactly if n is within the attempts of the normalized
  -- configuration, every earlier attempt was made, failed with an error that the classifier calls
  -- transient and left the context alive, and the wait before attempt n ran out and the sink took the
  -- message then.
  pub send_attempts-Delivers_iff :
      (n : ℕ)
      → (send_attempts c classify w ≡ some (n, delivered))
        ↔ ((0 < n) × Delivers (normalize c) classify w 1 n)
  unfolding send_attempts
  send_attempts-Delivers_iff n = (
    λ h.
        let (n', e, d) =
          send_from-Delivers (normalize c) classify w (last_attempt c + 1) 1 n none h in
        let same : n' ≡ n = omega arith in (omega (arith, d.after_a), rw same at d),
    λ (b, d).
        passes (normalize c) classify w (n - 1) (last_attempt c + 1) 1 n none n 1 delivered
          (omega arith) (omega arith) (omega (arith, d.in_time)) (omega (arith, d.in_time)) d.before
          (λ fuel' last' h.
            delivers_now (normalize c) classify w n fuel' last' d.in_time d.waited d.replied),
  )
