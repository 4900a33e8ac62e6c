-- ===== src/RateLimit/Normal.antt =====
-- What `Limit.Normalize` establishes.
use parsec.Common.{ℕ, ◌≤◌, ◌<◌, ◌≡◌, refl, sym, ap, ◌∙◌, arith, ℤ, pos, negsuc, pos_part}
use parsec.RateLimit.{Limit, clamp, normalize}

-- No field is negative, the burst is at least the rate, and a limited rate has a window.
pub record IsNormal (l : Limit) : Type 0 where
  pub rate : l.rate ≡ pos (pos_part l.rate)
  pub per : l.per ≡ pos (pos_part l.per)
  pub burst : l.burst ≡ pos (pos_part l.burst)
  pub peak : pos_part l.rate ≤ pos_part l.burst
  pub window : 0 < pos_part l.rate → 0 < pos_part l.per

clamp_lem : (n : ℤ) → clamp n ≡ pos (pos_part n)
unfolding clamp
clamp_lem (pos n) = ground arith
clamp_lem (negsuc n) = ground arith

normalize-IsNormal : (l : Limit) → IsNormal (normalize l)
unfolding normalize
normalize-IsNormal l =
    rw (normalize, clamp_lem l.rate, clamp_lem l.burst, clamp_lem l.per)
      (record {
        rate = refl;
        per = ground arith;
        burst = ground arith;
        peak = ground arith;
        window = ground arith;
      })

normalize_of_naturals :
    (r p b : ℕ)
    → r ≤ b
    → (0 < r → 0 < p)
    → normalize (record { rate = pos r; per = pos p; burst = pos b })
      ≡ record { rate = pos r; per = pos p; burst = pos b }
unfolding normalize clamp
normalize_of_naturals r p b h w = ground arith

normalize_of_IsNormal : (l : Limit) → IsNormal l → normalize l ≡ l
normalize_of_IsNormal l n =
    let l' : Limit = record {
      rate = pos (pos_part l.rate);
      per = pos (pos_part l.per);
      burst = pos (pos_part l.burst);
    } in
    let same : l ≡ l' = rw (← n.rate, ← n.per, ← n.burst) refl in
    ap normalize same
    ∙ normalize_of_naturals (pos_part l.rate) (pos_part l.per) (pos_part l.burst) n.peak n.window
    ∙ sym same

-- A normalized limit has no negative field, a burst that is at least its rate, and a window where
-- it has a rate; normalizing it again changes nothing.
normalize_lem : (l : Limit) → IsNormal (normalize l) × (normalize (normalize l) ≡ normalize l)
normalize_lem l = (normalize-IsNormal l, normalize_of_IsNormal (normalize l) (normalize-IsNormal l))
