-- ===== src/Auth/KeyRing/Runs.antt =====
-- Runs of the methods that write keys to a ring, without LoadSnapshot, which replaces the ring and is
-- added in Snapshots/Reloading.
use parsec.Auth.KeyRing.Validity.{
  IsValid, add-IsValid, add_asymmetric-IsValid, promote-IsValid, retire-IsValid,
  retire_not_panicked,
}
use parsec.Auth.KeyRing.{
  Alg, Outcome, done, refused, panicked, KeyRing, promote, retire, add, add_asymmetric,
}
use parsec.Common.{ℕ, ◌||◌, Bool, true, false, List, [], ◌∷◌, ◌≡◌, ◌≢◌, refl, Option, Text}

-- The methods that write keys.
pub data Call (S P : Type 0) : Type 0 where
  call_add : Text → List ℕ → ℕ → Call S P
  call_add_asymmetric : Text → Alg → Option S → P → ℕ → Call S P
  call_promote : Text → Call S P
  call_retire : Text → ℕ → Call S P

abbrev pub is_panicked {ℓ} : {A : Type ℓ} → Outcome A → Bool
is_panicked panicked = true
is_panicked _ = false

module _ {S P : Type 0} (encode : Alg → Text → Option Text) where
  -- The ring behind a call, and whether the call panicked.
  unfoldable pub after : Call S P → KeyRing S P → KeyRing S P × Bool
  unfolding add add_asymmetric promote retire
  after (call_add id secret now) r = let (r', o) = add encode id secret now r in (r', is_panicked o)
  after (call_add_asymmetric id alg priv pub_key now) r =
      let (r', o) = add_asymmetric encode id alg priv pub_key now r in (r', is_panicked o)
  after (call_promote id) r = let (r', o) = promote id r in (r', is_panicked o)
  after (call_retire id now) r = let (r', o) = retire id now r in (r', is_panicked o)

  unfoldable pub run : List (Call S P) → KeyRing S P → KeyRing S P × Bool
  unfolding after
  run [] r = (r, false)
  run (c ∷ calls) r = let (r', p) = after c r in let (r'', q) = run calls r' in (r'', p || q)

not_panicked {ℓ} : {A : Type ℓ} (o : Outcome A) → o ≢ panicked → is_panicked o ≡ false
not_panicked (done a) h = refl
not_panicked refused h = refl
not_panicked panicked h = absurd (h refl)

module _ {S P : Type 0} (encode : Alg → Text → Option Text) where
  pub after-IsValid :
      (c : Call S P) (r : KeyRing S P)
      → IsValid r
      → IsValid (after encode c r).0 × ((after encode c r).1 ≡ false)
  unfolding after
  after-IsValid (call_add id secret now) r v =
      let (w, n) = add-IsValid encode id secret now r v in (w, not_panicked _ n)
  after-IsValid (call_add_asymmetric id alg priv pub_key now) r v =
      let (w, n) = add_asymmetric-IsValid encode id alg priv pub_key now r v in
      (w, not_panicked _ n)
  after-IsValid (call_promote id) r v = let (w, n) = promote-IsValid id r v in (w, not_panicked _ n)
  after-IsValid (call_retire id now) r v =
      (retire-IsValid id now r v, not_panicked _ (retire_not_panicked id now r))

  -- A run of these methods from a valid ring leaves a valid ring and does not panic.
  pub run_never_panics :
      (calls : List (Call S P)) (r : KeyRing S P)
      → IsValid r
      → IsValid (run encode calls r).0 × ((run encode calls r).1 ≡ false)
  unfolding run
  run_never_panics [] r v = (v, refl)
  run_never_panics (c ∷ calls) r v =
      let (w, p) = after-IsValid c r v in
      let (w', q) = run_never_panics calls (after encode c r).0 w in (w', rw (p, run, q) refl)
