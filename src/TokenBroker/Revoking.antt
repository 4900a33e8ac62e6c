-- ===== src/TokenBroker/Revoking.antt =====
-- How long a revocation holds.
use mathlib.Core.Option
use parsec.Common.{
  ℕ, ◌+◌, ◌≤◌, true, false, List, [], ◌∷◌, some, ◌≡◌, ◌≢◌, inl, inr, refl, ◌∙◌, arith, ltb, All,
  Text, text_eq, text_eq_iff, Text-discrete, lookup, Distinct, lookup-update_all,
  update_all-Distinct, insert-Distinct, lookup-insert_self, lookup-insert_ne, ℤ, pos_part, neg_part,
  Bool-cases,
}
use parsec.TokenBroker.{
  Revocation, MemoryRevocations, revoke, revoke_all_for_user, is_revoked, is_user_revoked,
  young_revocation, young_cutoff, prune, is_aged,
}

-- The methods that write, with the time of the call apart.
pub data Call : Type 0 where
  call_revoke : Text → Text → Text → Call
  call_revoke_all : Text → Call
  call_prune : Call

unfoldable pub after : Call → ℕ → MemoryRevocations → MemoryRevocations
after (call_revoke token_id user_id reason) now m = (revoke token_id user_id reason now m).0
after (call_revoke_all user_id) now m = (revoke_all_for_user user_id now m).0
after call_prune now m = prune now m

unfoldable pub run : List (ℕ × Call) → MemoryRevocations → MemoryRevocations
run [] m = m
run ((now, c) ∷ calls) m = run calls (after c now m)

-- Both maps are maps.
abbrev pub IsValid : MemoryRevocations → Type 0
IsValid m = Distinct m.by_token × Distinct m.by_user_at

-- A record of a revocation at `t` or later.
abbrev Since : Text → ℕ → MemoryRevocations → Type 0
Since id t m = (r : Revocation) × (lookup id m.by_token ≡ some r) × (t ≤ r.at_time)

abbrev SinceUser : Text → ℕ → MemoryRevocations → Type 0
SinceUser id t m = (cutoff : ℕ) × (lookup id m.by_user_at ≡ some cutoff) × (t ≤ cutoff)

-- Times at which a revocation at `t` is not aged.
abbrev pub IsWithin : ℕ → ℕ → ℤ → Type 0
IsWithin now t max_ttl = (t ≤ now) × (now + neg_part max_ttl ≤ t + pos_part max_ttl)

not_aged :
    (now t at_time : ℕ) (max_ttl : ℤ)
    → IsWithin now t max_ttl
    → t ≤ at_time
    → is_aged now max_ttl at_time ≡ false
not_aged now t at_time max_ttl (h, l) k = ground arith

after-IsValid : (c : Call) (now : ℕ) (m : MemoryRevocations) → IsValid m → IsValid (after c now m)
unfolding after revoke revoke_all_for_user prune
after-IsValid (call_revoke token_id user_id reason) now m (a, b) =
    elim (Bool-cases (text_eq token_id [])) [
      | inl e ↦ rw (after, e, revoke) (a, b)
      | inr e ↦ rw (after, e, revoke) (insert-Distinct token_id _ m.by_token a, b)
    ]
after-IsValid (call_revoke_all user_id) now m (a, b) = elim (Bool-cases (text_eq user_id [])) [
  | inl e ↦ rw (after, e, revoke_all_for_user) (a, b)
  | inr e ↦ rw (after, e, revoke_all_for_user) (a, insert-Distinct user_id now m.by_user_at b)
]
after-IsValid call_prune now m (a, b) =
    (update_all-Distinct _ m.by_token a, update_all-Distinct _ m.by_user_at b)

max_ttl-after : (c : Call) (now : ℕ) (m : MemoryRevocations) → (after c now m).max_ttl ≡ m.max_ttl
unfolding after revoke revoke_all_for_user prune
max_ttl-after (call_revoke token_id user_id reason) now m =
    elim (Bool-cases (text_eq token_id [])) [
      | inl e ↦ rw (after, e, revoke) refl
      | inr e ↦ rw (after, e, revoke) refl
    ]
max_ttl-after (call_revoke_all user_id) now m = elim (Bool-cases (text_eq user_id [])) [
  | inl e ↦ rw (after, e, revoke_all_for_user) refl
  | inr e ↦ rw (after, e, revoke_all_for_user) refl
]
max_ttl-after call_prune now m = refl

after-Since :
    (id : Text) (t : ℕ) (c : Call) (now : ℕ) (m : MemoryRevocations)
    → IsValid m
    → IsWithin now t m.max_ttl
    → Since id t m
    → Since id t (after c now m)
unfolding after revoke revoke_all_for_user prune Option.bind young_revocation
after-Since id t (call_revoke token_id user_id reason) now m v w (r, e, l) =
    let revoked : Revocation = record { user_id = user_id; reason = reason; at_time = now } in
    elim (Bool-cases (text_eq token_id [])) [
      | inl x ↦ rw (after, x, revoke) (r, e, l)
      | inr x ↦
          rw (after, x, revoke)
            (elim (Text-discrete token_id id) [
              | yes p ↦ (revoked, rw p (lookup-insert_self id revoked m.by_token), w.0)
              | no p ↦ (r, lookup-insert_ne token_id id revoked m.by_token p ∙ e, l)
            ])
    ]
after-Since id t (call_revoke_all user_id) now m v w (r, e, l) =
    elim (Bool-cases (text_eq user_id [])) [
      | inl x ↦ rw (after, x, revoke_all_for_user) (r, e, l)
      | inr x ↦ rw (after, x, revoke_all_for_user) (r, e, l)
    ]
after-Since id t call_prune now m v w (r, e, l) =
    let young = not_aged now t r.at_time m.max_ttl w l in
    (
      r,
      lookup-update_all (young_revocation now m.max_ttl) id m.by_token v.0
          ∙ (rw (e, young_revocation, young) refl),
      l,
    )

after-SinceUser :
    (id : Text) (t : ℕ) (c : Call) (now : ℕ) (m : MemoryRevocations)
    → IsValid m
    → IsWithin now t m.max_ttl
    → SinceUser id t m
    → SinceUser id t (after c now m)
unfolding after revoke revoke_all_for_user prune Option.bind young_cutoff
after-SinceUser id t (call_revoke token_id user_id reason) now m v w (r, e, l) =
    elim (Bool-cases (text_eq token_id [])) [
      | inl x ↦ rw (after, x, revoke) (r, e, l)
      | inr x ↦ rw (after, x, revoke) (r, e, l)
    ]
after-SinceUser id t (call_revoke_all user_id) now m v w (r, e, l) =
    elim (Bool-cases (text_eq user_id [])) [
      | inl x ↦ rw (after, x, revoke_all_for_user) (r, e, l)
      | inr x ↦
          rw (after, x, revoke_all_for_user)
            (elim (Text-discrete user_id id) [
              | yes p ↦ (now, rw p (lookup-insert_self id now m.by_user_at), w.0)
              | no p ↦ (r, lookup-insert_ne user_id id now m.by_user_at p ∙ e, l)
            ])
    ]
after-SinceUser id t call_prune now m v w (r, e, l) =
    let young = not_aged now t r m.max_ttl w l in
    (
      r,
      lookup-update_all (young_cutoff now m.max_ttl) id m.by_user_at v.1
          ∙ (rw (e, young_cutoff, young) refl),
      l,
    )

run_keeps_Since :
    (id user : Text) (t : ℕ) (calls : List (ℕ × Call)) (m : MemoryRevocations)
    → IsValid m
    → All (λ c. IsWithin c.0 t m.max_ttl) calls
    → (Since id t m → Since id t (run calls m))
      × (SinceUser user t m → SinceUser user t (run calls m))
      × ((run calls m).max_ttl ≡ m.max_ttl)
unfolding run
run_keeps_Since id user t [] m v w = (λ h. h, λ h. h, refl)
run_keeps_Since id user t ((now, c) ∷ calls) m v (w, ws) =
    let same = max_ttl-after c now m in
    let (a, b, d) =
      run_keeps_Since id user t calls (after c now m) (after-IsValid c now m v) (rw same ws) in
    (
      λ h. a (after-Since id t c now m v w h),
      λ h. b (after-SinceUser user t c now m v w h),
      d ∙ same,
    )

-- In a store where no key stands twice, a token that was revoked by a named id is reported as revoked,
-- whatever revocations and prunings come between, at every time up to MaxTTL after its revocation.
pub revoked_token_is_reported :
    (id user reason : Text) (t : ℕ) (m : MemoryRevocations) (calls : List (ℕ × Call)) (now : ℕ)
    → id ≢ []
    → IsValid m
    → All (λ c. IsWithin c.0 t m.max_ttl) calls
    → IsWithin now t m.max_ttl
    → is_revoked id now (run calls (revoke id user reason t m).0) ≡ true
unfolding revoke is_revoked after
revoked_token_is_reported id user reason t m calls now named v w w' =
    let unnamed : text_eq id [] ≡ false = ground (arith, text_eq_iff id []) in
    let m' = (revoke id user reason t m).0 in
    let start : (Since id t m') × (m'.max_ttl ≡ m.max_ttl) =
      rw (unnamed, revoke) ((_, lookup-insert_self id _ m.by_token, omega arith), refl) in
    let (a, _, d) =
      run_keeps_Since id [] t calls m' (after-IsValid (call_revoke id user reason) t m v)
        (rw start.1 w) in
    let (r, e, l) = a start.0 in
    rw (e, is_revoked, not_aged now t r.at_time (run calls m').max_ttl (rw (d ∙ start.1) w') l) refl

-- In a store where no key stands twice, every token that was issued to a user up to the time at which all
-- of the user's tokens were revoked is reported as revoked, whatever revocations and prunings come
-- between, at every time up to MaxTTL after that.
revoked_user_is_reported :
    (user : Text) (t issued_at : ℕ) (m : MemoryRevocations) (calls : List (ℕ × Call)) (now : ℕ)
    → user ≢ []
    → issued_at ≤ t
    → IsValid m
    → All (λ c. IsWithin c.0 t m.max_ttl) calls
    → IsWithin now t m.max_ttl
    → is_user_revoked user issued_at now (run calls (revoke_all_for_user user t m).0) ≡ true
unfolding revoke_all_for_user is_user_revoked after
revoked_user_is_reported user t issued_at m calls now named before v w w' =
    let unnamed : text_eq user [] ≡ false = ground (arith, text_eq_iff user []) in
    let m' = (revoke_all_for_user user t m).0 in
    let start : (SinceUser user t m') × (m'.max_ttl ≡ m.max_ttl) =
      rw (unnamed, revoke_all_for_user)
        ((t, lookup-insert_self user t m.by_user_at, omega arith), refl) in
    let (_, b, d) =
      run_keeps_Since [] user t calls m' (after-IsValid (call_revoke_all user) t m v)
        (rw start.1 w) in
    let (cutoff, e, l) = b start.0 in
    let covered : ltb cutoff issued_at ≡ false = ground arith in
    rw
      (
        e,
        is_user_revoked,
        not_aged now t cutoff (run calls m').max_ttl (rw (d ∙ start.1) w') l,
        covered,
      )
      refl
