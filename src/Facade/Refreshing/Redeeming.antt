-- ===== src/Facade/Refreshing/Redeeming.antt =====
-- What an attempt to exchange a refresh token does to the refresh store.

use parsec.Auth.Refresh.Reuse.{
  Call, call_is_revoked, after, run, IsValid, after-IsValid, reuse_is_detected,
}
use parsec.Auth.Refresh.{
  MemoryRefreshStore, Redemption, redeemed_now, err_refresh_reused, mark_redeemed, revoke_family,
  is_family_revoked,
}
use parsec.Auth.Signer.{Payload}
use parsec.Common.{
  ℕ, ◌<◌, true, false, List, [], ◌∷◌, ◌++◌, ◌≡◌, ◌⊎◌, inl, inr, refl, sym, All, All-append,
  Bool-cases,
}
use parsec.Facade.Refreshing.{expires_at, redeem}

pub Redemption-cases : (r : Redemption) → (r ≡ redeemed_now) ⊎ (r ≡ err_refresh_reused)
Redemption-cases redeemed_now = inl refl
Redemption-cases err_refresh_reused = inr refl

-- The store that the family check leaves.
abbrev pub checked : ℕ → Payload → MemoryRefreshStore → MemoryRefreshStore
checked now c s = (is_family_revoked c.fid now s).0

redeem_inv :
    (now : ℕ) (c : Payload) (s : MemoryRefreshStore)
    → (redeem now c s).1 ≡ true
    → ((mark_redeemed c.jti (expires_at c) now (checked now c s)).1 ≡ redeemed_now)
      × ((redeem now c s).0 ≡ (mark_redeemed c.jti (expires_at c) now (checked now c s)).0)
unfolding redeem
redeem_inv now c s h = elim (Bool-cases (is_family_revoked c.fid now s).1) [
  | inl e ↦ absurd (cc (rw (e, redeem) at h))
  | inr e ↦ elim (Redemption-cases (mark_redeemed c.jti (expires_at c) now (checked now c s)).1) [
    | inl f ↦ (f, rw (e, redeem, f) refl)
    | inr f ↦ absurd (cc (rw (redeem, e, f) at h))
  ]
]

pub redeem_of_revoked :
    (now : ℕ) (c : Payload) (s : MemoryRefreshStore)
    → (is_family_revoked c.fid now s).1 ≡ true
    → (redeem now c s).1 ≡ false
unfolding redeem
redeem_of_revoked now c s e = rw (e, redeem) refl

pub redeem_of_reused :
    (now : ℕ) (c : Payload) (s : MemoryRefreshStore)
    → (mark_redeemed c.jti (expires_at c) now (checked now c s)).1 ≡ err_refresh_reused
    → (redeem now c s).1 ≡ false
unfolding redeem
redeem_of_reused now c s f = elim (Bool-cases (is_family_revoked c.fid now s).1) [
  | inl e ↦ rw (e, redeem) refl
  | inr e ↦ rw (e, redeem, f) refl
]

pub redeem_closes :
    (now : ℕ) (c : Payload) (s : MemoryRefreshStore)
    → (is_family_revoked c.fid now s).1 ≡ false
    → (mark_redeemed c.jti (expires_at c) now (checked now c s)).1 ≡ err_refresh_reused
    → (redeem now c s).0
      ≡ revoke_family c.fid
          (expires_at c)
          now
          (mark_redeemed c.jti (expires_at c) now (checked now c s)).0
unfolding redeem
redeem_closes now c s e f = rw (e, redeem, f) refl

pub run-append :
    (calls calls' : List (ℕ × Call)) (s : MemoryRefreshStore)
    → run (calls ++ calls') s ≡ run calls' (run calls s)
unfolding run
run-append [] calls' s = refl
run-append ((now, c) ∷ calls) calls' s = run-append calls calls' (after c now s)

pub checked-run :
    (now : ℕ) (c : Payload) (calls : List (ℕ × Call)) (s : MemoryRefreshStore)
    → checked now c (run calls s) ≡ run (calls ++ (now, call_is_revoked c.fid) ∷ []) s
unfolding run after
checked-run now c calls s = sym (run-append calls ((now, call_is_revoked c.fid) ∷ []) s)

pub checked-IsValid :
    (now : ℕ) (c : Payload) (s : MemoryRefreshStore) → IsValid s → IsValid (checked now c s)
unfolding after is_family_revoked
checked-IsValid now c s v = after-IsValid (call_is_revoked c.fid) now s v

-- What holds once the store has let the claims through: later attempts are reported as reused.
pub reused_later :
    (now later : ℕ) (c : Payload) (calls : List (ℕ × Call)) (s : MemoryRefreshStore)
    → IsValid s
    → now < expires_at c
    → (redeem now c s).1 ≡ true
    → All (λ x. x.0 < expires_at c) calls
    → later < expires_at c
    → (mark_redeemed c.jti (expires_at c) later (checked later c (run calls (redeem now c s).0))).1
      ≡ err_refresh_reused
reused_later now later c calls s v ahead h before l =
    let (first, left) = redeem_inv now c s h in
    let start = (mark_redeemed c.jti (expires_at c) now (checked now c s)).0 in
    let v' = checked-IsValid now c s v in
    let all =
      All-append (λ x. x.0 < expires_at c) calls ((later, call_is_revoked c.fid) ∷ []) before
        (l, tt) in
    let seen =
      reuse_is_detected c.jti (expires_at c) now (checked now c s)
        (calls ++ (later, call_is_revoked c.fid) ∷ []) (expires_at c) later v' ahead first all l
        l in
    rw (left, checked-run later c calls start) seen
