-- ===== src/Auth/Refresh.antt =====
-- auth/refresh_store.go: which refresh tokens were redeemed and which families of them are revoked,
-- each until a time. The clock's reading is an argument of each method, and times are numbers of
-- nanoseconds. The background pruner only does at other times what each method does first.
pub mod Reuse
pub mod Revocation
pub mod Exactly
use parsec.Common.{
  ℕ, Bool, true, false, not, ◌||◌, List, [], ◌∷◌, Option, none, some, if◌then◌else◌, ltb, Text, Map,
  lookup, insert, update_all,
}

pub record MemoryRefreshStore : Type 0 where
  pub redeemed : Map ℕ
  pub revoked : Map ℕ

-- What one round of either loop of `pruneLocked` leaves of a record.
unfoldable pub unexpired : ℕ → ℕ → Option ℕ
unexpired now exp = if ltb now exp then some exp else none

-- `MemoryRefreshStore.pruneLocked`
unfoldable pub prune_locked : ℕ → MemoryRefreshStore → MemoryRefreshStore
unfolding unexpired
prune_locked now s = record {
  redeemed = update_all (unexpired now) s.redeemed;
  revoked = update_all (unexpired now) s.revoked;
}

-- The error of `MarkRedeemed`.
pub data Redemption : Type 0 where
  redeemed_now err_refresh_reused : Redemption

-- `existing, ok := s.redeemed[jti]; ok && existing.After(now)`
unfoldable pub still_redeemed : ℕ → Option ℕ → Bool
still_redeemed now none = false
still_redeemed now (some existing) = ltb now existing

-- `MemoryRefreshStore.MarkRedeemed`
unfoldable pub mark_redeemed : Text → ℕ → ℕ → MemoryRefreshStore → MemoryRefreshStore × Redemption
unfolding prune_locked still_redeemed
mark_redeemed jti exp now s =
    let s' = prune_locked now s in
    if not (ltb now exp)
    then (s, redeemed_now)
    else if still_redeemed now (lookup jti s'.redeemed)
    then (s', err_refresh_reused)
    else (record s' { redeemed = insert jti exp s'.redeemed }, redeemed_now)

-- `existing, ok := s.revoked[fid]; !ok || exp.After(existing)`
unfoldable pub extends : ℕ → Option ℕ → Bool
extends exp none = true
extends exp (some existing) = ltb existing exp

-- `MemoryRefreshStore.RevokeFamily`
unfoldable pub revoke_family : Text → ℕ → ℕ → MemoryRefreshStore → MemoryRefreshStore
unfolding prune_locked extends
revoke_family fid exp now s =
    let s' = prune_locked now s in
    if not (ltb now exp)
    then s
    else if extends exp (lookup fid s'.revoked)
    then record s' { revoked = insert fid exp s'.revoked }
    else s'

-- `MemoryRefreshStore.IsFamilyRevoked`
unfoldable pub is_family_revoked : Text → ℕ → MemoryRefreshStore → MemoryRefreshStore × Bool
unfolding prune_locked
is_family_revoked fid now s =
    let s' = prune_locked now s in
    (s', elim (lookup fid s'.revoked) [ none ↦ false | some exp ↦ ltb now exp ])
