-- ===== src/Auth/Refresh/Revocation.antt =====
-- A revoked family stays revoked until the time given.
use parsec.Auth.Refresh.Reuse.{
  Call, call_mark, call_revoke, call_is_revoked, after, run, IsValid, Lasts, lt→ltb, prune-Lasts,
  mark_cases, revoke-IsValid, after-IsValid,
}
use parsec.Auth.Refresh.{
  MemoryRefreshStore, prune_locked, mark_redeemed, extends, revoke_family, is_family_revoked,
}
use parsec.Common.{
  ℕ, ◌<◌, true, List, [], ◌∷◌, ◌≡◌, inl, inr, ◌∙◌, arith, some, ltb, All, Text, Text-discrete,
  lookup, insert, lookup-insert_self, lookup-insert_ne, Bool-cases, Option-cases, Map,
}

mark_keeps_revoked :
    (key jti : Text) (exp now t : ℕ) (s : MemoryRefreshStore)
    → IsValid s
    → now < t
    → Lasts key t s.revoked
    → Lasts key t (mark_redeemed jti exp now s).0.revoked
unfolding prune_locked
mark_keeps_revoked key jti exp now t s v h l =
    let p = prune-Lasts now t key s.revoked v.1 h l in
    elim (mark_cases jti exp now s) [
      | inl (e, _) ↦ rw e l
      | inr (inl (e, _, _)) ↦ rw e p
      | inr (inr (e, _, _)) ↦ rw e p
    ]

-- A write that the guard of `RevokeFamily` lets through shortens no record.
extend-Lasts :
    (key fid : Text) (exp t : ℕ) (m : Map ℕ)
    → extends exp (lookup fid m) ≡ true
    → Lasts key t m
    → Lasts key t (insert fid exp m)
unfolding extends
extend-Lasts key fid exp t m longer (old, e, l) = elim (Text-discrete fid key) [
  | no q ↦ (old, lookup-insert_ne fid key exp m q ∙ e, l)
  | yes q ↦
      let found : lookup fid m ≡ some old = rw q e in
      let more : ltb old exp ≡ true = rw (found, extends) at longer in
      (exp, rw q (lookup-insert_self key exp m), ground arith)
]

revoke-Lasts :
    (key fid : Text) (exp now t : ℕ) (s : MemoryRefreshStore)
    → IsValid s
    → now < t
    → Lasts key t s.revoked
    → Lasts key t (revoke_family fid exp now s).revoked
unfolding revoke_family prune_locked
revoke-Lasts key fid exp now t s v h l =
    let p = prune-Lasts now t key s.revoked v.1 h l in
    elim (Bool-cases (ltb now exp)) [
      | inr x ↦ rw (x, revoke_family) l
      | inl x ↦ elim (Bool-cases (extends exp (lookup fid (prune_locked now s).revoked))) [
        | inl y ↦ rw (x, revoke_family, y) (extend-Lasts key fid exp t _ y p)
        | inr y ↦ rw (x, revoke_family, y) p
      ]
    ]

pub after-Lasts :
    (key : Text) (t now : ℕ) (c : Call) (s : MemoryRefreshStore)
    → IsValid s
    → now < t
    → Lasts key t s.revoked
    → Lasts key t (after c now s).revoked
unfolding after is_family_revoked prune_locked
after-Lasts key t now (call_mark jti exp) s v b l = mark_keeps_revoked key jti exp now t s v b l
after-Lasts key t now (call_revoke fid exp) s v b l = revoke-Lasts key fid exp now t s v b l
after-Lasts key t now (call_is_revoked fid) s v b l = prune-Lasts now t key s.revoked v.1 b l

run-Lasts :
    (key : Text) (t : ℕ) (calls : List (ℕ × Call)) (s : MemoryRefreshStore)
    → IsValid s
    → All (λ c. c.0 < t) calls
    → Lasts key t s.revoked
    → Lasts key t (run calls s).revoked × IsValid (run calls s)
unfolding run
run-Lasts key t [] s v b l = (l, v)
run-Lasts key t ((now, c) ∷ calls) s v (b, bs) l =
    run-Lasts key t calls (after c now s) (after-IsValid c now s v) bs
      (after-Lasts key t now c s v b l)

pub revoked_now :
    (fid : Text) (exp now : ℕ) (s : MemoryRefreshStore)
    → now < exp
    → Lasts fid exp (revoke_family fid exp now s).revoked
unfolding revoke_family
revoked_now fid exp now s h =
    let x = lt→ltb now exp h in
    elim (Option-cases (lookup fid (prune_locked now s).revoked)) [
      | inl e ↦ rw (x, revoke_family, e, extends) (exp, lookup-insert_self fid exp _, omega arith)
      | inr (old, e) ↦ elim (Bool-cases (ltb old exp)) [
        | inl y ↦
            rw (x, revoke_family, e, extends, y) (exp, lookup-insert_self fid exp _, omega arith)
        | inr y ↦ rw (x, revoke_family, e, extends, y) (old, e, ground arith)
      ]
    ]

-- In a store where no key stands twice, a family that was revoked until a time ahead is reported
-- revoked by every check before that time, whatever calls come between before that time, other
-- revocations of the family included.
pub revocation_lasts :
    (fid : Text) (exp now : ℕ) (s : MemoryRefreshStore) (calls : List (ℕ × Call)) (later : ℕ)
    → IsValid s
    → now < exp
    → All (λ c. c.0 < exp) calls
    → later < exp
    → (is_family_revoked fid later (run calls (revoke_family fid exp now s))).1 ≡ true
unfolding is_family_revoked prune_locked
revocation_lasts fid exp now s calls later v h bs l =
    let (there, v') =
      run-Lasts fid exp calls _ (revoke-IsValid fid exp now s v) bs (revoked_now fid exp now s h) in
    let (until, found, long) =
      prune-Lasts later exp fid (run calls (revoke_family fid exp now s)).revoked v'.1 l there in
    rw (found, is_family_revoked) (lt→ltb later until (omega arith))
