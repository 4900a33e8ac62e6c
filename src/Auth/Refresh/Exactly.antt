-- ===== src/Auth/Refresh/Exactly.antt =====
-- When a family is revoked, exactly.
use mathlib.Core.Option
use parsec.Auth.Refresh.Reuse.{
  Call, call_mark, call_revoke, call_is_revoked, after, run, IsValid, Lasts, lt→ltb, prune-Lasts,
  mark_cases, after-IsValid,
}
use parsec.Auth.Refresh.Revocation.{after-Lasts, revoked_now}
use parsec.Auth.Refresh.{
  MemoryRefreshStore, unexpired, prune_locked, mark_redeemed, extends, revoke_family,
  is_family_revoked,
}
use parsec.Common.{
  ℕ, suc, ◌≤◌, ◌<◌, true, false, List, [], ◌∷◌, ◌≡◌, ◌↔◌, ◌⊎◌, inl, inr, refl, sym, ◌∙◌, arith, ltb,
  All, Any, Text, lookup, insert, update_all, Distinct, lookup-update_all, lookup-insert_cases,
  Bool-cases, Option-cases, Map,
}

-- The call at time `now` revokes the family until a time behind `later`.
abbrev pub Revokes : Text → ℕ → ℕ × Call → Type 0
Revokes fid later (now, call_revoke fid' exp) = (fid' ≡ fid) × (now < exp) × (later < exp)
Revokes fid later (now, call_mark jti exp) = ⊥
Revokes fid later (now, call_is_revoked fid') = ⊥

-- Pruning adds no record.
prune_back :
    (now t : ℕ) (key : Text) (m : Map ℕ)
    → Distinct m
    → Lasts key t (update_all (unexpired now) m)
    → Lasts key t m
unfolding Option.bind unexpired
prune_back now t key m d (exp, e, l) =
    let whole = sym (lookup-update_all (unexpired now) key m d) ∙ e in
    elim (Option-cases (lookup key m)) [
      | inl f ↦ absurd (cc (rw f at whole))
      | inr (old, f) ↦ elim (Bool-cases (ltb now old)) [
        | inl g ↦ (old, f, let same : old ≡ exp = cc (rw (f, g) at whole) in omega arith)
        | inr g ↦ absurd (cc (rw (f, g) at whole))
      ]
    ]

beyond : (later exp held : ℕ) → exp ≡ held → suc later ≤ held → later < exp
beyond later exp held e l = omega arith

mark_back :
    (fid : Text) (later now : ℕ) (jti : Text) (exp : ℕ) (s : MemoryRefreshStore)
    → IsValid s
    → Lasts fid (suc later) (mark_redeemed jti exp now s).0.revoked
    → Lasts fid (suc later) s.revoked
unfolding prune_locked
mark_back fid later now jti exp s v h = elim (mark_cases jti exp now s) [
  | inl (e, _) ↦ rw e at h
  | inr (inl (e, _, _)) ↦ prune_back now (suc later) fid s.revoked v.1 (rw e at h)
  | inr (inr (e, _, _)) ↦ prune_back now (suc later) fid s.revoked v.1 (rw e at h)
]

-- What `RevokeFamily` leaves of the revoked families.
revoke_cases :
    (fid : Text) (exp now : ℕ) (s : MemoryRefreshStore)
    → ((revoke_family fid exp now s).revoked ≡ s.revoked)
      ⊎ ((revoke_family fid exp now s).revoked ≡ (prune_locked now s).revoked)
      ⊎ ((now < exp)
          × ((revoke_family fid exp now s).revoked ≡ insert fid exp (prune_locked now s).revoked))
unfolding revoke_family
revoke_cases fid exp now s = elim (Bool-cases (ltb now exp)) [
  | inr x ↦ inl (rw (x, revoke_family) refl)
  | inl x ↦ elim (Bool-cases (extends exp (lookup fid (prune_locked now s).revoked))) [
    | inl y ↦ inr (inr (ground arith, rw (x, revoke_family, y) refl))
    | inr y ↦ inr (inl (rw (x, revoke_family, y) refl))
  ]
]

moved_record : (key : Text) (t : ℕ) (m m' : Map ℕ) → m ≡ m' → Lasts key t m → Lasts key t m'
moved_record key t m m' e l = rw (← e) l

revoke_back :
    (fid : Text) (later now : ℕ) (fid' : Text) (exp : ℕ) (s : MemoryRefreshStore)
    → IsValid s
    → Lasts fid (suc later) (revoke_family fid' exp now s).revoked
    → Lasts fid (suc later) s.revoked ⊎ Revokes fid later (now, call_revoke fid' exp)
unfolding prune_locked
revoke_back fid later now fid' exp s v h = elim (revoke_cases fid' exp now s) [
  | inl e ↦ inl (moved_record fid (suc later) _ _ e h)
  | inr (inl e) ↦
      inl (prune_back now (suc later) fid s.revoked v.1 (moved_record fid (suc later) _ _ e h))
  | inr (inr (ahead, e)) ↦
      let (held, found, long) = moved_record fid (suc later) _ _ e h in
      elim (lookup-insert_cases fid' fid exp held _ found) [
        | inl (p, q) ↦ inr (p, ahead, beyond later exp held q long)
        | inr (p, q) ↦ inl (prune_back now (suc later) fid s.revoked v.1 (held, q, long))
      ]
]

after_back :
    (fid : Text) (later now : ℕ) (c : Call) (s : MemoryRefreshStore)
    → IsValid s
    → Lasts fid (suc later) (after c now s).revoked
    → Lasts fid (suc later) s.revoked ⊎ Revokes fid later (now, c)
unfolding after is_family_revoked prune_locked
after_back fid later now (call_is_revoked fid') s v h =
    inl (prune_back now (suc later) fid s.revoked v.1 h)
after_back fid later now (call_mark jti exp) s v h = inl (mark_back fid later now jti exp s v h)
after_back fid later now (call_revoke fid' exp) s v h = revoke_back fid later now fid' exp s v h

after_forth :
    (fid : Text) (later now : ℕ) (c : Call) (s : MemoryRefreshStore)
    → IsValid s
    → now ≤ later
    → Lasts fid (suc later) s.revoked ⊎ Revokes fid later (now, c)
    → Lasts fid (suc later) (after c now s).revoked
unfolding after
after_forth fid later now c s v b (inl l) = after-Lasts fid (suc later) now c s v (omega arith) l
after_forth fid later now (call_revoke fid' exp) s v b (inr (p, ahead, long)) =
    let (held, found, l) = revoked_now fid' exp now s ahead in rw (← p) (held, found, omega arith)
after_forth fid later now (call_mark jti exp) s v b (inr x) = absurd x
after_forth fid later now (call_is_revoked fid') s v b (inr x) = absurd x

run_exactly :
    (fid : Text) (later : ℕ) (calls : List (ℕ × Call)) (s : MemoryRefreshStore)
    → IsValid s
    → All (λ c. c.0 ≤ later) calls
    → (Lasts fid (suc later) (run calls s).revoked
        ↔ (Lasts fid (suc later) s.revoked ⊎ Any (Revokes fid later) calls))
      × IsValid (run calls s)
unfolding run
run_exactly fid later [] s v b = ((inl, λ x. elim x [ inl y ↦ y | inr z ↦ absurd z ]), v)
run_exactly fid later ((now, c) ∷ calls) s v (b, bs) =
    let ((back, forth), v') =
      run_exactly fid later calls (after c now s) (after-IsValid c now s v) bs in
    (
      (
        λ l. elim (back l) [
          | inr z ↦ inr (inr z)
          | inl y ↦ elim (after_back fid later now c s v y) [ inl x ↦ inl x | inr x ↦ inr (inl x) ]
        ],
        λ x. elim x [
          | inl y ↦ forth (inl (after_forth fid later now c s v b (inl y)))
          | inr y ↦ elim y [
            | inl z ↦ forth (inl (after_forth fid later now c s v b (inr z)))
            | inr z ↦ forth (inr z)
          ]
        ],
      ),
      v',
    )

revoked-Lasts :
    (fid : Text) (later : ℕ) (s : MemoryRefreshStore)
    → IsValid s
    → ((is_family_revoked fid later s).1 ≡ true) ↔ Lasts fid (suc later) s.revoked
unfolding is_family_revoked prune_locked
revoked-Lasts fid later s v = (
  λ h. elim (Option-cases (lookup fid (prune_locked later s).revoked)) [
    | inl e ↦ absurd (cc (rw (is_family_revoked, e) at h))
    | inr (exp, e) ↦
        let ahead : ltb later exp ≡ true = rw (is_family_revoked, e) at h in
        prune_back later (suc later) fid s.revoked v.1 (exp, e, ground arith)
  ],
  λ l.
      let (exp, found, long) = prune-Lasts later (suc later) fid s.revoked v.1 (omega arith) l in
      rw (found, is_family_revoked) (lt→ltb later exp (omega arith)),
)

-- In a store where no key stands twice, and that holds no revocation of the family which lasts beyond
-- the time, the family is reported revoked after a list of calls at times up to that one exactly if
-- one of these calls revoked it, until a time that was ahead of the call and is ahead of the check.
pub revoked_iff :
    (fid : Text) (later : ℕ) (calls : List (ℕ × Call)) (s : MemoryRefreshStore)
    → IsValid s
    → (is_family_revoked fid later s).1 ≡ false
    → All (λ c. c.0 ≤ later) calls
    → ((is_family_revoked fid later (run calls s)).1 ≡ true) ↔ Any (Revokes fid later) calls
revoked_iff fid later calls s v none_yet b =
    let ((back, forth), v') = run_exactly fid later calls s v b in
    let (r, r') = revoked-Lasts fid later (run calls s) v' in
    (
      λ h. elim (back (r h)) [
        | inl l ↦ absurd (cc (none_yet, (revoked-Lasts fid later s v).1 l))
        | inr x ↦ x
      ],
      λ x. r' (forth (inr x)),
    )
