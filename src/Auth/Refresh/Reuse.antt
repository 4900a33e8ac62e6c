-- ===== src/Auth/Refresh/Reuse.antt =====
-- A token is redeemed once, and a family stays revoked, until the times given.
use mathlib.Core.Option
use parsec.Auth.Refresh.{
  MemoryRefreshStore, unexpired, prune_locked, redeemed_now, err_refresh_reused, still_redeemed,
  mark_redeemed, extends, revoke_family, is_family_revoked,
}
use parsec.Common.{
  ℕ, ◌≤◌, ◌<◌, true, false, List, [], ◌∷◌, ◌≡◌, ◌≢◌, ◌⊎◌, inl, inr, refl, sym, ◌∙◌, arith, some,
  ltb, All, Text, lookup, insert, update_all, Distinct, lookup-update_all, update_all-Distinct,
  lookup-insert_self, lookup-insert_ne, insert-Distinct, Bool-cases, Map,
}

-- The methods, with the time of the call apart.
pub data Call : Type 0 where
  call_mark call_revoke : Text → ℕ → Call
  call_is_revoked : Text → Call

unfoldable pub after : Call → ℕ → MemoryRefreshStore → MemoryRefreshStore
after (call_mark jti exp) now s = (mark_redeemed jti exp now s).0
after (call_revoke fid exp) now s = revoke_family fid exp now s
after (call_is_revoked fid) now s = (is_family_revoked fid now s).0

unfoldable pub run : List (ℕ × Call) → MemoryRefreshStore → MemoryRefreshStore
run [] s = s
run ((now, c) ∷ calls) s = run calls (after c now s)

-- Both maps are maps.
abbrev pub IsValid : MemoryRefreshStore → Type 0
IsValid s = Distinct s.redeemed × Distinct s.revoked

-- A record that lasts until `t` at least.
abbrev pub Lasts : Text → ℕ → Map ℕ → Type 0
Lasts key t m = (exp : ℕ) × (lookup key m ≡ some exp) × (t ≤ exp)

pub lt→ltb : (a b : ℕ) → a < b → ltb a b ≡ true
lt→ltb a b h = ground arith

lookup-prune :
    (now : ℕ) (key : Text) (m : Map ℕ)
    → Distinct m
    → lookup key (update_all (unexpired now) m) ≡ Option.bind (lookup key m) (unexpired now)
lookup-prune now key m d = lookup-update_all (unexpired now) key m d

pub prune-Lasts :
    (now t : ℕ) (key : Text) (m : Map ℕ)
    → Distinct m
    → now < t
    → Lasts key t m
    → Lasts key t (update_all (unexpired now) m)
unfolding Option.bind unexpired
prune-Lasts now t key m d h (exp, e, l) =
    (exp, rw (lookup-prune now key m d, e, unexpired, lt→ltb now exp (omega arith)) refl, l)

pub prune-IsValid : (now : ℕ) (s : MemoryRefreshStore) → IsValid s → IsValid (prune_locked now s)
unfolding prune_locked
prune-IsValid now s v = (
  update_all-Distinct (unexpired now) s.redeemed v.0,
  update_all-Distinct (unexpired now) s.revoked v.1,
)

-- What `MarkRedeemed` does on a record that lasts past the call, and on any other.
pub mark_cases :
    (jti : Text) (exp now : ℕ) (s : MemoryRefreshStore)
    → ((mark_redeemed jti exp now s ≡ (s, redeemed_now)) × ¬ (now < exp))
      ⊎ ((mark_redeemed jti exp now s ≡ (prune_locked now s, err_refresh_reused))
          × (now < exp)
          × (still_redeemed now (lookup jti (prune_locked now s).redeemed) ≡ true))
      ⊎ ((mark_redeemed jti exp now s ≡ (
        record (prune_locked now s) { redeemed = insert jti exp (prune_locked now s).redeemed },
        redeemed_now,
      ))
          × (now < exp)
          × (still_redeemed now (lookup jti (prune_locked now s).redeemed) ≡ false))
unfolding mark_redeemed
mark_cases jti exp now s = elim (Bool-cases (ltb now exp)) [
  | inr e ↦ inl (rw (e, mark_redeemed) refl, ground arith)
  | inl e ↦ elim (Bool-cases (still_redeemed now (lookup jti (prune_locked now s).redeemed))) [
    | inl r ↦ inr (inl (rw (e, mark_redeemed, r) refl, ground arith, r))
    | inr r ↦ inr (inr (rw (e, mark_redeemed, r) refl, ground arith, r))
  ]
]

pub mark-IsValid :
    (jti : Text) (exp now : ℕ) (s : MemoryRefreshStore)
    → IsValid s
    → IsValid (mark_redeemed jti exp now s).0
mark-IsValid jti exp now s v = elim (mark_cases jti exp now s) [
  | inl (e, _) ↦ rw e v
  | inr (inl (e, _, _)) ↦ rw e (prune-IsValid now s v)
  | inr (inr (e, _, _)) ↦
      rw e (insert-Distinct jti exp _ (prune-IsValid now s v).0, (prune-IsValid now s v).1)
]

pub revoke-IsValid :
    (fid : Text) (exp now : ℕ) (s : MemoryRefreshStore)
    → IsValid s
    → IsValid (revoke_family fid exp now s)
unfolding revoke_family
revoke-IsValid fid exp now s v =
    let (d, e) = prune-IsValid now s v in
    elim (Bool-cases (ltb now exp)) [
      | inr x ↦ rw (x, revoke_family) v
      | inl x ↦ elim (Bool-cases (extends exp (lookup fid (prune_locked now s).revoked))) [
        | inl y ↦ rw (x, revoke_family, y) (d, insert-Distinct fid exp _ e)
        | inr y ↦ rw (x, revoke_family, y) (d, e)
      ]
    ]

pub after-IsValid :
    (c : Call) (now : ℕ) (s : MemoryRefreshStore) → IsValid s → IsValid (after c now s)
unfolding after is_family_revoked
after-IsValid (call_mark jti exp) now s v = mark-IsValid jti exp now s v
after-IsValid (call_revoke fid exp) now s v = revoke-IsValid fid exp now s v
after-IsValid (call_is_revoked fid) now s v = prune-IsValid now s v

pub run-IsValid :
    (calls : List (ℕ × Call)) (s : MemoryRefreshStore) → IsValid s → IsValid (run calls s)
unfolding run
run-IsValid [] s v = v
run-IsValid ((now, c) ∷ calls) s v = run-IsValid calls (after c now s) (after-IsValid c now s v)

still_Lasts :
    (now t : ℕ) (key : Text) (m : Map ℕ)
    → now < t
    → Lasts key t m
    → still_redeemed now (lookup key m) ≡ true
unfolding still_redeemed
still_Lasts now t key m h (exp, e, l) = rw e (lt→ltb now exp (omega arith))

mark-Lasts :
    (key jti : Text) (exp now t : ℕ) (s : MemoryRefreshStore)
    → IsValid s
    → now < t
    → Lasts key t s.redeemed
    → Lasts key t (mark_redeemed jti exp now s).0.redeemed
unfolding prune_locked
mark-Lasts key jti exp now t s v h l =
    let p = prune-Lasts now t key s.redeemed v.0 h l in
    elim (mark_cases jti exp now s) [
      | inl (e, _) ↦ rw e l
      | inr (inl (e, _, _)) ↦ rw e p
      | inr (inr (e, _, free)) ↦
          let held = still_Lasts now t key _ h p in
          let apart : jti ≢ key = λ q. cc (q, held, free) in
          rw e (p.0, lookup-insert_ne jti key exp _ apart ∙ p.1, p.2)
    ]

revoke_keeps_redeemed :
    (key fid : Text) (exp now t : ℕ) (s : MemoryRefreshStore)
    → IsValid s
    → now < t
    → Lasts key t s.redeemed
    → Lasts key t (revoke_family fid exp now s).redeemed
unfolding revoke_family prune_locked
revoke_keeps_redeemed key fid exp now t s v h l =
    let p = prune-Lasts now t key s.redeemed v.0 h l in
    elim (Bool-cases (ltb now exp)) [
      | inr x ↦ rw (x, revoke_family) l
      | inl x ↦ elim (Bool-cases (extends exp (lookup fid (prune_locked now s).revoked))) [
        | inl y ↦ rw (x, revoke_family, y) p
        | inr y ↦ rw (x, revoke_family, y) p
      ]
    ]

after-Lasts :
    (key : Text) (t now : ℕ) (c : Call) (s : MemoryRefreshStore)
    → IsValid s
    → now < t
    → Lasts key t s.redeemed
    → Lasts key t (after c now s).redeemed
unfolding after is_family_revoked prune_locked
after-Lasts key t now (call_mark jti exp) s v b l = mark-Lasts key jti exp now t s v b l
after-Lasts key t now (call_revoke fid exp) s v b l =
    revoke_keeps_redeemed key fid exp now t s v b l
after-Lasts key t now (call_is_revoked fid) s v b l = prune-Lasts now t key s.redeemed v.0 b l

run-Lasts :
    (key : Text) (t : ℕ) (calls : List (ℕ × Call)) (s : MemoryRefreshStore)
    → IsValid s
    → All (λ c. c.0 < t) calls
    → Lasts key t s.redeemed
    → Lasts key t (run calls s).redeemed × IsValid (run calls s)
unfolding run
run-Lasts key t [] s v b l = (l, v)
run-Lasts key t ((now, c) ∷ calls) s v (b, bs) l =
    run-Lasts key t calls (after c now s) (after-IsValid c now s v) bs
      (after-Lasts key t now c s v b l)

-- In a store where no key stands twice, a refresh token that was redeemed before its expiry is
-- refused as reused at every later attempt with an expiry ahead, whatever calls come between, as
-- long as the clock has not reached the expiry given at the first redemption.
pub reuse_is_detected :
    (jti : Text) (exp now : ℕ) (s : MemoryRefreshStore) (calls : List (ℕ × Call)) (exp' later : ℕ)
    → IsValid s
    → now < exp
    → (mark_redeemed jti exp now s).1 ≡ redeemed_now
    → All (λ c. c.0 < exp) calls
    → later < exp
    → later < exp'
    → (mark_redeemed jti exp' later (run calls (mark_redeemed jti exp now s).0)).1
      ≡ err_refresh_reused
unfolding prune_locked
reuse_is_detected jti exp now s calls exp' later v h first bs l l' =
    let start : Lasts jti exp (mark_redeemed jti exp now s).0.redeemed =
      elim (mark_cases jti exp now s) [
        | inl (_, n) ↦ absurd (n h)
        | inr (inl (e, _, _)) ↦ absurd (cc (rw e at first))
        | inr (inr (e, _, _)) ↦ rw e (exp, lookup-insert_self jti exp _, omega arith)
      ] in
    let (there, v') = run-Lasts jti exp calls _ (mark-IsValid jti exp now s v) bs start in
    let s' = run calls (mark_redeemed jti exp now s).0 in
    let p = prune-Lasts later exp jti s'.redeemed v'.0 l there in
    elim (mark_cases jti exp' later s') [
      | inl (_, n) ↦ absurd (n l')
      | inr (inl (e, _, _)) ↦ rw e refl
      | inr (inr (e, _, free)) ↦ cc (sym free ∙ still_Lasts later exp jti _ l p)
    ]
