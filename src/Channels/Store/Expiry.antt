-- ===== src/Channels/Store/Expiry.antt =====
-- What one sweep does to the channel under each key, and which events it reports.
use parsec.Channels.Name.{is_private}
use parsec.Channels.Store.{
  state_open, state_closed, is_state_open, Channel, Event, event_closed, event_deleted, event,
  MemoryStore, sweep,
}
use mathlib.Core.Option
use parsec.Common.{
  Text, Any, ℕ, ◌+◌, ◌≤◌, Bool, true, not, ◌&&◌, [], ◌∷◌, ◌≡◌, ◌↔◌, inl, inr, refl, arith, Option,
  none, some, if◌then◌else◌, lookup, update_all, lookup-update_all, Distinct, pos_part, neg_part,
  ltb_ℤ, sub_ℕ, Bool-cases,
}

-- An open channel has not been active for its TTL. The TTL may be negative.
pub record IsExpired (now : ℕ) (ch : Channel) : Type 0 where
  pub is_open : ch.state ≡ state_open
  pub idle : ch.last_active + pos_part ch.ttl ≤ now + neg_part ch.ttl

pub expired : ℕ → Channel → Bool
expired now ch = is_state_open ch.state && not (ltb_ℤ (sub_ℕ now ch.last_active) ch.ttl)

-- What becomes of a channel: a private one is dropped, a public one is closed.
unfoldable pub after_sweep : ℕ → Channel → Option Channel
after_sweep now ch =
    if expired now ch
    then (if is_private ch.name then none else some (record ch { state = state_closed }))
    else some ch

pub expired_iff : (now : ℕ) (ch : Channel) → (expired now ch ≡ true) ↔ IsExpired now ch
unfolding expired
expired_iff now ch = ground arith

pub sweep-update_all :
    (now : ℕ) (s : MemoryStore) → (sweep now s).0 ≡ update_all (after_sweep now) s
unfolding sweep update_all after_sweep expired
sweep-update_all now [] = refl
sweep-update_all now ((key, ch) ∷ s) = elim (Bool-cases (expired now ch)) [
  | inl e ↦ ground (arith, sweep-update_all now s)
  | inr e ↦ ground (arith, sweep-update_all now s)
]

-- `after_sweep` in its three cases.
pub after_sweep_kept : (now : ℕ) (ch : Channel) → ¬ IsExpired now ch → after_sweep now ch ≡ some ch
unfolding after_sweep
after_sweep_kept now ch h = elim (Bool-cases (expired now ch)) [
  | inl e ↦ absurd (h ((expired_iff now ch).0 e))
  | inr e ↦ rw e
]

pub after_sweep_expired :
    (now : ℕ) (ch : Channel)
    → IsExpired now ch
    → after_sweep now ch
      ≡ (if is_private ch.name then none else some (record ch { state = state_closed }))
unfolding after_sweep
after_sweep_expired now ch h = rw ((expired_iff now ch).1 h)

pub lookup-sweep :
    (now : ℕ) (s : MemoryStore) (key : Text)
    → Distinct s
    → lookup key (sweep now s).0 ≡ Option.bind (lookup key s) (after_sweep now)
lookup-sweep now s key d = rw (sweep-update_all now s) (lookup-update_all (after_sweep now) key s d)

-- In a store where no key stands twice, a sweep leaves under each key what is absent or has not
-- expired as it is, drops an expired private channel, and closes an expired public one, of which
-- it changes nothing but the state.
pub sweep_lem :
    (now : ℕ) (s : MemoryStore) (key : Text)
    → Distinct s
    → (lookup key s ≡ none → lookup key (sweep now s).0 ≡ none)
      × ((ch : Channel)
          → lookup key s ≡ some ch
          → ¬ IsExpired now ch
          → lookup key (sweep now s).0 ≡ some ch)
      × ((ch : Channel)
          → lookup key s ≡ some ch
          → IsExpired now ch
          → lookup key (sweep now s).0
            ≡ (if is_private ch.name then none else some (record ch { state = state_closed })))
unfolding Option.bind
sweep_lem now s key d =
    let e = lookup-sweep now s key d in
    (
      λ h. rw (e, h) refl,
      λ ch h live. rw (e, h) (after_sweep_kept now ch live),
      λ ch h dead. rw (e, h) (after_sweep_expired now ch dead),
    )

-- The event for an expired channel.
pub transition : ℕ → Channel → Event
transition now ch = event (if is_private ch.name then event_deleted else event_closed) ch.name now

sweep_events_step :
    (now : ℕ) (key : Text) (ch : Channel) (s : MemoryStore)
    → (sweep now ((key, ch) ∷ s)).1
      ≡ (if expired now ch then transition now ch ∷ (sweep now s).1 else (sweep now s).1)
unfolding sweep transition expired
sweep_events_step now key ch s = ground arith

-- The events of a sweep are those of the expired channels and no others.
pub sweep_events_iff :
    (now : ℕ) (s : MemoryStore) (ev : Event)
    → Any (λ e. e ≡ ev) (sweep now s).1
      ↔ Any (λ (e : Text × Channel). IsExpired now e.1 × (transition now e.1 ≡ ev)) s
unfolding sweep
sweep_events_iff now [] ev = (λ h. h, λ h. h)
sweep_events_iff now ((key, ch) ∷ s) ev =
    let (sound, complete) = sweep_events_iff now s ev in
    elim (Bool-cases (expired now ch)) [
      | inl e ↦
          let due = (expired_iff now ch).0 e in
          rw (sweep_events_step now key ch s, e)
            (
              elim [ inl p ↦ inl (due, p) | inr p ↦ inr (sound p) ],
              elim [ inl p ↦ inl p.1 | inr p ↦ inr (complete p) ],
            )
      | inr e ↦
          rw (sweep_events_step now key ch s, e)
            (
              λ p. inr (sound p),
              elim [ inl p ↦ cc ((expired_iff now ch).1 p.0) | inr p ↦ complete p ],
            )
    ]

-- A second sweep at the same time finds nothing to do.
sweep_again : (now : ℕ) (s : MemoryStore) → sweep now (sweep now s).0 ≡ ((sweep now s).0, [])
unfolding sweep
sweep_again now [] = refl
sweep_again now ((key, ch) ∷ s) = ground (arith, sweep_again now s)
