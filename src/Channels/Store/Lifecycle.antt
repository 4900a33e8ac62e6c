-- ===== src/Channels/Store/Lifecycle.antt =====
-- How a call may move the channel under a key, and what no sequence of calls can undo.
use mathlib.Core.Option
use parsec.Channels.Name.Grammar.{IsName}
use parsec.Channels.Name.{Name, to_string, is_private, visibility_public, visibility_private}
use parsec.Channels.Store
use parsec.Channels.Store.Calls.{
  Call, open_public, create_private, touch, delete, set_delta, sweep, after, run,
}
use parsec.Channels.Store.Invariant.{IsValid, IsCall, after-IsValid, delete-IsValid}
use parsec.Channels.Store.Expiry.{
  expired, expired_iff, after_sweep, after_sweep_kept, after_sweep_expired, lookup-sweep,
}
use parsec.Channels.Store.{
  State, state_open, state_closed, state_deleted, is_state_open, is_state_closed, is_state_deleted,
  Channel, Event, MemoryStore, fresh_channel,
}
use parsec.Common.{
  All, ℕ, Bool, true, false, List, [], ◌∷◌, ◌≡◌, ◌⊎◌, inl, inr, refl, sym, arith, Option, none,
  some, if◌then◌else◌, Text, Text-discrete, text_eq, lookup, insert, lookup-insert_self,
  lookup-insert_ne, Distinct, ℤ, Bool-cases, Option-cases,
}
use parsec.Errors.{err, channel_not_found, channel_invalid, channel_exists}

-- The edges of the lifecycle, for the channel under one key; `none` is an absent key.
pub data Edge : Option Channel → Option Channel → Type 0 where
  same : {o : Option Channel} → Edge o o
  create : {ch : Channel} → ch.state ≡ state_open → Edge none (some ch)
  keep : {ch ch' : Channel} → ch'.state ≡ ch.state → Edge (some ch) (some ch')
  close :
      {ch ch' : Channel}
      → ch.state ≡ state_open
      → is_private ch.name ≡ false
      → ch'.state ≡ state_closed
      → Edge (some ch) (some ch')
  reopen :
      {ch ch' : Channel}
      → ch.state ≡ state_closed
      → ch'.state ≡ state_open
      → Edge (some ch) (some ch')
  remove : {ch ch' : Channel} → ch'.state ≡ state_deleted → Edge (some ch) (some ch')
  reap : {ch : Channel} → ch.state ≡ state_open → is_private ch.name ≡ true → Edge (some ch) none

State-cases : (st : State) → (st ≡ state_open) ⊎ ((st ≡ state_closed) ⊎ (st ≡ state_deleted))
State-cases state_open = inl refl
State-cases state_closed = inr (inl refl)
State-cases state_deleted = inr (inr refl)

-- A write under one key moves no other key.
insert-Edge :
    (k key : Text) (ch : Channel) (s : MemoryStore)
    → Edge (lookup k s) (some ch)
    → Edge (lookup key s) (lookup key (insert k ch s))
insert-Edge k key ch s e = elim (Text-discrete k key) [
  | yes p ↦ rw (← p, lookup-insert_self) e
  | no p ↦ rw (lookup-insert_ne k key ch s p) same
]

reopen-Edge :
    (name : Name) (ttl : ℤ) (now : ℕ) (s : MemoryStore) (key : Text) (ch : Channel)
    → lookup (to_string name) s ≡ some ch
    → Edge (lookup key s) (lookup key (Store.reopen name ttl now ch s).0)
unfolding Store.reopen
reopen-Edge name ttl now s key ch there = elim (State-cases ch.state) [
  | inl e ↦ rw e (insert-Edge (to_string name) key _ s (rw there (keep (sym e))))
  | inr (inl e) ↦ rw e (insert-Edge (to_string name) key _ s (rw there (reopen e refl)))
  | inr (inr e) ↦ rw e same
]

open_public-Edge :
    (name : Name) (ttl : ℤ) (now : ℕ) (s : MemoryStore) (key : Text)
    → Edge (lookup key s) (lookup key (Store.open_public name ttl now s).0)
unfolding Store.open_public
open_public-Edge name ttl now s key =
    elim (Bool-cases (text_eq name.visibility visibility_public)) [
      | inr e ↦ rw e same
      | inl e ↦ elim (Option-cases (lookup (to_string name) s)) [
        | inl absent ↦
            rw (e, absent) (insert-Edge (to_string name) key _ s (rw absent (create refl)))
        | inr (ch, there) ↦ rw (e, there) (reopen-Edge name ttl now s key ch there)
      ]
    ]

create_private-Edge :
    (name : Name) (ttl : ℤ) (now : ℕ) (s : MemoryStore) (key : Text)
    → Edge (lookup key s) (lookup key (Store.create_private name ttl now s).0)
unfolding Store.create_private
create_private-Edge name ttl now s key =
    elim (Bool-cases (text_eq name.visibility visibility_private)) [
      | inr e ↦ rw e same
      | inl e ↦ elim (Option-cases (lookup (to_string name) s)) [
        | inl absent ↦
            rw (e, absent) (insert-Edge (to_string name) key _ s (rw absent (create refl)))
        | inr (ch, there) ↦ rw (e, there) same
      ]
    ]

touch-Edge :
    (name : Name) (now : ℕ) (s : MemoryStore) (key : Text)
    → Edge (lookup key s) (lookup key (Store.touch name now s).0)
unfolding Store.touch
touch-Edge name now s key = elim (Option-cases (lookup (to_string name) s)) [
  | inl absent ↦ rw (absent, Store.touch) same
  | inr (ch, there) ↦ elim (State-cases ch.state) [
    | inl e ↦
        rw (there, Store.touch, e) (insert-Edge (to_string name) key _ s (rw there (keep (sym e))))
    | inr (inl e) ↦ rw (there, Store.touch, e) same
    | inr (inr e) ↦ rw (there, Store.touch, e) same
  ]
]

delete-Edge :
    (name : Name) (now : ℕ) (s : MemoryStore) (key : Text)
    → Edge (lookup key s) (lookup key (Store.delete name now s).0)
unfolding Store.delete
delete-Edge name now s key = elim (Option-cases (lookup (to_string name) s)) [
  | inl absent ↦ rw (absent, Store.delete) same
  | inr (ch, there) ↦
      rw (there, Store.delete) (insert-Edge (to_string name) key _ s (rw there (remove refl)))
]

set_delta-Edge :
    (name : Name) (enabled : Bool) (s : MemoryStore) (key : Text)
    → Edge (lookup key s) (lookup key (Store.set_delta name enabled s).0)
unfolding Store.set_delta
set_delta-Edge name enabled s key = elim (Option-cases (lookup (to_string name) s)) [
  | inl absent ↦ rw (absent, Store.set_delta) same
  | inr (ch, there) ↦ elim (Bool-cases (is_state_deleted ch.state)) [
    | inl e ↦ rw (there, Store.set_delta, e) same
    | inr e ↦
        rw (there, Store.set_delta, e) (insert-Edge (to_string name) key _ s (rw there (keep refl)))
  ]
]

after_sweep-Edge : (now : ℕ) (ch : Channel) → Edge (some ch) (after_sweep now ch)
after_sweep-Edge now ch = elim (Bool-cases (expired now ch)) [
  | inr e ↦ rw (after_sweep_kept now ch (λ due. cc ((expired_iff now ch).1 due))) same
  | inl e ↦
      let due = (expired_iff now ch).0 e in
      elim (Bool-cases (is_private ch.name)) [
        | inl p ↦ rw (after_sweep_expired now ch due, p) (reap due.is_open p)
        | inr p ↦ rw (after_sweep_expired now ch due, p) (close due.is_open p refl)
      ]
]

sweep-Edge :
    (now : ℕ) (s : MemoryStore) (key : Text)
    → Distinct s
    → Edge (lookup key s) (lookup key (Store.sweep now s).0)
unfolding Option.bind
sweep-Edge now s key d = elim (Option-cases (lookup key s)) [
  | inl absent ↦ rw (lookup-sweep now s key d, absent) same
  | inr (ch, there) ↦ rw (lookup-sweep now s key d, there) (after_sweep-Edge now ch)
]

-- Every call, on every branch, moves the channel under every key along an edge of the lifecycle or
-- leaves it, in a store where no key stands twice.
pub after-Edge :
    (c : Call) (now : ℕ) (s : MemoryStore) (key : Text)
    → Distinct s
    → Edge (lookup key s) (lookup key (after c now s))
unfolding after
after-Edge (open_public name ttl) now s key d = open_public-Edge name ttl now s key
after-Edge (create_private name ttl) now s key d = create_private-Edge name ttl now s key
after-Edge (touch name) now s key d = touch-Edge name now s key
after-Edge (delete name) now s key d = delete-Edge name now s key
after-Edge (set_delta name enabled) now s key d = set_delta-Edge name enabled s key
after-Edge sweep now s key d = sweep-Edge now s key d

-- The channel stays behind as a record that is marked deleted.
pub record IsTombstone (key : Text) (s : MemoryStore) : Type 0 where
  pub channel : Channel
  pub found : lookup key s ≡ some channel
  pub is_deleted : channel.state ≡ state_deleted

Edge-deleted :
    {o o' : Option Channel} (ch : Channel)
    → Edge o o'
    → o ≡ some ch
    → ch.state ≡ state_deleted
    → (ch' : Channel) × (o' ≡ some ch') × (ch'.state ≡ state_deleted)
Edge-deleted ch same e d = (ch, e, d)
Edge-deleted ch (create h) e d = cc
Edge-deleted ch (keep {ch' = ch'} h) e d = (ch', refl, ground arith)
Edge-deleted ch (close h p c) e d = absurd (ground arith)
Edge-deleted ch (reopen h c) e d = absurd (ground arith)
Edge-deleted ch (remove {ch' = ch'} h) e d = (ch', refl, h)
Edge-deleted ch (reap h p) e d = absurd (ground arith)

-- No call revives a deleted channel.
run-IsTombstone :
    (calls : List (ℕ × Call)) (s : MemoryStore) (key : Text)
    → All (λ c. IsCall c.1) calls
    → IsValid s
    → IsTombstone key s
    → IsTombstone key (run calls s)
unfolding run
run-IsTombstone [] s key w v t = t
run-IsTombstone ((now, c) ∷ calls) s key (w, ws) v t =
    let (ch, found, gone) =
      Edge-deleted t.channel (after-Edge c now s key v.distinct) t.found t.is_deleted in
    run-IsTombstone calls (after c now s) key ws (after-IsValid c now s w v)
      (record { channel = ch; found = found; is_deleted = gone })

delete-IsTombstone :
    (name : Name) (now : ℕ) (s : MemoryStore) (ch : Channel)
    → lookup (to_string name) s ≡ some ch
    → IsTombstone (to_string name) (Store.delete name now s).0
unfolding Store.delete
delete-IsTombstone name now s ch there = record {
  channel = record ch { state = state_deleted };
  found = rw (there, Store.delete) (lookup-insert_self (to_string name) _ s);
  is_deleted = refl;
}

refused :
    (name : Name) (ttl : ℤ) (now : ℕ) (s : MemoryStore)
    → IsTombstone (to_string name) s
    → (Store.get name s ≡ err channel_not_found)
      × ((Store.open_public name ttl now s).1
          ≡ err (
              if text_eq name.visibility visibility_public
              then channel_not_found
              else channel_invalid))
      × ((Store.create_private name ttl now s).1
          ≡ err (
              if text_eq name.visibility visibility_private
              then channel_exists
              else channel_invalid))
      × ((Store.touch name now s).1 ≡ err channel_not_found)
unfolding Store.get Store.open_public Store.create_private Store.touch Store.reopen
refused name ttl now s t = ground arith

-- Once a channel that a well-formed store holds is deleted under its parsed name, whatever calls
-- with parsed names follow, it can neither be read nor touched, nor opened or created again: the
-- public name is refused as not found, the private one as taken.
pub delete_is_final :
    (name : Name) (now ttl_at : ℕ) (ttl : ℤ) (s : MemoryStore) (ch : Channel)
    (calls : List (ℕ × Call))
    → IsValid s
    → IsName name
    → lookup (to_string name) s ≡ some ch
    → All (λ c. IsCall c.1) calls
    → let t = run calls (Store.delete name now s).0 in
      (Store.get name t ≡ err channel_not_found)
      × ((Store.open_public name ttl ttl_at t).1
          ≡ err (
              if text_eq name.visibility visibility_public
              then channel_not_found
              else channel_invalid))
      × ((Store.create_private name ttl ttl_at t).1
          ≡ err (
              if text_eq name.visibility visibility_private
              then channel_exists
              else channel_invalid))
      × ((Store.touch name ttl_at t).1 ≡ err channel_not_found)
delete_is_final name now ttl_at ttl s ch calls v w there ws = refused name ttl ttl_at _ (
    run-IsTombstone calls _ (to_string name) ws (delete-IsValid name now s v)
      (delete-IsTombstone name now s ch there))
