-- ===== src/Channels/Store.antt =====
-- channels/store.go, channels/memory_store.go, channels/events.go and the record types of
-- channels/manager.go. A time is a number of nanoseconds from a fixed origin, a TTL an integer. Each
-- method takes the map of channels and returns it with its result; the lock makes a method one step.
pub mod Calls
pub mod Invariant
pub mod Lifecycle
pub mod PrivateTtl
pub mod Expiry
use parsec.Channels.Name.{Name, to_string, is_private, visibility_public, visibility_private}
use parsec.Common.{
  ℕ, Bool, true, false, not, List, [], ◌∷◌, Option, none, some, if◌then◌else◌, text_eq, Map, lookup,
  insert, ℤ, sub_ℕ, ltb_ℤ,
}
use parsec.Errors.{
  Result, ok, err, channel_invalid, channel_not_found, channel_exists, channel_closed,
}

pub data State : Type 0 where
  state_open state_closed state_deleted : State

abbrev pub is_state_open : State → Bool
is_state_open state_open = true
is_state_open _ = false

abbrev pub is_state_closed : State → Bool
is_state_closed state_closed = true
is_state_closed _ = false

abbrev pub is_state_deleted : State → Bool
is_state_deleted state_deleted = true
is_state_deleted _ = false

pub record Channel : Type 0 where
  pub name : Name
  pub state : State
  pub ttl : ℤ
  pub created_at : ℕ
  pub last_active : ℕ
  pub delta_enabled : Bool

pub data EventKind : Type 0 where
  event_opened event_closed event_deleted : EventKind

-- The zero value, which stands for no transition, is `none` of `Option Event`.
pub record Event : Type 0 where
  pub kind : EventKind
  pub name : Name
  pub at : ℕ

abbrev pub MemoryStore : Type 0
MemoryStore = Map Channel

-- `MemoryStore.Get`
unfoldable pub get : Name → MemoryStore → Result Channel
get name s = elim (lookup (to_string name) s) [
  | none ↦ err channel_not_found
  | some ch ↦ if is_state_deleted ch.state then err channel_not_found else ok ch
]

-- `MemoryStore.List`
unfoldable pub list : MemoryStore → List Channel
list [] = []
list ((key, ch) ∷ s) = ch ∷ list s

-- `MemoryStore.IsOpen`
unfoldable pub is_open : Name → MemoryStore → Bool
is_open name s = elim (lookup (to_string name) s) [
  | none ↦ false
  | some ch ↦ is_state_open ch.state
]

abbrev pub fresh_channel : Name → ℤ → ℕ → Channel
fresh_channel name ttl now = record {
  name = name;
  state = state_open;
  ttl = ttl;
  created_at = now;
  last_active = now;
  delta_enabled = false;
}

abbrev pub event : EventKind → Name → ℕ → Event
event kind name now = record { kind = kind; name = name; at = now }

-- The branch of `OpenPublic` for a channel that is there.
reopen : Name → ℤ → ℕ → Channel → MemoryStore → MemoryStore × Result (Channel × Option Event)
reopen name ttl now existing s =
    if is_state_deleted existing.state
    then (s, err channel_not_found)
    else let was_closed = is_state_closed existing.state in
      let out = record existing { state = state_open; ttl = ttl; last_active = now } in
      (
        insert (to_string name) out s,
        ok (out, if was_closed then some (event event_opened name now) else none),
      )

-- `MemoryStore.OpenPublic`
unfoldable pub open_public :
    Name → ℤ → ℕ → MemoryStore → MemoryStore × Result (Channel × Option Event)
unfolding reopen
open_public name ttl now s =
    if not (text_eq name.visibility visibility_public)
    then (s, err channel_invalid)
    else elim (lookup (to_string name) s) [
      | some existing ↦ reopen name ttl now existing s
      | none ↦
          let ch = fresh_channel name ttl now in
          (insert (to_string name) ch s, ok (ch, some (event event_opened name now)))
    ]

-- `MemoryStore.CreatePrivate`
unfoldable pub create_private :
    Name → ℤ → ℕ → MemoryStore → MemoryStore × Result (Channel × Option Event)
create_private name ttl now s =
    if not (text_eq name.visibility visibility_private)
    then (s, err channel_invalid)
    else elim (lookup (to_string name) s) [
      | some _ ↦ (s, err channel_exists)
      | none ↦
          let ch = fresh_channel name ttl now in
          (insert (to_string name) ch s, ok (ch, some (event event_opened name now)))
    ]

-- `MemoryStore.Touch`
unfoldable pub touch : Name → ℕ → MemoryStore → MemoryStore × Result (Unit {0})
touch name now s = elim (lookup (to_string name) s) [
  | none ↦ (s, err channel_not_found)
  | some ch ↦
      if is_state_deleted ch.state
      then (s, err channel_not_found)
      else if is_state_closed ch.state
      then (s, err channel_closed)
      else (insert (to_string name) (record ch { last_active = now }) s, ok tt)
]

-- `MemoryStore.Delete`
unfoldable pub delete : Name → ℕ → MemoryStore → MemoryStore × Result (Option Event)
delete name now s = elim (lookup (to_string name) s) [
  | none ↦ (s, err channel_not_found)
  | some ch ↦ (
    insert (to_string name) (record ch { state = state_deleted }) s,
    ok (if is_state_deleted ch.state then none else some (event event_deleted name now)),
  )
]

-- `MemoryStore.SetDelta`
unfoldable pub set_delta : Name → Bool → MemoryStore → MemoryStore × Result (Unit {0})
set_delta name enabled s = elim (lookup (to_string name) s) [
  | none ↦ (s, err channel_not_found)
  | some ch ↦
      if is_state_deleted ch.state
      then (s, err channel_not_found)
      else (insert (to_string name) (record ch { delta_enabled = enabled }) s, ok tt)
]

-- `MemoryStore.Sweep`: one round of the loop in front of the other entries' result.
unfoldable pub sweep : ℕ → MemoryStore → MemoryStore × List Event
sweep now [] = ([], [])
sweep now ((key, ch) ∷ s) =
    let (kept, events) = sweep now s in
    if not (is_state_open ch.state)
    then ((key, ch) ∷ kept, events)
    else if ltb_ℤ (sub_ℕ now ch.last_active) ch.ttl
    then ((key, ch) ∷ kept, events)
    else if is_private ch.name
    then (kept, event event_deleted ch.name now ∷ events)
    else ((key, record ch { state = state_closed }) ∷ kept, event event_closed ch.name now ∷ events)
