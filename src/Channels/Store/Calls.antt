-- ===== src/Channels/Store/Calls.antt =====
-- The methods of the store as calls, and runs of timed calls.
use parsec.Channels.Name.{Name}
use parsec.Channels.Store
use parsec.Channels.Store.{MemoryStore}
use parsec.Common.{ℕ, Bool, List, [], ◌∷◌, ℤ}

-- A call of the store; the time of the call is given apart.
pub data Call : Type 0 where
  open_public create_private : Name → ℤ → Call
  touch delete : Name → Call
  set_delta : Name → Bool → Call
  sweep : Call

-- The store behind a call, whatever the call returned.
unfoldable pub after : Call → ℕ → MemoryStore → MemoryStore
after (open_public name ttl) now s = (Store.open_public name ttl now s).0
after (create_private name ttl) now s = (Store.create_private name ttl now s).0
after (touch name) now s = (Store.touch name now s).0
after (delete name) now s = (Store.delete name now s).0
after (set_delta name enabled) now s = (Store.set_delta name enabled s).0
after sweep now s = (Store.sweep now s).0

-- The store behind a run of calls, each with the time at which it is made.
unfoldable pub run : List (ℕ × Call) → MemoryStore → MemoryStore
unfolding after
run [] s = s
run ((now, c) ∷ calls) s = run calls (after c now s)
