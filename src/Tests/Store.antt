-- ===== src/Tests/Store.antt =====
-- The theorems on the store and the manager, on a store with one public and one private channel.
use parsec.Channels.Manager.Limits
use parsec.Channels.Manager.PrivateTtl.{run-IsLimited}
use parsec.Channels.Store.PrivateTtl.{IsLimited}
use parsec.Channels.Manager.{Manager}
use parsec.Channels.Name.Grammar.{IsName}
use parsec.Channels.Name.Parsing.{named}
use parsec.Channels.Name.{Name, to_string, is_private, visibility_public, visibility_private}
use parsec.Channels.Store
use parsec.Channels.Store.Calls.{Call, open_public, create_private, sweep, after, run}
use parsec.Channels.Store.Expiry.{IsExpired, sweep_lem}
use parsec.Channels.Store.Invariant.{IsValid, after-IsValid, run-IsValid}
use parsec.Channels.Store.Lifecycle.{Edge, after-Edge, delete_is_final}
use parsec.Channels.Store.{
  Channel, Event, MemoryStore, state_open, state_closed, state_deleted, event_closed, event_deleted,
  event, is_state_deleted,
}
use parsec.Common.{
  ℕ, false, List, [], ◌∷◌, ◌≡◌, refl, arith, none, some, codes, lookup, insert, join, Distinct, pos,
  inl, inr, if◌then◌else◌, Text-discrete, Bool-cases,
}
use parsec.Errors.{err, channel_not_found, channel_invalid}

abbrev hall : Name
hall = named visibility_public (codes "chat") (codes "hall") [] []

abbrev room : Name
room = named visibility_private (codes "chat") (codes "room") (codes "42") []

hall-IsName : IsName hall
hall-IsName = record {
  visibility = inl refl;
  app = ground arith;
  domain = ground arith;
  id = inl refl;
  topic = inl refl;
  topic_behind_id = λ h. absurd (h refl);
  private_with_id = λ h. ground arith;
}

room-IsName : IsName room
room-IsName = record {
  visibility = inr refl;
  app = ground arith;
  domain = ground arith;
  id = ground arith;
  topic = inl refl;
  topic_behind_id = λ h. absurd (h refl);
  private_with_id = λ _. ground arith;
}

abbrev hall_channel : Channel
hall_channel = record {
  name = hall;
  state = state_open;
  ttl = pos 30;
  created_at = 5;
  last_active = 5;
  delta_enabled = false;
}

abbrev room_channel : Channel
room_channel = record {
  name = room;
  state = state_open;
  ttl = pos 10;
  created_at = 0;
  last_active = 0;
  delta_enabled = false;
}

abbrev both : MemoryStore
both = (codes "public:chat.hall", hall_channel) ∷ (codes "private:chat.room.42", room_channel) ∷ []

both-Distinct : Distinct both
unfolding lookup Text-discrete Bool-cases
both-Distinct = (refl, (refl, tt))

empty-IsValid : IsValid []
unfolding lookup
empty-IsValid = record { distinct = tt; entry = λ key ch h. cc h }

-- The calls that build such a store.
abbrev opening : List (ℕ × Call)
opening = (5, open_public hall (pos 30)) ∷ (0, create_private room (pos 10)) ∷ []

run-IsValid_example : IsValid (run opening [])
run-IsValid_example = run-IsValid opening [] (hall-IsName, (room-IsName, tt)) empty-IsValid

after-Edge_example :
    Edge
      (lookup (codes "private:chat.room.42") both)
      (lookup (codes "private:chat.room.42") (after sweep 20 both))
after-Edge_example = after-Edge sweep 20 both (codes "private:chat.room.42") both-Distinct

sweep_lem_example :
    let key = codes "private:chat.room.42" in
    (lookup key both ≡ none → lookup key (Store.sweep 20 both).0 ≡ none)
    × ((ch : Channel)
        → lookup key both ≡ some ch
        → ¬ IsExpired 20 ch
        → lookup key (Store.sweep 20 both).0 ≡ some ch)
    × ((ch : Channel)
        → lookup key both ≡ some ch
        → IsExpired 20 ch
        → lookup key (Store.sweep 20 both).0
          ≡ (if is_private ch.name then none else some (record ch { state = state_closed })))
sweep_lem_example = sweep_lem 20 both (codes "private:chat.room.42") both-Distinct

abbrev opened : MemoryStore
opened = (Store.open_public hall (pos 30) 5 []).0

opened-IsValid : IsValid opened
unfolding after
opened-IsValid = after-IsValid (open_public hall (pos 30)) 5 [] hall-IsName empty-IsValid

found_when_opened : lookup (to_string hall) opened ≡ some hall_channel
unfolding lookup insert to_string join Text-discrete Bool-cases Store.open_public
found_when_opened = refl

found_in_both : lookup (to_string hall) both ≡ some hall_channel
unfolding lookup to_string join Text-discrete Bool-cases
found_in_both = refl

delete_is_final_example :
    let t = run opening (Store.delete hall 7 opened).0 in
    (Store.get hall t ≡ err channel_not_found)
    × ((Store.open_public hall (pos 30) 9 t).1 ≡ err channel_not_found)
    × ((Store.create_private hall (pos 30) 9 t).1 ≡ err channel_invalid)
    × ((Store.touch hall 9 t).1 ≡ err channel_not_found)
delete_is_final_example =
    delete_is_final hall 7 9 (pos 30) opened hall_channel opening opened-IsValid hall-IsName
      found_when_opened (hall-IsName, (room-IsName, tt))

abbrev busy : Manager
busy = record {
  store = both;
  subs = record { capacity = 1; queue = [] } ∷ [];
  bus = some [];
  on_sweep = some [];
}

abbrev idle : Manager
idle = record {
  store = [];
  subs = record { capacity = 1; queue = [] } ∷ [];
  bus = some [];
  on_sweep = none;
}

empty-IsLimited : IsLimited []
unfolding lookup
empty-IsLimited key ch h p = cc h

run-IsLimited_example : IsLimited (Limits.run opening idle).store
run-IsLimited_example =
    run-IsLimited opening idle (hall-IsName, (room-IsName, tt)) empty-IsValid empty-IsLimited
