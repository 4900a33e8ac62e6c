-- ===== src/Channels/Manager.antt =====
-- channels/manager.go over the memory store. A subscriber is a buffered Go channel; the event bus
-- and the sweep callback, which other code implements, are kept as the list of what they were given.
-- The clock's reading is an argument of each method.
pub mod Limits
pub mod PrivateTtl
pub mod Emission
use parsec.Channels.Name.{Name}
use parsec.Channels.Store
use parsec.Channels.Store.{Channel, Event, MemoryStore}
use parsec.Common.{
  ℕ, ◌+◌, ◌*◌, ◌^◌, Bool, true, false, List, [], ◌∷◌, ◌++◌, Option, none, some, if◌then◌else◌, ltb,
  ◌==◌, length, ℤ, pos, negsuc, pos_part, neg_part, ltb_ℤ, is_zero,
}
use parsec.Errors.{Result, ok, err, channel_ttl_exceeds}

-- Durations are in nanoseconds.
abbrev pub minute : ℕ
minute = 60 * 10 ^ 9

abbrev pub max_private_ttl : ℤ
max_private_ttl = pos (60 * minute)

abbrev pub default_public_ttl : ℤ
default_public_ttl = pos (30 * minute)

abbrev pub default_private_ttl : ℤ
default_private_ttl = pos (15 * minute)

pub record Subscriber : Type 0 where
  pub capacity : ℕ
  pub queue : List Event

pub record Manager : Type 0 where
  pub store : MemoryStore
  pub subs : List Subscriber
  -- what the event bus was given to publish, if there is a bus
  pub bus : Option (List Event)
  -- what the sweep callback was called with, if there is one
  pub on_sweep : Option (List (List Channel))

-- The non-blocking send: an event is dropped on a full buffer.
unfoldable pub offer : Event → Subscriber → Subscriber
offer ev sub =
    if ltb (length sub.queue) sub.capacity then record sub { queue = sub.queue ++ ev ∷ [] } else sub

offer_all : Event → List Subscriber → List Subscriber
offer_all ev [] = []
offer_all ev (sub ∷ subs) = offer ev sub ∷ offer_all ev subs

log {ℓ} : {A : Type ℓ} → A → Option (List A) → Option (List A)
log x none = none
log x (some xs) = some (xs ++ x ∷ [])

-- `Manager.emitLocal` for an event that is not the zero value
unfoldable pub emit_local : Event → Manager → Manager
unfolding offer_all offer
emit_local ev m = record m { subs = offer_all ev m.subs }

-- `Manager.emit`
unfoldable pub emit : Option Event → Manager → Manager
unfolding emit_local log
emit none m = m
emit (some ev) m = let m' = emit_local ev m in record m' { bus = log ev m'.bus }

-- Emits the event that a store's method returned, and passes its channel on.
unfoldable pub finish :
    MemoryStore → Manager → Result (Channel × Option Event) → Manager × Result Channel
finish s m (ok (ch, ev)) = (emit ev (record m { store = s }), ok ch)
finish s m (err e) = (record m { store = s }, err e)

-- `Manager.OpenPublic`
unfoldable pub open_public : Name → ℤ → ℕ → Manager → Manager × Result Channel
unfolding finish emit Store.open_public
open_public name ttl now m =
    let ttl' = if is_zero ttl then default_public_ttl else ttl in
    let (s, r) = Store.open_public name ttl' now m.store in finish s m r

-- `Manager.CreatePrivate`
unfoldable pub create_private : Name → ℤ → ℕ → Manager → Manager × Result Channel
unfolding finish emit Store.create_private
create_private name ttl now m =
    let ttl' = if ltb_ℤ (pos 0) ttl then ttl else default_private_ttl in
    let (s, r) = Store.create_private name ttl' now m.store in
    if ltb_ℤ max_private_ttl ttl' then (m, err channel_ttl_exceeds) else finish s m r

-- `Manager.Touch`
unfoldable pub touch : Name → ℕ → Manager → Manager × Result (Unit {0})
unfolding Store.touch
touch name now m = let (s, r) = Store.touch name now m.store in (record m { store = s }, r)

unfoldable pub finish_delete :
    MemoryStore → Manager → Result (Option Event) → Manager × Result (Unit {0})
finish_delete s m (ok ev) = (emit ev (record m { store = s }), ok tt)
finish_delete s m (err e) = (record m { store = s }, err e)

-- `Manager.Delete`
unfoldable pub delete : Name → ℕ → Manager → Manager × Result (Unit {0})
unfolding finish_delete emit Store.delete
delete name now m = let (s, r) = Store.delete name now m.store in finish_delete s m r

-- `Manager.SetDelta`
unfoldable pub set_delta : Name → Bool → Manager → Manager × Result (Unit {0})
unfolding Store.set_delta
set_delta name enabled m =
    let (s, r) = Store.set_delta name enabled m.store in (record m { store = s }, r)

-- `Manager.IsDelta`
unfoldable pub is_delta : Name → Manager → Bool
unfolding Store.get
is_delta name m = elim (Store.get name m.store) [ err _ ↦ false | ok ch ↦ ch.delta_enabled ]

-- `for _, ev := range events { m.emit(ev) }`
pub emit_all : List Event → Manager → Manager
emit_all [] m = m
emit_all (ev ∷ events) m = emit_all events (emit (some ev) m)

-- `Manager.fireSweepCallback`
pub fire_sweep_callback : Manager → Manager
unfolding log Store.list
fire_sweep_callback m = record m { on_sweep = log (Store.list m.store) m.on_sweep }

-- `Manager.Sweep`
unfoldable pub sweep : ℕ → Manager → Manager × ℕ
unfolding emit_all emit fire_sweep_callback Store.sweep
sweep now m =
    let (s, events) = Store.sweep now m.store in
    (fire_sweep_callback (emit_all events (record m { store = s })), length events)
