-- ===== src/Channels/Manager/Emission.antt =====
-- What the manager reports of a call: to the bus, to the subscribers and to the sweep callback.
use parsec.Channels.Manager
use parsec.Channels.Manager.{
  Manager, Subscriber, offer, offer_all, log, emit, emit_all, emit_local, fire_sweep_callback,
  finish_delete,
}
use parsec.Channels.Name.{Name, to_string}
use parsec.Channels.Store
use parsec.Channels.Store.Expiry.{IsExpired, transition, sweep_events_iff}
use parsec.Channels.Store.{
  Channel, Event, MemoryStore, state_deleted, is_state_deleted, event, event_deleted,
}
use parsec.Common.{
  ℕ, List, [], ◌∷◌, ◌++◌, append-nil, append_assoc, ◌≡◌, ◌↔◌, refl, ap, ◌∙◌, arith, some, length,
  Any, Text, lookup, lookup-insert_self, insert-insert, if◌then◌else◌,
}
use parsec.Errors.{ok}

pub emit_all-store : (events : List Event) (m : Manager) → (emit_all events m).store ≡ m.store
unfolding emit_all emit emit_local
emit_all-store [] m = refl
emit_all-store (ev ∷ events) m = emit_all-store events _

emit_all-on_sweep : (events : List Event) (m : Manager) → (emit_all events m).on_sweep ≡ m.on_sweep
unfolding emit_all emit emit_local
emit_all-on_sweep [] m = refl
emit_all-on_sweep (ev ∷ events) m = emit_all-on_sweep events _

emit_all-bus :
    (events : List Event) (m : Manager) (old : List Event)
    → m.bus ≡ some old
    → (emit_all events m).bus ≡ some (old ++ events)
unfolding emit_all emit emit_local log
emit_all-bus [] m old h = rw append-nil h
emit_all-bus (ev ∷ events) m old h =
    emit_all-bus events _ (old ++ ev ∷ []) (rw (h, log) refl)
    ∙ ap some (append_assoc old (ev ∷ []) events)

-- With a bus and a sweep callback set, a sweep publishes on the bus, behind what was there, one
-- event for each expired channel and no other, returns their number, leaves the store that the
-- sweep of the store leaves, and hands the channels that are left to the callback.
sweep_reports :
    (now : ℕ) (m : Manager) (old : List Event) (calls : List (List Channel))
    → m.bus ≡ some old
    → m.on_sweep ≡ some calls
    → let m' = (Manager.sweep now m).0 in
      (events : List Event) × (m'.bus ≡ some (old ++ events))
      × ((Manager.sweep now m).1 ≡ length events)
      × ((ev : Event)
          → Any (λ e. e ≡ ev) events
            ↔ Any (λ (e : Text × Channel). IsExpired now e.1 × (transition now e.1 ≡ ev)) m.store)
      × (m'.store ≡ (Store.sweep now m.store).0)
      × (m'.on_sweep ≡ some (calls ++ Store.list m'.store ∷ []))
unfolding Manager.sweep fire_sweep_callback log
sweep_reports now m old calls h k =
    let events = (Store.sweep now m.store).1 in
    let swept : Manager = record m { store = (Store.sweep now m.store).0 } in
    (
      events,
      emit_all-bus events swept old h,
      refl,
      sweep_events_iff now m.store,
      emit_all-store events swept,
      ap (log (Store.list (emit_all events swept).store)) (emit_all-on_sweep events swept ∙ k),
    )

-- Deleting a channel that was deleted a call before returns success and changes nothing: no second event is emitted.
pub delete_again :
    (name : Name) (now later : ℕ) (m : Manager) (ch : Channel)
    → lookup (to_string name) m.store ≡ some ch
    → let m' = (Manager.delete name now m).0 in Manager.delete name later m' ≡ (m', ok tt)
unfolding Manager.delete finish_delete emit emit_local Store.delete
delete_again name now later m ch there =
    let ch' = record ch { state = state_deleted } in
    ground (
      arith,
      lookup-insert_self (to_string name) ch' m.store,
      insert-insert (to_string name) ch' ch' m.store,
    )

-- Deleting a channel that the store holds puts one event behind what the bus was given, or none if
-- the channel was deleted already.
delete_reports :
    (name : Name) (now : ℕ) (m : Manager) (ch : Channel) (old : List Event)
    → lookup (to_string name) m.store ≡ some ch
    → m.bus ≡ some old
    → (Manager.delete name now m).0.bus
      ≡ some (if is_state_deleted ch.state then old else old ++ event event_deleted name now ∷ [])
unfolding Manager.delete finish_delete emit emit_local Store.delete log
delete_reports name now m ch old there h = ground arith
