-- ===== src/Channels/Manager/PrivateTtl.antt =====
-- The cap on the time that a private channel may stay idle.
use parsec.Channels.Manager
use parsec.Channels.Manager.Limits
use parsec.Channels.Manager.Limits.{after, run, finish-store, finish_delete-store}
use parsec.Channels.Manager.Emission.{emit_all-store}
use parsec.Channels.Manager.{
  Manager, minute, max_private_ttl, default_private_ttl, default_public_ttl,
}
use parsec.Channels.Store
use parsec.Channels.Store.Calls.{Call, open_public, create_private, touch, delete, set_delta, sweep}
use parsec.Channels.Store.PrivateTtl.{
  IsShort, IsLimited, open_public-IsLimited, create_private-IsLimited, touch-IsLimited,
  delete-IsLimited, set_delta-IsLimited, sweep-IsLimited,
}
use parsec.Channels.Store.Invariant.{IsValid, IsCall}
use parsec.Channels.Store.{
  Channel, Event, MemoryStore, fresh_channel, is_state_closed, is_state_deleted, state_closed,
  state_open, state_deleted,
}
use parsec.Common.{
  ℕ, false, List, [], ◌∷◌, ◌≡◌, inl, inr, arith, All, ℤ, pos, ltb_ℤ, is_zero, Bool-cases,
  if◌then◌else◌,
}

-- A TTL that the guard lets through, with the default in place of one that is not positive.
capped :
    (ttl : ℤ)
    → ltb_ℤ max_private_ttl (if ltb_ℤ (pos 0) ttl then ttl else default_private_ttl) ≡ false
    → IsShort (if ltb_ℤ (pos 0) ttl then ttl else default_private_ttl)
capped ttl e = ground arith

after-IsLimited :
    (c : Call) (now : ℕ) (m : Manager)
    → IsCall c
    → IsValid m.store
    → IsLimited m.store
    → IsLimited (after c now m).store
unfolding after Manager.touch Manager.set_delta Manager.open_public Manager.create_private
    Manager.delete Manager.sweep Manager.fire_sweep_callback
after-IsLimited (open_public name ttl) now m w v l =
    let ttl' = if is_zero ttl then default_public_ttl else ttl in
    rw
      (finish-store (Store.open_public name ttl' now m.store).0 m
        (Store.open_public name ttl' now m.store).1)
      (open_public-IsLimited name ttl' now m.store w v l)
after-IsLimited (create_private name ttl) now m w v l =
    let ttl' = if ltb_ℤ (pos 0) ttl then ttl else default_private_ttl in
    elim (Bool-cases (ltb_ℤ max_private_ttl ttl')) [
      | inl e ↦ rw (e, after, Manager.create_private) l
      | inr e ↦
          let (s, r) = Store.create_private name ttl' now m.store in
          rw (e, after, Manager.create_private, finish-store s m r)
            (create_private-IsLimited name ttl' now m.store (capped ttl e) l)
    ]
after-IsLimited (touch name) now m w v l = touch-IsLimited name now m.store l
after-IsLimited (delete name) now m w v l =
    let (s, r) = Store.delete name now m.store in
    rw (finish_delete-store s m r) (delete-IsLimited name now m.store l)
after-IsLimited (set_delta name enabled) now m w v l = set_delta-IsLimited name enabled m.store l
after-IsLimited sweep now m w v l =
    let (s, events) = Store.sweep now m.store in
    rw (emit_all-store events (record m { store = s })) (sweep-IsLimited now m.store v.distinct l)

-- After any run of the manager's methods with parsed names, every private channel that the store
-- holds has a TTL above zero and of an hour at most, if the store was well formed and that held of
-- it at the start.
pub run-IsLimited :
    (calls : List (ℕ × Call)) (m : Manager)
    → All (λ c. IsCall c.1) calls
    → IsValid m.store
    → IsLimited m.store
    → IsLimited (run calls m).store
unfolding run
run-IsLimited [] m w v l = l
run-IsLimited ((now, c) ∷ calls) m (w, ws) v l =
    run-IsLimited calls (after c now m) ws (Limits.after-IsValid c now m w v)
      (after-IsLimited c now m w v l)
