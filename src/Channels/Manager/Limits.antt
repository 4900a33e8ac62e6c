-- ===== src/Channels/Manager/Limits.antt =====
-- Runs of the manager's methods, and the calls of the store that they make.
use parsec.Channels.Manager
use parsec.Channels.Manager.Emission.{emit_all-store}
use parsec.Channels.Manager.{
  Manager, max_private_ttl, default_private_ttl, default_public_ttl, emit, finish, finish_delete,
  fire_sweep_callback, emit_local,
}
use parsec.Channels.Store
use parsec.Channels.Store.Calls
use parsec.Channels.Store.Calls.{Call, open_public, create_private, touch, delete, set_delta, sweep}
use parsec.Channels.Store.Invariant
use parsec.Channels.Store.Invariant.{IsValid, IsCall}
use parsec.Channels.Store.{Channel, Event, MemoryStore}
use parsec.Common.{
  ℕ, List, [], ◌∷◌, ◌≡◌, refl, Option, none, some, pos, ltb_ℤ, is_zero, Bool-cases, ◌⊎◌, inl, inr,
  if◌then◌else◌,
}
use parsec.Errors.{Result, ok, err}

-- The manager behind a call of one of its methods.
unfoldable pub after : Call → ℕ → Manager → Manager
after (open_public name ttl) now m = (Manager.open_public name ttl now m).0
after (create_private name ttl) now m = (Manager.create_private name ttl now m).0
after (touch name) now m = (Manager.touch name now m).0
after (delete name) now m = (Manager.delete name now m).0
after (set_delta name enabled) now m = (Manager.set_delta name enabled m).0
after sweep now m = (Manager.sweep now m).0

unfoldable pub run : List (ℕ × Call) → Manager → Manager
unfolding after
run [] m = m
run ((now, c) ∷ calls) m = run calls (after c now m)

emit-store : (ev : Option Event) (m : Manager) → (emit ev m).store ≡ m.store
unfolding emit emit_local
emit-store none m = refl
emit-store (some ev) m = refl

pub finish-store :
    (s : MemoryStore) (m : Manager) (r : Result (Channel × Option Event))
    → (finish s m r).0.store ≡ s
unfolding finish
finish-store s m (ok (ch, ev)) = emit-store ev _
finish-store s m (err e) = refl

pub finish_delete-store :
    (s : MemoryStore) (m : Manager) (r : Result (Option Event)) → (finish_delete s m r).0.store ≡ s
unfolding finish_delete
finish_delete-store s m (ok ev) = emit-store ev _
finish_delete-store s m (err e) = refl

-- A method of the manager changes the store as one call of the store does, or not at all.
store_of :
    (c : Call) (now : ℕ) (m : Manager)
    → IsCall c
    → ((c' : Call) × IsCall c' × ((after c now m).store ≡ Calls.after c' now m.store))
      ⊎ ((after c now m).store ≡ m.store)
unfolding after Calls.after Manager.touch Manager.set_delta Manager.open_public
    Manager.create_private Manager.delete Manager.sweep fire_sweep_callback
store_of (open_public name ttl) now m w =
    inl (open_public name (if is_zero ttl then default_public_ttl else ttl), w, finish-store _ m _)
store_of (create_private name ttl) now m w =
    let ttl' = if ltb_ℤ (pos 0) ttl then ttl else default_private_ttl in
    elim (Bool-cases (ltb_ℤ max_private_ttl ttl')) [
      | inl e ↦ inr (rw (e, after, Manager.create_private) refl)
      | inr e ↦
          inl (
            create_private name ttl',
            w,
            rw (e, after, Manager.create_private) (finish-store _ m _),
          )
    ]
store_of (touch name) now m w = inl (touch name, w, refl)
store_of (delete name) now m w = inl (delete name, w, finish_delete-store _ m _)
store_of (set_delta name enabled) now m w = inl (set_delta name enabled, w, refl)
store_of sweep now m w = inl (
  sweep,
  w,
  emit_all-store (Store.sweep now m.store).1 (record m { store = (Store.sweep now m.store).0 }),
)

pub after-IsValid :
    (c : Call) (now : ℕ) (m : Manager) → IsCall c → IsValid m.store → IsValid (after c now m).store
after-IsValid c now m w v = elim (store_of c now m w) [
  | inl (c', w', e) ↦ rw e (Invariant.after-IsValid c' now m.store w' v)
  | inr e ↦ rw e v
]
