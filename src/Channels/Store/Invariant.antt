-- ===== src/Channels/Store/Invariant.antt =====
-- What holds of the store between calls.
use mathlib.Core.Path.{subst, subst₂}
use parsec.Channels.Name.Grammar.{IsName}
use parsec.Channels.Name.{Name, to_string, is_private, visibility_public, visibility_private}
use parsec.Channels.Store
use parsec.Channels.Store.Calls.{
  Call, open_public, create_private, touch, delete, set_delta, sweep, after, run,
}
use parsec.Channels.Store.Expiry.{
  after_sweep, after_sweep_kept, after_sweep_expired, expired, expired_iff, lookup-sweep,
  sweep-update_all,
}
use parsec.Channels.Store.{
  state_open, state_closed, Channel, MemoryStore, fresh_channel, is_state_deleted, is_state_closed,
}
use mathlib.Core.Option
use parsec.Common.{
  ℕ, Bool, false, List, [], ◌∷◌, ◌≡◌, inl, inr, refl, sym, ◌∙◌, some, Text, Text-discrete, text_eq,
  lookup, insert, lookup-insert_self, lookup-insert_ne, insert-Distinct, update_all-Distinct,
  Distinct, ℤ, Bool-cases, Option-cases, All,
}

-- The key is the wire form of a well-formed name, and only a public channel is closed.
pub record IsEntry (key : Text) (ch : Channel) : Type 0 where
  pub well_formed : IsName ch.name
  pub keyed : key ≡ to_string ch.name
  pub closed_public : ch.state ≡ state_closed → is_private ch.name ≡ false

pub record IsValid (s : MemoryStore) : Type 0 where
  pub distinct : Distinct s
  pub entry : (key : Text) (ch : Channel) → lookup key s ≡ some ch → IsEntry key ch

-- The names that a call is given were parsed.
abbrev pub IsCall : Call → Type 0
IsCall (open_public name ttl) = IsName name
IsCall (create_private name ttl) = IsName name
IsCall (touch name) = IsName name
IsCall (delete name) = IsName name
IsCall (set_delta name enabled) = IsName name
IsCall sweep = Unit

insert-IsValid :
    (key : Text) (ch : Channel) (s : MemoryStore)
    → IsValid s
    → IsEntry key ch
    → IsValid (insert key ch s)
insert-IsValid key ch s v e = record {
  distinct = insert-Distinct key ch s v.distinct;
  entry = λ k other there. elim (Text-discrete key k) [
    | yes p ↦
        let found : ch ≡ other = cc (p, there, lookup-insert_self key ch s) in
        subst₂ IsEntry p found e
    | no p ↦ v.entry k other (sym (lookup-insert_ne key k ch s p) ∙ there)
  ];
}

-- A write that keeps the name, and closes no private channel, keeps the invariant.
rewrite-IsValid :
    (name : Name) (ch ch' : Channel) (s : MemoryStore)
    → IsValid s
    → lookup (to_string name) s ≡ some ch
    → ch'.name ≡ ch.name
    → (ch'.state ≡ state_closed → ch.state ≡ state_closed)
    → IsValid (insert (to_string name) ch' s)
rewrite-IsValid name ch ch' s v there same_name closed =
    let e = v.entry (to_string name) ch there in
    insert-IsValid (to_string name) ch' s v (record {
      well_formed = rw same_name e.well_formed;
      keyed = rw same_name e.keyed;
      closed_public = λ c. rw same_name (e.closed_public (closed c));
    })

fresh-IsValid :
    (name : Name) (ttl : ℤ) (now : ℕ) (s : MemoryStore)
    → IsValid s
    → IsName name
    → IsValid (insert (to_string name) (fresh_channel name ttl now) s)
fresh-IsValid name ttl now s v w =
    insert-IsValid (to_string name) (fresh_channel name ttl now) s v
      (record { well_formed = w; keyed = refl; closed_public = λ c. cc c })

open_public-IsValid :
    (name : Name) (ttl : ℤ) (now : ℕ) (s : MemoryStore)
    → IsValid s
    → IsName name
    → IsValid (Store.open_public name ttl now s).0
unfolding Store.open_public Store.reopen
open_public-IsValid name ttl now s v w =
    elim (Bool-cases (text_eq name.visibility visibility_public)) [
      | inr e ↦ rw (e, Store.open_public) v
      | inl e ↦ elim (Option-cases (lookup (to_string name) s)) [
        | inl absent ↦ rw (e, absent, Store.open_public) (fresh-IsValid name ttl now s v w)
        | inr (ch, there) ↦ elim (Bool-cases (is_state_deleted ch.state)) [
          | inl d ↦ rw (e, there, Store.open_public, d) v
          | inr d ↦
              rw (e, there, Store.open_public, d)
                (rewrite-IsValid name ch _ s v there refl (λ c. cc c))
        ]
      ]
    ]

create_private-IsValid :
    (name : Name) (ttl : ℤ) (now : ℕ) (s : MemoryStore)
    → IsValid s
    → IsName name
    → IsValid (Store.create_private name ttl now s).0
unfolding Store.create_private
create_private-IsValid name ttl now s v w =
    elim (Bool-cases (text_eq name.visibility visibility_private)) [
      | inr e ↦ rw (e, Store.create_private) v
      | inl e ↦ elim (Option-cases (lookup (to_string name) s)) [
        | inl absent ↦ rw (e, absent, Store.create_private) (fresh-IsValid name ttl now s v w)
        | inr (ch, there) ↦ rw (e, there, Store.create_private) v
      ]
    ]

touch-IsValid :
    (name : Name) (now : ℕ) (s : MemoryStore) → IsValid s → IsValid (Store.touch name now s).0
unfolding Store.touch
touch-IsValid name now s v = elim (Option-cases (lookup (to_string name) s)) [
  | inl absent ↦ rw (absent, Store.touch) v
  | inr (ch, there) ↦ elim (Bool-cases (is_state_deleted ch.state)) [
    | inl d ↦ rw (there, Store.touch, d) v
    | inr d ↦ elim (Bool-cases (is_state_closed ch.state)) [
      | inl c ↦ rw (there, Store.touch, d, c) v
      | inr c ↦ rw (there, Store.touch, d, c) (rewrite-IsValid name ch _ s v there refl (λ k. k))
    ]
  ]
]

pub delete-IsValid :
    (name : Name) (now : ℕ) (s : MemoryStore) → IsValid s → IsValid (Store.delete name now s).0
unfolding Store.delete
delete-IsValid name now s v = elim (Option-cases (lookup (to_string name) s)) [
  | inl absent ↦ rw (absent, Store.delete) v
  | inr (ch, there) ↦
      rw (there, Store.delete) (rewrite-IsValid name ch _ s v there refl (λ c. cc c))
]

set_delta-IsValid :
    (name : Name) (enabled : Bool) (s : MemoryStore)
    → IsValid s
    → IsValid (Store.set_delta name enabled s).0
unfolding Store.set_delta
set_delta-IsValid name enabled s v = elim (Option-cases (lookup (to_string name) s)) [
  | inl absent ↦ rw (absent, Store.set_delta) v
  | inr (ch, there) ↦ elim (Bool-cases (is_state_deleted ch.state)) [
    | inl d ↦ rw (there, Store.set_delta, d) v
    | inr d ↦ rw (there, Store.set_delta, d) (rewrite-IsValid name ch _ s v there refl (λ k. k))
  ]
]

-- The entry that a sweep leaves under a key stands for the entry that was there.
after_sweep-IsEntry :
    (now : ℕ) (key : Text) (ch ch' : Channel)
    → IsEntry key ch
    → after_sweep now ch ≡ some ch'
    → IsEntry key ch'
after_sweep-IsEntry now key ch ch' e h = elim (Bool-cases (expired now ch)) [
  | inr x ↦
      let kept = after_sweep_kept now ch (λ due. cc ((expired_iff now ch).1 due)) in
      subst (IsEntry key) {x = ch} (cc (kept, h)) e
  | inl x ↦
      let gone = after_sweep_expired now ch ((expired_iff now ch).0 x) in
      elim (Bool-cases (is_private ch.name)) [
        | inl p ↦ cc (rw (gone, p) at h)
        | inr p ↦
            subst (IsEntry key) {x = record ch { state = state_closed }} (cc (rw (gone, p) at h))
              (record { well_formed = e.well_formed; keyed = e.keyed; closed_public = λ _. p })
      ]
]

sweep-IsValid : (now : ℕ) (s : MemoryStore) → IsValid s → IsValid (Store.sweep now s).0
unfolding Option.bind
sweep-IsValid now s v = record {
  distinct = rw (sweep-update_all now s) (update_all-Distinct (after_sweep now) s v.distinct);
  entry = λ key ch' there. elim (Option-cases (lookup key s)) [
    | inl absent ↦ cc (rw (lookup-sweep now s key v.distinct, absent) at there)
    | inr (ch, was) ↦
        after_sweep-IsEntry now key ch ch' (v.entry key ch was)
          (rw (lookup-sweep now s key v.distinct, was) at there)
  ];
}

-- Every call with parsed names, at any time and on every branch, keeps the invariant of the store.
pub after-IsValid :
    (c : Call) (now : ℕ) (s : MemoryStore) → IsCall c → IsValid s → IsValid (after c now s)
unfolding after
after-IsValid (open_public name ttl) now s w v = open_public-IsValid name ttl now s v w
after-IsValid (create_private name ttl) now s w v = create_private-IsValid name ttl now s v w
after-IsValid (touch name) now s w v = touch-IsValid name now s v
after-IsValid (delete name) now s w v = delete-IsValid name now s v
after-IsValid (set_delta name enabled) now s w v = set_delta-IsValid name enabled s v
after-IsValid sweep now s w v = sweep-IsValid now s v

-- Every run of timed calls with parsed names keeps the store well formed: no key stands twice, each
-- key is the wire form of its channel's well-formed name, and no private channel is closed.
pub run-IsValid :
    (calls : List (ℕ × Call)) (s : MemoryStore)
    → All (λ c. IsCall c.1) calls
    → IsValid s
    → IsValid (run calls s)
unfolding run
run-IsValid [] s w v = v
run-IsValid ((now, c) ∷ calls) s (w, ws) v =
    run-IsValid calls (after c now s) ws (after-IsValid c now s w v)
