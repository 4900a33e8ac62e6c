-- ===== src/Channels/Store/PrivateTtl.antt =====
-- A bound on the TTL of private channels, over the store's methods.
use mathlib.Core.Option
use parsec.Channels.Name.Grammar.{IsName}
use parsec.Channels.Name.Parsing.{parse_name_iff}
use parsec.Channels.Name.{Name, to_string, is_private, visibility_public, visibility_private}
use parsec.Channels.Store
use parsec.Channels.Store.Expiry.{after_sweep, lookup-sweep}
use parsec.Channels.Store.Invariant.{IsValid}
use parsec.Channels.Store.{
  Channel, Event, MemoryStore, fresh_channel, is_state_closed, is_state_deleted, state_closed,
  state_open, state_deleted,
}
use parsec.Common.{
  ℕ, ◌*◌, ◌^◌, ◌≤◌, ◌<◌, Bool, true, ◌≡◌, inl, inr, refl, sym, ap, ◌∙◌, arith, some, Text, text_eq,
  text_eq_iff, lookup, insert, lookup-insert_cases, Distinct, ℤ, pos_part, Bool-cases, Option-cases,
}

-- More than nothing and at most an hour, in nanoseconds.
abbrev pub IsShort : ℤ → Type 0
IsShort ttl = (0 < pos_part ttl) × (pos_part ttl ≤ 3600 * 10 ^ 9)

-- Every private channel, whatever its state, has a short TTL.
abbrev pub IsLimited : MemoryStore → Type 0
IsLimited s =
    (key : Text) (ch : Channel)
    → lookup key s ≡ some ch
    → is_private ch.name ≡ true
    → IsShort ch.ttl

insert-IsLimited :
    (k : Text) (ch : Channel) (s : MemoryStore)
    → IsLimited s
    → (is_private ch.name ≡ true → IsShort ch.ttl)
    → IsLimited (insert k ch s)
insert-IsLimited k ch s l own key other h p = elim (lookup-insert_cases k key ch other s h) [
  | inl (_, q) ↦ rw (← q) (own (rw (← q) at p))
  | inr (_, q) ↦ l key other q p
]

public_not_private :
    (n : Name) → text_eq n.visibility visibility_public ≡ true → ¬ (is_private n ≡ true)
unfolding is_private
public_not_private n e p =
    let u = (text_eq_iff n.visibility visibility_public).0 e in
    let w = (text_eq_iff n.visibility visibility_private).0 p in cc (sym u ∙ w)

-- Two well-formed names with one wire form are one name.
same_name : (n n' : Name) → IsName n → IsName n' → to_string n ≡ to_string n' → n ≡ n'
same_name n n' w w' e =
    let a = (parse_name_iff (to_string n) n).1 (w, refl) in
    let b = (parse_name_iff (to_string n') n').1 (w', refl) in cc (a, b, e)

pub open_public-IsLimited :
    (name : Name) (ttl : ℤ) (now : ℕ) (s : MemoryStore)
    → IsName name
    → IsValid s
    → IsLimited s
    → IsLimited (Store.open_public name ttl now s).0
unfolding Store.open_public Store.reopen
open_public-IsLimited name ttl now s w v l =
    elim (Bool-cases (text_eq name.visibility visibility_public)) [
      | inr e ↦ rw (e, Store.open_public) l
      | inl e ↦ elim (Option-cases (lookup (to_string name) s)) [
        | inl absent ↦
            rw (e, absent, Store.open_public)
              (insert-IsLimited (to_string name) _ s l (λ p. absurd (public_not_private name e p)))
        | inr (ch, there) ↦ elim (Bool-cases (is_state_deleted ch.state)) [
          | inl d ↦ rw (e, there, Store.open_public, d) l
          | inr d ↦
              let entry = v.entry (to_string name) ch there in
              let same = same_name name ch.name w entry.well_formed entry.keyed in
              rw (e, there, Store.open_public, d)
                (insert-IsLimited (to_string name) _ s l
                  (λ p. absurd (public_not_private name e (ap is_private same ∙ p))))
        ]
      ]
    ]

pub create_private-IsLimited :
    (name : Name) (ttl : ℤ) (now : ℕ) (s : MemoryStore)
    → IsShort ttl
    → IsLimited s
    → IsLimited (Store.create_private name ttl now s).0
unfolding Store.create_private
create_private-IsLimited name ttl now s short l =
    elim (Bool-cases (text_eq name.visibility visibility_private)) [
      | inr e ↦ rw (e, Store.create_private) l
      | inl e ↦ elim (Option-cases (lookup (to_string name) s)) [
        | inl absent ↦
            rw (e, absent, Store.create_private)
              (insert-IsLimited (to_string name) _ s l (λ _. short))
        | inr (ch, there) ↦ rw (e, there, Store.create_private) l
      ]
    ]

pub touch-IsLimited :
    (name : Name) (now : ℕ) (s : MemoryStore) → IsLimited s → IsLimited (Store.touch name now s).0
unfolding Store.touch
touch-IsLimited name now s l = elim (Option-cases (lookup (to_string name) s)) [
  | inl absent ↦ rw (absent, Store.touch) l
  | inr (ch, there) ↦ elim (Bool-cases (is_state_deleted ch.state)) [
    | inl d ↦ rw (there, Store.touch, d) l
    | inr d ↦ elim (Bool-cases (is_state_closed ch.state)) [
      | inl c ↦ rw (there, Store.touch, d, c) l
      | inr c ↦
          rw (there, Store.touch, d, c)
            (insert-IsLimited (to_string name) _ s l (l (to_string name) ch there))
    ]
  ]
]

pub delete-IsLimited :
    (name : Name) (now : ℕ) (s : MemoryStore) → IsLimited s → IsLimited (Store.delete name now s).0
unfolding Store.delete
delete-IsLimited name now s l = elim (Option-cases (lookup (to_string name) s)) [
  | inl absent ↦ rw (absent, Store.delete) l
  | inr (ch, there) ↦
      rw (there, Store.delete)
        (insert-IsLimited (to_string name) _ s l (l (to_string name) ch there))
]

pub set_delta-IsLimited :
    (name : Name) (enabled : Bool) (s : MemoryStore)
    → IsLimited s
    → IsLimited (Store.set_delta name enabled s).0
unfolding Store.set_delta
set_delta-IsLimited name enabled s l = elim (Option-cases (lookup (to_string name) s)) [
  | inl absent ↦ rw (absent, Store.set_delta) l
  | inr (ch, there) ↦ elim (Bool-cases (is_state_deleted ch.state)) [
    | inl d ↦ rw (there, Store.set_delta, d) l
    | inr d ↦
        rw (there, Store.set_delta, d)
          (insert-IsLimited (to_string name) _ s l (l (to_string name) ch there))
  ]
]

-- What a sweep leaves of a channel keeps its name and its TTL.
after_sweep_keeps :
    (now : ℕ) (ch ch' : Channel)
    → after_sweep now ch ≡ some ch'
    → (ch'.name ≡ ch.name) × (ch'.ttl ≡ ch.ttl)
unfolding after_sweep
after_sweep_keeps now ch ch' h = ground arith

pub sweep-IsLimited :
    (now : ℕ) (s : MemoryStore) → Distinct s → IsLimited s → IsLimited (Store.sweep now s).0
unfolding Option.bind
sweep-IsLimited now s d l key ch' h p = elim (Option-cases (lookup key s)) [
  | inl absent ↦ cc (rw (lookup-sweep now s key d, absent) at h)
  | inr (ch, was) ↦
      let (n, t) = after_sweep_keeps now ch ch' (rw (lookup-sweep now s key d, was) at h) in
      rw t (l key ch was (rw n at p))
]
