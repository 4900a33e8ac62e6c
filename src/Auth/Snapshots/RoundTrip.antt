-- ===== src/Auth/Snapshots/RoundTrip.antt =====
-- A ring, written to a snapshot and loaded again.
use parsec.Auth.KeyRing.Validity.{IsKeyed, IsValid}
use parsec.Auth.KeyRing.{Alg, is_role_retired, done, Key, KeyRing, new_key_ring}
use parsec.Auth.Snapshots.Entries.{IsReadable, IsMade, key_of_entry-entry_of}
use parsec.Auth.Snapshots.Loaded.{
  All-lookup, All-entries, entries_of-All, entries_of-Any, Reads, loaded_found, loaded_absent,
  loaded-Distinct, load_entries_total,
}
use parsec.Auth.Snapshots.{
  Forms, entry_of, key_of_entry, entries_of, load_entries, snapshot, load_snapshot,
}
use parsec.Common.{
  false, [], ◌≡◌, ◌≢◌, inl, inr, refl, sym, ◌∙◌, ap, Option, none, some, if◌then◌else◌, All, Text,
  text_eq_of_ne, Map, lookup, Bool-cases, Option-cases,
}

-- What a snapshot keeps of a key.
abbrev pub live : {S P : Type 0} → Option (Key S P) → Option (Key S P)
live none = none
live (some k) = if is_role_retired k.role then none else some k

live-some :
    {S P : Type 0} (o : Option (Key S P)) (k : Key S P)
    → live o ≡ some k
    → (o ≡ some k) × (is_role_retired k.role ≡ false)
live-some none k h = absurd (cc h)
live-some (some w) k h = elim (Bool-cases (is_role_retired w.role)) [
  | inl e ↦ absurd (cc (rw e at h))
  | inr e ↦ let same : w ≡ k = cc (rw e at h) in rw (← same) (refl, e)
]

live-none :
    {S P : Type 0} (o : Option (Key S P)) (k : Key S P)
    → live o ≡ none
    → o ≡ some k
    → is_role_retired k.role ≢ false
live-none o k h e live_key = cc (rw (e, live_key) at h)

module _ {S P : Type 0} (f : Forms S P) (encode : Alg → Text → Option Text) where
  -- The map `loaded` holds, under every id, the key of `r` that is not retired.
  abbrev pub Restores : KeyRing S P → Map (Key S P) → Type 0
  Restores r loaded = (id : Text) → lookup id loaded ≡ live (lookup id r.by_id)

  module _ (r : KeyRing S P) (h : IsReadable f) (made : All (λ x. IsMade f encode x.1) r.by_id)
      (keyed : IsKeyed r.by_id) where
    reads_back :
        (j : Text) (w : Key S P)
        → lookup j r.by_id ≡ some w
        → key_of_entry f encode (entry_of f w) ≡ some w
    reads_back j w e =
        key_of_entry-entry_of f encode w h (All-lookup (IsMade f encode) r.by_id j w made e)

    found_again :
        (id : Text) (k : Key S P) (loaded : Map (Key S P))
        → load_entries f encode [] (entries_of f r.by_id) ≡ some loaded
        → lookup id r.by_id ≡ some k
        → is_role_retired k.role ≡ false
        → lookup id loaded ≡ some k
    unfolding entry_of
    found_again id k loaded l e n =
        loaded_found f encode id k (entries_of f r.by_id) [] loaded l
          (entries_of-All f (Reads f encode id k) r.by_id (
            All-entries (λ j w. is_role_retired w.role ≡ false → Reads f encode id k (entry_of f w))
              r.by_id keyed.distinct
              (λ j w q n' own.
                let under : lookup id r.by_id ≡ some w =
                  ap (λ (x : Text). lookup x r.by_id) (sym own ∙ (keyed.keyed j w q).0) ∙ q in
                let same : w ≡ k = cc (under, e) in reads_back j w q ∙ ap some same)))
          (inr (entries_of-Any f (λ x. x.id ≡ id) id k r.by_id e n (keyed.keyed id k e).0))

    absent_again :
        (id : Text) (loaded : Map (Key S P))
        → load_entries f encode [] (entries_of f r.by_id) ≡ some loaded
        → live (lookup id r.by_id) ≡ none
        → lookup id loaded ≡ none
    unfolding entry_of lookup
    absent_again id loaded l e = loaded_absent f encode id (entries_of f r.by_id) [] loaded l (
        entries_of-All f (λ x. x.id ≢ id) r.by_id
          (All-entries (λ j w. is_role_retired w.role ≡ false → (entry_of f w).id ≢ id) r.by_id
            keyed.distinct
            (λ j w q n own.
              let under : lookup id r.by_id ≡ some w =
                ap (λ (x : Text). lookup x r.by_id) (sym own ∙ (keyed.keyed j w q).0) ∙ q in
              live-none (lookup id r.by_id) w e under n)))

    loaded-Restores :
        (loaded : Map (Key S P))
        → load_entries f encode [] (entries_of f r.by_id) ≡ some loaded
        → Restores r loaded
    loaded-Restores loaded l id = elim (Option-cases (live (lookup id r.by_id))) [
      | inl e ↦ absent_again id loaded l e ∙ sym e
      | inr (k, e) ↦
          let (found, n) = live-some (lookup id r.by_id) k e in
          found_again id k loaded l found n ∙ sym e
    ]

    loads :
        (loaded : Map (Key S P)) × (load_entries f encode [] (entries_of f r.by_id) ≡ some loaded)
    loads = load_entries_total f encode (entries_of f r.by_id) [] (
        entries_of-All f (λ e. (k : Key S P) × (key_of_entry f encode e ≡ some k)) r.by_id
          (All-entries
            (λ j w.
              is_role_retired w.role ≡ false
              → (k : Key S P) × (key_of_entry f encode (entry_of f w) ≡ some k))
            r.by_id keyed.distinct (λ j w q n. (w, reads_back j w q))))

  -- The snapshot of an empty ring.
  empty_accepted :
      (r' : KeyRing S P) (loaded : Map (Key S P))
      → load_entries f encode [] (entries_of f []) ≡ some loaded
      → load_snapshot f encode (snapshot f new_key_ring) r'
        ≡ (record { by_id = loaded; active = [] }, done tt)
  unfolding load_snapshot snapshot entries_of load_entries lookup
  empty_accepted r' loaded l =
      let same : ◌≡◌ {A = Map (Key S P)} [] loaded = cc l in
      ap (λ m. (record { by_id = m; active = [] }, done tt)) same

  new_accepted :
      (r r' : KeyRing S P) (loaded : Map (Key S P))
      → r ≡ new_key_ring
      → load_entries f encode [] (entries_of f r.by_id) ≡ some loaded
      → load_snapshot f encode (snapshot f r) r'
        ≡ (record { by_id = loaded; active = r.active }, done tt)
  new_accepted r r' loaded new l = rw new (empty_accepted r' loaded (rw new at l))

  accepts :
      (r r' : KeyRing S P) (loaded : Map (Key S P))
      → IsValid r
      → load_entries f encode [] (entries_of f r.by_id) ≡ some loaded
      → Restores r loaded
      → load_snapshot f encode (snapshot f r) r'
        ≡ (record { by_id = loaded; active = r.active }, done tt)
  unfolding load_snapshot snapshot entries_of
  accepts r r' loaded v l restores = elim v.present [
    | inl new ↦ new_accepted r r' loaded new l
    | inr (k, found, active) ↦
        let there : lookup r.active loaded ≡ some k = rw (restores r.active, found, active) refl in
        rw
          (
            load_snapshot,
            snapshot,
            text_eq_of_ne r.active [] ((v.entries.keyed r.active k found).1),
            l,
            there,
          )
          refl
  ]

  loaded-IsValid :
      (r : KeyRing S P) (loaded : Map (Key S P))
      → IsValid r
      → load_entries f encode [] (entries_of f r.by_id) ≡ some loaded
      → Restores r loaded
      → IsValid (record { by_id = loaded; active = r.active })
  unfolding entries_of load_entries
  loaded-IsValid r loaded v l restores = record {
    entries = record {
      distinct = loaded-Distinct f encode (entries_of f r.by_id) [] loaded l tt;
      keyed = λ id k e. v.entries.keyed id k (live-some _ k (sym (restores id) ∙ e)).0;
    };
    unique = λ id k e act. v.unique id k (live-some _ k (sym (restores id) ∙ e)).0 act;
    present = elim v.present [
      | inl new ↦ inl (
          let l' : load_entries f encode [] (entries_of f []) ≡ some loaded = rw new at l in
          let same : ◌≡◌ {A = Map (Key S P)} [] loaded = cc l' in rw (new, ← same) refl)
      | inr (k, found, active) ↦ inr (k, (rw (restores r.active, found, active) refl), active)
    ];
  }

  -- Let hexadecimal numbers, times and the PEM forms of the ring's keys be read back, and let the keys
  -- be as the ring makes them. The snapshot of a valid ring is then loaded without an error into any
  -- ring, whatever that held: behind the load every id has the key that it had in the first ring, the
  -- same in every field, if that was not retired, and no key otherwise; the active id is the same, and
  -- the loaded ring is valid.
  pub load_snapshot-snapshot :
      (r r' : KeyRing S P)
      → IsReadable f
      → All (λ x. IsMade f encode x.1) r.by_id
      → IsValid r
      → (loaded : Map (Key S P)) × (load_snapshot f encode (snapshot f r) r'
          ≡ (record { by_id = loaded; active = r.active }, done tt))
        × ((id : Text) → lookup id loaded ≡ live (lookup id r.by_id))
        × IsValid (record { by_id = loaded; active = r.active })
  load_snapshot-snapshot r r' h made v =
      let (loaded, l) = loads r h made v.entries in
      let restores = loaded-Restores r h made v.entries loaded l in
      (loaded, accepts r r' loaded v l restores, restores, loaded-IsValid r loaded v l restores)
