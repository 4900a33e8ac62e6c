-- ===== src/Auth/Snapshots/Loaded.antt =====
-- The map that the loop of LoadSnapshot builds, and the entries that Snapshot writes, by key id.
use parsec.Auth.KeyRing.{Alg, is_role_retired, Key}
use parsec.Auth.Snapshots.{
  SnapshotKey, Forms, entry_of, key_of_entry, place_entry, entries_of, load_entries,
}
use parsec.Common.{
  false, List, [], ◌∷◌, ◌≡◌, ◌≢◌, ◌⊎◌, inl, inr, refl, ◌∙◌, arith, Option, some, All, Any, Text,
  text_lt, Text-discrete, Map, lookup, insert, lookup-insert_self, lookup-insert_ne,
  insert-Distinct, Distinct, Bool-cases, Option-cases,
}

-- What is found under a key of the map stands in the map.
pub All-lookup :
    {V : Type 0} (Q : V → Type 0) (m : Map V) (j : Text) (w : V)
    → All (λ x. Q x.1) m
    → lookup j m ≡ some w
    → Q w
unfolding lookup
All-lookup Q [] j w h e = absurd (cc e)
All-lookup Q ((i, u) ∷ m) j w (h, hs) e = elim (Text-discrete i j) [
  | yes p ↦ let same : u ≡ w = ground (arith, e, p) in rw (← same) h
  | no p ↦ All-lookup Q m j w hs (ground (arith, e, p))
]

pub All-entries :
    {V : Type 0} (Q : Text → V → Type 0) (m : Map V)
    → Distinct m
    → ((j : Text) (w : V) → lookup j m ≡ some w → Q j w)
    → All (λ x. Q x.0 x.1) m
unfolding lookup
All-entries Q [] d h = tt
All-entries Q ((i, u) ∷ m) (fresh, d) h =
    (h i u (ground arith), All-entries Q m d (λ j w e. h j w (ground (arith, e, fresh))))

place_entry-Any :
    (e : SnapshotKey) (entries : List SnapshotKey) (Q : SnapshotKey → Type 0)
    → Q e ⊎ Any Q entries
    → Any Q (place_entry e entries)
unfolding place_entry
place_entry-Any e [] Q h = h
place_entry-Any e (x ∷ entries) Q h = elim (Bool-cases (text_lt x.id e.id)) [
  | inr l ↦ rw (l, place_entry) h
  | inl l ↦
      rw (l, place_entry)
        (elim h [
          | inl a ↦ inr (place_entry-Any e entries Q (inl a))
          | inr (inl a) ↦ inl a
          | inr (inr a) ↦ inr (place_entry-Any e entries Q (inr a))
        ])
]

place_entry-All :
    (e : SnapshotKey) (entries : List SnapshotKey) (Q : SnapshotKey → Type 0)
    → Q e
    → All Q entries
    → All Q (place_entry e entries)
unfolding place_entry
place_entry-All e [] Q h hs = (h, tt)
place_entry-All e (x ∷ entries) Q h (hx, hs) = elim (Bool-cases (text_lt x.id e.id)) [
  | inl l ↦ rw (l, place_entry) (hx, place_entry-All e entries Q h hs)
  | inr l ↦ rw (l, place_entry) (h, (hx, hs))
]

module _ {S P : Type 0} (f : Forms S P) where
  pub entries_of-All :
      (Q : SnapshotKey → Type 0) (keys : Map (Key S P))
      → All (λ x. is_role_retired x.1.role ≡ false → Q (entry_of f x.1)) keys
      → All Q (entries_of f keys)
  unfolding entries_of
  entries_of-All Q [] h = tt
  entries_of-All Q ((id, k) ∷ keys) (h, hs) = elim (Bool-cases (is_role_retired k.role)) [
    | inl e ↦ rw (e, entries_of) (entries_of-All Q keys hs)
    | inr e ↦
        rw (e, entries_of)
          (place_entry-All (entry_of f k) (entries_of f keys) Q (h e) (entries_of-All Q keys hs))
  ]

  -- A key that is not retired has its entry.
  pub entries_of-Any :
      (Q : SnapshotKey → Type 0) (j : Text) (w : Key S P) (keys : Map (Key S P))
      → lookup j keys ≡ some w
      → is_role_retired w.role ≡ false
      → Q (entry_of f w)
      → Any Q (entries_of f keys)
  unfolding entries_of lookup
  entries_of-Any Q j w [] h e q = absurd (cc h)
  entries_of-Any Q j w ((i, k) ∷ keys) h e q = elim (Text-discrete i j) [
    | yes p ↦
        let same : k ≡ w = ground (arith, h, p) in
        let live : is_role_retired k.role ≡ false = rw same e in
        rw (live, entries_of)
          (place_entry-Any (entry_of f k) (entries_of f keys) Q (inl (rw same q)))
    | no p ↦
        let rest = entries_of-Any Q j w keys (ground (arith, h, p)) e q in
        elim (Bool-cases (is_role_retired k.role)) [
          | inl d ↦ rw (d, entries_of) rest
          | inr d ↦
              rw (d, entries_of) (place_entry-Any (entry_of f k) (entries_of f keys) Q (inr rest))
        ]
  ]

  module _ (encode : Alg → Text → Option Text) where
    -- The entry is read, when it is one for `id`, as `k`.
    abbrev pub Reads : Text → Key S P → SnapshotKey → Type 0
    Reads id k e = e.id ≡ id → key_of_entry f encode e ≡ some k

    pub loaded_found :
        (id : Text) (k : Key S P) (entries : List SnapshotKey) (next loaded : Map (Key S P))
        → load_entries f encode next entries ≡ some loaded
        → All (Reads id k) entries
        → (lookup id next ≡ some k) ⊎ Any (λ e. e.id ≡ id) entries
        → lookup id loaded ≡ some k
    unfolding load_entries
    loaded_found id k [] next loaded h a (inl e) = cc (h, e)
    loaded_found id k [] next loaded h a (inr e) = absurd e
    loaded_found id k (e ∷ entries) next loaded h (a, as_read) x =
        elim (Option-cases (key_of_entry f encode e)) [
          | inl none_read ↦ absurd (cc (rw (load_entries, none_read) at h))
          | inr (w, read) ↦
              let go =
                loaded_found id k entries (insert e.id w next) loaded (rw (load_entries, read) at h)
                  as_read in
              elim (Text-discrete e.id id) [
                | yes p ↦
                    let same : w ≡ k = cc (read, a p) in
                    go (inl (rw (p, same) (lookup-insert_self id k next)))
                | no p ↦ elim x [
                  | inl known ↦ go (inl (lookup-insert_ne e.id id w next p ∙ known))
                  | inr (inl q) ↦ absurd (p q)
                  | inr (inr q) ↦ go (inr q)
                ]
              ]
        ]

    pub loaded_absent :
        (id : Text) (entries : List SnapshotKey) (next loaded : Map (Key S P))
        → load_entries f encode next entries ≡ some loaded
        → All (λ e. e.id ≢ id) entries
        → lookup id loaded ≡ lookup id next
    unfolding load_entries
    loaded_absent id [] next loaded h a = cc h
    loaded_absent id (e ∷ entries) next loaded h (a, apart) =
        elim (Option-cases (key_of_entry f encode e)) [
          | inl none_read ↦ absurd (cc (rw (load_entries, none_read) at h))
          | inr (w, read) ↦
              loaded_absent id entries (insert e.id w next) loaded (rw (load_entries, read) at h)
                apart
              ∙ lookup-insert_ne e.id id w next a
        ]

    pub loaded-Distinct :
        (entries : List SnapshotKey) (next loaded : Map (Key S P))
        → load_entries f encode next entries ≡ some loaded
        → Distinct next
        → Distinct loaded
    unfolding load_entries
    loaded-Distinct [] next loaded h d = let same : next ≡ loaded = cc h in rw (← same) d
    loaded-Distinct (e ∷ entries) next loaded h d = elim (Option-cases (key_of_entry f encode e)) [
      | inl none_read ↦ absurd (cc (rw (load_entries, none_read) at h))
      | inr (w, read) ↦
          loaded-Distinct entries (insert e.id w next) loaded (rw (load_entries, read) at h)
            (insert-Distinct e.id w next d)
    ]

    -- Entries that are all read are loaded.
    pub load_entries_total :
        (entries : List SnapshotKey) (next : Map (Key S P))
        → All (λ e. (k : Key S P) × (key_of_entry f encode e ≡ some k)) entries
        → (loaded : Map (Key S P)) × (load_entries f encode next entries ≡ some loaded)
    unfolding load_entries
    load_entries_total [] next h = (next, refl)
    load_entries_total (e ∷ entries) next ((k, read), hs) =
        let (loaded, eq) = load_entries_total entries (insert e.id k next) hs in
        (loaded, rw (load_entries, read) eq)
