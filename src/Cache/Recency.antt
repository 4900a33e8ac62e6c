-- ===== src/Cache/Recency.antt =====
-- The cache as a list of entries with the one used last in front: what its methods promise.
use parsec.Cache.Coherence.{
  IsIndexed, name_of, remove-IsIndexed, push-IsIndexed, move-IsIndexed, evict_lem,
}
use parsec.Cache.Elements.{key-element, length-remove}
use parsec.Cache.{MemEntry, MemoryCache, is_expired, element, remove, get, put, delete}
use parsec.Common.{
  ℕ, zero, suc, ◌+◌, ◌≤◌, ◌<◌, List, [], ◌∷◌, Option, none, some, ◌≡◌, refl, sym, ap, ◌∙◌, inl, inr,
  arith, if◌then◌else◌, length, take, Text, text_eq, lookup, insert, ℤ, pos, pos_part, ltb_ℤ,
  Bool-cases, Option-cases,
}

-- The specification: a list of entries, and nothing else.
abbrev pub Recent : Type 0 → Type 0
Recent V = List (MemEntry V)

module _ {V : Type 0} where
  abbrev pub found : Text → ℕ → Recent V → Option (MemEntry V) → Recent V × Option V
  found key now l none = (l, none)
  found key now l (some e) =
      if is_expired now e.expires then (remove key l, none) else (e ∷ remove key l, some e.env)

  unfoldable pub spec_get : Text → ℕ → Recent V → Recent V × Option V
  spec_get key now l = found key now l (element key l)

  unfoldable pub spec_put : Text → V → ℤ → ℕ → ℕ → Recent V → Recent V
  spec_put key env ttl now max l =
      let exp = if ltb_ℤ (pos 0) ttl then some (now + pos_part ttl) else none in
      take max (record { key = key; env = env; expires = exp } ∷ remove key l)

  -- A cache whose map and list belong together, which holds no more than it may.
  pub record IsSound (c : MemoryCache V) : Type 0 where
    pub indexed : IsIndexed c.entries c.order
    pub room : 0 < pos_part c.max_entries
    pub bounded : length c.order ≤ pos_part c.max_entries

  present :
      (key el : Text) (c : MemoryCache V)
      → IsSound c
      → lookup key c.entries ≡ some el
      → (el ≡ key) × (e : MemEntry V) × (element key c.order ≡ some e)
  present key el c s h = elim (Option-cases (element key c.order)) [
    | inl n ↦ absurd (cc (sym h ∙ s.indexed.leads key ∙ ap name_of n))
    | inr (e, p) ↦
        let same : some el ≡ some e.key = sym h ∙ s.indexed.leads key ∙ ap name_of p in
        let key_of : el ≡ e.key = cc same in (key_of ∙ key-element key c.order e p, e, p)
  ]

  absent :
      (key : Text) (c : MemoryCache V)
      → IsSound c
      → lookup key c.entries ≡ none
      → element key c.order ≡ none
  absent key c s h = elim (Option-cases (element key c.order)) [
    | inl n ↦ n
    | inr (e, p) ↦ absurd (cc (sym h ∙ s.indexed.leads key ∙ ap name_of p))
  ]

  remove_absent : (key : Text) (l : Recent V) → element key l ≡ none → remove key l ≡ l
  unfolding element remove
  remove_absent key [] h = refl
  remove_absent key (e ∷ l) h = elim (Bool-cases (text_eq e.key key)) [
    | inl q ↦ absurd (cc (rw (element, q) at h))
    | inr q ↦ rw (remove, q) (ap (◌∷◌ e) (remove_absent key l (rw (element, q) at h)))
  ]

  take_fits : (n : ℕ) (l : Recent V) → length l ≤ n → take n l ≡ l
  take_fits zero [] h = refl
  take_fits zero (x ∷ l) h = absurd (omega arith)
  take_fits (suc n) [] h = refl
  take_fits (suc n) (x ∷ l) h = ap (◌∷◌ x) (take_fits n l (omega arith))

  length-take : (n : ℕ) (l : Recent V) → length (take n l) ≤ n
  length-take zero l = omega arith
  length-take (suc n) [] = omega arith
  length-take (suc n) (x ∷ l) = omega (arith, length-take n l)

  -- In a sound cache, Put ends and leaves a sound cache with the same bound, whose list is the new entry in
  -- front of the others without the old one of its key, cut off at the bound.
  pub put-IsSound :
      (key : Text) (env : V) (ttl : ℤ) (now : ℕ) (c : MemoryCache V)
      → IsSound c
      → (c' : MemoryCache V) × (put key env ttl now c ≡ some c')
        × IsSound c'
        × (c'.order ≡ spec_put key env ttl now (pos_part c.max_entries) c.order)
        × (c'.max_entries ≡ c.max_entries)
  unfolding put spec_put
  put-IsSound key env ttl now c s =
      let exp = if ltb_ℤ (pos 0) ttl then some (now + pos_part ttl) else none in
      let ent : MemEntry V = record { key = key; env = env; expires = exp } in
      elim (Option-cases (lookup key c.entries)) [
        | inl n ↦
            let free = absent key c s n in
            let pushed : MemoryCache V = record c {
              puts = c.puts + 1;
              order = ent ∷ c.order;
              entries = insert key key c.entries;
            } in
            let (c', r, i, o, m) =
              evict_lem (length c.order + 2) pushed
                (push-IsIndexed ent c.entries c.order s.indexed free) s.room (omega arith) in
            let same : c'.order ≡ take (pos_part c.max_entries) (ent ∷ remove key c.order) =
              o
              ∙ ap (λ l. take (pos_part c.max_entries) (ent ∷ l))
                  (sym (remove_absent key c.order free)) in
            (
              c',
              rw (n, put) r,
              record {
                indexed = i;
                room = rw m s.room;
                bounded = rw (m, o) (length-take (pos_part c.max_entries) (ent ∷ c.order));
              },
              same,
              m,
            )
        | inr (el, h) ↦
            let (same, e, p) = present key el c s h in
            let held : element ent.key c.order ≡ some e = p in
            let moved : length (remove key c.order) + 1 ≡ length c.order =
              length-remove key c.order e p in
            let c' : MemoryCache V = record c {
              puts = c.puts + 1;
              order = ent ∷ remove key c.order;
            } in
            (
              c',
              rw (h, put, same) refl,
              record {
                indexed = move-IsIndexed ent e c.entries c.order s.indexed held;
                room = s.room;
                bounded = omega (arith, moved, s.bounded);
              },
              sym (
                  take_fits (pos_part c.max_entries) (ent ∷ remove key c.order)
                    (omega (arith, moved, s.bounded))),
              refl,
            )
      ]

  -- In a sound cache, Get leaves a sound cache with the same bound, whose list and whose answer are those of
  -- the specification.
  pub get-IsSound :
      (key : Text) (now : ℕ) (c : MemoryCache V)
      → IsSound c
      → let (c', v) = get key now c in
        IsSound c'
        × (c'.order ≡ (spec_get key now c.order).0)
        × (v ≡ (spec_get key now c.order).1)
        × (c'.max_entries ≡ c.max_entries)
  unfolding get spec_get
  get-IsSound key now c s = elim (Option-cases (lookup key c.entries)) [
    | inl n ↦
        rw (n, get, absent key c s n)
          (record { indexed = s.indexed; room = s.room; bounded = s.bounded }, refl, refl, refl)
    | inr (el, h) ↦
        let (same, e, p) = present key el c s h in
        let there : element el c.order ≡ some e = ap (λ k. element k c.order) same ∙ p in
        let key_of : e.key ≡ key = key-element key c.order e p in
        let moved : length (remove key c.order) + 1 ≡ length c.order =
          length-remove key c.order e p in
        elim (Bool-cases (is_expired now e.expires)) [
          | inl x ↦
              rw (h, get, there, p, x, same)
                (
                  record {
                    indexed = remove-IsIndexed key e c.entries c.order s.indexed p;
                    room = s.room;
                    bounded = omega (arith, moved, s.bounded);
                  },
                  refl,
                  refl,
                  refl,
                )
          | inr x ↦
              rw (h, get, there, p, x, same)
                (
                  record {
                    indexed = rw (← key_of) (
                        move-IsIndexed e e c.entries c.order s.indexed
                          (ap (λ k. element k c.order) key_of ∙ p));
                    room = s.room;
                    bounded = omega (arith, moved, s.bounded);
                  },
                  refl,
                  refl,
                  refl,
                )
        ]
  ]

  -- In a sound cache, Delete leaves a sound cache with the same bound, whose list is without the key.
  pub delete-IsSound :
      (key : Text) (c : MemoryCache V)
      → IsSound c
      → IsSound (delete key c)
        × ((delete key c).order ≡ remove key c.order)
        × ((delete key c).max_entries ≡ c.max_entries)
  unfolding delete
  delete-IsSound key c s = elim (Option-cases (lookup key c.entries)) [
    | inl n ↦ rw (n, delete) (s, sym (remove_absent key c.order (absent key c s n)), refl)
    | inr (el, h) ↦
        let (same, e, p) = present key el c s h in
        let moved : length (remove key c.order) + 1 ≡ length c.order =
          length-remove key c.order e p in
        rw (h, delete, same)
          (
            record {
              indexed = remove-IsIndexed key e c.entries c.order s.indexed p;
              room = s.room;
              bounded = omega (arith, moved, s.bounded);
            },
            refl,
            refl,
          )
  ]
