-- ===== src/Cache/Coherence.antt =====
-- The map and the list of a cache, and what eviction does to them.
use parsec.Cache.Elements.{
  IsKeyed, key-element, element-remove_ne, element-remove_self, remove-IsKeyed, length-remove,
  element-back, take-remove-back,
}
use parsec.Cache.{MemEntry, MemoryCache, element, remove, back, evict}
use parsec.Common.{
  ℕ, zero, suc, ◌+◌, ◌≤◌, ◌<◌, true, false, List, [], ◌∷◌, Option, none, some, ◌≡◌, refl, sym, ap,
  ◌∙◌, inl, inr, arith, length, take, Text, text_eq_refl, text_eq_of_ne, Text-discrete, Map, lookup,
  insert, erase, Distinct, lookup-erase_self, lookup-erase_ne, erase-Distinct, insert-Distinct,
  lookup-insert_self, lookup-insert_ne, ℤ, pos, negsuc, pos_part, ltb_ℤ, Bool-cases,
}

length-erase : (k v : Text) (m : Map Text) → lookup k m ≡ some v → length (erase k m) + 1 ≡ length m
unfolding lookup erase
length-erase k v [] h = cc h
length-erase k v ((j, w) ∷ m) h = ground (arith, length-erase k v m)

length-insert :
    (k v : Text) (m : Map Text) → lookup k m ≡ none → length (insert k v m) ≡ length m + 1
unfolding lookup insert
length-insert k v [] h = refl
length-insert k v ((j, w) ∷ m) h = ground (arith, length-insert k v m)

too_many : (m : ℤ) (n : ℕ) → 0 < pos_part m → ltb_ℤ m (pos n) ≡ true → pos_part m < n
too_many (pos m) n h q = ground arith
too_many (negsuc m) n h q = absurd (ground arith)

not_too_many : (m : ℤ) (n : ℕ) → 0 < pos_part m → ltb_ℤ m (pos n) ≡ false → n ≤ pos_part m
not_too_many (pos m) n h q = ground arith
not_too_many (negsuc m) n h q = absurd (ground arith)

module _ {V : Type 0} where
  -- The key that an element holds.
  abbrev pub name_of : Option (MemEntry V) → Option Text
  name_of none = none
  name_of (some e) = some e.key

  -- The map leads each key to its element, and there are no others.
  pub record IsIndexed (entries : Map Text) (order : List (MemEntry V)) : Type 0 where
    pub distinct : Distinct entries
    pub keyed : IsKeyed order
    pub same_size : length entries ≡ length order
    pub leads : (k : Text) → lookup k entries ≡ name_of (element k order)

  -- Removing an element and its key.
  pub remove-IsIndexed :
      (k : Text) (e : MemEntry V) (entries : Map Text) (order : List (MemEntry V))
      → IsIndexed entries order
      → element k order ≡ some e
      → IsIndexed (erase k entries) (remove k order)
  remove-IsIndexed k e entries order i h =
      let found : lookup k entries ≡ some e.key = i.leads k ∙ ap name_of h in
      record {
        distinct = erase-Distinct k entries i.distinct;
        keyed = remove-IsKeyed k order i.keyed;
        same_size =
            omega
              (arith, length-erase k e.key entries found, length-remove k order e h, i.same_size);
        leads = λ j. elim (Text-discrete k j) [
          | yes p ↦ rw (← p) (
              lookup-erase_self k entries i.distinct
              ∙ ap name_of (sym (element-remove_self k order i.keyed)))
          | no p ↦
              lookup-erase_ne k j entries p
              ∙ i.leads j
              ∙ ap name_of (sym (element-remove_ne j k order p))
        ];
      }

  -- Pushing a new element to the front.
  pub push-IsIndexed :
      (e : MemEntry V) (entries : Map Text) (order : List (MemEntry V))
      → IsIndexed entries order
      → element e.key order ≡ none
      → IsIndexed (insert e.key e.key entries) (e ∷ order)
  unfolding element
  push-IsIndexed e entries order i h =
      let free : lookup e.key entries ≡ none = i.leads e.key ∙ ap name_of h in
      record {
        distinct = insert-Distinct e.key e.key entries i.distinct;
        keyed = (h, i.keyed);
        same_size = omega (arith, length-insert e.key e.key entries free, i.same_size);
        leads = λ j. elim (Text-discrete e.key j) [
          | yes p ↦ rw (← p, text_eq_refl e.key) (lookup-insert_self e.key e.key entries)
          | no p ↦
              rw (text_eq_of_ne e.key j p) (lookup-insert_ne e.key j e.key entries p ∙ i.leads j)
        ];
      }

  -- Moving an element, with another value, to the front.
  pub move-IsIndexed :
      (ent e : MemEntry V) (entries : Map Text) (order : List (MemEntry V))
      → IsIndexed entries order
      → element ent.key order ≡ some e
      → IsIndexed entries (ent ∷ remove ent.key order)
  unfolding element
  move-IsIndexed ent e entries order i h = record {
    distinct = i.distinct;
    keyed = (element-remove_self ent.key order i.keyed, remove-IsKeyed ent.key order i.keyed);
    same_size = omega (arith, length-remove ent.key order e h, i.same_size);
    leads = λ j. elim (Text-discrete ent.key j) [
      | yes p ↦
          let held : some e.key ≡ some ent.key = ap some (key-element ent.key order e h) in
          rw (← p, text_eq_refl ent.key) (i.leads ent.key ∙ ap name_of h ∙ held)
      | no p ↦
          rw (text_eq_of_ne ent.key j p)
            (i.leads j ∙ ap name_of (sym (element-remove_ne j ent.key order p)))
    ];
  }

  back-cases :
      (order : List (MemEntry V)) → 0 < length order → (e : MemEntry V) × (back order ≡ some e)
  unfolding back
  back-cases [] h = absurd (omega arith)
  back-cases (x ∷ []) h = (x, refl)
  back-cases (x ∷ y ∷ order) h = back-cases (y ∷ order) (omega arith)

  take_whole : (n : ℕ) (order : List (MemEntry V)) → length order ≤ n → take n order ≡ order
  take_whole zero [] h = refl
  take_whole zero (x ∷ order) h = absurd (omega arith)
  take_whole (suc n) [] h = refl
  take_whole (suc n) (x ∷ order) h = ap (◌∷◌ x) (take_whole n order (omega arith))

  -- The loop of Put ends within fuel for each entry and one more, and leaves the front.
  pub evict_lem :
      (fuel : ℕ) (c : MemoryCache V)
      → IsIndexed c.entries c.order
      → 0 < pos_part c.max_entries
      → length c.order < fuel
      → (c' : MemoryCache V) × (evict fuel c ≡ some c')
        × IsIndexed c'.entries c'.order
        × (c'.order ≡ take (pos_part c.max_entries) c.order)
        × (c'.max_entries ≡ c.max_entries)
  unfolding evict
  evict_lem zero c i room f = absurd (omega arith)
  evict_lem (suc fuel) c i room f =
      elim (Bool-cases (ltb_ℤ c.max_entries (pos (length c.entries)))) [
        | inr q ↦
            let fits : length c.order ≤ pos_part c.max_entries =
              omega (arith, i.same_size, not_too_many c.max_entries _ room q) in
            (c, rw (evict, q) refl, i, sym (take_whole _ c.order fits), refl)
        | inl q ↦
            let more : pos_part c.max_entries < length c.order =
              omega (arith, i.same_size, too_many c.max_entries _ room q) in
            let (e, b) = back-cases c.order (omega arith) in
            let found = element-back c.order e i.keyed b in
            let smaller : MemoryCache V = record c {
              order = remove e.key c.order;
              entries = erase e.key c.entries;
              evictions = c.evictions + 1;
            } in
            let (c', r, i', o, m) =
              evict_lem fuel smaller (remove-IsIndexed e.key e c.entries c.order i found) room
                (omega (arith, length-remove e.key c.order e found)) in
            (
              c',
              rw (evict, q, b) r,
              i',
              o ∙ take-remove-back (pos_part c.max_entries) c.order e i.keyed b more,
              m,
            )
      ]
