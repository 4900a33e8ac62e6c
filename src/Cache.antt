-- ===== src/Cache.antt =====
-- cache/cache.go: the LRU cache in memory. The list of `container/list` is a list with its front first,
-- and a pointer to one of its elements is the key that the element holds. A key that is not there, a
-- time that is not set and an error are `none`.
pub mod Elements
pub mod Coherence
pub mod Recency
pub mod Refinement
use parsec.Common.{
  ℕ, zero, suc, ◌+◌, ◌-◌, Bool, true, false, not, List, [], ◌∷◌, ◌++◌, Option, none, some,
  if◌then◌else◌, ltb, length, Text, text_eq, Map, lookup, insert, erase, ℤ, pos, pos_part, neg_part,
  ltb_ℤ,
}

-- Envelopes are payloads of a type `V`.
pub record MemEntry (V : Type 0) : Type 0 where
  pub key : Text
  pub env : V
  pub expires : Option ℕ

pub record MemoryCache (V : Type 0) : Type 0 where
  pub max_entries : ℤ
  pub entries : Map Text
  pub order : List (MemEntry V)
  pub hits : ℕ
  pub misses : ℕ
  pub puts : ℕ
  pub evictions : ℕ

-- `Stats`
pub record Stats : Type 0 where
  pub hits : ℕ
  pub misses : ℕ
  pub puts : ℕ
  pub evictions : ℕ
  pub size_entries : ℕ

-- `scopedKey`
abbrev pub scoped_key : Text → Text → Text
scoped_key tenant_id key = tenant_id ++ 58 ∷ key

-- `!expires.IsZero() && now.After(expires)`
abbrev pub is_expired : ℕ → Option ℕ → Bool
is_expired now none = false
is_expired now (some expires) = ltb expires now

module _ {V : Type 0} where
  -- The value of an element.
  unfoldable pub element : Text → List (MemEntry V) → Option (MemEntry V)
  element key [] = none
  element key (e ∷ order) =
      let rest = element key order in if text_eq e.key key then some e else rest

  -- `c.order.Remove(el)`
  unfoldable pub remove : Text → List (MemEntry V) → List (MemEntry V)
  remove key [] = []
  remove key (e ∷ order) =
      let rest = remove key order in if text_eq e.key key then order else e ∷ rest

  -- `c.order.Back()`
  unfoldable pub back : List (MemEntry V) → Option (MemEntry V)
  back [] = none
  back (e ∷ []) = some e
  back (e ∷ f ∷ order) = back (f ∷ order)

  -- `NewMemoryCache`
  unfoldable pub new_memory_cache : ℤ → MemoryCache V
  new_memory_cache max_entries = record {
    max_entries = if not (ltb_ℤ (pos 0) max_entries) then pos 4096 else max_entries;
    entries = [];
    order = [];
    hits = 0;
    misses = 0;
    puts = 0;
    evictions = 0;
  }

  -- `MemoryCache.Get`
  unfoldable pub get : Text → ℕ → MemoryCache V → MemoryCache V × Option V
  get key now c =
      let missed : MemoryCache V = record c { misses = c.misses + 1 } in
      elim (lookup key c.entries) [
        | none ↦ (missed, none)
        | some el ↦ elim (element el c.order) [
          | none ↦ (missed, none)
          | some ent ↦
              if is_expired now ent.expires
              then (
                record c {
                  order = remove el c.order;
                  entries = erase key c.entries;
                  evictions = c.evictions + 1;
                  misses = c.misses + 1;
                },
                none,
              )
              else (record c { order = ent ∷ remove el c.order; hits = c.hits + 1 }, some ent.env)
        ]
      ]

  -- The loop that evicts while there are too many entries; the number is fuel.
  unfoldable pub evict : ℕ → MemoryCache V → Option (MemoryCache V)
  evict zero c = none
  evict (suc fuel) c =
      let rest : MemEntry V → Option (MemoryCache V) = λ last. evict fuel (record c {
        order = remove last.key c.order;
        entries = erase last.key c.entries;
        evictions = c.evictions + 1;
      }) in
      if ltb_ℤ c.max_entries (pos (length c.entries))
      then elim (back c.order) [ none ↦ some c | some last ↦ rest last ]
      else some c

  -- `MemoryCache.Put`; `none` is out of fuel, which there is for each entry and for the last test.
  unfoldable pub put : Text → V → ℤ → ℕ → MemoryCache V → Option (MemoryCache V)
  put key env ttl now c =
      let exp = if ltb_ℤ (pos 0) ttl then some (now + pos_part ttl) else none in
      let ent : MemEntry V = record { key = key; env = env; expires = exp } in
      let pushed : MemoryCache V = record c {
        puts = c.puts + 1;
        order = ent ∷ c.order;
        entries = insert key key c.entries;
      } in
      elim (lookup key c.entries) [
        | some el ↦ some (record c { puts = c.puts + 1; order = ent ∷ remove el c.order })
        | none ↦ evict (length c.order + 2) pushed
      ]

  -- `MemoryCache.Delete`
  unfoldable pub delete : Text → MemoryCache V → MemoryCache V
  delete key c = elim (lookup key c.entries) [
    | none ↦ c
    | some el ↦ record c { order = remove el c.order; entries = erase key c.entries }
  ]

  -- `GetForTenant`, `PutForTenant` and `DeleteForTenant`
  unfoldable pub get_for_tenant : Text → Text → ℕ → MemoryCache V → MemoryCache V × Option V
  get_for_tenant tenant_id key now c = get (scoped_key tenant_id key) now c

  unfoldable pub put_for_tenant : Text → Text → V → ℤ → ℕ → MemoryCache V → Option (MemoryCache V)
  put_for_tenant tenant_id key env ttl now c = put (scoped_key tenant_id key) env ttl now c

  unfoldable pub delete_for_tenant : Text → Text → MemoryCache V → MemoryCache V
  delete_for_tenant tenant_id key c = delete (scoped_key tenant_id key) c

  -- The loop of `sweepOnce` over the elements, from the back on.
  unfoldable pub sweep_elements : ℕ → List (MemEntry V) → MemoryCache V → MemoryCache V
  sweep_elements now [] c = c
  sweep_elements now (e ∷ order) c =
      let c' = sweep_elements now order c in
      let swept : MemoryCache V = record c' {
        order = remove e.key c'.order;
        entries = erase e.key c'.entries;
        evictions = c'.evictions + 1;
      } in
      if is_expired now e.expires then swept else c'

  -- `MemoryCache.sweepOnce`
  unfoldable pub sweep_once : ℕ → MemoryCache V → MemoryCache V
  sweep_once now c = sweep_elements now c.order c

  -- `MemoryCache.Stats`
  unfoldable pub stats : MemoryCache V → Stats
  stats c = record {
    hits = c.hits;
    misses = c.misses;
    puts = c.puts;
    evictions = c.evictions;
    size_entries = length c.entries;
  }
