-- ===== src/Tests/Caching.antt =====
-- The theorems on the cache.
use parsec.Cache.Refinement.{Op, op_get, op_put, op_delete, run, spec_run, new_cache_refines}
use parsec.Cache.{MemoryCache, new_memory_cache, scoped_key}
use parsec.Common.{ℕ, ◌≤◌, List, [], ◌∷◌, some, ◌≡◌, refl, length, codes, pos, pos_part}

-- Three keys in a cache for two.
abbrev ops : List (ℕ × Op ℕ)
ops =
    (1, op_put (codes "a") 10 (pos 0))
    ∷ (2, op_put (codes "b") 20 (pos 5))
    ∷ (3, op_get (codes "a"))
    ∷ (4, op_put (codes "c") 30 (pos 0))
    ∷ (5, op_get (codes "b"))
    ∷ (6, op_delete (codes "a"))
    ∷ []

new_cache_refines_example :
    let new : MemoryCache ℕ = new_memory_cache (pos 2) in
    let (l, answers) = spec_run (pos_part new.max_entries) ops [] in
    (c : MemoryCache ℕ) × (run ops new ≡ some (c, answers))
    × (c.order ≡ l)
    × (length c.entries ≡ length l)
    × (length c.entries ≤ pos_part new.max_entries)
new_cache_refines_example = new_cache_refines (pos 2) ops

-- Two tenants meet in one key.
tenants_meet : scoped_key (codes "a") (codes "b:c") ≡ scoped_key (codes "a:b") (codes "c")
tenants_meet = refl
