-- ===== src/Cache/Refinement.antt =====
-- Runs of the cache against runs of the specification.

use parsec.Cache.Recency.{
  Recent, spec_get, spec_put, IsSound, put-IsSound, get-IsSound, delete-IsSound,
}
use parsec.Cache.{MemoryCache, new_memory_cache, element, remove, get, put, delete}
use parsec.Common.{
  ℕ, ◌≤◌, ◌<◌, not, List, [], ◌∷◌, Option, none, some, ◌≡◌, refl, ap, ◌∙◌, arith, if◌then◌else◌,
  length, Text, lookup, ℤ, pos, negsuc, pos_part, ltb_ℤ,
}

-- The methods.
pub data Op (V : Type 0) : Type 0 where
  op_get : Text → Op V
  op_put : Text → V → ℤ → Op V
  op_delete : Text → Op V

made_with_room : (n : ℤ) → 0 < pos_part (if not (ltb_ℤ (pos 0) n) then pos 4096 else n)
made_with_room (pos n) = ground arith
made_with_room (negsuc n) = ground arith

module _ {V : Type 0} where
  unfoldable pub step : Op V → ℕ → MemoryCache V → Option (MemoryCache V × Option V)
  step (op_get key) now c = some (get key now c)
  step (op_put key env ttl) now c = elim (put key env ttl now c) [
    | none ↦ none
    | some c' ↦ some (c', none)
  ]
  step (op_delete key) now c = some (delete key c, none)

  unfoldable pub spec_step : ℕ → Op V → ℕ → Recent V → Recent V × Option V
  spec_step max (op_get key) now l = spec_get key now l
  spec_step max (op_put key env ttl) now l = (spec_put key env ttl now max l, none)
  spec_step max (op_delete key) now l = (remove key l, none)

  -- Timed calls, one after the other, and their answers; `none` if one does not end.
  unfoldable pub run : List (ℕ × Op V) → MemoryCache V → Option (MemoryCache V × List (Option V))
  run [] c = some (c, [])
  run ((now, op) ∷ ops) c = elim (step op now c) [
    | none ↦ none
    | some (c', v) ↦ elim (run ops c') [ none ↦ none | some (c'', vs) ↦ some (c'', v ∷ vs) ]
  ]

  unfoldable pub spec_run : ℕ → List (ℕ × Op V) → Recent V → Recent V × List (Option V)
  spec_run max [] l = (l, [])
  spec_run max ((now, op) ∷ ops) l =
      let (l', v) = spec_step max op now l in let (l'', vs) = spec_run max ops l' in (l'', v ∷ vs)

  step_refines :
      (op : Op V) (now : ℕ) (c : MemoryCache V)
      → IsSound c
      → (c' : MemoryCache V) × (v : Option V) × (step op now c ≡ some (c', v))
        × IsSound c'
        × (c'.order ≡ (spec_step (pos_part c.max_entries) op now c.order).0)
        × (v ≡ (spec_step (pos_part c.max_entries) op now c.order).1)
        × (c'.max_entries ≡ c.max_entries)
  unfolding step spec_step
  step_refines (op_get key) now c s =
      let (a, b, d, e) = get-IsSound key now c s in
      ((get key now c).0, (get key now c).1, refl, a, b, d, e)
  step_refines (op_put key env ttl) now c s =
      let (c', r, a, b, e) = put-IsSound key env ttl now c s in
      (c', none, rw (r, step) refl, a, b, refl, e)
  step_refines (op_delete key) now c s =
      let (a, b, e) = delete-IsSound key c s in (delete key c, none, refl, a, b, refl, e)

  run_refines :
      (ops : List (ℕ × Op V)) (c : MemoryCache V) (max : ℕ) (l : Recent V)
      → IsSound c
      → pos_part c.max_entries ≡ max
      → c.order ≡ l
      → (c' : MemoryCache V) × (vs : List (Option V)) × (run ops c ≡ some (c', vs))
        × IsSound c'
        × (c'.order ≡ (spec_run max ops l).0)
        × (vs ≡ (spec_run max ops l).1)
        × (c'.max_entries ≡ c.max_entries)
  unfolding run spec_run
  run_refines [] c max l s p q = (c, [], refl, s, q, refl, refl)
  run_refines ((now, op) ∷ ops) c max l s p q =
      let (c1, v, r1, s1, o1, v1, m1) = step_refines op now c s in
      let state : c1.order ≡ (spec_step max op now l).0 = rw (← p, ← q) o1 in
      let answer : v ≡ (spec_step max op now l).1 = rw (← p, ← q) v1 in
      let (c2, vs, r2, s2, o2, v2, m2) =
        run_refines ops c1 max (spec_step max op now l).0 s1 (ap pos_part m1 ∙ p) state in
      (
        c2,
        v ∷ vs,
        rw (r1, run, r2) refl,
        s2,
        o2,
        ap (λ a. a ∷ vs) answer ∙ ap (◌∷◌ (spec_step max op now l).1) v2,
        m2 ∙ m1,
      )

  new_memory_cache-IsSound : (n : ℤ) → IsSound (new_memory_cache {V = V} n)
  unfolding new_memory_cache lookup element
  new_memory_cache-IsSound n = record {
    indexed = record { distinct = tt; keyed = tt; same_size = refl; leads = λ k. refl };
    room = made_with_room n;
    bounded = omega arith;
  }

  -- From a new cache, whatever bound it is made with, every run of timed calls of Get, Put and Delete ends;
  -- its answers, and the list that it leaves, are those of a plain list of entries that is cut off at
  -- the bound, with the entry used last in front; and the map holds as many keys as that list, never
  -- more than the bound.
  pub new_cache_refines :
      (n : ℤ) (ops : List (ℕ × Op V))
      → let new : MemoryCache V = new_memory_cache n in
        let (l, answers) = spec_run (pos_part new.max_entries) ops [] in
        (c : MemoryCache V) × (run ops new ≡ some (c, answers))
        × (c.order ≡ l)
        × (length c.entries ≡ length l)
        × (length c.entries ≤ pos_part new.max_entries)
  unfolding new_memory_cache
  new_cache_refines n ops =
      let new : MemoryCache V = new_memory_cache n in
      let (c, vs, r, s, o, v, m) =
        run_refines ops new (pos_part new.max_entries) [] (new_memory_cache-IsSound n) refl refl in
      (
        c,
        r ∙ ap (λ a. some (c, a)) v,
        o,
        s.indexed.same_size ∙ ap length o,
        rw (← m) (omega (arith, s.indexed.same_size, s.bounded)),
      )
