-- ===== src/Common/Maps.antt =====
-- A Go `map[string]V` as an association list in the order in which a `range` loop visits it. No
-- lemma here depends on that order.
use mathlib.Core.List.{List, [], ◌∷◌}
use mathlib.Core.Logic.{◌≢◌, ◌⊎◌, inl, inr, ite}
use mathlib.Core.Option
use mathlib.Core.Option.{Option, none, some}
use mathlib.Core.Path.{◌≡◌, refl, sym, ◌∙◌}
use native.Mathlib.Omega.{arith}
use parsec.Common.Tests.{Option-cases}
use parsec.Common.Strings.{Text, Text-discrete}

abbrev pub Map {ℓ} : Type ℓ → Type ℓ
Map V = List (Text × V)

module _ {ℓ} {V : Type ℓ} where
  -- `v, ok := m[k]`
  unfoldable pub lookup : Text → Map V → Option V
  lookup k [] = none
  lookup k ((j, v) ∷ m) = ite (Text-discrete j k) (some v) (lookup k m)

  -- `m[k] = v`, also where the source writes through the pointer that it found under `k`
  unfoldable pub insert : Text → V → Map V → Map V
  insert k v [] = (k, v) ∷ []
  insert k v ((j, w) ∷ m) = ite (Text-discrete j k) ((k, v) ∷ m) ((j, w) ∷ insert k v m)

  -- `delete(m, k)`
  unfoldable pub erase : Text → Map V → Map V
  erase k [] = []
  erase k ((j, w) ∷ m) = ite (Text-discrete j k) m ((j, w) ∷ erase k m)

  put : Text → Option V → Map V → Map V
  put k none m = m
  put k (some v) m = (k, v) ∷ m

  -- A `range` loop that rewrites the value under each key, or deletes the key.
  unfoldable pub update_all : (V → Option V) → Map V → Map V
  unfolding put
  update_all f [] = []
  update_all f ((k, v) ∷ m) = put k (f v) (update_all f m)

  -- No key stands twice: what every Go map satisfies.
  abbrev pub Distinct : Map V → Type ℓ
  Distinct [] = Unit
  Distinct ((k, v) ∷ m) = (lookup k m ≡ none) × Distinct m

  pub lookup-insert :
      (k j : Text) (v : V) (m : Map V)
      → lookup j (insert k v m) ≡ ite (Text-discrete k j) (some v) (lookup j m)
  unfolding lookup insert
  lookup-insert k j v [] = refl
  lookup-insert k j v ((i, w) ∷ m) = ground (arith, lookup-insert k j v m)

  pub lookup-insert_self : (k : Text) (v : V) (m : Map V) → lookup k (insert k v m) ≡ some v
  lookup-insert_self k v m = ground (arith, lookup-insert k k v m)

  pub lookup-insert_ne :
      (k j : Text) (v : V) (m : Map V) → k ≢ j → lookup j (insert k v m) ≡ lookup j m
  lookup-insert_ne k j v m h = ground (arith, lookup-insert k j v m)

  pub insert-Distinct : (k : Text) (v : V) (m : Map V) → Distinct m → Distinct (insert k v m)
  unfolding lookup insert
  insert-Distinct k v [] d = (refl, tt)
  insert-Distinct k v ((i, w) ∷ m) d = ground (arith, insert-Distinct k v m, lookup-insert k i v m)

  pub lookup-erase_self : (k : Text) (m : Map V) → Distinct m → lookup k (erase k m) ≡ none
  unfolding lookup erase
  lookup-erase_self k [] d = refl
  lookup-erase_self k ((i, w) ∷ m) d = ground (arith, lookup-erase_self k m)

  pub lookup-erase_ne : (k j : Text) (m : Map V) → k ≢ j → lookup j (erase k m) ≡ lookup j m
  unfolding lookup erase
  lookup-erase_ne k j [] h = refl
  lookup-erase_ne k j ((i, w) ∷ m) h = ground (arith, lookup-erase_ne k j m)

  pub erase-Distinct : (k : Text) (m : Map V) → Distinct m → Distinct (erase k m)
  unfolding lookup erase
  erase-Distinct k [] d = tt
  erase-Distinct k ((i, w) ∷ m) d = ground (arith, erase-Distinct k m, lookup-erase_ne k i m)

  -- Every key is treated on its own, whatever the order of the loop.
  pub lookup-update_all :
      (f : V → Option V) (k : Text) (m : Map V)
      → Distinct m
      → lookup k (update_all f m) ≡ Option.bind (lookup k m) f
  unfolding lookup update_all Option.bind
  lookup-update_all f k [] d = refl
  lookup-update_all f k ((i, w) ∷ m) d = elim (Option-cases (f w)) [
    | inl e ↦ ground (arith, lookup-update_all f k m d.1)
    | inr (v, e) ↦ ground (arith, lookup-update_all f k m d.1)
  ]

  pub update_all-Distinct : (f : V → Option V) (m : Map V) → Distinct m → Distinct (update_all f m)
  unfolding update_all Option.bind
  update_all-Distinct f [] d = tt
  update_all-Distinct f ((i, w) ∷ m) d =
      ground (arith, update_all-Distinct f m, lookup-update_all f i m d.1)

  pub insert-insert : (k : Text) (v w : V) (m : Map V) → insert k v (insert k w m) ≡ insert k v m
  unfolding insert
  insert-insert k v w [] = ground arith
  insert-insert k v w ((i, u) ∷ m) = ground (arith, insert-insert k v w m)

  -- A value found behind a write is the one written, or stood there under another key.
  pub lookup-insert_cases :
      (k j : Text) (v w : V) (m : Map V)
      → lookup j (insert k v m) ≡ some w
      → ((k ≡ j) × (v ≡ w)) ⊎ ((k ≢ j) × (lookup j m ≡ some w))
  lookup-insert_cases k j v w m h = elim (Text-discrete k j) [
    | yes p ↦ inl (p, cc (p, h, lookup-insert_self k v m))
    | no p ↦ inr (p, sym (lookup-insert_ne k j v m p) ∙ h)
  ]
