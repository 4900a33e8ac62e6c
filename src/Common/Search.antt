-- ===== src/Common/Search.antt =====
-- The laws of the searches for a byte: `strings.IndexByte` and `strings.ContainsRune`.
use Prim.Native.Nat.{ℕ, zero, suc}
use mathlib.Core.Bool.{false}
use mathlib.Core.List.{[], ◌∷◌, ◌++◌}
use mathlib.Core.Logic.{◌↔◌}
use mathlib.Core.Option.{some}
use mathlib.Core.Path.{◌≡◌, refl, ap}
use native.Mathlib.Omega.{arith}
use parsec.Common.Lists.{length, take, drop}
use parsec.Common.Strings.{Text, Lacks, index_byte, contains_byte}

-- What stands at, before and behind the index that a search finds.
pub index_byte_found :
    (s : Text) (b i : ℕ)
    → index_byte s b ≡ some i
    → (s ≡ take i s ++ b ∷ drop (suc i) s) × Lacks b (take i s)
index_byte_found [] b i h = cc
index_byte_found (c ∷ s) b zero h = ground arith
index_byte_found (c ∷ s) b (suc i) h = ground (arith, index_byte_found s b i)

pub index_byte-append :
    (p r : Text) (b : ℕ) → Lacks b p → index_byte (p ++ b ∷ r) b ≡ some (length p)
index_byte-append [] r b h = ground arith
index_byte-append (c ∷ p) r b (hc, hp) = ground (arith, index_byte-append p r b hp)

pub take-append : (p r : Text) → take (length p) (p ++ r) ≡ p
take-append [] r = refl
take-append (c ∷ p) r = ap (◌∷◌ c) (take-append p r)

pub drop-append : (p r : Text) → drop (length p) (p ++ r) ≡ r
drop-append [] r = refl
drop-append (c ∷ p) r = drop-append p r

pub contains_byte_iff : (s : Text) (b : ℕ) → (contains_byte s b ≡ false) ↔ Lacks b s
contains_byte_iff [] b = (λ h. tt, λ h. refl)
contains_byte_iff (c ∷ s) b = ground (arith, contains_byte_iff s b)
