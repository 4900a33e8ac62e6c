-- ===== src/Common/Strings.antt =====
-- Go strings as lists of bytes, with the functions of the packages strings and bytes that the
-- program calls.
use Prim.Native.Char.{code}
use Prim.Native.Nat.{ℕ, suc}
use Prim.Native.String.{String}
use mathlib.Core.Bool.{Bool, true, false}
use mathlib.Core.List.{List, [], ◌∷◌, ◌++◌, cons-ne-nil}
use mathlib.Core.Logic.{◌≢◌, ◌↔◌, inl, inr}
use mathlib.Core.Option
use mathlib.Core.Option.{Option, none, some}
use mathlib.Core.Path.{◌≡◌, refl, ap, ◌∙◌}
use native.Mathlib.Omega.{arith}
use parsec.Common.Lists.{All}
use parsec.Common.Tests.{◌==◌, ltb, if◌then◌else◌, Bool-cases}

abbrev pub Text : Type 0
Text = List ℕ

-- The code points of a literal; these are its bytes when it is ASCII.
abbrev pub codes : String → Text
codes String.[] = []
codes (String.◌∷◌ c s) = code c ∷ codes s

-- `a == b` on strings.
abbrev pub text_eq : Text → Text → Bool
text_eq [] [] = true
text_eq [] (c ∷ t) = false
text_eq (c ∷ s) [] = false
text_eq (c ∷ s) (d ∷ t) = if c == d then text_eq s t else false

text_eq→eq : (s t : Text) → text_eq s t ≡ true → s ≡ t
text_eq→eq [] [] h = refl
text_eq→eq [] (c ∷ t) h = cc
text_eq→eq (c ∷ s) [] h = cc
text_eq→eq (c ∷ s) (d ∷ t) h = ground (arith, text_eq→eq s t)

pub text_eq_refl : (s : Text) → text_eq s s ≡ true
text_eq_refl [] = refl
text_eq_refl (c ∷ s) = ground (arith, text_eq_refl s)

pub text_eq_iff : (s t : Text) → (text_eq s t ≡ true) ↔ (s ≡ t)
text_eq_iff s t = (text_eq→eq s t, λ e. rw e (text_eq_refl t))

pub ne_of_text_eq : (s t : Text) → text_eq s t ≡ false → s ≢ t
ne_of_text_eq s t h = λ e. cc ((text_eq_iff s t).1 e)

pub text_eq_of_ne : (a b : Text) → a ≢ b → text_eq a b ≡ false
text_eq_of_ne a b h = elim (Bool-cases (text_eq a b)) [
  | inl e ↦ absurd (h ((text_eq_iff a b).0 e))
  | inr e ↦ e
]

-- `a < b` on strings: byte by byte.
unfoldable pub text_lt : Text → Text → Bool
text_lt s [] = false
text_lt [] (d ∷ t) = true
text_lt (c ∷ s) (d ∷ t) = let rest = text_lt s t in if c == d then rest else ltb c d

-- A decision for the keys of maps. It computes on closed texts.
unfoldable pub Text-discrete : Discrete Text
Text-discrete s t = elim (Bool-cases (text_eq s t)) [
  | inl h ↦ yes ((text_eq_iff s t).0 h)
  | inr h ↦ no (ne_of_text_eq s t h)
]

-- `strings.IndexByte`; `none` is -1.
abbrev pub index_byte : Text → ℕ → Option ℕ
index_byte [] b = none
index_byte (c ∷ s) b =
    let later = Option.map suc (index_byte s b) in if c == b then some 0 else later

-- `strings.ContainsRune`, for an ASCII rune.
abbrev pub contains_byte : Text → ℕ → Bool
contains_byte [] b = false
contains_byte (c ∷ s) b = if c == b then true else contains_byte s b

-- Puts a byte in front of the first part.
abbrev pub grow_first : ℕ → List Text → List Text
grow_first c [] = (c ∷ []) ∷ []
grow_first c (p ∷ ps) = (c ∷ p) ∷ ps

-- `strings.Split` with a separator of one byte: always at least one part.
unfoldable pub split : Text → ℕ → List Text
split [] sep = [] ∷ []
split (c ∷ s) sep = let rest = split s sep in if c == sep then [] ∷ rest else grow_first c rest

-- `strings.Join` with a separator of one byte.
unfoldable pub join : List Text → ℕ → Text
join [] sep = []
join (p ∷ []) sep = p
join (p ∷ q ∷ ps) sep = p ++ (sep ∷ join (q ∷ ps) sep)

abbrev pub Lacks : ℕ → Text → Type 0
Lacks b = All (λ c. c ≢ b)

grow_first-ne-nil : (c : ℕ) (ps : List Text) → grow_first c ps ≢ []
grow_first-ne-nil c [] = cons-ne-nil _ _
grow_first-ne-nil c (p ∷ ps) = cons-ne-nil _ _

split-ne-nil : (s : Text) (sep : ℕ) → split s sep ≢ []
unfolding split
split-ne-nil [] sep = cons-ne-nil _ _
split-ne-nil (c ∷ s) sep =
    ground (arith, cons-ne-nil {A = Text} [] (split s sep), grow_first-ne-nil c (split s sep))

join-grow_first :
    (c sep : ℕ) (ps : List Text) → ps ≢ [] → join (grow_first c ps) sep ≡ c ∷ join ps sep
unfolding join
join-grow_first c sep [] h = absurd (h refl)
join-grow_first c sep (p ∷ []) h = refl
join-grow_first c sep (p ∷ q ∷ ps) h = refl

join_empty_first : (sep : ℕ) (ps : List Text) → ps ≢ [] → join ([] ∷ ps) sep ≡ sep ∷ join ps sep
unfolding join
join_empty_first sep [] h = absurd (h refl)
join_empty_first sep (p ∷ ps) h = refl

-- Joining the parts of a split gives the text back.
pub join-split : (s : Text) (sep : ℕ) → join (split s sep) sep ≡ s
unfolding split
join-split [] sep = unfold join in refl
join-split (c ∷ s) sep = ground (
  arith,
  join-split s sep,
  split-ne-nil s sep,
  join-grow_first c sep (split s sep),
  join_empty_first sep (split s sep),
)

split-append :
    (p rest : Text) (sep : ℕ) → Lacks sep p → split (p ++ (sep ∷ rest)) sep ≡ p ∷ split rest sep
unfolding split
split-append [] rest sep h = ground arith
split-append (c ∷ p) rest sep (hc, hp) = ground (arith, split-append p rest sep hp)

split_of_Lacks : (p : Text) (sep : ℕ) → Lacks sep p → split p sep ≡ p ∷ []
unfolding split
split_of_Lacks [] sep h = refl
split_of_Lacks (c ∷ p) sep (hc, hp) = ground (arith, split_of_Lacks p sep hp)

-- Splitting a join gives the parts back, if there is one and none holds the separator.
pub split-join :
    (ps : List Text) (sep : ℕ) → ps ≢ [] → All (Lacks sep) ps → split (join ps sep) sep ≡ ps
unfolding join
split-join [] sep h _ = absurd (h refl)
split-join (p ∷ []) sep h (hp, _) = split_of_Lacks p sep hp
split-join (p ∷ q ∷ ps) sep h (hp, hps) =
    split-append p _ sep hp ∙ ap (◌∷◌ p) (split-join (q ∷ ps) sep (cons-ne-nil _ _) hps)
