-- ===== src/Schema.antt =====
-- schema/pattern.go and schema/registry.go: patterns over channel names, and the registry that finds the
-- pattern of a channel. What a registration says of payloads is a type `D`; subscribers get the
-- change that a method returns.
pub mod Resolving
use parsec.Common.{
  grow_first, ℕ, zero, suc, ◌+◌, Bool, true, false, not, ◌&&◌, ◌||◌, List, [], ◌∷◌, ◌++◌, Option,
  none, some, if◌then◌else◌, ltb, ◌==◌, length, Text, codes, text_eq, text_lt, contains_byte, Map,
  lookup, insert, erase,
}

pub data SchemaError : Type 0 where
  empty_pattern double_not_trailing mixed_segment : SchemaError
  pattern_conflict pattern_not_found no_match : SchemaError

pub data Registered {ℓ} (A : Type ℓ) : Type ℓ where
  done : A → Registered A
  refused : SchemaError → Registered A

-- `patternToken` with its kind
pub data Token : Type 0 where
  tok_literal tok_var : Text → Token
  tok_single tok_double : Token

pub record Pattern : Type 0 where
  pub tokens : List Token
  pub raw : Text

-- `splitPatternSegments`: cuts at '.' and at ':'.
unfoldable pub split_pattern_segments : Text → List Text
split_pattern_segments [] = [] ∷ []
split_pattern_segments (c ∷ s) =
    let rest = split_pattern_segments s in
    if c == 46 || c == 58 then [] ∷ rest else grow_first c rest

-- `s[:len(s)-1]`, for the rest of a text behind its first byte, and whether the last byte is '}'
unfoldable pub unbraced : Text → Text
unbraced [] = []
unbraced (c ∷ []) = []
unbraced (c ∷ d ∷ s) = c ∷ unbraced (d ∷ s)

unfoldable pub ends_braced : Text → Bool
ends_braced [] = false
ends_braced (c ∷ []) = c == 125
ends_braced (c ∷ d ∷ s) = ends_braced (d ∷ s)

-- The name in `{name}`.
unfoldable pub var_of : Text → Option Text
var_of [] = none
var_of (c ∷ s) =
    if c == 123 && ends_braced (c ∷ s) && ltb 2 (length (c ∷ s)) then some (unbraced s) else none

-- One round of the loop of `ParsePattern`; the test is `i == len(segs)-1`.
unfoldable pub parse_token : Bool → Text → Registered Token
parse_token is_last s =
    if text_eq s (codes "**")
    then if not is_last then refused double_not_trailing else done tok_double
    else if text_eq s (codes "*")
    then done tok_single
    else elim (var_of s) [
      | some name ↦ done (tok_var name)
      | none ↦
          if contains_byte s 123 || contains_byte s 125 || contains_byte s 42
          then refused mixed_segment
          else done (tok_literal s)
    ]

abbrev is_empty : List Text → Bool
is_empty [] = true
is_empty (s ∷ segs) = false

-- The loop of `ParsePattern`.
unfoldable pub parse_tokens : List Text → Registered (List Token)
parse_tokens [] = done []
parse_tokens (s ∷ segs) =
    let rest = parse_tokens segs in
    elim (parse_token (is_empty segs) s) [
      | refused e ↦ refused e
      | done t ↦ elim rest [ refused e ↦ refused e | done ts ↦ done (t ∷ ts) ]
    ]

-- `ParsePattern`
unfoldable pub parse_pattern : Text → Registered Pattern
parse_pattern src =
    if text_eq src []
    then refused empty_pattern
    else elim (parse_tokens (split_pattern_segments src)) [
      | refused e ↦ refused e
      | done tokens ↦ done (record { tokens = tokens; raw = src })
    ]

-- The loop of `Pattern.Match` over the tokens and segments that are left, with the bindings so far.
unfoldable pub match_tokens : List Token → List Text → Map Text → Option (Map Text)
match_tokens [] [] bindings = some bindings
match_tokens [] (s ∷ segs) bindings = none
match_tokens (t ∷ tokens) [] bindings = none
match_tokens (tok_double ∷ tokens) (s ∷ segs) bindings = some bindings
match_tokens (tok_single ∷ tokens) (s ∷ segs) bindings = match_tokens tokens segs bindings
match_tokens (tok_var name ∷ tokens) (s ∷ segs) bindings =
    match_tokens tokens segs (insert name s bindings)
match_tokens (tok_literal text ∷ tokens) (s ∷ segs) bindings =
    let rest = match_tokens tokens segs bindings in if not (text_eq s text) then none else rest

-- `Pattern.Match`
unfoldable pub match_channel : Pattern → Text → Option (Map Text)
match_channel p channel = match_tokens p.tokens (split_pattern_segments channel) []

pub record ChannelPattern (D : Type 0) : Type 0 where
  pub pattern : Text
  pub version : ℕ
  pub contract : D
  pub compiled : Pattern

pub record MemoryRegistry (D : Type 0) : Type 0 where
  pub patterns : Map (ChannelPattern D)
  pub versions : Map (List (ChannelPattern D))

pub data Change (D : Type 0) : Type 0 where
  registered updated : ChannelPattern D → Change D
  deregistered : Text → Change D

abbrev pub or_empty {ℓ} : {A : Type ℓ} → Option (List A) → List A
or_empty none = []
or_empty (some xs) = xs

-- `patternSpecificity`
unfoldable pub specificity_of : List Token → ℕ
specificity_of [] = 0
specificity_of (tok_literal s ∷ tokens) = 4 + specificity_of tokens
specificity_of (tok_var s ∷ tokens) = 2 + specificity_of tokens
specificity_of (tok_single ∷ tokens) = 1 + specificity_of tokens
specificity_of (tok_double ∷ tokens) = specificity_of tokens

module _ {D : Type 0} where
  -- `MemoryRegistry.Register`
  unfoldable pub register :
      ChannelPattern D → MemoryRegistry D → Registered (MemoryRegistry D × Change D)
  register p r = elim (parse_pattern p.pattern) [
    | refused e ↦ refused e
    | done cp ↦
        let p' : ChannelPattern D = record p {
          compiled = cp;
          version = if p.version == 0 then 1 else p.version;
        } in
        elim (lookup p.pattern r.patterns) [
          | some _ ↦ refused pattern_conflict
          | none ↦ done (
            record {
              patterns = insert p.pattern p' r.patterns;
              versions = insert p.pattern (p' ∷ []) r.versions;
            },
            registered p',
          )
        ]
  ]

  -- `MemoryRegistry.Update`
  unfoldable pub update :
      ChannelPattern D → MemoryRegistry D → Registered (MemoryRegistry D × Change D)
  update p r = elim (parse_pattern p.pattern) [
    | refused e ↦ refused e
    | done cp ↦ elim (lookup p.pattern r.patterns) [
      | none ↦ refused pattern_not_found
      | some prev ↦
          let p' : ChannelPattern D = record p {
            compiled = cp;
            version = if p.version == 0 then prev.version + 1 else p.version;
          } in
          done (
            record {
              patterns = insert p.pattern p' r.patterns;
              versions =
                  insert p.pattern (or_empty (lookup p.pattern r.versions) ++ p' ∷ []) r.versions;
            },
            updated p',
          )
    ]
  ]

  -- `MemoryRegistry.Deregister`
  unfoldable pub deregister : Text → MemoryRegistry D → Registered (MemoryRegistry D × Change D)
  deregister pattern r = elim (lookup pattern r.patterns) [
    | none ↦ refused pattern_not_found
    | some _ ↦ done (
      record { patterns = erase pattern r.patterns; versions = erase pattern r.versions },
      deregistered pattern,
    )
  ]

  -- `MemoryRegistry.History`
  unfoldable pub history : Text → MemoryRegistry D → Registered (List (ChannelPattern D))
  history pattern r = elim (lookup pattern r.versions) [
    | none ↦ refused pattern_not_found
    | some h ↦ done h
  ]

  -- The comparison of the sort in `Resolve`.
  abbrev pub goes_before : ChannelPattern D → ChannelPattern D → Bool
  goes_before p q =
      let m = specificity_of p.compiled.tokens in
      let n = specificity_of q.compiled.tokens in
      if m == n then text_lt p.pattern q.pattern else ltb n m

  -- `sort.SliceStable` puts a candidate in front of those that do not go before it.
  unfoldable pub place :
      ChannelPattern D × Map Text
      → List (ChannelPattern D × Map Text)
      → List (ChannelPattern D × Map Text)
  place c [] = c ∷ []
  place c (x ∷ xs) = let rest = place c xs in if goes_before x.0 c.0 then x ∷ rest else c ∷ x ∷ xs

  -- The loop over the patterns, and the sort of its matches.
  unfoldable pub candidates : Text → Map (ChannelPattern D) → List (ChannelPattern D × Map Text)
  candidates channel [] = []
  candidates channel ((k, p) ∷ patterns) =
      let rest = candidates channel patterns in
      elim (match_channel p.compiled channel) [ none ↦ rest | some b ↦ place (p, b) rest ]

  abbrev pub first_of :
      List (ChannelPattern D × Map Text) → Registered (ChannelPattern D × Map Text)
  first_of [] = refused no_match
  first_of (c ∷ cs) = done c

  -- `MemoryRegistry.Resolve`
  unfoldable pub resolve : Text → MemoryRegistry D → Registered (ChannelPattern D × Map Text)
  resolve channel r = first_of (candidates channel r.patterns)
