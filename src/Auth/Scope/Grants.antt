-- ===== src/Auth/Scope/Grants.antt =====
-- What `Claims.Authorizes` decides, stated with no loop and no cache.
use parsec.Auth.Scope.{
  Verb, Scope, Claims, compiled, allows_verb, matches_verb, any_scope, lists_channel, parsed_name,
  passes, authorizes,
}
use parsec.Channels.Name.{Name, parse_name}
use parsec.Channels.Pattern.{Pattern, parse_pattern, matches}
use parsec.Common.{
  Bool, true, false, not, List, [], ◌∷◌, ◌≡◌, ◌↔◌, ◌⊎◌, inl, inr, refl, arith, none, some,
  if◌then◌else◌, ◌&&◌, ◌||◌, Option-cases, All, Any, Text, text_eq_iff, Bool-cases, ltb, length,
  ◌∙◌, sym, ap,
}
use parsec.Errors.{Code, ok, err, Result-cases}

-- The cache of a scope is empty or holds what parsing its pattern gives.
abbrev pub IsCoherent : Scope → Type 0
IsCoherent s = (s.cached ≡ none) ⊎ (s.cached ≡ some (parse_pattern s.pattern))

-- The scope lists the verb, and its pattern parses and matches the name.
pub record Covers (name : Name) (v : Verb) (s : Scope) : Type 0 where
  pub pattern : Pattern
  pub parsed : parse_pattern s.pattern ≡ ok pattern
  pub matching : matches pattern name ≡ true
  pub listed : Any (λ w. w ≡ v) s.verbs

-- `Covers` as a test.
covers : Name → Verb → Scope → Bool
covers name v s = elim (parse_pattern s.pattern) [
  | err _ ↦ false
  | ok p ↦ matches p name && allows_verb s.verbs v
]

any_covers : Bool → Name → Verb → List Scope → Bool
any_covers denying name v [] = false
any_covers denying name v (s ∷ scopes) =
    ((if denying then s.deny else not s.deny) && covers name v s)
    || any_covers denying name v scopes

abbrev pub forget : Scope → Scope
forget s = record s { cached = none }

abbrev pub forget_all : List Scope → List Scope
forget_all [] = []
forget_all (s ∷ scopes) = forget s ∷ forget_all scopes

allows_verb_iff :
    (verbs : List Verb) (v : Verb) → (allows_verb verbs v ≡ true) ↔ Any (λ w. w ≡ v) verbs
unfolding allows_verb
allows_verb_iff [] v = ground arith
allows_verb_iff (w ∷ verbs) v = ground (arith, allows_verb_iff verbs v, text_eq_iff w v)

covers_sound : (name : Name) (v : Verb) (s : Scope) → covers name v s ≡ true → Covers name v s
unfolding covers
covers_sound name v s h = elim (Result-cases (parse_pattern s.pattern)) [
  | inr (e, q) ↦ absurd (cc (rw (q, covers) at h))
  | inl (p, q) ↦
      let h' = rw (q, covers) at h in
      record {
        pattern = p;
        parsed = q;
        matching = ground arith;
        listed = (allows_verb_iff s.verbs v).0 (ground arith);
      }
]

covers_complete : (name : Name) (v : Verb) (s : Scope) → Covers name v s → covers name v s ≡ true
unfolding covers
covers_complete name v s c =
    rw (c.parsed, covers, c.matching) ((allows_verb_iff s.verbs v).1 c.listed)

matches_verb-covers :
    (name : Name) (v : Verb) (s : Scope)
    → IsCoherent s
    → (matches_verb name v s).1 ≡ covers name v s
unfolding matches_verb compiled covers
matches_verb-covers name v s (inl e) = ground arith
matches_verb-covers name v s (inr e) = ground arith

matches_verb-IsCoherent :
    (name : Name) (v : Verb) (s : Scope) → IsCoherent s → IsCoherent (matches_verb name v s).0
unfolding matches_verb compiled
matches_verb-IsCoherent name v s (inl e) = inr (rw e refl)
matches_verb-IsCoherent name v s (inr e) = inr (rw e refl)

matches_verb-forget :
    (name : Name) (v : Verb) (s : Scope) → forget (matches_verb name v s).0 ≡ forget s
unfolding matches_verb compiled
matches_verb-forget name v s = elim (Option-cases s.cached) [
  | inl e ↦ rw (e, matches_verb, compiled) refl
  | inr (r, e) ↦ rw (e, matches_verb, compiled) refl
]

any_scope-forget :
    (denying : Bool) (name : Name) (v : Verb) (scopes : List Scope)
    → forget_all (any_scope denying name v scopes).0 ≡ forget_all scopes
unfolding any_scope
any_scope-forget denying name v [] = refl
any_scope-forget denying name v (s ∷ scopes) =
    ground (arith, any_scope-forget denying name v scopes, matches_verb-forget name v s)

any_scope-IsCoherent :
    (denying : Bool) (name : Name) (v : Verb) (scopes : List Scope)
    → All IsCoherent scopes
    → All IsCoherent (any_scope denying name v scopes).0
unfolding any_scope
any_scope-IsCoherent denying name v [] c = tt
any_scope-IsCoherent denying name v (s ∷ scopes) (c, cs) =
    let one = matches_verb-IsCoherent name v s c in
    let rest = any_scope-IsCoherent denying name v scopes cs in
    elim (Bool-cases (if denying then not s.deny else s.deny)) [
      | inl e ↦ rw e (c, rest)
      | inr e ↦ elim (Bool-cases (matches_verb name v s).1) [
        | inl h ↦ rw (e, h) (one, cs)
        | inr h ↦ rw (e, h) (one, rest)
      ]
    ]

any_scope-any_covers :
    (denying : Bool) (name : Name) (v : Verb) (scopes : List Scope)
    → All IsCoherent scopes
    → (any_scope denying name v scopes).1 ≡ any_covers denying name v scopes
unfolding any_scope any_covers
any_scope-any_covers denying name v [] c = refl
any_scope-any_covers denying name v (s ∷ scopes) (c, cs) =
    ground (arith, any_scope-any_covers denying name v scopes cs, matches_verb-covers name v s c)

any_covers-forget :
    (denying : Bool) (name : Name) (v : Verb) (scopes : List Scope)
    → any_covers denying name v (forget_all scopes) ≡ any_covers denying name v scopes
unfolding any_covers covers
any_covers-forget denying name v [] = refl
any_covers-forget denying name v (s ∷ scopes) = rw (any_covers-forget denying name v scopes)

any_covers_sound :
    (denying : Bool) (name : Name) (v : Verb) (scopes : List Scope)
    → any_covers denying name v scopes ≡ true
    → Any (λ (s : Scope). (s.deny ≡ denying) × Covers name v s) scopes
unfolding any_covers
any_covers_sound denying name v [] h = absurd (ground arith)
any_covers_sound denying name v (s ∷ scopes) h =
    ground (arith, any_covers_sound denying name v scopes, covers_sound name v s)

any_covers_complete :
    (denying : Bool) (name : Name) (v : Verb) (scopes : List Scope)
    → Any (λ (s : Scope). (s.deny ≡ denying) × Covers name v s) scopes
    → any_covers denying name v scopes ≡ true
unfolding any_covers
any_covers_complete denying name v [] h = absurd h
any_covers_complete denying name v (s ∷ scopes) (inl (d, h)) =
    ground (arith, covers_complete name v s h)
any_covers_complete denying name v (s ∷ scopes) (inr h) =
    ground (arith, any_covers_complete denying name v scopes h)

lists_channel_iff :
    (chs : List Text) (channel : Text)
    → (lists_channel chs channel ≡ true) ↔ Any (λ ch. ch ≡ channel) chs
unfolding lists_channel
lists_channel_iff [] channel = ground arith
lists_channel_iff (ch ∷ chs) channel =
    ground (arith, lists_channel_iff chs channel, text_eq_iff ch channel)

-- The decision of `Claims.Authorizes` for a parsed name, with no cache.
decision : Name → Text → Verb → Claims → Bool
decision name channel v c =
    not (any_covers true name v c.scopes)
    && (lists_channel c.chs channel || any_covers false name v c.scopes)

any_covers_of_forget :
    (denying : Bool) (name : Name) (v : Verb) (scopes scopes' : List Scope)
    → forget_all scopes' ≡ forget_all scopes
    → any_covers denying name v scopes' ≡ any_covers denying name v scopes
any_covers_of_forget denying name v scopes scopes' e =
    sym (any_covers-forget denying name v scopes')
    ∙ ap (any_covers denying name v) e
    ∙ any_covers-forget denying name v scopes

passes-decision :
    (name : Name) (channel : Text) (v : Verb) (c : Claims)
    → All IsCoherent c.scopes
    → (passes (some name) channel v c).1 ≡ decision name channel v c
unfolding passes decision
passes-decision name channel v c k =
    let denies = (any_scope true name v c.scopes).0 in
    let first = any_scope-any_covers true name v c.scopes k in
    let later =
      any_scope-any_covers false name v denies (any_scope-IsCoherent true name v c.scopes k)
      ∙ any_covers_of_forget false name v c.scopes denies (any_scope-forget true name v c.scopes) in
    ground arith

no_scopes : (scopes : List Scope) → ltb 0 (length scopes) ≡ false → scopes ≡ []
no_scopes [] h = refl
no_scopes (s ∷ scopes) h = absurd (ground arith)

-- With no scope the name is not parsed, and the decision does not ask for it.
authorizes-decision :
    (channel : Text) (v : Verb) (c : Claims) (name : Name)
    → All IsCoherent c.scopes
    → parse_name channel ≡ ok name
    → (authorizes channel v c).1 ≡ decision name channel v c
unfolding authorizes passes parsed_name decision any_covers
authorizes-decision channel v c name k e = elim (Bool-cases (ltb 0 (length c.scopes))) [
  | inl x ↦ rw (x, authorizes, parsed_name, e) (passes-decision name channel v c k)
  | inr x ↦ rw (x, authorizes, parsed_name, no_scopes c.scopes x) (ground arith)
]

decision_iff :
    (name : Name) (channel : Text) (v : Verb) (c : Claims)
    → (decision name channel v c ≡ true) ↔ (
        ¬ Any (λ (s : Scope). (s.deny ≡ true) × Covers name v s) c.scopes
        × (Any (λ ch. ch ≡ channel) c.chs
            ⊎ Any (λ (s : Scope). (s.deny ≡ false) × Covers name v s) c.scopes))
unfolding decision
decision_iff name channel v c =
    let denied = any_covers_sound true name v c.scopes in
    let denied' = any_covers_complete true name v c.scopes in
    let allowed = any_covers_sound false name v c.scopes in
    let allowed' = any_covers_complete false name v c.scopes in
    let listed = lists_channel_iff c.chs channel in ground arith

-- For a channel name that parses, `Claims.Authorizes` grants a verb exactly if no deny scope covers
-- it and either the channel is listed or an allow scope covers it, whatever the caches of the
-- scopes hold, if each is empty or right.
pub authorizes_iff :
    (channel : Text) (v : Verb) (c : Claims) (name : Name)
    → All IsCoherent c.scopes
    → parse_name channel ≡ ok name
    → ((authorizes channel v c).1 ≡ true) ↔ (
        ¬ Any (λ (s : Scope). (s.deny ≡ true) × Covers name v s) c.scopes
        × (Any (λ ch. ch ≡ channel) c.chs
            ⊎ Any (λ (s : Scope). (s.deny ≡ false) × Covers name v s) c.scopes))
authorizes_iff channel v c name k e =
    rw (authorizes-decision channel v c name k e) (decision_iff name channel v c)

-- A channel name that does not parse is granted for every verb if the token lists it, even where
-- the token has deny scopes, and not otherwise. No cache is filled.
pub authorizes_malformed :
    (channel : Text) (v : Verb) (c : Claims) (e : Code)
    → parse_name channel ≡ err e
    → ((authorizes channel v c).0 ≡ c)
      × (((authorizes channel v c).1 ≡ true) ↔ Any (λ ch. ch ≡ channel) c.chs)
unfolding authorizes passes parsed_name
authorizes_malformed channel v c e h = elim (Bool-cases (ltb 0 (length c.scopes))) [
  | inl x ↦ rw (h, authorizes, parsed_name, x) (refl, lists_channel_iff c.chs channel)
  | inr x ↦ rw (h, authorizes, parsed_name, x) (refl, lists_channel_iff c.chs channel)
]

-- If the cache of each scope is empty or right, a check leaves the claims as they were but for
-- the caches, which stay empty or right.
authorizes_keeps :
    (channel : Text) (v : Verb) (c : Claims)
    → All IsCoherent c.scopes
    → let c' = (authorizes channel v c).0 in
      All IsCoherent c'.scopes × (c'.chs ≡ c.chs) × (forget_all c'.scopes ≡ forget_all c.scopes)
unfolding authorizes passes
authorizes_keeps channel v c k = elim (Option-cases (parsed_name c.scopes channel)) [
  | inl e ↦ rw (e, authorizes) (k, refl, refl)
  | inr (name, e) ↦
      let denies = (any_scope true name v c.scopes).0 in
      let kd = any_scope-IsCoherent true name v c.scopes k in
      let fd = any_scope-forget true name v c.scopes in
      let ka = any_scope-IsCoherent false name v denies kd in
      let fa = any_scope-forget false name v denies ∙ fd in
      elim (Bool-cases (any_scope true name v c.scopes).1) [
        | inl d ↦ rw (e, authorizes, passes, d) (kd, refl, fd)
        | inr d ↦ elim (Bool-cases (lists_channel c.chs channel)) [
          | inl l ↦ rw (e, authorizes, passes, d, l) (kd, refl, fd)
          | inr l ↦ rw (e, authorizes, passes, d, l) (ka, refl, fa)
        ]
      ]
]
