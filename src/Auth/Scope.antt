-- ===== src/Auth/Scope.antt =====
-- auth/scope.go and the authorization of auth/claims.go. Verification writes to the cache of the
-- parsed pattern in a scope, so each check returns the scopes as it leaves them.
pub mod Grants
use parsec.Channels.Name.{Name, parse_name}
use parsec.Channels.Pattern.{Pattern, parse_pattern, matches}
use parsec.Common.{
  Bool, true, false, not, List, [], ◌∷◌, Option, none, some, if◌then◌else◌, ltb, length, Text,
  text_eq,
}
use parsec.Errors.{Result, ok, err}

-- `Verb` is a string type.
abbrev pub Verb : Type 0
Verb = Text

-- `cached` is what `compiled`, `compiledOK` and `compileErr` hold: nothing before the first call,
-- and afterwards the pattern or the error.
pub record Scope : Type 0 where
  pub pattern : Text
  pub verbs : List Verb
  pub deny : Bool
  pub cached : Option (Result Pattern)

-- The claims that authorization reads.
pub record Claims : Type 0 where
  pub chs : List Text
  pub scopes : List Scope

-- `Scope.Compiled`
unfoldable pub compiled : Scope → Scope × Result Pattern
compiled s = elim s.cached [
  | some r ↦ (s, r)
  | none ↦ let r = parse_pattern s.pattern in (record s { cached = some r }, r)
]

-- `Scope.AllowsVerb`
unfoldable pub allows_verb : List Verb → Verb → Bool
allows_verb [] v = false
allows_verb (allowed ∷ verbs) v = if text_eq allowed v then true else allows_verb verbs v

-- `Scope.MatchesVerb`, and `Scope.Authorizes`, which is the same code with the loop written out.
unfoldable pub matches_verb : Name → Verb → Scope → Scope × Bool
unfolding compiled
matches_verb name v s =
    let (s', r) = compiled s in
    (
      s',
      elim r [
        | err _ ↦ false
        | ok p ↦ if not (matches p name) then false else allows_verb s'.verbs v
      ],
    )

-- The loop over the scopes, which leaves at the first match: over those that deny, or over those
-- that allow.
unfoldable pub any_scope : Bool → Name → Verb → List Scope → List Scope × Bool
any_scope denying name v [] = ([], false)
any_scope denying name v (s ∷ scopes) =
    let (scopes', found) = any_scope denying name v scopes in
    let (s', hit) = matches_verb name v s in
    if (if denying then not s.deny else s.deny)
    then (s ∷ scopes', found)
    else if hit
    then (s' ∷ scopes, true)
    else (s' ∷ scopes', found)

-- `for _, ch := range c.Chs`
unfoldable pub lists_channel : List Text → Text → Bool
lists_channel [] channel = false
lists_channel (ch ∷ chs) channel = if text_eq ch channel then true else lists_channel chs channel

-- The variables `name` and `parsed`: the name is parsed only where a scope is there to match it.
unfoldable pub parsed_name : List Scope → Text → Option Name
parsed_name scopes channel =
    if ltb 0 (length scopes)
    then elim (parse_name channel) [ ok n ↦ some n | err _ ↦ none ]
    else none

-- The three passes of `Claims.Authorizes`.
passes : Option Name → Text → Verb → Claims → Claims × Bool
unfolding any_scope lists_channel
passes none channel v c = (c, lists_channel c.chs channel)
passes (some name) channel v c =
    let (denies, denied) = any_scope true name v c.scopes in
    let (allows, allowed) = any_scope false name v denies in
    if denied
    then (record c { scopes = denies }, false)
    else if lists_channel c.chs channel
    then (record c { scopes = denies }, true)
    else (record c { scopes = allows }, allowed)

-- `Claims.Authorizes`
unfoldable pub authorizes : Text → Verb → Claims → Claims × Bool
unfolding passes parsed_name
authorizes channel v c = passes (parsed_name c.scopes channel) channel v c
