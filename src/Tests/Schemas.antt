-- ===== src/Tests/Schemas.antt =====
-- The theorem on the schema registry.
use parsec.Common.{
  ℕ, ◌≤◌, text_lt, false, [], ◌∷◌, some, ◌≡◌, refl, inl, Text, codes, Map, insert, Text-discrete,
  Bool-cases,
}
use parsec.Schema.Resolving.{IsIn, resolve_lem}
use parsec.Schema.{
  tok_literal, tok_var, tok_double, ChannelPattern, MemoryRegistry, done, parse_pattern,
  parse_tokens, parse_token, var_of, ends_braced, unbraced, split_pattern_segments, match_channel,
  match_tokens, resolve, candidates, place, specificity_of,
}

abbrev sessions : ChannelPattern ℕ
sessions = record {
  pattern = codes "sessions:{id}";
  version = 1;
  contract = 0;
  compiled = record {
    tokens = tok_literal (codes "sessions") ∷ tok_var (codes "id") ∷ [];
    raw = codes "sessions:{id}";
  };
}

abbrev anything : ChannelPattern ℕ
anything = record {
  pattern = codes "sessions.**";
  version = 1;
  contract = 1;
  compiled = record {
    tokens = tok_literal (codes "sessions") ∷ tok_double ∷ [];
    raw = codes "sessions.**";
  };
}

compiles : parse_pattern sessions.pattern ≡ done sessions.compiled
unfolding parse_pattern parse_tokens parse_token var_of ends_braced unbraced split_pattern_segments
compiles = refl

abbrev registry : MemoryRegistry ℕ
registry = record {
  patterns = (anything.pattern, anything) ∷ (sessions.pattern, sessions) ∷ [];
  versions = [];
}

matches_session : match_channel anything.compiled (codes "sessions:7") ≡ some []
unfolding match_channel match_tokens split_pattern_segments
matches_session = refl

resolve_lem_example :
    (best : ChannelPattern ℕ) × (bindings : Map Text) × (resolve (codes "sessions:7") registry
      ≡ done (best, bindings))
    × IsIn best registry.patterns
    × (match_channel best.compiled (codes "sessions:7") ≡ some bindings)
    × (specificity_of anything.compiled.tokens ≤ specificity_of best.compiled.tokens)
    × (specificity_of anything.compiled.tokens ≡ specificity_of best.compiled.tokens
        → text_lt anything.pattern best.pattern ≡ false)
resolve_lem_example =
    resolve_lem (codes "sessions:7") registry anything [] (inl refl) matches_session

resolved : resolve (codes "sessions:7") registry ≡ done (sessions, (codes "id", codes "7") ∷ [])
unfolding resolve candidates place match_channel match_tokens split_pattern_segments specificity_of
    insert
resolved = refl

-- Three placeholders score higher than one literal.
abbrev placeholders : ChannelPattern ℕ
placeholders = record {
  pattern = codes "{x}.{y}.{z}";
  version = 1;
  contract = 2;
  compiled = record {
    tokens = tok_var (codes "x") ∷ tok_var (codes "y") ∷ tok_var (codes "z") ∷ [];
    raw = codes "{x}.{y}.{z}";
  };
}

no_literal_wins :
    resolve (codes "sessions.a.b") (record {
      patterns = (anything.pattern, anything) ∷ (placeholders.pattern, placeholders) ∷ [];
      versions = [];
    })
    ≡ done (
      placeholders,
      (codes "x", codes "sessions") ∷ (codes "y", codes "a") ∷ (codes "z", codes "b") ∷ [],
    )
unfolding resolve candidates place match_channel match_tokens split_pattern_segments specificity_of
    insert Text-discrete Bool-cases
no_literal_wins = refl
