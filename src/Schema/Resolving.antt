-- ===== src/Schema/Resolving.antt =====
-- Which pattern a channel resolves to.
use parsec.Common.{
  ◌≤◌, text_lt, true, false, List, [], ◌∷◌, some, ◌≡◌, refl, sym, ap, ◌∙◌, ◌⊎◌, inl, inr, arith,
  Any, Text, Map, Bool-cases, Option-cases,
}
use parsec.Schema.{
  ChannelPattern, MemoryRegistry, done, match_channel, goes_before, place, candidates, first_of,
  resolve, specificity_of,
}

text_lt_irrefl : (s : Text) → text_lt s s ≡ false
unfolding text_lt
text_lt_irrefl [] = refl
text_lt_irrefl (c ∷ s) = ground (arith, text_lt_irrefl s)

text_lt_asym : (s t : Text) → text_lt s t ≡ true → text_lt t s ≡ false
unfolding text_lt
text_lt_asym [] [] h = cc
text_lt_asym [] (d ∷ t) h = refl
text_lt_asym (c ∷ s) [] h = cc
text_lt_asym (c ∷ s) (d ∷ t) h = ground (arith, text_lt_asym s t)

text_lt_split : (s t u : Text) → text_lt s t ≡ false → text_lt t u ≡ false → text_lt s u ≡ false
unfolding text_lt
text_lt_split s t [] h k = refl
text_lt_split [] [] (e ∷ u) h k = cc
text_lt_split (c ∷ s) [] (e ∷ u) h k = cc
text_lt_split [] (d ∷ t) (e ∷ u) h k = cc
text_lt_split (c ∷ s) (d ∷ t) (e ∷ u) h k = ground (arith, text_lt_split s t u)

module _ {D : Type 0} where
  irreflexive : (p : ChannelPattern D) → goes_before p p ≡ false
  irreflexive p = ground (arith, text_lt_irrefl p.pattern)

  asymmetric : (p q : ChannelPattern D) → goes_before p q ≡ true → goes_before q p ≡ false
  asymmetric p q h = ground (arith, text_lt_asym p.pattern q.pattern)

  splits :
      (p q r : ChannelPattern D)
      → goes_before p q ≡ false
      → goes_before q r ≡ false
      → goes_before p r ≡ false
  splits p q r h k = ground (arith, text_lt_split p.pattern q.pattern r.pattern)

  -- The pattern stands in the registry under some key.
  abbrev pub IsIn : ChannelPattern D → Map (ChannelPattern D) → Type 0
  IsIn p = Any (λ e. e.1 ≡ p)

  -- The first candidate, which is registered and matches, and goes behind no `q`.
  record IsFirst (channel : Text) (patterns : Map (ChannelPattern D)) (q : ChannelPattern D)
      (cs : List (ChannelPattern D × Map Text)) : Type 0 where
    best : ChannelPattern D
    bindings : Map Text
    found : first_of cs ≡ done (best, bindings)
    known : IsIn best patterns
    fits : match_channel best.compiled channel ≡ some bindings
    least : goes_before q best ≡ false

  -- All candidates are registered and match.
  record IsCandidate (channel : Text) (patterns : Map (ChannelPattern D))
      (c : ChannelPattern D × Map Text) : Type 0 where
    known : IsIn c.0 patterns
    fits : match_channel c.0.compiled channel ≡ some c.1

  abbrev Good : Text → Map (ChannelPattern D) → List (ChannelPattern D × Map Text) → Type 0
  Good channel patterns [] = Unit
  Good channel patterns (c ∷ cs) = IsCandidate channel patterns c × Good channel patterns cs

  Good-place :
      (channel : Text) (patterns : Map (ChannelPattern D)) (c : ChannelPattern D × Map Text)
      (cs : List (ChannelPattern D × Map Text))
      → IsCandidate channel patterns c
      → Good channel patterns cs
      → Good channel patterns (place c cs)
  unfolding place
  Good-place channel patterns c [] h g = (h, tt)
  Good-place channel patterns c (x ∷ xs) h (g, gs) = elim (Bool-cases (goes_before x.0 c.0)) [
    | inl e ↦ rw (e, place) (g, Good-place channel patterns c xs h gs)
    | inr e ↦ rw (e, place) (h, (g, gs))
  ]

  more :
      (channel k : Text) (p : ChannelPattern D) (patterns : Map (ChannelPattern D))
      (cs : List (ChannelPattern D × Map Text))
      → Good channel patterns cs
      → Good channel ((k, p) ∷ patterns) cs
  more channel k p patterns [] g = tt
  more channel k p patterns (c ∷ cs) (g, gs) =
      (record { known = inr g.known; fits = g.fits }, more channel k p patterns cs gs)

  candidates-Good :
      (channel : Text) (patterns : Map (ChannelPattern D))
      → Good channel patterns (candidates channel patterns)
  unfolding candidates
  candidates-Good channel [] = tt
  candidates-Good channel ((k, p) ∷ patterns) =
      let rest =
        more channel k p patterns (candidates channel patterns)
          (candidates-Good channel patterns) in
      elim (Option-cases (match_channel p.compiled channel)) [
        | inl e ↦ rw (e, candidates) rest
        | inr (b, e) ↦
            rw (e, candidates)
              (Good-place channel ((k, p) ∷ patterns) (p, b) _
                (record { known = inl refl; fits = e }) rest)
      ]

  -- Placing a candidate leaves a first one that goes behind neither it nor what the old first one did not go behind.
  place-IsFirst :
      (channel : Text) (patterns : Map (ChannelPattern D)) (q : ChannelPattern D)
      (c : ChannelPattern D × Map Text) (cs : List (ChannelPattern D × Map Text))
      → Good channel patterns (place c cs)
      → (q ≡ c.0) ⊎ IsFirst channel patterns q cs
      → IsFirst channel patterns q (place c cs)
  unfolding place
  place-IsFirst channel patterns q c [] (g, _) h = record {
    best = c.0;
    bindings = c.1;
    found = refl;
    known = g.known;
    fits = g.fits;
    least = elim h [ inl same ↦ rw same (irreflexive c.0) | inr f ↦ absurd (cc (f.found)) ];
  }
  place-IsFirst channel patterns q c (x ∷ xs) g h = elim (Bool-cases (goes_before x.0 c.0)) [
    | inl e ↦
        let (gx, _) = rw (place, e) at g in
        rw (e, place)
          (record {
            best = x.0;
            bindings = x.1;
            found = refl;
            known = gx.known;
            fits = gx.fits;
            least = elim h [
              | inl same ↦ rw same (asymmetric x.0 c.0 e)
              | inr f ↦ let same : x.0 ≡ f.best = cc (f.found) in rw same f.least
            ];
          })
    | inr e ↦
        let (gc, _) = rw (place, e) at g in
        rw (e, place)
          (record {
            best = c.0;
            bindings = c.1;
            found = refl;
            known = gc.known;
            fits = gc.fits;
            least = elim h [
              | inl same ↦ rw same (irreflexive c.0)
              | inr f ↦
                  let same : x.0 ≡ f.best = cc (f.found) in splits q x.0 c.0 (rw same f.least) e
            ];
          })
  ]

  more_IsFirst :
      (channel k : Text) (p q : ChannelPattern D) (patterns : Map (ChannelPattern D))
      (cs : List (ChannelPattern D × Map Text))
      → IsFirst channel patterns q cs
      → IsFirst channel ((k, p) ∷ patterns) q cs
  more_IsFirst channel k p q patterns cs f = record {
    best = f.best;
    bindings = f.bindings;
    found = f.found;
    known = inr f.known;
    fits = f.fits;
    least = f.least;
  }

  candidates-IsFirst :
      (channel : Text) (patterns : Map (ChannelPattern D)) (q : ChannelPattern D) (b : Map Text)
      → IsIn q patterns
      → match_channel q.compiled channel ≡ some b
      → IsFirst channel patterns q (candidates channel patterns)
  unfolding candidates
  candidates-IsFirst channel [] q b i m = absurd i
  candidates-IsFirst channel ((k, p) ∷ patterns) q b i m =
      let good = candidates-Good channel ((k, p) ∷ patterns) in
      elim (Option-cases (match_channel p.compiled channel)) [
        | inl e ↦ elim i [
          | inl same ↦ absurd (
              cc
                (sym (ap (λ (x : ChannelPattern D). match_channel x.compiled channel) same) ∙ e, m))
          | inr r ↦
              rw (e, candidates)
                (more_IsFirst channel k p q patterns (candidates channel patterns)
                  (candidates-IsFirst channel patterns q b r m))
        ]
        | inr (b', e) ↦
            let placed : Good channel ((k, p) ∷ patterns)
                (place (p, b') (candidates channel patterns)) =
              rw (candidates, e) at good in
            rw (e, candidates)
              (place-IsFirst channel ((k, p) ∷ patterns) q (p, b') (candidates channel patterns)
                placed
                (elim i [
                  | inl same ↦ inl (sym same)
                  | inr r ↦ inr (
                      more_IsFirst channel k p q patterns (candidates channel patterns)
                        (candidates-IsFirst channel patterns q b r m))
                ]))
      ]

  -- If a registered pattern matches a channel, Resolve finds a pattern, in whatever order the map is
  -- visited; the one found is registered and matches with the bindings returned. No registered
  -- pattern that matches has a higher score, which counts 4 for a literal, 2 for a placeholder and 1
  -- for a single star, and none with the same score has a name that comes first.
  pub resolve_lem :
      (channel : Text) (r : MemoryRegistry D) (q : ChannelPattern D) (b : Map Text)
      → IsIn q r.patterns
      → match_channel q.compiled channel ≡ some b
      → (best : ChannelPattern D) × (bindings : Map Text) × (resolve channel r
          ≡ done (best, bindings))
        × IsIn best r.patterns
        × (match_channel best.compiled channel ≡ some bindings)
        × (specificity_of q.compiled.tokens ≤ specificity_of best.compiled.tokens)
        × (specificity_of q.compiled.tokens ≡ specificity_of best.compiled.tokens
            → text_lt q.pattern best.pattern ≡ false)
  unfolding resolve
  resolve_lem channel r q b i m =
      let f = candidates-IsFirst channel r.patterns q b i m in
      let least : goes_before q f.best ≡ false = f.least in
      (f.best, f.bindings, f.found, f.known, f.fits, ground arith, λ same. ground arith)
