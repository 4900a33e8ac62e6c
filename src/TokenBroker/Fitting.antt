-- ===== src/TokenBroker/Fitting.antt =====
-- What the role authorizer grants.
use parsec.Common.{
  ◌+◌, Bool, true, false, List, [], ◌∷◌, ◌≡◌, ◌↔◌, ◌⊎◌, sym, ap, ◌∙◌, inl, inr, arith, length, Any,
  Text, text_eq_iff, Map, lookup, Bool-cases,
}
use parsec.TokenBroker.Roles.{
  split_channel_segs, star, double_star, match_segs, match_simple, patterns_of, any_pattern,
  is_allowed, decide, authorize,
}

-- Segments of a pattern against those of a name, with no matcher: a segment `**` takes whatever is left,
-- `*` takes one segment, any other takes itself.
unfoldable pub Fits : List Text → List Text → Type 0
Fits [] [] = Unit
Fits [] (n ∷ ns) = ⊥
Fits (p ∷ ps) [] = p ≡ double_star
Fits (p ∷ ps) (n ∷ ns) = (p ≡ double_star) ⊎ (((p ≡ star) ⊎ (p ≡ n)) × Fits ps ns)

match_segs_iff : (ps ns : List Text) → (match_segs ps ns ≡ true) ↔ Fits ps ns
unfolding match_segs Fits
match_segs_iff [] [] = ground arith
match_segs_iff [] (n ∷ ns) = ground arith
match_segs_iff (p ∷ ps) [] = ground (arith, text_eq_iff p double_star)
match_segs_iff (p ∷ ps) (n ∷ ns) =
    ground
      (arith, text_eq_iff p double_star, text_eq_iff p star, text_eq_iff p n, match_segs_iff ps ns)

-- A pattern of a role admits a channel.
abbrev pub Admits : Text → Text → Type 0
Admits ch p = (p ≡ ch) ⊎ Fits (split_channel_segs p) (split_channel_segs ch)

match_simple_iff : (p ch : Text) → (match_simple p ch ≡ true) ↔ Admits ch p
unfolding match_simple
match_simple_iff p ch =
    ground (arith, text_eq_iff p ch, match_segs_iff (split_channel_segs p) (split_channel_segs ch))

any_pattern_iff : (ps : List Text) (ch : Text) → (any_pattern ps ch ≡ true) ↔ Any (Admits ch) ps
unfolding any_pattern
any_pattern_iff [] ch = ground arith
any_pattern_iff (p ∷ ps) ch = ground (arith, match_simple_iff p ch, any_pattern_iff ps ch)

-- Some role of the list has a pattern that admits the channel.
abbrev pub May : Map (List Text) → List Text → Text → Type 0
May role_patterns roles ch =
    Any (λ role. Any (Admits ch) (patterns_of (lookup role role_patterns))) roles

is_allowed_iff :
    (rp : Map (List Text)) (roles : List Text) (ch : Text)
    → (is_allowed rp roles ch ≡ true) ↔ May rp roles ch
unfolding is_allowed
is_allowed_iff rp [] ch = ground arith
is_allowed_iff rp (role ∷ roles) ch =
    ground (arith, any_pattern_iff (patterns_of (lookup role rp)) ch, is_allowed_iff rp roles ch)

module _ (allowed : Text → Bool) where
  decide-granted :
      (ch : Text) (channels : List Text)
      → Any (λ c. c ≡ ch) (decide allowed channels).granted
        ↔ (Any (λ c. c ≡ ch) channels × (allowed ch ≡ true))
  unfolding decide
  decide-granted ch [] = ground arith
  decide-granted ch (c ∷ channels) =
      let (to, from) = decide-granted ch channels in
      elim (Bool-cases (allowed c)) [
        | inl e ↦
            rw (e, decide)
              (
                λ h. elim h [
                  | inl p ↦ (inl p, sym (ap allowed p) ∙ e)
                  | inr r ↦ let (a, b) = to r in (inr a, b)
                ],
                λ (h, v). elim h [ inl p ↦ inl p | inr r ↦ inr (from (r, v)) ],
              )
        | inr e ↦
            rw (e, decide)
              (
                λ h. let (a, b) = to h in (inr a, b),
                λ (h, v). elim h [
                  | inl p ↦ absurd (cc (sym v ∙ sym (ap allowed p) ∙ e))
                  | inr r ↦ from (r, v)
                ],
              )
      ]

  decide-denied :
      (ch : Text) (channels : List Text)
      → Any (λ c. c.0 ≡ ch) (decide allowed channels).denied
        ↔ (Any (λ c. c ≡ ch) channels × (allowed ch ≡ false))
  unfolding decide
  decide-denied ch [] = ground arith
  decide-denied ch (c ∷ channels) =
      let (to, from) = decide-denied ch channels in
      elim (Bool-cases (allowed c)) [
        | inr e ↦
            rw (e, decide)
              (
                λ h. elim h [
                  | inl p ↦ (inl p, sym (ap allowed p) ∙ e)
                  | inr r ↦ let (a, b) = to r in (inr a, b)
                ],
                λ (h, v). elim h [ inl p ↦ inl p | inr r ↦ inr (from (r, v)) ],
              )
        | inl e ↦
            rw (e, decide)
              (
                λ h. let (a, b) = to h in (inr a, b),
                λ (h, v). elim h [
                  | inl p ↦ absurd (cc (sym v ∙ sym (ap allowed p) ∙ e))
                  | inr r ↦ from (r, v)
                ],
              )
      ]

  length-decide :
      (channels : List Text)
      → length (decide allowed channels).granted + length (decide allowed channels).denied
        ≡ length channels
  unfolding decide
  length-decide [] = omega arith
  length-decide (c ∷ channels) = ground (arith, length-decide channels)

-- The role authorizer grants a channel exactly if it was requested and a role of the user has a pattern
-- that admits it, denies it exactly if it was requested and none has, and answers once for each
-- request.
pub authorize_iff :
    (user_roles : Text → List Text) (rp : Map (List Text)) (user : Text) (channels : List Text)
    → let decision = authorize user_roles rp user channels in
      ((ch : Text)
        → (Any (λ c. c ≡ ch) decision.granted
            ↔ (Any (λ c. c ≡ ch) channels × May rp (user_roles user) ch))
          × (Any (λ c. c.0 ≡ ch) decision.denied
              ↔ (Any (λ c. c ≡ ch) channels × ¬ May rp (user_roles user) ch)))
      × (length decision.granted + length decision.denied ≡ length channels)
unfolding authorize
authorize_iff user_roles rp user channels =
    let allowed = is_allowed rp (user_roles user) in
    (
      λ ch.
          let (a, b) = decide-granted allowed ch channels in
          let (c, d) = decide-denied allowed ch channels in
          let (e, f) = is_allowed_iff rp (user_roles user) ch in
          (
            (λ h. let (x, y) = a h in (x, e y), λ (x, y). b (x, f y)),
            (
              λ h. let (x, y) = c h in (x, λ may. cc (sym y ∙ f may)),
              λ (x, y).
                  d (x, elim (Bool-cases (allowed ch)) [ inl z ↦ absurd (y (e z)) | inr z ↦ z ]),
            ),
          ),
      length-decide allowed channels,
    )
