-- ===== src/Facade/Limits/Budgets.antt =====
-- The keys that budgets are charged to.
use mathlib.Core.Path.{ap₂}
use parsec.Channels.Pattern.Parsing.{IsPattern, IsPattern-one_colon}
use parsec.Channels.Name.{Name}
use parsec.Channels.Pattern.{matches}
use parsec.Common.{
  ℕ, Bool, true, false, List, [], ◌∷◌, ◌++◌, append_assoc, ◌≡◌, ◌≢◌, ◌⊎◌, inl, inr, refl, sym, ap,
  ◌∙◌, arith, Option, some, if◌then◌else◌, get_or, drop, All, Lacks, Text, codes, text_eq,
  text_eq_of_ne, lookup, lookup-insert_ne, pos, Bool-cases,
}
use parsec.Facade.Limits.{
  bucket_publish, bucket_subscribe, bucket_token_issue, Budget, budget_bucket, budget_publish,
  budget_subscribe, bucket_of_budget, budget_limit, key_prefix, key_of, effective_limit, charge_key,
  check_limit,
}
use parsec.RateLimit.Window.{allow_lem}
use parsec.RateLimit.Rules.{ChannelRule, RateLimits, match_rules, match_publish, match_subscribe}
use parsec.RateLimit.{Limit, unlimited, normalize, MemoryLimiter, allow_with_limit}

some_inj : (a b : ℕ) → some a ≡ some b → a ≡ b
some_inj a b h = cc h

-- A text is cut at its first colon in one way.
cut_inj :
    (p q r s : Text)
    → Lacks b':' p
    → Lacks b':' q
    → p ++ b':' ∷ r ≡ q ++ b':' ∷ s
    → (p ≡ q) × (r ≡ s)
cut_inj [] [] r s lp lq h = (refl, ap (drop 1) h)
cut_inj [] (d ∷ q) r s lp lq h = absurd (lq.0 (sym (ap (λ (t : Text). get_or t 0 0) h)))
cut_inj (c ∷ p) [] r s lp lq h = absurd (lp.0 (ap (λ (t : Text). get_or t 0 0) h))
cut_inj (c ∷ p) (d ∷ q) r s lp lq h =
    let (same, rest) = cut_inj p q r s lp.1 lq.1 (ap (drop 1) h) in
    (ap₂ ◌∷◌ (ap (λ (t : Text). get_or t 0 0) h) same, rest)

-- The three names of buckets.
abbrev pub IsBucket : Text → Type 0
IsBucket b = (b ≡ bucket_publish) ⊎ (b ≡ bucket_subscribe) ⊎ (b ≡ bucket_token_issue)

-- What a key has in front of its first colon.
abbrev front : Text → Bool → Text
front bucket true = bucket ++ codes "-channel"
front bucket false = bucket

-- Takes the bucket and the ending apart again.
abbrev unfront : Text → Text × Bool
unfront t =
    if text_eq t (codes "publish-channel")
    then (bucket_publish, true)
    else if text_eq t (codes "subscribe-channel")
    then (bucket_subscribe, true)
    else if text_eq t (codes "token-issue-channel")
    then (bucket_token_issue, true)
    else (t, false)

unfront-front : (a : Text) (x : Bool) → IsBucket a → unfront (front a x) ≡ (a, x)
unfront-front a true (inl e) = rw e refl
unfront-front a false (inl e) = rw e refl
unfront-front a true (inr (inl e)) = rw e refl
unfront-front a false (inr (inl e)) = rw e refl
unfront-front a true (inr (inr e)) = rw e refl
unfront-front a false (inr (inr e)) = rw e refl

front_inj :
    (a b : Text) (x y : Bool) → IsBucket a → IsBucket b → front a x ≡ front b y → (a ≡ b) × (x ≡ y)
front_inj a b x y ha hb h =
    let same : (a, x) ≡ (b, y) = sym (unfront-front a x ha) ∙ ap unfront h ∙ unfront-front b y hb in
    (ap (λ (p : Text × Bool). p.0) same, ap (λ (p : Text × Bool). p.1) same)

front-Lacks : (a : Text) (x : Bool) → IsBucket a → Lacks b':' (front a x)
front-Lacks a true (inl e) = rw e (omega arith)
front-Lacks a false (inl e) = rw e (omega arith)
front-Lacks a true (inr (inl e)) = rw e (omega arith)
front-Lacks a false (inr (inl e)) = rw e (omega arith)
front-Lacks a true (inr (inr e)) = rw e (omega arith)
front-Lacks a false (inr (inr e)) = rw e (omega arith)

-- The text of a rule: none, or one with a single colon.
abbrev HasColon : Text → Type 0
HasColon raw =
    (vis : Text) × (rest : Text) × (raw ≡ vis ++ b':' ∷ rest) × Lacks b':' vis × Lacks b':' rest

abbrev IsRaw : Text → Type 0
IsRaw raw = (raw ≡ []) ⊎ HasColon raw

colon-ne-nil : (vis rest : Text) → vis ++ b':' ∷ rest ≢ []
colon-ne-nil [] rest h = cc h
colon-ne-nil (c ∷ vis) rest h = cc h

key_of_default :
    (bucket raw subject : Text)
    → raw ≡ []
    → key_of bucket raw subject ≡ front bucket false ++ b':' ∷ subject
unfolding key_of key_prefix
key_of_default bucket raw subject h = rw (h, key_of, key_prefix) refl

key_of_rule :
    (bucket raw subject : Text) (c : HasColon raw)
    → key_of bucket raw subject
      ≡ front bucket true ++ b':' ∷ (c.0 ++ b':' ∷ (c.1 ++ b':' ∷ subject))
unfolding key_of key_prefix
key_of_rule bucket raw subject (v, t, e, lv, lt) =
    let full : text_eq raw [] ≡ false = text_eq_of_ne raw [] (λ z. colon-ne-nil v t (sym e ∙ z)) in
    let whole : raw ++ b':' ∷ subject ≡ v ++ b':' ∷ (t ++ b':' ∷ subject) =
      ap (λ (x : Text). x ++ b':' ∷ subject) e ∙ append_assoc v (b':' ∷ t) (b':' ∷ subject) in
    let tail : Text = v ++ b':' ∷ (t ++ b':' ∷ subject) in
    let first : ((bucket ++ codes "-channel:") ++ raw) ++ b':' ∷ subject
        ≡ bucket ++ (codes "-channel:" ++ (raw ++ b':' ∷ subject)) =
      append_assoc (bucket ++ codes "-channel:") raw (b':' ∷ subject)
      ∙ append_assoc bucket (codes "-channel:") (raw ++ b':' ∷ subject) in
    let last : (bucket ++ codes "-channel") ++ b':' ∷ tail
        ≡ bucket ++ (codes "-channel" ++ b':' ∷ tail) =
      append_assoc bucket (codes "-channel") (b':' ∷ tail) in
    let middle : bucket ++ (codes "-channel:" ++ (raw ++ b':' ∷ subject))
        ≡ bucket ++ (codes "-channel" ++ b':' ∷ tail) =
      ap (λ (x : Text). bucket ++ (codes "-channel:" ++ x)) whole in
    rw (key_of, key_prefix, full) (first ∙ middle ∙ sym last)

key_of_inj :
    (a b raw raw' subject subject' : Text)
    → IsBucket a
    → IsBucket b
    → IsRaw raw
    → IsRaw raw'
    → key_of a raw subject ≡ key_of b raw' subject'
    → (a ≡ b) × (raw ≡ raw') × (subject ≡ subject')
key_of_inj a b raw raw' subject subject' ha hb (inl e) (inl f) h =
    let eq = sym (key_of_default a raw subject e) ∙ h ∙ key_of_default b raw' subject' f in
    let (same, rest) = cut_inj _ _ _ _ (front-Lacks a false ha) (front-Lacks b false hb) eq in
    (same, e ∙ sym f, rest)
key_of_inj a b raw raw' subject subject' ha hb (inl e) (inr f) h =
    let eq = sym (key_of_default a raw subject e) ∙ h ∙ key_of_rule b raw' subject' f in
    let (same, rest) = cut_inj _ _ _ _ (front-Lacks a false ha) (front-Lacks b true hb) eq in
    absurd (cc ((front_inj a b false true ha hb same).1))
key_of_inj a b raw raw' subject subject' ha hb (inr e) (inl f) h =
    let eq = sym (key_of_rule a raw subject e) ∙ h ∙ key_of_default b raw' subject' f in
    let (same, rest) = cut_inj _ _ _ _ (front-Lacks a true ha) (front-Lacks b false hb) eq in
    absurd (cc ((front_inj a b true false ha hb same).1))
key_of_inj a b raw raw' subject subject' ha hb (inr (v, t, e, lv, lt)) (inr (v', t', f, lv', lt'))
      h =
    let eq =
      sym (key_of_rule a raw subject (v, t, e, lv, lt))
      ∙ h
      ∙ key_of_rule b raw' subject' (v', t', f, lv', lt') in
    let (same, rest) = cut_inj _ _ _ _ (front-Lacks a true ha) (front-Lacks b true hb) eq in
    let (same_vis, rest') = cut_inj v v' _ _ lv lv' rest in
    let (same_rest, same_subject) = cut_inj t t' _ _ lt lt' rest' in
    (
      (front_inj a b true true ha hb same).0,
      e ∙ ap₂ (λ (x y : Text). x ++ b':' ∷ y) same_vis same_rest ∙ sym f,
      same_subject,
    )

-- A budget of the program, and what it is charged under: the bucket, the rule's text and the subject.
abbrev pub IsBudget : Budget → Type 0
IsBudget b = IsBucket (bucket_of_budget b)

abbrev pub account : RateLimits → Budget → Text → Text × Text × Text
account rl b subject = (bucket_of_budget b, (budget_limit rl b).1, subject)

-- Rules as `CompileChannelRules` makes them.
abbrev pub IsRule : ChannelRule → Type 0
IsRule rule = IsPattern rule.pattern × (rule.pattern.raw ≡ rule.raw)

abbrev pub IsCompiled : RateLimits → Type 0
IsCompiled rl = All IsRule rl.per_channel_publish × All IsRule rl.per_channel_subscribe

match_rules-IsRaw :
    (default : Limit) (rules : List ChannelRule) (channel : Name)
    → All IsRule rules
    → IsRaw (match_rules default rules channel).1
unfolding match_rules
match_rules-IsRaw default [] channel h = inl refl
match_rules-IsRaw default (rule ∷ rules) channel ((w, raw), h) =
    elim (Bool-cases (matches rule.pattern channel)) [
      | inl e ↦
          let (rest, spelled, lv, lt) = IsPattern-one_colon rule.pattern w in
          rw (match_rules, e) (inr (rule.pattern.visibility, rest, sym raw ∙ spelled, lv, lt))
      | inr e ↦ rw (match_rules, e) (match_rules-IsRaw default rules channel h)
    ]

budget-IsRaw : (rl : RateLimits) (b : Budget) → IsCompiled rl → IsRaw (budget_limit rl b).1
unfolding budget_limit match_publish match_subscribe
budget-IsRaw rl (budget_bucket bucket) h = inl refl
budget-IsRaw rl (budget_publish channel) h =
    match_rules-IsRaw rl.publish rl.per_channel_publish channel h.0
budget-IsRaw rl (budget_subscribe channel) h =
    match_rules-IsRaw rl.subscribe rl.per_channel_subscribe channel h.1

account_inj :
    (rl : RateLimits) (b b' : Budget) (subject subject' : Text)
    → IsCompiled rl
    → IsBudget b
    → IsBudget b'
    → key_of (bucket_of_budget b) (budget_limit rl b).1 subject
      ≡ key_of (bucket_of_budget b') (budget_limit rl b').1 subject'
    → account rl b subject ≡ account rl b' subject'
account_inj rl b b' subject subject' h x y e =
    let (same, same_raw, same_subject) =
      key_of_inj (bucket_of_budget b) (bucket_of_budget b') (budget_limit rl b).1
        (budget_limit rl b').1 subject subject' x y (budget-IsRaw rl b h) (budget-IsRaw rl b' h)
        e in
    rw (same, same_raw, same_subject) refl

allow_elsewhere :
    (done : Bool) (key other : Text) (lim : Limit) (now : ℕ) (m : MemoryLimiter)
    → key ≢ other
    → lookup other (allow_with_limit done key (pos 1) lim now m).0.buckets ≡ lookup other m.buckets
unfolding allow_with_limit
allow_elsewhere true key other lim now m h = refl
allow_elsewhere false key other lim now m h = elim (Bool-cases (unlimited (normalize lim))) [
  | inl e ↦ rw (e, allow_with_limit) refl
  | inr e ↦ rw (allow_lem key (pos 1) lim now m e) (lookup-insert_ne key other _ m.buckets h)
]

allow_reads :
    (done : Bool) (key : Text) (lim : Limit) (now : ℕ) (m m' : MemoryLimiter)
    → lookup key m.buckets ≡ lookup key m'.buckets
    → (allow_with_limit done key (pos 1) lim now m).1
      ≡ (allow_with_limit done key (pos 1) lim now m').1
unfolding allow_with_limit
allow_reads true key lim now m m' h = refl
allow_reads false key lim now m m' h = elim (Bool-cases (unlimited (normalize lim))) [
  | inl e ↦ rw (e, allow_with_limit) refl
  | inr e ↦ rw (allow_lem key (pos 1) lim now m e, allow_lem key (pos 1) lim now m' e, h) refl
]

-- A charge touches the bucket of its own key only.
charge_key_elsewhere :
    (done : Bool) (key other : Text) (lim : Limit) (now : ℕ) (m : MemoryLimiter)
    → key ≢ other
    → lookup other (charge_key done key lim now m).0.buckets ≡ lookup other m.buckets
unfolding charge_key
charge_key_elsewhere done key other lim now m h = elim (Bool-cases (unlimited lim)) [
  | inl e ↦ rw (e, charge_key) refl
  | inr e ↦ rw (e, charge_key) (allow_elsewhere done key other lim now m h)
]

-- The decision reads the bucket of its own key only.
charge_key_reads :
    (done : Bool) (key : Text) (lim : Limit) (now : ℕ) (m m' : MemoryLimiter)
    → lookup key m.buckets ≡ lookup key m'.buckets
    → (charge_key done key lim now m).1 ≡ (charge_key done key lim now m').1
unfolding charge_key
charge_key_reads done key lim now m m' h = elim (Bool-cases (unlimited lim)) [
  | inl e ↦ rw (e, charge_key) refl
  | inr e ↦ rw (e, charge_key) (allow_reads done key lim now m m' h)
]

-- With rules that CompileChannelRules made, charging one subject's event to one budget changes no
-- decision on a budget with another bucket, another matching rule or another subject, whatever
-- overrides the two tokens carry.
pub budgets_are_apart :
    (rl : RateLimits) (b b' : Budget) (subject subject' : Text) (override override' : Option Limit)
    (done done' : Bool) (now later : ℕ) (m : MemoryLimiter)
    → IsCompiled rl
    → IsBudget b
    → IsBudget b'
    → account rl b subject ≢ account rl b' subject'
    → (check_limit rl done' b' subject' override' later
        (check_limit rl done b subject override now (some m)).0).1
      ≡ (check_limit rl done' b' subject' override' later (some m)).1
unfolding check_limit
budgets_are_apart rl b b' subject subject' override override' done done' now later m h x y apart =
    let key = key_of (bucket_of_budget b) (budget_limit rl b).1 subject in
    let key' = key_of (bucket_of_budget b') (budget_limit rl b').1 subject' in
    let lim = effective_limit (budget_limit rl b).0 override in
    let lim' = effective_limit (budget_limit rl b').0 override' in
    charge_key_reads done' key' lim' later (charge_key done key lim now m).0 m (
      charge_key_elsewhere done key key' lim now m
        (λ e. apart (account_inj rl b b' subject subject' h x y e)))
