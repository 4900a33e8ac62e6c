-- ===== src/TokenBroker/Granting.antt =====
-- What a token of the broker is signed for.
use parsec.Auth.Issuer.Claimed.{issue_one-IsAccess, call_access_channels, issue_one}
use parsec.Auth.Issuer.Lifetimes.{minted_then, not_refused, sign_pair-IsSigned}
use parsec.Auth.Issuer.{
  IssueError, Minted, minted, refused, PairResult, TokenClaims, grant, issue_pair,
  issue_access_for_channels, new_refresh_ids, clone_scopes_for_claim, channel_required,
  ttl_not_positive, is_positive, validate_scopes,
}
use parsec.Common.{
  not, List, [], ◌∷◌, ◌≡◌, ◌⊎◌, inl, inr, refl, sym, ap, ◌∙◌, ltb, ◌==◌, length, Text, text_eq, ℤ,
  Bool-cases,
}
use parsec.TokenBroker.{
  Options, Surroundings, IssueRequest, IssueResponse, AuthDecision, AuditEntry, Answer, answered,
  failed, issue_for, issue_granted, respond, reissued, ttl_of, BrokerError, no_channels, not_issued,
}

Minted-cases {ℓ} :
    {A : Type ℓ} (m : Minted A) → ((a : A) × (m ≡ minted a)) ⊎ ((e : IssueError) × (m ≡ refused e))
Minted-cases (minted a) = inl (a, refl)
Minted-cases (refused e) = inr (e, refl)

-- The token was signed by one of the two worlds for the subject and for these channels, without scopes.
abbrev pub IsFor : Surroundings → Text → List Text → Text → Type 0
IsFor s uid chs token =
    (c : TokenClaims) × (c.sub ≡ uid)
    × (c.chs ≡ chs)
    × (c.scopes ≡ [])
    × ((s.first.sign c ≡ minted token) ⊎ (s.second.sign c ≡ minted token))

pair-IsFor :
    (opts : Options) (s : Surroundings) (uid channel : Text) (ttl : ℤ) (pair : PairResult)
    → issue_pair opts.issuer s.first uid channel ttl [] ≡ minted pair
    → IsFor s uid (channel ∷ []) pair.access_token
unfolding issue_pair clone_scopes_for_claim
pair-IsFor opts s uid channel ttl pair h =
    let (_, h1) = not_refused (text_eq channel []) channel_required _ pair h in
    let (_, h2) = not_refused (not (is_positive ttl)) ttl_not_positive _ pair h1 in
    let h3 = minted_then (validate_scopes []) _ pair h2 in
    let (_, _, _, signed) =
      sign_pair-IsSigned opts.issuer s.first ttl (new_refresh_ids s.first)
        (grant uid (channel ∷ []) []) pair h3 in
    (_, refl, refl, refl, inl signed.access)

reissued-IsFor :
    (opts : Options) (s : Surroundings) (uid channel : Text) (granted : List Text)
    (pair : PairResult)
    → IsFor s uid (channel ∷ []) pair.access_token
    → IsFor s uid granted (reissued opts s uid granted pair).access_token
      ⊎ IsFor s uid (channel ∷ []) (reissued opts s uid granted pair).access_token
unfolding reissued issue_one clone_scopes_for_claim
reissued-IsFor opts s uid channel granted pair one = elim (Bool-cases (ltb 1 (length granted))) [
  | inr e ↦ rw (e, reissued) (inr one)
  | inl e ↦
      elim (Minted-cases
        (issue_access_for_channels opts.issuer s.second uid granted pair.refresh_expires)) [
          | inr (_, f) ↦ rw (e, reissued, f) (inr one)
          | inl ((token, exp), f) ↦
              let a =
                issue_one-IsAccess (call_access_channels granted) opts.issuer s.second uid
                  pair.refresh_expires token exp f in
              rw (e, reissued, f) (inl (_, refl, refl, refl, inr a.signed))
        ]
]

List-cases {ℓ} : {A : Type ℓ} (xs : List A) → (xs ≡ []) ⊎ ((x : A) × (ys : List A) × (xs ≡ x ∷ ys))
List-cases [] = inl refl
List-cases (x ∷ xs) = inr (x, xs, refl)

-- What an answer of the broker must be.
abbrev pub IsFaithful :
    Surroundings → Text → AuthDecision → IssueResponse → List AuditEntry → Type 0
IsFaithful s uid decision resp entries =
    (resp.channels_granted ≡ decision.granted)
    × (resp.channels_denied ≡ decision.denied)
    × (((decision.granted ≡ []) × (resp.token ≡ []) × (entries ≡ []))
        ⊎ ((channel : Text) × (more : List Text) × (decision.granted ≡ channel ∷ more)
            × (IsFor s uid decision.granted resp.token ⊎ IsFor s uid (channel ∷ []) resp.token)))

answered_inj : (r r' : IssueResponse) → answered r ≡ answered r' → r ≡ r'
answered_inj r r' h = cc h

-- Two outcomes that are the same, where one has an answer.
same_outcome :
    (r r' : IssueResponse) (l l' : List AuditEntry) (o : Answer IssueResponse × List AuditEntry)
    → o ≡ (answered r, l)
    → o ≡ (answered r', l')
    → (r ≡ r') × (l ≡ l')
same_outcome r r' l l' o h h' =
    let first : answered r ≡ answered r' =
      sym (ap (λ (x : Answer IssueResponse × List AuditEntry). x.0) h)
      ∙ ap (λ (x : Answer IssueResponse × List AuditEntry). x.0) h' in
    (
      answered_inj r r' first,
      sym (ap (λ (x : Answer IssueResponse × List AuditEntry). x.1) h)
          ∙ ap (λ (x : Answer IssueResponse × List AuditEntry). x.1) h',
    )

never_both :
    (e : BrokerError) (l : List AuditEntry) (r' : IssueResponse)
    (o : Answer IssueResponse × List AuditEntry) (l' : List AuditEntry)
    → o ≡ (failed e, l)
    → o ≡ (answered r', l')
    → ⊥
never_both e l r' o l' h h' =
    let first : failed e ≡ answered r' =
      sym (ap (λ (x : Answer IssueResponse × List AuditEntry). x.0) h)
      ∙ ap (λ (x : Answer IssueResponse × List AuditEntry). x.0) h' in
    cc first

granted-IsFaithful :
    (opts : Options) (s : Surroundings) (uid delegator : Text) (req : IssueRequest)
    (decision : AuthDecision) (granted : List Text) (resp : IssueResponse)
    (entries : List AuditEntry)
    → decision.granted ≡ granted
    → issue_granted opts s uid delegator req decision granted ≡ (answered resp, entries)
    → IsFaithful s uid decision resp entries
unfolding issue_granted respond
granted-IsFaithful opts s uid delegator req decision [] resp entries f h =
    let nothing : IssueResponse = record {
      token = [];
      token_id = [];
      expires_at = 0;
      channels_granted = [];
      channels_denied = decision.denied;
    } in
    let (a, b) = same_outcome nothing resp [] entries _ refl h in
    rw (← a, ← b) (sym f, refl, inl (f, refl, refl))
granted-IsFaithful opts s uid delegator req decision (channel ∷ more) resp entries f h =
    elim (Minted-cases (issue_pair opts.issuer s.first uid channel (ttl_of opts req) [])) [
      | inr (x, g) ↦
          let failure : issue_granted opts s uid delegator req decision (channel ∷ more)
              ≡ (failed (not_issued x), []) =
            rw (g, issue_granted) refl in
          absurd (never_both _ _ resp _ entries failure h)
      | inl (pair, g) ↦
          let pair' = reissued opts s uid decision.granted pair in
          let response : IssueResponse = record {
            token = pair'.access_token;
            token_id = s.new_token_id;
            expires_at = pair'.access_expires;
            channels_granted = decision.granted;
            channels_denied = decision.denied;
          } in
          let outcome : (issue_granted opts s uid delegator req decision (channel ∷ more)).0
              ≡ answered response =
            rw (g, issue_granted) refl in
          let a =
            answered_inj response resp
              (sym outcome ∙ ap (λ (x : Answer IssueResponse × List AuditEntry). x.0) h) in
          let token =
            reissued-IsFor opts s uid channel decision.granted pair
              (pair-IsFor opts s uid channel (ttl_of opts req) pair g) in
          rw (← a) (refl, refl, inr (channel, more, f, token))
    ]

-- When the broker answers a request, it reports what the authorizer granted and denied; either the
-- authorizer granted nothing, and then there is no token and no audit entry, or the token is one
-- that was signed for that user, with no scopes, for exactly the channels granted or only the first.
pub issue_for-IsFaithful :
    (opts : Options) (s : Surroundings) (uid delegator : Text) (req : IssueRequest)
    (resp : IssueResponse) (entries : List AuditEntry)
    → issue_for opts s uid delegator req ≡ (answered resp, entries)
    → IsFaithful s uid (opts.authorize uid req.channels) resp entries
unfolding issue_for
issue_for-IsFaithful opts s uid delegator req resp entries h =
    let decision = opts.authorize uid req.channels in
    elim (Bool-cases (length req.channels == 0)) [
      | inl e ↦
          let failure : issue_for opts s uid delegator req ≡ (failed no_channels, []) =
            rw (issue_for, e) refl in
          absurd (never_both _ _ resp _ entries failure h)
      | inr e ↦
          let on : issue_for opts s uid delegator req
              ≡ issue_granted opts s uid delegator req decision decision.granted =
            rw (issue_for, e) refl in
          granted-IsFaithful opts s uid delegator req decision decision.granted resp entries refl
            (sym on ∙ h)
    ]
