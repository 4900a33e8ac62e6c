-- ===== src/Auth/SubscribeAuthorizer/Deciding.antt =====
-- Which subscriptions are allowed, and the code of each refusal.
use parsec.Auth.KeyRing.{KeyRing}
use parsec.Auth.Scope.{authorizes}
use parsec.Auth.Signer.{Payload}
use parsec.Auth.SubscribeAuthorizer.{
  grants, Gate, run_gate, check_claims, check_token, authorize_subscribe,
}
use parsec.Auth.Verifier.Checks.{IsAccepted, verify_iff, verified_inj, Verified-cases}
use parsec.Auth.Verifier.{Verifier, verify}
use parsec.Channels.Name.{Name, to_string, is_private}
use parsec.Common.{
  ℕ, Bool, true, false, [], ◌≡◌, ◌≢◌, ◌↔◌, ◌⊎◌, inl, inr, refl, sym, ◌∙◌, Option, Text, codes,
  text_eq, text_eq_iff, ne_of_text_eq, Bool-cases,
}
use parsec.Errors.{ok, Result-cases}

no_grant :
    (private : Bool) (token : Text) (G : Type 0)
    → private ≡ true
    → text_eq token [] ≡ true
    → ¬ ((private ≡ false) ⊎ ((token ≢ []) × G))
no_grant private token G e f (inl x) = cc (e, x)
no_grant private token G e f (inr (x, _)) = x ((text_eq_iff token []).0 f)

module _ {S P : Type 0} where
  -- The holder of `token` may subscribe to a private channel.
  pub record HasGrant (v : Verifier S P) (ring : KeyRing S P) (now : ℕ) (ch : Name) (token : Text)
      : Type 0 where
    pub claims : Payload
    pub accepted : IsAccepted v ring now token (codes "access") claims
    pub granted : (authorizes (to_string ch) (codes "subscribe") (grants claims)).1 ≡ true

  check_token_iff :
      (v : Verifier S P) (ring : KeyRing S P) (now : ℕ) (ch : Name) (token : Text)
      → (check_token v ring now ch token ≡ ok tt)
        ↔ ((is_private ch ≡ false) ⊎ ((token ≢ []) × HasGrant v ring now ch token))
  unfolding check_token check_claims
  check_token_iff v ring now ch token = elim (Bool-cases (is_private ch)) [
    | inr e ↦ (λ _. inl e, λ _. rw (e, check_token) refl)
    | inl e ↦ elim (Bool-cases (text_eq token [])) [
      | inl f ↦ (
        λ h. absurd (cc (rw (check_token, e, f) at h)),
        λ x. absurd (no_grant (is_private ch) token (HasGrant v ring now ch token) e f x),
      )
      | inr f ↦ elim (Verified-cases (verify v ring now token (codes "access"))) [
        | inr (x, g) ↦ (
          λ h. absurd (cc (rw (check_token, e, f, g) at h)),
          λ y. elim y [
            | inl z ↦ absurd (cc (e, z))
            | inr (_, z) ↦
                let good = (verify_iff v ring now token (codes "access") z.claims).1 z.accepted in
                absurd (cc (g, good))
          ],
        )
        | inl (c, g) ↦
            let accepted = (verify_iff v ring now token (codes "access") c).0 g in
            elim (Bool-cases (authorizes (to_string ch) (codes "subscribe") (grants c)).1) [
              | inl a ↦ (
                λ h. inr (
                  ne_of_text_eq token [] f,
                  record { claims = c; accepted = accepted; granted = a },
                ),
                λ y. rw (check_token, e, f, g, check_claims, a) refl,
              )
              | inr a ↦ (
                λ h. absurd (cc (rw (check_token, e, f, g, check_claims, a) at h)),
                λ y. elim y [
                  | inl z ↦ absurd (cc (e, z))
                  | inr (_, z) ↦
                      let good =
                        (verify_iff v ring now token (codes "access") z.claims).1 z.accepted in
                      let same : c ≡ z.claims = verified_inj c z.claims (sym g ∙ good) in
                      let granted : (authorizes (to_string ch) (codes "subscribe") (grants c)).1
                          ≡ true =
                        rw same z.granted in
                      absurd (cc (a, granted))
                ],
              )
            ]
      ]
    ]
  ]

  -- The function that NewSubscribeAuthorizerWithGate returns lets a subscription pass exactly if the
  -- gate, when there is one, lets it through, and the channel is public or the token is not empty, is
  -- accepted as an access token, and authorizes subscribing to the channel, by its chs or by its
  -- scopes. In every case the gate's state is what the gate left, since it is asked first. Whether the
  -- channel is open and the token revoked is not asked here: parsec.go asks that around this function.
  pub authorize_subscribe_iff :
      {M : Type 0} (v : Verifier S P) (gate : Option (Gate M)) (ring : KeyRing S P) (now : ℕ)
      (user_id : Text) (ch : Name) (token : Text) (m : M)
      → (((authorize_subscribe v gate ring now user_id ch token m).1 ≡ ok tt) ↔ (
          ((run_gate gate user_id ch m).1 ≡ ok tt)
          × ((is_private ch ≡ false) ⊎ ((token ≢ []) × HasGrant v ring now ch token))))
        × ((authorize_subscribe v gate ring now user_id ch token m).0
            ≡ (run_gate gate user_id ch m).0)
  unfolding authorize_subscribe
  authorize_subscribe_iff v gate ring now user_id ch token m =
      let (fwd, back) = check_token_iff v ring now ch token in
      elim (Result-cases (run_gate gate user_id ch m).1) [
        | inl (x, e) ↦ (
          (
            λ h. (rw e refl, fwd (rw (authorize_subscribe, e) at h)),
            λ y. rw (authorize_subscribe, e) (back (y.1)),
          ),
          refl,
        )
        | inr (c, e) ↦
            ((λ h. absurd (cc (rw (authorize_subscribe, e) at h)), λ y. absurd (cc (e, y.0))), refl)
      ]
