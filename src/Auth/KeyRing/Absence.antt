-- ===== src/Auth/KeyRing/Absence.antt =====
-- A key id that the ring does not have, behind a method that adds no key of that id.
use parsec.Auth.KeyRing.Rotation.{demoted, get_of_found}
use parsec.Auth.KeyRing.Runs.{Call, call_add, call_add_asymmetric, call_promote, call_retire, after}
use parsec.Auth.KeyRing.Validity.{IsValid}
use parsec.Auth.KeyRing.{
  Alg, role_active, role_verify_only, role_retired, is_role_retired, Key, KeyRing, install, promote,
  retire, add, add_asymmetric, alg_hs256, build_header,
}
use parsec.Common.{
  ltb, length, ℕ, List, [], ◌≡◌, ◌≢◌, inl, inr, ◌∙◌, Option, none, some, Text, text_eq, lookup,
  insert, lookup-insert_ne, Bool-cases, Option-cases,
}

-- The method adds no key of the id.
abbrev pub IsOther : {S P : Type 0} → Text → Call S P → Type 0
IsOther id (call_add j secret now) = j ≢ id
IsOther id (call_add_asymmetric j alg priv pub_key now) = j ≢ id
IsOther id (call_promote j) = Unit
IsOther id (call_retire j now) = Unit

module _ {S P : Type 0} where
  install_absent :
      (id : Text) (header : Option Text) (k : Key S P) (r : KeyRing S P)
      → k.id ≢ id
      → lookup id r.by_id ≡ none
      → lookup id (install header k r).0.by_id ≡ none
  unfolding install
  install_absent id none k r n e = e
  install_absent id (some header) k r n e =
      let k' = record k { header = header } in
      let written = lookup-insert_ne k.id id k' r.by_id n ∙ e in
      elim k.role
        as (λ role.
          lookup id
            (elim role as (λ _. KeyRing S P) [
              | role_active ↦ record { by_id = insert k.id k' r.by_id; active = k.id }
              | role_verify_only ↦ record { by_id = insert k.id k' r.by_id; active = r.active }
              | role_retired ↦ record { by_id = insert k.id k' r.by_id; active = r.active }
            ]).by_id
          ≡ none) [ role_active ↦ written | role_verify_only ↦ written | role_retired ↦ written ]

  retire_absent :
      (id j : Text) (now : ℕ) (r : KeyRing S P)
      → lookup id r.by_id ≡ none
      → lookup id (retire j now r).0.by_id ≡ none
  unfolding retire
  retire_absent id j now r n = elim (Option-cases (lookup j r.by_id)) [
    | inl e ↦ rw (e, retire) n
    | inr (k, e) ↦ elim (Bool-cases (is_role_retired k.role)) [
      | inl d ↦ rw (e, retire, d) n
      | inr d ↦ elim (Bool-cases (text_eq j r.active)) [
        | inl a ↦ rw (e, retire, d, a) n
        | inr a ↦ rw (e, retire, d, a) (lookup-insert_ne j id _ r.by_id (λ q. cc (q, e, n)) ∙ n)
      ]
    ]
  ]

  promote_absent :
      (id j : Text) (r : KeyRing S P)
      → IsValid r
      → lookup id r.by_id ≡ none
      → lookup id (promote j r).0.by_id ≡ none
  unfolding promote
  promote_absent id j r v n = elim (Option-cases (lookup j r.by_id)) [
    | inl e ↦ rw (e, promote) n
    | inr (k, e) ↦ elim (Bool-cases (is_role_retired k.role)) [
      | inl d ↦ rw (e, promote, d) n
      | inr d ↦
          let s = demoted j r k v (get_of_found j r k e d) in
          rw s.promoted (lookup-insert_ne j id _ s.entries (λ q. cc (q, e, n)) ∙ s.absent id n)
    ]
  ]

module _ {S P : Type 0} (encode : Alg → Text → Option Text) where
  add_absent :
      (id j : Text) (secret : List ℕ) (now : ℕ) (r : KeyRing S P)
      → j ≢ id
      → lookup id r.by_id ≡ none
      → lookup id (add encode j secret now r).0.by_id ≡ none
  unfolding add
  add_absent id j secret now r n t = elim (Bool-cases (text_eq j [])) [
    | inl e ↦ rw (e, add) t
    | inr e ↦ elim (Bool-cases (ltb (length secret) 32)) [
      | inl s ↦ rw (e, add, s) t
      | inr s ↦ elim (Option-cases (lookup j r.by_id)) [
        | inr (k, h) ↦ rw (e, add, s, h) t
        | inl h ↦ rw (e, add, s, h) (install_absent id (build_header encode j alg_hs256) _ r n t)
      ]
    ]
  ]

  add_asymmetric_absent :
      (id j : Text) (alg : Alg) (priv : Option S) (pub_key : P) (now : ℕ) (r : KeyRing S P)
      → j ≢ id
      → lookup id r.by_id ≡ none
      → lookup id (add_asymmetric encode j alg priv pub_key now r).0.by_id ≡ none
  unfolding add_asymmetric
  add_asymmetric_absent id j alg none pub_key now r n t = elim (Bool-cases (text_eq j [])) [
    | inl e ↦ rw (e, add_asymmetric) t
    | inr e ↦ rw (e, add_asymmetric) t
  ]
  add_asymmetric_absent id j alg (some p) pub_key now r n t = elim (Bool-cases (text_eq j [])) [
    | inl e ↦ rw (e, add_asymmetric) t
    | inr e ↦ elim (Option-cases (lookup j r.by_id)) [
      | inr (k, h) ↦ rw (e, add_asymmetric, h) t
      | inl h ↦ rw (e, add_asymmetric, h) (install_absent id (build_header encode j alg) _ r n t)
    ]
  ]

  pub after_absent :
      (id : Text) (c : Call S P) (r : KeyRing S P)
      → IsValid r
      → IsOther id c
      → lookup id r.by_id ≡ none
      → lookup id (after encode c r).0.by_id ≡ none
  unfolding after
  after_absent id (call_add j secret now) r v n e = add_absent id j secret now r n e
  after_absent id (call_add_asymmetric j alg priv pub_key now) r v n e =
      add_asymmetric_absent id j alg priv pub_key now r n e
  after_absent id (call_promote j) r v n e = promote_absent id j r v e
  after_absent id (call_retire j now) r v n e = retire_absent id j now r e
