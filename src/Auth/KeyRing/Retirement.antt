-- ===== src/Auth/KeyRing/Retirement.antt =====
-- A key that is retired stays retired, behind any of the methods that write keys.
use parsec.Auth.KeyRing.Rotation.{demoted, get_of_found}
use parsec.Auth.KeyRing.Runs.{Call, call_add, call_add_asymmetric, call_promote, call_retire, after}
use parsec.Auth.KeyRing.Validity.{IsValid}
use parsec.Auth.KeyRing.{
  Alg, role_active, role_verify_only, role_retired, is_role_retired, done, refused, Key, KeyRing,
  get, install, promote, retire, add, add_asymmetric, alg_hs256, build_header,
}
use parsec.Common.{
  ap, ltb, length, ℕ, false, List, [], ◌≡◌, ◌≢◌, inl, inr, refl, sym, ◌∙◌, arith, Option, none,
  some, Text, text_eq, lookup, insert, lookup-insert_self, lookup-insert_ne, Bool-cases,
  Option-cases,
}

module _ {S P : Type 0} where
  -- The key is kept, marked retired.
  pub record IsRetired (id : Text) (r : KeyRing S P) : Type 0 where
    pub key : Key S P
    pub found : lookup id r.by_id ≡ some key
    pub is_retired : key.role ≡ role_retired

  -- A write under another key keeps a retired key.
  write-IsRetired :
      (id j : Text) (w : Key S P) (a : Text) (r : KeyRing S P)
      → j ≢ id
      → IsRetired id r
      → IsRetired id (record { by_id = insert j w r.by_id; active = a })
  write-IsRetired id j w a r n t = record {
    key = t.key;
    found = lookup-insert_ne j id w r.by_id n ∙ t.found;
    is_retired = t.is_retired;
  }

  install-IsRetired :
      (id : Text) (header : Option Text) (k : Key S P) (r : KeyRing S P)
      → lookup k.id r.by_id ≡ none
      → IsRetired id r
      → IsRetired id (install header k r).0
  unfolding install
  install-IsRetired id none k r e t = t
  install-IsRetired id (some header) k r e t =
      let apart : k.id ≢ id = λ q. cc (q, e, t.found) in
      let write =
        λ (a : Text). write-IsRetired id k.id (record k { header = header }) a r apart t in
      elim k.role
        as (λ role. IsRetired id (elim role as (λ _. KeyRing S P) [
          | role_active ↦ record {
            by_id = insert k.id (record k { header = header }) r.by_id;
            active = k.id;
          }
          | role_verify_only ↦ record {
            by_id = insert k.id (record k { header = header }) r.by_id;
            active = r.active;
          }
          | role_retired ↦ record {
            by_id = insert k.id (record k { header = header }) r.by_id;
            active = r.active;
          }
        ])) [
          | role_active ↦ write k.id
          | role_verify_only ↦ write r.active
          | role_retired ↦ write r.active
        ]

  live_apart :
      (id j : Text) (k : Key S P) (r : KeyRing S P)
      → lookup j r.by_id ≡ some k
      → is_role_retired k.role ≡ false
      → IsRetired id r
      → j ≢ id
  live_apart id j k r e d t q =
      let same : k ≡ t.key = cc (q, e, t.found) in
      cc (
        sym d ∙ ap (λ (w : Key S P). is_role_retired w.role) same ∙ ap is_role_retired t.is_retired)

  retire-IsRetired :
      (id j : Text) (now : ℕ) (r : KeyRing S P) → IsRetired id r → IsRetired id (retire j now r).0
  unfolding retire
  retire-IsRetired id j now r t = elim (Option-cases (lookup j r.by_id)) [
    | inl e ↦ rw (e, retire) t
    | inr (k, e) ↦ elim (Bool-cases (is_role_retired k.role)) [
      | inl d ↦ rw (e, retire, d) t
      | inr d ↦ elim (Bool-cases (text_eq j r.active)) [
        | inl a ↦ rw (e, retire, d, a) t
        | inr a ↦
            rw (e, retire, d, a) (write-IsRetired id j _ r.active r (live_apart id j k r e d t) t)
      ]
    ]
  ]

  promote-IsRetired :
      (id j : Text) (r : KeyRing S P) → IsValid r → IsRetired id r → IsRetired id (promote j r).0
  unfolding promote
  promote-IsRetired id j r v t = elim (Option-cases (lookup j r.by_id)) [
    | inl e ↦ rw (e, promote) t
    | inr (k, e) ↦ elim (Bool-cases (is_role_retired k.role)) [
      | inl d ↦ rw (e, promote, d) t
      | inr d ↦
          let s = demoted j r k v (get_of_found j r k e d) in
          rw s.promoted (
            write-IsRetired id j (record k { role = role_active }) j
              (record { by_id = s.entries; active = r.active }) (live_apart id j k r e d t)
              (record {
                key = t.key;
                found = s.kept id t.key t.found t.is_retired;
                is_retired = t.is_retired;
              }))
    ]
  ]

  pub accepted :
      (id : Text) (now : ℕ) (r : KeyRing S P)
      → (retire id now r).1 ≡ done tt
      → IsRetired id (retire id now r).0
  unfolding retire
  accepted id now r h = elim (Option-cases (lookup id r.by_id)) [
    | inl e ↦ absurd (cc (rw (e, retire) at h))
    | inr (k, e) ↦ elim (Bool-cases (is_role_retired k.role)) [
      | inl d ↦ rw (e, retire, d) (record { key = k; found = e; is_retired = ground arith })
      | inr d ↦ elim (Bool-cases (text_eq id r.active)) [
        | inl a ↦ absurd (cc (rw (e, retire, d, a) at h))
        | inr a ↦
            rw (e, retire, d, a)
              (record {
                key = record k { role = role_retired; retired_at = some now };
                found = lookup-insert_self id _ r.by_id;
                is_retired = refl;
              })
      ]
    ]
  ]

  pub closed :
      (id : Text) (r : KeyRing S P)
      → IsRetired id r
      → (get id r ≡ refused) × (promote id r ≡ (r, refused))
  unfolding get promote
  closed id r t = rw (t.found, get, promote, t.is_retired) (refl, refl)

module _ {S P : Type 0} (encode : Alg → Text → Option Text) where
  add-IsRetired :
      (id j : Text) (secret : List ℕ) (now : ℕ) (r : KeyRing S P)
      → IsRetired id r
      → IsRetired id (add encode j secret now r).0
  unfolding add
  add-IsRetired id j secret now r t = elim (Bool-cases (text_eq j [])) [
    | inl e ↦ rw (e, add) t
    | inr e ↦ elim (Bool-cases (ltb (length secret) 32)) [
      | inl s ↦ rw (e, add, s) t
      | inr s ↦ elim (Option-cases (lookup j r.by_id)) [
        | inr (k, h) ↦ rw (e, add, s, h) t
        | inl h ↦ rw (e, add, s, h) (install-IsRetired id (build_header encode j alg_hs256) _ r h t)
      ]
    ]
  ]

  add_asymmetric-IsRetired :
      (id j : Text) (alg : Alg) (priv : Option S) (pub_key : P) (now : ℕ) (r : KeyRing S P)
      → IsRetired id r
      → IsRetired id (add_asymmetric encode j alg priv pub_key now r).0
  unfolding add_asymmetric
  add_asymmetric-IsRetired id j alg none pub_key now r t = elim (Bool-cases (text_eq j [])) [
    | inl e ↦ rw (e, add_asymmetric) t
    | inr e ↦ rw (e, add_asymmetric) t
  ]
  add_asymmetric-IsRetired id j alg (some p) pub_key now r t = elim (Bool-cases (text_eq j [])) [
    | inl e ↦ rw (e, add_asymmetric) t
    | inr e ↦ elim (Option-cases (lookup j r.by_id)) [
      | inr (k, h) ↦ rw (e, add_asymmetric, h) t
      | inl h ↦ rw (e, add_asymmetric, h) (install-IsRetired id (build_header encode j alg) _ r h t)
    ]
  ]

  pub after-IsRetired :
      (id : Text) (c : Call S P) (r : KeyRing S P)
      → IsValid r
      → IsRetired id r
      → IsRetired id (after encode c r).0
  unfolding after
  after-IsRetired id (call_add j secret now) r v t = add-IsRetired id j secret now r t
  after-IsRetired id (call_add_asymmetric j alg priv pub_key now) r v t =
      add_asymmetric-IsRetired id j alg priv pub_key now r t
  after-IsRetired id (call_promote j) r v t = promote-IsRetired id j r v t
  after-IsRetired id (call_retire j now) r v t = retire-IsRetired id j now r t
