-- ===== src/Auth/KeyRing/Validity.antt =====
-- What holds of a ring between calls: exactly one key is active, and no method panics.
use parsec.Auth.KeyRing.{
  Alg, alg_hs256, role_active, role_verify_only, role_retired, is_role_retired, done, refused,
  panicked, Key, KeyRing, new_key_ring, deref, active_key, joining_role, install, switch, promote,
  retire, add, add_asymmetric, build_header,
}
use parsec.Common.{
  Map, ℕ, ltb, false, List, [], ◌∷◌, ◌≡◌, ◌≢◌, ◌⊎◌, inl, inr, refl, sym, ◌∙◌, arith, Option, none,
  some, length, ◌==◌, Text, text_eq, text_eq_iff, lookup, insert, lookup-insert_self,
  lookup-insert_ne, lookup-insert_cases, ne_of_text_eq, text_eq_of_ne, insert-Distinct, Distinct,
  Bool-cases, Option-cases,
}

module _ {S P : Type 0} where
  -- Every key stands under its own id, which is not empty.
  pub record IsKeyed (m : Map (Key S P)) : Type 0 where
    pub distinct : Distinct m
    pub keyed : (id : Text) (k : Key S P) → lookup id m ≡ some k → (k.id ≡ id) × (id ≢ [])

  -- The active key is there, has the active role and is the only key that has it; only an empty
  -- ring has none.
  pub record IsValid (r : KeyRing S P) : Type 0 where
    pub entries : IsKeyed r.by_id
    pub unique :
        (id : Text) (k : Key S P)
        → lookup id r.by_id ≡ some k
        → k.role ≡ role_active
        → id ≡ r.active
    pub present :
        (r ≡ new_key_ring)
        ⊎ ((k : Key S P) × (lookup r.active r.by_id ≡ some k) × (k.role ≡ role_active))

  pub new_key_ring-IsValid : IsValid new_key_ring
  unfolding lookup
  new_key_ring-IsValid = record {
    entries = record { distinct = tt; keyed = λ id k h. cc h };
    unique = λ id k h. cc h;
    present = inl refl;
  }

  pub found_in_new :
      (id : Text) (k : Key S P) (r : KeyRing S P)
      → r ≡ new_key_ring
      → ¬ (lookup id r.by_id ≡ some k)
  unfolding lookup
  found_in_new id k r e h = cc (rw e at h)

  insert-IsKeyed :
      (id : Text) (k : Key S P) (m : Map (Key S P))
      → IsKeyed m
      → k.id ≡ id
      → id ≢ []
      → IsKeyed (insert id k m)
  insert-IsKeyed id k m v e full = record {
    distinct = insert-Distinct id k m v.distinct;
    keyed = λ j w h. elim (lookup-insert_cases id j k w m h) [
      | inl (p, q) ↦ (cc (p, q, e), λ z. full (p ∙ z))
      | inr (p, q) ↦ v.keyed j w q
    ];
  }

  -- A write under one key, with the active id set, when no other key stays active.
  write-IsValid :
      (id : Text) (k : Key S P) (a : Text) (m : Map (Key S P))
      → IsKeyed m
      → k.id ≡ id
      → id ≢ []
      → ((j : Text) (w : Key S P) → lookup j m ≡ some w → w.role ≡ role_active → id ≢ j → j ≡ a)
      → (k.role ≡ role_active → id ≡ a)
      → ((w : Key S P) × (lookup a (insert id k m) ≡ some w) × (w.role ≡ role_active))
      → IsValid (record { by_id = insert id k m; active = a })
  write-IsValid id k a m v e full others own there = record {
    entries = insert-IsKeyed id k m v e full;
    unique = λ j w h act. elim (lookup-insert_cases id j k w m h) [
      | inl (p, q) ↦ sym p ∙ own (rw q act)
      | inr (p, q) ↦ others j w q act p
    ];
    present = inr there;
  }

  pub retire-IsValid :
      (id : Text) (now : ℕ) (r : KeyRing S P) → IsValid r → IsValid (retire id now r).0
  unfolding retire
  retire-IsValid id now r v = elim (Option-cases (lookup id r.by_id)) [
    | inl e ↦ rw (e, retire) v
    | inr (k, e) ↦ elim (Bool-cases (is_role_retired k.role)) [
      | inl d ↦ rw (e, retire, d) v
      | inr d ↦ elim (Bool-cases (text_eq id r.active)) [
        | inl a ↦ rw (e, retire, d, a) v
        | inr a ↦
            rw (e, retire, d, a)
              (write-IsValid id (record k { role = role_retired; retired_at = some now }) r.active
                r.by_id v.entries (v.entries.keyed id k e).0 (v.entries.keyed id k e).1
                (λ j w h act _. v.unique j w h act) (λ c. cc c)
                (elim v.present [
                  | inl p ↦ absurd (found_in_new id k r p e)
                  | inr (w, h, act) ↦ (
                    w,
                    lookup-insert_ne id r.active _ r.by_id (ne_of_text_eq id r.active a) ∙ h,
                    act,
                  )
                ]))
      ]
    ]
  ]

  pub retire_not_panicked : (id : Text) (now : ℕ) (r : KeyRing S P) → (retire id now r).1 ≢ panicked
  unfolding retire
  retire_not_panicked id now r = ground arith

  -- The write of the promoted key, on the entries as the demotion left them.
  promoted-IsValid :
      (id : Text) (k : Key S P) (m : Map (Key S P))
      → IsKeyed m
      → k.id ≡ id
      → id ≢ []
      → ((j : Text) (w : Key S P) → lookup j m ≡ some w → w.role ≡ role_active → j ≡ id)
      → IsValid (record { by_id = insert id (record k { role = role_active }) m; active = id })
  promoted-IsValid id k m v e full others =
      let k' : Key S P = record k { role = role_active } in
      write-IsValid id k' id m v e full (λ j w h act _. others j w h act) (λ _. refl)
        (k', lookup-insert_self id k' m, refl)

  switch-IsValid :
      (id : Text) (k : Key S P) (r : KeyRing S P)
      → IsValid r
      → lookup id r.by_id ≡ some k
      → IsValid (switch id k r).0 × ((switch id k r).1 ≡ done tt)
  unfolding switch
  switch-IsValid id k r v e = elim v.present [
    | inl p ↦ absurd (found_in_new id k r p e)
    | inr (old, h, act) ↦
        let (same, full) = v.entries.keyed id k e in
        let (same_old, full_old) = v.entries.keyed r.active old h in
        let set = text_eq_of_ne r.active [] full_old in
        elim (Bool-cases (text_eq r.active id)) [
          | inl c ↦
              rw (set, c, switch)
                (
                  promoted-IsValid id k r.by_id v.entries same full
                      (λ j w there a. v.unique j w there a ∙ (text_eq_iff r.active id).0 c),
                  refl,
                )
          | inr c ↦
              let old' : Key S P = record old { role = role_verify_only } in
              rw (set, c, switch, h)
                (
                  promoted-IsValid id k (insert r.active old' r.by_id)
                      (insert-IsKeyed r.active old' r.by_id v.entries same_old full_old) same full
                      (λ j w there a. elim (lookup-insert_cases r.active j old' w r.by_id there) [
                        | inl (p, q) ↦ cc (q, a)
                        | inr (p, q) ↦ absurd (p (sym (v.unique j w q a)))
                      ]),
                  refl,
                )
        ]
  ]

  pub promote-IsValid :
      (id : Text) (r : KeyRing S P)
      → IsValid r
      → IsValid (promote id r).0 × ((promote id r).1 ≢ panicked)
  unfolding promote
  promote-IsValid id r v = elim (Option-cases (lookup id r.by_id)) [
    | inl e ↦ rw (e, promote) (v, λ h. cc h)
    | inr (k, e) ↦ elim (Bool-cases (is_role_retired k.role)) [
      | inl d ↦ rw (e, promote, d) (v, λ h. cc h)
      | inr d ↦
          let (w, q) = switch-IsValid id k r v e in rw (e, promote, d) (w, λ h. cc (sym q ∙ h))
    ]
  ]

  not_empty :
      (id : Text) (k : Key S P) (m : Map (Key S P)) → lookup id m ≡ some k → (length m == 0) ≡ false
  unfolding lookup
  not_empty id k [] h = cc h
  not_empty id k (e ∷ m) h = ground arith

  install-IsValid :
      (header : Option Text) (k : Key S P) (r : KeyRing S P)
      → IsValid r
      → k.id ≢ []
      → k.role ≡ joining_role r
      → lookup k.id r.by_id ≡ none
      → IsValid (install header k r).0 × ((install header k r).1 ≢ panicked)
  unfolding install joining_role
  install-IsValid none k r v full role e = (v, λ h. cc h)
  install-IsValid (some header) k r v full role e = elim v.present [
    | inl p ↦
        let first : k.role ≡ role_active = role ∙ rw p refl in
        rw first (
          write-IsValid k.id (record k { header = header }) k.id r.by_id v.entries refl full
              (λ j w there a _. absurd (found_in_new j w r p there)) (λ _. refl)
              (record k { header = header }, lookup-insert_self k.id _ r.by_id, first),
          λ h. cc h,
        )
    | inr (old, h, act) ↦
        let later : k.role ≡ role_verify_only = role ∙ rw (not_empty r.active old r.by_id h) refl in
        rw later (
          write-IsValid k.id (record k { header = header }) r.active r.by_id v.entries refl full
              (λ j w there a _. v.unique j w there a) (λ c. cc (c, later))
              (old, lookup-insert_ne k.id r.active _ r.by_id (λ p. cc (p, h, e)) ∙ h, act),
          λ h. cc h,
        )
  ]

  -- The active key of a valid ring is found under its own id; only the empty ring has none.
  pub active_key_lem :
      (r : KeyRing S P)
      → IsValid r
      → ((r ≡ new_key_ring) × (active_key r ≡ refused))
        ⊎ ((k : Key S P) × (active_key r ≡ done k) × (k.id ≡ r.active) × (k.role ≡ role_active))
  unfolding active_key deref
  active_key_lem r v = elim v.present [
    | inl p ↦ inl (p, rw p refl)
    | inr (k, h, act) ↦
        let (same, full) = v.entries.keyed r.active k h in
        let set = text_eq_of_ne r.active [] full in inr (k, rw (set, active_key, h) refl, same, act)
  ]

module _ {S P : Type 0} (encode : Alg → Text → Option Text) where
  pub add-IsValid :
      (id : Text) (secret : List ℕ) (now : ℕ) (r : KeyRing S P)
      → IsValid r
      → IsValid (add encode id secret now r).0 × ((add encode id secret now r).1 ≢ panicked)
  unfolding add
  add-IsValid id secret now r v = elim (Bool-cases (text_eq id [])) [
    | inl e ↦ rw (e, add) (v, λ h. cc h)
    | inr e ↦ elim (Bool-cases (ltb (length secret) 32)) [
      | inl s ↦ rw (e, add, s) (v, λ h. cc h)
      | inr s ↦ elim (Option-cases (lookup id r.by_id)) [
        | inr (k, h) ↦ rw (e, add, s, h) (v, λ h. cc h)
        | inl h ↦
            rw (e, add, s, h)
              (install-IsValid (build_header encode id alg_hs256) _ r v (ne_of_text_eq id [] e) refl
                h)
      ]
    ]
  ]

  pub add_asymmetric-IsValid :
      (id : Text) (alg : Alg) (priv : Option S) (pub_key : P) (now : ℕ) (r : KeyRing S P)
      → IsValid r
      → IsValid (add_asymmetric encode id alg priv pub_key now r).0
        × ((add_asymmetric encode id alg priv pub_key now r).1 ≢ panicked)
  unfolding add_asymmetric
  add_asymmetric-IsValid id alg none pub_key now r v = elim (Bool-cases (text_eq id [])) [
    | inl e ↦ rw (e, add_asymmetric) (v, λ h. cc h)
    | inr e ↦ rw (e, add_asymmetric) (v, λ h. cc h)
  ]
  add_asymmetric-IsValid id alg (some p) pub_key now r v = elim (Bool-cases (text_eq id [])) [
    | inl e ↦ rw (e, add_asymmetric) (v, λ h. cc h)
    | inr e ↦ elim (Option-cases (lookup id r.by_id)) [
      | inr (k, h) ↦ rw (e, add_asymmetric, h) (v, λ h. cc h)
      | inl h ↦
          rw (e, add_asymmetric, h)
            (install-IsValid (build_header encode id alg) _ r v (ne_of_text_eq id [] e) refl h)
    ]
  ]
