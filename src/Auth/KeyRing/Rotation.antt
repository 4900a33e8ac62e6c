-- ===== src/Auth/KeyRing/Rotation.antt =====
-- What a promotion changes.

use parsec.Auth.KeyRing.Validity.{IsValid, found_in_new}
use parsec.Auth.KeyRing.{
  Role, role_active, role_verify_only, role_retired, is_role_retired, done, Key, KeyRing, deref,
  active_key, get, switch, promote,
}
use parsec.Common.{
  Map, ap, false, [], ◌≡◌, ◌≢◌, inl, inr, refl, sym, ◌∙◌, arith, none, some, Text, Text-discrete,
  text_eq, text_eq_iff, lookup, insert, lookup-insert_self, lookup-insert_ne, text_eq_of_ne,
  Bool-cases,
}

standing_by :
    (role : Role) → role ≢ role_active → is_role_retired role ≡ false → role ≡ role_verify_only
standing_by role_active h e = absurd (h refl)
standing_by role_verify_only h e = refl
standing_by role_retired h e = cc e

module _ {S P : Type 0} where
  pub get_found :
      (id : Text) (r : KeyRing S P) (k : Key S P)
      → get id r ≡ done k
      → (lookup id r.by_id ≡ some k) × (is_role_retired k.role ≡ false)
  unfolding get
  get_found id r k h = ground arith

  pub get_of_found :
      (id : Text) (r : KeyRing S P) (k : Key S P)
      → lookup id r.by_id ≡ some k
      → is_role_retired k.role ≡ false
      → get id r ≡ done k
  unfolding get
  get_of_found id r k h e = rw (h, get, e) refl

  with_role : (w : Key S P) (x : Role) → w.role ≡ x → w ≡ record w { role = x }
  with_role w x e = rw (← e) refl

  -- The entries in front of the write of the promoted key: every other key is verify-only there.
  pub record Demoted (id : Text) (k : Key S P) (r : KeyRing S P) : Type 0 where
    pub entries : Map (Key S P)
    pub promoted : promote id r ≡ (
      record { by_id = insert id (record k { role = role_active }) entries; active = id },
      done tt,
    )
    pub others :
        (j : Text) (w : Key S P)
        → j ≢ id
        → lookup j r.by_id ≡ some w
        → is_role_retired w.role ≡ false
        → lookup j entries ≡ some (record w { role = role_verify_only })
    pub kept :
        (j : Text) (w : Key S P)
        → lookup j r.by_id ≡ some w
        → w.role ≡ role_retired
        → lookup j entries ≡ some w
    pub absent : (j : Text) → lookup j r.by_id ≡ none → lookup j entries ≡ none

  pub demoted :
      (id : Text) (r : KeyRing S P) (k : Key S P) → IsValid r → get id r ≡ done k → Demoted id k r
  unfolding promote switch
  demoted id r k v h =
      let (there, live) = get_found id r k h in
      elim v.present [
        | inl p ↦ absurd (found_in_new id k r p there)
        | inr (old, found, act) ↦
            let set = text_eq_of_ne r.active [] (v.entries.keyed r.active old found).1 in
            let other : (j : Text) (w : Key S P)
                → j ≢ r.active
                → lookup j r.by_id ≡ some w
                → is_role_retired w.role ≡ false
                → w ≡ record w { role = role_verify_only } =
              λ j w n f live'.
                with_role w role_verify_only
                  (standing_by w.role (λ a. n (v.unique j w f a)) live') in
            elim (Bool-cases (text_eq r.active id)) [
              | inl c ↦
                  let same = (text_eq_iff r.active id).0 c in
                  record {
                    entries = r.by_id;
                    promoted = rw (there, promote, live, switch, set, c) refl;
                    others = λ j w n f live'. f ∙ ap some (other j w (λ q. n (q ∙ same)) f live');
                    kept = λ j w f e. f;
                    absent = λ j f. f;
                  }
              | inr c ↦
                  let old' : Key S P = record old { role = role_verify_only } in
                  record {
                    entries = insert r.active old' r.by_id;
                    promoted = rw (there, promote, live, switch, set, c, found) refl;
                    others = λ j w n f live'. elim (Text-discrete r.active j) [
                      | yes q ↦
                          let same : old ≡ w = cc (q, f, found) in
                          rw (← q, lookup-insert_self r.active old' r.by_id)
                            (ap (λ (x : Key S P). some (record x { role = role_verify_only })) same)
                      | no q ↦
                          lookup-insert_ne r.active j old' r.by_id q
                          ∙ f
                          ∙ ap some (other j w (λ z. q (sym z)) f live')
                    ];
                    kept = λ j w f e.
                        lookup-insert_ne r.active j old' r.by_id (λ q. cc (q, f, found, e, act))
                        ∙ f;
                    absent =
                        λ j f. lookup-insert_ne r.active j old' r.by_id (λ q. cc (q, f, found)) ∙ f;
                  }
            ]
      ]

  -- In a valid ring, promoting a key that can verify makes it the active one and changes nothing
  -- else of it, and every other key that could verify still can, as a verify-only key.
  promote_lem :
      (id : Text) (r : KeyRing S P) (k : Key S P)
      → IsValid r
      → get id r ≡ done k
      → let r' = (promote id r).0 in
        ((promote id r).1 ≡ done tt)
        × (active_key r' ≡ done (record k { role = role_active }))
        × ((j : Text) (w : Key S P)
            → j ≢ id
            → get j r ≡ done w
            → get j r' ≡ done (record w { role = role_verify_only }))
  unfolding promote switch active_key deref
  promote_lem id r k v h =
      let d = demoted id r k v h in
      let k' : Key S P = record k { role = role_active } in
      let (there, live) = get_found id r k h in
      let set = text_eq_of_ne id [] (v.entries.keyed id k there).1 in
      rw d.promoted (
        refl,
        rw (set, active_key, lookup-insert_self id k' d.entries) refl,
        λ j w n g.
            let (f, live') = get_found j r w g in
            get_of_found j _ (record w { role = role_verify_only })
              (lookup-insert_ne id j k' d.entries (λ q. n (sym q)) ∙ d.others j w n f live') refl,
      )
