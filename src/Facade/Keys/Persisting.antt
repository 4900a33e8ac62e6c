-- ===== src/Facade/Keys/Persisting.antt =====
-- What a change of the key ring that succeeded has done: the loop against a relation of its attempts.
use mathlib.Core.Path.{ap₂}
use parsec.Auth.KeyRing.Retirement.{IsRetired, accepted, closed}
use parsec.Auth.KeyRing.{Alg, Outcome, done, refused, panicked, KeyRing, get, promote, retire}
use parsec.Auth.Snapshots.{Forms}
use parsec.Common.{ℕ, zero, suc, ◌≡◌, ◌↔◌, ◌⊎◌, inl, inr, refl, sym, ap, ◌∙◌, Option, some, Text}
use parsec.Errors.{ok, Result-cases}
use parsec.Facade.Keys.{
  Saving, saved, conflict, failed, KeyRingStore, persist_key_ring, reload_after_conflict,
  mutate_from, max_key_mutation_attempts, mutate_keys, retire_key,
}

Saving-cases : (s : Saving) → (s ≡ saved) ⊎ (s ≡ conflict) ⊎ (s ≡ failed)
Saving-cases saved = inl refl
Saving-cases conflict = inr (inl refl)
Saving-cases failed = inr (inr refl)

Outcome-cases :
    {A : Type 0} (o : Outcome A) → ((a : A) × (o ≡ done a)) ⊎ (o ≡ refused) ⊎ (o ≡ panicked)
Outcome-cases (done a) = inl (a, refl)
Outcome-cases refused = inr (inl refl)
Outcome-cases panicked = inr (inr refl)

done_ok_inj : {A : Type 0} (a b : A) → done (ok a) ≡ done (ok b) → a ≡ b
done_ok_inj a b h = cc h

pair_of : {A B : Type 0} (x : A × B) (a : A) (b : B) → x.0 ≡ a → x.1 ≡ b → x ≡ (a, b)
pair_of x a b h g = rw (← h, ← g) refl

triple_of :
    {A B C : Type 0} (x : A × B × C) (a : A) (b : B) (c : C)
    → x.0 ≡ a
    → x.1 ≡ b
    → x.2 ≡ c
    → x ≡ (a, b, c)
triple_of x a b c h g k = rw (← h, ← g, ← k) refl

kept-IsRetired :
    {S P : Type 0} (id : Text) (now : ℕ) (r r' : KeyRing S P)
    → retire id now r ≡ (r', done tt)
    → IsRetired id r'
kept-IsRetired id now r r' h =
    let same : (retire id now r).0 ≡ r' = ap (λ x. x.0) h in
    rw (← same) (accepted id now r (ap (λ x. x.1) h))

module _ {S P T A : Type 0} (f : Forms S P) (encode : Alg → Text → Option Text) where
  -- From an attempt with its ring and its store's state to a later one: each attempt in between was
  -- applied, met a conflict, and was followed by a reload.
  pub data Attempts (store : Option (KeyRingStore S P T))
      (apply : ℕ → KeyRing S P → KeyRing S P × Outcome A)
      : ℕ → KeyRing S P → T → ℕ → KeyRing S P → T → Type 0 where
    here : {n : ℕ} {ring : KeyRing S P} {t : T} → Attempts store apply n ring t n ring t
    retry :
        {n m : ℕ} {ring ring1 ring2 ring' : KeyRing S P} {t t1 t2 t' : T} (a : A)
        → apply n ring ≡ (ring1, done a)
        → persist_key_ring store ring1 t ≡ (t1, conflict)
        → reload_after_conflict f encode store ring1 t1 ≡ (t2, ring2, ok tt)
        → Attempts store apply n ring2 t2 m ring' t'
        → Attempts store apply (suc n) ring t m ring' t'

  -- The last attempt of a change that succeeded, from `n` attempts that were left.
  pub record IsSaved (store : Option (KeyRingStore S P T))
      (apply : ℕ → KeyRing S P → KeyRing S P × Outcome A) (n : ℕ) (ring : KeyRing S P) (t t' : T)
      (ring' : KeyRing S P) (a : A) : Type 0 where
    pub attempt : ℕ
    pub before : KeyRing S P
    pub state : T
    pub reached : Attempts store apply n ring t (suc attempt) before state
    pub applied : apply attempt before ≡ (ring', done a)
    pub stored : persist_key_ring store ring' state ≡ (t', saved)

  again-IsSaved :
      (store : Option (KeyRingStore S P T)) (apply : ℕ → KeyRing S P → KeyRing S P × Outcome A)
      (n : ℕ) (ring ring1 ring2 : KeyRing S P) (t t1 t2 t' : T) (ring' : KeyRing S P) (a b : A)
      → apply n ring ≡ (ring1, done b)
      → persist_key_ring store ring1 t ≡ (t1, conflict)
      → reload_after_conflict f encode store ring1 t1 ≡ (t2, ring2, ok tt)
      → IsSaved store apply n ring2 t2 t' ring' a
      → IsSaved store apply (suc n) ring t t' ring' a
  again-IsSaved store apply n ring ring1 ring2 t t1 t2 t' ring' a b e g r x = record {
    attempt = x.attempt;
    before = x.before;
    state = x.state;
    reached = retry b e g r x.reached;
    applied = x.applied;
    stored = x.stored;
  }

  mutate_from_sound :
      (store : Option (KeyRingStore S P T)) (apply : ℕ → KeyRing S P → KeyRing S P × Outcome A)
      (n : ℕ) (ring : KeyRing S P) (t t' : T) (ring' : KeyRing S P) (a : A)
      → mutate_from f encode store apply n ring t ≡ (t', ring', done (ok a))
      → IsSaved store apply n ring t t' ring' a
  unfolding mutate_from
  mutate_from_sound store apply zero ring t t' ring' a h = absurd (cc (ap (λ x. x.2) h))
  mutate_from_sound store apply (suc n) ring t t' ring' a h =
      let ring1 = (apply n ring).0 in
      elim (Outcome-cases (apply n ring).1) [
        | inr (inl e) ↦ absurd (cc (ap (λ x. x.2) (rw (mutate_from, e) at h)))
        | inr (inr e) ↦ absurd (cc (ap (λ x. x.2) (rw (mutate_from, e) at h)))
        | inl (b, e) ↦ elim (Saving-cases (persist_key_ring store ring1 t).1) [
          | inr (inr g) ↦ absurd (cc (ap (λ x. x.2) (rw (mutate_from, e, g) at h)))
          | inl g ↦
              let last : ((persist_key_ring store ring1 t).0, ring1, done (ok b))
                  ≡ (t', ring', done (ok a)) =
                rw (mutate_from, e, g) at h in
              let same : b ≡ a = done_ok_inj b a (ap (λ x. x.2) last) in
              let same_ring : ring1 ≡ ring' = ap (λ x. x.1) last in
              let same_t : (persist_key_ring store ring1 t).0 ≡ t' = ap (λ x. x.0) last in
              record {
                attempt = n;
                before = ring;
                state = t;
                reached = here;
                applied =
                    pair_of (apply n ring) ring' (done a) same_ring (e ∙ ap (λ x. done x) same);
                stored =
                    pair_of (persist_key_ring store ring' t) t' saved
                      (ap (λ x. (persist_key_ring store x t).0) (sym same_ring) ∙ same_t)
                      (ap (λ x. (persist_key_ring store x t).1) (sym same_ring) ∙ g);
              }
          | inr (inl g) ↦
              let t1 = (persist_key_ring store ring1 t).0 in
              let again = reload_after_conflict f encode store ring1 t1 in
              elim (Result-cases again.2) [
                | inr (x, r) ↦ absurd (cc (ap (λ x. x.2) (rw (mutate_from, e, g, r) at h)))
                | inl (tt, r) ↦
                    again-IsSaved store apply n ring ring1 again.1 t t1 again.0 t' ring' a b
                      (pair_of (apply n ring) ring1 (done b) refl e)
                      (pair_of (persist_key_ring store ring1 t) t1 conflict refl g)
                      (triple_of again again.0 again.1 (ok tt) refl refl r)
                      (mutate_from_sound store apply n again.1 again.0 t' ring' a
                        (rw (mutate_from, e, g, r) at h))
              ]
        ]
      ]

  mutate_from_complete :
      (store : Option (KeyRingStore S P T)) (apply : ℕ → KeyRing S P → KeyRing S P × Outcome A)
      (n m : ℕ) (ring before : KeyRing S P) (t state t' : T) (ring' : KeyRing S P) (a : A)
      → Attempts store apply n ring t (suc m) before state
      → apply m before ≡ (ring', done a)
      → persist_key_ring store ring' state ≡ (t', saved)
      → mutate_from f encode store apply n ring t ≡ (t', ring', done (ok a))
  unfolding mutate_from
  mutate_from_complete store apply n m ring before t state t' ring' a here applied stored =
      let e : (apply m ring).1 ≡ done a = ap (λ x. x.1) applied in
      let kept : (apply m ring).0 ≡ ring' = ap (λ x. x.0) applied in
      let g : (persist_key_ring store (apply m ring).0 t).1 ≡ saved =
        ap (λ x. (persist_key_ring store x t).1) kept ∙ ap (λ x. x.1) stored in
      let held : (persist_key_ring store (apply m ring).0 t).0 ≡ t' =
        ap (λ x. (persist_key_ring store x t).0) kept ∙ ap (λ x. x.0) stored in
      rw (mutate_from, e, g) (triple_of _ t' ring' (done (ok a)) held kept refl)
  mutate_from_complete store apply n m ring before t state t' ring' a
        (retry {n = k} {ring1 = ring1} {ring2 = ring2} {t1 = t1} {t2 = t2} b u g r rest) applied
        stored =
      let e1 : (apply k ring).1 ≡ done b = ap (λ x. x.1) u in
      let e0 : (apply k ring).0 ≡ ring1 = ap (λ x. x.0) u in
      let whole : persist_key_ring store (apply k ring).0 t ≡ (t1, conflict) =
        ap (λ x. persist_key_ring store x t) e0 ∙ g in
      let g1 : (persist_key_ring store (apply k ring).0 t).1 ≡ conflict = ap (λ x. x.1) whole in
      let g0 : (persist_key_ring store (apply k ring).0 t).0 ≡ t1 = ap (λ x. x.0) whole in
      let again =
        reload_after_conflict f encode store (apply k ring).0
          (persist_key_ring store (apply k ring).0 t).0 in
      let back : again ≡ (t2, ring2, ok tt) =
        ap₂ (λ x y. reload_after_conflict f encode store x y) e0 g0 ∙ r in
      let r2 : again.2 ≡ ok tt = ap (λ x. x.2) back in
      let rest' =
        mutate_from_complete store apply k m ring2 before t2 state t' ring' a rest applied stored in
      rw (mutate_from, e1, g1, r2)
        (ap₂ (λ x y. mutate_from f encode store apply k x y) (ap (λ x. x.1) back)
            (ap (λ x. x.0) back)
          ∙ rest')

  -- A change of the key ring succeeds exactly if one of at most five attempts applies it to the ring that
  -- it finds and has the store save the outcome, while each attempt before it was applied too, met a
  -- conflict, and was followed by a reload; the ring that is kept is the one that was saved last.
  pub mutate_keys_iff :
      (store : Option (KeyRingStore S P T)) (apply : ℕ → KeyRing S P → KeyRing S P × Outcome A)
      (ring : KeyRing S P) (t t' : T) (ring' : KeyRing S P) (a : A)
      → (mutate_keys f encode store apply ring t ≡ (t', ring', done (ok a)))
        ↔ IsSaved store apply max_key_mutation_attempts ring t t' ring' a
  unfolding mutate_keys
  mutate_keys_iff store apply ring t t' ring' a = (
    mutate_from_sound store apply max_key_mutation_attempts ring t t' ring' a,
    λ x.
        mutate_from_complete store apply max_key_mutation_attempts x.attempt ring x.before t x.state
          t' ring' a x.reached x.applied x.stored,
  )

module _ {S P T : Type 0} (f : Forms S P) (encode : Alg → Text → Option Text) where
  -- After a RetireKey that succeeded, the key can not be had from the ring, nor promoted in it, and that
  -- ring is the one that the store saved last.
  pub retire_key_saved :
      (store : KeyRingStore S P T) (id : Text) (now : ℕ) (ring : KeyRing S P) (t t' : T)
      (ring' : KeyRing S P)
      → retire_key f encode (some store) id now ring t ≡ (t', ring', done (ok tt))
      → (get id ring' ≡ refused)
        × (promote id ring' ≡ (ring', refused))
        × (state : T) × (store.save ring' state ≡ (t', saved))
  unfolding retire_key persist_key_ring
  retire_key_saved store id now ring t t' ring' h =
      let x = (mutate_keys_iff f encode (some store) (λ n. retire id now) ring t t' ring' tt).0 h in
      let r = kept-IsRetired id now x.before ring' x.applied in
      let (gone, held) = closed id ring' r in (gone, held, x.state, x.stored)
