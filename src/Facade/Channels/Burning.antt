-- ===== src/Facade/Channels/Burning.antt =====
-- A private channel whose tokens are refused.
use parsec.Auth.Issuer.{Issuer, World, refused, IssueError, issue_pair}
use parsec.Auth.Scope.{Scope}
use parsec.Channels.Manager
use parsec.Channels.Manager.Limits.{finish-store, finish_delete-store}
use parsec.Channels.Manager.{Manager, max_private_ttl, default_private_ttl}
use parsec.Channels.Name.{Name, parse_name, to_string, visibility_private}
use parsec.Channels.Store
use parsec.Channels.Store.{Channel, MemoryStore, state_deleted}
use parsec.Common.{
  ℕ, List, ◌≡◌, ◌≢◌, inl, inr, refl, sym, ap, ◌∙◌, some, Option, if◌then◌else◌, Text, text_eq,
  lookup, lookup-insert_self, ℤ, pos, ltb_ℤ, Bool-cases, Option-cases,
}
use parsec.Errors.{Code, ok, err, Result-cases, channel_exists, channel_invalid, invalid_argument}
use parsec.Facade.Channels.{Credentials, credentials_for, create_named, create_private_by_name}

-- A name that the store knows, in whatever state its channel is.
abbrev pub IsTaken : Name → MemoryStore → Type 0
IsTaken n s = (ch : Channel) × (lookup (to_string n) s ≡ some ch)

store_refuses :
    (n : Name) (ttl : ℤ) (now : ℕ) (s : MemoryStore)
    → IsTaken n s
    → (e : Code) × (Store.create_private n ttl now s ≡ (s, err e))
unfolding Store.create_private
store_refuses n ttl now s (ch, h) = elim (Bool-cases (text_eq n.visibility visibility_private)) [
  | inl v ↦ (channel_exists, rw (v, Store.create_private, h) refl)
  | inr v ↦ (channel_invalid, rw (v, Store.create_private) refl)
]

manager_refuses :
    (n : Name) (ttl : ℤ) (now : ℕ) (m : Manager) (ch : Channel)
    → IsTaken n m.store
    → (Manager.create_private n ttl now m).1 ≢ ok ch
unfolding Manager.create_private Manager.finish
manager_refuses n ttl now m ch taken h =
    let ttl' = if ltb_ℤ (pos 0) ttl then ttl else default_private_ttl in
    let (e, x) = store_refuses n ttl' now m.store taken in
    elim (Bool-cases (ltb_ℤ max_private_ttl ttl')) [
      | inl l ↦ absurd (cc (rw (Manager.create_private, l) at h))
      | inr l ↦ absurd (cc (rw (Manager.create_private, l, x) at h))
    ]

created_is_there :
    (n : Name) (ttl : ℤ) (now : ℕ) (s : MemoryStore) (ch : Channel) (ev : Option Store.Event)
    → (Store.create_private n ttl now s).1 ≡ ok (ch, ev)
    → lookup (to_string n) (Store.create_private n ttl now s).0 ≡ some ch
unfolding Store.create_private
created_is_there n ttl now s ch ev h = elim (Bool-cases (text_eq n.visibility visibility_private)) [
  | inr v ↦ absurd (cc (rw (v, Store.create_private) at h))
  | inl v ↦ elim (Option-cases (lookup (to_string n) s)) [
    | inr (old, e) ↦ absurd (cc (rw (v, Store.create_private, e) at h))
    | inl e ↦
        let h' = rw (v, Store.create_private, e) at h in
        rw (v, Store.create_private, e) (lookup-insert_self (to_string n) _ s ∙ ap some (cc h'))
  ]
]

deleted_is_there :
    (n : Name) (now : ℕ) (s : MemoryStore) (ch : Channel)
    → lookup (to_string n) s ≡ some ch
    → lookup (to_string n) (Store.delete n now s).0 ≡ some (record ch { state = state_deleted })
unfolding Store.delete
deleted_is_there n now s ch h = rw (h, Store.delete) (lookup-insert_self (to_string n) _ s)

finish_ok :
    (s : MemoryStore) (m : Manager) (ch' ch : Channel) (ev : Option Store.Event)
    → (Manager.finish s m (ok (ch', ev))).1 ≡ ok ch
    → ch' ≡ ch
unfolding Manager.finish
finish_ok s m ch' ch ev h = cc h

manager_created :
    (n : Name) (ttl : ℤ) (now : ℕ) (m : Manager) (ch : Channel)
    → (Manager.create_private n ttl now m).1 ≡ ok ch
    → lookup (to_string n) (Manager.create_private n ttl now m).0.store ≡ some ch
unfolding Manager.create_private
manager_created n ttl now m ch h =
    let ttl' = if ltb_ℤ (pos 0) ttl then ttl else default_private_ttl in
    elim (Bool-cases (ltb_ℤ max_private_ttl ttl')) [
      | inl l ↦ absurd (cc (rw (Manager.create_private, l) at h))
      | inr l ↦ elim (Result-cases (Store.create_private n ttl' now m.store).1) [
        | inr (e, x) ↦ absurd (cc (rw (Manager.create_private, l, x) at h))
        | inl ((ch', ev), x) ↦
            let (s, r) = Store.create_private n ttl' now m.store in
            let same : ch' ≡ ch =
              finish_ok s m ch' ch ev (rw (Manager.create_private, l, x) at h) in
            rw (Manager.create_private, l, finish-store s m r)
              (created_is_there n ttl' now m.store ch' ev x ∙ ap some same)
      ]
    ]

manager_deleted :
    (n : Name) (now : ℕ) (m : Manager) (ch : Channel)
    → lookup (to_string n) m.store ≡ some ch
    → lookup (to_string n) (Manager.delete n now m).0.store
      ≡ some (record ch { state = state_deleted })
unfolding Manager.delete
manager_deleted n now m ch there =
    let (s, r) = Store.delete n now m.store in
    rw (finish_delete-store s m r) (deleted_is_there n now m.store ch there)

never :
    (i : Issuer) (w : World) (subject_id : Text) (n : Name) (ttl : ℤ) (scopes : List Scope)
    (m : Manager) (credentials : Credentials)
    → IsTaken n m.store
    → (create_named i w subject_id n ttl scopes m).1 ≢ ok credentials
unfolding create_named
never i w subject_id n ttl scopes m credentials taken h =
    elim (Result-cases (Manager.create_private n ttl w.now m).1) [
      | inl (ch, x) ↦ absurd (manager_refuses n ttl w.now m ch taken x)
      | inr (e, x) ↦ absurd (cc (rw (create_named, x) at h))
    ]

by_name :
    (i : Issuer) (w : World) (subject_id name : Text) (n : Name) (ttl : ℤ) (scopes : List Scope)
    (m : Manager)
    → parse_name name ≡ ok n
    → create_private_by_name i w subject_id name ttl scopes m
      ≡ create_named i w subject_id n ttl scopes m
unfolding create_private_by_name
by_name i w subject_id name n ttl scopes m h = rw (h, create_private_by_name) refl

-- A private channel that was created and whose tokens the issuer then refuses, for example for a scope
-- that is not valid, stays in the store under its name as a deleted channel, otherwise as it was
-- created, and the call answers invalid_argument. The name is then burnt: the next call for it returns
-- no credentials, whatever it asks for and whenever.
pub refused_name_is_burnt :
    (i i' : Issuer) (w w' : World) (subject_id subject_id' name : Text) (n : Name) (ttl ttl' : ℤ)
    (scopes scopes' : List Scope) (m : Manager) (ch : Channel) (e : IssueError)
    (credentials : Credentials)
    → parse_name name ≡ ok n
    → (Manager.create_private n ttl w.now m).1 ≡ ok ch
    → issue_pair i w subject_id (to_string n) ch.ttl scopes ≡ refused e
    → let (m', answer) = create_private_by_name i w subject_id name ttl scopes m in
      (answer ≡ err invalid_argument)
      × (lookup (to_string n) m'.store ≡ some (record ch { state = state_deleted }))
      × ((create_private_by_name i' w' subject_id' name ttl' scopes' m').1 ≢ ok credentials)
unfolding create_private_by_name create_named credentials_for
refused_name_is_burnt i i' w w' subject_id subject_id' name n ttl ttl' scopes scopes' m ch e
      credentials parsed created bad =
    let m1 = (Manager.create_private n ttl w.now m).0 in
    let m2 = (Manager.delete n w.now m1).0 in
    let there : lookup (to_string n) m2.store ≡ some (record ch { state = state_deleted }) =
      manager_deleted n w.now m1 ch (manager_created n ttl w.now m ch created) in
    let first : create_private_by_name i w subject_id name ttl scopes m
        ≡ (m2, err invalid_argument) =
      rw (create_private_by_name, parsed, create_named, created, credentials_for, bad) refl in
    (
      ap (λ x. x.1) first,
      ap (λ x. lookup (to_string n) x.0.store) first ∙ there,
      λ h.
          let again : (create_named i' w' subject_id' n ttl' scopes' m2).1 ≡ ok credentials =
            ap (λ x. x.1) (sym (by_name i' w' subject_id' name n ttl' scopes' m2 parsed))
            ∙ ap (λ x. (create_private_by_name i' w' subject_id' name ttl' scopes' x.0).1)
                (sym first)
            ∙ h in
          absurd (never i' w' subject_id' n ttl' scopes' m2 credentials (_, there) again),
    )
