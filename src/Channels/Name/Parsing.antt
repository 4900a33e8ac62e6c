-- ===== src/Channels/Name/Parsing.antt =====
-- `ParseName` accepts exactly the wire forms of the well-formed names.
use mathlib.Core.List.{cons-ne-nil}
use mathlib.Core.Path.{subst}
use parsec.Channels.Name.Grammar.{
  IsVisibility, IsName, IsComponent, validate_components_iff, IsComponent-Lacks,
}
use parsec.Channels.Name.{
  Name, parts_of, append_present, to_string, visibility_public, visibility_private,
  validate_components, assemble, name_of_parts, parse_at, parse_name,
}
use parsec.Channels.Wire.{IsPart, join-IsPart}
use parsec.Common.{
  ℕ, suc, ◌≤◌, Bool, true, false, List, [], ◌∷◌, ◌++◌, ◌≡◌, ◌≢◌, ◌↔◌, inl, inr, refl, sym, arith,
  All, Lacks, Text, length, take, drop, index_byte, index_byte_found, contains_byte_iff,
  text_eq_iff, split, join, join-split, Option-cases, some, none, if◌then◌else◌,
}
use parsec.Errors.{Result, ok, err, channel_invalid}

-- What the last test of `ParseName` lets through.
accept :
    (P : Name → Type 0) (b : Bool) (m : Name) {n : Name}
    → (b ≡ false → P m)
    → (if b then err channel_invalid else ok m) ≡ ok n
    → P n
accept P true m k h = absurd (cc h)
accept P false m k h = subst P (cc) (k refl)

abbrev Accepted : Text → List Text → Name → Type 0
Accepted vis parts n = IsName n × (parts_of n ≡ parts) × (n.visibility ≡ vis)

-- The parts of an accepted name are read off one by one.
assemble_sound :
    (vis : Text) (parts : List Text) {n : Name}
    → IsVisibility vis
    → 2 ≤ length parts
    → length parts ≤ 4
    → All IsComponent parts
    → assemble vis parts ≡ ok n
    → Accepted vis parts n
unfolding assemble parts_of append_present
assemble_sound vis [] v lo hi c h = absurd (omega arith)
assemble_sound vis (a ∷ []) v lo hi c h = absurd (omega arith)
assemble_sound vis (a ∷ d ∷ []) v lo hi (ca, (cd, _)) h =
    accept (Accepted vis (a ∷ d ∷ [])) _ _
      (λ e. (
        record {
          visibility = v;
          app = ca;
          domain = cd;
          id = inl refl;
          topic = inl refl;
          topic_behind_id = λ k. absurd (k refl);
          private_with_id = λ p. cc (rw p at e);
        },
        refl,
        refl,
      ))
      h
assemble_sound vis (a ∷ d ∷ (x ∷ i) ∷ []) v lo hi (ca, (cd, (ci, _))) h =
    accept (Accepted vis (a ∷ d ∷ (x ∷ i) ∷ [])) _ _
      (λ e. (
        record {
          visibility = v;
          app = ca;
          domain = cd;
          id = inr ci;
          topic = inl refl;
          topic_behind_id = λ _. ci.0;
          private_with_id = λ _. ci.0;
        },
        refl,
        refl,
      ))
      h
assemble_sound vis (a ∷ d ∷ (x ∷ i) ∷ (y ∷ t) ∷ []) v lo hi (ca, (cd, (ci, (ct, _)))) h =
    accept (Accepted vis (a ∷ d ∷ (x ∷ i) ∷ (y ∷ t) ∷ [])) _ _
      (λ e. (
        record {
          visibility = v;
          app = ca;
          domain = cd;
          id = inr ci;
          topic = inr ct;
          topic_behind_id = λ _. ci.0;
          private_with_id = λ _. ci.0;
        },
        refl,
        refl,
      ))
      h
assemble_sound vis (a ∷ d ∷ [] ∷ ps) v lo hi (_, (_, (ci, _))) h = absurd (ci.0 refl)
assemble_sound vis (a ∷ d ∷ (x ∷ i) ∷ [] ∷ ps) v lo hi (_, (_, (_, (ct, _)))) h = absurd (ct.0 refl)
assemble_sound vis (a ∷ d ∷ (x ∷ i) ∷ (y ∷ t) ∷ o ∷ ps) v lo hi c h = absurd (omega arith)

name_of_parts_inv :
    (vis : Text) (parts : List Text) {n : Name}
    → name_of_parts vis parts ≡ ok n
    → (2 ≤ length parts)
      × (length parts ≤ 4)
      × (validate_components parts ≡ ok tt)
      × (assemble vis parts ≡ ok n)
unfolding name_of_parts
name_of_parts_inv vis parts h = ground arith

name_of_parts_sound :
    (vis : Text) (parts : List Text) {n : Name}
    → IsVisibility vis
    → name_of_parts vis parts ≡ ok n
    → Accepted vis parts n
name_of_parts_sound vis parts v h =
    let (lo, hi, e, last) = name_of_parts_inv vis parts h in
    assemble_sound vis parts v lo hi ((validate_components_iff parts).0 e) last

abbrev pub named : Text → Text → Text → Text → Text → Name
named vis a d i t = record { visibility = vis; app = a; domain = d; id = i; topic = t }

-- The parts of a well-formed name are components.
present-IsComponent :
    (vis a d i t : Text)
    → IsName (named vis a d i t)
    → All IsComponent (parts_of (named vis a d i t))
unfolding parts_of append_present
present-IsComponent vis a d [] [] w = (w.app, (w.domain, tt))
present-IsComponent vis a d [] (y ∷ t) w = absurd (w.topic_behind_id (cons-ne-nil y t) refl)
present-IsComponent vis a d (x ∷ i) [] w = (w.app, (w.domain, (ground arith, tt)))
present-IsComponent vis a d (x ∷ i) (y ∷ t) w =
    (w.app, (w.domain, (ground arith, (ground arith, tt))))

-- They assemble to the name that they were taken from.
assemble-parts_of :
    (vis a d i t : Text)
    → IsName (named vis a d i t)
    → name_of_parts vis (parts_of (named vis a d i t)) ≡ ok (named vis a d i t)
unfolding name_of_parts parts_of append_present assemble
assemble-parts_of vis a d [] [] w =
    rw ((validate_components_iff _).1 (present-IsComponent vis a d [] [] w))
      (ground (arith, text_eq_iff vis visibility_private, w.private_with_id))
assemble-parts_of vis a d [] (y ∷ t) w = absurd (w.topic_behind_id (cons-ne-nil y t) refl)
assemble-parts_of vis a d (x ∷ i) [] w =
    rw ((validate_components_iff _).1 (present-IsComponent vis a d (x ∷ i) [] w)) (ground arith)
assemble-parts_of vis a d (x ∷ i) (y ∷ t) w =
    rw ((validate_components_iff _).1 (present-IsComponent vis a d (x ∷ i) (y ∷ t) w))
      (ground arith)

parse_name_lem :
    (s : Text)
    → parse_name s ≡ (elim (index_byte s b':') as (λ _. Result Name) [
      | none ↦ err channel_invalid
      | some colon ↦ parse_at s colon
    ])
unfolding parse_name
parse_name_lem s = refl

parse_at_inv :
    (s : Text) (colon : ℕ) {n : Name}
    → parse_at s colon ≡ ok n
    → IsVisibility (take colon s)
      × (name_of_parts (take colon s) (split (drop (suc colon) s) b'.') ≡ ok n)
unfolding parse_at
parse_at_inv s colon h = ground (
  arith,
  text_eq_iff (take colon s) visibility_public,
  text_eq_iff (take colon s) visibility_private,
)

pub to_string_lem : (n : Name) → to_string n ≡ n.visibility ++ b':' ∷ join (parts_of n) b'.'
unfolding to_string
to_string_lem n = refl

parse_at_sound :
    (s : Text) (colon : ℕ) {n : Name}
    → index_byte s b':' ≡ some colon
    → parse_at s colon ≡ ok n
    → IsName n × (to_string n ≡ s)
parse_at_sound s colon {n} e h =
    let (v, built) = parse_at_inv s colon h in
    let (well, parts, vis) =
      name_of_parts_sound (take colon s) (split (drop (suc colon) s) b'.') v built in
    (well, rw (to_string_lem n, parts, vis, join-split) (sym (index_byte_found s b':' colon e).0))

parse_name_sound : (s : Text) {n : Name} → parse_name s ≡ ok n → IsName n × (to_string n ≡ s)
parse_name_sound s h = elim (Option-cases (index_byte s b':')) [
  | inl e ↦ cc (rw (parse_name_lem s, e) at h)
  | inr (colon, e) ↦ parse_at_sound s colon e (rw (parse_name_lem s, e) at h)
]

parse_at_complete :
    (v r : Text)
    → IsVisibility v
    → r ≢ []
    → Lacks b':' r
    → (index_byte (v ++ b':' ∷ r) b':' ≡ some (length v))
      × (parse_at (v ++ b':' ∷ r) (length v) ≡ name_of_parts v (split r b'.'))
unfolding parse_at
parse_at_complete v [] vis full lacks = absurd (full refl)
parse_at_complete v (x ∷ r) (inl e) full lacks =
    rw e (refl, rw ((contains_byte_iff (x ∷ r) b':').1 lacks) (ground arith))
parse_at_complete v (x ∷ r) (inr e) full lacks =
    rw e (refl, rw ((contains_byte_iff (x ∷ r) b':').1 lacks) (ground arith))

components-IsPart : (ps : List Text) → All IsComponent ps → All IsPart ps
components-IsPart [] c = tt
components-IsPart (p ∷ ps) c =
    let (colon, dot) = IsComponent-Lacks p c.0.1 in ((c.0.0, colon, dot), components-IsPart ps c.1)

parts_of-IsComponent : (n : Name) → IsName n → All IsComponent (parts_of n)
parts_of-IsComponent n w = present-IsComponent n.visibility n.app n.domain n.id n.topic w

name_of_parts-parts_of : (n : Name) → IsName n → name_of_parts n.visibility (parts_of n) ≡ ok n
name_of_parts-parts_of n w = assemble-parts_of n.visibility n.app n.domain n.id n.topic w

present-ne-nil : (vis a d i t : Text) → parts_of (named vis a d i t) ≢ []
unfolding parts_of append_present
present-ne-nil vis a d [] [] = cons-ne-nil _ _
present-ne-nil vis a d [] (y ∷ t) = cons-ne-nil _ _
present-ne-nil vis a d (x ∷ i) [] = cons-ne-nil _ _
present-ne-nil vis a d (x ∷ i) (y ∷ t) = cons-ne-nil _ _

parts_of-ne-nil : (n : Name) → parts_of n ≢ []
parts_of-ne-nil n = present-ne-nil n.visibility n.app n.domain n.id n.topic

parse_name-to_string : (n : Name) → IsName n → parse_name (to_string n) ≡ ok n
parse_name-to_string n w =
    let c = components-IsPart (parts_of n) (parts_of-IsComponent n w) in
    let (full, lacks, parts) = join-IsPart (parts_of n) c (parts_of-ne-nil n) in
    let (found, parsed) =
      parse_at_complete n.visibility (join (parts_of n) b'.') w.visibility full lacks in
    rw (to_string_lem n, parse_name_lem, found, parsed, parts) (name_of_parts-parts_of n w)

-- `ParseName` returns the name `n` exactly if `n` is well formed and the text is the wire form
-- `n.String()`. So parsing and printing are inverse, and every other text is refused. The components
-- of a well-formed name are lowercase letters, digits, hyphens and underscores, the last of which the
-- comment of validateComponent does not name.
pub parse_name_iff : (s : Text) (n : Name) → (parse_name s ≡ ok n) ↔ (IsName n × (to_string n ≡ s))
parse_name_iff s n = (parse_name_sound s, λ h. rw (← h.1) (parse_name-to_string n h.0))
