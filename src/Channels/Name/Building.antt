-- ===== src/Channels/Name/Building.antt =====
-- `BuildName`: it validates the wire form, and returns the fields that it was given.

use parsec.Channels.Name.Grammar.{IsName, IsComponent}
use parsec.Channels.Name.Parsing.{named, parse_name_iff}
use parsec.Channels.Name.{Name, to_string, visibility_private, parse_name, build_name}
use parsec.Common.{ℕ, [], ◌∷◌, ◌≡◌, refl, sym, inl, inr, Text}
use parsec.Errors.{ok}

build_name_of :
    (vis a d i t : Text) {m : Name}
    → parse_name (to_string (named vis a d i t)) ≡ ok m
    → build_name vis a d i t ≡ ok (named vis a d i t)
unfolding build_name
build_name_of vis a d i t h = rw h

-- `BuildName` accepts the components of every well-formed name, and returns that name.
build_name-IsName :
    (n : Name) → IsName n → build_name n.visibility n.app n.domain n.id n.topic ≡ ok n
build_name-IsName n w =
    build_name_of n.visibility n.app n.domain n.id n.topic ((parse_name_iff _ n).1 (w, refl))

-- A topic with no id in front of it is printed like an id.
to_string_of_topic :
    (vis a d : Text) (y : ℕ) (t : Text)
    → to_string (named vis a d [] (y ∷ t)) ≡ to_string (named vis a d (y ∷ t) [])
unfolding to_string
to_string_of_topic vis a d y t = refl

-- For every app, domain and topic, `BuildName` accepts a private channel that has a topic and no
-- id, although a private channel needs an id: the name that it returns is not well formed.
pub build_name-private_without_id :
    (a d t : Text)
    → IsComponent a
    → IsComponent d
    → IsComponent t
    → (build_name visibility_private a d [] t ≡ ok (named visibility_private a d [] t))
      × ¬ IsName (named visibility_private a d [] t)
build_name-private_without_id a d [] ca cd ct = absurd (ct.0 refl)
build_name-private_without_id a d (y ∷ t) ca cd ct =
    let n : Name = named visibility_private a d (y ∷ t) [] in
    let w : IsName n = record {
      visibility = inr refl;
      app = ca;
      domain = cd;
      id = inr ct;
      topic = inl refl;
      topic_behind_id = λ _. ct.0;
      private_with_id = λ _. ct.0;
    } in
    (
      build_name_of visibility_private a d [] (y ∷ t)
          ((parse_name_iff _ n).1 (w, sym (to_string_of_topic visibility_private a d y t))),
      λ bad. bad.private_with_id refl refl,
    )
