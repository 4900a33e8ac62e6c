-- ===== src/Tests/Channels.antt =====
-- The theorems on channel names and patterns, on names like "private:chat.room.42.typing".
use parsec.Channels.Name.Building.{build_name-private_without_id}
use parsec.Channels.Name.Grammar.{IsName}
use parsec.Channels.Name.Parsing.{named, parse_name_iff}
use parsec.Channels.Name.{Name, to_string, parse_name, build_name, visibility_private}
use parsec.Channels.Pattern.Matching.{Matches}
use parsec.Channels.Pattern.Naming.{matches_iff}
use parsec.Channels.Pattern.Parsing.{IsPattern, parse_pattern_iff}
use parsec.Channels.Pattern.{
  Pattern, literal, single_star, double_star, matches, name_segments, parse_pattern,
}
use parsec.Common.{true, [], ◌∷◌, ◌≡◌, ◌↔◌, refl, arith, codes, join, inr}
use parsec.Errors.{ok}

abbrev room : Name
room = named visibility_private (codes "chat") (codes "room") (codes "42") (codes "typing")

room-IsName : IsName room
room-IsName = record {
  visibility = inr refl;
  app = ground arith;
  domain = ground arith;
  id = ground arith;
  topic = ground arith;
  topic_behind_id = λ _. ground arith;
  private_with_id = λ _. ground arith;
}

abbrev pattern_of_rooms : Pattern
pattern_of_rooms = record {
  raw = codes "private:chat.*.**";
  visibility = visibility_private;
  segs = literal (codes "chat") ∷ single_star ∷ double_star ∷ [];
}

pattern_of_rooms-IsPattern : IsPattern pattern_of_rooms
unfolding join
pattern_of_rooms-IsPattern = record {
  visibility = inr refl;
  not_empty = ground arith;
  depth = ground arith;
  segments = ground arith;
  trailing = refl;
  raw = refl;
}

parse_name_iff_example :
    (parse_name (codes "private:chat.room.42.typing") ≡ ok room)
    ↔ (IsName room × (to_string room ≡ codes "private:chat.room.42.typing"))
parse_name_iff_example = parse_name_iff (codes "private:chat.room.42.typing") room

build_name-private_without_id_example :
    (build_name visibility_private (codes "chat") (codes "room") [] (codes "typing")
      ≡ ok (named visibility_private (codes "chat") (codes "room") [] (codes "typing")))
    × ¬ IsName (named visibility_private (codes "chat") (codes "room") [] (codes "typing"))
build_name-private_without_id_example =
    build_name-private_without_id (codes "chat") (codes "room") (codes "typing") (ground arith)
      (ground arith) (ground arith)

parse_pattern_iff_example :
    (parse_pattern (codes "private:chat.*.**") ≡ ok pattern_of_rooms)
    ↔ (IsPattern pattern_of_rooms × (pattern_of_rooms.raw ≡ codes "private:chat.*.**"))
parse_pattern_iff_example = parse_pattern_iff (codes "private:chat.*.**") pattern_of_rooms

matches_iff_example : (matches pattern_of_rooms room ≡ true) ↔ (
    (visibility_private ≡ visibility_private) × Matches pattern_of_rooms.segs (name_segments room))
matches_iff_example = matches_iff pattern_of_rooms room pattern_of_rooms-IsPattern
