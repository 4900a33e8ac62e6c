-- ===== src/Channels/Name.antt =====
-- channels/name.go: the grammar <visibility>:<app>.<domain>[.<id>][.<topic>] of channel names.
pub mod Grammar
pub mod Parsing
pub mod Building
use parsec.Common.{
  ℕ, suc, ◌+◌, Bool, true, false, ◌&&◌, ◌||◌, not, List, [], ◌∷◌, ◌++◌, Option, none, some, ltb,
  leb, ◌==◌, if◌then◌else◌, length, get_or, take, drop, Text, codes, text_eq, index_byte,
  contains_byte, split, join,
}
use parsec.Errors.{Result, ok, err, channel_invalid, ◌>>=◌, ◌>>◌}

-- `Visibility` is a string type.
abbrev pub Visibility : Type 0
Visibility = Text

abbrev pub visibility_public : Visibility
visibility_public = codes "public"

abbrev pub visibility_private : Visibility
visibility_private = codes "private"

pub record Name : Type 0 where
  pub visibility : Visibility
  pub app : Text
  pub domain : Text
  pub id : Text
  pub topic : Text

-- `if n.ID != "" { parts = append(parts, n.ID) }`
append_present : List Text → Text → List Text
append_present parts [] = parts
append_present parts (c ∷ s) = parts ++ (c ∷ s) ∷ []

-- The slice `parts` of `Name.String`.
unfoldable pub parts_of : Name → List Text
unfolding append_present
parts_of n = append_present (append_present (n.app ∷ n.domain ∷ []) n.id) n.topic

-- `Name.String`
unfoldable pub to_string : Name → Text
unfolding parts_of join
to_string n = n.visibility ++ b':' ∷ join (parts_of n) b'.'

unfoldable pub is_private : Name → Bool
is_private n = text_eq n.visibility visibility_private

-- One case of the `switch`: a byte that may stand in a component. A rune outside ASCII takes bytes
-- from 128 on, so the loop over runes refuses it as this loop over bytes does.
unfoldable pub is_component_byte : ℕ → Bool
is_component_byte r =
    (leb b'a' r && leb r b'z') || (leb b'0' r && leb r b'9') || r == b'-' || r == b'_'

unfoldable pub all_component_bytes : Text → Bool
all_component_bytes [] = true
all_component_bytes (r ∷ s) = if is_component_byte r then all_component_bytes s else false

-- `validateComponent`
unfoldable pub validate_component : Text → Result (Unit {0})
validate_component [] = err channel_invalid
validate_component (r ∷ s) = if all_component_bytes (r ∷ s) then ok tt else err channel_invalid

-- `for _, p := range parts`
pub validate_components : List Text → Result (Unit {0})
validate_components [] = ok tt
validate_components (p ∷ parts) = validate_component p >> validate_components parts

-- `ParseName` behind the validation of the parts.
assemble : Visibility → List Text → Result Name
assemble vis parts =
    let id = if leb 3 (length parts) then get_or parts 2 [] else [] in
    let topic = if length parts == 4 then get_or parts 3 [] else [] in
    let n : Name = record {
      visibility = vis;
      app = get_or parts 0 [];
      domain = get_or parts 1 [];
      id = id;
      topic = topic;
    } in
    if text_eq vis visibility_private && text_eq id [] then err channel_invalid else ok n

-- `ParseName` from the bounds on the number of parts.
name_of_parts : Visibility → List Text → Result Name
name_of_parts vis parts =
    if ltb (length parts) 2
    then err channel_invalid
    else if ltb 4 (length parts)
    then err channel_invalid
    else (validate_components parts >> assemble vis parts)

-- `ParseName` behind the search for the colon.
parse_at : Text → ℕ → Result Name
parse_at s colon =
    let vis = take colon s in
    let rest = drop (suc colon) s in
    if colon == 0 || suc colon == length s
    then err channel_invalid
    else if not (text_eq vis visibility_public) && not (text_eq vis visibility_private)
    then err channel_invalid
    else if contains_byte rest b':'
    then err channel_invalid
    else name_of_parts vis (split rest b'.')

unfoldable pub parse_name : Text → Result Name
unfolding parse_at split name_of_parts assemble validate_components validate_component
    all_component_bytes is_component_byte
parse_name s = elim (index_byte s b':') [
  | none ↦ err channel_invalid
  | some colon ↦ parse_at s colon
]

-- `BuildName`
unfoldable pub build_name : Visibility → Text → Text → Text → Text → Result Name
unfolding parse_name to_string
build_name vis app domain id topic =
    let n : Name = record {
      visibility = vis;
      app = app;
      domain = domain;
      id = id;
      topic = topic;
    } in
    parse_name (to_string n) >>= λ _. ok n
