-- ===== src/Tests/Creating.antt =====
-- The theorem on channels whose tokens are refused, with a scope that has no verb.
use parsec.Auth.Issuer.{
  Issuer, World, minted, TokenClaims, minute, issue_pair, validate_scopes, validate_scope,
}
use parsec.Auth.Issuer.{scope_without_verb, refused}
use parsec.Auth.Scope.{Scope, compiled}
use parsec.Channels.Manager
use parsec.Channels.Manager.{Manager}
use parsec.Channels.Name.Parsing.{named}
use parsec.Channels.Name.{
  Name, parse_name, to_string, parts_of, visibility_private, all_component_bytes, is_component_byte,
}
use parsec.Channels.Pattern.{parse_pattern}
use parsec.Channels.Store
use parsec.Channels.Store.{Channel, fresh_channel, state_deleted}
use parsec.Common.{
  false, List, [], ◌∷◌, ◌*◌, ◌++◌, ◌≡◌, ◌≢◌, refl, none, some, codes, join, pos, lookup, insert,
}
use parsec.Errors.{ok, err, invalid_argument}
use parsec.Facade.Channels.Burning.{refused_name_is_burnt}
use parsec.Facade.Channels.{Credentials, create_private_by_name}

abbrev issuer : Issuer
issuer = record { access_ttl = pos (5 * minute); max_refresh_ttl = pos (60 * minute) }

abbrev world : World
world = record {
  now = 7;
  new_jti = minted (codes "n");
  new_fid = minted (codes "f");
  new_access_jti = minted (codes "a");
  sign = λ (c : TokenClaims). minted (c.sub ++ c.jti);
}

abbrev room : Name
room = named visibility_private (codes "chat") (codes "room") (codes "r1") []

room_parses : parse_name (codes "private:chat.room.r1") ≡ ok room
unfolding parse_name all_component_bytes is_component_byte
room_parses = refl

abbrev no_verb : List Scope
no_verb = record { pattern = codes "private:chat.**"; verbs = []; deny = false; cached = none } ∷ []

abbrev empty : Manager
empty = record { store = []; subs = []; bus = none; on_sweep = none }

abbrev channel : Channel
channel = fresh_channel room (pos minute) 7

created : (Manager.create_private room (pos minute) 7 empty).1 ≡ ok channel
unfolding Manager.create_private Manager.finish Manager.emit Manager.emit_local Store.create_private
    to_string parts_of join lookup insert
created = refl

not_issued :
    issue_pair issuer world (codes "ann") (to_string room) channel.ttl no_verb
    ≡ refused scope_without_verb
unfolding issue_pair to_string parts_of join validate_scopes validate_scope compiled parse_pattern
    all_component_bytes is_component_byte
not_issued = refl

abbrev credentials : Credentials
credentials = record {
  name = room;
  pair = record {
    access_token = codes "a";
    refresh_token = codes "b";
    access_expires = 1;
    refresh_expires = 2;
  };
}

refused_name_is_burnt_example :
    let (m, answer) =
      create_private_by_name issuer world
        (codes "ann")
        (codes "private:chat.room.r1")
        (pos minute)
        no_verb
        empty in
    (answer ≡ err invalid_argument)
    × (lookup (to_string room) m.store ≡ some (record channel { state = state_deleted }))
    × ((create_private_by_name issuer world
          (codes "ann")
          (codes "private:chat.room.r1")
          (pos minute)
          []
          m).1
        ≢ ok credentials)
refused_name_is_burnt_example =
    refused_name_is_burnt issuer issuer world world (codes "ann") (codes "ann")
      (codes "private:chat.room.r1") room (pos minute) (pos minute) no_verb [] empty channel
      scope_without_verb credentials room_parses created not_issued
