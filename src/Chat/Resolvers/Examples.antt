-- ===== src/Chat/Resolvers/Examples.antt =====
-- A request to the plugin that deletes a chat.
use freysa_spark_hackathon.Common.{
  ◌≡◌, refl, true, Option, none, some, [], ◌∷◌, ◌++◌, ok, err, throw, Text, keep,
}
use freysa_spark_hackathon.Auth.{Jose, JwtService, Request, subscription}
use freysa_spark_hackathon.Chat.Types.{Chat}
use freysa_spark_hackathon.Chat.Storage.{Tables, find_chat, is_of}
use freysa_spark_hackathon.Chat.Storage.Postgres.{postgres}
use freysa_spark_hackathon.Chat.Storage.Samples.{database, one_row}
use freysa_spark_hackathon.Chat.Service.{Parts, Serving}
use freysa_spark_hackathon.Chat.Resolvers.{Field, delete_chat_field, chat, NoUser, resolved, serve}
use freysa_spark_hackathon.Chat.Resolvers.Deletions.{on_postgres, serve_deletes}

abbrev nobody : Jose (Unit {0})
nobody = record {
  import_spki = λ pem. err "bad key";
  jwt_verify = λ t key issuer audience. err "bad";
}

abbrev service : JwtService (Unit {0})
service = record {
  public_key = none;
  public_key_pem = "pem";
  issuer = "issuer";
  audience = "audience";
}

-- A document with the word in a comment, and no token.
abbrev request : Request
request = record {
  url = "/graphql";
  websocket_protocol = none;
  authorization = none;
  query = some (35 ∷ (subscription ++ (10 ∷ 123 ∷ 125 ∷ [])));
}

abbrev parts : Parts Tables
parts = record {
  storage = postgres database;
  execute = λ messages. throw "no model";
  has_subscribers = λ s chat_id. true;
  while_waiting = λ chat_id s. s;
}

abbrev no_user : NoUser Tables
no_user = record {
  get_chats = λ first offset s. (ok [], s);
  create_chat = λ name. throw "null value";
}

abbrev asked : Option Text → Option Field
asked query = some (delete_chat_field "c")

serve_deletes_example :
    (c : Chat) × (t : Serving Tables) × (serve
        (on_postgres database parts)
        no_user
        nobody
        asked
        request
        service
        (record { world = one_row; emitted = []; pending = [] })
      ≡ (resolved (ok (chat c)), t))
    × (find_chat "c" t.world.chats ≡ none)
    × (keep (is_of "c") t.world.messages ≡ [])
unfolding find_chat
serve_deletes_example =
    serve_deletes nobody service parts database no_user asked request (35 ∷ [])
      (10 ∷ 123 ∷ 125 ∷ []) "c" "c" _ _ refl refl refl refl
