-- ===== src/Chat/Resolvers/Deletions.antt =====
-- Who may delete a chat.
use freysa_spark_hackathon.Common.{
  ◌≡◌, refl, ap, Option, none, some, [], ◌++◌, String, ok, Text, ◌>>=◌, keep, map,
}
use freysa_spark_hackathon.Auth.{Jose, JwtService, Request, subscription}
use freysa_spark_hackathon.Auth.Access.{pre_handler_subscription}
use freysa_spark_hackathon.Chat.Types.{Chat}
use freysa_spark_hackathon.Chat.Storage.{
  ChatRow, Tables, Database, find_chat, is_of, delete_rows, map_row_to_chat, map_row_to_message,
  window,
}
use freysa_spark_hackathon.Chat.Storage.Postgres.{delete_chat, get_messages, postgres}
use freysa_spark_hackathon.Chat.Storage.Deletion.{find_chat-deleted, keep-deleted}
use freysa_spark_hackathon.Chat.Service.{Parts, Serving, in_world, delete_chat as service_delete}
use freysa_spark_hackathon.Chat.Resolvers.{
  Field, delete_chat_field, chat, NoUser, resolve, resolved, serve,
}

abbrev pub on_postgres : Database → Parts Tables → Parts Tables
on_postgres db parts = record parts { storage = postgres db }

-- A chat that is stored can be deleted, and its rows and messages go.
delete_chat_found :
    (db : Database) (text id : String) (s : Tables) (row : ChatRow)
    → db.uuid_of text ≡ some id
    → find_chat id s.chats ≡ some row
    → (c : Chat) × (delete_chat db text s ≡ (ok c, delete_rows id s))
unfolding delete_chat get_messages ◌>>=◌
delete_chat_found db text id s row u f = (
  record (map_row_to_chat row) {
    messages = map map_row_to_message (window 100 0 (db.messages_asc (keep (is_of id) s.messages)));
  },
  rw (u, f) refl,
)

resolve_deleted :
    (parts : Parts Tables) (db : Database) (no_user : NoUser Tables) (user : Option String)
    (id : String) (s : Serving Tables) (c : Chat) (t : Tables)
    → delete_chat db id s.world ≡ (ok c, t)
    → resolve (on_postgres db parts) no_user user (delete_chat_field id) s
      ≡ (ok (chat c), record s { world = t })
unfolding resolve service_delete in_world ◌>>=◌
resolve_deleted parts db no_user user id s c t e = rw e refl

module _ {Key : Type 0} (jose : Jose Key) (service : JwtService Key) (parts : Parts Tables)
    (db : Database) (no_user : NoUser Tables) (read : Option Text → Option Field) where
  -- On the Postgres storage, a request without a token whose document has the word subscription anywhere
  -- in it, and asks to delete a stored chat, by a text that stands for its id, deletes it whoever owns it: the
  -- chat and all its messages go.
  pub serve_deletes :
      (request : Request) (a b : Text) (text id : String) (s : Serving Tables) (row : ChatRow)
      → request.query ≡ some (a ++ (subscription ++ b))
      → read request.query ≡ some (delete_chat_field text)
      → db.uuid_of text ≡ some id
      → find_chat id s.world.chats ≡ some row
      → (c : Chat) × (t : Serving Tables) × (serve
            (on_postgres db parts)
            no_user
            jose
            read
            request
            service
            s
          ≡ (resolved (ok (chat c)), t))
        × (find_chat id t.world.chats ≡ none)
        × (keep (is_of id) t.world.messages ≡ [])
  unfolding serve
  serve_deletes request a b text id s row q asks u f =
      let (c, deleted) = delete_chat_found db text id s.world row u f in
      let open_door = ap (λ p. p.0) (pre_handler_subscription jose service request a b q) in
      (
        c,
        record s { world = delete_rows id s.world },
        rw
            (
              open_door,
              asks,
              resolve_deleted parts db no_user none text s c (delete_rows id s.world) deleted,
            )
            refl,
        find_chat-deleted id s.world.chats,
        keep-deleted id s.world.messages,
      )
