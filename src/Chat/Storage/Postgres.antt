-- ===== src/Chat/Storage/Postgres.antt =====
-- PostgresChatStorage of agent/src/chat/storage/postgres.ts. An id is a UUID: a text that is none
-- makes a statement throw that compares it with an id, and else the statement compares the stored ids with
-- the id that the text stands for.
use Prim.Native.String
use text.Mathlib.Text.{◌==◌ as str_eq}
use freysa_spark_hackathon.Common.{
  ℕ, Option, none, some, List, [], ◌∷◌, map, String, ok, Run, pure, required, ◌>>=◌, ◌>>◌, keep,
}
use freysa_spark_hackathon.Chat.Types.{Message, Chat, CreateMessageInput, ChatStorage}
use freysa_spark_hackathon.Chat.Storage.{
  ChatRow, Tables, Database, find_chat, find_message, map_row_to_chat, map_row_to_message, new_row,
  new_chat, insert_message, insert_chat, is_of, window, renamed, rewritten, delete_rows,
}

module _ (db : Database) where
  abbrev pub id_param : String → Run Tables String
  id_param text = required (db.uuid_of text) "invalid input syntax for type uuid"

  abbrev pub select_chat : String → Run Tables (Option ChatRow)
  select_chat text = do id ← id_param text; (λ s. (ok (find_chat id s.chats), s))

  unfoldable pub create_chat : String → String → Run Tables Chat
  create_chat name user_id s =
      let row = new_chat db name user_id s in (ok (map_row_to_chat row), insert_chat row s)

  unfoldable pub get_messages : String → ℕ → ℕ → Run Tables (List Message)
  get_messages text first offset = do
    chat_id ← id_param text
    (λ s. (
      ok (
          map map_row_to_message
            (window first offset (db.messages_asc (keep (is_of chat_id) s.messages)))),
      s,
    ))

  abbrev pub with_messages : String → ChatRow → Run Tables Chat
  with_messages text row = do
    messages ← get_messages text 100 0
    pure (record (map_row_to_chat row) { messages = messages })

  abbrev pub if_found : String → Option ChatRow → Run Tables (Option Chat)
  if_found text none = pure none
  if_found text (some row) = do chat ← with_messages text row; pure (some chat)

  unfoldable pub get_chat : String → Run Tables (Option Chat)
  get_chat id = select_chat id >>= if_found id

  unfoldable pub each_with_messages : List ChatRow → Run Tables (List Chat)
  each_with_messages [] = pure []
  each_with_messages (row ∷ rows) = do
    chat ← with_messages row.id row
    chats ← each_with_messages rows
    pure (chat ∷ chats)

  unfoldable pub get_chats : ℕ → ℕ → String → Run Tables (List Chat)
  get_chats first offset user_id s =
      each_with_messages
        (window first offset (db.chats_desc (keep (λ row. str_eq row.user_id user_id) s.chats))) s

  abbrev pub not_found : String → String
  not_found id = String.◌++◌ "Chat with id " (String.◌++◌ id " not found")

  unfoldable pub update_chat_title : String → String → Run Tables Chat
  update_chat_title text title = do
    id ← id_param text
    (λ s. (ok tt, record s { chats = map (renamed id title) s.chats }))
    found ← (λ s. (ok (find_chat id s.chats), s))
    row ← required found (not_found text)
    with_messages text row

  -- Every error is thrown before the DELETE, so the ROLLBACK undoes nothing.
  unfoldable pub delete_chat : String → Run Tables Chat
  delete_chat text = do
    found ← select_chat text
    row ← required found (not_found text)
    messages ← get_messages text 100 0
    id ← id_param text
    (λ s. (ok tt, delete_rows id s))
    pure (record (map_row_to_chat row) { messages = messages })

  -- `references: "chats"`: the chat that a new message refers to has to be stored.
  abbrev pub referenced : String → Run Tables ChatRow
  referenced chat_id s =
      required (find_chat chat_id s.chats)
        "insert or update on table \"messages\" violates foreign key constraint" s

  abbrev pub insert_into : String → CreateMessageInput → Run Tables Message
  insert_into chat_id input s =
      let row = new_row db chat_id input s in (ok (map_row_to_message row), insert_message row s)

  unfoldable pub create_message : String → CreateMessageInput → Run Tables Message
  create_message text input = do
    chat_id ← id_param text
    referenced chat_id
    insert_into chat_id input

  unfoldable pub update_message : String → CreateMessageInput → Run Tables Message
  update_message text input = do
    id ← id_param text
    (λ s. (ok tt, record s { messages = map (rewritten id input) s.messages }))
    row ← (λ s.
        required (find_message id s.messages)
          (String.◌++◌ "Message with id " (String.◌++◌ text " not found")) s)
    pure (map_row_to_message row)

  abbrev pub postgres : ChatStorage Tables
  postgres = record {
    create_chat = create_chat;
    get_chat = get_chat;
    get_chats = get_chats;
    update_chat_title = update_chat_title;
    delete_chat = delete_chat;
    create_message = create_message;
    get_messages = get_messages;
    update_message = update_message;
  }
