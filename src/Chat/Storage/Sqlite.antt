-- ===== src/Chat/Storage/Sqlite.antt =====
-- SQLiteChatStorage of agent/src/chat/storage/sqlite.ts. An id may be any text.
-- Foreign keys are enforced, as better-sqlite3 does unless told otherwise.
use Prim.Native.String
use text.Mathlib.Text.{◌==◌ as str_eq}
use freysa_spark_hackathon.Common.{
  ℕ, Option, none, some, List, [], ◌∷◌, map, String, ok, Run, pure, throw, required, ◌>>=◌, ◌>>◌,
  keep,
}
use freysa_spark_hackathon.Chat.Types.{Message, Chat, CreateMessageInput, ChatStorage}
use freysa_spark_hackathon.Chat.Storage.{
  ChatRow, MessageRow, Tables, Database, find_chat, find_message, map_row_to_chat,
  map_row_to_message, new_row, new_chat, insert_message, insert_chat, is_of, window, renamed,
  rewritten, delete_rows,
}

module _ (db : Database) where
  abbrev pub select_chat : String → Run Tables (Option ChatRow)
  select_chat id s = (ok (find_chat id s.chats), s)

  unfoldable pub create_chat : String → String → Run Tables Chat
  create_chat name user_id s =
      let row = new_chat db name user_id s in (ok (map_row_to_chat row), insert_chat row s)

  unfoldable pub get_messages : String → ℕ → ℕ → Run Tables (List Message)
  get_messages chat_id first offset s = (
    ok (
        map map_row_to_message
          (window first offset (db.messages_desc (keep (is_of chat_id) s.messages)))),
    s,
  )

  abbrev pub with_messages : ChatRow → Run Tables Chat
  with_messages row = do
    messages ← get_messages row.id 100 0
    pure (record (map_row_to_chat row) { messages = messages })

  abbrev pub if_found : Option ChatRow → Run Tables (Option Chat)
  if_found none = pure none
  if_found (some row) = do chat ← with_messages row; pure (some chat)

  unfoldable pub get_chat : String → Run Tables (Option Chat)
  get_chat id = select_chat id >>= if_found

  unfoldable pub each_with_messages : List ChatRow → Run Tables (List Chat)
  each_with_messages [] = pure []
  each_with_messages (row ∷ rows) = do
    chat ← with_messages row
    chats ← each_with_messages rows
    pure (chat ∷ chats)

  unfoldable pub get_chats : ℕ → ℕ → String → Run Tables (List Chat)
  get_chats first offset user_id s =
      each_with_messages
        (window first offset (db.chats_desc (keep (λ row. str_eq row.user_id user_id) s.chats))) s

  abbrev pub not_found : String → String
  not_found id = String.◌++◌ "Chat with id " (String.◌++◌ id " not found")

  unfoldable pub update_chat_title : String → String → Run Tables Chat
  update_chat_title id title = do
    (λ s. (ok tt, record s { chats = map (renamed id title) s.chats }))
    found ← select_chat id
    row ← required found (not_found id)
    with_messages row

  unfoldable pub delete_chat : String → Run Tables Chat
  delete_chat id = do
    found ← select_chat id
    row ← required found (not_found id)
    messages ← get_messages id 100 0
    (λ s. (ok tt, delete_rows id s))
    pure (record (map_row_to_chat row) { messages = messages })

  -- mapRowToMessage reads a property of the row, which is undefined where none was found.
  abbrev pub read_row : Option MessageRow → Run Tables Message
  read_row none = throw "Cannot read properties of undefined (reading 'id')"
  read_row (some row) = pure (map_row_to_message row)

  abbrev pub insert_into : String → CreateMessageInput → Option ChatRow → Run Tables Message
  insert_into chat_id input none s = throw "FOREIGN KEY constraint failed" s
  insert_into chat_id input (some chat) s =
      let t = insert_message (new_row db chat_id input s) s in
      read_row (find_message (db.last_insert_rowid t) t.messages) t

  unfoldable pub create_message : String → CreateMessageInput → Run Tables Message
  create_message chat_id input = select_chat chat_id >>= insert_into chat_id input

  unfoldable pub update_message : String → CreateMessageInput → Run Tables Message
  update_message id input = do
    (λ s. (ok tt, record s { messages = map (rewritten id input) s.messages }))
    row ← (λ s.
        required (find_message id s.messages)
          (String.◌++◌ "Message with id " (String.◌++◌ id " not found")) s)
    pure (map_row_to_message row)

  abbrev pub sqlite : ChatStorage Tables
  sqlite = record {
    create_chat = create_chat;
    get_chat = get_chat;
    get_chats = get_chats;
    update_chat_title = update_chat_title;
    delete_chat = delete_chat;
    create_message = create_message;
    get_messages = get_messages;
    update_message = update_message;
  }
