-- ===== src/Chat/Storage/Threads.antt =====
-- What the Postgres storage promises, without its rows: a store maps the id of a chat to a thread, and each
-- call changes it. The order of rows of different chats is forgotten.
use text.Mathlib.Text.{◌==◌ as str_eq}
use freysa_spark_hackathon.Common.{
  ℕ, Option, none, some, List, [], ◌∷◌, ◌++◌, map, String, keep, if◌then◌else◌,
}
use freysa_spark_hackathon.Chat.Types.{Message, CreateMessageInput}
use freysa_spark_hackathon.Chat.Storage.{
  ChatRow, MessageRow, Tables, or_empty, find_chat, is_of, map_row_to_message,
}
use freysa_spark_hackathon.Chat.Storage.Links.{
  Call, create_chat_call, get_chat_call, get_chats_call, update_title_call, delete_chat_call,
  create_message_call, get_messages_call, update_message_call,
}

pub record Thread : Type 0 where
  pub name : String
  pub owner : String
  pub messages : List Message

abbrev pub Store : Type 0
Store = String → Option Thread

-- The rows of a chat as a thread.
abbrev pub thread : List MessageRow → Option ChatRow → Option Thread
thread rows none = none
thread rows (some row) =
    some (record { name = row.name; owner = row.user_id; messages = map map_row_to_message rows })

abbrev pub store_of : Tables → Store
store_of s id = thread (keep (is_of id) s.messages) (find_chat id s.chats)

-- The thread of one id, changed by a function.
abbrev pub change_at : String → (Option Thread → Option Thread) → Store → Store
change_at id f store chat = if str_eq id chat then f (store chat) else store chat

abbrev pub with_name : String → Option Thread → Option Thread
with_name name none = none
with_name name (some t) = some (record t { name = name })

abbrev pub with_messages_of : (List Message → List Message) → Option Thread → Option Thread
with_messages_of f none = none
with_messages_of f (some t) = some (record t { messages = f t.messages })

abbrev pub message_of : String → ℕ → CreateMessageInput → Message
message_of id at input = record {
  id = id;
  text = input.text;
  role = input.role;
  created_at = at;
  image_urls = or_empty input.image_urls;
  tool_calls = or_empty input.tool_calls;
  tool_args = or_empty input.tool_args;
}

abbrev pub edited : String → CreateMessageInput → Message → Message
edited id input m = if str_eq m.id id then message_of m.id m.created_at input else m

-- A change at the id that a text stands for; a text that stands for none changes nothing.
abbrev pub accepted : Option String → (String → Store) → Store → Store
accepted none change store = store
accepted (some id) change store = change id

-- What a call does to a store, where `reads` gives the id that a text stands for, and a chat or a message
-- that is made is given this id and time.
abbrev pub store_after : (String → Option String) → String → ℕ → Call → Store → Store
store_after reads new_id now (create_chat_call name owner) store =
    change_at new_id (λ t. some (record { name = name; owner = owner; messages = [] })) store
store_after reads new_id now (update_title_call id title) store =
    accepted (reads id) (λ i. change_at i (with_name title) store) store
store_after reads new_id now (delete_chat_call id) store =
    accepted (reads id) (λ i. change_at i (λ t. none) store) store
store_after reads new_id now (create_message_call id input) store =
    accepted (reads id)
      (λ i. change_at i (with_messages_of (λ ms. ms ++ (message_of new_id now input ∷ []))) store)
      store
store_after reads new_id now (update_message_call id input) store =
    accepted (reads id) (λ i chat. with_messages_of (map (edited i input)) (store chat)) store
store_after reads new_id now (get_chat_call id) store = store
store_after reads new_id now (get_chats_call first offset owner) store = store
store_after reads new_id now (get_messages_call id first offset) store = store
