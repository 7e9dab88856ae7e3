-- ===== src/Chat/Resolvers.antt =====
-- The resolvers of agent/src/chat/resolvers/index.ts, and a request to the plugin of
-- agent/src/chat/plugin.ts from its hook to the resolver that it reaches. A request holds one field of a
-- query or a mutation.
pub mod Deletions
mod Examples
use freysa_spark_hackathon.Common.{
  ℕ, Option, none, some, List, String, Result, Run, pure, ◌>>=◌, Text,
}
use freysa_spark_hackathon.Chat.Types.{Message, Chat}
use freysa_spark_hackathon.Chat.Service.{
  Parts, Serving, in_world, failing, get_chats, get_chat, create_chat, update_chat_title,
  delete_chat, send_message,
}
use freysa_spark_hackathon.Auth.{Jose, JwtService, Request, Outcome, passes, replies, pre_handler}

pub data Field : Type 0 where
  get_chats_field : ℕ → ℕ → Field
  get_chat_field : String → Field
  create_chat_field : String → Field
  send_message_field : String → String → Field
  update_title_field : String → String → Field
  delete_chat_field : String → Field

pub data Answer : Type 0 where
  chats : List Chat → Answer
  chat : Chat → Answer
  message : Message → Answer

-- What the storage does where the user id is undefined.
pub record NoUser (W : Type 0) : Type 0 where
  pub get_chats : ℕ → ℕ → Run W (List Chat)
  pub create_chat : String → Run W Chat

abbrev pub as_chat : {W : Type 0} → Run W Chat → Run W Answer
as_chat m = do c ← m; pure (chat c)

module _ {W : Type 0} (parts : Parts W) (no_user : NoUser W) where
  abbrev pub chats_of : Option String → ℕ → ℕ → Run (Serving W) (List Chat)
  chats_of (some user) first offset = get_chats parts first offset user
  chats_of none first offset =
      failing parts "Failed to fetch chats" (in_world parts (no_user.get_chats first offset))

  abbrev pub chat_for : Option String → String → Run (Serving W) Chat
  chat_for (some user) name = create_chat parts name user
  chat_for none name =
      failing parts "Failed to create chat" (in_world parts (no_user.create_chat name))

  -- Only getChats and createChat read the user id of the context.
  unfoldable pub resolve : Option String → Field → Run (Serving W) Answer
  resolve user (get_chats_field first offset) = do
    found ← chats_of user first offset
    pure (chats found)
  resolve user (get_chat_field id) = as_chat (get_chat parts id)
  resolve user (create_chat_field name) = as_chat (chat_for user name)
  resolve user (send_message_field chat_id text) = do
    m ← send_message parts chat_id text
    pure (message m)
  resolve user (update_title_field chat_id title) = as_chat (update_chat_title parts chat_id title)
  resolve user (delete_chat_field chat_id) = as_chat (delete_chat parts chat_id)

  -- What the client gets: the hook's reply, an error of the document, or what the resolver returns or throws.
  pub data Reply : Type 0 where
    replied : ℕ → String → Reply
    bad_document : Reply
    resolved : Result Answer → Reply

  abbrev resolve_field : Option String → Option Field → Serving W → Reply × Serving W
  resolve_field user none s = (bad_document, s)
  resolve_field user (some field) s = let (r, t) = resolve user field s in (resolved r, t)

  abbrev go_on : Option Field → Outcome → Serving W → Reply × Serving W
  go_on field (passes user) s = resolve_field user field s
  go_on field (replies status error) s = (replied status error, s)

  -- `read` finds the field of a GraphQL document.
  unfoldable pub serve :
      {Key : Type 0}
      → Jose Key
      → (Option Text → Option Field)
      → Request
      → JwtService Key
      → Serving W
      → Reply × Serving W
  serve jose read request service s =
      go_on (read request.query) (pre_handler jose request service).0 s
