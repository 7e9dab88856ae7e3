-- ===== src/Chat/Service.antt =====
-- ChatService of agent/src/chat/services/ChatService.ts over any storage, and
-- transformToOpenAIMessages of agent/src/chat/types.ts.
pub mod Answers
pub mod Sending
pub mod OnSqlite
use Prim.Native.String
use freysa_spark_hackathon.Common.{
  ℕ, Bool, true, false, Option, none, some, List, [], ◌∷◌, ◌++◌, map, String, Result, ok, err, Run,
  pure, throw, lift, on_error, catch, required, ◌>>=◌, ◌>>◌, if◌then◌else◌, is_truthy,
}
use freysa_spark_hackathon.Chat.Types.{
  Role, assistant, user, Message, Chat, CreateMessageInput, ChatStorage,
}

pub record OpenAiMessage : Type 0 where
  pub role : String
  pub content : Option String

abbrev pub role_name : Role → String
role_name assistant = "assistant"
role_name user = "user"

abbrev pub transform_to_open_ai_messages : List Message → List OpenAiMessage
transform_to_open_ai_messages messages =
    map (λ (m : Message). record { role = role_name m.role; content = m.text }) messages

-- What the service works with: the storage, the agent, the number of a chat's listeners as a test, and
-- what happens elsewhere while waitForSubscription waits, which ends in every case.
pub record Parts (W : Type 0) : Type 0 where
  pub storage : ChatStorage W
  pub execute : List OpenAiMessage → Run W String
  pub has_subscribers : W → String → Bool
  pub while_waiting : String → W → W

-- `emitted` is what emitMessage was given, with the world in which it was called, and `pending` the chats whose handleAIResponse has been
-- started by sendMessage.
pub record Serving (W : Type 0) : Type 0 where
  pub world : W
  pub emitted : List (String × Message × W)
  pub pending : List String

module _ {W : Type 0} (parts : Parts W) where
  unfoldable pub in_world : {A : Type 0} → Run W A → Run (Serving W) A
  in_world m s = let (r, w) = m s.world in (r, record s { world = w })

  abbrev pub failing : {A : Type 0} → String → Run (Serving W) A → Run (Serving W) A
  failing message m = catch m (λ _. throw message)

  abbrev pub not_found : String → String
  not_found id = String.◌++◌ "Chat with id " (String.◌++◌ id " not found")

  unfoldable pub get_chats : ℕ → ℕ → String → Run (Serving W) (List Chat)
  get_chats first offset user_id =
      failing "Failed to fetch chats" (in_world (parts.storage.get_chats first offset user_id))

  -- validateChat.
  unfoldable pub validate_chat : String → Run (Serving W) Chat
  validate_chat id = do found ← in_world (parts.storage.get_chat id); required found (not_found id)

  unfoldable pub get_chat : String → Run (Serving W) Chat
  get_chat id = failing "Failed to fetch chat" (validate_chat id)

  unfoldable pub create_chat : String → String → Run (Serving W) Chat
  create_chat name user_id =
      failing "Failed to create chat" (in_world (parts.storage.create_chat name user_id))

  -- The storage's results are chats, so they are never falsy here and in deleteChat.
  unfoldable pub update_chat_title : String → String → Run (Serving W) Chat
  update_chat_title chat_id title =
      failing "Failed to update chat title"
        (in_world (parts.storage.update_chat_title chat_id title))

  unfoldable pub delete_chat : String → Run (Serving W) Chat
  delete_chat chat_id =
      failing "Failed to delete chat" (in_world (parts.storage.delete_chat chat_id))

  abbrev pub user_input : String → CreateMessageInput
  user_input text = record {
    text = some text;
    role = user;
    image_urls = some [];
    tool_calls = some [];
    tool_args = none;
  }

  unfoldable pub create_user_message : String → String → Run (Serving W) Message
  create_user_message chat_id text =
      in_world (parts.storage.create_message chat_id (user_input text))

  abbrev pub emit_message : String → Message → Serving W → Serving W
  emit_message chat_id m s = record s { emitted = s.emitted ++ ((chat_id, m, s.world) ∷ []) }

  -- After the message is stored: wait, emit it, start the response.
  unfoldable pub announced : String → Message → Run (Serving W) Message
  announced chat_id m s =
      let t = emit_message chat_id m (record s { world = parts.while_waiting chat_id s.world }) in
      (ok m, record t { pending = t.pending ++ (chat_id ∷ []) })

  abbrev pub deliver : String → String → Run (Serving W) Message
  deliver chat_id text = do
    validate_chat chat_id
    message ← create_user_message chat_id text
    announced chat_id message

  unfoldable pub send_message : String → String → Run (Serving W) Message
  send_message chat_id text = failing "Failed to send message" (deliver chat_id text)

  abbrev pub number_of_messages : ℕ
  number_of_messages = 100

  abbrev pub apology : String
  apology = "An error occurred while processing your request. Please try again later."

  abbrev pub assistant_input : String → CreateMessageInput
  assistant_input text = record {
    text = some text;
    role = assistant;
    image_urls = some [];
    tool_calls = some [];
    tool_args = some [];
  }

  abbrev pub emit_to_subscribers : String → Message → Run (Serving W) (Unit {0})
  emit_to_subscribers chat_id m s =
      (ok tt, if parts.has_subscribers s.world chat_id then emit_message chat_id m s else s)

  unfoldable pub store_answer : String → String → Run (Serving W) (Unit {0})
  store_answer chat_id text =
      in_world (parts.storage.create_message chat_id (assistant_input text))
      >>= emit_to_subscribers chat_id

  abbrev pub non_empty : String → Run (Serving W) String
  non_empty result = if is_truthy result then pure result else throw "No response from AI agent"

  unfoldable pub ask_agent : String → Run (Serving W) String
  ask_agent chat_id = do
    messages ← in_world (parts.storage.get_messages chat_id number_of_messages 0)
    result ← in_world (parts.execute (transform_to_open_ai_messages messages))
    non_empty result

  unfoldable pub handle_ai_response : String → Run (Serving W) (Unit {0})
  handle_ai_response chat_id =
      catch (ask_agent chat_id >>= store_answer chat_id) (λ _. store_answer chat_id apology)
