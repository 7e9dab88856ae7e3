-- ===== src/Chat/Types.antt =====
-- The GraphQL types of agent/src/chat/generated/graphql.ts that the chat keeps, and the storage
-- interface of agent/src/chat/storage/types.ts. A date is a number of milliseconds.
use freysa_spark_hackathon.Common.{ℕ, Bool, Option, List, String, Run}
use freysa_spark_hackathon.Json.{Json}

pub data Role : Type 0 where
  assistant user : Role

pub record ToolCall : Type 0 where
  pub id : String
  pub name : String
  pub is_completed : Bool

-- The name is the value that the tool's result holds.
pub record ToolArg : Type 0 where
  pub name : Json
  pub arguments : String

pub record Message : Type 0 where
  pub id : String
  pub text : Option String
  pub role : Role
  pub created_at : ℕ
  pub image_urls : List String
  pub tool_calls : List ToolCall
  pub tool_args : List ToolArg

pub record Chat : Type 0 where
  pub id : String
  pub name : String
  pub created_at : ℕ
  pub messages : List Message

pub record CreateMessageInput : Type 0 where
  pub text : Option String
  pub role : Role
  pub image_urls : Option (List String)
  pub tool_calls : Option (List ToolCall)
  pub tool_args : Option (List ToolArg)

pub record ChatStorage (W : Type 0) : Type 0 where
  pub create_chat : String → String → Run W Chat
  pub get_chat : String → Run W (Option Chat)
  pub get_chats : ℕ → ℕ → String → Run W (List Chat)
  pub update_chat_title : String → String → Run W Chat
  pub delete_chat : String → Run W Chat
  pub create_message : String → CreateMessageInput → Run W Message
  pub get_messages : String → ℕ → ℕ → Run W (List Message)
  pub update_message : String → CreateMessageInput → Run W Message
