-- ===== src/Chat/Storage.antt =====
-- The tables of chat/storage/migrations/migrate.js and of the constructor in chat/storage/sqlite.ts, and
-- the SQL statements that both storages run on them. A JSON column is the value that is stored in it.
-- A generated id is taken to be new. A statement fails only where a foreign key or a text that is no id
-- makes it fail.
pub mod Postgres
pub mod Sqlite
pub mod Windows
pub mod Deletion
pub mod Rows
pub mod Reads
pub mod Links
pub mod Threads
pub mod Selections
pub mod Statements
pub mod Refinement
pub mod Runs
pub mod Samples
mod Examples
use text.Mathlib.Text.{◌==◌ as str_eq}
use freysa_spark_hackathon.Common.{
  ℕ, Bool, Option, none, some, List, [], ◌∷◌, ◌++◌, String, keep, take, drop, if◌then◌else◌, not,
}
use freysa_spark_hackathon.Chat.Types.{Role, ToolCall, ToolArg, Message, Chat, CreateMessageInput}

pub record ChatRow : Type 0 where
  pub id : String
  pub name : String
  pub user_id : String
  pub created_at : ℕ

pub record MessageRow : Type 0 where
  pub id : String
  pub chat_id : String
  pub text : Option String
  pub role : Role
  pub tool_calls : Option (List ToolCall)
  pub tool_call_id : Option String
  pub tool_args : Option (List ToolArg)
  pub image_urls : Option (List String)
  pub created_at : ℕ

pub record Tables : Type 0 where
  pub chats : List ChatRow
  pub messages : List MessageRow

-- What the database does on its own: the ids that it generates, its clock, the order of rows by
-- created_at, where rows of one time stand in an order of its own, the id that a text
-- stands for, in the form in which ids are stored, where it stands for one (a text may have other letters'
-- case, or braces), and the text of the row number that an insert reports.
pub record Database : Type 0 where
  pub uuid : Tables → String
  pub now : Tables → ℕ
  pub messages_asc : List MessageRow → List MessageRow
  pub messages_desc : List MessageRow → List MessageRow
  pub chats_desc : List ChatRow → List ChatRow
  pub uuid_of : String → Option String
  pub last_insert_rowid : Tables → String

-- `value || []`.
abbrev pub or_empty : {A : Type 0} → Option (List A) → List A
or_empty none = []
or_empty (some xs) = xs

abbrev pub first_id : Option (List ToolCall) → Option String
first_id none = none
first_id (some []) = none
first_id (some (call ∷ calls)) = some call.id

-- `SELECT * FROM chats WHERE id = ?`, for an id in the form in which ids are stored.
unfoldable pub find_chat : String → List ChatRow → Option ChatRow
find_chat id [] = none
find_chat id (row ∷ rows) = if str_eq row.id id then some row else find_chat id rows

unfoldable pub find_message : String → List MessageRow → Option MessageRow
find_message id [] = none
find_message id (row ∷ rows) = if str_eq row.id id then some row else find_message id rows

-- mapRowToChat.
abbrev pub map_row_to_chat : ChatRow → Chat
map_row_to_chat row = record {
  id = row.id;
  name = row.name;
  created_at = row.created_at;
  messages = [];
}

-- mapRowToMessage.
abbrev pub map_row_to_message : MessageRow → Message
map_row_to_message row = record {
  id = row.id;
  text = row.text;
  role = row.role;
  created_at = row.created_at;
  image_urls = or_empty row.image_urls;
  tool_calls = or_empty row.tool_calls;
  tool_args = or_empty row.tool_args;
}

-- The row of `INSERT INTO messages`.
abbrev pub new_row : Database → String → CreateMessageInput → Tables → MessageRow
new_row db chat_id input s = record {
  id = db.uuid s;
  chat_id = chat_id;
  text = input.text;
  role = input.role;
  tool_calls = some (or_empty input.tool_calls);
  tool_call_id = first_id input.tool_calls;
  tool_args = some (or_empty input.tool_args);
  image_urls = some (or_empty input.image_urls);
  created_at = db.now s;
}

abbrev pub new_chat : Database → String → String → Tables → ChatRow
new_chat db name user_id s = record {
  id = db.uuid s;
  name = name;
  user_id = user_id;
  created_at = db.now s;
}

abbrev pub insert_message : MessageRow → Tables → Tables
insert_message row s = record s { messages = s.messages ++ (row ∷ []) }

abbrev pub insert_chat : ChatRow → Tables → Tables
insert_chat row s = record s { chats = s.chats ++ (row ∷ []) }

-- `WHERE chat_id = ?`.
abbrev pub is_of : String → MessageRow → Bool
is_of chat_id row = str_eq row.chat_id chat_id

-- `LIMIT first OFFSET offset`.
abbrev pub window : {A : Type 0} → ℕ → ℕ → List A → List A
window first offset rows = take first (drop offset rows)

abbrev pub renamed : String → String → ChatRow → ChatRow
renamed id title row = if str_eq row.id id then record row { name = title } else row

-- `SET text = …, role = …, image_urls = …, tool_calls = …, tool_args = …`.
abbrev pub rewritten : String → CreateMessageInput → MessageRow → MessageRow
rewritten id input row =
    if str_eq row.id id
    then record row {
      text = input.text;
      role = input.role;
      image_urls = some (or_empty input.image_urls);
      tool_calls = some (or_empty input.tool_calls);
      tool_args = some (or_empty input.tool_args);
    }
    else row

-- `onDelete: "cascade"`: the messages that do not refer to the chat.
abbrev pub cascade : String → List MessageRow → List MessageRow
cascade id rows = keep (λ row. not (is_of id row)) rows

-- `DELETE FROM chats WHERE id = ?`, with the messages that refer to the chat.
abbrev pub delete_rows : String → Tables → Tables
delete_rows id s = record {
  chats = keep (λ row. not (str_eq row.id id)) s.chats;
  messages = cascade id s.messages;
}
